-- ===== src/Net.antt =====
-- The network stack of i386/whitex/internet.h: the pool of packet buffers, the device and the
-- rings of its card, the ARP cache and the sockets, as one state. A pointer to a buffer is its
-- index in the pool, and a packed header is the list of its bytes.
pub mod Checksum
pub mod Header
pub mod Arp
pub mod Send
pub mod Receive
pub mod Sockets
pub mod Pool
pub mod Leak
pub mod Frames
pub mod Found
pub mod Tcp
pub mod Ping
pub mod Tests
use whitex_kernel.Prelude.{
  ℕ, zero, suc, ◌+◌, ◌-◌, ◌*◌, ◌/◌, ◌%◌, Bool, true, false, Option, none, some, List, [], ◌∷◌, ◌++◌,
  ltb, leb, ◌==◌, ◌&&◌, not, if◌then◌else◌, update, length,
}
use whitex_kernel.Prelude.Words.{add32, sub32}
use whitex_kernel.Prelude.Search.{first_index}

abbrev pub u16 : ℕ
u16 = 65536

abbrev pub add16 : ℕ → ℕ → ℕ
add16 a b = (a + b) % u16

abbrev pub sub16 : ℕ → ℕ → ℕ
sub16 a b = (a + u16 - b % u16) % u16

-- WX_HTONS and WX_NTOHS
abbrev pub wx_htons : ℕ → ℕ
wx_htons x = x / 256 % 256 + x % 256 * 256

-- WX_HTONL and WX_NTOHL
abbrev pub wx_htonl : ℕ → ℕ
wx_htonl x = x / 16777216 % 256 + x / 65536 % 256 * 256 + x / 256 % 256 * 65536 + x % 256 * 16777216

-- the bytes of an integer in memory, on the little-endian i386
abbrev pub le16 : ℕ → List ℕ
le16 x = x % 256 ∷ x / 256 % 256 ∷ []

abbrev pub le32 : ℕ → List ℕ
le32 x = x % 256 ∷ x / 256 % 256 ∷ x / 65536 % 256 ∷ x / 16777216 % 256 ∷ []

abbrev pub read16 : (ℕ → ℕ) → ℕ → ℕ
read16 b at = b at + b (at + 1) * 256

abbrev pub read32 : (ℕ → ℕ) → ℕ → ℕ
read32 b at = read16 b at + read16 b (at + 2) * 65536

-- bytes written to memory from `at` on
unfoldable pub store : List ℕ → ℕ → (ℕ → ℕ) → ℕ → ℕ
store [] at b = b
store (x ∷ xs) at b = store xs (at + 1) (update b at x)

-- the `n` bytes of memory from `at` on
unfoldable pub load : (n at : ℕ) → (ℕ → ℕ) → List ℕ
load zero at b = []
load (suc n) at b = b at ∷ load n (at + 1) b

-- `wx_memcpy` between two objects: `n` bytes from `from` on to those from `at` on
abbrev pub wx_memcpy : (dest : ℕ → ℕ) (at : ℕ) (src : ℕ → ℕ) (from n : ℕ) → ℕ → ℕ
wx_memcpy dest at src from n i =
    if leb at i && ltb i (at + n) then src (from + (i - at)) else dest i

-- `wx_net_buf_t`, but for the three header offsets, which no code reads; `start` is its field data
pub record NetBuf : Type 0 where
  pub buffer : ℕ → ℕ
  pub head : ℕ
  pub start : ℕ
  pub tail : ℕ
  pub end : ℕ

-- `wx_net_device_t`; an address is the list of its bytes
pub record NetDevice : Type 0 where
  pub local_mac : List ℕ
  pub local_ip : List ℕ
  pub netmask : List ℕ
  pub gateway : List ℕ
  pub rx_packets : ℕ
  pub tx_packets : ℕ
  pub rx_bytes : ℕ
  pub tx_bytes : ℕ
  pub errors : ℕ

-- `wx_arp_entry_t`
pub record ArpEntry : Type 0 where
  pub ip : List ℕ
  pub mac : List ℕ
  pub state : ℕ
  pub ttl : ℕ

-- `wx_tcp_tcb_t`
pub record Tcb : Type 0 where
  pub local_port : ℕ
  pub remote_port : ℕ
  pub remote_ip : List ℕ
  pub state : ℕ
  pub snd_una : ℕ
  pub snd_nxt : ℕ
  pub rcv_nxt : ℕ
  pub snd_wnd : ℕ
  pub rcv_wnd : ℕ
  pub is_used : Bool

-- the fields of the two descriptors that the code uses
pub record RxDesc : Type 0 where
  pub length : ℕ
  pub status : ℕ

pub record TxDesc : Type 0 where
  pub length : ℕ
  pub cmd : ℕ
  pub sta : ℕ

-- The globals of the file. `card_status` is what the card writes to `sta` when it has sent a frame,
-- which the code waits for, and `tdt` and `rdt` are the tail registers of the card. With `overrun` a copy ran
-- over the array of a buffer; what the program does from there on is not described.
pub record Net : Type 0 where
  pub buf_pool : ℕ → NetBuf
  pub buf_pool_used : ℕ → Bool
  pub core_net_dev : NetDevice
  pub arp_cache : ℕ → ArpEntry
  pub tcp_sockets : ℕ → Tcb
  pub e1000_rx_ring : ℕ → RxDesc
  pub e1000_tx_ring : ℕ → TxDesc
  pub e1000_rx_buffers : ℕ → ℕ → ℕ
  pub e1000_tx_buffers : ℕ → ℕ → ℕ
  pub e1000_rx_ptr : ℕ
  pub e1000_tx_ptr : ℕ
  pub card_status : ℕ
  pub tdt : ℕ
  pub rdt : ℕ
  pub overrun : Bool

abbrev pub net_buf_pool_size : ℕ
net_buf_pool_size = 256

abbrev pub num_rx_desc : ℕ
num_rx_desc = 128

abbrev pub num_tx_desc : ℕ
num_tx_desc = 128

abbrev pub set_buf : ℕ → NetBuf → Net → Net
set_buf i b n = record n { buf_pool = update n.buf_pool i b }

abbrev pub fresh_buf : NetBuf
fresh_buf = record { buffer = λ j. 0; head = 256; start = 256; tail = 256; end = 4096 }

unfoldable pub wx_net_buf_alloc : Net → Option ℕ × Net
wx_net_buf_alloc n = elim (first_index (λ i. not (n.buf_pool_used i)) net_buf_pool_size 0) [
  | none ↦ (none, n)
  | some i ↦ (
    some i,
    record n {
      buf_pool = update n.buf_pool i fresh_buf;
      buf_pool_used = update n.buf_pool_used i true;
    },
  )
]

-- what follows an allocation: with the buffer, or without one
abbrev pub with_buffer : (taken : ℕ → Net → Net) (missing : Net → Net) → Option ℕ × Net → Net
with_buffer taken missing (none, n) = missing n
with_buffer taken missing (some i, n) = taken i n

unfoldable pub wx_net_buf_free : ℕ → Net → Net
wx_net_buf_free i n =
    if ltb i net_buf_pool_size
    then record n { buf_pool_used = update n.buf_pool_used i false }
    else n

unfoldable pub wx_net_buf_reserve : ℕ → NetBuf → NetBuf
wx_net_buf_reserve len b = record b { start = add16 b.start len; tail = add16 b.tail len }

-- The answer of a push is the new `start`, of a put the old `tail`, of a pull the old `start`.
unfoldable pub wx_net_buf_push : ℕ → NetBuf → NetBuf
wx_net_buf_push len b = record b { start = sub16 b.start len }

unfoldable pub wx_net_buf_put : ℕ → NetBuf → NetBuf
wx_net_buf_put len b = record b { tail = add16 b.tail len }

unfoldable pub wx_net_buf_pull : ℕ → NetBuf → NetBuf
wx_net_buf_pull len b = record b { start = add16 b.start len }

-- a header pushed before the packet, and all its fields written
unfoldable pub push_header : List ℕ → NetBuf → NetBuf
unfolding store wx_net_buf_push
push_header header b =
    let b' = wx_net_buf_push (length header) b in
    record b' { buffer = store header b'.start b'.buffer }

-- the frame as it is sent
unfoldable pub filled_slot : ℕ → Net → Net
filled_slot i n =
    let b = n.buf_pool i in
    let len = sub32 b.tail b.start in
    let next = (n.e1000_tx_ptr + 1) % num_tx_desc in
    record n {
      e1000_tx_buffers =
          update n.e1000_tx_buffers n.e1000_tx_ptr
            (wx_memcpy (n.e1000_tx_buffers n.e1000_tx_ptr) 0 b.buffer b.start len);
      e1000_tx_ring =
          update n.e1000_tx_ring n.e1000_tx_ptr
            (record { length = len % u16; cmd = 11; sta = n.card_status });
      e1000_tx_ptr = next;
      tdt = next;
      core_net_dev = record n.core_net_dev {
        tx_packets = add32 n.core_net_dev.tx_packets 1;
        tx_bytes = add32 n.core_net_dev.tx_bytes len;
      };
    }

unfoldable pub wx_e1000_tx_raw : ℕ → Net → Net
wx_e1000_tx_raw i n =
    let b = n.buf_pool i in
    if ltb 2048 (sub32 b.tail b.start)
    then wx_net_buf_free i n
    else wx_net_buf_free i (filled_slot i n)
