-- ===== src/Net/Ping.antt =====
-- The echo request of i386/whitex/ping.h on the network stack, and the numbers that it prints.
use whitex_kernel.Prelude.{ℕ, ◌≡◌, refl, List, [], ◌∷◌, ◌++◌, arith}
use whitex_kernel.Net.{
  Net, NetBuf, le16, store, set_buf, with_buffer, push_header, wx_net_buf_alloc, wx_net_buf_put,
  wx_net_buf_reserve,
}
use whitex_kernel.Net.Checksum.{wx_checksum, wx_checksum_verifies}
use whitex_kernel.Net.Send.{wx_ip_send}
use whitex_kernel.Net.Pool.{wx_net_buf_alloc-Taken}
use whitex_kernel.Net.Leak.{Keeps, Frees-from, Keeps-with_buffer, wx_ip_send-Frees}

abbrev pub ping_payload : List ℕ
ping_payload = 0xDE ∷ 0xAD ∷ 0xBE ∷ 0xEF ∷ []

-- `wx_icmp_hdr_t` of the request, with its checksum over the header and the payload
unfoldable pub ping_header : (id seq : ℕ) → List ℕ
ping_header id seq =
    let back = le16 id ++ le16 seq in
    8 ∷ 0 ∷ (le16 (wx_checksum (8 ∷ 0 ∷ 0 ∷ 0 ∷ (back ++ ping_payload))) ++ back)

-- the payload at the end of the packet, and the header before it
unfoldable pub ping_packet : (id seq : ℕ) → NetBuf → NetBuf
ping_packet id seq b =
    let reserved = wx_net_buf_reserve 128 b in
    let longer = wx_net_buf_put 4 reserved in
    push_header (ping_header id seq)
      (record longer { buffer = store ping_payload reserved.tail longer.buffer })

unfoldable pub send_ping : (target_ip : List ℕ) (id seq i : ℕ) → Net → Net
send_ping target_ip id seq i n =
    wx_ip_send i target_ip 1 (set_buf i (ping_packet id seq (n.buf_pool i)) n)

unfoldable pub wx_ping_send : (target_ip : List ℕ) (id seq : ℕ) → Net → Net
wx_ping_send target_ip id seq n =
    with_buffer (send_ping target_ip id seq) (λ n'. n') (wx_net_buf_alloc n)

unfoldable pub ping : Net → Net
ping n = wx_ping_send (127 ∷ 0 ∷ 0 ∷ 1 ∷ []) 0x1337 1 n

-- A request leaves the buffers in use and the sockets as they were, whether or not its address is known.
pub wx_ping_send-Keeps :
    (target_ip : List ℕ) (id seq : ℕ) (n : Net) → Keeps n (wx_ping_send target_ip id seq n)
unfolding wx_ping_send send_ping
wx_ping_send-Keeps target_ip id seq n =
    Keeps-with_buffer (send_ping target_ip id seq) n (wx_net_buf_alloc n) (wx_net_buf_alloc-Taken n)
      (λ i m lt. Frees-from i m _ _ refl refl (wx_ip_send-Frees i target_ip 1 _ lt))

-- The checksum of a request verifies at the receiver: over the header and the payload it is 0.
pub ping_header_verifies : (id seq : ℕ) → wx_checksum (ping_header id seq ++ ping_payload) ≡ 0
unfolding ping_header
ping_header_verifies id seq =
    wx_checksum_verifies 1 (8 ∷ 0 ∷ []) (le16 id ++ (le16 seq ++ ping_payload)) refl (omega arith)
