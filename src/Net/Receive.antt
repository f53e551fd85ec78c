-- ===== src/Net/Receive.antt =====
-- What i386/whitex/internet.h does with a frame that has arrived. A header in the buffer is read at
-- its offset.
use whitex_kernel.Prelude.{
  ℕ, zero, suc, ◌+◌, ◌-◌, ◌*◌, ◌/◌, ◌%◌, Bool, true, false, Option, none, some, List, [], ◌∷◌, ◌++◌,
  ltb, leb, ◌==◌, ◌&&◌, ◌||◌, not, if◌then◌else◌, update, same_bytes,
}
use whitex_kernel.Prelude.Words.{add32, sub32, bit}
use whitex_kernel.Prelude.Search.{first_index}
use whitex_kernel.Net.{
  Net, NetBuf, with_buffer, Tcb, u16, sub16, wx_htons, wx_htonl, le16, le32, read16, read32, load,
  store, wx_memcpy, set_buf, push_header, num_rx_desc, wx_net_buf_alloc, wx_net_buf_free,
  wx_net_buf_reserve, wx_net_buf_put, wx_net_buf_pull,
}
use whitex_kernel.Net.Checksum.{wx_checksum}
use whitex_kernel.Net.Arp.{wx_arp_update}
use whitex_kernel.Net.Send.{send_arp, wx_ip_send}

-- the answer to a request, if a buffer is free
unfoldable pub arp_reply : (sender_mac sender_ip : List ℕ) → Net → Net
arp_reply sender_mac sender_ip n =
    with_buffer (λ r. send_arp r 2 sender_mac sender_ip sender_mac) (λ n'. n') (wx_net_buf_alloc n)

abbrev pub learn : (ip mac : List ℕ) → Net → Net
learn ip mac n = record n { arp_cache = wx_arp_update ip mac n.arp_cache }

unfoldable pub wx_arp_process : ℕ → Net → Net
wx_arp_process i n =
    let b = (n.buf_pool i).buffer in
    let arp = (n.buf_pool i).start in
    let sender_mac = load 6 (arp + 8) b in
    let sender_ip = load 4 (arp + 14) b in
    let asked =
      (wx_htons (read16 b (arp + 6)) == 1)
      && same_bytes (load 4 (arp + 24) b) n.core_net_dev.local_ip in
    let known = learn sender_ip sender_mac n in
    if not (wx_htons (read16 b arp) == 1) || not (wx_htons (read16 b (arp + 2)) == 0x0800)
    then wx_net_buf_free i n
    else wx_net_buf_free i (if asked then arp_reply sender_mac sender_ip known else known)

-- The echo reply in the buffer `rep`: the payload of the request behind a header with the checksum of
-- both. The copy takes `icmp_len` less 8 bytes modulo 2 ^ 32, and the buffer grows by as many modulo
-- 2 ^ 16.
unfoldable pub echo_reply :
    (icmp_len : ℕ) (id_seq : List ℕ) (src : ℕ → ℕ) (from : ℕ) → NetBuf → NetBuf
echo_reply icmp_len id_seq src from rep =
    let payload = sub32 icmp_len 8 in
    let r = wx_net_buf_reserve 128 rep in
    let filled = record r { buffer = wx_memcpy r.buffer r.tail src from payload } in
    let headed = push_header (0 ∷ 0 ∷ 0 ∷ 0 ∷ id_seq) (wx_net_buf_put (payload % u16) filled) in
    let checksum = wx_checksum (load icmp_len headed.start headed.buffer) in
    record headed { buffer = store (le16 checksum) (headed.start + 2) headed.buffer }

-- The length of the message is no length of an echo, or the payload does not fit the buffer of the reply or
-- is no part of that of the request: the copy then runs over buffers behind them.
unfoldable pub echo_overruns : (icmp_len from : ℕ) → NetBuf → Bool
echo_overruns icmp_len from rep =
    ltb icmp_len 8
    || ltb 4096 ((wx_net_buf_reserve 128 rep).tail + (icmp_len - 8))
    || ltb 4096 (from + (icmp_len - 8))

-- the reply in the buffer `r`, and sent
unfoldable pub send_echo :
    (icmp_len : ℕ) (id_seq : List ℕ) (src : ℕ → ℕ) (from : ℕ) (dest_ip : List ℕ) (r : ℕ) → Net → Net
send_echo icmp_len id_seq src from dest_ip r n =
    let replied = set_buf r (echo_reply icmp_len id_seq src from (n.buf_pool r)) n in
    wx_ip_send r dest_ip 1
      (record replied { overrun = n.overrun || echo_overruns icmp_len from (n.buf_pool r) })

-- `ip` is the offset of the packet's `wx_ipv4_hdr_t` in the buffer.
unfoldable pub wx_icmp_process : (i ip : ℕ) → Net → Net
wx_icmp_process i ip n =
    let b = (n.buf_pool i).buffer in
    let icmp = (n.buf_pool i).start in
    let icmp_len = sub16 (wx_htons (read16 b (ip + 2))) (b ip % 16 * 4) in
    let id_seq = load 4 (icmp + 4) b in
    if (b icmp == 8) && (b (icmp + 1) == 0)
    then wx_net_buf_free i (
        with_buffer (send_echo icmp_len id_seq b (icmp + 8) (load 4 (ip + 12) b)) (λ n'. n')
          (wx_net_buf_alloc n))
    else wx_net_buf_free i n

abbrev pub tcp_max_socks : ℕ
tcp_max_socks = 1024

-- the connection of a segment, or else a listener on its port
unfoldable pub find_tcb : (dst_port src_port : ℕ) (src_ip : List ℕ) → (ℕ → Tcb) → Option ℕ
find_tcb dst_port src_port src_ip socks =
    elim (first_index
      (λ j.
        (socks j).is_used
        && ((socks j).local_port == dst_port)
        && ((socks j).remote_port == src_port)
        && same_bytes (socks j).remote_ip src_ip)
      tcp_max_socks 0) [
        | some j ↦ some j
        | none ↦
            first_index
              (λ j.
                (socks j).is_used && ((socks j).local_port == dst_port) && ((socks j).state == 1))
              tcp_max_socks 0
      ]

-- a listener that a SYN has reached
unfoldable pub syn_received : (src_port seq_num : ℕ) (src_ip : List ℕ) → Tcb → Tcb
syn_received src_port seq_num src_ip t = record t {
  remote_port = src_port;
  remote_ip = src_ip;
  rcv_nxt = add32 seq_num 1;
  snd_nxt = 0x89ABCDEF;
  snd_una = 0x89ABCDEF;
  state = 2;
}

-- the header of a SYN with ACK, whose checksum is over the pseudo header as well
unfoldable pub syn_ack_front : Tcb → List ℕ
syn_ack_front t =
    le16 (wx_htons (t.local_port % u16))
    ++ (le16 (wx_htons (t.remote_port % u16))
        ++ (le32 (wx_htonl t.snd_nxt)
            ++ (le32 (wx_htonl t.rcv_nxt) ++ (0x50 ∷ 0x12 ∷ le16 (wx_htons 8192)))))

unfoldable pub syn_ack : (local_ip : List ℕ) → Tcb → List ℕ
syn_ack local_ip t =
    let pseudo = local_ip ++ (t.remote_ip ++ (0 ∷ 6 ∷ le16 (wx_htons 20))) in
    let front = syn_ack_front t in
    front ++ (le16 (wx_checksum (pseudo ++ (front ++ (0 ∷ 0 ∷ 0 ∷ 0 ∷ [])))) ++ (0 ∷ 0 ∷ []))

abbrev pub set_tcb : ℕ → Tcb → Net → Net
set_tcb j t n = record n { tcp_sockets = update n.tcp_sockets j t }

-- the answer to a SYN in the buffer `r`, and sent; the next sequence number is then one more
unfoldable pub send_syn_ack : (j r : ℕ) → Net → Net
send_syn_ack j r n =
    let t = n.tcp_sockets j in
    let packet =
      push_header (syn_ack n.core_net_dev.local_ip t) (wx_net_buf_reserve 128 (n.buf_pool r)) in
    let sent = wx_ip_send r t.remote_ip 6 (set_buf r packet n) in
    let after = sent.tcp_sockets j in
    set_tcb j (record after { snd_nxt = add32 after.snd_nxt 1 }) sent

unfoldable pub answer_syn : ℕ → Net → Net
answer_syn j n = with_buffer (send_syn_ack j) (λ n'. n') (wx_net_buf_alloc n)

-- what a segment does to the socket `j`
unfoldable pub tcp_segment :
    (j src_port seq_num ack_num : ℕ) (src_ip : List ℕ) (syn ack : Bool) → Net → Net
tcp_segment j src_port seq_num ack_num src_ip syn ack n =
    let t = n.tcp_sockets j in
    if (t.state == 1) && (syn && not ack)
    then answer_syn j (set_tcb j (syn_received src_port seq_num src_ip t) n)
    else if (t.state == 2) && ack && (ack_num == t.snd_nxt)
    then set_tcb j (record t { state = 3 }) n
    else n

unfoldable pub wx_tcp_process : (i ip : ℕ) → Net → Net
wx_tcp_process i ip n =
    let b = (n.buf_pool i).buffer in
    let tcp = (n.buf_pool i).start in
    let src_port = wx_htons (read16 b tcp) in
    let src_ip = load 4 (ip + 12) b in
    let flags = b (tcp + 13) in
    elim (find_tcb (wx_htons (read16 b (tcp + 2))) src_port src_ip n.tcp_sockets) [
      | none ↦ wx_net_buf_free i n
      | some j ↦ wx_net_buf_free i (
          tcp_segment j src_port (wx_htonl (read32 b (tcp + 4))) (wx_htonl (read32 b (tcp + 8)))
            src_ip (bit flags 1) (bit flags 4) n)
    ]

abbrev pub pull : (i len : ℕ) → Net → Net
pull i len n = set_buf i (wx_net_buf_pull len (n.buf_pool i)) n

unfoldable pub wx_udp_process : (i ip : ℕ) → Net → Net
wx_udp_process i ip n =
    let b = (n.buf_pool i).buffer in
    let len = wx_htons (read16 b ((n.buf_pool i).start + 4)) in
    wx_net_buf_free i (if leb 8 len then pull i 8 n else n)

unfoldable pub wx_ip_process : ℕ → Net → Net
wx_ip_process i n =
    let b = (n.buf_pool i).buffer in
    let ip = (n.buf_pool i).start in
    let ihl = b ip % 16 in
    let rest = pull i (ihl * 4) n in
    let protocol = b (ip + 9) in
    if not (b ip / 16 % 16 == 4) || ltb ihl 5
    then wx_net_buf_free i n
    else if not (same_bytes (load 4 (ip + 16) b) n.core_net_dev.local_ip)
        && not (b (ip + 19) == 255)
    then wx_net_buf_free i n
    else if protocol == 1
    then wx_icmp_process i ip rest
    else if protocol == 6
    then wx_tcp_process i ip rest
    else if protocol == 17
    then wx_udp_process i ip rest
    else wx_net_buf_free i rest

unfoldable pub wx_eth_process : ℕ → Net → Net
wx_eth_process i n =
    let type = wx_htons (read16 (n.buf_pool i).buffer ((n.buf_pool i).start + 12)) in
    let rest = pull i 14 n in
    if type == 0x0806
    then wx_arp_process i rest
    else if type == 0x0800
    then wx_ip_process i rest
    else wx_net_buf_free i rest

-- The frame in the slot `e1000_rx_ptr`, put in the buffer `i` and processed. A slot has 2048 bytes.
unfoldable pub process_frame : ℕ → Net → Net
process_frame i n =
    let len = (n.e1000_rx_ring n.e1000_rx_ptr).length in
    let b = n.buf_pool i in
    let filled =
      wx_net_buf_put len (record b {
        buffer = wx_memcpy b.buffer b.tail (n.e1000_rx_buffers n.e1000_rx_ptr) 0 len;
      }) in
    let d = n.core_net_dev in
    wx_eth_process i (record (set_buf i filled n) {
      core_net_dev = record d {
        rx_packets = add32 d.rx_packets 1;
        rx_bytes = add32 d.rx_bytes len;
      };
      overrun = n.overrun || ltb 2048 len;
    })

unfoldable pub take_frame : Net → Net
take_frame n = with_buffer process_frame (λ n'. n') (wx_net_buf_alloc n)

-- the slot is given back to the card
unfoldable pub give_back : Net → Net
give_back n = record n {
  e1000_rx_ring =
      update n.e1000_rx_ring n.e1000_rx_ptr
        (record (n.e1000_rx_ring n.e1000_rx_ptr) { status = 0 });
  rdt = n.e1000_rx_ptr;
  e1000_rx_ptr = (n.e1000_rx_ptr + 1) % num_rx_desc;
}

-- The loop of `wx_e1000_poll`, which ends at a slot without a frame, for at most `rounds` frames.
unfoldable pub wx_e1000_poll : (rounds : ℕ) → Net → Net
wx_e1000_poll zero n = n
wx_e1000_poll (suc k) n = elim (bit (n.e1000_rx_ring n.e1000_rx_ptr).status 0) [
  | false ↦ n
  | true ↦ wx_e1000_poll k (give_back (take_frame n))
]
