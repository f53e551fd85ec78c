-- ===== src/Net/Send.antt =====
-- The headers and the sending of i386/whitex/internet.h.
use whitex_kernel.Prelude.{
  ℕ, ◌%◌, Option, none, some, List, [], ◌∷◌, ◌++◌, if◌then◌else◌, same_bytes,
}
use whitex_kernel.Prelude.Words.{sub32}
use whitex_kernel.Net.{
  Net, NetBuf, with_buffer, u16, sub16, wx_htons, le16, set_buf, push_header, wx_net_buf_alloc,
  wx_net_buf_free, wx_net_buf_reserve, wx_e1000_tx_raw,
}
use whitex_kernel.Net.Checksum.{wx_checksum}
use whitex_kernel.Net.Arp.{wx_arp_lookup}

abbrev pub broadcast_mac : List ℕ
broadcast_mac = 255 ∷ 255 ∷ 255 ∷ 255 ∷ 255 ∷ 255 ∷ []

abbrev pub broadcast_ip : List ℕ
broadcast_ip = 255 ∷ 255 ∷ 255 ∷ 255 ∷ []

-- `wx_eth_hdr_t`
unfoldable pub eth_header : (dest src : List ℕ) (ethertype : ℕ) → List ℕ
eth_header dest src ethertype = dest ++ (src ++ le16 (wx_htons ethertype))

-- `wx_arp_hdr_t`
unfoldable pub arp_header :
    (opcode : ℕ) (sender_mac sender_ip target_mac target_ip : List ℕ) → List ℕ
arp_header opcode sender_mac sender_ip target_mac target_ip =
    le16 (wx_htons 1)
    ++ (le16 (wx_htons 0x0800)
        ++ (6
            ∷ 4
            ∷ (le16 (wx_htons opcode) ++ (sender_mac ++ (sender_ip ++ (target_mac ++ target_ip))))))

-- a packet of the ARP protocol in a fresh buffer, and sent
unfoldable pub send_arp : ℕ → (opcode : ℕ) (target_mac target_ip dest : List ℕ) → Net → Net
send_arp i opcode target_mac target_ip dest n =
    let d = n.core_net_dev in
    let packet =
      push_header (arp_header opcode d.local_mac d.local_ip target_mac target_ip)
        (wx_net_buf_reserve 64 (n.buf_pool i)) in
    wx_e1000_tx_raw i (set_buf i (push_header (eth_header dest d.local_mac 0x0806) packet) n)

unfoldable pub wx_arp_send_request : List ℕ → Net → Net
wx_arp_send_request target_ip n =
    with_buffer (λ i. send_arp i 1 broadcast_mac target_ip broadcast_mac) (λ n'. n')
      (wx_net_buf_alloc n)

-- the fields of `wx_ipv4_hdr_t` before the checksum, and those behind it
unfoldable pub ip_front : (total_len proto : ℕ) → List ℕ
ip_front total_len proto =
    0x45 ∷ 0 ∷ (le16 (wx_htons total_len) ++ (le16 (wx_htons 0x1337) ++ (0 ∷ 0 ∷ 64 ∷ proto ∷ [])))

-- `wx_ipv4_hdr_t` with its checksum
unfoldable pub ip_header : (total_len proto : ℕ) (src_ip dest_ip : List ℕ) → List ℕ
ip_header total_len proto src_ip dest_ip =
    let front = ip_front total_len proto in
    front ++ (le16 (wx_checksum (front ++ (0 ∷ 0 ∷ (src_ip ++ dest_ip)))) ++ (src_ip ++ dest_ip))

-- the headers of a packet for the card `dmac`; the total length is taken after the push
unfoldable pub ip_packet : (proto : ℕ) (local_ip local_mac dest_ip dmac : List ℕ) → NetBuf → NetBuf
ip_packet proto local_ip local_mac dest_ip dmac b =
    let total_len = sub32 b.tail (sub16 b.start 20) % u16 in
    push_header (eth_header dmac local_mac 0x0800)
      (push_header (ip_header total_len proto local_ip dest_ip) b)

-- the card of an address, which is that of everybody for the broadcast address
unfoldable pub card_of : List ℕ → Net → Option (List ℕ)
card_of dest_ip n =
    if same_bytes dest_ip broadcast_ip
    then some broadcast_mac
    else wx_arp_lookup dest_ip n.arp_cache

unfoldable pub wx_ip_send : ℕ → (dest_ip : List ℕ) (proto : ℕ) → Net → Net
wx_ip_send i dest_ip proto n = elim (card_of dest_ip n) [
  | none ↦ wx_net_buf_free i (wx_arp_send_request dest_ip n)
  | some dmac ↦ wx_e1000_tx_raw i (
      set_buf i
        (ip_packet proto n.core_net_dev.local_ip n.core_net_dev.local_mac dest_ip dmac
          (n.buf_pool i))
        n)
]
