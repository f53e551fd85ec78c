-- ===== src/Net/Sockets.antt =====
-- The sockets and the start of the card in i386/whitex/internet.h.
use whitex_kernel.Prelude.{
  ℕ, ◌/◌, ◌%◌, Bool, true, false, Option, none, some, [], ◌∷◌, ltb, ◌==◌, ◌&&◌, ◌||◌, not,
  if◌then◌else◌, update,
}
use whitex_kernel.Prelude.Int.{ℤ, pos, negsuc}
use whitex_kernel.Prelude.Search.{first_index}
use whitex_kernel.Net.{Net, NetDevice, Tcb, num_rx_desc, num_tx_desc}
use whitex_kernel.Net.Arp.{wx_arp_init}
use whitex_kernel.Net.Receive.{tcp_max_socks}

-- what `wx_memset` with 0 makes of a socket
abbrev pub zero_tcb : Tcb
zero_tcb = record {
  local_port = 0;
  remote_port = 0;
  remote_ip = 0 ∷ 0 ∷ 0 ∷ 0 ∷ [];
  state = 0;
  snd_una = 0;
  snd_nxt = 0;
  rcv_nxt = 0;
  snd_wnd = 0;
  rcv_wnd = 0;
  is_used = false;
}

unfoldable pub wx_tcp_init : (ℕ → Tcb) → ℕ → Tcb
wx_tcp_init socks j = if ltb j tcp_max_socks then zero_tcb else socks j

-- `none` is the error -1.
unfoldable pub wx_socket : (domain type protocol : ℕ) → Net → Option ℕ × Net
wx_socket domain type protocol n =
    if not (domain == 2) || not (type == 1) || not (protocol == 6)
    then (none, n)
    else elim (first_index (λ j. not (n.tcp_sockets j).is_used) tcp_max_socks 0) [
      | none ↦ (none, n)
      | some j ↦ (
        some j,
        record n {
          tcp_sockets =
              update n.tcp_sockets j (record (n.tcp_sockets j) { is_used = true; state = 0 });
        },
      )
    ]

-- a descriptor that `wx_bind` and `wx_listen` accept
unfoldable pub is_socket : ℤ → Net → Bool
is_socket (pos j) n = ltb j tcp_max_socks && (n.tcp_sockets j).is_used
is_socket (negsuc j) n = false

abbrev pub index_of : ℤ → ℕ
index_of (pos j) = j
index_of (negsuc j) = 0

-- `false` is the error -1.
unfoldable pub wx_bind : ℤ → (port : ℕ) → Net → Bool × Net
wx_bind sockfd port n =
    let j = index_of sockfd in
    if is_socket sockfd n
    then (
      true,
      record n {
        tcp_sockets = update n.tcp_sockets j (record (n.tcp_sockets j) { local_port = port });
      },
    )
    else (false, n)

unfoldable pub wx_listen : ℤ → (backlog : ℕ) → Net → Bool × Net
wx_listen sockfd backlog n =
    let j = index_of sockfd in
    if is_socket sockfd n
    then (
      true,
      record n { tcp_sockets = update n.tcp_sockets j (record (n.tcp_sockets j) { state = 1 }) },
    )
    else (false, n)

-- `mac_low` and `mac_high` are what the card's two address registers hold.
unfoldable pub wx_e1000_write_mac : (mac_low mac_high : ℕ) → NetDevice → NetDevice
wx_e1000_write_mac mac_low mac_high d = record d {
  local_mac =
      if not (mac_low == 0) || not (mac_high == 0)
      then mac_low % 256
        ∷ mac_low / 256 % 256
        ∷ mac_low / 65536 % 256
        ∷ mac_low / 16777216 % 256
        ∷ mac_high % 256
        ∷ mac_high / 256 % 256
        ∷ []
      else 0x52 ∷ 0x54 ∷ 0x00 ∷ 0x12 ∷ 0x34 ∷ 0x56 ∷ [];
}

-- the state of the program after `wx_e1000_init`; the other registers of the card are not modelled
unfoldable pub wx_e1000_init : (mac_low mac_high : ℕ) → Net → Net
wx_e1000_init mac_low mac_high n = record n {
  core_net_dev = record (wx_e1000_write_mac mac_low mac_high n.core_net_dev) {
    local_ip = 192 ∷ 168 ∷ 1 ∷ 100 ∷ [];
  };
  e1000_rx_ring = λ i.
      if ltb i num_rx_desc then record (n.e1000_rx_ring i) { status = 0 } else n.e1000_rx_ring i;
  e1000_tx_ring = λ i.
      if ltb i num_tx_desc
      then record (n.e1000_tx_ring i) { cmd = 0; sta = 1 }
      else n.e1000_tx_ring i;
  rdt = 127;
  tdt = 0;
  arp_cache = wx_arp_init n.arp_cache;
  tcp_sockets = wx_tcp_init n.tcp_sockets;
}

-- the server socket of `internetmain`
unfoldable pub internet_start : (mac_low mac_high : ℕ) → Net → Net
internet_start mac_low mac_high n =
    let (sock, opened) = wx_socket 2 1 6 (wx_e1000_init mac_low mac_high n) in
    let srv_sock : ℤ = elim sock [ some j ↦ pos j | none ↦ negsuc 0 ] in
    (wx_listen srv_sock 10 (wx_bind srv_sock 80 opened).1).1
