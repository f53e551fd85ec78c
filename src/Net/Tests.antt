-- ===== src/Net/Tests.antt =====
-- The statements on i386/whitex/internet.h at concrete packets and states.
use whitex_kernel.Prelude.{
  ℕ, ◌≡◌, refl, true, false, ◌==◌, some, List, [], ◌∷◌, if◌then◌else◌, same_bytes, arith, inr,
}
use whitex_kernel.Prelude.Words.{bit}
use whitex_kernel.Net.{Net, Tcb, fresh_buf, store, load}
use whitex_kernel.Net.Checksum.{wx_checksum}
use whitex_kernel.Net.Header.{ip_header_verifies}
use whitex_kernel.Net.Send.{ip_header}
use whitex_kernel.Net.Arp.{zero_entry, wx_arp_lookup, wx_arp_update, wx_arp_update-lookup}
use whitex_kernel.Net.Sockets.{zero_tcb}
use whitex_kernel.Net.Receive.{wx_tcp_process, wx_eth_process, wx_e1000_poll}
use whitex_kernel.Net.Pool.{SameUse, Released}
use whitex_kernel.Net.Frames.{wx_eth_process-Released, wx_e1000_poll-SameUse}
use whitex_kernel.Net.Tcp.{TcpStep, wx_tcp_process-TcpStep}
use whitex_kernel.Net.{wx_net_buf_alloc, wx_net_buf_free, wx_net_buf_put}
use whitex_kernel.Prelude.Search.{first_index}
use whitex_kernel.Net.Receive.{give_back, take_frame, process_frame}

abbrev local_ip : List ℕ
local_ip = 192 ∷ 168 ∷ 1 ∷ 100 ∷ []

abbrev router_ip : List ℕ
router_ip = 192 ∷ 168 ∷ 1 ∷ 1 ∷ []

abbrev quiet : Net
quiet = record {
  buf_pool = λ i. fresh_buf;
  buf_pool_used = λ i. false;
  core_net_dev = record {
    local_mac = 0x52 ∷ 0x54 ∷ 0 ∷ 0x12 ∷ 0x34 ∷ 0x56 ∷ [];
    local_ip = local_ip;
    netmask = 0 ∷ 0 ∷ 0 ∷ 0 ∷ [];
    gateway = 0 ∷ 0 ∷ 0 ∷ 0 ∷ [];
    rx_packets = 0;
    tx_packets = 0;
    rx_bytes = 0;
    tx_bytes = 0;
    errors = 0;
  };
  arp_cache = λ i. zero_entry;
  tcp_sockets = λ i. zero_tcb;
  e1000_rx_ring = λ i. record { length = 60; status = 1 };
  e1000_tx_ring = λ i. record { length = 0; cmd = 0; sta = 1 };
  e1000_rx_buffers = λ i j. 0;
  e1000_tx_buffers = λ i j. 0;
  e1000_rx_ptr = 0;
  e1000_tx_ptr = 0;
  card_status = 1;
  tdt = 0;
  rdt = 127;
  overrun = false;
}

ip_header_verifies_example : wx_checksum (ip_header 84 1 local_ip router_ip) ≡ 0
ip_header_verifies_example =
    ip_header_verifies 84 1 local_ip router_ip (omega arith) (omega arith) (omega arith)

wx_arp_update-lookup_example :
    wx_arp_lookup local_ip (wx_arp_update router_ip (1 ∷ 2 ∷ []) (λ i. zero_entry)) ≡ (
      if same_bytes local_ip router_ip
      then some (1 ∷ 2 ∷ [])
      else wx_arp_lookup local_ip (λ i. zero_entry))
wx_arp_update-lookup_example =
    wx_arp_update-lookup router_ip (1 ∷ 2 ∷ []) local_ip (λ i. zero_entry)
      (0, omega arith, inr refl)

wx_eth_process_example : Released 3 quiet (wx_eth_process 3 quiet)
unfolding wx_eth_process wx_net_buf_free
wx_eth_process_example = wx_eth_process-Released 3 quiet (omega arith) refl

wx_e1000_poll_example : SameUse quiet (wx_e1000_poll 2 quiet)
unfolding wx_e1000_poll bit give_back take_frame wx_net_buf_alloc first_index process_frame
    wx_eth_process wx_net_buf_put wx_net_buf_free
wx_e1000_poll_example = wx_e1000_poll-SameUse 2 quiet refl

-- a SYN from port 1234 of the router to port 80, in buffer 1, and a listener there
abbrev syn_bytes : List ℕ
syn_bytes = 4 ∷ 210 ∷ 0 ∷ 80 ∷ 0 ∷ 0 ∷ 0 ∷ 5 ∷ 0 ∷ 0 ∷ 0 ∷ 0 ∷ 80 ∷ 2 ∷ []

abbrev listener : Tcb
listener = record zero_tcb { local_port = 80; state = 1; is_used = true }

abbrev asked : Net
asked = record quiet {
  buf_pool = λ i. record fresh_buf { buffer = store syn_bytes 256 (store router_ip 248 (λ j. 0)) };
  tcp_sockets = λ j. if j == 0 then listener else zero_tcb;
}

wx_tcp_process_example :
    TcpStep 80 1234 5 0 router_ip true false listener ((wx_tcp_process 1 236 asked).tcp_sockets 0)
unfolding store load bit
wx_tcp_process_example = wx_tcp_process-TcpStep 1 236 0 asked
