-- ===== src/Net/Frames.antt =====
-- A received frame in i386/whitex/internet.h: on every path its buffer and that of the answer are
-- freed.
use whitex_kernel.Prelude.{
  ℕ, zero, suc, ◌+◌, ◌*◌, ◌%◌, ◌/◌, ◌<◌, ◌≡◌, refl, Bool, true, false, List, ltb, leb, ◌==◌, ◌&&◌,
  ◌||◌, not, if◌then◌else◌, same_bytes, Bool-cases, Option-cases, inl, inr, ap, ◌∙◌,
}
use whitex_kernel.Prelude.Words.{bit}
use whitex_kernel.Net.{
  Net, net_buf_pool_size, wx_net_buf_alloc, wx_net_buf_free, read16, load, wx_htons,
}
use whitex_kernel.Net.Pool.{SameUse, Released, wx_net_buf_alloc-Taken}
use whitex_kernel.Net.Leak.{
  Frees, Frees-from, Released-after, SameUse-with_buffer, send_arp-Frees, wx_ip_send-Frees,
}
use whitex_kernel.Net.Receive.{
  arp_reply, learn, pull, set_tcb, syn_received, wx_arp_process, send_echo, wx_icmp_process,
  send_syn_ack, answer_syn, tcp_segment, find_tcb, wx_tcp_process, wx_udp_process, wx_ip_process,
  wx_eth_process, process_frame, take_frame, give_back, wx_e1000_poll,
}

either_way :
    (i : ℕ) (n : Net) (b : Bool) (x y : Net)
    → Released i n x
    → Released i n y
    → Released i n (if b then x else y)
either_way i n true x y f g = f
either_way i n false x y f g = g

either_kept :
    (n : Net) (b : Bool) (x y : Net) → SameUse n x → SameUse n y → SameUse n (if b then x else y)
either_kept n true x y f g = f
either_kept n false x y f g = g

nothing : (n n' : Net) → n'.buf_pool_used ≡ n.buf_pool_used → SameUse n n'
nothing n n' same = record { at = λ j. ap (λ u. u j) same }

-- from a state with the same buffers in use
Released-from :
    (i : ℕ) (n m n' : Net) → m.buf_pool_used ≡ n.buf_pool_used → Released i m n' → Released i n n'
Released-from i n m n' same f = record {
  at = λ j. f.at j ∙ ap (λ u. if j == i then false else u j) same;
}

kept_from : (n m n' : Net) → m.buf_pool_used ≡ n.buf_pool_used → SameUse m n' → SameUse n n'
kept_from n m n' same f = record { at = λ j. f.at j ∙ ap (λ u. u j) same }

free-Released : (i : ℕ) (n : Net) → i < net_buf_pool_size → Released i n (wx_net_buf_free i n)
free-Released i n lt = Released-after i n n lt (nothing n n refl)

arp_reply-SameUse : (mac ip : List ℕ) (n : Net) → SameUse n (arp_reply mac ip n)
unfolding arp_reply
arp_reply-SameUse mac ip n =
    SameUse-with_buffer _ n (wx_net_buf_alloc n) (wx_net_buf_alloc-Taken n)
      (λ i m lt. (send_arp-Frees i 2 mac ip mac m lt).use_after)

pub wx_arp_process-Released :
    (i : ℕ) (n : Net) → i < net_buf_pool_size → Released i n (wx_arp_process i n)
unfolding wx_arp_process
wx_arp_process-Released i n lt =
    let b = (n.buf_pool i).buffer in
    let arp = (n.buf_pool i).start in
    let mac = load 6 (arp + 8) b in
    let ip = load 4 (arp + 14) b in
    let known = learn ip mac n in
    let asked =
      (wx_htons (read16 b (arp + 6)) == 1)
      && same_bytes (load 4 (arp + 24) b) n.core_net_dev.local_ip in
    let replied = arp_reply mac ip known in
    either_way i n _ _ _ (free-Released i n lt) (
      Released-after i n (if asked then replied else known) lt (
        either_kept n asked replied known
          (kept_from n known replied refl (arp_reply-SameUse mac ip known)) (nothing n known refl)))

send_echo-Frees :
    (len : ℕ) (id_seq : List ℕ) (src : ℕ → ℕ) (from : ℕ) (dest : List ℕ) (r : ℕ) (n : Net)
    → r < net_buf_pool_size
    → Frees r n (send_echo len id_seq src from dest r n)
unfolding send_echo
send_echo-Frees len id_seq src from dest r n lt =
    Frees-from r n _ _ refl refl (wx_ip_send-Frees r dest 1 _ lt)

pub wx_icmp_process-Released :
    (i ip : ℕ) (n : Net) → i < net_buf_pool_size → Released i n (wx_icmp_process i ip n)
unfolding wx_icmp_process
wx_icmp_process-Released i ip n lt =
    either_way i n _ _ _
      (Released-after i n _ lt (
        SameUse-with_buffer _ n (wx_net_buf_alloc n) (wx_net_buf_alloc-Taken n)
          (λ r m below. (send_echo-Frees _ _ _ _ _ r m below).use_after)))
      (free-Released i n lt)

send_syn_ack-Released :
    (j r : ℕ) (n : Net) → r < net_buf_pool_size → Released r n (send_syn_ack j r n)
unfolding send_syn_ack
send_syn_ack-Released j r n lt = record { at = λ k. (wx_ip_send-Frees r _ 6 _ lt).use_after.at k }

answer_syn-SameUse : (j : ℕ) (n : Net) → SameUse n (answer_syn j n)
unfolding answer_syn
answer_syn-SameUse j n =
    SameUse-with_buffer _ n (wx_net_buf_alloc n) (wx_net_buf_alloc-Taken n)
      (λ r m lt. send_syn_ack-Released j r m lt)

tcp_segment-SameUse :
    (j src_port seq_num ack_num : ℕ) (src_ip : List ℕ) (syn ack : Bool) (n : Net)
    → SameUse n (tcp_segment j src_port seq_num ack_num src_ip syn ack n)
unfolding tcp_segment
tcp_segment-SameUse j src_port seq_num ack_num src_ip syn ack n =
    let t = n.tcp_sockets j in
    let heard = set_tcb j (syn_received src_port seq_num src_ip t) n in
    let joined = set_tcb j (record t { state = 3 }) n in
    let matches = (t.state == 2) && ack && (ack_num == t.snd_nxt) in
    either_kept n ((t.state == 1) && (syn && not ack)) (answer_syn j heard)
      (if matches then joined else n) (kept_from n heard _ refl (answer_syn-SameUse j heard))
      (either_kept n matches joined n (nothing n joined refl) (nothing n n refl))

pub wx_tcp_process-Released :
    (i ip : ℕ) (n : Net) → i < net_buf_pool_size → Released i n (wx_tcp_process i ip n)
unfolding wx_tcp_process
wx_tcp_process-Released i ip n lt =
    let b = (n.buf_pool i).buffer in
    let tcp = (n.buf_pool i).start in
    elim (Option-cases (
      find_tcb (wx_htons (read16 b (tcp + 2))) (wx_htons (read16 b tcp)) (load 4 (ip + 12) b)
        n.tcp_sockets)) [
          | inl nobody ↦ rw (nobody, wx_tcp_process) (free-Released i n lt)
          | inr (j, somebody) ↦
              rw (somebody, wx_tcp_process)
                (Released-after i n _ lt (tcp_segment-SameUse j _ _ _ _ _ _ n))
        ]

wx_udp_process-Released :
    (i ip : ℕ) (n : Net) → i < net_buf_pool_size → Released i n (wx_udp_process i ip n)
unfolding wx_udp_process
wx_udp_process-Released i ip n lt =
    let b = (n.buf_pool i).buffer in
    let whole = leb 8 (wx_htons (read16 b ((n.buf_pool i).start + 4))) in
    Released-after i n (if whole then pull i 8 n else n) lt
      (either_kept n whole (pull i 8 n) n (nothing n (pull i 8 n) refl) (nothing n n refl))

wx_ip_process-Released :
    (i : ℕ) (n : Net) → i < net_buf_pool_size → Released i n (wx_ip_process i n)
unfolding wx_ip_process
wx_ip_process-Released i n lt =
    let b = (n.buf_pool i).buffer in
    let ip = (n.buf_pool i).start in
    let ihl = b ip % 16 in
    let rest = pull i (ihl * 4) n in
    let proto = b (ip + 9) in
    let after : (m : Net) → Released i rest m → Released i n m =
      λ m f. Released-from i n rest m refl f in
    either_way i n (not (b ip / 16 % 16 == 4) || ltb ihl 5) _ _ (free-Released i n lt) (
      either_way i n
        (not (same_bytes (load 4 (ip + 16) b) n.core_net_dev.local_ip) && not (b (ip + 19) == 255))
        _ _ (free-Released i n lt)
        (either_way i n (proto == 1) _ _ (after _ (wx_icmp_process-Released i ip rest lt)) (
          either_way i n (proto == 6) _ _ (after _ (wx_tcp_process-Released i ip rest lt)) (
            either_way i n (proto == 17) _ _ (after _ (wx_udp_process-Released i ip rest lt))
              (after _ (free-Released i rest lt))))))

-- the paths of a frame
frame-Released : (i : ℕ) (n : Net) → i < net_buf_pool_size → Released i n (wx_eth_process i n)
unfolding wx_eth_process
frame-Released i n lt =
    let rest = pull i 14 n in
    either_way i n _ _ _ (Released-from i n rest _ refl (wx_arp_process-Released i rest lt)) (
      either_way i n _ _ _ (Released-from i n rest _ refl (wx_ip_process-Released i rest lt))
        (Released-from i n rest _ refl (free-Released i rest lt)))

-- Whatever a frame holds, once it is processed its buffer is free and the others are in use as before, as long
-- as no echo has run over a buffer: no path leaks a buffer or frees one of another.
pub wx_eth_process-Released :
    (i : ℕ) (n : Net)
    → i < net_buf_pool_size
    → (wx_eth_process i n).overrun ≡ false
    → Released i n (wx_eth_process i n)
wx_eth_process-Released i n lt fits = frame-Released i n lt

process_frame-Released :
    (i : ℕ) (n : Net) → i < net_buf_pool_size → Released i n (process_frame i n)
unfolding process_frame
process_frame-Released i n lt = Released-from i n _ _ refl (frame-Released i _ lt)

take_frame-SameUse : (n : Net) → SameUse n (take_frame n)
unfolding take_frame
take_frame-SameUse n =
    SameUse-with_buffer _ n (wx_net_buf_alloc n) (wx_net_buf_alloc-Taken n) process_frame-Released

give_back_use : (n : Net) → (give_back n).buf_pool_used ≡ n.buf_pool_used
unfolding give_back
give_back_use n = refl

-- the loop of the frames
polled_lem : (k : ℕ) (n : Net) → SameUse n (wx_e1000_poll k n)
unfolding wx_e1000_poll
polled_lem zero n = nothing n n refl
polled_lem (suc k) n = elim (Bool-cases (bit (n.e1000_rx_ring n.e1000_rx_ptr).status 0)) [
  | inl ready ↦ record {
    at = λ j.
        rw (ready, wx_e1000_poll)
          ((polled_lem k (give_back (take_frame n))).at j
            ∙ ap (λ u. u j) (give_back_use (take_frame n))
            ∙ (take_frame-SameUse n).at j);
  }
  | inr idle ↦ rw (idle, wx_e1000_poll) (nothing n n refl)
]

-- However many frames are polled, and whatever they hold, the pool's buffers are then in use as before, as
-- long as no frame and no echo has run over a buffer.
pub wx_e1000_poll-SameUse :
    (k : ℕ) (n : Net) → (wx_e1000_poll k n).overrun ≡ false → SameUse n (wx_e1000_poll k n)
wx_e1000_poll-SameUse k n fits = polled_lem k n
