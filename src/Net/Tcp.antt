-- ===== src/Net/Tcp.antt =====
-- The connections of i386/whitex/internet.h: how a TCP segment moves the state of a socket.
use whitex_kernel.Prelude.{
  same_bytes, ℕ, ◌+◌, ◌<◌, ◌≡◌, ◌≢◌, refl, Bool, true, false, Option, none, some, List, ◌==◌, ◌&&◌,
  not, update, arith, Bool-cases, Option-cases, inl, inr, eq_test, ne_test, ==_iff, sym, ap, ◌∙◌,
}
use mathlib.Core.Path.{subst}
use whitex_kernel.Prelude.Words.{add32, bit}
use whitex_kernel.Net.{
  Net, Tcb, net_buf_pool_size, set_buf, push_header, with_buffer, wx_net_buf_alloc, wx_net_buf_free,
  wx_net_buf_reserve, read16, read32, load, wx_htons, wx_htonl,
}
use whitex_kernel.Net.Found.{Chosen, find_tcb-Chosen}
use whitex_kernel.Net.Pool.{Taken, took, full, wx_net_buf_alloc-Taken}
use whitex_kernel.Net.Leak.{free_sockets, wx_ip_send-Frees}
use whitex_kernel.Net.Receive.{
  syn_received, syn_ack, set_tcb, find_tcb, send_syn_ack, answer_syn, tcp_segment, wx_tcp_process,
}

-- a listener as the SYN has left it, or with the answer sent
pub data Answered (t : Tcb) : Tcb → Type 0 where
  unsent : Answered t t
  sent : Answered t (record t { snd_nxt = add32 t.snd_nxt 1 })

-- What a segment with these fields may do to a socket.
pub data TcpStep (dst_port src_port seq_num ack_num : ℕ) (src_ip : List ℕ) (syn ack : Bool)
    (t : Tcb) : Tcb → Type 0 where
  stays : TcpStep dst_port src_port seq_num ack_num src_ip syn ack t t
  hears :
      {t' : Tcb}
      → t.is_used ≡ true
      → t.local_port ≡ dst_port
      → t.state ≡ 1
      → syn ≡ true
      → ack ≡ false
      → Answered (syn_received src_port seq_num src_ip t) t'
      → TcpStep dst_port src_port seq_num ack_num src_ip syn ack t t'
  joins :
      t.is_used ≡ true
      → t.local_port ≡ dst_port
      → t.remote_port ≡ src_port
      → same_bytes t.remote_ip src_ip ≡ true
      → t.state ≡ 2
      → ack ≡ true
      → ack_num ≡ t.snd_nxt
      → TcpStep dst_port src_port seq_num ack_num src_ip syn ack t (record t { state = 3 })

pub update_own : {A : Type 0} → (f : ℕ → A) (j : ℕ) (x : A) → update f j x j ≡ x
update_own f j x = let own : (j == j) ≡ true = eq_test refl in rw own refl

pub update_other : {A : Type 0} → (f : ℕ → A) (j k : ℕ) (x : A) → k ≢ j → update f j x k ≡ f k
update_other f j k x apart = let other : (k == j) ≡ false = ne_test apart in rw other refl

send_syn_ack_sockets :
    (j r : ℕ) (n : Net)
    → r < net_buf_pool_size
    → (send_syn_ack j r n).tcp_sockets
      ≡ update n.tcp_sockets j
          (record (n.tcp_sockets j) { snd_nxt = add32 (n.tcp_sockets j).snd_nxt 1 })
unfolding send_syn_ack
send_syn_ack_sockets j r n lt =
    let t = n.tcp_sockets j in
    let packet =
      push_header (syn_ack n.core_net_dev.local_ip t) (wx_net_buf_reserve 128 (n.buf_pool r)) in
    ap (λ s. update s j (record (s j) { snd_nxt = add32 (s j).snd_nxt 1 }))
      (wx_ip_send-Frees r t.remote_ip 6 (set_buf r packet n) lt).sockets

answered_other :
    (j k : ℕ) (n : Net) (r : Option ℕ × Net)
    → Taken n r
    → k ≢ j
    → (with_buffer (send_syn_ack j) (λ m. m) r).tcp_sockets k ≡ n.tcp_sockets k
answered_other j k n (some r, m) (took lt unused now pool dev cache socks) apart =
    ap (λ s. s k) (send_syn_ack_sockets j r m lt)
    ∙ update_other m.tcp_sockets j k _ apart
    ∙ ap (λ s. s k) socks
answered_other j k n (none, m) (full all) apart = refl

Answered-own :
    (j : ℕ) (n : Net) (r : Option ℕ × Net)
    → Taken n r
    → Answered (n.tcp_sockets j) ((with_buffer (send_syn_ack j) (λ m. m) r).tcp_sockets j)
Answered-own j n (some r, m) (took lt unused now pool dev cache socks) =
    let own : record (n.tcp_sockets j) { snd_nxt = add32 (n.tcp_sockets j).snd_nxt 1 }
        ≡ (send_syn_ack j r m).tcp_sockets j =
      sym (
        ap (λ s. s j) (send_syn_ack_sockets j r m lt)
        ∙ update_own m.tcp_sockets j _
        ∙ ap (λ s. record (s j) { snd_nxt = add32 (s j).snd_nxt 1 }) socks) in
    subst (λ t. Answered (n.tcp_sockets j) t) own sent
Answered-own j n (none, m) (full all) = unsent

two : (a b : Bool) → a && b ≡ true → (a ≡ true) × (b ≡ true)
two a b e = (ground (arith, e), ground (arith, e))

three : (a b c : Bool) → a && (b && c) ≡ true → (a ≡ true) × ((b ≡ true) × (c ≡ true))
three a b c e = (ground (arith, e), (ground (arith, e), ground (arith, e)))

module _ (dst_port src_port seq_num ack_num : ℕ) (src_ip : List ℕ) (syn ack : Bool) where
  -- the step of socket `k` when the segment is for socket `j`
  abbrev pub Stepped : (k : ℕ) (n n' : Net) → Type 0
  Stepped k n n' =
      TcpStep dst_port src_port seq_num ack_num src_ip syn ack (n.tcp_sockets k) (n'.tcp_sockets k)

  still : (k : ℕ) (n n' : Net) → n'.tcp_sockets k ≡ n.tcp_sockets k → Stepped k n n'
  still k n n' same =
      subst (λ t. TcpStep dst_port src_port seq_num ack_num src_ip syn ack (n.tcp_sockets k) t)
        (sym same) stays

  heard_lem :
      (j k : ℕ) (n : Net)
      → (n.tcp_sockets j).is_used ≡ true
      → (n.tcp_sockets j).local_port ≡ dst_port
      → (n.tcp_sockets j).state ≡ 1
      → syn ≡ true
      → ack ≡ false
      → Stepped k n
          (answer_syn j (set_tcb j (syn_received src_port seq_num src_ip (n.tcp_sockets j)) n))
  unfolding answer_syn
  heard_lem j k n used here_port listening is_syn no_ack =
      let t = syn_received src_port seq_num src_ip (n.tcp_sockets j) in
      let m = set_tcb j t n in
      let r = wx_net_buf_alloc m in
      elim (Bool-cases (k == j)) [
        | inl here ↦
            let at : k ≡ j = (==_iff k j).0 here in
            let own : Answered t ((answer_syn j m).tcp_sockets j) =
              subst (λ u. Answered u ((answer_syn j m).tcp_sockets j))
                (update_own n.tcp_sockets j t) (Answered-own j m r (wx_net_buf_alloc-Taken m)) in
            subst
              (λ i.
                TcpStep dst_port src_port seq_num ack_num src_ip syn ack (n.tcp_sockets i)
                  ((answer_syn j m).tcp_sockets i))
              (sym at) (hears used here_port listening is_syn no_ack own)
        | inr apart ↦
            let other : k ≢ j = λ e. ground (arith, apart, e) in
            still k n (answer_syn j m) (
              answered_other j k m r (wx_net_buf_alloc-Taken m) other
              ∙ update_other n.tcp_sockets j k t other)
      ]

  joined_lem :
      (j k : ℕ) (n : Net)
      → (n.tcp_sockets j).is_used ≡ true
      → (n.tcp_sockets j).local_port ≡ dst_port
      → (n.tcp_sockets j).remote_port ≡ src_port
      → same_bytes (n.tcp_sockets j).remote_ip src_ip ≡ true
      → (n.tcp_sockets j).state ≡ 2
      → ack ≡ true
      → ack_num ≡ (n.tcp_sockets j).snd_nxt
      → Stepped k n (set_tcb j (record (n.tcp_sockets j) { state = 3 }) n)
  joined_lem j k n used here_port there_port there waiting is_ack matches =
      let t = record (n.tcp_sockets j) { state = 3 } in
      elim (Bool-cases (k == j)) [
        | inl here ↦
            let at : k ≡ j = (==_iff k j).0 here in
            let own : TcpStep dst_port src_port seq_num ack_num src_ip syn ack (n.tcp_sockets j)
                (update n.tcp_sockets j t j) =
              subst
                (λ u. TcpStep dst_port src_port seq_num ack_num src_ip syn ack (n.tcp_sockets j) u)
                (sym (update_own n.tcp_sockets j t))
                (joins used here_port there_port there waiting is_ack matches) in
            subst
              (λ i.
                TcpStep dst_port src_port seq_num ack_num src_ip syn ack (n.tcp_sockets i)
                  (update n.tcp_sockets j t i))
              (sym at) own
        | inr apart ↦
            let other : k ≢ j = λ e. ground (arith, apart, e) in
            still k n (set_tcb j t n) (update_other n.tcp_sockets j k t other)
      ]

  -- A segment for socket `j`, chosen by its fields, moves every socket by a step.
  pub tcp_segment_steps :
      (j k : ℕ) (n : Net)
      → Chosen dst_port src_port src_ip (n.tcp_sockets j)
      → Stepped k n (tcp_segment j src_port seq_num ack_num src_ip syn ack n)
  unfolding tcp_segment
  tcp_segment_steps j k n (used, port, how) =
      let t = n.tcp_sockets j in
      elim (Bool-cases ((t.state == 1) && (syn && not ack))) [
        | inl first ↦
            let all = three (t.state == 1) syn (not ack) first in
            rw first
              (heard_lem j k n used port ((==_iff t.state 1).0 all.0) all.1.0 (ground (arith, all)))
        | inr other ↦ elim (Bool-cases ((t.state == 2) && ack && (ack_num == t.snd_nxt))) [
          | inl second ↦
              let both = two ((t.state == 2) && ack) (ack_num == t.snd_nxt) second in
              let each = two (t.state == 2) ack both.0 in
              let waiting : t.state ≡ 2 = (==_iff t.state 2).0 each.0 in
              let there : (t.remote_port ≡ src_port) × (same_bytes t.remote_ip src_ip ≡ true) =
                elim how [
                  | inl known ↦ known
                  | inr listening ↦ absurd (omega (arith, waiting, listening))
                ] in
              rw (other, second)
                (joined_lem j k n used port there.0 there.1 waiting each.1
                  ((==_iff ack_num t.snd_nxt).0 both.1))
          | inr neither ↦ rw (other, neither) (still k n n refl)
        ]
      ]

-- A segment leaves every socket as it is or moves it by one step of the handshake: a listener on its
-- destination port that hears a SYN without ACK answers it and waits, and a socket that waits on the ports and
-- for the address of the segment joins on an ACK of exactly what was sent. The fields of the step are those of
-- the header in the buffer.
pub wx_tcp_process-TcpStep :
    (i ip k : ℕ) (n : Net)
    → TcpStep
        (wx_htons (read16 (n.buf_pool i).buffer ((n.buf_pool i).start + 2)))
        (wx_htons (read16 (n.buf_pool i).buffer (n.buf_pool i).start))
        (wx_htonl (read32 (n.buf_pool i).buffer ((n.buf_pool i).start + 4)))
        (wx_htonl (read32 (n.buf_pool i).buffer ((n.buf_pool i).start + 8)))
        (load 4 (ip + 12) (n.buf_pool i).buffer)
        (bit ((n.buf_pool i).buffer ((n.buf_pool i).start + 13)) 1)
        (bit ((n.buf_pool i).buffer ((n.buf_pool i).start + 13)) 4)
        (n.tcp_sockets k)
        ((wx_tcp_process i ip n).tcp_sockets k)
unfolding wx_tcp_process
wx_tcp_process-TcpStep i ip k n =
    let b = (n.buf_pool i).buffer in
    let tcp = (n.buf_pool i).start in
    let flags = b (tcp + 13) in
    let dst_port = wx_htons (read16 b (tcp + 2)) in
    let src_port = wx_htons (read16 b tcp) in
    let seq_num = wx_htonl (read32 b (tcp + 4)) in
    let ack_num = wx_htonl (read32 b (tcp + 8)) in
    let src_ip = load 4 (ip + 12) b in
    let socket = find_tcb dst_port src_port src_ip n.tcp_sockets in
    elim (Option-cases socket) [
      | inl nobody ↦
          rw (nobody, wx_tcp_process)
            (still dst_port src_port seq_num ack_num src_ip (bit flags 1) (bit flags 4) k n
              (wx_net_buf_free i n) (ap (λ s. s k) (free_sockets i n)))
      | inr (j, somebody) ↦
          let m = tcp_segment j src_port seq_num ack_num src_ip (bit flags 1) (bit flags 4) n in
          rw (somebody, wx_tcp_process)
            (subst
              (λ t.
                TcpStep dst_port src_port seq_num ack_num src_ip (bit flags 1) (bit flags 4)
                  (n.tcp_sockets k) t)
              (sym (ap (λ s. s k) (free_sockets i m)))
              (tcp_segment_steps dst_port src_port seq_num ack_num src_ip (bit flags 1)
                (bit flags 4) j k n
                (find_tcb-Chosen dst_port src_port src_ip n.tcp_sockets j somebody)))
    ]
