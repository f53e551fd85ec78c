-- ===== src/Net/Leak.antt =====
-- The life of a packet buffer in i386/whitex/internet.h: what is sent is freed, and an allocation
-- that is freed leaves the pool as it was.
use whitex_kernel.Prelude.{
  ℕ, ◌<◌, ◌≡◌, refl, Bool, true, false, Option, none, some, List, ltb, ◌==◌, if◌then◌else◌, update,
  arith, Bool-cases, Option-cases, inl, inr, ==_iff, sym, ap, ◌∙◌,
}
use whitex_kernel.Prelude.Words.{sub32}
use whitex_kernel.Net.{
  Net, net_buf_pool_size, with_buffer, wx_net_buf_alloc, wx_net_buf_free, wx_e1000_tx_raw,
  filled_slot,
}
use whitex_kernel.Net.Pool.{
  Taken, took, full, SameUse, Released, wx_net_buf_alloc-Taken, wx_net_buf_free-Released,
  wx_e1000_tx_raw-Released,
}
use whitex_kernel.Net.Send.{send_arp, wx_arp_send_request, card_of, wx_ip_send}

-- buffer `i` is freed, and the sockets are as before
pub record Frees (i : ℕ) (n n' : Net) : Type 0 where
  pub use_after : Released i n n'
  pub sockets : n'.tcp_sockets ≡ n.tcp_sockets

-- the buffers in use and the sockets are as before
pub record Keeps (n n' : Net) : Type 0 where
  pub use_after : SameUse n n'
  pub sockets : n'.tcp_sockets ≡ n.tcp_sockets

pub free_sockets : (i : ℕ) (n : Net) → (wx_net_buf_free i n).tcp_sockets ≡ n.tcp_sockets
unfolding wx_net_buf_free
free_sockets i n = ground arith

filled_sockets : (i : ℕ) (n : Net) → (filled_slot i n).tcp_sockets ≡ n.tcp_sockets
unfolding filled_slot
filled_sockets i n = refl

tx_sockets : (i : ℕ) (n : Net) → (wx_e1000_tx_raw i n).tcp_sockets ≡ n.tcp_sockets
unfolding wx_e1000_tx_raw
tx_sockets i n =
    let b = n.buf_pool i in
    elim (Bool-cases (ltb 2048 (sub32 b.tail b.start))) [
      | inl long ↦ rw (long, wx_e1000_tx_raw) (free_sockets i n)
      | inr fits ↦
          rw (fits, wx_e1000_tx_raw) (free_sockets i (filled_slot i n) ∙ filled_sockets i n)
    ]

tx-Frees : (i : ℕ) (n : Net) → i < net_buf_pool_size → Frees i n (wx_e1000_tx_raw i n)
tx-Frees i n lt = record { use_after = wx_e1000_tx_raw-Released i n lt; sockets = tx_sockets i n }

-- a buffer freed after what keeps the buffers
pub Released-after :
    (i : ℕ) (n m : Net) → i < net_buf_pool_size → SameUse n m → Released i n (wx_net_buf_free i m)
Released-after i n m lt keeps = record {
  at = λ j.
      (wx_net_buf_free-Released i m lt).at j ∙ ap (λ u. if j == i then false else u) (keeps.at j);
}

pub free-Frees :
    (i : ℕ) (n m : Net) → i < net_buf_pool_size → Keeps n m → Frees i n (wx_net_buf_free i m)
free-Frees i n m lt keeps = record {
  use_after = Released-after i n m lt keeps.use_after;
  sockets = free_sockets i m ∙ keeps.sockets;
}

-- from a state with the same buffers in use and the same sockets
pub Frees-from :
    (i : ℕ) (n m n' : Net)
    → m.buf_pool_used ≡ n.buf_pool_used
    → m.tcp_sockets ≡ n.tcp_sockets
    → Frees i m n'
    → Frees i n n'
Frees-from i n m n' used socks f = record {
  use_after = record { at = λ j. f.use_after.at j ∙ ap (λ u. if j == i then false else u j) used };
  sockets = f.sockets ∙ socks;
}

pub Keeps-from :
    (n m n' : Net)
    → m.buf_pool_used ≡ n.buf_pool_used
    → m.tcp_sockets ≡ n.tcp_sockets
    → Keeps m n'
    → Keeps n n'
Keeps-from n m n' used socks k = record {
  use_after = record { at = λ j. k.use_after.at j ∙ ap (λ u. u j) used };
  sockets = k.sockets ∙ socks;
}

pub Keeps-refl : (n : Net) → Keeps n n
Keeps-refl n = record { use_after = record { at = λ j. refl }; sockets = refl }

freed_again :
    (u : ℕ → Bool) (i j : ℕ) → u i ≡ false → (if j == i then false else update u i true j) ≡ u j
freed_again u i j unused = elim (Bool-cases (j == i)) [
  | inl here ↦ let at : j ≡ i = (==_iff j i).0 here in rw here (sym unused ∙ ap u (sym at))
  | inr apart ↦ rw apart refl
]

-- an allocated buffer that is freed leaves the buffers as they were
pub SameUse-with_buffer :
    (f : ℕ → Net → Net) (n : Net) (r : Option ℕ × Net)
    → Taken n r
    → ((i : ℕ) (m : Net) → i < net_buf_pool_size → Released i m (f i m))
    → SameUse n (with_buffer f (λ m. m) r)
SameUse-with_buffer f n (some i, m) (took lt unused now pool dev cache socks) frees = record {
  at = λ j.
      (frees i m lt).at j
      ∙ ap (λ (u : ℕ → Bool). if j == i then false else u j) now
      ∙ freed_again n.buf_pool_used i j unused;
}
SameUse-with_buffer f n (none, m) (full all) frees = record { at = λ j. refl }

pub Keeps-with_buffer :
    (f : ℕ → Net → Net) (n : Net) (r : Option ℕ × Net)
    → Taken n r
    → ((i : ℕ) (m : Net) → i < net_buf_pool_size → Frees i m (f i m))
    → Keeps n (with_buffer f (λ m. m) r)
Keeps-with_buffer f n (some i, m) (took lt unused now pool dev cache socks) frees = record {
  use_after =
      SameUse-with_buffer f n (some i, m) (took lt unused now pool dev cache socks)
        (λ k l below. (frees k l below).use_after);
  sockets = (frees i m lt).sockets ∙ socks;
}
Keeps-with_buffer f n (none, m) (full all) frees = Keeps-refl n

pub send_arp-Frees :
    (i opcode : ℕ) (target_mac target_ip dest : List ℕ) (n : Net)
    → i < net_buf_pool_size
    → Frees i n (send_arp i opcode target_mac target_ip dest n)
unfolding send_arp
send_arp-Frees i opcode target_mac target_ip dest n lt =
    Frees-from i n _ _ refl refl (tx-Frees i _ lt)

wx_arp_send_request-Keeps : (ip : List ℕ) (n : Net) → Keeps n (wx_arp_send_request ip n)
unfolding wx_arp_send_request
wx_arp_send_request-Keeps ip n =
    Keeps-with_buffer _ n (wx_net_buf_alloc n) (wx_net_buf_alloc-Taken n)
      (λ i m lt. send_arp-Frees i 1 _ ip _ m lt)

pub wx_ip_send-Frees :
    (i : ℕ) (dest_ip : List ℕ) (proto : ℕ) (n : Net)
    → i < net_buf_pool_size
    → Frees i n (wx_ip_send i dest_ip proto n)
unfolding wx_ip_send
wx_ip_send-Frees i dest_ip proto n lt = elim (Option-cases (card_of dest_ip n)) [
  | inl unknown ↦
      rw (unknown, wx_ip_send)
        (free-Frees i n (wx_arp_send_request dest_ip n) lt (wx_arp_send_request-Keeps dest_ip n))
  | inr (dmac, known) ↦ rw (known, wx_ip_send) (Frees-from i n _ _ refl refl (tx-Frees i _ lt))
]
