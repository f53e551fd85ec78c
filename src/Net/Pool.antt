-- ===== src/Net/Pool.antt =====
-- The pool of packet buffers of i386/whitex/internet.h, and the sending of one.
use whitex_kernel.Prelude.{
  true_of_not, false_of_not, ℕ, ◌<◌, ◌≡◌, refl, true, false, Option, none, some, ltb, ◌==◌, not,
  if◌then◌else◌, update, arith, Bool-cases, inl, inr, ap, ◌∙◌,
}
use whitex_kernel.Prelude.Words.{sub32}
use whitex_kernel.Prelude.Search.{first_index, first_index-Search, Search, found, missed}
use whitex_kernel.Net.{
  Net, net_buf_pool_size, fresh_buf, wx_net_buf_alloc, wx_net_buf_free, filled_slot,
  wx_e1000_tx_raw,
}

-- what an allocation of a buffer comes to
pub data Taken (n : Net) : Option ℕ × Net → Type 0 where
  took :
      {i : ℕ} {n' : Net}
      → i < net_buf_pool_size
      → n.buf_pool_used i ≡ false
      → n'.buf_pool_used ≡ update n.buf_pool_used i true
      → n'.buf_pool ≡ update n.buf_pool i fresh_buf
      → n'.core_net_dev ≡ n.core_net_dev
      → n'.arp_cache ≡ n.arp_cache
      → n'.tcp_sockets ≡ n.tcp_sockets
      → Taken n (some i, n')
  full : ((i : ℕ) → i < net_buf_pool_size → n.buf_pool_used i ≡ true) → Taken n (none, n)

taken :
    (n : Net) (r : Option ℕ)
    → Search (λ i. not (n.buf_pool_used i)) 0 net_buf_pool_size r
    → Taken n (elim r [
      | none ↦ (none, n)
      | some i ↦ (
        some i,
        record n {
          buf_pool = update n.buf_pool i fresh_buf;
          buf_pool_used = update n.buf_pool_used i true;
        },
      )
    ])
taken n (some i) (found a lt free before) =
    took lt (false_of_not (n.buf_pool_used i) free) refl refl refl refl refl
taken n none (missed all) = full (λ i lt. true_of_not (n.buf_pool_used i) (all i (omega arith) lt))

-- An allocation takes a buffer that was not in use, clears it, and changes no other; it fails only
-- when every buffer is in use.
pub wx_net_buf_alloc-Taken : (n : Net) → Taken n (wx_net_buf_alloc n)
unfolding wx_net_buf_alloc
wx_net_buf_alloc-Taken n =
    taken n (first_index (λ i. not (n.buf_pool_used i)) net_buf_pool_size 0)
      (first_index-Search (λ i. not (n.buf_pool_used i)) net_buf_pool_size 0 net_buf_pool_size refl)

-- the buffers in use are those of before
pub record SameUse (n n' : Net) : Type 0 where
  pub at : (j : ℕ) → n'.buf_pool_used j ≡ n.buf_pool_used j

-- the buffers in use are those of before without buffer `i`
pub record Released (i : ℕ) (n n' : Net) : Type 0 where
  pub at : (j : ℕ) → n'.buf_pool_used j ≡ (if j == i then false else n.buf_pool_used j)

pub wx_net_buf_free-Released :
    (i : ℕ) (n : Net) → i < net_buf_pool_size → Released i n (wx_net_buf_free i n)
unfolding wx_net_buf_free
wx_net_buf_free-Released i n lt =
    let inside : ltb i net_buf_pool_size ≡ true = ground (arith, lt) in
    record { at = λ j. rw (inside, wx_net_buf_free) refl }

filled_use : (i : ℕ) (n : Net) → (filled_slot i n).buf_pool_used ≡ n.buf_pool_used
unfolding filled_slot
filled_use i n = refl

pub wx_e1000_tx_raw-Released :
    (i : ℕ) (n : Net) → i < net_buf_pool_size → Released i n (wx_e1000_tx_raw i n)
unfolding wx_e1000_tx_raw
wx_e1000_tx_raw-Released i n lt =
    let b = n.buf_pool i in
    elim (Bool-cases (ltb 2048 (sub32 b.tail b.start))) [
      | inl long ↦ rw (long, wx_e1000_tx_raw) (wx_net_buf_free-Released i n lt)
      | inr fits ↦ record {
        at = λ j.
            rw (fits, wx_e1000_tx_raw)
              ((wx_net_buf_free-Released i (filled_slot i n) lt).at j
                ∙ ap (λ u. if j == i then false else u j) (filled_use i n));
      }
    ]
