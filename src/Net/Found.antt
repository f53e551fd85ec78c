-- ===== src/Net/Found.antt =====
-- The socket that a segment is for, as i386/whitex/internet.h finds it.
use whitex_kernel.Prelude.{
  same_bytes, ◌⊎◌, ℕ, ◌≡◌, refl, Bool, true, Option, none, some, List, ◌==◌, ◌&&◌, arith, inl, inr,
}
use mathlib.Core.Path.{subst}
use mathlib.Core.Option.{some-injective, none-ne-some}
use whitex_kernel.Prelude.Search.{first_index, first_index-Search, Search, found}
use whitex_kernel.Net.{Tcb}
use whitex_kernel.Net.Receive.{tcp_max_socks, find_tcb}

-- a socket that `find_tcb` gives: of the connection, or a listener on the port
abbrev pub Chosen : (dst_port src_port : ℕ) (src_ip : List ℕ) → Tcb → Type 0
Chosen dst_port src_port src_ip t =
    (t.is_used ≡ true)
    × (t.local_port ≡ dst_port)
    × (((t.remote_port ≡ src_port) × (same_bytes t.remote_ip src_ip ≡ true)) ⊎ (t.state ≡ 1))

module _ (dst_port src_port : ℕ) (src_ip : List ℕ) (socks : ℕ → Tcb) where
  abbrev connects : ℕ → Bool
  connects j =
      (socks j).is_used
      && ((socks j).local_port == dst_port)
      && ((socks j).remote_port == src_port)
      && same_bytes (socks j).remote_ip src_ip

  abbrev listens : ℕ → Bool
  listens j = (socks j).is_used && ((socks j).local_port == dst_port) && ((socks j).state == 1)

  connects-Chosen : (j : ℕ) → connects j ≡ true → Chosen dst_port src_port src_ip (socks j)
  connects-Chosen j hit =
      (ground (arith, hit), ground (arith, hit), inl (ground (arith, hit), ground (arith, hit)))

  listens-Chosen : (j : ℕ) → listens j ≡ true → Chosen dst_port src_port src_ip (socks j)
  listens-Chosen j hit = (ground (arith, hit), ground (arith, hit), inr (ground (arith, hit)))

  searched_lem :
      (c l : Option ℕ) (j : ℕ)
      → Search connects 0 tcp_max_socks c
      → Search listens 0 tcp_max_socks l
      → elim c [ some i ↦ some i | none ↦ l ] ≡ some j
      → Chosen dst_port src_port src_ip (socks j)
  searched_lem (some i) l j (found a lt hit before) s e =
      subst (λ i. Chosen dst_port src_port src_ip (socks i)) (some-injective i j e)
        (connects-Chosen i hit)
  searched_lem none (some i) j s (found a lt hit before) e =
      subst (λ i. Chosen dst_port src_port src_ip (socks i)) (some-injective i j e)
        (listens-Chosen i hit)
  searched_lem none none j s s' e = absurd (none-ne-some _ e)

  pub find_tcb-Chosen :
      (j : ℕ)
      → find_tcb dst_port src_port src_ip socks ≡ some j
      → Chosen dst_port src_port src_ip (socks j)
  unfolding find_tcb
  find_tcb-Chosen j e =
      searched_lem (first_index connects tcp_max_socks 0) (first_index listens tcp_max_socks 0) j
        (first_index-Search connects tcp_max_socks 0 tcp_max_socks refl)
        (first_index-Search listens tcp_max_socks 0 tcp_max_socks refl) e
