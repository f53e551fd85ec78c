-- ===== src/Prelude/Ring.antt =====
-- Rings of `cap` slots, read from an index on: the queue that a ring of messages or of log
-- entries stands for.
use whitex_kernel.Prelude.{
  ℕ, zero, suc, ◌+◌, ◌-◌, ◌%◌, ◌≤◌, ◌<◌, ltb, if◌then◌else◌, Bool-cases, inl, inr, ◌≡◌, ◌≢◌, refl,
  List, [], ◌∷◌, ◌++◌, arith, update, length, ap, ◌∙◌,
}
use mathlib.Core.Path.{ap₂, sym}
use native.Mathlib.Nat.{mod-add-mod, mod-eq_of_lt, mod-eq-sub-mod, add-zero, mod-lt}

module _ {ℓ} {A : Type ℓ} (cap : ℕ) where
  -- the `n` slots from `h` on, going round at `cap`
  abbrev pub window : (ℕ → A) → ℕ → ℕ → List A
  window q h zero = []
  window q h (suc n) = q h ∷ window q ((h + 1) % cap) n

  pub length-window : (q : ℕ → A) (h n : ℕ) → length (window q h n) ≡ n
  length-window q h zero = refl
  length-window q h (suc n) = ap suc (length-window q ((h + 1) % cap) n)

  pub window_pop :
      (q : ℕ → A) (h n : ℕ) → n ≢ 0 → window q h n ≡ q h ∷ window q ((h + 1) % cap) (n - 1)
  window_pop q h zero p = absurd (p refl)
  window_pop q h (suc n) p = ap (λ k. q h ∷ window q ((h + 1) % cap) k) (omega arith)

step_mod : (cap h n : ℕ) → ((h + 1) % cap + n) % cap ≡ (h + suc n) % cap
step_mod cap h n = rw mod-add-mod (ap (λ k. k % cap) (omega arith))

-- a remainder below two rounds, by a test
wrap : (m cap : ℕ) → m < cap + cap → m % cap ≡ (if ltb m cap then m else m - cap)
wrap m cap lt = elim (Bool-cases (ltb m cap)) [
  | inl below ↦ rw below (mod-eq_of_lt (ground (arith, below)))
  | inr above ↦
      let over : cap ≤ m = ground (arith, above) in
      rw above (mod-eq-sub-mod over ∙ mod-eq_of_lt (omega (arith, over)))
]

-- fewer than `cap` steps never come back
pub round_ne : (h k cap : ℕ) → suc k < cap → h < cap → h ≢ (h + suc k) % cap
round_ne h k cap less inside = ground (arith, wrap (h + suc k) cap (omega arith))

module _ {ℓ} {A : Type ℓ} (x : A) where
  at_hit : (q : ℕ → A) (h i : ℕ) → h ≡ i → update q i x h ≡ x
  at_hit q h i e = ground arith

  at_miss : (q : ℕ → A) (h i : ℕ) → i ≢ h → update q i x h ≡ q h
  at_miss q h i ne = ground arith

  -- A write to the slot just past the window extends the window by what is written.
  pub window_push :
      (cap : ℕ) (q : ℕ → A) (n h i : ℕ)
      → h < cap
      → n < cap
      → i ≡ (h + n) % cap
      → window cap (update q i x) h (suc n) ≡ window cap q h n ++ (x ∷ [])
  window_push cap q zero h i hh hn e =
      let at : h ≡ i = omega (arith, mod-eq_of_lt hh, ap (λ k. k % cap) (add-zero h)) in
      ap (λ y. y ∷ []) (at_hit q h i at)
  window_push cap q (suc n) h i hh hn e =
      ap₂ ◌∷◌ (at_miss q h i (λ same. round_ne h n cap hn hh (sym same ∙ e))) (
        window_push cap q n ((h + 1) % cap) i (mod-lt (h + 1) (omega arith)) (omega arith)
          (e ∙ sym (step_mod cap h n)))
