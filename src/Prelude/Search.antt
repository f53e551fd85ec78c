-- ===== src/Prelude/Search.antt =====
-- The search of a loop for the first index that passes a test.
use whitex_kernel.Prelude.{
  ◌⊎◌, ltb, refl, sym, ap, ◌∙◌, ℕ, zero, suc, ◌+◌, ◌≤◌, ◌<◌, ◌≡◌, Bool, true, false, Option, none,
  some, ◌==◌, Bool-cases, ==_iff, inl, inr, arith,
}
use mathlib.Core.Bool.{true≢false}

unfoldable pub first_index : (test : ℕ → Bool) (rounds i : ℕ) → Option ℕ
first_index test zero i = none
first_index test (suc k) i = elim (test i) [ true ↦ some i | false ↦ first_index test k (i + 1) ]

-- no index from `i` up to `stop` passes
abbrev pub NonePass : (ℕ → Bool) → ℕ → ℕ → Type 0
NonePass test i stop = (j : ℕ) → i ≤ j → j < stop → test j ≡ false

-- what a search from `i` up to `stop` comes to
pub data Search (test : ℕ → Bool) (i stop : ℕ) : Option ℕ → Type 0 where
  found :
      {w : ℕ} → i ≤ w → w < stop → test w ≡ true → NonePass test i w → Search test i stop (some w)
  missed : NonePass test i stop → Search test i stop none

-- one more index that fails, before a range whose indices fail
pub extend_below :
    (test : ℕ → Bool) (i stop : ℕ)
    → test i ≡ false
    → NonePass test (i + 1) stop
    → NonePass test i stop
extend_below test i stop here later j a b = elim (Bool-cases (j == i)) [
  | inl same ↦ rw ((==_iff j i).0 same) here
  | inr apart ↦ later j (ground (arith, apart)) b
]

Search-later :
    (test : ℕ → Bool) (i stop : ℕ) (r : Option ℕ)
    → test i ≡ false
    → Search test (i + 1) stop r
    → Search test i stop r
Search-later test i stop (some w) here (found a b c d) =
    found (omega arith) b c (extend_below test i w here d)
Search-later test i stop none here (missed d) = missed (extend_below test i stop here d)

pub first_index-Search :
    (test : ℕ → Bool) (k i stop : ℕ) → i + k ≡ stop → Search test i stop (first_index test k i)
unfolding first_index
first_index-Search test zero i stop e = missed (λ j a b. absurd (omega arith))
first_index-Search test (suc k) i stop e = elim (Bool-cases (test i)) [
  | inl here ↦
      rw (here, first_index)
        (found (omega arith) (omega arith) here (λ j a b. absurd (omega arith)))
  | inr fails ↦
      rw (fails, first_index)
        (Search-later test i stop (first_index test k (i + 1)) fails
          (first_index-Search test k (i + 1) stop (omega arith)))
]

pub compare_cases : (v w : ℕ) → (v ≡ w) ⊎ ((v < w) ⊎ (w < v))
compare_cases v w = elim (Bool-cases (v == w)) [
  | inl e ↦ inl ((==_iff v w).0 e)
  | inr ne ↦ elim (Bool-cases (ltb v w)) [
    | inl l ↦ inr (inl (ground (arith, l)))
    | inr g ↦ inr (inr (ground (arith, ne, g)))
  ]
]

-- the first index that passes is the search's answer
pub first_at :
    (test : ℕ → Bool) (k i w : ℕ)
    → i ≤ w
    → w < i + k
    → test w ≡ true
    → NonePass test i w
    → first_index test k i ≡ some w
first_at test k i w le lt here before =
    same (first_index test k i) (first_index-Search test k i (i + k) refl)
  where
    same : (r : Option ℕ) → Search test i (i + k) r → r ≡ some w
    same none (missed all) = absurd (true≢false (sym here ∙ all w le lt))
    same (some v) (found a b passes none_before) = elim (compare_cases v w) [
      | inl e ↦ ap some e
      | inr (inl less) ↦ absurd (true≢false (sym passes ∙ before v a less))
      | inr (inr more) ↦ absurd (true≢false (sym here ∙ none_before w le more))
    ]

-- two tests that agree are searched alike
pub first_index-ext :
    (f g : ℕ → Bool) (k i : ℕ) → ((j : ℕ) → f j ≡ g j) → first_index f k i ≡ first_index g k i
unfolding first_index
first_index-ext f g zero i same = refl
first_index-ext f g (suc k) i same = elim (Bool-cases (g i)) [
  | inl here ↦ let there = same i ∙ here in rw (there, here, first_index)
  | inr fails ↦
      let there = same i ∙ fails in
      rw (there, fails, first_index) (first_index-ext f g k (i + 1) same)
]
