-- ===== src/Prelude/Arrays.antt =====
-- A C array is a function on its indices. That the code stays inside the array's bounds is
-- proved about the indices, where it holds. A byte string is a list, without its NUL.
use Prim.Native.Nat.{ℕ, zero, suc, ◌+◌}
use mathlib.Core.Path.{◌≡◌, ap}
use mathlib.Core.Bool.{Bool, true, false, ◌&&◌}
use mathlib.Core.List.{List, [], ◌∷◌, ◌++◌}
use mathlib.Core.Logic.{inl, inr}
use mathlib.Core.Option.{Option, none, some}
use native.Mathlib.Omega.{arith}
use whitex_kernel.Prelude.Tests.{◌==◌, leb, ltb, if◌then◌else◌, Bool-cases, ==_iff}

-- a[i] = v
abbrev pub update {ℓ} : {A : Type ℓ} → (ℕ → A) → ℕ → A → ℕ → A
update a i v j = if j == i then v else a j

module _ {ℓ} {A : Type ℓ} where
  abbrev pub length : List A → ℕ
  length [] = 0
  length (x ∷ xs) = suc (length xs)

  abbrev pub get_elem? : List A → ℕ → Option A
  get_elem? [] i = none
  get_elem? (x ∷ xs) zero = some x
  get_elem? (x ∷ xs) (suc i) = get_elem? xs i

  abbrev pub take : ℕ → List A → List A
  take zero xs = []
  take (suc n) [] = []
  take (suc n) (x ∷ xs) = x ∷ take n xs

  abbrev pub drop : ℕ → List A → List A
  drop zero xs = xs
  drop (suc n) [] = []
  drop (suc n) (x ∷ xs) = drop n xs

  pub length-append : (xs ys : List A) → length (xs ++ ys) ≡ length xs + length ys
  length-append [] ys = omega arith
  length-append (x ∷ xs) ys = omega (arith, length-append xs ys)

-- for (j = i; j < i + rounds; j++) a[j] = f j a[j]
unfoldable pub each_from {ℓ} : {A : Type ℓ} → (ℕ → A → A) → (rounds i : ℕ) → (ℕ → A) → ℕ → A
each_from f zero i a = a
each_from f (suc k) i a = each_from f k (i + 1) (update a i (f i (a i)))

pub each_from_lem {ℓ} :
    {A : Type ℓ} (f : ℕ → A → A) (k i : ℕ) (a : ℕ → A) (j : ℕ)
    → each_from f k i a j ≡ (if leb i j && ltb j (i + k) then f j (a j) else a j)
unfolding each_from
each_from_lem f zero i a j = ground arith
each_from_lem f (suc k) i a j = elim (Bool-cases (j == i)) [
  | inl same ↦
      let e : j ≡ i = (==_iff j i).0 same in
      ground (arith, each_from_lem f k (i + 1) (update a i (f i (a i))) j, ap (λ n. f n (a n)) e)
  | inr apart ↦ ground (arith, each_from_lem f k (i + 1) (update a i (f i (a i))) j)
]

-- Byte strings are equal when their bytes are.
abbrev pub same_bytes : List ℕ → List ℕ → Bool
same_bytes [] [] = true
same_bytes [] (y ∷ ys) = false
same_bytes (x ∷ xs) [] = false
same_bytes (x ∷ xs) (y ∷ ys) = (x == y) && same_bytes xs ys
