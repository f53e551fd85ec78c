-- ===== src/Net/Checksum.antt =====
-- The Internet checksum of i386/whitex/internet.h.
use whitex_kernel.Prelude.{
  ℕ, zero, suc, ◌+◌, ◌-◌, ◌*◌, ◌/◌, ◌%◌, ◌<◌, ◌≡◌, ◌≢◌, refl, true, false, List, [], ◌∷◌, ◌++◌, ltb,
  ◌==◌, if◌then◌else◌, length, arith, Bool-cases, inl, inr, ne_test, sym, ap, ◌∙◌,
}
use whitex_kernel.Prelude.Words.{u32, add32}
use whitex_kernel.Net.{u16}

-- the words of the data, little-endian, added to `sum`; a last single byte counts by itself
unfoldable pub sum_words : (sum : ℕ) → List ℕ → ℕ
sum_words sum [] = sum
sum_words sum (x ∷ []) = add32 sum x
sum_words sum (x ∷ y ∷ rest) = sum_words (add32 sum (x + y * 256)) rest

-- `while (sum >> 16)`
unfoldable pub fold_sum : (rounds sum : ℕ) → ℕ
fold_sum zero sum = sum
fold_sum (suc k) sum = elim (sum / u16 == 0) [
  | true ↦ sum
  | false ↦ fold_sum k (sum % u16 + sum / u16)
]

-- three rounds, which are enough for 32 bits
unfoldable pub folded : ℕ → ℕ
unfolding fold_sum
folded sum = fold_sum 3 sum

-- `~sum`, as 16 bits
abbrev pub complement : ℕ → ℕ
complement sum = (u32 - 1 - sum) % u16

unfoldable pub wx_checksum : List ℕ → ℕ
unfolding sum_words folded
wx_checksum bytes = complement (folded (sum_words 0 bytes))

-- the residue that folding keeps: modulo 65535, with 65535 for a sum that is not 0
abbrev pub residue : ℕ → ℕ
residue sum = if sum == 0 then 0 else ((sum - 1) % 65535 + 1)

fold_round : (sum : ℕ) → sum / u16 ≢ 0 → residue (sum % u16 + sum / u16) ≡ residue sum
fold_round sum carry = ground arith

fold_small : (k sum : ℕ) → sum < u16 → fold_sum k sum ≡ sum
unfolding fold_sum
fold_small zero sum lt = refl
fold_small (suc k) sum lt = let ends : (sum / u16 == 0) ≡ true = ground arith in rw (ends, fold_sum)

fold_carry : (k sum : ℕ) → sum / u16 ≢ 0 → fold_sum (suc k) sum ≡ fold_sum k (sum % u16 + sum / u16)
unfolding fold_sum
fold_carry k sum carry = rw (ne_test carry, fold_sum)

residue_small : (sum : ℕ) → sum < u16 → residue sum ≡ sum
residue_small sum lt = ground arith

fold_one : (k sum : ℕ) → sum < 131071 → fold_sum (suc k) sum ≡ residue sum
fold_one k sum lt = elim (Bool-cases (ltb sum u16)) [
  | inl small ↦
      let below : sum < u16 = ground (arith, small) in
      fold_small (suc k) sum below ∙ sym (residue_small sum below)
  | inr big ↦
      let carry : sum / u16 ≢ 0 = ground (arith, big) in
      let next = sum % u16 + sum / u16 in
      let below : next < u16 = omega (arith, carry) in
      fold_carry k sum carry
      ∙ fold_small k next below
      ∙ sym (residue_small next below)
      ∙ fold_round sum carry
]

fold_two : (k sum : ℕ) → sum < u32 → fold_sum (suc (suc k)) sum ≡ residue sum
fold_two k sum lt = elim (Bool-cases (ltb sum u16)) [
  | inl small ↦
      let below : sum < u16 = ground (arith, small) in
      fold_small (suc (suc k)) sum below ∙ sym (residue_small sum below)
  | inr big ↦
      let carry : sum / u16 ≢ 0 = ground (arith, big) in
      let next = sum % u16 + sum / u16 in
      fold_carry (suc k) sum carry ∙ fold_one k next (omega arith) ∙ fold_round sum carry
]

residue-lt : (sum : ℕ) → residue sum < u16
residue-lt sum = ground arith

-- Folding 32 bits ends within three rounds: the sum is then below 2 ^ 16 and further rounds change
-- nothing. It keeps the residue modulo 65535.
pub folded_lem :
    (sum more : ℕ)
    → sum < u32
    → (folded sum < u16) × (folded sum ≡ residue sum) × (fold_sum (3 + more) sum ≡ folded sum)
unfolding folded
folded_lem sum more lt =
    let three = fold_two 1 sum lt in
    let rounds : 3 + more ≡ suc (suc (suc more)) = omega arith in
    (
      rw three (residue-lt sum),
      three,
      ap (λ k. fold_sum k sum) rounds ∙ fold_two (suc more) sum lt ∙ sym three,
    )

-- the sum of the words without wrap-around
abbrev pub total : List ℕ → ℕ
total [] = 0
total (x ∷ []) = x
total (x ∷ y ∷ rest) = x + y * 256 + total rest

abbrev pub AllBytes : List ℕ → Type 0
AllBytes [] = Unit
AllBytes (x ∷ xs) = (x < 256) × AllBytes xs

sum_words-total : (xs : List ℕ) (sum : ℕ) → sum + total xs < u32 → sum_words sum xs ≡ sum + total xs
unfolding sum_words
sum_words-total [] sum lt = omega arith
sum_words-total (x ∷ []) sum lt = omega (arith, lt)
sum_words-total (x ∷ y ∷ rest) sum lt =
    let here : add32 sum (x + y * 256) ≡ sum + (x + y * 256) = omega (arith, lt) in
    rw here (sum_words-total rest (sum + (x + y * 256)) (omega (arith, lt)) ∙ (omega arith))

abbrev pub pairs : ℕ → ℕ
pairs zero = 0
pairs (suc n) = suc (suc (pairs n))

total-append :
    (n : ℕ) (xs ys : List ℕ) → length xs ≡ pairs n → total (xs ++ ys) ≡ total xs + total ys
total-append zero [] ys e = omega arith
total-append zero (x ∷ xs) ys e = absurd (omega arith)
total-append (suc n) [] ys e = absurd (omega arith)
total-append (suc n) (x ∷ []) ys e = absurd (omega arith)
total-append (suc n) (x ∷ y ∷ rest) ys e = omega (arith, total-append n rest ys (omega (arith, e)))

verifies : (sum : ℕ) → sum + 65535 < u32 → complement (residue (sum + complement (residue sum))) ≡ 0
verifies sum lt = ground arith

checksum_is :
    (xs : List ℕ) (sum : ℕ) → total xs ≡ sum → sum < u32 → wx_checksum xs ≡ complement (residue sum)
unfolding wx_checksum
checksum_is xs sum e lt =
    let words : sum_words 0 xs ≡ 0 + total xs = sum_words-total xs 0 (omega (arith, e, lt)) in
    let all : sum_words 0 xs ≡ sum = omega (arith, words, e) in
    ap (λ s. complement (folded s)) all ∙ ap (λ s. complement s) (folded_lem sum 0 lt).1

field : (c : ℕ) → c < u16 → c % 256 + c / 256 % 256 * 256 ≡ c
field c lt = omega (arith, lt)

-- The checksum verifies: stored in a 16-bit field that held 0, at an even place, it makes the
-- checksum of the whole 0. The data is short enough for its sum not to wrap.
pub wx_checksum_verifies :
    (n : ℕ) (before after : List ℕ)
    → length before ≡ pairs n
    → total before + total after + 65535 < u32
    → let c = wx_checksum (before ++ (0 ∷ 0 ∷ after)) in
      wx_checksum (before ++ (c % 256 ∷ c / 256 % 256 ∷ after)) ≡ 0
wx_checksum_verifies n before after even lt =
    let sum = total before + total after in
    let c = wx_checksum (before ++ (0 ∷ 0 ∷ after)) in
    let zeros : total (before ++ (0 ∷ 0 ∷ after)) ≡ sum =
      omega (arith, total-append n before (0 ∷ 0 ∷ after) even) in
    let c_is : c ≡ complement (residue sum) =
      checksum_is (before ++ (0 ∷ 0 ∷ after)) sum zeros (omega (arith, lt)) in
    let small : c < u16 = omega (arith, c_is) in
    let filled : total (before ++ (c % 256 ∷ c / 256 % 256 ∷ after)) ≡ sum + c =
      omega (arith, total-append n before (c % 256 ∷ c / 256 % 256 ∷ after) even, field c small) in
    checksum_is (before ++ (c % 256 ∷ c / 256 % 256 ∷ after)) (sum + c) filled
      (omega (arith, small, lt))
    ∙ ap (λ x. complement (residue (sum + x))) c_is
    ∙ verifies sum lt
