-- ===== src/Calc/Meaning.antt =====
-- What the numbers and the operators of i386/whitex/calc.h mean on 32 bits, and that the calculator computes it.
use Prim.Native.Nat.{bit_and, bit_or}
use mathlib.Core.Option.{some-injective}
use whitex_kernel.Prelude.{
  ℕ, zero, suc, ◌+◌, ◌-◌, ◌*◌, ◌/◌, ◌%◌, ◌^◌, ◌≡◌, refl, ◌==◌, Bool, true, false, Option, none,
  some, List, [], ◌∷◌, ltb, ◌&&◌, not, if◌then◌else◌, arith, Bool-cases, inl, inr, ap, ◌∙◌,
}
use whitex_kernel.Prelude.Words.{sub32}
use whitex_kernel.Calc.{
  Answer, trap, zero_division, zero_modulo, value, failed, is_negative, magnitude, quotient,
  remainder, overflows, power, power_from, apply_op, is_digit, with_digit,
}

-- the operators and their characters
pub data Operator : Type 0 where
  plus minus times cross over modulo to_the and_bits or_bits : Operator

abbrev pub sign : Operator → ℕ
sign plus = 43
sign minus = 45
sign times = 42
sign cross = 120
sign over = 47
sign modulo = 37
sign to_the = 94
sign and_bits = 38
sign or_bits = 124

abbrev pub AllDigits : List ℕ → Type 0
AllDigits [] = Unit
AllDigits (d ∷ ds) = (is_digit d ≡ true) × AllDigits ds

-- the number that digits write in the decimal system, behind a number `v`
abbrev pub decimal_onto : ℕ → List ℕ → ℕ
decimal_onto v [] = v
decimal_onto v (d ∷ ds) = decimal_onto (v * 10 + (d - 48)) ds

abbrev pub decimal : List ℕ → ℕ
decimal ds = decimal_onto 0 ds

-- integers in two's complement
abbrev pub is_positive : ℕ → Bool
is_positive a = ltb a (2 ^ 31)

abbrev pub opposite : ℕ → ℕ
opposite n = (2 ^ 32 - n) % 2 ^ 32

abbrev pub size : ℕ → ℕ
size a = if is_positive a then a else 2 ^ 32 - a

-- the quotient and the remainder round towards 0
abbrev pub has_quotient : (a b : ℕ) → Bool
has_quotient a b = not (b == 0) && not ((a == 2 ^ 31) && (b == 2 ^ 32 - 1))

abbrev pub rounded : (a b : ℕ) → ℕ
rounded a b =
    if is_positive a
    then (if is_positive b then size a / size b else opposite (size a / size b))
    else (if is_positive b then opposite (size a / size b) else size a / size b)

abbrev pub left_over : (a b : ℕ) → ℕ
left_over a b = if is_positive a then size a % size b else opposite (size a % size b)

-- the power by multiplications
unfoldable pub powers : (a k : ℕ) → ℕ
powers a zero = 1
powers a (suc k) = powers a k * a % 2 ^ 32

-- what an operator means on 32 bits, if it has a value
abbrev pub meaning : Operator → (a b : ℕ) → Option ℕ
meaning plus a b = some ((a + b) % 2 ^ 32)
meaning minus a b = some ((a + 2 ^ 32 - b) % 2 ^ 32)
meaning times a b = some (a * b % 2 ^ 32)
meaning cross a b = some (a * b % 2 ^ 32)
meaning over a b = if has_quotient a b then some (rounded a b) else none
meaning modulo a b = if has_quotient a b then some (left_over a b) else none
meaning to_the a b = if is_positive b then some (powers a b) else some 0
meaning and_bits a b = some (bit_and a b)
meaning or_bits a b = some (bit_or a b)

size_lem : (a : ℕ) → magnitude a ≡ size a
size_lem a = ground arith

negative_lem : (a : ℕ) → is_negative a ≡ not (is_positive a)
negative_lem a = ground arith

quotient_signs :
    (na nb pa pb : Bool) (q : ℕ)
    → na ≡ not pa
    → nb ≡ not pb
    → (if na then (if nb then q else sub32 0 q) else (if nb then sub32 0 q else q))
      ≡ (if pa then (if pb then q else opposite q) else (if pb then opposite q else q))
quotient_signs na nb true true q e f = rw (e, f) refl
quotient_signs na nb true false q e f = rw (e, f) refl
quotient_signs na nb false true q e f = rw (e, f) refl
quotient_signs na nb false false q e f = rw (e, f) refl

remainder_signs :
    (na pa : Bool) (r : ℕ)
    → na ≡ not pa
    → (if na then sub32 0 r else r) ≡ (if pa then r else opposite r)
remainder_signs na true r e = rw e refl
remainder_signs na false r e = rw e refl

quotient_lem : (a b : ℕ) → quotient a b ≡ rounded a b
quotient_lem a b =
    quotient_signs (is_negative a) (is_negative b) (is_positive a) (is_positive b)
      (magnitude a / magnitude b) (negative_lem a) (negative_lem b)
    ∙ ap
        (λ q.
          if is_positive a
          then (if is_positive b then q else opposite q)
          else (if is_positive b then opposite q else q))
        (ap (λ x. x / magnitude b) (size_lem a) ∙ ap (λ x. size a / x) (size_lem b))

remainder_lem : (a b : ℕ) → remainder a b ≡ left_over a b
remainder_lem a b =
    remainder_signs (is_negative a) (is_positive a) (magnitude a % magnitude b) (negative_lem a)
    ∙ ap (λ r. if is_positive a then r else opposite r)
        (ap (λ x. x % magnitude b) (size_lem a) ∙ ap (λ x. size a % x) (size_lem b))

powers_from : (a k j : ℕ) → power_from k a (powers a j) ≡ powers a (j + k)
unfolding power_from powers
powers_from a zero j = ap (powers a) (omega arith)
powers_from a (suc k) j = powers_from a k (suc j) ∙ ap (powers a) (omega arith)

-- the guards of the division
divided :
    (a b q v : ℕ) (zero_error : Answer)
    → (if has_quotient a b then some q else none) ≡ some v
    → (if b == 0 then failed zero_error else if overflows a b then failed trap else value q)
      ≡ value v
divided a b q v zero_error e = ground (arith, e)

pub apply_op-meaning :
    (o : Operator) (a b v : ℕ) → meaning o a b ≡ some v → apply_op a b (sign o) ≡ value v
unfolding apply_op power powers
apply_op-meaning plus a b v e = ap value (some-injective _ _ e)
apply_op-meaning minus a b v e = ap value (some-injective _ _ e)
apply_op-meaning times a b v e = ap value (some-injective _ _ e)
apply_op-meaning cross a b v e = ap value (some-injective _ _ e)
apply_op-meaning over a b v e =
    divided a b (quotient a b) v zero_division
      (ap (λ q. if has_quotient a b then some q else none) (quotient_lem a b) ∙ e)
apply_op-meaning modulo a b v e =
    divided a b (remainder a b) v zero_modulo
      (ap (λ q. if has_quotient a b then some q else none) (remainder_lem a b) ∙ e)
apply_op-meaning to_the a b v e = elim (Bool-cases (is_positive b)) [
  | inl up ↦
      let down : is_negative b ≡ false = ground (arith, up) in
      let e' : some (powers a b) ≡ some v = rw up at e in
      rw (down, power)
        (ap value (powers_from a b 0 ∙ (ap (powers a) (omega arith) ∙ some-injective _ _ e')))
  | inr off ↦
      let down : is_negative b ≡ true = ground (arith, off) in
      let e' : some 0 ≡ some v = rw off at e in rw (down, power) (ap value (some-injective _ _ e'))
]
apply_op-meaning and_bits a b v e = ap value (some-injective _ _ e)
apply_op-meaning or_bits a b v e = ap value (some-injective _ _ e)

-- the number that the loop over the digits adds to
abbrev pub read_onto : ℕ → List ℕ → ℕ
read_onto v [] = v
read_onto v (d ∷ ds) = read_onto (with_digit d (some v)) ds

digit_lem : (n d : ℕ) → with_digit d (some (n % 2 ^ 32)) ≡ (n * 10 + (d - 48)) % 2 ^ 32
digit_lem n d = omega arith

read_onto-decimal : (n : ℕ) (ds : List ℕ) → read_onto (n % 2 ^ 32) ds ≡ decimal_onto n ds % 2 ^ 32
read_onto-decimal n [] = refl
read_onto-decimal n (d ∷ ds) =
    ap (λ v. read_onto v ds) (digit_lem n d) ∙ read_onto-decimal (n * 10 + (d - 48)) ds

pub read-decimal :
    (d : ℕ) (ds : List ℕ)
    → is_digit d ≡ true
    → read_onto (with_digit d none) ds ≡ decimal (d ∷ ds) % 2 ^ 32
read-decimal d ds here =
    let small : d - 48 ≡ (0 * 10 + (d - 48)) % 2 ^ 32 = ground (arith, here) in
    ap (λ v. read_onto v ds) small ∙ read_onto-decimal (0 * 10 + (d - 48)) ds
