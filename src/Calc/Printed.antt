-- ===== src/Calc/Printed.antt =====
-- The text that i386/whitex/calc.h prints of an integer.
use whitex_kernel.Prelude.{
  ℕ, zero, suc, ◌+◌, ◌-◌, ◌*◌, ◌/◌, ◌%◌, ◌^◌, ◌<◌, ◌≡◌, ◌≢◌, refl, ◌==◌, true, false, List, [], ◌∷◌,
  if◌then◌else◌, arith, Bool-cases, inl, inr, ap, ◌∙◌,
}
use native.Mathlib.Nat.{pow-suc}
use whitex_kernel.Calc.{is_negative, magnitude, is_digit, itoa_digits, itoa2}
use whitex_kernel.Calc.Meaning.{AllDigits, decimal, decimal_onto}

-- The text is that of the integer: its digits in the decimal system, behind a minus when it is negative.
pub data Shows (v : ℕ) : List ℕ → Type 0 where
  as_it_is : {ds : List ℕ} → AllDigits ds → v < 2 ^ 31 → decimal ds ≡ v → Shows v ds
  with_minus :
      {ds : List ℕ} → AllDigits ds → 2 ^ 31 < v → decimal ds + v ≡ 2 ^ 32 → Shows v (45 ∷ ds)

-- what the loop of the digits writes before `rest`
record Digits (n : ℕ) (rest out : List ℕ) : Type 0 where
  digits : AllDigits out
  writes : decimal out ≡ decimal_onto n rest

itoa_digits_lem :
    (k n : ℕ) (rest : List ℕ)
    → n < 10 ^ k
    → AllDigits rest
    → Digits n rest (itoa_digits k n false rest)
unfolding itoa_digits
itoa_digits_lem zero n rest small all =
    let none_left : n ≡ 0 = omega (arith, small) in
    record { digits = all; writes = ap (λ m. decimal_onto m rest) (omega (arith, none_left)) }
itoa_digits_lem (suc k) n rest small all = elim (Bool-cases (n == 0)) [
  | inl done ↦
      let none_left : 0 ≡ n = ground (arith, done) in
      rw (done, itoa_digits)
        (record { digits = all; writes = ap (λ m. decimal_onto m rest) none_left })
  | inr more ↦
      let less : n / 10 < 10 ^ k = omega (arith, small, pow-suc 10 k) in
      let own : is_digit (n % 10 + 48) ≡ true = ground arith in
      let whole : n / 10 * 10 + (n % 10 + 48 - 48) ≡ n = omega arith in
      let next = itoa_digits_lem k (n / 10) ((n % 10 + 48) ∷ rest) less (own, all) in
      rw (more, itoa_digits)
        (record {
          digits = next.digits;
          writes = next.writes ∙ ap (λ m. decimal_onto m rest) whole;
        })
]

-- an integer of 32 bits other than -2 ^ 31 is printed right
pub itoa2-Shows : (v : ℕ) → v < 2 ^ 32 → v ≢ 2 ^ 31 → Shows v (itoa2 v)
unfolding itoa2
itoa2-Shows v lt other = elim (Bool-cases (v == 0)) [
  | inl null ↦
      let at : 0 ≡ v = ground (arith, null) in
      rw (null, itoa2) (as_it_is (refl, tt) (omega (arith, at)) at)
  | inr full ↦
      let usual : (v == 2 ^ 31) ≡ false = ground (arith, other) in
      let small : magnitude v < 10 ^ 10 = ground (arith, lt) in
      let d = itoa_digits_lem 10 (magnitude v) [] small tt in
      elim (Bool-cases (is_negative v)) [
        | inl below ↦
            let amount : magnitude v + v ≡ 2 ^ 32 = ground (arith, below, lt) in
            let past : 2 ^ 31 < v = ground (arith, below, usual) in
            rw (full, usual, itoa2)
              (below_zero v below past amount (itoa_digits 10 (magnitude v) false []) d)
        | inr above ↦
            let inside : v < 2 ^ 31 = ground (arith, above) in
            let amount : magnitude v ≡ v = ground (arith, above) in
            rw (full, usual, itoa2)
              (above_zero v above inside amount (itoa_digits 10 (magnitude v) false []) d)
      ]
]
  where
    below_zero :
        (v : ℕ)
        → is_negative v ≡ true
        → 2 ^ 31 < v
        → magnitude v + v ≡ 2 ^ 32
        → (ds : List ℕ) → Digits (magnitude v) [] ds
        → Shows v (if is_negative v then 45 ∷ ds else ds)
    below_zero v below past amount ds d =
        rw below (with_minus d.digits past (ap (λ x. x + v) d.writes ∙ amount))

    above_zero :
        (v : ℕ)
        → is_negative v ≡ false
        → v < 2 ^ 31
        → magnitude v ≡ v
        → (ds : List ℕ) → Digits (magnitude v) [] ds
        → Shows v (if is_negative v then 45 ∷ ds else ds)
    above_zero v above inside amount ds d = rw above (as_it_is d.digits inside (d.writes ∙ amount))
