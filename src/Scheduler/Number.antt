-- ===== src/Scheduler/Number.antt =====
-- Decimal numbers: `scheduler_integer_to_string` of i386/whitex/multitasking.h, by which `ps`
-- prints process numbers, and `parse_integer` of i386/whitex/sys_tools.h, by which `kill` reads
-- them.
use whitex_kernel.Prelude.{
  ℕ, zero, suc, ◌+◌, ◌-◌, ◌*◌, ◌/◌, ◌%◌, ◌^◌, ◌<◌, ◌≡◌, refl, Bool, true, List, [], ◌∷◌, leb, ◌==◌,
  ◌&&◌, if◌then◌else◌, arith, Bool-cases, inl, inr, ap, ◌∙◌,
}
use native.Mathlib.Nat.{pow-suc}
use whitex_kernel.Prelude.Words.{u32}

-- The loop that counts the digits, on fuel: ten rounds serve every 32-bit number.
unfoldable pub digit_count : (fuel temporary : ℕ) → ℕ
digit_count zero temporary = 0
digit_count (suc f) temporary =
    let rest = digit_count f (temporary / 10) in if temporary == 0 then 0 else rest + 1

-- the loop that writes `length` digits, from the last to the first, in front of `tail`
unfoldable pub write_digits : (length value : ℕ) → List ℕ → List ℕ
write_digits zero value tail = tail
write_digits (suc k) value tail = write_digits k (value / 10) ((value % 10 + 48) ∷ tail)

unfoldable pub scheduler_integer_to_string : ℕ → List ℕ
scheduler_integer_to_string value =
    if value == 0 then 48 ∷ [] else write_digits (digit_count 10 value) value []

abbrev pub is_digit : ℕ → Bool
is_digit c = leb 48 c && leb c 57

unfoldable pub parse_from : ℕ → List ℕ → ℕ
parse_from result [] = result
parse_from result (c ∷ cs) =
    let rest = parse_from ((result * 10 + (c - 48)) % u32) cs in if is_digit c then rest else result

unfoldable pub parse_integer : List ℕ → ℕ
unfolding parse_from
parse_integer str = parse_from 0 str

digit_count-enough : (f v : ℕ) → v < 10 ^ f → v < 10 ^ digit_count f v
unfolding digit_count
digit_count-enough zero v h = h
digit_count-enough (suc f) v h = elim (Bool-cases (v == 0)) [
  | inl none_left ↦ rw (none_left, digit_count) (ground (arith, none_left))
  | inr some_left ↦
      let ih = digit_count-enough f (v / 10) (omega (arith, pow-suc 10 f)) in
      rw (some_left, digit_count) (more (digit_count f (v / 10)) ih)
]
  where
    more : (k : ℕ) → v / 10 < 10 ^ k → v < 10 ^ (k + 1)
    more k p =
        let e : 10 ^ (k + 1) ≡ 10 ^ suc k = ap (λ n. 10 ^ n) (omega arith) in
        rw e (omega (arith, pow-suc 10 k))

parse_from-digit :
    (result d : ℕ) (cs : List ℕ)
    → d < 10
    → result * 10 + d < u32
    → parse_from result ((d + 48) ∷ cs) ≡ parse_from (result * 10 + d) cs
unfolding parse_from
parse_from-digit result d cs p q =
    let digit : is_digit (d + 48) ≡ true = ground arith in
    let value : (result * 10 + (d + 48 - 48)) % u32 ≡ result * 10 + d = omega arith in
    rw (digit, value) refl

parse_from-write_digits :
    (k v : ℕ) (tail : List ℕ)
    → v < 10 ^ k
    → v < u32
    → parse_from 0 (write_digits k v tail) ≡ parse_from v tail
unfolding write_digits
parse_from-write_digits zero v tail h q = ap (λ n. parse_from n tail) (omega arith)
parse_from-write_digits (suc k) v tail h q =
    parse_from-write_digits k (v / 10) ((v % 10 + 48) ∷ tail) (omega (arith, pow-suc 10 k))
      (omega arith)
    ∙ parse_from-digit (v / 10) (v % 10) tail (omega arith) (omega arith)
    ∙ ap (λ n. parse_from n tail) (omega arith)

-- Reading back the printed form of a 32-bit number gives the number.
pub parse_integer-scheduler_integer_to_string :
    (v : ℕ) → v < u32 → parse_integer (scheduler_integer_to_string v) ≡ v
unfolding parse_integer scheduler_integer_to_string
parse_integer-scheduler_integer_to_string v h = elim (Bool-cases (v == 0)) [
  | inl nothing ↦ rw nothing (ground (arith, nothing))
  | inr something ↦
      rw something
        (parse_from-write_digits (digit_count 10 v) v [] (digit_count-enough 10 v (omega arith)) h)
]
