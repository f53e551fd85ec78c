-- ===== src/Calc.antt =====
-- The calculator of i386/whitex/calc.h. An `int` is its 32 bits; the two stacks are lists, the top first.
pub mod Bounds
pub mod Meaning
pub mod Printed
pub mod Terms
pub mod Tests
use Prim.Native.Nat.{bit_and, bit_or}
use whitex_kernel.Prelude.{
  ℕ, zero, suc, ◌+◌, ◌-◌, ◌*◌, ◌/◌, ◌%◌, ◌^◌, ◌==◌, Bool, true, false, Option, none, some, List, [],
  ◌∷◌, ◌++◌, ltb, leb, ◌&&◌, ◌||◌, not, if◌then◌else◌, length,
}
use whitex_kernel.Prelude.Int.{ℤ, pos, negsuc, ltb_ℤ}
use whitex_kernel.Prelude.Words.{add32, sub32, mul32}

abbrev pub is_negative : ℕ → Bool
is_negative w = leb (2 ^ 31) w

abbrev pub magnitude : ℕ → ℕ
magnitude w = if is_negative w then sub32 0 w else w

-- the loop of `power`
unfoldable pub power_from : (rounds base res : ℕ) → ℕ
power_from zero base res = res
power_from (suc k) base res = power_from k base (mul32 res base)

unfoldable pub power : (base exp : ℕ) → ℕ
power base exp = elim (is_negative exp) [ true ↦ 0 | false ↦ power_from exp base 1 ]

-- what the calculator says: its errors, the processor's trap, or a result
pub data Answer : Type 0 where
  usage overflow syntax zero_division zero_modulo trap invalid : Answer
  shown : (out : List ℕ) → Answer

pub data Applied : Type 0 where
  value : ℕ → Applied
  failed : Answer → Applied

-- the quotient and the remainder of `int`, which trap where the quotient is 2 ^ 31
abbrev pub overflows : (a b : ℕ) → Bool
overflows a b = (a == 2 ^ 31) && (b == 2 ^ 32 - 1)

abbrev pub quotient : (a b : ℕ) → ℕ
quotient a b =
    let q = magnitude a / magnitude b in
    if is_negative a
    then (if is_negative b then q else sub32 0 q)
    else (if is_negative b then sub32 0 q else q)

abbrev pub remainder : (a b : ℕ) → ℕ
remainder a b = let r = magnitude a % magnitude b in if is_negative a then sub32 0 r else r

unfoldable pub apply_op : (a b op : ℕ) → Applied
apply_op a b op =
    if op == 43
    then value (add32 a b)
    else if op == 45
    then value (sub32 a b)
    else if (op == 42) || (op == 120)
    then value (mul32 a b)
    else if op == 47
    then (if b == 0
        then failed zero_division
        else if overflows a b
        then failed trap
        else value (quotient a b))
    else if op == 37
    then (if b == 0
        then failed zero_modulo
        else if overflows a b
        then failed trap
        else value (remainder a b))
    else if op == 94
    then value (power a b)
    else if op == 38
    then value (bit_and a b)
    else if op == 124
    then value (bit_or a b)
    else value 0

unfoldable pub get_precedence : ℕ → ℤ
get_precedence op =
    if (op == 43) || (op == 45)
    then pos 1
    else if (op == 42) || (op == 47) || (op == 37) || (op == 120)
    then pos 2
    else if op == 94
    then pos 3
    else if (op == 38) || (op == 124)
    then pos 0
    else negsuc 0

pub record Stacks : Type 0 where
  pub values : List ℕ
  pub ops : List ℕ

-- a step of the calculator: it goes on or ends with an answer
pub data Step : Type 0 where
  goes : Stacks → Step
  ends : Answer → Step

abbrev pub and_then : Step → (Stacks → Step) → Step
and_then (goes s) f = f s
and_then (ends m) f = ends m

-- an operation on the two top values
unfoldable pub apply_top : (op : ℕ) → (values ops : List ℕ) → Step
apply_top op [] ops = ends syntax
apply_top op (v ∷ []) ops = ends syntax
apply_top op (val2 ∷ val1 ∷ rest) ops = elim (apply_op val1 val2 op) [
  | value res ↦ goes (record { values = res ∷ rest; ops = ops })
  | failed m ↦ ends m
]

-- the loops that apply operations while the top of `ops` passes a test
unfoldable pub reduce : (test : ℕ → Bool) → (values ops : List ℕ) → Step
reduce test values [] = goes (record { values = values; ops = [] })
reduce test values (op ∷ ops) = elim (test op) [
  | false ↦ goes (record { values = values; ops = op ∷ ops })
  | true ↦ and_then (apply_top op values ops) (λ s. reduce test s.values ops)
]

abbrev pub stack_size : ℕ
stack_size = 40

unfoldable pub push_value : ℕ → Stacks → Step
push_value v s =
    if leb stack_size (length s.values)
    then ends overflow
    else goes (record s { values = v ∷ s.values })

unfoldable pub push_op : ℕ → Stacks → Step
push_op op s =
    if leb stack_size (length s.ops) then ends overflow else goes (record s { ops = op ∷ s.ops })

abbrev pub drop_op : Stacks → Stacks
drop_op s = record s { ops = elim s.ops [ [] ↦ [] | op ∷ ops ↦ ops ] }

-- a character that is no digit
unfoldable pub calc_char : ℕ → Stacks → Step
calc_char c s =
    if c == 32
    then goes s
    else if c == 40
    then push_op c s
    else if c == 41
    then and_then (reduce (λ op. not (op == 40)) s.values s.ops) (λ t. goes (drop_op t))
    else and_then (reduce (λ op. not (ltb_ℤ (get_precedence op) (get_precedence c))) s.values s.ops)
        (push_op c)

abbrev pub is_digit : ℕ → Bool
is_digit c = leb 48 c && leb c 57

-- the number read so far with one more digit
abbrev pub with_digit : ℕ → Option ℕ → ℕ
with_digit c none = c - 48
with_digit c (some val) = add32 (mul32 val 10) (c - 48)

unfoldable pub push_number : Option ℕ → Stacks → Step
push_number none s = goes s
push_number (some val) s = push_value val s

-- The loop over the input. The inner loop over the digits of a number is the second argument, the
-- number read so far.
unfoldable pub calc_from : List ℕ → Option ℕ → Stacks → Step
calc_from [] number s = push_number number s
calc_from (c ∷ cs) number s = elim (is_digit c) [
  | true ↦ calc_from cs (some (with_digit c number)) s
  | false ↦ and_then (and_then (push_number number s) (calc_char c)) (calc_from cs none)
]

-- the digits that the loop of `itoa2` writes, most significant first, before `rest`; of -2 ^ 31 the
-- remainders are negative
unfoldable pub itoa_digits : (room n : ℕ) (smallest : Bool) → List ℕ → List ℕ
itoa_digits zero n smallest rest = rest
itoa_digits (suc k) n smallest rest =
    let more =
      itoa_digits k (n / 10) smallest ((if smallest then 48 - n % 10 else n % 10 + 48) ∷ rest) in
    if n == 0 then rest else more

unfoldable pub itoa2 : ℕ → List ℕ
itoa2 num =
    if num == 0
    then 48 ∷ []
    else (let digits = itoa_digits 10 (magnitude num) (num == 2 ^ 31) [] in
        if is_negative num then 45 ∷ digits else digits)

abbrev pub answer_of : Step → Answer
answer_of (ends m) = m
answer_of (goes s) = elim s.values [
  | [] ↦ invalid
  | v ∷ rest ↦ elim rest [ [] ↦ shown (itoa2 v) | w ∷ more ↦ invalid ]
]

abbrev pub no_stacks : Stacks
no_stacks = record { values = []; ops = [] }

unfoldable pub cmd_calc_handler : List ℕ → Answer
cmd_calc_handler [] = usage
cmd_calc_handler (c ∷ cs) =
    answer_of
      (and_then (calc_from (c ∷ cs) none no_stacks) (λ s. reduce (λ op. true) s.values s.ops))
