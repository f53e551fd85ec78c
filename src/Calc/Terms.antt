-- ===== src/Calc/Terms.antt =====
-- The calculator of i386/whitex/calc.h computes what a written term means.
use whitex_kernel.Prelude.{
  ℕ, ◌+◌, ◌%◌, ◌^◌, ◌≢◌, ◌≤◌, ◌<◌, ◌≡◌, refl, ◌==◌, true, false, none, some, List, [], ◌∷◌, ◌++◌,
  leb, length, arith, ap, ◌∙◌,
}
use whitex_kernel.Calc.Meaning.{
  Operator, plus, minus, times, cross, over, modulo, to_the, and_bits, or_bits, sign, AllDigits,
  decimal, meaning, read_onto, read-decimal, apply_op-meaning,
}
use whitex_kernel.Calc.Printed.{Shows, itoa2-Shows}
use whitex_kernel.Calc.{
  Stacks, shown, goes, and_then, value, apply_op, apply_top, reduce, push_value, push_op, calc_char,
  is_digit, with_digit, push_number, calc_from, no_stacks, stack_size, get_precedence, answer_of,
  itoa2, cmd_calc_handler,
}

-- terms: a number by its digits, or an operation
pub data Term : Type 0 where
  number : (d : ℕ) (ds : List ℕ) → Term
  operation : Term → Operator → Term → Term

-- what a term means
pub data Means : Term → ℕ → Type 0 where
  reads :
      {d : ℕ} {ds : List ℕ}
      → is_digit d ≡ true
      → AllDigits ds
      → Means (number d ds) (decimal (d ∷ ds) % 2 ^ 32)
  computes :
      {l r : Term} {o : Operator} {a b v : ℕ}
      → Means l a
      → Means r b
      → meaning o a b ≡ some v
      → Means (operation l o r) v

-- a term written with parentheses around every operation, before `rest`
abbrev pub written : Term → List ℕ → List ℕ
written (number d ds) rest = d ∷ (ds ++ rest)
written (operation l o r) rest = 40 ∷ written l (sign o ∷ written r (41 ∷ rest))

-- bounds on the entries of the two stacks that a term needs
abbrev pub value_depth : Term → ℕ
value_depth (number d ds) = 1
value_depth (operation l o r) = value_depth l + (1 + value_depth r)

abbrev pub op_depth : Term → ℕ
op_depth (number d ds) = 0
op_depth (operation l o r) = 2 + (op_depth l + op_depth r)

-- the input ends or goes on with no digit
abbrev pub NoDigit : List ℕ → Type 0
NoDigit [] = Unit
NoDigit (c ∷ cs) = is_digit c ≡ false

digits_read :
    (ds rest : List ℕ) (v : ℕ) (s : Stacks)
    → AllDigits ds
    → calc_from (ds ++ rest) (some v) s ≡ calc_from rest (some (read_onto v ds)) s
unfolding calc_from
digits_read [] rest v s all = refl
digits_read (d ∷ ds) rest v s (here, all) =
    rw (here, calc_from) (digits_read ds rest (with_digit d (some v)) s all)

pushed : ℕ → Stacks → Stacks
pushed v s = record s { values = v ∷ s.values }

push_value_lem :
    (v : ℕ) (s : Stacks) → length s.values < stack_size → push_value v s ≡ goes (pushed v s)
unfolding push_value pushed
push_value_lem v s room =
    let free : leb stack_size (length s.values) ≡ false = ground (arith, room) in rw free refl

number_ends :
    (rest : List ℕ) (v : ℕ) (s : Stacks)
    → NoDigit rest
    → length s.values < stack_size
    → calc_from rest (some v) s ≡ calc_from rest none (pushed v s)
unfolding calc_from push_number
number_ends [] v s stop room = push_value_lem v s room
number_ends (c ∷ cs) v s stop room =
    rw (stop, calc_from)
      (ap (λ t. and_then (and_then t (calc_char c)) (calc_from cs none)) (push_value_lem v s room))

push_op_lem :
    (op : ℕ) (s : Stacks)
    → length s.ops < stack_size
    → push_op op s ≡ goes (record s { ops = op ∷ s.ops })
unfolding push_op
push_op_lem op s room =
    let free : leb stack_size (length s.ops) ≡ false = ground (arith, room) in rw free refl

opened :
    (rest : List ℕ) (s : Stacks)
    → length s.ops < stack_size
    → calc_from (40 ∷ rest) none s ≡ calc_from rest none (record s { ops = 40 ∷ s.ops })
unfolding calc_from push_number calc_char
opened rest s room = ap (λ t. and_then t (calc_from rest none)) (push_op_lem 40 s room)

sign-is_digit : (o : Operator) → is_digit (sign o) ≡ false
sign-is_digit plus = refl
sign-is_digit minus = refl
sign-is_digit times = refl
sign-is_digit cross = refl
sign-is_digit over = refl
sign-is_digit modulo = refl
sign-is_digit to_the = refl
sign-is_digit and_bits = refl
sign-is_digit or_bits = refl

-- behind an open parenthesis an operator waits
sign_waits :
    (o : Operator) (values ops : List ℕ)
    → calc_char (sign o) (record { values = values; ops = 40 ∷ ops })
      ≡ push_op (sign o) (record { values = values; ops = 40 ∷ ops })
unfolding calc_char reduce get_precedence
sign_waits plus values ops = refl
sign_waits minus values ops = refl
sign_waits times values ops = refl
sign_waits cross values ops = refl
sign_waits over values ops = refl
sign_waits modulo values ops = refl
sign_waits to_the values ops = refl
sign_waits and_bits values ops = refl
sign_waits or_bits values ops = refl

signed :
    (o : Operator) (rest values ops : List ℕ)
    → length ops + 1 < stack_size
    → calc_from (sign o ∷ rest) none (record { values = values; ops = 40 ∷ ops })
      ≡ calc_from rest none (record { values = values; ops = sign o ∷ 40 ∷ ops })
unfolding calc_from push_number
signed o rest values ops room =
    rw (sign-is_digit o, calc_from)
      (ap (λ t. and_then t (calc_from rest none))
        (sign_waits o values ops
          ∙ push_op_lem (sign o) (record { values = values; ops = 40 ∷ ops })
              (omega (arith, room))))

sign-is_open : (o : Operator) → (sign o == 40) ≡ false
sign-is_open plus = refl
sign-is_open minus = refl
sign-is_open times = refl
sign-is_open cross = refl
sign-is_open over = refl
sign-is_open modulo = refl
sign-is_open to_the = refl
sign-is_open and_bits = refl
sign-is_open or_bits = refl

closed :
    (o : Operator) (a b v : ℕ) (rest values ops : List ℕ)
    → apply_op a b (sign o) ≡ value v
    → calc_from (41 ∷ rest) none (record { values = b ∷ a ∷ values; ops = sign o ∷ 40 ∷ ops })
      ≡ calc_from rest none (record { values = v ∷ values; ops = ops })
unfolding calc_from push_number calc_char reduce apply_top
closed o a b v rest values ops e = rw (sign-is_open o, e, reduce, apply_top) refl

-- A written term puts its value on the stack.
term_runs :
    {t : Term} {v : ℕ}
    → Means t v
    → (rest values ops : List ℕ) → NoDigit rest
    → length values + value_depth t ≤ stack_size
    → length ops + op_depth t ≤ stack_size
    → calc_from (written t rest) none (record { values = values; ops = ops })
      ≡ calc_from rest none (record { values = v ∷ values; ops = ops })
unfolding calc_from push_number pushed
term_runs (reads {d} {ds} here all) rest values ops stop v_room o_room =
    let s : Stacks = record { values = values; ops = ops } in
    rw (here, calc_from)
      (digits_read ds rest (with_digit d none) s all
        ∙ number_ends rest (read_onto (with_digit d none) ds) s stop (omega (arith, v_room))
        ∙ ap (λ v. calc_from rest none (pushed v s)) (read-decimal d ds here))
term_runs (computes {l} {r} {o} {a} {b} {v} left right e) rest values ops stop v_room o_room =
    let after = written r (41 ∷ rest) in
    opened (written l (sign o ∷ after)) (record { values = values; ops = ops })
      (omega (arith, o_room))
    ∙ term_runs left (sign o ∷ after) values (40 ∷ ops) (sign-is_digit o) (omega (arith, v_room))
        (omega (arith, o_room))
    ∙ signed o after (a ∷ values) ops (omega (arith, o_room))
    ∙ term_runs right (41 ∷ rest) (a ∷ values) (sign o ∷ 40 ∷ ops) refl (omega (arith, v_room))
        (omega (arith, o_room))
    ∙ closed o a b v rest values ops (apply_op-meaning o a b v e)

answered :
    (t : Term) (v : ℕ)
    → calc_from (written t []) none no_stacks
      ≡ calc_from [] none (record { values = v ∷ []; ops = [] })
    → cmd_calc_handler (written t []) ≡ shown (itoa2 v)
unfolding cmd_calc_handler calc_from push_number reduce
answered (number d ds) v runs =
    ap (λ t. answer_of (and_then t (λ s. reduce (λ op. true) s.values s.ops))) runs
answered (operation l o r) v runs =
    ap (λ t. answer_of (and_then t (λ s. reduce (λ op. true) s.values s.ops))) runs

-- A term written with parentheses around every operation is answered with its value in the decimal system,
-- when it is small enough for the stacks and the value is not -2 ^ 31.
pub cmd_calc_handler-Means :
    (t : Term) (v : ℕ)
    → Means t v
    → v < 2 ^ 32
    → v ≢ 2 ^ 31
    → value_depth t ≤ stack_size
    → op_depth t ≤ stack_size
    → (cmd_calc_handler (written t []) ≡ shown (itoa2 v)) × Shows v (itoa2 v)
cmd_calc_handler-Means t v m lt other v_room o_room = (
  answered t v (term_runs m [] [] [] tt (omega (arith, v_room)) (omega (arith, o_room))),
  itoa2-Shows v lt other,
)
