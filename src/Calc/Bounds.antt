-- ===== src/Calc/Bounds.antt =====
-- The stacks of i386/whitex/calc.h stay inside their arrays of 40.
use whitex_kernel.Prelude.{
  if_both, ℕ, ◌≤◌, ◌==◌, Bool, Option, none, some, List, [], ◌∷◌, leb, not, if◌then◌else◌, length,
  arith, Bool-cases, inl, inr,
}
use whitex_kernel.Prelude.Int.{ltb_ℤ}
use whitex_kernel.Calc.{
  Stacks, Step, Answer, goes, ends, and_then, Applied, value, failed, apply_op, apply_top, reduce,
  push_value, push_op, drop_op, calc_char, is_digit, with_digit, push_number, calc_from, stack_size,
  get_precedence,
}

-- Both stacks have at most 40 entries.
pub record IsBounded (s : Stacks) : Type 0 where
  pub values_in : length s.values ≤ stack_size
  pub ops_in : length s.ops ≤ stack_size

-- the calculator has answered, or its stacks are bounded
pub data Fits : Step → Type 0 where
  answered : {m : Answer} → Fits (ends m)
  going : {s : Stacks} → IsBounded s → Fits (goes s)

Fits-and_then :
    (o : Step) (f : Stacks → Step)
    → Fits o
    → ((s : Stacks) → IsBounded s → Fits (f s))
    → Fits (and_then o f)
Fits-and_then (goes s) f (going b) next = next s b
Fits-and_then (ends m) f fits next = answered

apply_top-Fits :
    (op : ℕ) (values ops : List ℕ)
    → length values ≤ stack_size
    → length ops ≤ stack_size
    → Fits (apply_top op values ops)
unfolding apply_top
apply_top-Fits op [] ops v o = answered
apply_top-Fits op (x ∷ []) ops v o = answered
apply_top-Fits op (x ∷ y ∷ rest) ops v o = result (apply_op y x op)
  where
    result :
        (a : Applied)
        → Fits (elim a [
          | value res ↦ goes (record { values = res ∷ rest; ops = ops })
          | failed m ↦ ends m
        ])
    result (value res) = going (record { values_in = omega (arith, v); ops_in = o })
    result (failed m) = answered

reduce-Fits :
    (test : ℕ → Bool) (values ops : List ℕ)
    → length values ≤ stack_size
    → length ops ≤ stack_size
    → Fits (reduce test values ops)
unfolding reduce
reduce-Fits test values [] v o = going (record { values_in = v; ops_in = omega arith })
reduce-Fits test values (op ∷ ops) v o = elim (Bool-cases (test op)) [
  | inl on ↦
      rw (on, reduce)
        (Fits-and_then (apply_top op values ops) (λ s. reduce test s.values ops)
          (apply_top-Fits op values ops v (omega (arith, o)))
          (λ s b. reduce-Fits test s.values ops b.values_in (omega (arith, o))))
  | inr off ↦ rw (off, reduce) (going (record { values_in = v; ops_in = o }))
]

push_value-Fits : (v : ℕ) (s : Stacks) → IsBounded s → Fits (push_value v s)
unfolding push_value
push_value-Fits v s b = elim (Bool-cases (leb stack_size (length s.values))) [
  | inl full ↦ rw full answered
  | inr room ↦ rw room (going (record { values_in = ground (arith, room); ops_in = b.ops_in }))
]

push_op-Fits : (op : ℕ) (s : Stacks) → IsBounded s → Fits (push_op op s)
unfolding push_op
push_op-Fits op s b = elim (Bool-cases (leb stack_size (length s.ops))) [
  | inl full ↦ rw full answered
  | inr room ↦ rw room (going (record { values_in = b.values_in; ops_in = ground (arith, room) }))
]

tail_short : (ops : List ℕ) → length (elim ops [ [] ↦ [] | op ∷ rest ↦ rest ]) ≤ length ops
tail_short [] = omega arith
tail_short (op ∷ rest) = omega arith

drop_op-IsBounded : (s : Stacks) → IsBounded s → IsBounded (drop_op s)
drop_op-IsBounded s b = record {
  values_in = b.values_in;
  ops_in = omega (arith, tail_short s.ops, b.ops_in);
}

calc_char-Fits : (c : ℕ) (s : Stacks) → IsBounded s → Fits (calc_char c s)
unfolding calc_char
calc_char-Fits c s b =
    let closes = reduce (λ op. not (op == 40)) s.values s.ops in
    let applies =
      reduce (λ op. not (ltb_ℤ (get_precedence op) (get_precedence c))) s.values s.ops in
    if_both Fits (c == 32) (goes s)
      (if c == 40
        then push_op c s
        else if c == 41
        then and_then closes (λ t. goes (drop_op t))
        else and_then applies (push_op c))
      (going b)
      (if_both Fits (c == 40) (push_op c s)
        (if c == 41 then and_then closes (λ t. goes (drop_op t)) else and_then applies (push_op c))
        (push_op-Fits c s b)
        (if_both Fits (c == 41) (and_then closes (λ t. goes (drop_op t)))
          (and_then applies (push_op c))
          (Fits-and_then closes (λ t. goes (drop_op t))
            (reduce-Fits _ s.values s.ops b.values_in b.ops_in)
            (λ t good. going (drop_op-IsBounded t good)))
          (Fits-and_then applies (push_op c) (reduce-Fits _ s.values s.ops b.values_in b.ops_in)
            (push_op-Fits c))))

push_number-Fits : (number : Option ℕ) (s : Stacks) → IsBounded s → Fits (push_number number s)
unfolding push_number
push_number-Fits none s b = going b
push_number-Fits (some v) s b = push_value-Fits v s b

-- Whatever the input is, the calculator answers with an error or keeps both stacks inside their 40
-- entries.
pub calc_from-Fits :
    (cs : List ℕ) (number : Option ℕ) (s : Stacks) → IsBounded s → Fits (calc_from cs number s)
unfolding calc_from
calc_from-Fits [] number s b = push_number-Fits number s b
calc_from-Fits (c ∷ cs) number s b = elim (Bool-cases (is_digit c)) [
  | inl digit ↦ rw (digit, calc_from) (calc_from-Fits cs (some (with_digit c number)) s b)
  | inr other ↦
      rw (other, calc_from)
        (Fits-and_then (and_then (push_number number s) (calc_char c)) (calc_from cs none)
          (Fits-and_then (push_number number s) (calc_char c) (push_number-Fits number s b)
            (calc_char-Fits c))
          (calc_from-Fits cs none))
]
