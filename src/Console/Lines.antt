-- ===== src/Console/Lines.antt =====
-- The lines of i386/whitex/keyboard.h stay inside their buffer.
use whitex_kernel.Prelude.{
  if_both, ℕ, zero, suc, ◌+◌, ◌≤◌, ◌<◌, ◌≡◌, ◌≢◌, ◌⊎◌, refl, Bool, true, false, Option, none, some,
  List, [], ◌∷◌, ltb, leb, ◌==◌, ◌&&◌, ◌||◌, not, length, arith, Bool-cases, Option-cases, inl, inr,
  eq_test, ne_test, ==_iff, ap, ◌∙◌,
}
use mathlib.Core.Path.{subst}
use mathlib.Core.Option.{some-injective, none-ne-some}
use whitex_kernel.Console.Keyboard.{
  Keyboard, Console, key_char, erase_key, enter_key, type_char, keyboard_handler, clear_line,
  wait_line, copy_line, scan,
}

-- The line typed so far is in the buffer, with room for its NUL.
pub record IsKeyboard (k : Keyboard) : Type 0 where
  pub short : k.buffer_idx ≤ 254
  pub typed : (j : ℕ) → j < k.buffer_idx → k.input_buffer j ≢ 0
  pub blank : (j : ℕ) → k.buffer_idx ≤ j → j < 256 → k.input_buffer j ≡ 0

pub erase_key-IsKeyboard : (c : Console) → IsKeyboard c.0 → IsKeyboard (erase_key c).0
unfolding erase_key
erase_key-IsKeyboard (k, t) v = elim (Bool-cases (ltb 0 k.buffer_idx)) [
  | inl some_key ↦
      rw (some_key, erase_key)
        (record {
          short = omega (arith, v.short);
          typed = λ j lt. ground (arith, v.typed j);
          blank = λ j le lt. ground (arith, v.blank j);
        })
  | inr none_left ↦ rw (none_left, erase_key) v
]

pub enter_key-IsKeyboard : (c : Console) → IsKeyboard c.0 → IsKeyboard (enter_key c).0
unfolding enter_key
enter_key-IsKeyboard (k, t) v = record {
  short = v.short;
  typed = λ j lt. ground (arith, v.typed j);
  blank = λ j le lt. ground (arith, v.blank j);
}

type_char-IsKeyboard : (x : ℕ) (c : Console) → IsKeyboard c.0 → IsKeyboard (type_char x c).0
unfolding type_char
type_char-IsKeyboard x (k, t) v = elim (Bool-cases (not (x == 0) && ltb k.buffer_idx 254)) [
  | inl fits ↦
      rw (fits, type_char)
        (record {
          short = ground (arith, fits);
          typed = λ j lt. ground (arith, fits, v.typed j);
          blank = λ j le lt. ground (arith, v.blank j);
        })
  | inr refused ↦ rw (refused, type_char) v
]

pub same_line :
    (k k' : Keyboard)
    → k'.buffer_idx ≡ k.buffer_idx
    → k'.input_buffer ≡ k.input_buffer
    → IsKeyboard k
    → IsKeyboard k'
same_line k k' index cells v = record {
  short = rw index v.short;
  typed = rw (index, cells) v.typed;
  blank = rw (index, cells) v.blank;
}

-- Whatever key comes, the line stays inside its buffer, and what is behind it stays blank.
pub keyboard_handler-IsKeyboard :
    (scancode : ℕ) (c : Console) → IsKeyboard c.0 → IsKeyboard (keyboard_handler scancode c).0
unfolding keyboard_handler
keyboard_handler-IsKeyboard scancode (k, t) v =
    let x = key_char k.shift_pressed k.caps_lock scancode in
    if_both (λ (c : Console). IsKeyboard c.0) (scancode == 0xE0) _ _ (same_line k _ refl refl v)
      (if_both (λ (c : Console). IsKeyboard c.0) (leb 128 scancode) _ _ (same_line k _ refl refl v)
        (if_both (λ (c : Console). IsKeyboard c.0) (scancode == 0x2A || scancode == 0x36) _ _
          (same_line k _ refl refl v)
          (if_both (λ (c : Console). IsKeyboard c.0) (scancode == 0x3A) _ _
            (same_line k _ refl refl v)
            (if_both (λ (c : Console). IsKeyboard c.0) k.is_extended _ _ (same_line k _ refl refl v)
              (if_both (λ (c : Console). IsKeyboard c.0) (scancode == 0x0E) _ _
                (erase_key-IsKeyboard (k, t) v)
                (if_both (λ (c : Console). IsKeyboard c.0) (scancode == 0x1C) _ _
                  (enter_key-IsKeyboard (k, t) v) (type_char-IsKeyboard x (k, t) v)))))))

pub waited :
    (ready : Bool) (c d : Console) (rest : Option Console)
    → elim ready [ true ↦ some c | false ↦ rest ] ≡ some d
    → (c ≡ d) ⊎ (rest ≡ some d)
waited true c d rest r = inl (some-injective _ _ r)
waited false c d rest r = inr r

wait_line-IsKeyboard :
    (codes : List ℕ) (c d : Console) → IsKeyboard c.0 → wait_line codes c ≡ some d → IsKeyboard d.0
unfolding wait_line
wait_line-IsKeyboard [] (k, t) d v r = elim (waited k.input_complete (k, t) d none r) [
  | inl same ↦ subst (λ c. IsKeyboard c.0) same v
  | inr never ↦ absurd (none-ne-some _ never)
]
wait_line-IsKeyboard (x ∷ codes) (k, t) d v r =
    let next = keyboard_handler x (k, t) in
    elim (waited k.input_complete (k, t) d (wait_line codes next) r) [
      | inl same ↦ subst (λ c. IsKeyboard c.0) same v
      | inr later ↦ wait_line-IsKeyboard codes next d (keyboard_handler-IsKeyboard x (k, t) v) later
    ]

pub length-copy_line :
    (n i stop : ℕ) (b : ℕ → ℕ)
    → i ≤ stop
    → stop < i + n
    → ((j : ℕ) → j < stop → b j ≢ 0)
    → b stop ≡ 0
    → length (copy_line n i b) + i ≡ stop
unfolding copy_line
length-copy_line zero i stop b le lt typed ends = absurd (omega arith)
length-copy_line (suc n) i stop b le lt typed ends = elim (Bool-cases (i == stop)) [
  | inl here ↦
      let same : i ≡ stop = (==_iff i stop).0 here in
      let nul : (b i == 0) ≡ true = eq_test (ap b same ∙ ends) in
      rw (nul, copy_line) (omega (arith, same))
  | inr before ↦
      let inside : i < stop = ground (arith, before) in
      rw (ne_test (typed i inside), copy_line)
        (omega (
          arith,
          length-copy_line n (i + 1) stop b (omega (arith, inside)) (omega arith) typed ends,
        ))
]

pub clear_line-IsKeyboard : (k : Keyboard) → IsKeyboard (clear_line k)
unfolding clear_line
clear_line-IsKeyboard k = record {
  short = omega arith;
  typed = λ j lt. absurd (omega arith);
  blank = λ j le lt. ground arith;
}

-- A line that `scan` returns has the length that was typed, at most 254, so that it fits the 256
-- bytes of its readers with a NUL.
pub scan_fits :
    (codes line : List ℕ) (c d : Console)
    → scan codes c ≡ some (line, d)
    → (length line ≡ d.0.buffer_idx) × (length line ≤ 254) × IsKeyboard d.0
unfolding scan
scan_fits codes line (k, t) d r = elim (Option-cases (wait_line codes (clear_line k, t))) [
  | inl waits ↦ absurd (none-ne-some _ (rw (waits, scan) at r))
  | inr (e, came) ↦
      let v = wait_line-IsKeyboard codes (clear_line k, t) e (clear_line-IsKeyboard k) came in
      let got = some-injective _ _ (rw (came, scan) at r) in
      let long =
        length-copy_line 256 0 e.0.buffer_idx e.0.input_buffer (omega arith)
          (omega (arith, v.short)) v.typed
          (v.blank e.0.buffer_idx (omega arith) (omega (arith, v.short))) in
      subst (λ g. (length g.0 ≡ g.1.0.buffer_idx) × (length g.0 ≤ 254) × IsKeyboard g.1.0) got
        (omega (arith, long), omega (arith, long, v.short), v)
]
