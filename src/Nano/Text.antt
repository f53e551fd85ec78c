-- ===== src/Nano/Text.antt =====
-- The document of i386/whitex/nano.h as a text: typing appends to it until it is full.
use whitex_kernel.Prelude.{
  ℕ, zero, suc, ◌+◌, ◌-◌, ◌*◌, ◌/◌, ◌%◌, ◌≤◌, ◌<◌, ◌≡◌, ◌≢◌, refl, true, List, [], ◌∷◌, ◌++◌, ◌==◌,
  if◌then◌else◌, update, arith, Bool-cases, inl, inr, eq_test, ne_test, ==_iff, sym, ap, ◌∙◌,
}
use whitex_kernel.Prelude.Words.{add32}
use whitex_kernel.Nano.{
  NanoTextLine, NanoContext, nano_max_total_lines, move_up, put_in_line, open_line, put_at_cursor,
}

-- The cursor is at the end of the last line, and the lines behind it are empty.
pub record IsNano (n : NanoContext) : Type 0 where
  pub line_count : n.active_line_count ≡ n.global_cursor_y + 1
  pub few : n.global_cursor_y < nano_max_total_lines
  pub at_end : (n.lines n.global_cursor_y).occupied_length ≡ n.global_cursor_x
  pub short : n.global_cursor_x ≤ 254
  pub behind : (j : ℕ) → n.global_cursor_y < j → (n.lines j).occupied_length ≡ 0

-- the number of characters: every line before the last has 254 of them
abbrev pub text_length : NanoContext → ℕ
text_length n = n.global_cursor_y * 254 + n.global_cursor_x

abbrev pub char_at : NanoContext → ℕ → ℕ
char_at n p = (n.lines (p / 254)).character_data (p % 254)

-- the first values of a function
abbrev pub first : (ℕ → ℕ) → ℕ → List ℕ
first f zero = []
first f (suc k) = first f k ++ (f k ∷ [])

-- the document
abbrev pub text : NanoContext → List ℕ
text n = first (char_at n) (text_length n)

-- what fits the editor
abbrev pub text_capacity : ℕ
text_capacity = 1024 * 254

first-ext : (f g : ℕ → ℕ) (k : ℕ) → ((p : ℕ) → p < k → f p ≡ g p) → first f k ≡ first g k
first-ext f g zero same = refl
first-ext f g (suc k) same =
    ap (λ l. l ++ (f k ∷ [])) (first-ext f g k (λ p lt. same p (omega (arith, lt))))
    ∙ ap (λ x. first g k ++ (x ∷ [])) (same k (omega arith))

put_in_line_lem :
    (x c : ℕ) (l : NanoTextLine)
    → l.occupied_length ≡ x
    → put_in_line x c l ≡ record {
      character_data = update (update l.character_data x c) (add32 x 1) 0;
      occupied_length = add32 x 1;
    }
unfolding put_in_line move_up
put_in_line_lem x c l e = let none : x - x ≡ 0 = omega arith in rw (e, none) refl

-- the line with a character put at its end
abbrev extended : (x c : ℕ) → NanoTextLine → NanoTextLine
extended x c l = record {
  character_data = update (update l.character_data x c) (add32 x 1) 0;
  occupied_length = add32 x 1;
}

put_cell :
    (lines : ℕ → NanoTextLine) (y x c p : ℕ)
    → x < 254
    → p ≤ y * 254 + x
    → (if p / 254 == y then extended x c (lines y) else lines (p / 254)).character_data (p % 254)
      ≡ (if p == y * 254 + x then c else (lines (p / 254)).character_data (p % 254))
put_cell lines y x c p room le = elim (Bool-cases (p / 254 == y)) [
  | inl here ↦
      let at : p / 254 ≡ y = (==_iff (p / 254) y).0 here in
      let digits : p ≡ y * 254 + p % 254 = omega (arith, at) in
      let inside : p % 254 ≢ add32 x 1 = omega (arith, digits, room, le) in
      elim (Bool-cases (p % 254 == x)) [
        | inl end ↦
            let whole : p ≡ y * 254 + x = omega (arith, digits, (==_iff (p % 254) x).0 end) in
            rw (here, ne_test inside, end, eq_test whole) refl
        | inr before ↦
            let col : p % 254 ≢ x = ground (arith, before) in
            let off : p ≢ y * 254 + x = omega (arith, digits, col) in
            rw (here, ne_test inside, before, ne_test off)
              (ap (λ j. (lines j).character_data (p % 254)) (sym at))
      ]
  | inr apart ↦
      let row : p / 254 ≢ y = ground (arith, apart) in
      let off : p ≢ y * 254 + x = omega (arith, row, room) in rw (apart, ne_test off) refl
]

-- what a character put at the end of a line that is not full makes of a position
put_char_at :
    (c : ℕ) (n : NanoContext) (p : ℕ)
    → IsNano n
    → n.global_cursor_x < 254
    → p ≤ text_length n
    → char_at (put_at_cursor c n) p ≡ (if p == text_length n then c else char_at n p)
unfolding put_at_cursor
put_char_at c n p good room le =
    rw (put_in_line_lem n.global_cursor_x c (n.lines n.global_cursor_y) good.at_end)
      (put_cell n.lines n.global_cursor_y n.global_cursor_x c p room le)

-- a character appended to the document
pub record Appends (c : ℕ) (n n' : NanoContext) : Type 0 where
  pub good : IsNano n'
  pub text_is : text n' ≡ text n ++ (c ∷ [])
  pub length_is : text_length n' ≡ text_length n + 1

put-IsNano :
    (c : ℕ) (n : NanoContext) → IsNano n → n.global_cursor_x < 254 → IsNano (put_at_cursor c n)
unfolding put_at_cursor
put-IsNano c n good room =
    let own : (n.global_cursor_y == n.global_cursor_y) ≡ true = eq_test refl in
    rw (put_in_line_lem n.global_cursor_x c (n.lines n.global_cursor_y) good.at_end) (record {
      line_count = good.line_count;
      few = good.few;
      at_end = rw own refl;
      short = omega (arith, room);
      behind = λ j gt.
          let apart : j ≢ n.global_cursor_y = omega (arith, gt) in
          rw (ne_test apart) (good.behind j gt);
    })

put_length :
    (c : ℕ) (n : NanoContext)
    → n.global_cursor_x < 254
    → text_length (put_at_cursor c n) ≡ suc (text_length n)
unfolding put_at_cursor
put_length c n room = omega (arith, room)

pub put-Appends :
    (c : ℕ) (n : NanoContext) → IsNano n → n.global_cursor_x < 254 → Appends c n (put_at_cursor c n)
put-Appends c n good room =
    let n' = put_at_cursor c n in
    let len = text_length n in
    let last : char_at n' len ≡ c =
      put_char_at c n len good room (omega arith)
      ∙ (let own : (len == len) ≡ true = eq_test refl in rw own refl) in
    let kept : (p : ℕ) → p < len → char_at n' p ≡ char_at n p = λ p lt.
      put_char_at c n p good room (omega (arith, lt))
      ∙ (let off : p ≢ len = omega (arith, lt) in rw (ne_test off) refl) in
    record {
      good = put-IsNano c n good room;
      text_is =
          ap (first (char_at n')) (put_length c n room)
          ∙ ap (λ l. l ++ (char_at n' len ∷ [])) (first-ext (char_at n') (char_at n) len kept)
          ∙ ap (λ x. text n ++ (x ∷ [])) last;
      length_is = put_length c n room ∙ (omega arith);
    }

pub open-IsNano :
    (n : NanoContext)
    → IsNano n
    → n.global_cursor_y + 1 < nano_max_total_lines
    → IsNano (open_line n)
unfolding open_line
open-IsNano n good room =
    let next : add32 n.global_cursor_y 1 ≡ n.global_cursor_y + 1 = omega (arith, room) in
    record {
      line_count = omega (arith, good.line_count, room);
      few = omega (arith, room);
      at_end = rw next (good.behind (n.global_cursor_y + 1) (omega arith));
      short = omega arith;
      behind = λ j gt. good.behind j (omega (arith, gt, next));
    }

pub open_length :
    (n : NanoContext)
    → n.global_cursor_x ≡ 254
    → n.global_cursor_y + 1 < nano_max_total_lines
    → text_length (open_line n) ≡ text_length n
unfolding open_line
open_length n full room = omega (arith, full, room)

pub open_text :
    (n : NanoContext)
    → n.global_cursor_x ≡ 254
    → n.global_cursor_y + 1 < nano_max_total_lines
    → text (open_line n) ≡ text n
unfolding open_line
open_text n full room = ap (first (char_at n)) (open_length n full room)
