-- ===== src/Notepad/Buffer.antt =====
-- The lines that the notepad of i386/whitex/notepad.h keeps.
use whitex_kernel.Prelude.{
  if_both, ℕ, zero, suc, ◌+◌, ◌-◌, ◌≤◌, ◌<◌, ◌≡◌, refl, true, false, some, min, get_elem?, List, [],
  ◌∷◌, ◌==◌, ltb, leb, if◌then◌else◌, update, take, length, arith, Bool-cases, inl, inr, eq_test,
  ap, ◌∙◌,
}
use mathlib.Core.Option.{some-injective, none-ne-some}
use whitex_kernel.Kernel.Shell.{codes}
use whitex_kernel.Fs.{Fs, mkdir, cd}
use whitex_kernel.Fs.Tree.{IsTree, mkdir-IsTree, cd-IsTree}
use whitex_kernel.Fs.Ways.{take_all}
use whitex_kernel.Notepad.{
  Notepad, is_line, keep_line, is_text, obey_line, Session, left, typing, overrun, max_lines,
  line_len, blank_notepad, write_lines, notepad,
}

-- the lines that are text, up to `/q`
abbrev pub texts : List (List ℕ × List ℕ) → List (List ℕ)
texts [] = []
texts ((input, name) ∷ typed) =
    let rest = texts typed in
    if is_line input (codes "/q") then [] else if is_text input then input ∷ rest else rest

-- `lines` were written behind those of `n`, as far as there is room
pub record Wrote (n : Notepad) (lines : List (List ℕ)) (n' : Notepad) (f : Fs) : Type 0 where
  pub count : n'.line_count ≡ min (n.line_count + length lines) max_lines
  pub older : (j : ℕ) → j < n.line_count → n'.text_storage j ≡ n.text_storage j
  pub newer :
      (k : ℕ) (line : List ℕ)
      → get_elem? lines k ≡ some line
      → n.line_count + k < max_lines
      → n'.text_storage (n.line_count + k) ≡ line
  pub tree : IsTree f

-- a session that ended so, unless a line or a name was too long
pub data Writes (n : Notepad) (lines : List (List ℕ)) : Session → Type 0 where
  quit : {n' : Notepad} {f : Fs} → Wrote n lines n' f → Writes n lines (left n' f)
  so_far : {n' : Notepad} {f : Fs} → Wrote n lines n' f → Writes n lines (typing n' f)
  over_long : Writes n lines overrun

Wrote-nothing : (n : Notepad) (f : Fs) → n.line_count ≤ max_lines → IsTree f → Wrote n [] n f
Wrote-nothing n f le tree = record {
  count = omega (arith, le);
  older = λ j lt. refl;
  newer = λ k line at lt. absurd (none-ne-some _ at);
  tree = tree;
}

later_line :
    (n n' : Notepad) (input : List ℕ) (lines : List (List ℕ))
    → n'.text_storage n.line_count ≡ input
    → ((k : ℕ) (line : List ℕ)
        → get_elem? lines k ≡ some line
        → n.line_count + 1 + k < max_lines
        → n'.text_storage (n.line_count + 1 + k) ≡ line)
    → (k : ℕ) (line : List ℕ) → get_elem? (input ∷ lines) k ≡ some line
    → n.line_count + k < max_lines
    → n'.text_storage (n.line_count + k) ≡ line
later_line n n' input lines own rest zero line at lt =
    ap n'.text_storage (omega arith) ∙ own ∙ some-injective input line at
later_line n n' input lines own rest (suc k) line at lt =
    ap n'.text_storage (omega arith) ∙ rest k line at (omega (arith, lt))

-- a line more, when there is room for it or none
Wrote-more :
    (n n' : Notepad) (f : Fs) (input : List ℕ) (lines : List (List ℕ))
    → length input < line_len
    → n.line_count ≤ max_lines
    → Wrote (keep_line input n) lines n' f
    → Wrote n (input ∷ lines) n' f
unfolding keep_line
Wrote-more n n' f input lines short le w = elim (Bool-cases (ltb n.line_count max_lines)) [
  | inr none_left ↦
      let w' : Wrote n lines n' f = rw (none_left, keep_line) at w in
      record {
        count = ground (arith, none_left, w'.count, le);
        older = w'.older;
        newer = λ k line at lt. absurd (ground (arith, none_left, lt));
        tree = w'.tree;
      }
  | inl room ↦
      let n1 : Notepad = record n {
        text_storage = update n.text_storage n.line_count (take (line_len - 1) input);
        line_count = n.line_count + 1;
      } in
      let w' : Wrote n1 lines n' f = rw (room, keep_line) at w in
      let own : update n.text_storage n.line_count (take (line_len - 1) input) n.line_count
          ≡ input =
        let same : (n.line_count == n.line_count) ≡ true = eq_test refl in
        rw same (take_all 127 input (omega (arith, short))) in
      record {
        count = omega (arith, w'.count);
        older = λ j lt.
            let other : (j == n.line_count) ≡ false = ground (arith, lt) in
            w'.older j (omega (arith, lt)) ∙ rw other refl;
        newer = later_line n n' input lines (w'.older n.line_count (omega arith) ∙ own) w'.newer;
        tree = w'.tree;
      }
]

Writes-more :
    (n : Notepad) (input : List ℕ) (lines : List (List ℕ)) (s : Session)
    → length input < line_len
    → n.line_count ≤ max_lines
    → Writes (keep_line input n) lines s
    → Writes n (input ∷ lines) s
Writes-more n input lines (left n' f) short le (quit w) =
    quit (Wrote-more n n' f input lines short le w)
Writes-more n input lines (typing n' f) short le (so_far w) =
    so_far (Wrote-more n n' f input lines short le w)
Writes-more n input lines overrun short le over_long = over_long

obey_line-IsTree : (input name : List ℕ) (f : Fs) → IsTree f → IsTree (obey_line input name f)
unfolding obey_line
obey_line-IsTree input name f good =
    if_both IsTree (is_line input (codes "/mkdir")) (mkdir name f)
      (if is_line input (codes "/cd") then cd name f else f) (mkdir-IsTree name f good)
      (if_both IsTree (is_line input (codes "/cd")) (cd name f) f (cd-IsTree name f good) good)

keep_line_fits :
    (input : List ℕ) (n : Notepad)
    → n.line_count ≤ max_lines
    → (keep_line input n).line_count ≤ max_lines
unfolding keep_line
keep_line_fits input n le = ground (arith, le)

write_lines-Writes :
    (typed : List (List ℕ × List ℕ)) (n : Notepad) (f : Fs)
    → n.line_count ≤ max_lines
    → IsTree f
    → Writes n (texts typed) (write_lines typed n f)
unfolding write_lines
write_lines-Writes [] n f le tree = so_far (Wrote-nothing n f le tree)
write_lines-Writes ((input, name) ∷ typed) n f le tree =
    let tree' = obey_line-IsTree input name f tree in
    elim (Bool-cases (leb line_len (length input))) [
      | inl long ↦ rw (long, write_lines) over_long
      | inr short ↦ elim (Bool-cases (is_line input (codes "/q"))) [
        | inl leaves ↦ rw (short, leaves, write_lines) (quit (Wrote-nothing n f le tree))
        | inr stays ↦
            let f' = obey_line input name f in
            let n1 = if is_text input then keep_line input n else n in
            rw (short, stays, write_lines)
              (if_both (Writes n (if is_text input then input ∷ texts typed else texts typed))
                f'.overrun overrun (write_lines typed n1 f') over_long
                (elim (Bool-cases (is_text input)) [
                  | inl text ↦ rw text (
                      Writes-more n input (texts typed) (write_lines typed (keep_line input n) f')
                        (ground (arith, short)) le
                        (write_lines-Writes typed (keep_line input n) f' (keep_line_fits input n le)
                          tree'))
                  | inr command ↦ rw command (write_lines-Writes typed n f' le tree')
                ]))
      ]
    ]

-- Whatever is typed, up to a line or a name that is too long for its array, the notepad keeps the lines that
-- are no commands in their order, up to its hundred, and the tree of directories stays a tree.
pub notepad-Writes :
    (typed : List (List ℕ × List ℕ)) (n : Notepad) (f : Fs)
    → IsTree f
    → Writes (blank_notepad n) (texts typed) (notepad typed n f)
unfolding notepad blank_notepad
notepad-Writes typed n f tree = write_lines-Writes typed (blank_notepad n) f (omega arith) tree
