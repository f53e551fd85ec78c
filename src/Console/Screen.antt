-- ===== src/Console/Screen.antt =====
-- The cursor and the cells of the text screen of i386/whitex/vga.h.
use whitex_kernel.Prelude.{
  ℕ, zero, suc, ◌+◌, ◌*◌, ◌≤◌, ◌<◌, ◌≡◌, ◌≢◌, refl, false, List, [], ◌∷◌, ltb, leb, ◌==◌, ◌&&◌,
  if◌then◌else◌, update, arith, Bool-cases, inl, inr, ◌∙◌, ap,
}
use whitex_kernel.Console.{
  Terminal, vga_width, vga_height, vga_cells, vga_entry, copy_cells, fill_cells, scroll, advance,
  put, putchar, print, step_back, terminal_backspace,
}

-- The cursor is on the screen.
pub record IsTerminal (t : Terminal) : Type 0 where
  pub row_in : t.terminal_row < vga_height
  pub column_in : t.terminal_column < vga_width

-- nothing behind the screen changed
abbrev pub SameBeyond : Terminal → Terminal → Type 0
SameBeyond t u = (j : ℕ) → vga_cells ≤ j → u.vga_buffer j ≡ t.vga_buffer j

copy_cells_lem :
    (k i : ℕ) (b : ℕ → ℕ) (j : ℕ)
    → copy_cells k i b j ≡ (if leb i j && ltb j (i + k) then b (j + vga_width) else b j)
unfolding copy_cells
copy_cells_lem zero i b j = ground arith
copy_cells_lem (suc k) i b j =
    copy_cells_lem k (i + 1) (update b i (b (i + vga_width))) j ∙ (ground arith)

fill_cells_lem :
    (v k i : ℕ) (b : ℕ → ℕ) (j : ℕ)
    → fill_cells v k i b j ≡ (if leb i j && ltb j (i + k) then v else b j)
unfolding fill_cells
fill_cells_lem v zero i b j = ground arith
fill_cells_lem v (suc k) i b j = fill_cells_lem v k (i + 1) (update b i v) j ∙ (ground arith)

-- Scrolling moves every row up by one, blanks the last one, and writes nothing behind the screen.
pub scroll_lem :
    (t : Terminal) (j : ℕ)
    → (scroll t).vga_buffer j ≡ (
        if ltb j 1920
        then t.vga_buffer (j + vga_width)
        else if ltb j vga_cells
        then vga_entry 32 t.terminal_color
        else t.vga_buffer j)
unfolding scroll
scroll_lem t j =
    fill_cells_lem (vga_entry 32 t.terminal_color) 80 1920 (copy_cells 1920 0 t.vga_buffer) j
    ∙ ap (λ x. if leb 1920 j && ltb j (1920 + 80) then vga_entry 32 t.terminal_color else x)
        (copy_cells_lem 1920 0 t.vga_buffer j)
    ∙ (ground arith)

scroll_cursor :
    (t : Terminal)
    → ((scroll t).terminal_row ≡ 24) × ((scroll t).terminal_column ≡ t.terminal_column)
unfolding scroll
scroll_cursor t = (refl, refl)

put_cursor :
    (c : ℕ) (t : Terminal)
    → IsTerminal t
    → ((put c t).terminal_row ≤ vga_height) × ((put c t).terminal_column < vga_width)
unfolding put advance
put_cursor c t v = ground (arith, v.row_in, v.column_in)

put_beyond : (c : ℕ) (t : Terminal) → IsTerminal t → SameBeyond t (put c t)
unfolding put advance
put_beyond c t v j far = ground (arith, v.row_in, v.column_in)

scroll_beyond : (t : Terminal) → SameBeyond t (scroll t)
scroll_beyond t j far = ground (arith, scroll_lem t j)

-- A character keeps the cursor on the screen and writes nothing behind it.
pub putchar-IsTerminal :
    (c : ℕ) (t : Terminal) → IsTerminal t → IsTerminal (putchar c t) × SameBeyond t (putchar c t)
unfolding putchar
putchar-IsTerminal c t v =
    let (row, column) = put_cursor c t v in
    elim (Bool-cases (leb vga_height (put c t).terminal_row)) [
      | inl full ↦
          let (last, same) = scroll_cursor (put c t) in
          rw (full, putchar)
            (
              record { row_in = omega (arith, last); column_in = omega (arith, same, column) },
              λ j far. scroll_beyond (put c t) j far ∙ put_beyond c t v j far,
            )
      | inr room ↦
          rw (room, putchar)
            (record { row_in = ground (arith, room); column_in = column }, put_beyond c t v)
    ]

-- Printing keeps the cursor on the screen and writes nothing behind the screen, whatever is
-- printed.
pub print-IsTerminal :
    (text : List ℕ) (t : Terminal)
    → IsTerminal t
    → IsTerminal (print text t) × SameBeyond t (print text t)
unfolding print
print-IsTerminal [] t v = (v, λ j far. refl)
print-IsTerminal (c ∷ text) t v =
    let (w, near) = putchar-IsTerminal c t v in
    let (last, far) = print-IsTerminal text (putchar c t) w in
    (last, λ j beyond. far j beyond ∙ near j beyond)

-- the number of the cell under the cursor
abbrev pub cell : Terminal → ℕ
cell t = t.terminal_row * vga_width + t.terminal_column

cell-put :
    (c : ℕ) (t : Terminal)
    → IsTerminal t
    → c ≢ 10
    → (cell (put c t) ≡ cell t + 1) × ((put c t).terminal_color ≡ t.terminal_color)
unfolding put advance
cell-put c t v letter = ground (arith, v.column_in)

put_others :
    (c : ℕ) (t : Terminal) → c ≢ 10 → (j : ℕ) → j ≢ cell t → (put c t).vga_buffer j ≡ t.vga_buffer j
unfolding put advance
put_others c t letter j apart = ground arith

cell-step_back :
    (t : Terminal)
    → t.terminal_column < vga_width
    → cell t ≢ 0
    → (cell (step_back t) + 1 ≡ cell t) × ((step_back t).terminal_column < vga_width)
unfolding step_back
cell-step_back t column inside = ground (arith, column)

step_back_rest :
    (t : Terminal)
    → ((step_back t).terminal_color ≡ t.terminal_color) × ((step_back t).vga_buffer ≡ t.vga_buffer)
unfolding step_back
step_back_rest t = ground arith

putchar_room : (c : ℕ) (t : Terminal) → (put c t).terminal_row < vga_height → putchar c t ≡ put c t
unfolding putchar
putchar_room c t below =
    let room : leb vga_height (put c t).terminal_row ≡ false = ground (arith, below) in
    rw (room, putchar)

backspace_cells :
    (t : Terminal) (j : ℕ)
    → (terminal_backspace t).vga_buffer j
      ≡ (if j == cell (step_back t) then vga_entry 32 t.terminal_color else t.vga_buffer j)
unfolding terminal_backspace
backspace_cells t j = let (color, cells) = step_back_rest t in rw (color, cells) refl

backspace_cursor :
    (t : Terminal)
    → ((terminal_backspace t).terminal_row ≡ (step_back t).terminal_row)
      × ((terminal_backspace t).terminal_column ≡ (step_back t).terminal_column)
unfolding terminal_backspace
backspace_cursor t = (refl, refl)

-- A backspace after a character takes the cursor back to where the character is and blanks it,
-- unless the character scrolled the screen; the other cells are as they were.
pub terminal_backspace-putchar :
    (c : ℕ) (t : Terminal)
    → IsTerminal t
    → c ≢ 10
    → cell t ≢ 1999
    → let u = terminal_backspace (putchar c t) in
      (u.terminal_row ≡ t.terminal_row)
      × (u.terminal_column ≡ t.terminal_column)
      × ((j : ℕ)
          → u.vga_buffer j
            ≡ (if j == cell t then vga_entry 32 t.terminal_color else t.vga_buffer j))
terminal_backspace-putchar c t v letter inside =
    let p = put c t in
    let (next, color) = cell-put c t v letter in
    let (row, column) = put_cursor c t v in
    let (back, column') = cell-step_back p column (omega (arith, next)) in
    let at : cell (step_back p) ≡ cell t = omega (arith, back, next) in
    rw (putchar_room c t (omega (arith, next, v.row_in, v.column_in))) (
      (backspace_cursor p).0 ∙ (omega (arith, at, column', v.column_in)),
      (backspace_cursor p).1 ∙ (omega (arith, at, column', v.column_in)),
      λ j. backspace_cells p j ∙ blanked c t letter j (cell (step_back p)) at color,
    )
  where
    blanked :
        (c : ℕ) (t : Terminal)
        → c ≢ 10
        → (j i : ℕ) → i ≡ cell t
        → (put c t).terminal_color ≡ t.terminal_color
        → (if j == i then vga_entry 32 (put c t).terminal_color else (put c t).vga_buffer j)
          ≡ (if j == cell t then vga_entry 32 t.terminal_color else t.vga_buffer j)
    blanked c t letter j i at color =
        rw (at, color)
          (elim (Bool-cases (j == cell t)) [
            | inl here ↦ rw here refl
            | inr apart ↦ rw apart (put_others c t letter j (ground (arith, apart)))
          ])
