-- ===== src/Console.antt =====
-- The text screen of i386/whitex/vga.h: 25 rows of 80 cells, a cursor and a color.
pub mod Screen
pub mod Keyboard
pub mod Lines
pub mod Tests
use Prim.Native.Nat.{bit_or}
use whitex_kernel.Prelude.{
  ℕ, zero, suc, ◌+◌, ◌-◌, ◌*◌, ◌%◌, Bool, true, false, List, [], ◌∷◌, ltb, leb, ◌==◌, if◌then◌else◌,
  update,
}

abbrev pub vga_width : ℕ
vga_width = 80

abbrev pub vga_height : ℕ
vga_height = 25

-- the number of cells
abbrev pub vga_cells : ℕ
vga_cells = 2000

abbrev pub black : ℕ
black = 0

abbrev pub blue : ℕ
blue = 1

abbrev pub white : ℕ
white = 15

-- the globals of the file, and the memory from VGA_BUFFER on
pub record Terminal : Type 0 where
  pub terminal_row : ℕ
  pub terminal_column : ℕ
  pub terminal_color : ℕ
  pub vga_buffer : ℕ → ℕ

unfoldable pub vga_entry_color : ℕ → ℕ → ℕ
vga_entry_color fg bg = bit_or fg (bg * 16) % 256

unfoldable pub vga_entry : ℕ → ℕ → ℕ
vga_entry uc color = bit_or uc (color * 256) % 65536

-- The copy of the rows: the cells from `i` on, in the order of the two loops.
unfoldable pub copy_cells : (rounds i : ℕ) → (ℕ → ℕ) → ℕ → ℕ
copy_cells zero i b = b
copy_cells (suc k) i b = copy_cells k (i + 1) (update b i (b (i + vga_width)))

-- `v` in the cells from `i` on
unfoldable pub fill_cells : (v rounds i : ℕ) → (ℕ → ℕ) → ℕ → ℕ
fill_cells v zero i b = b
fill_cells v (suc k) i b = fill_cells v k (i + 1) (update b i v)

unfoldable pub scroll : Terminal → Terminal
scroll t = record t {
  vga_buffer =
      fill_cells (vga_entry 32 t.terminal_color) vga_width ((vga_height - 1) * vga_width)
        (copy_cells ((vga_height - 1) * vga_width) 0 t.vga_buffer);
  terminal_row = vga_height - 1;
}

-- the move of the cursor behind a character
unfoldable pub advance : Terminal → Terminal
advance t =
    if t.terminal_column + 1 == vga_width
    then record t { terminal_column = 0; terminal_row = t.terminal_row + 1 }
    else record t { terminal_column = t.terminal_column + 1 }

-- a character or a newline, before the screen scrolls
unfoldable pub put : ℕ → Terminal → Terminal
put c t =
    if c == 10
    then record t { terminal_column = 0; terminal_row = t.terminal_row + 1 }
    else advance (record t {
      vga_buffer =
          update t.vga_buffer (t.terminal_row * vga_width + t.terminal_column)
            (vga_entry c (vga_entry_color white blue));
    })

unfoldable pub putchar : ℕ → Terminal → Terminal
putchar c t = if leb vga_height (put c t).terminal_row then scroll (put c t) else put c t

unfoldable pub print : List ℕ → Terminal → Terminal
print [] t = t
print (c ∷ text) t = print text (putchar c t)

unfoldable pub init : Terminal → Terminal
init t = record {
  terminal_row = 0;
  terminal_column = 0;
  terminal_color = vga_entry_color white black;
  vga_buffer = fill_cells (vga_entry 32 (vga_entry_color white black)) vga_cells 0 t.vga_buffer;
}

-- the move of the cursor to the cell before it
unfoldable pub step_back : Terminal → Terminal
step_back t =
    if ltb 0 t.terminal_column
    then record t { terminal_column = t.terminal_column - 1 }
    else if ltb 0 t.terminal_row
    then record t { terminal_row = t.terminal_row - 1; terminal_column = vga_width - 1 }
    else t

unfoldable pub terminal_backspace : Terminal → Terminal
terminal_backspace t =
    let u = step_back t in
    record u {
      vga_buffer =
          update u.vga_buffer (u.terminal_row * vga_width + u.terminal_column)
            (vga_entry 32 u.terminal_color);
    }
