-- ===== src/Console/Tests.antt =====
-- The statements on i386/whitex/vga.h and i386/whitex/keyboard.h at concrete keys and screens.
use whitex_kernel.Prelude.{ℕ, ◌≤◌, ◌≡◌, refl, false, List, [], ◌∷◌, length, arith}
use whitex_kernel.Console.{Terminal, print}
use whitex_kernel.Console.Screen.{IsTerminal, SameBeyond, print-IsTerminal}
use whitex_kernel.Console.Keyboard.{
  Console, Keyboard, key_char, kbd_us, kbd_us_shift, keyboard_handler, erase_key, enter_key,
  type_char, clear_line, wait_line, copy_line, scan,
}
use whitex_kernel.Console.Lines.{IsKeyboard, scan_fits}

-- the cursor on the last cell
abbrev screen : Terminal
screen = record {
  terminal_row = 24;
  terminal_column = 79;
  terminal_color = 15;
  vga_buffer = λ i. 32;
}

abbrev screen-IsTerminal : IsTerminal screen
screen-IsTerminal = record { row_in = omega arith; column_in = omega arith }

print-IsTerminal_example :
    IsTerminal (print (65 ∷ 10 ∷ 66 ∷ []) screen)
    × SameBeyond screen (print (65 ∷ 10 ∷ 66 ∷ []) screen)
print-IsTerminal_example = print-IsTerminal (65 ∷ 10 ∷ 66 ∷ []) screen screen-IsTerminal

-- the cursor at the end of a row
abbrev row_end : Terminal
row_end = record screen { terminal_row = 7 }

abbrev keyboard : Keyboard
keyboard = record {
  shift_pressed = false;
  caps_lock = false;
  is_extended = false;
  input_buffer = λ i. 0;
  buffer_idx = 0;
  input_complete = false;
}

-- shift, the keys A and B, backspace, and enter
abbrev keys : List ℕ
keys = 0x2A ∷ 0x1E ∷ 0x30 ∷ 0x0E ∷ 0x1C ∷ []

abbrev line : List ℕ
line = 65 ∷ []

abbrev typed_on : Console → Console
typed_on c = keyboard_handler 0x1C (
    keyboard_handler 0x0E (keyboard_handler 0x30 (keyboard_handler 0x1E (keyboard_handler 0x2A c))))

abbrev finished : Console
finished = typed_on (clear_line keyboard, row_end)

scan_fits_example :
    (length line ≡ finished.0.buffer_idx) × (length line ≤ 254) × IsKeyboard finished.0
unfolding scan wait_line keyboard_handler clear_line copy_line erase_key enter_key type_char
    key_char kbd_us kbd_us_shift
scan_fits_example = scan_fits keys line (keyboard, row_end) finished refl
