-- ===== src/Login/Tests.antt =====
-- The statements on i386/whitex/login.h at concrete keys.
use whitex_kernel.Prelude.{refl, false, List, [], ◌∷◌}
use whitex_kernel.Console.Keyboard.{
  Console, scan, wait_line, keyboard_handler, clear_line, copy_line, type_char, enter_key, key_char,
  kbd_us, kbd_us_shift,
}
use whitex_kernel.Kernel.Memory.{strcmp}
use whitex_kernel.Login.{
  type_star, modifiers, password_key, wait_password, scan_password, is_user, Login, granted, denied,
  overrun, waiting, Keys, judge, login_from, login,
}
use whitex_kernel.Login.Opened.{Opened, login-Opened}

abbrev idle : Console
idle = (
  record {
    shift_pressed = false;
    caps_lock = false;
    is_extended = false;
    input_buffer = λ i. 9;
    buffer_idx = 3;
    input_complete = false;
  },
  record { terminal_row = 3; terminal_column = 10; terminal_color = 15; vga_buffer = λ i. 32 },
)

-- the name and a wrong password, and both right
abbrev keys : List Keys
keys =
    (0x31 ∷ 0x18 ∷ 0x16 ∷ 0x1F ∷ 0x13 ∷ 0x1C ∷ [], 0x13 ∷ 0x1C ∷ [])
    ∷ (0x31 ∷ 0x18 ∷ 0x16 ∷ 0x1F ∷ 0x13 ∷ 0x1C ∷ [], 0x13 ∷ 0x18 ∷ 0x18 ∷ 0x14 ∷ 0x1C ∷ [])
    ∷ []

abbrev console_of : Login → Console
console_of (granted c) = c
console_of (denied c) = c
console_of overrun = idle
console_of waiting = idle

login-Opened_example : Opened 3 keys idle
unfolding login login_from scan wait_line keyboard_handler clear_line copy_line type_char enter_key
    key_char kbd_us kbd_us_shift type_star modifiers password_key wait_password scan_password
    is_user judge strcmp
login-Opened_example = login-Opened keys idle (console_of (login keys idle)) refl
