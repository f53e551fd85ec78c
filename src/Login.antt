-- ===== src/Login.antt =====
-- The login of i386/whitex/login.h on the keyboard of Console/Keyboard and the screen of Console. The keys of
-- each line are given as a list; the texts that it prints are left out, but for the stars of the password.
pub mod Password
pub mod Opened
pub mod Tests
use whitex_kernel.Prelude.{
  ℕ, zero, suc, ◌+◌, ◌%◌, ◌≤◌, ◌≡◌, Bool, true, false, Option, none, some, List, [], ◌∷◌, ltb, leb,
  ◌==◌, ◌&&◌, ◌||◌, not, if◌then◌else◌, update, length,
}
use whitex_kernel.Console.{putchar}
use whitex_kernel.Console.Keyboard.{
  Keyboard, Console, key_char, erase_key, enter_key, clear_line, copy_line, scan,
}
use whitex_kernel.Kernel.Memory.{strcmp}
use whitex_kernel.Kernel.Shell.{codes}
use whitex_kernel.Fs.{is_zero}

-- a character of the password, echoed as a star
unfoldable pub type_star : ℕ → Console → Console
type_star c (k, t) =
    if not (c == 0) && ltb k.buffer_idx 254
    then (
      record k {
        input_buffer = update k.input_buffer k.buffer_idx c;
        buffer_idx = k.buffer_idx + 1;
      },
      putchar 42 t,
    )
    else (k, t)

-- the three keys that are tests at the end of the round
unfoldable pub modifiers : ℕ → Console → Console
modifiers scancode (k, t) = (
  record k {
    shift_pressed =
        if leb 128 scancode && (scancode % 128 == 0x2A || scancode % 128 == 0x36)
        then false
        else if scancode == 0x2A || scancode == 0x36
        then true
        else k.shift_pressed;
    caps_lock = if scancode == 0x3A then not k.caps_lock else k.caps_lock;
  },
  t,
)

-- one scancode in the loop of `scan_password`
unfoldable pub password_key : ℕ → Console → Console
password_key scancode (k, t) = modifiers scancode (
    if scancode == 0x1C
    then enter_key (k, t)
    else if scancode == 0x0E
    then erase_key (k, t)
    else if not (leb 128 scancode)
        && (not (scancode == 0x2A) && (not (scancode == 0x36) && not (scancode == 0x3A)))
    then type_star (key_char k.shift_pressed k.caps_lock scancode) (k, t)
    else (k, t))

-- the loop; `none` means that the keys ended before the enter key
unfoldable pub wait_password : List ℕ → Console → Option Console
wait_password [] (k, t) = elim k.input_complete [ true ↦ some (k, t) | false ↦ none ]
wait_password (scancode ∷ later) (k, t) = elim k.input_complete [
  | true ↦ some (k, t)
  | false ↦ wait_password later (password_key scancode (k, t))
]

unfoldable pub scan_password : List ℕ → Console → Option (List ℕ × Console)
scan_password scancodes (k, t) = elim (wait_password scancodes (clear_line k, t)) [
  | none ↦ none
  | some c ↦ some (copy_line 256 0 c.0.input_buffer, c)
]

-- the test of the name and the password
unfoldable pub is_user : (username password : List ℕ) → Bool
is_user username password =
    is_zero (strcmp username (codes "nousr")) && is_zero (strcmp password (codes "root"))

-- How the login ends: with access, with a machine that is halted, with a line that runs over its 64 bytes on
-- the stack, or not yet.
pub data Login : Type 0 where
  granted : Console → Login
  denied : Console → Login
  overrun : Login
  waiting : Login

-- the keys typed for a name and for a password
abbrev pub Keys : Type 0
Keys = List ℕ × List ℕ

-- a line with its NUL does not fit the array
abbrev pub too_long : List ℕ → Bool
too_long line = leb 64 (length line)

-- the end of an attempt: access, or the rest of the attempts
unfoldable pub judge : (username password : List ℕ) → Console → (later : Login) → Login
judge username password c later =
    if too_long username || too_long password
    then overrun
    else if is_user username password
    then granted c
    else later

-- the loop with a number of attempts left
unfoldable pub login_from : (attempts : ℕ) → List Keys → Console → Login
login_from zero typed c = denied c
login_from (suc k) [] c = waiting
login_from (suc k) ((names, passes) ∷ typed) c = elim (scan names c) [
  | none ↦ waiting
  | some (username, c1) ↦ elim (scan_password passes c1) [
    | none ↦ waiting
    | some (password, c2) ↦ judge username password c2 (login_from k typed c2)
  ]
]

unfoldable pub login : List Keys → Console → Login
login typed c = login_from 3 typed c
