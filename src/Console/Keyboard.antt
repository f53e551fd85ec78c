-- ===== src/Console/Keyboard.antt =====
-- The keyboard of i386/whitex/keyboard.h: from scancodes to a line, echoed on the screen of
-- Console.
use whitex_kernel.Prelude.{
  ℕ, zero, suc, ◌+◌, ◌-◌, ◌%◌, Bool, true, false, Option, none, some, List, [], ◌∷◌, ltb, leb, ◌==◌,
  ◌&&◌, ◌||◌, not, if◌then◌else◌, update, get_elem?,
}
use whitex_kernel.Console.{Terminal, putchar, terminal_backspace}

-- the globals of the file
pub record Keyboard : Type 0 where
  pub shift_pressed : Bool
  pub caps_lock : Bool
  pub is_extended : Bool
  pub input_buffer : ℕ → ℕ
  pub buffer_idx : ℕ
  pub input_complete : Bool

abbrev pub Console : Type 0
Console = Keyboard × Terminal

-- the scancodes behind the last that is listed give 0
unfoldable pub kbd_us : List ℕ
kbd_us =
    0 ∷ 27 ∷ 49 ∷ 50 ∷ 51 ∷ 52 ∷ 53 ∷ 54 ∷ 55 ∷ 56 ∷ 57 ∷ 48 ∷ 45 ∷ 61 ∷ 0 ∷ 9 ∷ 113 ∷ 119 ∷ 101
    ∷ 114 ∷ 116 ∷ 121 ∷ 117 ∷ 105 ∷ 111 ∷ 112 ∷ 91 ∷ 93 ∷ 10 ∷ 0 ∷ 97 ∷ 115 ∷ 100 ∷ 102 ∷ 103 ∷ 104
    ∷ 106 ∷ 107 ∷ 108 ∷ 59 ∷ 39 ∷ 96 ∷ 0 ∷ 92 ∷ 122 ∷ 120 ∷ 99 ∷ 118 ∷ 98 ∷ 110 ∷ 109 ∷ 44 ∷ 46 ∷ 47
    ∷ 0 ∷ 42 ∷ 0 ∷ 32 ∷ 0 ∷ 0 ∷ 0 ∷ 0 ∷ 0 ∷ 0 ∷ 0 ∷ 0 ∷ 0 ∷ 0 ∷ 0 ∷ 0 ∷ 0 ∷ 0 ∷ 0 ∷ 0 ∷ 55 ∷ 56 ∷ 57
    ∷ 45 ∷ 52 ∷ 53 ∷ 54 ∷ 43 ∷ 49 ∷ 50 ∷ 51 ∷ 48 ∷ 46 ∷ []

unfoldable pub kbd_us_shift : List ℕ
kbd_us_shift =
    0 ∷ 27 ∷ 33 ∷ 64 ∷ 35 ∷ 36 ∷ 37 ∷ 94 ∷ 38 ∷ 42 ∷ 40 ∷ 41 ∷ 95 ∷ 43 ∷ 0 ∷ 9 ∷ 81 ∷ 87 ∷ 69 ∷ 82
    ∷ 84 ∷ 89 ∷ 85 ∷ 73 ∷ 79 ∷ 80 ∷ 123 ∷ 125 ∷ 10 ∷ 0 ∷ 65 ∷ 83 ∷ 68 ∷ 70 ∷ 71 ∷ 72 ∷ 74 ∷ 75 ∷ 76
    ∷ 58 ∷ 34 ∷ 126 ∷ 0 ∷ 124 ∷ 90 ∷ 88 ∷ 67 ∷ 86 ∷ 66 ∷ 78 ∷ 77 ∷ 60 ∷ 62 ∷ 63 ∷ 0 ∷ 42 ∷ 0 ∷ 32
    ∷ 0 ∷ 0 ∷ 0 ∷ 0 ∷ 0 ∷ 0 ∷ 0 ∷ 0 ∷ 0 ∷ 0 ∷ 0 ∷ 0 ∷ 0 ∷ 0 ∷ 0 ∷ 0 ∷ 55 ∷ 56 ∷ 57 ∷ 45 ∷ 52 ∷ 53
    ∷ 54 ∷ 43 ∷ 49 ∷ 50 ∷ 51 ∷ 48 ∷ 46 ∷ []

abbrev pub key_at : List ℕ → ℕ → ℕ
key_at table scancode = elim (get_elem? table scancode) [ some c ↦ c | none ↦ 0 ]

-- the character of a key, 0 for none
unfoldable pub key_char : (shift caps : Bool) → ℕ → ℕ
unfolding kbd_us kbd_us_shift
key_char shift caps scancode =
    let upper = key_at kbd_us_shift scancode in
    let use_upper = (shift && not caps) || (not shift && caps) in
    if use_upper && (leb 65 upper && leb upper 90)
    then upper
    else if shift
    then upper
    else key_at kbd_us scancode

-- the backspace key
unfoldable pub erase_key : Console → Console
erase_key (k, t) =
    if ltb 0 k.buffer_idx
    then (
      record k {
        buffer_idx = k.buffer_idx - 1;
        input_buffer = update k.input_buffer (k.buffer_idx - 1) 0;
      },
      terminal_backspace t,
    )
    else (k, t)

-- the enter key
unfoldable pub enter_key : Console → Console
enter_key (k, t) = (
  record k { input_buffer = update k.input_buffer k.buffer_idx 0; input_complete = true },
  putchar 10 t,
)

-- a key with the character `c`
unfoldable pub type_char : ℕ → Console → Console
type_char c (k, t) =
    if not (c == 0) && ltb k.buffer_idx 254
    then (
      record k {
        input_buffer = update k.input_buffer k.buffer_idx c;
        buffer_idx = k.buffer_idx + 1;
      },
      putchar c t,
    )
    else (k, t)

unfoldable pub keyboard_handler : ℕ → Console → Console
keyboard_handler scancode (k, t) =
    if scancode == 0xE0
    then (record k { is_extended = true }, t)
    else if leb 128 scancode
    then (
      record k {
        shift_pressed = not (scancode % 128 == 0x2A || scancode % 128 == 0x36) && k.shift_pressed;
        is_extended = false;
      },
      t,
    )
    else if scancode == 0x2A || scancode == 0x36
    then (record k { shift_pressed = true }, t)
    else if scancode == 0x3A
    then (record k { caps_lock = not k.caps_lock }, t)
    else if k.is_extended
    then (record k { is_extended = false }, t)
    else if scancode == 0x0E
    then erase_key (k, t)
    else if scancode == 0x1C
    then enter_key (k, t)
    else type_char (key_char k.shift_pressed k.caps_lock scancode) (k, t)

-- the start of `scan`
unfoldable pub clear_line : Keyboard → Keyboard
clear_line k = record k {
  buffer_idx = 0;
  input_complete = false;
  input_buffer = λ i. if ltb i 256 then 0 else k.input_buffer i;
}

-- The wait of `scan`, fed with the scancodes in the order of the keys; `none` means that they ended
-- before the enter key.
unfoldable pub wait_line : List ℕ → Console → Option Console
wait_line [] (k, t) = elim k.input_complete [ true ↦ some (k, t) | false ↦ none ]
wait_line (scancode ∷ later) (k, t) = elim k.input_complete [
  | true ↦ some (k, t)
  | false ↦ wait_line later (keyboard_handler scancode (k, t))
]

-- the copy at the end of `scan`, up to the first NUL
unfoldable pub copy_line : (rounds i : ℕ) → (ℕ → ℕ) → List ℕ
copy_line zero i b = []
copy_line (suc k) i b = let rest = b i ∷ copy_line k (i + 1) b in if b i == 0 then [] else rest

unfoldable pub scan : List ℕ → Console → Option (List ℕ × Console)
scan scancodes (k, t) = elim (wait_line scancodes (clear_line k, t)) [
  | none ↦ none
  | some c ↦ some (copy_line 256 0 c.0.input_buffer, c)
]
