-- ===== src/Login/Password.antt =====
-- The line of a password in i386/whitex/login.h stays inside the buffer of the keyboard.
use whitex_kernel.Prelude.{
  if_both, ℕ, ◌≤◌, ◌≡◌, refl, none, some, List, [], ◌∷◌, ltb, leb, ◌==◌, ◌&&◌, not, if◌then◌else◌,
  length, arith, Bool-cases, Option-cases, inl, inr,
}
use mathlib.Core.Path.{subst}
use mathlib.Core.Option.{some-injective, none-ne-some}
use whitex_kernel.Console.Keyboard.{Console, key_char, erase_key, enter_key, clear_line}
use whitex_kernel.Console.Lines.{
  IsKeyboard, same_line, waited, erase_key-IsKeyboard, enter_key-IsKeyboard, clear_line-IsKeyboard,
  length-copy_line,
}
use whitex_kernel.Login.{type_star, modifiers, password_key, wait_password, scan_password}

type_star-IsKeyboard : (x : ℕ) (c : Console) → IsKeyboard c.0 → IsKeyboard (type_star x c).0
unfolding type_star
type_star-IsKeyboard x (k, t) v = elim (Bool-cases (not (x == 0) && ltb k.buffer_idx 254)) [
  | inl fits ↦
      rw (fits, type_star)
        (record {
          short = ground (arith, fits);
          typed = λ j lt. ground (arith, fits, v.typed j);
          blank = λ j le lt. ground (arith, v.blank j);
        })
  | inr refused ↦ rw (refused, type_star) v
]

modifiers-IsKeyboard : (x : ℕ) (c : Console) → IsKeyboard c.0 → IsKeyboard (modifiers x c).0
unfolding modifiers
modifiers-IsKeyboard x (k, t) v = same_line k _ refl refl v

password_key-IsKeyboard : (x : ℕ) (c : Console) → IsKeyboard c.0 → IsKeyboard (password_key x c).0
unfolding password_key
password_key-IsKeyboard x (k, t) v =
    let star = type_star (key_char k.shift_pressed k.caps_lock x) (k, t) in
    let plain =
      if not (leb 128 x) && (not (x == 0x2A) && (not (x == 0x36) && not (x == 0x3A)))
      then star
      else (k, t) in
    let erased = if x == 0x0E then erase_key (k, t) else plain in
    modifiers-IsKeyboard x (if x == 0x1C then enter_key (k, t) else erased) (
      if_both (λ (c : Console). IsKeyboard c.0) (x == 0x1C) (enter_key (k, t)) erased
        (enter_key-IsKeyboard (k, t) v)
        (if_both (λ (c : Console). IsKeyboard c.0) (x == 0x0E) (erase_key (k, t)) plain
          (erase_key-IsKeyboard (k, t) v)
          (if_both (λ (c : Console). IsKeyboard c.0) _ star (k, t)
            (type_star-IsKeyboard (key_char k.shift_pressed k.caps_lock x) (k, t) v) v)))

wait_password-IsKeyboard :
    (codes : List ℕ) (c d : Console)
    → IsKeyboard c.0
    → wait_password codes c ≡ some d
    → IsKeyboard d.0
unfolding wait_password
wait_password-IsKeyboard [] (k, t) d v r = elim (waited k.input_complete (k, t) d none r) [
  | inl same ↦ subst (λ c. IsKeyboard c.0) same v
  | inr never ↦ absurd (none-ne-some _ never)
]
wait_password-IsKeyboard (x ∷ codes) (k, t) d v r =
    let next = password_key x (k, t) in
    elim (waited k.input_complete (k, t) d (wait_password codes next) r) [
      | inl same ↦ subst (λ c. IsKeyboard c.0) same v
      | inr later ↦ wait_password-IsKeyboard codes next d (password_key-IsKeyboard x (k, t) v) later
    ]

-- A password that is read has the length that was typed, at most 254.
pub scan_password_fits :
    (codes line : List ℕ) (c d : Console)
    → scan_password codes c ≡ some (line, d)
    → (length line ≡ d.0.buffer_idx) × (length line ≤ 254) × IsKeyboard d.0
unfolding scan_password
scan_password_fits codes line (k, t) d r =
    elim (Option-cases (wait_password codes (clear_line k, t))) [
      | inl waits ↦ absurd (none-ne-some _ (rw (waits, scan_password) at r))
      | inr (e, came) ↦
          let v =
            wait_password-IsKeyboard codes (clear_line k, t) e (clear_line-IsKeyboard k) came in
          let got = some-injective _ _ (rw (came, scan_password) at r) in
          let long =
            length-copy_line 256 0 e.0.buffer_idx e.0.input_buffer (omega arith)
              (omega (arith, v.short)) v.typed
              (v.blank e.0.buffer_idx (omega arith) (omega (arith, v.short))) in
          subst (λ g. (length g.0 ≡ g.1.0.buffer_idx) × (length g.0 ≤ 254) × IsKeyboard g.1.0) got
            (omega (arith, long), omega (arith, long, v.short), v)
    ]
