-- ===== src/Login/Opened.antt =====
-- Who is let in by i386/whitex/login.h.
use whitex_kernel.Prelude.{
  ℕ, zero, suc, ◌+◌, ◌≡◌, refl, Bool, true, false, some, List, [], ◌∷◌, ◌==◌, ◌||◌, arith,
  Bool-cases, Option-cases, inl, inr, ap, sym, ◌∙◌, ==_iff, eq_test,
}
use mathlib.Core.Path.{subst}
use mathlib.Core.Bool.{true≢false}
use mathlib.Core.Option.{some-injective, none-ne-some}
use whitex_kernel.Prelude.Int.{sub_ℕ}
use whitex_kernel.Console.Keyboard.{Console, scan, copy_line, wait_line, clear_line}
use whitex_kernel.Kernel.Memory.{strcmp}
use whitex_kernel.Kernel.Shell.{codes}
use whitex_kernel.Fs.{is_zero}
use whitex_kernel.Login.{
  scan_password, wait_password, is_user, Login, granted, denied, overrun, waiting, Keys, too_long,
  judge, login_from, login,
}

-- a text without a NUL
data Plain : List ℕ → Type 0 where
  ends : Plain []
  next : {c : ℕ} {s : List ℕ} → (c == 0) ≡ false → Plain s → Plain (c ∷ s)

copy_line-Plain : (n i : ℕ) (b : ℕ → ℕ) → Plain (copy_line n i b)
unfolding copy_line
copy_line-Plain zero i b = ends
copy_line-Plain (suc n) i b = elim (Bool-cases (b i == 0)) [
  | inl nul ↦ rw (nul, copy_line) ends
  | inr more ↦ rw (more, copy_line) (next more (copy_line-Plain n (i + 1) b))
]

difference : (x y : ℕ) → is_zero (sub_ℕ x y) ≡ true → x ≡ y
difference x y e = ground (arith, e)

same_text : (s t : List ℕ) → Plain s → Plain t → is_zero (strcmp s t) ≡ true → s ≡ t
unfolding strcmp
same_text [] [] p q e = refl
same_text [] (y ∷ t) p (next some_byte q) e =
    absurd (true≢false (sym (eq_test (sym (difference 0 y e))) ∙ some_byte))
same_text (x ∷ s) [] (next some_byte p) q e =
    absurd (true≢false (sym (eq_test (difference x 0 e)) ∙ some_byte))
same_text (x ∷ s) (y ∷ t) (next a p) (next b q) e = elim (Bool-cases (x == y)) [
  | inl same ↦
      ap (λ c. c ∷ s) ((==_iff x y).0 same)
      ∙ ap (λ l. y ∷ l) (same_text s t p q (rw (same, strcmp) at e))
  | inr apart ↦
      absurd (true≢false (sym (eq_test (difference x y (rw (apart, strcmp) at e))) ∙ apart))
]

scan-Plain : (keys line : List ℕ) (c d : Console) → scan keys c ≡ some (line, d) → Plain line
unfolding scan
scan-Plain keys line (k, t) d r = elim (Option-cases (wait_line keys (clear_line k, t))) [
  | inl waits ↦ absurd (none-ne-some _ (rw (waits, scan) at r))
  | inr (e, came) ↦
      subst (λ g. Plain g.0) (some-injective _ _ (rw (came, scan) at r))
        (copy_line-Plain 256 0 e.0.input_buffer)
]

scan_password-Plain :
    (keys line : List ℕ) (c d : Console) → scan_password keys c ≡ some (line, d) → Plain line
unfolding scan_password
scan_password-Plain keys line (k, t) d r =
    elim (Option-cases (wait_password keys (clear_line k, t))) [
      | inl waits ↦ absurd (none-ne-some _ (rw (waits, scan_password) at r))
      | inr (e, came) ↦
          subst (λ g. Plain g.0) (some-injective _ _ (rw (came, scan_password) at r))
            (copy_line-Plain 256 0 e.0.input_buffer)
    ]

user_texts :
    (username password : List ℕ)
    → Plain username
    → Plain password
    → is_user username password ≡ true
    → (username ≡ codes "nousr") × (password ≡ codes "root")
unfolding is_user
user_texts username password p q e = (
  same_text username (codes "nousr") p
      (next refl (next refl (next refl (next refl (next refl ends))))) (ground (arith, e)),
  same_text password (codes "root") q (next refl (next refl (next refl (next refl ends))))
      (ground (arith, e)),
)

-- Within `n` attempts the two texts were typed, each behind what was typed before.
pub data Opened : (n : ℕ) → List Keys → Console → Type 0 where
  opens :
      {n : ℕ} {names passes : List ℕ} {typed : List Keys} {c c1 c2 : Console}
      → scan names c ≡ some (codes "nousr", c1)
      → scan_password passes c1 ≡ some (codes "root", c2)
      → Opened (suc n) ((names, passes) ∷ typed) c
  refused :
      {n : ℕ} {names passes username password : List ℕ} {typed : List Keys} {c c1 c2 : Console}
      → scan names c ≡ some (username, c1)
      → scan_password passes c1 ≡ some (password, c2)
      → is_user username password ≡ false
      → Opened n typed c2
      → Opened (suc n) ((names, passes) ∷ typed) c

abbrev lets_in : Login → Bool
lets_in (granted c) = true
lets_in (denied c) = false
lets_in overrun = false
lets_in waiting = false

judge-Opened :
    (n : ℕ) (names passes username password : List ℕ) (typed : List Keys) (c c1 c2 : Console)
    → scan names c ≡ some (username, c1)
    → scan_password passes c1 ≡ some (password, c2)
    → (lets_in (login_from n typed c2) ≡ true → Opened n typed c2)
    → lets_in (judge username password c2 (login_from n typed c2)) ≡ true
    → Opened (suc n) ((names, passes) ∷ typed) c
unfolding judge
judge-Opened n names passes username password typed c c1 c2 r1 r2 later e =
    elim (Bool-cases (too_long username || too_long password)) [
      | inl long ↦ absurd (true≢false (sym (rw (long, judge) at e)))
      | inr short ↦ elim (Bool-cases (is_user username password)) [
        | inl user ↦
            let (name, pass) =
              user_texts username password (scan-Plain names username c c1 r1)
                (scan_password-Plain passes password c1 c2 r2) user in
            opens (r1 ∙ ap (λ l. some (l, c1)) name) (r2 ∙ ap (λ l. some (l, c2)) pass)
        | inr other ↦ refused r1 r2 other (later (rw (short, judge, other) at e))
      ]
    ]

login_from-Opened :
    (n : ℕ) (typed : List Keys) (c : Console)
    → lets_in (login_from n typed c) ≡ true
    → Opened n typed c
unfolding login_from
login_from-Opened zero typed c e = absurd (true≢false (sym e))
login_from-Opened (suc n) [] c e = absurd (true≢false (sym e))
login_from-Opened (suc n) ((names, passes) ∷ typed) c e = elim (Option-cases (scan names c)) [
  | inl unfinished ↦ absurd (true≢false (sym (rw (unfinished, login_from) at e)))
  | inr ((username, c1), r1) ↦ elim (Option-cases (scan_password passes c1)) [
    | inl unfinished ↦ absurd (true≢false (sym (rw (r1, login_from, unfinished) at e)))
    | inr ((password, c2), r2) ↦
        judge-Opened n names passes username password typed c c1 c2 r1 r2
          (login_from-Opened n typed c2) (rw (r1, login_from, r2) at e)
  ]
]

-- Access is granted only when the name and the password of the code were typed together in one of the first
-- three attempts.
pub login-Opened :
    (typed : List Keys) (c d : Console) → login typed c ≡ granted d → Opened 3 typed c
unfolding login
login-Opened typed c d e = login_from-Opened 3 typed c (ap lets_in e)
