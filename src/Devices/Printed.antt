-- ===== src/Devices/Printed.antt =====
-- What the numbers of i386/whitex/hexdump.h, i386/whitex/ping.h and i386/whitex/malloc.h look like.
use whitex_kernel.Prelude.{
  ℕ, zero, suc, ◌+◌, ◌-◌, ◌*◌, ◌/◌, ◌%◌, ◌^◌, ◌<◌, ◌≡◌, refl, List, [], ◌∷◌, leb, ◌==◌,
  if◌then◌else◌, arith, Bool-cases, inl, inr, ap, ◌∙◌,
}
use native.Mathlib.Nat.{pow-suc}
use whitex_kernel.Prelude.Words.{u32}
use whitex_kernel.Scheduler.Number.{digit_count, write_digits, scheduler_integer_to_string}
use whitex_kernel.Devices.{hex_digit, hex_from, to_hex, number_from, ram_print_number}

-- the value of a hexadecimal digit
abbrev pub digit_value : ℕ → ℕ
digit_value c = if leb c 57 then c - 48 else c - 55

-- the number that hexadecimal digits spell behind `n`
unfoldable pub read_hex : (n : ℕ) → List ℕ → ℕ
read_hex n [] = n
read_hex n (c ∷ s) = read_hex (n * 16 + digit_value c) s

digit_value-hex_digit : (d : ℕ) → d < 16 → digit_value (hex_digit d) ≡ d
unfolding hex_digit
digit_value-hex_digit d lt = ground (arith, lt)

read_hex-hex_from :
    (k n : ℕ) (behind : List ℕ) → n < 16 ^ k → read_hex 0 (hex_from k n behind) ≡ read_hex n behind
unfolding hex_from read_hex
read_hex-hex_from zero n behind lt = ap (λ m. read_hex m behind) (omega (arith, lt))
read_hex-hex_from (suc k) n behind lt =
    read_hex-hex_from k (n / 16) (hex_digit (n % 16) ∷ behind) (omega (arith, lt, pow-suc 16 k))
    ∙ ap (λ d. read_hex (n / 16 * 16 + d) behind) (digit_value-hex_digit (n % 16) (omega arith))
    ∙ ap (λ m. read_hex m behind) (omega arith)

-- A number of 32 bits is read back from its eight digits behind `0x`.
pub read_hex-to_hex :
    (n : ℕ) → n < u32 → (s : List ℕ) × (to_hex n ≡ 48 ∷ 120 ∷ s) × (read_hex 0 s ≡ n)
unfolding to_hex read_hex
read_hex-to_hex n lt = (hex_from 8 n [], refl, read_hex-hex_from 8 n [] lt)

number_from-write_digits :
    (k n : ℕ) (buffer : List ℕ) → number_from k n buffer ≡ write_digits (digit_count k n) n buffer
unfolding number_from write_digits digit_count
number_from-write_digits zero n buffer = refl
number_from-write_digits (suc k) n buffer = elim (Bool-cases (n == 0)) [
  | inl nothing ↦ rw (nothing, number_from, digit_count) refl
  | inr something ↦
      rw (something, number_from, digit_count)
        (number_from-write_digits k (n / 10) ((n % 10 + 48) ∷ buffer)
          ∙ ap (λ j. write_digits j n buffer) suc_digits)
]
  where
    suc_digits : suc (digit_count k (n / 10)) ≡ digit_count k (n / 10) + 1
    suc_digits = omega arith

-- `printnum` and `ram_print_number` print a number as `ps` does.
pub ram_print_number-scheduler_integer_to_string :
    (n : ℕ) → ram_print_number n ≡ scheduler_integer_to_string n
unfolding ram_print_number scheduler_integer_to_string
ram_print_number-scheduler_integer_to_string n =
    ap (λ s. if n == 0 then 48 ∷ [] else s) (number_from-write_digits 10 n [])
