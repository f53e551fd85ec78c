-- ===== src/Kernel/Print.antt =====
-- The printing of numbers and the fortunes of i386/whitex/Kernel.c.
use whitex_kernel.Prelude.{
  ℕ, zero, suc, ◌+◌, ◌/◌, ◌%◌, List, [], ◌∷◌, ◌++◌, ltb, leb, ◌==◌, if◌then◌else◌,
}
use whitex_kernel.Prelude.Int.{ℤ, pos, negsuc}

-- the loop of `sys_print_int`, which has room for ten digits, over the digits written so far
unfoldable pub print_digits : (room n : ℕ) → List ℕ → List ℕ
print_digits zero n digits = digits
print_digits (suc k) n digits =
    let more = print_digits k (n / 10) ((n % 10 + 48) ∷ digits) in if ltb 0 n then more else digits

-- What is printed. The byte `behind` between the digits and the NUL is never written by the code:
-- it is what the stack holds.
unfoldable pub sys_print_int : (behind : ℕ) → ℤ → List ℕ
unfolding print_digits
sys_print_int behind (pos n) =
    if n == 0 then 48 ∷ [] else (print_digits 10 n [] ++ (if behind == 0 then [] else behind ∷ []))
sys_print_int behind (negsuc n) = if behind == 0 then [] else behind ∷ []

-- FORTUNE_COUNT
abbrev pub fortune_count : ℕ
fortune_count = 9

-- the fortune that is printed, and the next value of the static index
unfoldable pub cmd_random_fortune : ℕ → ℕ × ℕ
cmd_random_fortune index = (index, if leb fortune_count (index + 1) then 0 else index + 1)
