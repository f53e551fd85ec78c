-- ===== src/Kernel/Strings.antt =====
-- The string routines of i386/whitex/Kernel.c. A string is the list of its bytes up to the NUL,
-- so no byte of it is 0; the NUL that a routine writes is the end of its result.
use whitex_kernel.Prelude.{
  ℕ, zero, suc, ◌+◌, ◌-◌, ◌*◌, ◌%◌, ◌≤◌, ◌<◌, ◌≡◌, ◌≢◌, ◌↔◌, refl, Bool, true, false, List, [], ◌∷◌,
  ltb, ◌==◌, ◌&&◌, ◌||◌, if◌then◌else◌, length, take, arith, Bool-cases, inl, inr, ap,
}
use mathlib.Core.Bool.{false≢true}
use mathlib.Core.Path.{sym, ap₂}
use Prim.Native.Nat.{bit_or, bit_xor}
use whitex_kernel.Prelude.Words.{u32}
use whitex_kernel.Prelude.Bitwise.{bit_or-zero, zero-bit_or, bit_xor-zero, bit_xor_self}

-- a `char` is signed: a byte from 128 on counts as its value less 256, modulo 2 ^ 32
abbrev pub char_value : ℕ → ℕ
char_value c = if ltb c 128 then c else u32 - 256 + c

unfoldable pub checksum_from : (hash : ℕ) → List ℕ → (len : ℕ) → ℕ
checksum_from hash [] len = hash
checksum_from hash (c ∷ str) zero = hash
checksum_from hash (c ∷ str) (suc len) =
    checksum_from ((hash * 32 % u32 + hash + char_value c) % u32) str len

unfoldable pub sys_calculate_checksum : List ℕ → ℕ → ℕ
unfolding checksum_from
sys_calculate_checksum str len = checksum_from 5381 str len

-- `result |= input[i] ^ expected[i]` over two strings of one length
unfoldable pub differences : (result : ℕ) → List ℕ → List ℕ → ℕ
differences result [] ys = result
differences result (x ∷ xs) [] = result
differences result (x ∷ xs) (y ∷ ys) = differences (bit_or result (bit_xor x y)) xs ys

-- The first `max_len` bytes count.
unfoldable pub sys_constant_time_compare : List ℕ → List ℕ → ℕ → Bool
sys_constant_time_compare input expected max_len =
    let a = take max_len input in
    let b = take max_len expected in (length a == length b) && (differences 0 a b == 0)

-- `max_len` 0 writes nothing; the result is then what `dest` held.
unfoldable pub sys_safe_strncpy : (dest src : List ℕ) → ℕ → List ℕ
sys_safe_strncpy dest src zero = dest
sys_safe_strncpy dest src (suc n) = take n src

-- newline, carriage return, `;`, `&` and `|`
unfoldable pub is_separator : ℕ → Bool
is_separator c = (c == 10) || (c == 13) || (c == 59) || (c == 38) || (c == 124)

unfoldable pub sys_sanitize_string : List ℕ → ℕ → List ℕ
unfolding is_separator
sys_sanitize_string [] max_len = []
sys_sanitize_string (c ∷ str) zero = c ∷ str
sys_sanitize_string (c ∷ str) (suc n) =
    let rest = c ∷ sys_sanitize_string str n in if is_separator c then [] else rest

-- No separator is left among the first `max_len` bytes.
pub NoSeparator : List ℕ → ℕ → Type 0
unfolding is_separator
NoSeparator [] n = Unit
NoSeparator (c ∷ str) zero = Unit
NoSeparator (c ∷ str) (suc n) = (is_separator c ≡ false) × NoSeparator str n

-- A string is cut at its first separator: what is left has none, and is a beginning of the
-- string, which is unchanged where it had none.
pub sys_sanitize_string_lem :
    (str : List ℕ) (n : ℕ)
    → NoSeparator (sys_sanitize_string str n) n
      × (take (length (sys_sanitize_string str n)) str ≡ sys_sanitize_string str n)
      × (NoSeparator str n → sys_sanitize_string str n ≡ str)
unfolding sys_sanitize_string NoSeparator
sys_sanitize_string_lem [] n = (tt, refl, λ h. refl)
sys_sanitize_string_lem (c ∷ str) zero = (tt, take-all (c ∷ str), λ h. refl)
  where
    take-all : (xs : List ℕ) → take (length xs) xs ≡ xs
    take-all [] = refl
    take-all (x ∷ xs) = ap (λ l. x ∷ l) (take-all xs)
sys_sanitize_string_lem (c ∷ str) (suc n) = elim (Bool-cases (is_separator c)) [
  | inl cut ↦ rw cut (tt, refl, λ h. absurd (false≢true (sym h.0)))
  | inr kept ↦
      let (clean, front, same) = sys_sanitize_string_lem str n in
      rw kept ((kept, clean), ap (λ l. c ∷ l) front, λ h. ap (λ l. c ∷ l) (same h.1))
]

-- The copy is the source cut to `max_len - 1` bytes, so that its NUL fits.
pub sys_safe_strncpy_fits :
    (dest src : List ℕ) (max_len : ℕ)
    → max_len ≢ 0
    → (length (sys_safe_strncpy dest src max_len) < max_len)
      × (length src < max_len → sys_safe_strncpy dest src max_len ≡ src)
unfolding sys_safe_strncpy
sys_safe_strncpy_fits dest src zero ne = absurd (ne refl)
sys_safe_strncpy_fits dest src (suc n) ne = (short n src, λ h. whole n src (omega arith))
  where
    short : (n : ℕ) (src : List ℕ) → length (take n src) < suc n
    short zero src = omega arith
    short (suc n) [] = omega arith
    short (suc n) (x ∷ src) = omega (arith, short n src)

    whole : (n : ℕ) (src : List ℕ) → length src ≤ n → take n src ≡ src
    whole zero [] h = refl
    whole zero (x ∷ src) h = absurd (omega arith)
    whole (suc n) [] h = refl
    whole (suc n) (x ∷ src) h = ap (λ l. x ∷ l) (whole n src (omega arith))

differences-zero :
    (r : ℕ) (xs ys : List ℕ) → length xs ≡ length ys → differences r xs ys ≡ 0 → (r ≡ 0) × (xs ≡ ys)
unfolding differences
differences-zero r [] [] l e = (e, refl)
differences-zero r [] (y ∷ ys) l e = absurd (omega arith)
differences-zero r (x ∷ xs) [] l e = absurd (omega arith)
differences-zero r (x ∷ xs) (y ∷ ys) l e =
    let (head, tail) = differences-zero (bit_or r (bit_xor x y)) xs ys (omega arith) e in
    let (before, here) = bit_or-zero r (bit_xor x y) head in
    (before, ap₂ ◌∷◌ (bit_xor-zero x y here) tail)

differences_self : (xs : List ℕ) → differences 0 xs xs ≡ 0
unfolding differences
differences_self [] = refl
differences_self (x ∷ xs) = rw (bit_xor_self, zero-bit_or) (differences_self xs)

-- The comparison without branches succeeds exactly when the strings agree on their first
-- `max_len` bytes.
pub sys_constant_time_compare_iff :
    (input expected : List ℕ) (n : ℕ)
    → (sys_constant_time_compare input expected n ≡ true) ↔ (take n input ≡ take n expected)
unfolding sys_constant_time_compare
sys_constant_time_compare_iff input expected n = (
  λ h.
      (differences-zero 0 (take n input) (take n expected) (ground (arith, h))
        (ground (arith, h))).1,
  λ e. rw e (ground (arith, differences_self (take n expected))),
)
