-- ===== src/Prelude/Words.antt =====
-- Machine words as native numbers. An unsigned result is taken modulo the width; a difference
-- has the modulus added first, since `-` on ℕ stops at 0. Single bits are read and written digit
-- by digit, which gives them laws at every position.
use whitex_kernel.Prelude.Tests.{◌==◌}
use Prim.Native.Nat.{ℕ, zero, suc, ◌+◌, ◌-◌, ◌*◌, ◌/◌, ◌%◌, ◌^◌, ◌<◌}
use mathlib.Core.Path.{◌≡◌}
use mathlib.Core.Bool.{Bool, true, ◌||◌, ◌&&◌, not}
use native.Mathlib.Omega.{arith}
use native.Mathlib.Nat.{pow-suc}

abbrev pub u32 : ℕ
u32 = 2 ^ 32

-- uint32_t and (32-bit) size_t arithmetic
abbrev pub add32 : ℕ → ℕ → ℕ
add32 a b = (a + b) % u32

abbrev pub sub32 : ℕ → ℕ → ℕ
sub32 a b = (a + u32 - b) % u32

abbrev pub mul32 : ℕ → ℕ → ℕ
mul32 a b = (a * b) % u32

-- x & (1 << k), as a truth value
unfoldable pub bit : ℕ → ℕ → Bool
bit x zero = x % 2 == 1
bit x (suc k) = bit (x / 2) k

-- x | (1 << k)
unfoldable pub set_bit : ℕ → ℕ → ℕ
set_bit x zero = x / 2 * 2 + 1
set_bit x (suc k) = set_bit (x / 2) k * 2 + x % 2

-- x & ~(1 << k)
unfoldable pub clear_bit : ℕ → ℕ → ℕ
clear_bit x zero = x / 2 * 2
clear_bit x (suc k) = clear_bit (x / 2) k * 2 + x % 2

set_bit_half : (x k : ℕ) → set_bit x (suc k) / 2 ≡ set_bit (x / 2) k
unfolding set_bit
set_bit_half x k = omega arith

clear_bit_half : (x k : ℕ) → clear_bit x (suc k) / 2 ≡ clear_bit (x / 2) k
unfolding clear_bit
clear_bit_half x k = omega arith

-- Setting a bit changes no other.
pub bit-set_bit : (x k j : ℕ) → bit (set_bit x k) j ≡ (j == k || bit x j)
unfolding bit set_bit
bit-set_bit x zero zero = ground arith
bit-set_bit x zero (suc j) =
    let e : (x / 2 * 2 + 1) / 2 ≡ x / 2 = omega arith in rw e (ground arith)
bit-set_bit x (suc k) zero = ground arith
bit-set_bit x (suc k) (suc j) = rw set_bit_half (ground (arith, bit-set_bit (x / 2) k j))

-- Clearing a bit changes no other.
pub bit-clear_bit : (x k j : ℕ) → bit (clear_bit x k) j ≡ (not (j == k) && bit x j)
unfolding bit clear_bit
bit-clear_bit x zero zero = ground arith
bit-clear_bit x zero (suc j) = let e : x / 2 * 2 / 2 ≡ x / 2 = omega arith in rw e (ground arith)
bit-clear_bit x (suc k) zero = ground arith
bit-clear_bit x (suc k) (suc j) = rw clear_bit_half (ground (arith, bit-clear_bit (x / 2) k j))

pub pow_double : (n : ℕ) → 2 ^ suc n ≡ 2 * 2 ^ n
pow_double n = omega (arith, pow-suc 2 n)

-- A word of `n` bits with every bit set is the largest.
pub all_bits_set : (n x : ℕ) → x < 2 ^ n → ((j : ℕ) → j < n → bit x j ≡ true) → x + 1 ≡ 2 ^ n
unfolding bit
all_bits_set zero x h all = omega arith
all_bits_set (suc n) x h all =
    let low : x % 2 ≡ 1 = ground (arith, all 0 (omega arith)) in
    omega (
      arith,
      low,
      pow_double n,
      all_bits_set n (x / 2) (omega (arith, pow_double n)) (λ j p. all (suc j) (omega arith)),
    )

-- A bit below the width can be set without leaving it.
pub set_bit-lt : (n x k : ℕ) → x < 2 ^ n → k < n → set_bit x k < 2 ^ n
unfolding set_bit
set_bit-lt zero x k h p = absurd (omega arith)
set_bit-lt (suc n) x zero h p = omega (arith, pow_double n)
set_bit-lt (suc n) x (suc k) h p =
    omega (arith, pow_double n, set_bit-lt n (x / 2) k (omega (arith, pow_double n)) (omega arith))
