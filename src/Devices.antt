-- ===== src/Devices.antt =====
-- Numbers on the screen and on the ports: i386/whitex/hexdump.h, i386/whitex/ping.h, i386/whitex/malloc.h,
-- i386/whitex/melodi.h and i386/whitex/echo.h.
pub mod Printed
pub mod Tests
use whitex_kernel.Prelude.{
  ℕ, zero, suc, ◌+◌, ◌*◌, ◌/◌, ◌%◌, List, [], ◌∷◌, leb, ◌==◌, if◌then◌else◌,
}

-- `hex_digits`
unfoldable pub hex_digit : ℕ → ℕ
hex_digit d = if leb d 9 then d + 48 else d + 55

-- the loop that writes the digits from the last to the first, in front of `behind`
unfoldable pub hex_from : (rounds n : ℕ) (behind : List ℕ) → List ℕ
hex_from zero n behind = behind
hex_from (suc k) n behind = hex_from k (n / 16) (hex_digit (n % 16) ∷ behind)

-- `0x` and eight digits
unfoldable pub to_hex : ℕ → List ℕ
to_hex n = 48 ∷ 120 ∷ hex_from 8 n []

-- the loop of `printnum` and `ram_print_number`, whose buffer is printed from its end; ten digits are enough
unfoldable pub number_from : (fuel n : ℕ) (buffer : List ℕ) → List ℕ
number_from zero n buffer = buffer
number_from (suc k) n buffer =
    let more = number_from k (n / 10) ((n % 10 + 48) ∷ buffer) in if n == 0 then buffer else more

unfoldable pub ram_print_number : ℕ → List ℕ
ram_print_number n = if n == 0 then 48 ∷ [] else number_from 10 n []

-- the ports written, in order, with what is read from port 0x61
unfoldable pub play_tone : (speaker frequency : ℕ) → List (ℕ × ℕ)
play_tone speaker frequency =
    if frequency == 0
    then (0x61, speaker / 4 * 4) ∷ []
    else (let divisor = 1193180 / frequency in
        (0x43, 0xB6)
        ∷ (0x42, divisor % 256)
        ∷ (0x42, divisor / 256 % 256)
        ∷ (0x61, speaker / 4 * 4 + 3)
        ∷ [])

-- What `echo` prints in front of the end of the line. What lies behind the NUL of a text of fewer than four
-- bytes is taken to be no space.
unfoldable pub echo : List ℕ → List ℕ
echo (a ∷ b ∷ c ∷ d ∷ e ∷ rest) = if e == 32 then rest else []
echo short = []
