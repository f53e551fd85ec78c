-- ===== src/Clock.antt =====
-- The timer of i386/whitex/clk.h, which is compiled in, and the reading of the clock chip in
-- i386/whitex/clock.h.
pub mod Day
pub mod Tests
use whitex_kernel.Prelude.{
  ℕ, zero, suc, ◌+◌, ◌-◌, ◌*◌, ◌/◌, ◌%◌, Bool, true, false, Option, none, some, update, List, [],
  ◌∷◌, ◌++◌, leb, ◌==◌, if◌then◌else◌,
}
use whitex_kernel.Prelude.Words.{add32, bit}

abbrev pub pit_freq : ℕ
pit_freq = 1193182

abbrev pub target_freq : ℕ
target_freq = 100

-- `ticks`, `seconds`, `minutes` and `hours`; no count is ever negative
pub record Timer : Type 0 where
  pub ticks : ℕ
  pub seconds : ℕ
  pub minutes : ℕ
  pub hours : ℕ

-- what the globals start with
abbrev pub noon : Timer
noon = record { ticks = 0; seconds = 0; minutes = 0; hours = 12 }

-- two digits
unfoldable pub itoa : ℕ → List ℕ
itoa n = (n / 10 + 48) ∷ (n % 10 + 48) ∷ []

-- the bytes written to the ports of the timer
unfoldable pub pit_init : List (ℕ × ℕ)
pit_init =
    let divisor = pit_freq / target_freq in
    (0x43, 0x36) ∷ (0x40, divisor % 256) ∷ (0x40, divisor / 256 % 256) ∷ []

-- the second passed
unfoldable pub next_second : Timer → Timer
next_second t =
    if leb 60 (t.seconds + 1)
    then if leb 60 (t.minutes + 1)
      then (if leb 24 (t.hours + 1)
          then record t { seconds = 0; minutes = 0; hours = 0 }
          else record t { seconds = 0; minutes = 0; hours = t.hours + 1 })
      else record t { seconds = 0; minutes = t.minutes + 1 }
    else record t { seconds = t.seconds + 1 }

-- the clock face that is printed
unfoldable pub face : Timer → List ℕ
face t = itoa t.hours ++ (58 ∷ itoa t.minutes ++ (58 ∷ itoa t.seconds))

-- the handler, with the face where it prints one
unfoldable pub timer_handler : Timer → Timer × List ℕ
timer_handler t =
    let t' = record t { ticks = add32 t.ticks 1 } in
    if t'.ticks % 100 == 0 then (next_second t', face (next_second t')) else (t', [])

-- the loop of `clockmain`, a number of rounds
unfoldable pub clockmain : (rounds : ℕ) → Timer → Timer
clockmain zero t = t
clockmain (suc k) t = clockmain k (timer_handler t).0

unfoldable pub bcd_to_bin : ℕ → ℕ
bcd_to_bin val = (val % 16 + val / 16 * 10) % 256

-- the text of `time`
unfoldable pub clock_text : (s m h : ℕ) → List ℕ
clock_text s m h =
    (h / 10 + 48)
    ∷ (h % 10 + 48)
    ∷ 58
    ∷ (m / 10 + 48)
    ∷ (m % 10 + 48)
    ∷ 58
    ∷ (s / 10 + 48)
    ∷ (s % 10 + 48)
    ∷ []

-- the loop over the text, into the cells from `at` on
unfoldable pub write_cells : List ℕ → (at : ℕ) → (ℕ → ℕ) → ℕ → ℕ
write_cells [] at cells = cells
write_cells (c ∷ text) at cells = write_cells text (at + 1) (update cells at (c + 0x0E00))

-- What the ports give in a round: the status of the chip, its three registers, and a key if there is one.
pub record Reading : Type 0 where
  pub status : ℕ
  pub second : ℕ
  pub minute : ℕ
  pub hour : ℕ
  pub key : Option ℕ

-- the cells after a round; while the chip is updated nothing is drawn
unfoldable pub time_round : Reading → (ℕ → ℕ) → ℕ → ℕ
time_round r cells =
    if bit r.status 7
    then cells
    else write_cells (clock_text (bcd_to_bin r.second) (bcd_to_bin r.minute) (bcd_to_bin r.hour)) 72
        cells

abbrev pub is_q : Option ℕ → Bool
is_q (some scancode) = scancode == 0x10
is_q none = false

-- the loop of `time`, until the key Q or the end of the readings
unfoldable pub time : List Reading → (ℕ → ℕ) → ℕ → ℕ
time [] cells = cells
time (r ∷ readings) cells =
    let rest = time readings (time_round r cells) in if is_q r.key then time_round r cells else rest
