-- ===== src/Clock/Tests.antt =====
-- The statements on i386/whitex/clk.h and i386/whitex/clock.h at concrete counts.
use whitex_kernel.Prelude.{◌≡◌, ◌+◌, ◌/◌, ◌%◌, refl, [], ◌∷◌, arith}
use whitex_kernel.Clock.{noon, clockmain, face, next_second, itoa}
use whitex_kernel.Clock.Day.{IsTimer, second_of, clockmain_lem}

-- an hour and a second after the start
clockmain_lem_example :
    IsTimer (clockmain 360100 noon)
    × (second_of (clockmain 360100 noon) ≡ (43200 + 360100 / 100) % 86400)
clockmain_lem_example = clockmain_lem 360100 (omega arith)

-- the last second of a day
midnight :
    face (next_second (record { ticks = 0; seconds = 59; minutes = 59; hours = 23 }))
    ≡ 48 ∷ 48 ∷ 58 ∷ 48 ∷ 48 ∷ 58 ∷ 48 ∷ 48 ∷ []
unfolding face next_second itoa
midnight = refl
