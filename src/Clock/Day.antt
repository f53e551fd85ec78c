-- ===== src/Clock/Day.antt =====
-- The clock of i386/whitex/clk.h against the seconds of a day, and the digits of i386/whitex/clock.h.
use whitex_kernel.Prelude.{
  ℕ, zero, suc, ◌+◌, ◌*◌, ◌/◌, ◌%◌, ◌<◌, ◌≡◌, ◌≢◌, eq_test, ==_iff, refl, leb, ◌==◌, arith,
  Bool-cases, inl, inr, ap, ◌∙◌, sym, List, [], ◌∷◌, ltb, ◌&&◌, false, update, length,
}
use mathlib.Core.Path.{subst}
use mathlib.Core.Bool.{true≢false}
use whitex_kernel.Prelude.Words.{bit}
use whitex_kernel.Clock.{
  Reading, is_q, write_cells, clock_text, time_round, time, Timer, noon, next_second, timer_handler,
  clockmain, bcd_to_bin,
}

-- the seconds since midnight
abbrev pub second_of : Timer → ℕ
second_of t = 3600 * t.hours + 60 * t.minutes + t.seconds

pub record IsTimer (t : Timer) : Type 0 where
  pub second_in : t.seconds < 60
  pub minute_in : t.minutes < 60
  pub hour_in : t.hours < 24

next_second_lem :
    (t : Timer)
    → IsTimer t
    → IsTimer (next_second t)
      × (second_of (next_second t) ≡ (second_of t + 1) % 86400)
      × ((next_second t).ticks ≡ t.ticks)
unfolding next_second
next_second_lem t v = elim (Bool-cases (leb 60 (t.seconds + 1))) [
  | inr early ↦ rw (early, next_second) (ground (arith, v.second_in, v.minute_in, v.hour_in, early))
  | inl whole ↦ elim (Bool-cases (leb 60 (t.minutes + 1))) [
    | inr early ↦
        rw (whole, early, next_second)
          (ground (arith, v.second_in, v.minute_in, v.hour_in, whole, early))
    | inl hour ↦ elim (Bool-cases (leb 24 (t.hours + 1))) [
      | inr early ↦
          rw (whole, hour, early, next_second)
            (ground (arith, v.second_in, v.minute_in, v.hour_in, whole, hour, early))
      | inl day ↦
          rw (whole, hour, day, next_second)
            (ground (arith, v.second_in, v.minute_in, v.hour_in, whole, hour, day))
    ]
  ]
]

-- the clock shows noon and a second for every hundred ticks
pub record OnTime (t : Timer) : Type 0 where
  pub timer : IsTimer t
  pub second_at : second_of t ≡ (43200 + t.ticks / 100) % 86400

full_hundred :
    (s k : ℕ)
    → (k + 1) % 100 ≡ 0
    → s ≡ (43200 + k / 100) % 86400
    → (s + 1) % 86400 ≡ (43200 + (k + 1) / 100) % 86400
full_hundred s k full at = omega (arith, full, at)

part_hundred :
    (s k : ℕ)
    → (k + 1) % 100 ≢ 0
    → s ≡ (43200 + k / 100) % 86400
    → s ≡ (43200 + (k + 1) / 100) % 86400
part_hundred s k part at = omega (arith, part, at)

timer_handler-OnTime :
    (t : Timer)
    → t.ticks + 1 < 4294967296
    → OnTime t
    → OnTime (timer_handler t).0 × ((timer_handler t).0.ticks ≡ t.ticks + 1)
unfolding timer_handler
timer_handler-OnTime t room v =
    let more : (t.ticks + 1) % 4294967296 ≡ t.ticks + 1 = omega (arith, room) in
    let t' : Timer = record t { ticks = (t.ticks + 1) % 4294967296 } in
    let w : IsTimer t' = record {
      second_in = v.timer.second_in;
      minute_in = v.timer.minute_in;
      hour_in = v.timer.hour_in;
    } in
    elim (Bool-cases (((t.ticks + 1) % 4294967296) % 100 == 0)) [
      | inl full ↦
          let (kept, later, same) = next_second_lem t' w in
          rw (full, timer_handler)
            (
              record {
                timer = kept;
                second_at =
                    later
                    ∙ full_hundred (second_of t) t.ticks
                        (subst (λ n. n % 100 ≡ 0) more ((==_iff _ 0).0 full)) v.second_at
                    ∙ ap (λ k. (43200 + k / 100) % 86400) (sym (same ∙ more));
              },
              same ∙ more,
            )
      | inr part ↦
          rw (part, timer_handler)
            (
              record {
                timer = w;
                second_at =
                    part_hundred (second_of t) t.ticks
                      (subst (λ n. n % 100 ≢ 0) more (λ e. true≢false (sym (eq_test e) ∙ part)))
                      v.second_at
                    ∙ ap (λ k. (43200 + k / 100) % 86400) (sym more);
              },
              more,
            )
    ]

clockmain_from :
    (n : ℕ) (t : Timer)
    → t.ticks + n < 4294967296
    → OnTime t
    → OnTime (clockmain n t) × ((clockmain n t).ticks ≡ t.ticks + n)
unfolding clockmain
clockmain_from zero t room v = (v, omega arith)
clockmain_from (suc n) t room v =
    let (w, more) = timer_handler-OnTime t (omega (arith, room)) v in
    let (x, all) = clockmain_from n (timer_handler t).0 (omega (arith, more, room)) w in
    (x, omega (arith, all, more))

-- After any number of ticks below 2 ^ 32 the three counts are in range, and together they are noon and
-- a second for every hundred ticks, from midnight on again.
pub clockmain_lem :
    (n : ℕ)
    → n < 4294967296
    → IsTimer (clockmain n noon) × (second_of (clockmain n noon) ≡ (43200 + n / 100) % 86400)
clockmain_lem n lt =
    let start : OnTime noon = record {
      timer = record { second_in = omega arith; minute_in = omega arith; hour_in = omega arith };
      second_at = refl;
    } in
    let (v, all) = clockmain_from n noon (omega (arith, lt)) start in
    (v.timer, v.second_at ∙ ap (λ k. (43200 + k / 100) % 86400) (all ∙ omega arith))

-- A number of two digits is read back from its binary coded form.
pub bcd_to_bin_lem : (n : ℕ) → n < 100 → bcd_to_bin (n / 10 * 16 + n % 10) ≡ n
unfolding bcd_to_bin
bcd_to_bin_lem n lt = omega (arith, lt)

write_cells_other :
    (text : List ℕ) (at : ℕ) (cells : ℕ → ℕ) (j : ℕ)
    → (leb at j && ltb j (at + length text)) ≡ false
    → write_cells text at cells j ≡ cells j
unfolding write_cells
write_cells_other [] at cells j out = refl
write_cells_other (c ∷ text) at cells j out =
    let other : (j == at) ≡ false = ground (arith, out) in
    write_cells_other text (at + 1) (update cells at (c + 0x0E00)) j (ground (arith, out))
    ∙ rw other refl

drawn :
    (r : Reading) (cells : ℕ → ℕ) (j : ℕ)
    → (leb 72 j && ltb j 80) ≡ false
    → time_round r cells j ≡ cells j
unfolding time_round clock_text
drawn r cells j out = elim (Bool-cases (bit r.status 7)) [
  | inl busy ↦ rw (busy, time_round) refl
  | inr ready ↦
      rw (ready, time_round)
        (write_cells_other
          (clock_text (bcd_to_bin r.second) (bcd_to_bin r.minute) (bcd_to_bin r.hour)) 72 cells j
          out)
]

-- What `time` draws is confined to its eight cells.
pub time-outside :
    (readings : List Reading) (cells : ℕ → ℕ) (j : ℕ)
    → (leb 72 j && ltb j 80) ≡ false
    → time readings cells j ≡ cells j
unfolding time
time-outside [] cells j out = refl
time-outside (r ∷ readings) cells j out = elim (Bool-cases (is_q r.key)) [
  | inl last ↦ rw (last, time) (drawn r cells j out)
  | inr again ↦
      rw (again, time) (time-outside readings (time_round r cells) j out ∙ drawn r cells j out)
]
