-- ===== src/Kernel/Rounds.antt =====
-- The main loop of i386/whitex/Kernel.c and its system calls keep the kernel sound.
use whitex_kernel.Prelude.{
  if_both, ℕ, ◌+◌, ◌%◌, ◌^◌, ◌≡◌, Bool, true, false, List, [], ◌∷◌, leb, ◌==◌, ◌||◌, not,
  if◌then◌else◌, arith, Option-cases, inl, inr, eq_test,
}
use whitex_kernel.Kernel.Strings.{sys_sanitize_string}
use whitex_kernel.Kernel.Shell.{codes, sys_parse_input}
use whitex_kernel.Kernel.Dispatch.{DispatchEntry, sys_execute_vector}
use whitex_kernel.Kernel.System.{
  KernelState, Outcome, runs, left, and_then, verify, Typed, execute_vector, parse_input, tick,
  main_round, main_loop, kernel, env_bootstrap, execute_syscall, counted, sys_tick_max, sys_help,
  sys_ram, sys_panic,
}
use whitex_kernel.Kernel.Sound.{
  Sound, Fine, fine, Steady, steady, away, Fine-Steady, Steady-and_then, Fine-and_then, verify-Fine,
  log_write-Fine, take_action-Steady, vector-Good, with_env, env_bootstrap-Fine,
}

Steady-first : (b : Bool) (x y : Outcome) → b ≡ true → Steady x → Steady (if b then x else y)
Steady-first true x y e f = f
Steady-first false x y e f = ground (arith, e)

Fine-second : (b : Bool) (x y : Outcome) → b ≡ false → Fine y → Fine (if b then x else y)
Fine-second true x y e f = ground (arith, e)
Fine-second false x y e f = f

execute_vector-Steady :
    (beyond : List DispatchEntry) (t : Typed) (cmd : List ℕ) (s : KernelState)
    → Sound s
    → Steady (execute_vector beyond t cmd s)
unfolding execute_vector
execute_vector-Steady beyond t cmd s0 ok0 =
    Steady-and_then (verify s0) _ (Fine-Steady _ (verify-Fine s0 ok0)) (λ s ok.
      take_action-Steady t cmd (sys_execute_vector beyond cmd s.env).0
        (sys_execute_vector beyond cmd s.env).1 s ok
        (vector-Good beyond cmd s.global_canary s.env ok.env_ok))

parse_input-Steady :
    (beyond : List DispatchEntry) (t : Typed) (raw : List ℕ) (s : KernelState)
    → Sound s
    → Steady (parse_input beyond t raw s)
unfolding parse_input
parse_input-Steady beyond t raw s0 ok0 =
    Steady-and_then (verify s0) _ (Fine-Steady _ (verify-Fine s0 ok0)) (λ s ok.
      elim (Option-cases (sys_parse_input raw)) [
        | inl nothing ↦ rw nothing (steady ok)
        | inr ((cmd, args), parsed) ↦ rw parsed (execute_vector-Steady beyond t cmd s ok)
      ])

at_tick : (s : KernelState) (now : ℕ) → Sound s → Sound (record s { tick_counter = now })
at_tick s now ok = record { env_ok = ok.env_ok; log_ok = ok.log_ok; log_canary = ok.log_canary }

tick-Steady : (t : Typed) (s : KernelState) → Sound s → Steady (tick t s)
unfolding tick
tick-Steady t s ok =
    let now = (s.tick_counter + 1) % 2 ^ 64 in
    if_both Steady _ _ _ (away (at_tick s now ok)) (
      if_both Steady (leb sys_tick_max now) (verify (record s { tick_counter = 0 }))
        (runs (record s { tick_counter = now })) (Fine-Steady _ (verify-Fine _ (at_tick s 0 ok)))
        (steady (at_tick s now ok)))

main_round-Steady :
    (beyond : List DispatchEntry) (t : Typed) (s : KernelState)
    → Sound s
    → Steady (main_round beyond t s)
unfolding main_round
main_round-Steady beyond t s0 ok0 =
    Steady-and_then (tick t s0) _ (tick-Steady t s0 ok0)
      (λ s ok. typed (sys_sanitize_string t.line 256) s ok)
  where
    typed :
        (line : List ℕ) (s : KernelState)
        → Sound s
        → Steady (elim line [ [] ↦ runs s | c ∷ cs ↦ parse_input beyond t (c ∷ cs) s ])
    typed [] s ok = steady ok
    typed (c ∷ cs) s ok = parse_input-Steady beyond t (c ∷ cs) s ok

-- Whatever is typed, a sound kernel does not halt over its own integrity, and its state is sound after every
-- round.
pub main_loop-Steady :
    (beyond : List DispatchEntry) (ts : List Typed) (s : KernelState)
    → Sound s
    → Steady (main_loop beyond ts s)
unfolding main_loop
main_loop-Steady beyond [] s ok = steady ok
main_loop-Steady beyond (t ∷ ts) s ok =
    let working : (s.env.system_state == 1) ≡ true = eq_test ok.env_ok.working in
    let next = and_then (main_round beyond t s) (main_loop beyond ts) in
    let lasts : Steady next =
      Steady-and_then (main_round beyond t s) (main_loop beyond ts)
        (main_round-Steady beyond t s ok) (main_loop-Steady beyond ts) in
    Steady-first (s.env.system_state == 1) next (sys_panic (codes "ERR_MAIN_LOOP_EXIT") s) working
      lasts

-- From the start on, with any memory and any typing, the kernel's own checks never fail: it goes on in a sound
-- state, or has left in one for a routine that does not return, as long as the routines elsewhere that return
-- keep the environment and the log.
pub kernel-Steady :
    (beyond : List DispatchEntry) (start_returns : Bool) (ts : List Typed) (s : KernelState)
    → Steady (kernel beyond start_returns ts s)
unfolding kernel
kernel-Steady beyond start_returns ts s0 =
    Steady-and_then (env_bootstrap s0) _ (Fine-Steady _ (env_bootstrap-Fine s0)) (λ s ok.
      if_both Steady start_returns (main_loop beyond ts s) (left s)
        (main_loop-Steady beyond ts s ok) (away ok))

-- A system call of a sound kernel returns in a sound kernel, as long as there is a machine.
pub execute_syscall-Fine :
    (syscall_id : ℕ) (s : KernelState) → Sound s → Fine (execute_syscall true syscall_id s)
unfolding execute_syscall
execute_syscall-Fine syscall_id s0 ok0 = Fine-and_then (verify s0) _ (verify-Fine s0 ok0) (λ s ok.
    let working : not (s.env.fault_detected == 0) ≡ false = ground (arith, ok.env_ok.no_fault) in
    let served = (syscall_id == sys_help) || (syscall_id == sys_ram) in
    if_both Fine ((s.env.memory_guard == 0) || not s.env.isolation_active)
      (runs (if served then counted s else s)) _ (may_count served s ok)
      (Fine-second (not (s.env.fault_detected == 0)) _ _ working (
        if_both Fine served (runs (counted s)) _ (fine (counted-Sound s ok))
          (log_write-Fine 2 _ s ok))))
  where
    counted-Sound : (s : KernelState) → Sound s → Sound (counted s)
    counted-Sound s ok = with_env s _ ok (record {
      canary_is = ok.env_ok.canary_is;
      guarded = ok.env_ok.guarded;
      base = ok.env_ok.base;
      limit = ok.env_ok.limit;
      working = ok.env_ok.working;
      no_fault = ok.env_ok.no_fault;
    })

    may_count : (b : Bool) (s : KernelState) → Sound s → Fine (runs (if b then counted s else s))
    may_count true s ok = fine (counted-Sound s ok)
    may_count false s ok = fine ok
