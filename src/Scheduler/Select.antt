-- ===== src/Scheduler/Select.antt =====
-- The choice of the next process in i386/whitex/multitasking.h: aging, selection and yield.
use whitex_kernel.Prelude.{
  ℕ, zero, suc, ◌+◌, ◌≤◌, ◌<◌, ◌≡◌, ◌≢◌, ◌⊎◌, refl, true, false, leb, ◌==◌, if◌then◌else◌, arith,
  Bool-cases, inl, inr, ==_iff,
}
use whitex_kernel.Prelude.Words.{add32}
use whitex_kernel.Oom.{sys_max_tasks}
use mathlib.Core.Bool.{false≢true}
use whitex_kernel.Scheduler.{
  SchedulerState, ProcessControlBlock, Candidate, no_candidate, runnable, weigh, consider,
  consider_from, reset_chosen, scheduler_apply_aging, scheduler_select_next_candidate,
  scheduler_yield,
}

-- `c` is the best choice among the first `n` processes of the table, at `tick`: a runnable one of
-- the highest priority, or none if none is runnable.
pub record Best (tick : ℕ) (table : ℕ → ProcessControlBlock) (n : ℕ) (c : Candidate) : Type 0 where
  pub nobody : c.found ≡ false → (j : ℕ) → j < n → runnable tick (table j) ≡ false
  pub inside : c.found ≡ true → c.best_index < n
  pub ready : c.found ≡ true → runnable tick (table c.best_index) ≡ true
  pub priority : c.found ≡ true → c.highest_priority ≡ (table c.best_index).dynamic_priority
  pub highest :
      c.found ≡ true
      → (j : ℕ) → j < n
      → runnable tick (table j) ≡ true
      → (table j).dynamic_priority ≤ c.highest_priority

module _ (tick : ℕ) (table : ℕ → ProcessControlBlock) (n : ℕ) (c : Candidate) where
  next : Candidate
  next = weigh tick n (table n) c

  step_nobody :
      Best tick table n c
      → next.found ≡ false
      → (j : ℕ) → j < n + 1
      → runnable tick (table j) ≡ false
  unfolding next weigh
  step_nobody b f j lt = elim (Bool-cases (j == n)) [
    | inl same ↦ rw ((==_iff j n).0 same) (ground (arith, f))
    | inr apart ↦ b.nobody (ground (arith, f)) j (ground arith)
  ]

  step_inside : Best tick table n c → next.found ≡ true → next.best_index < n + 1
  unfolding next weigh
  step_inside b f = ground (arith, f, b.inside)

  step_ready :
      Best tick table n c → next.found ≡ true → runnable tick (table next.best_index) ≡ true
  unfolding next weigh
  step_ready b f = ground (arith, f, b.ready)

  step_priority :
      Best tick table n c
      → next.found ≡ true
      → next.highest_priority ≡ (table next.best_index).dynamic_priority
  unfolding next weigh
  step_priority b f = ground (arith, f, b.priority)

  -- the highest priority among the first `n` bounds that of the next one too
  step_highest :
      Best tick table n c
      → next.found ≡ true
      → (j : ℕ) → j < n + 1
      → runnable tick (table j) ≡ true
      → (table j).dynamic_priority ≤ next.highest_priority
  unfolding next weigh
  step_highest b f j lt r = elim (Bool-cases (j == n)) [
    | inl same ↦ let e : j ≡ n = (==_iff j n).0 same in rw e (ground (arith, f, rw e at r))
    | inr apart ↦ elim (Bool-cases c.found) [
      | inl some_yet ↦ ground (arith, b.highest some_yet j (ground arith) r)
      | inr none_yet ↦ absurd (ground (arith, b.nobody none_yet j (ground arith), r))
    ]
  ]

  step-Best : Best tick table n c → Best tick table (n + 1) (weigh tick n (table n) c)
  unfolding next
  step-Best b = record {
    nobody = step_nobody b;
    inside = step_inside b;
    ready = step_ready b;
    priority = step_priority b;
    highest = step_highest b;
  }

-- From `i` on the table of `s` is `table`, whatever the loop has changed below.
abbrev Ahead : SchedulerState → (ℕ → ProcessControlBlock) → ℕ → Type 0
Ahead s table i = (j : ℕ) → i ≤ j → s.process_table j ≡ table j

consider_from-Best :
    (k i stop : ℕ) (table : ℕ → ProcessControlBlock) (s : SchedulerState) (c : Candidate)
    → i + k ≡ stop
    → Ahead s table i
    → Best s.kernel_elapsed_ticks table i c
    → Best s.kernel_elapsed_ticks table stop (consider_from k i s c).1
unfolding consider_from
consider_from-Best zero i stop table s c e ahead b = let e' : i ≡ stop = omega arith in rw (← e') b
consider_from-Best (suc k) i stop table s c e ahead b =
    consider_from-Best k (i + 1) stop table (consider i s c).0 (consider i s c).1 (omega arith)
      (λ j le. ground (arith, ahead j (omega arith)))
      (rw (ahead i (omega arith)) (step-Best s.kernel_elapsed_ticks table i c b))

-- the loop leaves the counters of the scheduler alone
consider_from_rest :
    (k i : ℕ) (s : SchedulerState) (c : Candidate)
    → ((consider_from k i s c).0.active_process_count ≡ s.active_process_count)
      × ((consider_from k i s c).0.running_process_index ≡ s.running_process_index)
unfolding consider_from
consider_from_rest zero i s c = (refl, refl)
consider_from_rest (suc k) i s c =
    consider_from_rest k (i + 1) (consider i s c).0 (consider i s c).1

-- who may be chosen among the first `count` processes: nobody, and then index 0 is taken, or a
-- runnable process of the highest priority
abbrev pub Choice : (tick count : ℕ) → (ℕ → ProcessControlBlock) → ℕ → Type 0
Choice tick count table i =
    ((i ≡ 0) × ((j : ℕ) → j < count → runnable tick (table j) ≡ false))
    ⊎ ((i < count)
        × (runnable tick (table i) ≡ true)
        × ((j : ℕ)
            → j < count
            → runnable tick (table j) ≡ true
            → (table j).dynamic_priority ≤ (table i).dynamic_priority))

Best-Choice :
    (tick count : ℕ) (table : ℕ → ProcessControlBlock) (c : Candidate)
    → Best tick table count c
    → Choice tick count table (if c.found then c.best_index else 0)
Best-Choice tick count table c b = elim (Bool-cases c.found) [
  | inl some_found ↦ rw some_found (
      inr (
        b.inside some_found,
        b.ready some_found,
        λ j lt r. rw (← b.priority some_found) (b.highest some_found j lt r),
      ))
  | inr none_found ↦ rw none_found (inl (refl, b.nobody none_found))
]

no_candidate-Best : (tick : ℕ) (table : ℕ → ProcessControlBlock) → Best tick table 0 no_candidate
no_candidate-Best tick table = record {
  nobody = λ f j lt. absurd (omega arith);
  inside = λ f. absurd (false≢true f);
  ready = λ f. absurd (false≢true f);
  priority = λ f. absurd (false≢true f);
  highest = λ f. absurd (false≢true f);
}

aging_rest :
    (s : SchedulerState)
    → ((scheduler_apply_aging s).active_process_count ≡ s.active_process_count)
      × ((scheduler_apply_aging s).running_process_index ≡ s.running_process_index)
      × ((scheduler_apply_aging s).kernel_elapsed_ticks ≡ s.kernel_elapsed_ticks)
unfolding scheduler_apply_aging
aging_rest s = (refl, refl, refl)

reset_chosen_index :
    (r : SchedulerState × Candidate)
    → (reset_chosen r).1 ≡ (if r.1.found then r.1.best_index else 0)
unfolding reset_chosen
reset_chosen_index (s, c) = ground arith

-- The selection answers, after aging, a runnable process of the highest priority, and 0 when no
-- process is runnable.
pub scheduler_select_next_candidate_lem :
    (s : SchedulerState)
    → s.active_process_count ≢ 0
    → Choice s.kernel_elapsed_ticks s.active_process_count
        (scheduler_apply_aging s).process_table
        (scheduler_select_next_candidate s).1
unfolding scheduler_select_next_candidate reset_chosen runnable scheduler_apply_aging
scheduler_select_next_candidate_lem s some_process =
    let aged = scheduler_apply_aging s in
    let r = consider_from s.active_process_count 0 aged no_candidate in
    let some_yet : (s.active_process_count == 0) ≡ false = ground arith in
    rw (some_yet, scheduler_select_next_candidate, (aging_rest s).0, reset_chosen_index r)
      (Best-Choice s.kernel_elapsed_ticks s.active_process_count aged.process_table r.1 (
        rw (aging_rest s).2 at (
          consider_from-Best s.active_process_count 0 s.active_process_count aged.process_table aged
            no_candidate (omega arith) (λ j le. refl)
            (no_candidate-Best aged.kernel_elapsed_ticks aged.process_table))))

-- The table's bounds, and a running process inside it.
pub record IsScheduler (s : SchedulerState) : Type 0 where
  pub some_process : 0 < s.active_process_count
  pub in_table : s.active_process_count ≤ sys_max_tasks
  pub running_in : s.running_process_index < s.active_process_count

select_rest :
    (s : SchedulerState)
    → ((scheduler_select_next_candidate s).0.active_process_count ≡ s.active_process_count)
      × ((scheduler_select_next_candidate s).0.running_process_index ≡ s.running_process_index)
unfolding scheduler_select_next_candidate reset_chosen
select_rest s = ground (
  arith,
  aging_rest s,
  consider_from_rest (scheduler_apply_aging s).active_process_count 0 (scheduler_apply_aging s)
      no_candidate,
)

select_inside :
    (s : SchedulerState)
    → s.active_process_count ≢ 0
    → (scheduler_select_next_candidate s).1 < s.active_process_count
select_inside s some_process = ground (arith, scheduler_select_next_candidate_lem s some_process)

-- After a yield the process that runs is the one that was running, where no other process exists,
-- and else the selection's choice at the next tick; the counts of processes are as they were.
pub scheduler_yield_running :
    (s : SchedulerState)
    → ((scheduler_yield s).active_process_count ≡ s.active_process_count)
      × ((scheduler_yield s).running_process_index ≡ (
          if leb s.active_process_count 1
          then s.running_process_index
          else (scheduler_select_next_candidate
              (record s { kernel_elapsed_ticks = add32 s.kernel_elapsed_ticks 1 })).1))
unfolding scheduler_yield
scheduler_yield_running s =
    ground (arith, select_rest (record s { kernel_elapsed_ticks = add32 s.kernel_elapsed_ticks 1 }))

-- A yield keeps the running process inside the table of processes.
pub scheduler_yield-IsScheduler :
    (s : SchedulerState) → IsScheduler s → IsScheduler (scheduler_yield s)
scheduler_yield-IsScheduler s v = ground (
  arith,
  scheduler_yield_running s,
  select_inside (record s { kernel_elapsed_ticks = add32 s.kernel_elapsed_ticks 1 }),
)
