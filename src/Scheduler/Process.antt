-- ===== src/Scheduler/Process.antt =====
-- Finding, terminating and waiting for processes (i386/whitex/multitasking.h).
use whitex_kernel.Prelude.{
  ℕ, zero, suc, ◌+◌, ◌≤◌, ◌<◌, ◌≡◌, ◌≢◌, ◌⊎◌, refl, Bool, true, false, Option, none, some, ltb,
  ◌==◌, each_from, each_from_lem, ◌&&◌, ◌||◌, not, if◌then◌else◌, arith, Bool-cases, Option-cases,
  inl, inr, ==_iff,
}
use whitex_kernel.Prelude.Words.{bit}
use whitex_kernel.Oom.{task_state_running, task_state_dead, oom_flag_critical}
use whitex_kernel.Scheduler.{
  SchedulerState, ProcessControlBlock, set_pcb, running_pcb, task_state_blocked, err_ok,
  err_io_not_found, err_io_permission, scheduler_yield,
}

-- The first process of the table, from index `i` on, that passes the test: the loops that return
-- or break at a match.
unfoldable pub find_from : (ProcessControlBlock → Bool) → (rounds i : ℕ) → SchedulerState → Option ℕ
find_from test zero i s = none
find_from test (suc k) i s =
    let rest = find_from test k (i + 1) s in if test (s.process_table i) then some i else rest

abbrev pub find_process : (ProcessControlBlock → Bool) → SchedulerState → Option ℕ
find_process test s = find_from test s.active_process_count 0 s

abbrev pub has_id : ℕ → ProcessControlBlock → Bool
has_id pid p = p.task_id == pid

abbrev pub live : ℕ → ProcessControlBlock → Bool
live pid p = (p.task_id == pid) && not (p.execution_state == task_state_dead)

-- the process at `j` after the termination of `pid`: freed from waiting for it
unfoldable pub wake : ℕ → ProcessControlBlock → ProcessControlBlock
wake pid p =
    if (p.execution_state == task_state_blocked) && (p.waiting_on_pid == pid)
    then record p { execution_state = task_state_running; waiting_on_pid = 0 }
    else p

unfoldable pub wake_all : ℕ → SchedulerState → SchedulerState
unfolding wake each_from
wake_all pid s = record s {
  process_table = each_from (λ j. wake pid) s.active_process_count 0 s.process_table;
}

abbrev pub bury : ℕ → SchedulerState → SchedulerState
bury i s = set_pcb i (record (s.process_table i) { execution_state = task_state_dead }) s

unfoldable pub scheduler_terminate_process : ℕ → SchedulerState → SchedulerState × ℕ
unfolding find_from wake_all
scheduler_terminate_process pid s = elim (find_process (has_id pid) s) [
  | none ↦ (s, err_io_not_found)
  | some i ↦
      if pid == 100 || bit (s.process_table i).allocation_flags oom_flag_critical
      then (s, err_io_permission)
      else (wake_all pid (bury i s), err_ok)
]

unfoldable pub scheduler_terminate_current : SchedulerState → SchedulerState
unfolding scheduler_terminate_process
scheduler_terminate_current s =
    scheduler_yield (scheduler_terminate_process (running_pcb s).task_id s).0

unfoldable pub scheduler_wait_pid : ℕ → SchedulerState → SchedulerState × ℕ
unfolding find_from
scheduler_wait_pid pid s = elim (find_process (live pid) s) [
  | none ↦ (s, err_io_not_found)
  | some i ↦ (
    scheduler_yield (
        set_pcb s.running_process_index
          (record (running_pcb s) { execution_state = task_state_blocked; waiting_on_pid = pid })
          s),
    err_ok,
  )
]

-- the first index that passes the test
pub record First (test : ProcessControlBlock → Bool) (s : SchedulerState) (i stop w : ℕ)
    : Type 0 where
  pub from : i ≤ w
  pub below : w < stop
  pub passes : test (s.process_table w) ≡ true
  pub least : (j : ℕ) → i ≤ j → j < w → test (s.process_table j) ≡ false

pub find_from-some :
    (test : ProcessControlBlock → Bool) (k i stop w : ℕ) (s : SchedulerState)
    → i + k ≡ stop
    → find_from test k i s ≡ some w
    → First test s i stop w
unfolding find_from
find_from-some test zero i stop w s e r = absurd (ground arith)
find_from-some test (suc k) i stop w s e r = elim (Bool-cases (test (s.process_table i))) [
  | inl hit ↦
      let same : i ≡ w = ground arith in
      record {
        from = omega arith;
        below = omega arith;
        passes = rw (← same) hit;
        least = λ j a b. absurd (omega arith);
      }
  | inr miss ↦
      let rest = find_from-some test k (i + 1) stop w s (omega arith) (ground arith) in
      record {
        from = omega (arith, rest.from);
        below = rest.below;
        passes = rest.passes;
        least = λ j a b. elim (Bool-cases (j == i)) [
          | inl same ↦ rw ((==_iff j i).0 same) miss
          | inr apart ↦ rest.least j (ground arith) b
        ];
      }
]

pub find_from-none :
    (test : ProcessControlBlock → Bool) (k i stop : ℕ) (s : SchedulerState)
    → i + k ≡ stop
    → find_from test k i s ≡ none
    → (j : ℕ) → i ≤ j
    → j < stop
    → test (s.process_table j) ≡ false
unfolding find_from
find_from-none test zero i stop s e r j a b = absurd (omega arith)
find_from-none test (suc k) i stop s e r j a b = elim (Bool-cases (test (s.process_table i))) [
  | inl hit ↦ absurd (ground arith)
  | inr miss ↦ elim (Bool-cases (j == i)) [
    | inl same ↦ rw ((==_iff j i).0 same) miss
    | inr apart ↦
        find_from-none test k (i + 1) stop s (omega arith) (ground arith) j (ground arith) b
  ]
]

wake_all_table :
    (pid : ℕ) (s : SchedulerState) (j : ℕ)
    → (wake_all pid s).process_table j
      ≡ (if ltb j s.active_process_count then wake pid (s.process_table j) else s.process_table j)
unfolding wake_all
wake_all_table pid s j =
    ground (arith, each_from_lem (λ j. wake pid) s.active_process_count 0 s.process_table j)

wake_dead :
    (pid : ℕ) (p : ProcessControlBlock) → p.execution_state ≡ task_state_dead → wake pid p ≡ p
unfolding wake
wake_dead pid p e = rw (e, wake)

wake-NobodyWaits :
    (pid : ℕ) (p : ProcessControlBlock)
    → pid ≢ 0
    → (wake pid p).execution_state ≡ task_state_blocked
    → (wake pid p).waiting_on_pid ≢ pid
unfolding wake
wake-NobodyWaits pid p np = ground arith

-- No process of the table waits, blocked, for `pid`.
abbrev pub NobodyWaits : ℕ → SchedulerState → Type 0
NobodyWaits pid s =
    (j : ℕ)
    → j < s.active_process_count
    → (s.process_table j).execution_state ≡ task_state_blocked
    → (s.process_table j).waiting_on_pid ≢ pid

wake_all_below :
    (pid : ℕ) (s : SchedulerState) (j : ℕ)
    → j < s.active_process_count
    → (wake_all pid s).process_table j ≡ wake pid (s.process_table j)
wake_all_below pid s j lt = ground (arith, wake_all_table pid s j)

wake_all_count :
    (pid : ℕ) (s : SchedulerState) → (wake_all pid s).active_process_count ≡ s.active_process_count
unfolding wake_all
wake_all_count pid s = refl

bury_dead :
    (w : ℕ) (s : SchedulerState) → ((bury w s).process_table w).execution_state ≡ task_state_dead
bury_dead w s = ground arith

buried :
    (pid w : ℕ) (s : SchedulerState)
    → w < s.active_process_count
    → ((wake_all pid (bury w s)).process_table w).execution_state ≡ task_state_dead
buried pid w s lt =
    rw (wake_all_below pid (bury w s) w lt)
      (rw (wake_dead pid ((bury w s).process_table w) (bury_dead w s)) (bury_dead w s))

released : (pid : ℕ) (s : SchedulerState) → pid ≢ 0 → NobodyWaits pid (wake_all pid s)
released pid s np j lt blocked =
    let lt' : j < s.active_process_count = omega (arith, wake_all_count pid s) in
    let e = wake_all_below pid s j lt' in
    rw e (wake-NobodyWaits pid (s.process_table j) np (rw e at blocked))

-- On success the first process with that number is dead, and no process is left blocked waiting
-- for it, unless the number is 0.
pub scheduler_terminate_process_ok :
    (pid : ℕ) (s : SchedulerState)
    → pid ≢ 0
    → (scheduler_terminate_process pid s).1 ≡ err_ok
    → (w : ℕ) × First (has_id pid) s 0 s.active_process_count w
      × (((scheduler_terminate_process pid s).0.process_table w).execution_state ≡ task_state_dead)
      × NobodyWaits pid (scheduler_terminate_process pid s).0
unfolding scheduler_terminate_process
scheduler_terminate_process_ok pid s np r = elim (Option-cases (find_process (has_id pid) s)) [
  | inl nobody ↦ absurd (ground (arith, nobody))
  | inr (w, found) ↦
      elim (Bool-cases (pid == 100 || bit (s.process_table w).allocation_flags oom_flag_critical)) [
        | inl kept ↦ absurd (ground (arith, found, kept))
        | inr gone ↦
            let first =
              find_from-some (has_id pid) s.active_process_count 0 s.active_process_count w s
                (omega arith) found in
            rw (found, gone, scheduler_terminate_process)
              (w, first, buried pid w s first.below, released pid (bury w s) np)
      ]
]

-- The first process is never terminated, and neither is one with the critical flag: the table is
-- left as it was.
pub scheduler_terminate_process_protected :
    (pid w : ℕ) (s : SchedulerState)
    → find_process (has_id pid) s ≡ some w
    → (pid ≡ 100) ⊎ (bit (s.process_table w).allocation_flags oom_flag_critical ≡ true)
    → scheduler_terminate_process pid s ≡ (s, err_io_permission)
unfolding scheduler_terminate_process
scheduler_terminate_process_protected pid w s found why =
    rw (found, scheduler_terminate_process) (ground (arith, why))
