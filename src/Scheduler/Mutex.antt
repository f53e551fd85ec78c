-- ===== src/Scheduler/Mutex.antt =====
-- The mutex of i386/whitex/sys_tools.h over the scheduler, and its reader of decimal numbers with
-- the printer of i386/whitex/multitasking.h.
use whitex_kernel.Prelude.{
  ℕ, ◌≡◌, Option, none, some, List, [], ◌∷◌, ◌==◌, if◌then◌else◌, arith, Bool-cases, inl, inr,
}
use whitex_kernel.Scheduler.{SchedulerState, running_pcb, scheduler_yield}

-- `mutex_t`
pub record Mutex : Type 0 where
  pub state : ℕ
  pub owner_pid : ℕ

unfoldable pub mutex_init : Mutex
mutex_init = record { state = 0; owner_pid = 0 }

-- `mutex_lock` of the process `current_pid`. Each round of the loop yields; what happens to the
-- mutex and the scheduler until this process runs again is the next element of `others`. `none`
-- means that the list ended with the mutex still held.
unfoldable pub mutex_lock :
    (others : List (Mutex × SchedulerState → Mutex × SchedulerState)) (current_pid : ℕ)
    → Mutex × SchedulerState
    → Option (Mutex × SchedulerState)
mutex_lock [] current_pid (m, s) =
    if m.state == 1 then none else some (record { state = 1; owner_pid = current_pid }, s)
mutex_lock (others ∷ later) current_pid (m, s) =
    let rest = mutex_lock later current_pid (others (m, scheduler_yield s)) in
    if m.state == 1 then rest else some (record { state = 1; owner_pid = current_pid }, s)

unfoldable pub mutex_unlock : SchedulerState → Mutex → Mutex
mutex_unlock s m =
    if m.owner_pid == (running_pcb s).task_id then record { state = 0; owner_pid = 0 } else m

-- A lock that is taken is held, and owned by the process that took it.
pub mutex_lock_owner :
    (others : List (Mutex × SchedulerState → Mutex × SchedulerState)) (pid : ℕ) (m m' : Mutex)
    (s s' : SchedulerState)
    → mutex_lock others pid (m, s) ≡ some (m', s')
    → (m'.state ≡ 1) × (m'.owner_pid ≡ pid)
unfolding mutex_lock
mutex_lock_owner [] pid m m' s s' r = ground arith
mutex_lock_owner (o ∷ later) pid m m' s s' r = elim (Bool-cases (m.state == 1)) [
  | inl held ↦
      let (n, t) = o (m, scheduler_yield s) in
      mutex_lock_owner later pid n m' t s' (ground (arith, r))
  | inr free ↦ ground (arith, r)
]
