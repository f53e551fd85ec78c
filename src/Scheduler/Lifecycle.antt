-- ===== src/Scheduler/Lifecycle.antt =====
-- The kernel's own processes, i386/whitex/tasks.h: their start, and a round of each.
use whitex_kernel.Prelude.{
  ℕ, zero, suc, ◌+◌, ◌%◌, ◌*◌, ◌≤◌, ◌<◌, ◌≡◌, ◌≢◌, refl, Option, none, some, List, ltb, ◌==◌,
  if◌then◌else◌, update, arith, Bool-cases, inl, inr, ap, sym, ◌∙◌,
}
use Prim.Native.Nat.{bit_xor}
use whitex_kernel.Prelude.Words.{add32, mul32, u32}
use whitex_kernel.Oom.{SysOomCtrl, done, Call, ◌>>=◌, zone_normal, page_size, sys_max_tasks}
use whitex_kernel.Oom.Alloc.{Ready}
use whitex_kernel.Oom.Address.{region_address}
use whitex_kernel.Scheduler.{
  SchedulerState, sched_max_priority, sched_default_priority, sched_ipc_msg_size, err_ok,
  scheduler_yield, scheduler_sleep,
}
use whitex_kernel.Scheduler.Channel.{scheduler_ipc_send, scheduler_ipc_receive}
use whitex_kernel.Scheduler.Signals.{scheduler_check_pending_signals}
use whitex_kernel.Scheduler.Register.{Machine, admit, take_pid, scheduler_register_process}
use whitex_kernel.Scheduler.Created.{scheduler_register_process_ok, admit_count}

-- `system_lifecycle_ctx_t`
pub record LifecycleCtx : Type 0 where
  pub active_daemon_count : ℕ
  pub total_system_entropy : ℕ
  pub kernel_load_index : ℕ
  pub daemon_pids : ℕ → ℕ

-- A parameter stands for the code of a signal handler.
module _ (run_handler : (handler signal : ℕ) → SchedulerState → SchedulerState) where
  -- One round of `kernel_daemon_worker`, the process at `current`. The buffer keeps what it held, and what
  -- the others do while it waits is listed, as in Channel.
  unfoldable pub daemon_round :
      (others : List (SchedulerState → SchedulerState)) (current : ℕ)
      → (ℕ → ℕ) × SchedulerState
      → Option ((ℕ → ℕ) × SchedulerState)
  daemon_round others current (packet_buffer, s) =
      elim (scheduler_ipc_receive others current packet_buffer sched_ipc_msg_size
        (scheduler_check_pending_signals run_handler s)) [
          | none ↦ none
          | some (t, got) ↦ some (
            got.buffer,
            scheduler_yield (
                if ltb 0 got.copy_length
                then (scheduler_ipc_send got.sender_id got.buffer sched_ipc_msg_size got.type t).0
                else t),
          )
        ]

  -- one round of `kernel_lifecycle_auditor`
  unfoldable pub auditor_round : LifecycleCtx × SchedulerState → LifecycleCtx × SchedulerState
  auditor_round (l, s) =
      let load = add32 l.kernel_load_index 1 in
      (
        record l {
          kernel_load_index = load;
          total_system_entropy = bit_xor (add32 l.total_system_entropy 1) 0xDEAD_BEEF;
        },
        scheduler_yield (
            scheduler_sleep 100
              (if load % 250 == 0 then scheduler_check_pending_signals run_handler s else s)),
      )

-- The loop of `system_lifecycle_bootstrap` from daemon `i` on: what a registration returns is kept as the
-- number of the daemon.
unfoldable pub start_daemons :
    (exit_stub worker rounds i : ℕ) → LifecycleCtx × Machine → Call (LifecycleCtx × Machine)
start_daemons exit_stub worker zero i (l, m) = done (l, m)
start_daemons exit_stub worker (suc k) i (l, m) =
    scheduler_register_process exit_stub worker sched_default_priority 512 0 m >>= λ (pid, m').
    start_daemons exit_stub worker k (i + 1) (
      record l {
        daemon_pids = update l.daemon_pids i pid;
        active_daemon_count = add32 l.active_daemon_count 1;
      },
      m',
    )

-- `auditor` and `worker` are the addresses of the two routines.
unfoldable pub system_lifecycle_bootstrap :
    (exit_stub auditor worker : ℕ) → LifecycleCtx × Machine → Call (LifecycleCtx × Machine)
system_lifecycle_bootstrap exit_stub auditor worker (l, m) =
    scheduler_register_process exit_stub auditor sched_max_priority 2048 1 m >>= λ (pid, m').
    start_daemons exit_stub worker 16 0
      (record l { active_daemon_count = 0; kernel_load_index = 0; total_system_entropy = 0 }, m')

-- there is room for `n` processes more
pub record RoomFor (n : ℕ) (m : Machine) (c : SysOomCtrl) : Type 0 where
  pub ready : Ready c
  pub slots : m.sched.active_process_count + n ≤ sys_max_tasks
  pub tasks : c.active_task_count + n ≤ sys_max_tasks
  pub pages : (c.zones zone_normal).wm_min + 2 * n ≤ (c.zones zone_normal).free_pages
  pub somewhere : region_address c ≢ 0

-- a registration with room succeeds, and leaves room for one less
one_more :
    (exit_stub entry priority rss flags n : ℕ) (m : Machine) (c : SysOomCtrl)
    → RoomFor (suc n) m c
    → (m' : Machine) × (d : SysOomCtrl) × (scheduler_register_process exit_stub entry priority rss
          flags m c
        ≡ done (err_ok, m') d)
      × RoomFor n m' d
      × (m'.sched.active_process_count ≡ m.sched.active_process_count + 1)
one_more exit_stub entry priority rss flags n m c r =
    let (d, made, ready, same, mark, left, tasks, node) =
      scheduler_register_process_ok exit_stub entry priority rss flags m c r.ready
        (omega (arith, r.slots)) (omega (arith, r.tasks)) (omega (arith, r.pages)) r.somewhere in
    let pid = m.sched.global_process_identifier_seed in
    let stack = region_address c in
    let count : (admit exit_stub entry priority rss flags pid stack
          (take_pid m)).sched.active_process_count
        ≡ m.sched.active_process_count + 1 =
      omega (arith, admit_count exit_stub entry priority rss flags pid stack m, r.slots) in
    let again : region_address d ≡ region_address c =
      ap (λ k. add32 0x1000_0000 (mul32 k page_size)) same in
    (
      admit exit_stub entry priority rss flags pid stack (take_pid m),
      d,
      made,
      record {
        ready = ready;
        slots = omega (arith, count, r.slots);
        tasks = omega (arith, tasks, r.tasks);
        pages = omega (arith, mark, left, r.pages);
        somewhere = λ e. r.somewhere (sym again ∙ e);
      },
      count,
    )

-- `n` daemons from daemon `i` on
daemons_started :
    (exit_stub worker n i : ℕ) (l : LifecycleCtx) (m : Machine) (c : SysOomCtrl)
    → RoomFor n m c
    → l.active_daemon_count + n < u32
    → (l' : LifecycleCtx) × (m' : Machine) × (d : SysOomCtrl) × (start_daemons exit_stub worker n i
          (l, m)
          c
        ≡ done (l', m') d)
      × (l'.active_daemon_count ≡ l.active_daemon_count + n)
      × ((j : ℕ) → i ≤ j → j < i + n → l'.daemon_pids j ≡ err_ok)
      × ((j : ℕ) → j < i → l'.daemon_pids j ≡ l.daemon_pids j)
      × (m'.sched.active_process_count ≡ m.sched.active_process_count + n)
unfolding start_daemons
daemons_started exit_stub worker zero i l m c r fits = (
  l,
  m,
  c,
  refl,
  omega arith,
  (λ j from lt. absurd (omega (arith, from, lt))),
  (λ j lt. refl),
  omega arith,
)
daemons_started exit_stub worker (suc n) i l m c r fits =
    let (m1, c1, made, room, count) =
      one_more exit_stub worker sched_default_priority 512 0 n m c r in
    let l1 = record l {
      daemon_pids = update l.daemon_pids i err_ok;
      active_daemon_count = add32 l.active_daemon_count 1;
    } in
    let (l2, m2, d, rest, daemons, answers, before, all) =
      daemons_started exit_stub worker n (i + 1) l1 m1 c1 room (omega (arith, fits)) in
    (
      l2,
      m2,
      d,
      rw (made, start_daemons) rest,
      omega (arith, daemons, fits),
      (λ j from lt. elim (Bool-cases (j == i)) [
        | inl here ↦ before j (ground (arith, here)) ∙ rw here refl
        | inr later ↦ answers j (ground (arith, later, from)) (omega (arith, lt))
      ]),
      (λ j lt. before j (omega (arith, lt)) ∙ ground (arith, lt)),
      omega (arith, all, count),
    )

-- With room for 17 processes the start enters them all in the table and counts 16 daemons; what it keeps as
-- their numbers are 16 times the code of success.
pub system_lifecycle_bootstrap_ok :
    (exit_stub auditor worker : ℕ) (l : LifecycleCtx) (m : Machine) (c : SysOomCtrl)
    → RoomFor 17 m c
    → (l' : LifecycleCtx) × (m' : Machine) × (d : SysOomCtrl) × (system_lifecycle_bootstrap
          exit_stub auditor worker
          (l, m)
          c
        ≡ done (l', m') d)
      × (m'.sched.active_process_count ≡ m.sched.active_process_count + 17)
      × (l'.active_daemon_count ≡ 16)
      × ((j : ℕ) → j < 16 → l'.daemon_pids j ≡ err_ok)
unfolding system_lifecycle_bootstrap
system_lifecycle_bootstrap_ok exit_stub auditor worker l m c r =
    let (m1, c1, made, room, count) =
      one_more exit_stub auditor sched_max_priority 2048 1 16 m c r in
    let l1 = record l {
      active_daemon_count = 0;
      kernel_load_index = 0;
      total_system_entropy = 0;
    } in
    let (l2, m2, d, rest, daemons, answers, before, all) =
      daemons_started exit_stub worker 16 0 l1 m1 c1 room (omega arith) in
    (
      l2,
      m2,
      d,
      rw (made, system_lifecycle_bootstrap) rest,
      omega (arith, all, count),
      daemons,
      (λ j lt. answers j (omega arith) (omega (arith, lt))),
    )
