-- ===== src/Scheduler/Signals.antt =====
-- Signals of i386/whitex/multitasking.h: sending, handling and registering handlers.
use whitex_kernel.Prelude.{
  ℕ, zero, suc, ◌+◌, ◌<◌, ◌≡◌, Bool, true, none, some, ltb, leb, ◌==◌, ◌&&◌, ◌||◌, not,
  if◌then◌else◌, update, arith, Bool-cases, inl, inr, ==_iff, ap, ◌∙◌,
}
use whitex_kernel.Prelude.Words.{bit, set_bit, clear_bit, bit-clear_bit}
use whitex_kernel.Oom.{task_state_running, task_state_dead}
use whitex_kernel.Scheduler.{
  SchedulerState, ProcessControlBlock, SignalContext, set_pcb, running_pcb, task_state_stopped,
  err_ok, err_io_not_found, err_io_permission, err_invalid_op, signal_sigkill, signal_sigstop,
  signal_sigcont, scheduler_yield,
}
use whitex_kernel.Scheduler.Process.{find_process, find_from, live}

-- the receiver with the signal pending and its state changed
unfoldable pub signalled : ℕ → ProcessControlBlock → ProcessControlBlock
signalled signal p = record p {
  signal_subsystem = record p.signal_subsystem {
    pending_signals = set_bit p.signal_subsystem.pending_signals signal;
  };
  execution_state =
      if signal == signal_sigkill
      then task_state_dead
      else if signal == signal_sigstop
      then task_state_stopped
      else if signal == signal_sigcont
      then task_state_running
      else p.execution_state;
}

-- KILL and STOP sent by a process to itself give up the processor.
unfoldable pub scheduler_send_signal : ℕ → ℕ → SchedulerState → SchedulerState × ℕ
unfolding find_from signalled
scheduler_send_signal target_pid signal s =
    if ltb 31 signal then (s, err_invalid_op) else elim (find_process (live target_pid) s) [
      | none ↦ (s, err_io_not_found)
      | some i ↦
          let sent = set_pcb i (signalled signal (s.process_table i)) s in
          (
            (if (signal == signal_sigkill || signal == signal_sigstop)
                  && (s.running_process_index == i)
                then scheduler_yield sent
                else sent),
            err_ok,
          )
    ]

-- pending and not blocked
abbrev pub active : SignalContext → ℕ → Bool
active c i = bit c.pending_signals i && not (bit c.blocked_signals i)

-- What a handler does to the scheduler is not known here: a parameter, as is the code at an
-- address. `current` and the active signals are those at entry.
module _ (run_handler : (handler signal : ℕ) → SchedulerState → SchedulerState) where
  -- the body of the loop: an active signal is no longer pending, and its handler runs
  unfoldable pub handle_one : SignalContext → ℕ → ℕ → SchedulerState → SchedulerState
  handle_one entry current i s =
      let p = s.process_table current in
      let taken =
        set_pcb current
          (record p {
            signal_subsystem = record p.signal_subsystem {
              pending_signals = clear_bit p.signal_subsystem.pending_signals i;
            };
          })
          s in
      if active entry i
      then (if p.signal_subsystem.handlers i == 0
          then taken
          else run_handler (p.signal_subsystem.handlers i) i taken)
      else s

  unfoldable pub handle_from : SignalContext → ℕ → (rounds i : ℕ) → SchedulerState → SchedulerState
  unfolding handle_one
  handle_from entry current zero i s = s
  handle_from entry current (suc k) i s =
      handle_from entry current k (i + 1) (handle_one entry current i s)

  unfoldable pub scheduler_check_pending_signals : SchedulerState → SchedulerState
  unfolding handle_from
  scheduler_check_pending_signals s =
      handle_from (running_pcb s).signal_subsystem s.running_process_index 32 0 s

unfoldable pub scheduler_register_signal_handler : ℕ → ℕ → SchedulerState → SchedulerState × ℕ
scheduler_register_signal_handler signal handler s =
    if ltb 31 signal || (signal == signal_sigkill || signal == signal_sigstop)
    then (s, err_io_permission)
    else (
      set_pcb s.running_process_index
          (record (running_pcb s) {
            signal_subsystem = record (running_pcb s).signal_subsystem {
              handlers = update (running_pcb s).signal_subsystem.handlers signal handler;
            };
          })
          s,
      err_ok,
    )

-- KILL and STOP can have no handler: whatever is registered, their two slots keep their content.
pub scheduler_register_signal_handler_guards :
    (signal handler : ℕ) (s : SchedulerState) (i : ℕ)
    → let t = (scheduler_register_signal_handler signal handler s).0 in
      ((t.process_table i).signal_subsystem.handlers signal_sigkill
        ≡ (s.process_table i).signal_subsystem.handlers signal_sigkill)
      × ((t.process_table i).signal_subsystem.handlers signal_sigstop
          ≡ (s.process_table i).signal_subsystem.handlers signal_sigstop)
unfolding scheduler_register_signal_handler
scheduler_register_signal_handler_guards signal handler s i = ground arith

-- the pending signals of the process at `current`
abbrev pub pending : SchedulerState → ℕ → ℕ → Bool
pending s current j = bit (s.process_table current).signal_subsystem.pending_signals j

-- A handler that leaves the pending signals of the running process alone.
abbrev pub Quiet : ((handler signal : ℕ) → SchedulerState → SchedulerState) → ℕ → Type 0
Quiet run current =
    (handler signal : ℕ) (s : SchedulerState) (j : ℕ)
    → pending (run handler signal s) current j ≡ pending s current j

range_step :
    (p a b : Bool) (i j k : ℕ)
    → ((j == i) ≡ true → a ≡ b)
    → ((p && not (a && (j == i))) && not (b && (leb (i + 1) j && ltb j (i + 1 + k))))
      ≡ (p && not (b && (leb i j && ltb j (i + suc k))))
range_step p a b i j k same = ground (arith, same)

whole_range :
    (p b : Bool) (j : ℕ)
    → j < 32
    → (p && not ((p && not b) && (leb 0 j && ltb j (0 + 32)))) ≡ (p && b)
whole_range p b j lt = ground arith

module _ (run : (handler signal : ℕ) → SchedulerState → SchedulerState) where
  taken_pending :
      (current i j : ℕ) (s : SchedulerState)
      → bit (clear_bit (s.process_table current).signal_subsystem.pending_signals i) j
        ≡ (not (j == i) && pending s current j)
  taken_pending current i j s =
      bit-clear_bit (s.process_table current).signal_subsystem.pending_signals i j

  pending-handle_one :
      (entry : SignalContext) (current i : ℕ) (s : SchedulerState) (j : ℕ)
      → Quiet run current
      → pending (handle_one run entry current i s) current j
        ≡ (pending s current j && not (active entry i && (j == i)))
  unfolding handle_one
  pending-handle_one entry current i s j quiet = elim (Bool-cases (active entry i)) [
    | inl on ↦ elim (Bool-cases ((s.process_table current).signal_subsystem.handlers i == 0)) [
      | inl none_set ↦ rw (on, none_set, handle_one) (ground (arith, taken_pending current i j s))
      | inr some_set ↦
          rw (on, some_set, handle_one, quiet) (ground (arith, taken_pending current i j s))
    ]
    | inr off ↦ rw (off, handle_one) (ground arith)
  ]

  same_active :
      (entry : SignalContext) (i j : ℕ) → (j == i) ≡ true → active entry i ≡ active entry j
  same_active entry i j e = rw ((==_iff j i).0 e)

  pending-handle_from :
      (entry : SignalContext) (current k i : ℕ) (s : SchedulerState) (j : ℕ)
      → Quiet run current
      → pending (handle_from run entry current k i s) current j
        ≡ (pending s current j && not (active entry j && (leb i j && ltb j (i + k))))
  unfolding handle_from
  pending-handle_from entry current zero i s j quiet = ground arith
  pending-handle_from entry current (suc k) i s j quiet =
      pending-handle_from entry current k (i + 1) (handle_one run entry current i s) j quiet
      ∙ ap (λ b. b && not (active entry j && (leb (i + 1) j && ltb j (i + 1 + k))))
          (pending-handle_one entry current i s j quiet)
      ∙ range_step (pending s current j) (active entry i) (active entry j) i j k
          (same_active entry i j)

  -- With handlers that leave the pending signals of the running process alone, handling clears
  -- exactly its active signals: the blocked ones stay pending.
  pub scheduler_check_pending_signals_lem :
      (s : SchedulerState) (j : ℕ)
      → j < 32
      → Quiet run s.running_process_index
      → pending (scheduler_check_pending_signals run s) s.running_process_index j ≡ (
          pending s s.running_process_index j
          && bit (running_pcb s).signal_subsystem.blocked_signals j)
  unfolding scheduler_check_pending_signals
  scheduler_check_pending_signals_lem s j lt quiet =
      pending-handle_from (running_pcb s).signal_subsystem s.running_process_index 32 0 s j quiet
      ∙ whole_range (pending s s.running_process_index j)
          (bit (running_pcb s).signal_subsystem.blocked_signals j) j lt
