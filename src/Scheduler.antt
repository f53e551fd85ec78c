-- ===== src/Scheduler.antt =====
-- The process table, scheduler, signals and message channels of i386/whitex/multitasking.h, and
-- the mutex of i386/whitex/sys_tools.h. `g_system_scheduler` is the state; the register %esp
-- stands beside it, since `scheduler_yield` saves and loads it.
pub mod Channel
pub mod Queue
pub mod Signals
pub mod Select
pub mod Process
pub mod Register
pub mod Created
pub mod Mutex
pub mod Number
pub mod Commands
pub mod Messages
pub mod Delivery
pub mod Lifecycle
pub mod Tests
use whitex_kernel.Prelude.{
  ℕ, zero, suc, ◌+◌, ◌-◌, ◌*◌, ◌/◌, ◌%◌, Bool, true, false, Option, none, some, List, [], ◌∷◌, ltb,
  leb, ◌==◌, ◌&&◌, ◌||◌, not, if◌then◌else◌, update, each_from,
}
use whitex_kernel.Prelude.Words.{add32, sub32, bit, set_bit, clear_bit}
use whitex_kernel.Oom.{sys_max_tasks, task_state_running, task_state_dead, oom_flag_critical}

abbrev pub sched_max_priority : ℕ
sched_max_priority = 100

abbrev pub sched_default_priority : ℕ
sched_default_priority = 20

abbrev pub sched_priority_aging_limit : ℕ
sched_priority_aging_limit = 500

abbrev pub sched_stack_size : ℕ
sched_stack_size = 4096

abbrev pub sched_ipc_max_messages : ℕ
sched_ipc_max_messages = 32

abbrev pub sched_ipc_msg_size : ℕ
sched_ipc_msg_size = 128

abbrev pub task_state_blocked : ℕ
task_state_blocked = 0x10

abbrev pub task_state_stopped : ℕ
task_state_stopped = 0x20

abbrev pub signal_sigkill : ℕ
signal_sigkill = 9

abbrev pub signal_sigstop : ℕ
signal_sigstop = 19

abbrev pub signal_sigcont : ℕ
signal_sigcont = 18

-- the codes of i386/whitex/errnu.h that the scheduler returns
abbrev pub err_ok : ℕ
err_ok = 0x00

abbrev pub err_busy : ℕ
err_busy = 0x04

abbrev pub err_overflow : ℕ
err_overflow = 0x11

abbrev pub err_invalid_op : ℕ
err_invalid_op = 0x13

abbrev pub err_mem_fault : ℕ
err_mem_fault = 0x20

abbrev pub err_mem_out_of_mem : ℕ
err_mem_out_of_mem = 0x21

abbrev pub err_io_not_found : ℕ
err_io_not_found = 0x32

abbrev pub err_io_permission : ℕ
err_io_permission = 0x34

-- `ipc_message_t`; `bytes` is its array `data`
pub record IpcMessage : Type 0 where
  pub bytes : ℕ → ℕ
  pub sender_id : ℕ
  pub length : ℕ
  pub type : ℕ

-- `ipc_channel_t`
pub record IpcChannel : Type 0 where
  pub queue : ℕ → IpcMessage
  pub head : ℕ
  pub tail : ℕ
  pub count : ℕ
  pub lock_state : ℕ

-- `signal_context_t`; a handler is its address, 0 for NULL
pub record SignalContext : Type 0 where
  pub pending_signals : ℕ
  pub blocked_signals : ℕ
  pub handlers : ℕ → ℕ

-- `performance_metrics_t`
pub record PerformanceMetrics : Type 0 where
  pub execution_start_tick : ℕ
  pub total_execution_ticks : ℕ
  pub context_switches : ℕ
  pub last_scheduled_tick : ℕ
  pub syscall_count : ℕ
  pub memory_allocations : ℕ

-- `process_control_block_t`; of `context` the code uses only `esp` and `eflags`
pub record ProcessControlBlock : Type 0 where
  pub context_esp : ℕ
  pub context_eflags : ℕ
  pub task_id : ℕ
  pub parent_id : ℕ
  pub execution_state : ℕ
  pub memory_footprint_pages : ℕ
  pub base_priority : ℕ
  pub dynamic_priority : ℕ
  pub accumulation_cycles : ℕ
  pub allocation_flags : ℕ
  pub stack_memory_block : ℕ
  pub signal_subsystem : SignalContext
  pub metrics : PerformanceMetrics
  pub communication_channel : IpcChannel
  pub waiting_on_pid : ℕ
  pub sleep_until_tick : ℕ

-- `scheduler_state_t`, and the stack pointer of the processor
pub record SchedulerState : Type 0 where
  pub process_table : ℕ → ProcessControlBlock
  pub active_process_count : ℕ
  pub running_process_index : ℕ
  pub scheduler_cycles : ℕ
  pub global_process_identifier_seed : ℕ
  pub idle_ticks : ℕ
  pub kernel_elapsed_ticks : ℕ
  pub cpu_esp : ℕ

abbrev pub set_pcb : ℕ → ProcessControlBlock → SchedulerState → SchedulerState
set_pcb i p s = record s { process_table = update s.process_table i p }

abbrev pub running_pcb : SchedulerState → ProcessControlBlock
running_pcb s = s.process_table s.running_process_index

-- what `scheduler_memory_set` with 0 makes of the three parts
abbrev pub zero_signals : SignalContext
zero_signals = record { pending_signals = 0; blocked_signals = 0; handlers = λ i. 0 }

abbrev pub zero_metrics : PerformanceMetrics
zero_metrics = record {
  execution_start_tick = 0;
  total_execution_ticks = 0;
  context_switches = 0;
  last_scheduled_tick = 0;
  syscall_count = 0;
  memory_allocations = 0;
}

abbrev pub zero_message : IpcMessage
zero_message = record { bytes = λ i. 0; sender_id = 0; length = 0; type = 0 }

abbrev pub zero_channel : IpcChannel
zero_channel = record { queue = λ i. zero_message; head = 0; tail = 0; count = 0; lock_state = 0 }

-- the body of the loop of `scheduler_initialize`; the other fields keep what they hold
clear_pcb : ProcessControlBlock → ProcessControlBlock
clear_pcb p = record p {
  task_id = 0;
  execution_state = task_state_dead;
  context_esp = 0;
  context_eflags = 0;
  stack_memory_block = 0;
  signal_subsystem = zero_signals;
  metrics = zero_metrics;
  communication_channel = zero_channel;
  waiting_on_pid = 0;
  sleep_until_tick = 0;
}

master_pcb : ProcessControlBlock → ProcessControlBlock
master_pcb p = record p {
  task_id = 100;
  parent_id = 0;
  execution_state = task_state_running;
  memory_footprint_pages = 512;
  base_priority = sched_default_priority;
  dynamic_priority = sched_default_priority;
  accumulation_cycles = 0;
  allocation_flags = 1;
  stack_memory_block = 0;
  metrics = record p.metrics { execution_start_tick = 0 };
}

unfoldable pub scheduler_initialize : SchedulerState → SchedulerState
unfolding clear_pcb master_pcb
scheduler_initialize s = record s {
  process_table =
      update (λ i. if ltb i sys_max_tasks then clear_pcb (s.process_table i) else s.process_table i)
        0 (master_pcb (clear_pcb (s.process_table 0)));
  active_process_count = 1;
  running_process_index = 0;
  scheduler_cycles = 0;
  global_process_identifier_seed = 100;
  idle_ticks = 0;
  kernel_elapsed_ticks = 0;
}

-- the loop body of `scheduler_apply_aging` at index `i`
unfoldable pub age : (running i : ℕ) → ProcessControlBlock → ProcessControlBlock
age running i p =
    if (p.execution_state == task_state_running) && not (i == running)
    then (if leb sched_priority_aging_limit (add32 p.accumulation_cycles 1)
        then record p {
          dynamic_priority =
              if ltb p.dynamic_priority sched_max_priority
              then add32 p.dynamic_priority 1
              else p.dynamic_priority;
          accumulation_cycles = 0;
        }
        else record p { accumulation_cycles = add32 p.accumulation_cycles 1 })
    else p

unfoldable pub scheduler_apply_aging : SchedulerState → SchedulerState
unfolding age each_from
scheduler_apply_aging s = record s {
  process_table = each_from (age s.running_process_index) s.active_process_count 0 s.process_table;
}

-- `best_index`, `highest_priority` and `found` of `scheduler_select_next_candidate`
pub record Candidate : Type 0 where
  pub best_index : ℕ
  pub highest_priority : ℕ
  pub found : Bool

-- a process that may run now: running, and not asleep beyond the present tick
unfoldable pub runnable : ℕ → ProcessControlBlock → Bool
runnable tick p =
    (p.execution_state == task_state_running)
    && not (ltb 0 p.sleep_until_tick && ltb tick p.sleep_until_tick)

-- the candidate after the process at `i` was looked at
unfoldable pub weigh : ℕ → ℕ → ProcessControlBlock → Candidate → Candidate
weigh tick i p c =
    if runnable tick p && (not c.found || ltb c.highest_priority p.dynamic_priority)
    then record { best_index = i; highest_priority = p.dynamic_priority; found = true }
    else c

-- a sleeper whose time has come is awake
unfoldable pub waken : ℕ → ProcessControlBlock → ProcessControlBlock
waken tick p = if runnable tick p then record p { sleep_until_tick = 0 } else p

-- the body of the selection loop
unfoldable pub consider : ℕ → SchedulerState → Candidate → SchedulerState × Candidate
unfolding weigh waken
consider i s c = (
  set_pcb i (waken s.kernel_elapsed_ticks (s.process_table i)) s,
  weigh s.kernel_elapsed_ticks i (s.process_table i) c,
)

unfoldable pub consider_from :
    (rounds i : ℕ) → SchedulerState → Candidate → SchedulerState × Candidate
unfolding consider
consider_from zero i s c = (s, c)
consider_from (suc k) i s c = consider_from k (i + 1) (consider i s c).0 (consider i s c).1

abbrev pub no_candidate : Candidate
no_candidate = record { best_index = 0; highest_priority = 0; found = false }

-- what follows the selection loop: the chosen process goes back to its base priority
unfoldable pub reset_chosen : SchedulerState × Candidate → SchedulerState × ℕ
reset_chosen (s, c) =
    if c.found
    then (
      set_pcb c.best_index
          (record (s.process_table c.best_index) {
            dynamic_priority = (s.process_table c.best_index).base_priority;
            accumulation_cycles = 0;
          })
          s,
      c.best_index,
    )
    else (s, 0)

unfoldable pub scheduler_select_next_candidate : SchedulerState → SchedulerState × ℕ
scheduler_select_next_candidate s =
    if s.active_process_count == 0
    then (s, 0)
    else (let aged = scheduler_apply_aging s in
        reset_chosen (consider_from aged.active_process_count 0 aged no_candidate))

-- `pushfl; pushal` store nine words below %esp, whose value is then kept in the old process;
-- `popal; popfl` take nine words from the new one's stack.
unfoldable pub switch_stacks : (current next : ℕ) → SchedulerState → SchedulerState
switch_stacks current next s =
    let saved =
      set_pcb current (record (s.process_table current) { context_esp = sub32 s.cpu_esp 36 }) s in
    record saved { cpu_esp = add32 (saved.process_table next).context_esp 36 }

account_current : ℕ → SchedulerState → SchedulerState
account_current i s =
    let m = (s.process_table i).metrics in
    set_pcb i
      (record (s.process_table i) {
        metrics = record m {
          total_execution_ticks =
              add32 m.total_execution_ticks (sub32 s.kernel_elapsed_ticks m.last_scheduled_tick);
        };
      })
      s

account_next : ℕ → SchedulerState → SchedulerState
account_next i s =
    let m = (s.process_table i).metrics in
    set_pcb i
      (record (s.process_table i) {
        metrics = record m {
          last_scheduled_tick = s.kernel_elapsed_ticks;
          context_switches = add32 m.context_switches 1;
        };
      })
      s

-- Up to the switch of stacks: what runs next is the process whose index is returned in the state.
unfoldable pub scheduler_yield : SchedulerState → SchedulerState
unfolding switch_stacks account_current account_next
scheduler_yield s =
    let ticked = record s { kernel_elapsed_ticks = add32 s.kernel_elapsed_ticks 1 } in
    if leb ticked.active_process_count 1
    then ticked
    else (let current = ticked.running_process_index in
        let (chosen, next) = scheduler_select_next_candidate ticked in
        if current == next
        then chosen
        else switch_stacks current next (
            account_next next (
              account_current current (record chosen {
                running_process_index = next;
                scheduler_cycles = add32 chosen.scheduler_cycles 1;
              }))))

unfoldable pub scheduler_sleep : ℕ → SchedulerState → SchedulerState
unfolding scheduler_yield
scheduler_sleep ticks s = scheduler_yield (
    set_pcb s.running_process_index
      (record (running_pcb s) { sleep_until_tick = add32 s.kernel_elapsed_ticks ticks }) s)
