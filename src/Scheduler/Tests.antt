-- ===== src/Scheduler/Tests.antt =====
-- The statements on i386/whitex/multitasking.h and the mutex of i386/whitex/sys_tools.h at one
-- concrete table: the first process, one that can be terminated, and one that waits for it.
use whitex_kernel.Prelude.{
  ℕ, zero, suc, ◌+◌, ◌≤◌, ◌<◌, ◌≡◌, ◌≢◌, refl, some, List, [], ◌∷◌, ◌++◌, arith,
}
use whitex_kernel.Prelude.Words.{bit}
use whitex_kernel.Oom.{SysOomCtrl, done, zone_normal}
use whitex_kernel.Oom.Alloc.{Ready}
use whitex_kernel.Oom.Address.{region_address}
use whitex_kernel.Oom.Tests.{system, system-Ready}
use whitex_kernel.Scheduler.{
  SchedulerState, ProcessControlBlock, IpcChannel, IpcMessage, zero_signals, zero_metrics,
  zero_channel, task_state_dead, err_ok, sched_ipc_msg_size, scheduler_select_next_candidate,
  scheduler_apply_aging,
}
use whitex_kernel.Scheduler.Process.{
  First, NobodyWaits, has_id, live, find_process, find_from, scheduler_terminate_process,
  scheduler_terminate_process_ok,
}
use whitex_kernel.Scheduler.Channel.{scheduler_ipc_send}
use whitex_kernel.Scheduler.Queue.{
  IsChannel, contents, channel, zero_channel-IsChannel, scheduler_ipc_send_ok,
}
use whitex_kernel.Scheduler.Select.{Choice, scheduler_select_next_candidate_lem}
use whitex_kernel.Scheduler.Register.{Machine, admit, take_pid, scheduler_register_process}
use whitex_kernel.Scheduler.Created.{scheduler_register_process_ok}
use whitex_kernel.Scheduler.Messages.{byte_at, cmd_msgsend, cmd_msgrecv, send_text}
use whitex_kernel.Scheduler.Delivery.{cmd_msgrecv-cmd_msgsend}
use whitex_kernel.Scheduler.Lifecycle.{
  LifecycleCtx, system_lifecycle_bootstrap, system_lifecycle_bootstrap_ok,
}
use whitex_kernel.Scheduler.Mutex.{Mutex}
use whitex_kernel.Kernel.Shell.{split_word}
use whitex_kernel.Scheduler.Number.{
  write_digits, digit_count, parse_integer, scheduler_integer_to_string,
}

abbrev process : (pid state waits : ℕ) → ProcessControlBlock
process pid state waits = record {
  context_esp = 0;
  context_eflags = 0;
  task_id = pid;
  parent_id = 100;
  execution_state = state;
  memory_footprint_pages = 1;
  base_priority = 3;
  dynamic_priority = 3;
  accumulation_cycles = 0;
  allocation_flags = 0;
  stack_memory_block = 0;
  metrics = zero_metrics;
  signal_subsystem = record zero_signals { pending_signals = 8 };
  communication_channel = zero_channel;
  waiting_on_pid = waits;
  sleep_until_tick = 0;
}

abbrev three : SchedulerState
three = record {
  process_table = elim [
    | zero ↦ process 100 1 0
    | suc zero ↦ process 101 1 0
    | suc (suc i) ↦ process (102 + i) 2 101
  ];
  active_process_count = 3;
  running_process_index = 0;
  scheduler_cycles = 0;
  global_process_identifier_seed = 103;
  idle_ticks = 0;
  kernel_elapsed_ticks = 0;
  cpu_esp = 0;
}

scheduler_terminate_process_ok_example :
    (w : ℕ) × First (has_id 101) three 0 3 w
    × (((scheduler_terminate_process 101 three).0.process_table w).execution_state
        ≡ task_state_dead)
    × NobodyWaits 101 (scheduler_terminate_process 101 three).0
unfolding scheduler_terminate_process find_from bit
scheduler_terminate_process_ok_example = scheduler_terminate_process_ok 101 three (omega arith) refl

abbrev one_message : IpcChannel
one_message = record zero_channel { tail = 1; count = 1 }

abbrev one_message-IsChannel : IsChannel one_message
one_message-IsChannel = record { head_in = omega arith; count_in = omega arith; tail_at = refl }

abbrev three_channels : (i : ℕ) → IsChannel (channel three i)
three_channels zero = zero_channel-IsChannel
three_channels (suc zero) = zero_channel-IsChannel
three_channels (suc (suc i)) = zero_channel-IsChannel

abbrev text : ℕ → ℕ
text i = i + 65

scheduler_ipc_send_ok_example :
    (i : ℕ) × (m : IpcMessage) × (find_process (live 101) three ≡ some i)
    × (m.sender_id ≡ 100)
    × (m.length ≡ 4)
    × (m.type ≡ 7)
    × ((k : ℕ) → k < 4 → m.bytes k ≡ text k)
    × (4 ≤ sched_ipc_msg_size)
    × (contents (channel (scheduler_ipc_send 101 text 4 7 three).0 i)
        ≡ contents (channel three i) ++ (m ∷ []))
    × ((j : ℕ) → IsChannel (channel (scheduler_ipc_send 101 text 4 7 three).0 j))
    × ((j : ℕ) → j ≢ i → channel (scheduler_ipc_send 101 text 4 7 three).0 j ≡ channel three j)
unfolding scheduler_ipc_send find_from
scheduler_ipc_send_ok_example = scheduler_ipc_send_ok 101 4 7 text three three_channels refl

abbrev mailed : SchedulerState
mailed = record three {
  process_table = λ i. record (process 101 1 0) { communication_channel = one_message };
}

scheduler_select_next_candidate_example :
    Choice 0 3 (scheduler_apply_aging three).process_table (scheduler_select_next_candidate three).1
scheduler_select_next_candidate_example = scheduler_select_next_candidate_lem three (omega arith)

abbrev machine : Machine
machine = record { sched = three; auto_pid = 103; words = λ a. 0 }

scheduler_register_process_ok_example :
    (d : SysOomCtrl) × (scheduler_register_process 4000 5000 3 1 0 machine system
      ≡ done (err_ok, admit 4000 5000 3 1 0 103 (region_address system) (take_pid machine)) d)
    × Ready d
    × (d.total_reclaimed ≡ 0)
    × ((d.zones zone_normal).wm_min ≡ 10)
    × ((d.zones zone_normal).free_pages + 2 ≡ 1000)
    × (d.active_task_count ≡ 3)
    × (d.task_array 2 ≡ region_address system)
scheduler_register_process_ok_example =
    scheduler_register_process_ok 4000 5000 3 1 0 machine system system-Ready (omega arith)
      (omega arith) (omega arith) (omega arith)

abbrev entered : Machine
entered = admit 4000 5000 3 1 0 103 65536 (take_pid machine)

abbrev held : Mutex
held = record { state = 1; owner_pid = 101 }

abbrev released : Mutex
released = record { state = 0; owner_pid = 0 }

-- the owner releases the mutex while the process waits
abbrev release : Mutex × SchedulerState → Mutex × SchedulerState
release (m, s) = (released, s)

abbrev hello : List ℕ
hello = 104 ∷ 101 ∷ 108 ∷ 108 ∷ 111 ∷ []

cmd_msgrecv-cmd_msgsend_example :
    (u : SchedulerState) × (buffer : ℕ → ℕ) × (cmd_msgrecv [] 1 text
        (cmd_msgsend (scheduler_integer_to_string 101 ++ (32 ∷ hello)) three).0
      ≡ some (u, some (scheduler_integer_to_string 100, buffer)))
    × ((k : ℕ) → k < 6 → buffer k ≡ byte_at hello k)
unfolding find_from cmd_msgsend scheduler_integer_to_string write_digits digit_count send_text
    scheduler_ipc_send split_word parse_integer
cmd_msgrecv-cmd_msgsend_example =
    cmd_msgrecv-cmd_msgsend 101 1 hello text [] three (omega arith) (omega arith) three_channels
      refl refl refl

abbrev unborn : LifecycleCtx
unborn = record {
  active_daemon_count = 3;
  total_system_entropy = 7;
  kernel_load_index = 9;
  daemon_pids = λ i. 5;
}

system_lifecycle_bootstrap_ok_example :
    (l : LifecycleCtx) × (m : Machine) × (d : SysOomCtrl) × (system_lifecycle_bootstrap 4000 5000
        6000
        (unborn, machine)
        system
      ≡ done (l, m) d)
    × (m.sched.active_process_count ≡ 20)
    × (l.active_daemon_count ≡ 16)
    × ((j : ℕ) → j < 16 → l.daemon_pids j ≡ err_ok)
system_lifecycle_bootstrap_ok_example =
    system_lifecycle_bootstrap_ok 4000 5000 6000 unborn machine system (record {
      ready = system-Ready;
      slots = omega arith;
      tasks = omega arith;
      pages = omega arith;
      somewhere = λ e. omega (arith, e);
    })
