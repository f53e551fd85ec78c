-- ===== src/Scheduler/Register.antt =====
-- `scheduler_register_process` of i386/whitex/multitasking.h: a new process over the page
-- allocator of i386/whitex/oomk.h.
use whitex_kernel.Prelude.{ℕ, ◌/◌, List, [], ◌∷◌, leb, ◌==◌, if◌then◌else◌, update}
use whitex_kernel.Prelude.Words.{add32, sub32, mul32}
use whitex_kernel.Prelude.Int.{pos}
use whitex_kernel.Oom.{
  done, Call, ◌>>=◌, ◌>>◌, zone_normal, page_size, sys_max_tasks, task_state_running,
  sys_alloc_pages, sys_register_task,
}
use whitex_kernel.Scheduler.{
  SchedulerState, ProcessControlBlock, set_pcb, running_pcb, zero_signals, zero_metrics,
  zero_channel, sched_stack_size, err_ok, err_mem_fault, err_mem_out_of_mem,
}

-- The scheduler with the global `auto_pid`, and the words of memory that the new stacks take.
pub record Machine : Type 0 where
  pub sched : SchedulerState
  pub auto_pid : ℕ
  pub words : ℕ → ℕ

-- `scheduler_allocate_memory`
unfoldable pub scheduler_allocate_memory : ℕ → Call ℕ
scheduler_allocate_memory size =
    sys_alloc_pages (pos zone_normal) (sub32 (add32 size page_size) 1 / page_size)

-- `sizeof(sys_task_t)` on the i386
abbrev pub sizeof_sys_task : ℕ
sizeof_sys_task = 48

-- the fields of the task at `node` that the code writes; the other fields keep what is there
unfoldable pub fill_node : ℕ → (pid ppid rss flags : ℕ) → Call (Unit {0})
fill_node node pid ppid rss flags c = done tt (record c {
  memory = update c.memory node (record (c.memory node) {
    pid = pid;
    ppid = ppid;
    state = task_state_running;
    rss_pages = rss;
    virtual_pages = mul32 rss 2;
    flags = flags;
    oom_score_adj = pos 0;
    nice_value = pos 0;
  });
})

-- `*(--stack_pointer) = w` for each word in turn: the new pointer and the memory
unfoldable pub push_words : List ℕ → ℕ → (ℕ → ℕ) → ℕ × (ℕ → ℕ)
push_words [] sp words = (sp, words)
push_words (w ∷ ws) sp words = push_words ws (sub32 sp 4) (update words (sub32 sp 4) w)

abbrev pub first_frame : (exit_stub entry : ℕ) → List ℕ
first_frame exit_stub entry = exit_stub ∷ entry ∷ 0x202 ∷ 0 ∷ 0 ∷ 0 ∷ 0 ∷ 0 ∷ 0 ∷ 0 ∷ 0 ∷ []

-- the process control block of the new process, on the slot `p`
unfoldable pub fresh_pcb :
    (pid ppid priority rss flags stack esp tick : ℕ) → ProcessControlBlock → ProcessControlBlock
fresh_pcb pid ppid priority rss flags stack esp tick p = record p {
  context_esp = esp;
  task_id = pid;
  parent_id = ppid;
  execution_state = task_state_running;
  memory_footprint_pages = rss;
  base_priority = priority;
  dynamic_priority = priority;
  accumulation_cycles = 0;
  allocation_flags = flags;
  stack_memory_block = stack;
  waiting_on_pid = 0;
  sleep_until_tick = 0;
  signal_subsystem = zero_signals;
  metrics = record zero_metrics { execution_start_tick = tick; last_scheduled_tick = tick };
  communication_channel = zero_channel;
}

-- the new process is entered in the table, with its first frame on its stack
unfoldable pub admit : (exit_stub entry priority rss flags pid stack : ℕ) → Machine → Machine
unfolding push_words fresh_pcb
admit exit_stub entry priority rss flags pid stack m =
    let s = m.sched in
    let (esp, words) =
      push_words (first_frame exit_stub entry) (add32 stack sched_stack_size) m.words in
    record m {
      words = words;
      sched =
          record (set_pcb s.active_process_count
            (fresh_pcb pid (running_pcb s).task_id priority rss flags stack esp
              s.kernel_elapsed_ticks (s.process_table s.active_process_count))
            s) { active_process_count = add32 s.active_process_count 1 };
    }

-- the process number is taken, also when no memory is found for the process
unfoldable pub take_pid : Machine → Machine
take_pid m =
    let next = add32 m.sched.global_process_identifier_seed 1 in
    record m { auto_pid = next; sched = record m.sched { global_process_identifier_seed = next } }

-- `exit_stub` is the address of `scheduler_exit_stub`.
unfoldable pub scheduler_register_process :
    (exit_stub entry_point priority initial_rss allocation_flags : ℕ) → Machine → Call (ℕ × Machine)
scheduler_register_process exit_stub entry_point priority initial_rss allocation_flags m =
    if leb sys_max_tasks m.sched.active_process_count
    then done (err_mem_out_of_mem, m)
    else (let pid = m.sched.global_process_identifier_seed in
        scheduler_allocate_memory sizeof_sys_task >>= λ node.
        if node == 0
        then done (err_mem_fault, take_pid m)
        else (fill_node node pid (running_pcb m.sched).task_id initial_rss allocation_flags
            >> (sys_register_task node
                >> (scheduler_allocate_memory sched_stack_size >>= λ stack.
                    if stack == 0
                    then done (err_mem_fault, take_pid m)
                    else done (
                      err_ok,
                      admit exit_stub entry_point priority initial_rss allocation_flags pid stack
                          (take_pid m),
                    )))))
