-- ===== src/Scheduler/Created.antt =====
-- A new process of i386/whitex/multitasking.h has its memory, its slots and its first frame.
use whitex_kernel.Prelude.{
  ℕ, ◌+◌, ◌≤◌, ◌<◌, ◌≡◌, ◌≢◌, refl, true, false, ltb, leb, ◌==◌, if◌then◌else◌, update, arith, inl,
  inr, ap, sym, ◌∙◌, ◌⊎◌,
}
use whitex_kernel.Prelude.Words.{add32, mul32, u32}
use whitex_kernel.Prelude.Int.{pos}
use whitex_kernel.Oom.{
  SysOomCtrl, done, Call, ◌>>=◌, zone_normal, page_size, sys_max_tasks, task_state_running,
  sys_register_task,
}
use whitex_kernel.Oom.Alloc.{Ready}
use whitex_kernel.Oom.Address.{taken, region_address, alloc_enough}
use whitex_kernel.Scheduler.{
  ProcessControlBlock, running_pcb, sched_stack_size, err_ok, err_mem_fault,
}
use whitex_kernel.Scheduler.Register.{
  Machine, scheduler_allocate_memory, sizeof_sys_task, fill_node, admit, take_pid,
  scheduler_register_process,
}

abbrev pub Roomy : SysOomCtrl → Type 0
Roomy c = leb (add32 1 (c.zones zone_normal).wm_min) (c.zones zone_normal).free_pages ≡ true

allocate_page :
    (c : SysOomCtrl)
    → Ready c
    → Roomy c
    → scheduler_allocate_memory sizeof_sys_task c ≡ done (region_address c) (taken 1 1 c)
unfolding scheduler_allocate_memory
allocate_page c u room = alloc_enough 1 1 c u (omega arith) room

allocate_stack :
    (c : SysOomCtrl)
    → Ready c
    → Roomy c
    → scheduler_allocate_memory sched_stack_size c ≡ done (region_address c) (taken 1 1 c)
unfolding scheduler_allocate_memory
allocate_stack c u room = alloc_enough 1 1 c u (omega arith) room

-- the allocator's state with the node of the new task filled in, and with it in the task array
abbrev pub filled : ℕ → (pid ppid rss flags : ℕ) → SysOomCtrl → SysOomCtrl
filled node pid ppid rss flags c = record c {
  memory = update c.memory node (record (c.memory node) {
    pid = pid;
    ppid = ppid;
    state = task_state_running;
    rss_pages = rss;
    virtual_pages = mul32 rss 2;
    flags = flags;
    oom_score_adj = pos 0;
    nice_value = pos 0;
  });
}

abbrev pub listed : ℕ → SysOomCtrl → SysOomCtrl
listed node c = record c {
  task_array = update c.task_array c.active_task_count node;
  active_task_count = add32 c.active_task_count 1;
}

fill_done :
    (node pid ppid rss flags : ℕ) (c : SysOomCtrl)
    → fill_node node pid ppid rss flags c ≡ done tt (filled node pid ppid rss flags c)
unfolding fill_node
fill_done node pid ppid rss flags c = refl

list_done :
    (node : ℕ) (c : SysOomCtrl)
    → c.active_task_count < sys_max_tasks
    → sys_register_task node c ≡ done tt (listed node c)
unfolding sys_register_task
list_done node c lt =
    let ok : ltb c.active_task_count sys_max_tasks ≡ true = ground arith in
    rw (ok, sys_register_task)

-- the last steps of a registration, behind the entry in the task array
finish : (exit_stub entry priority rss flags pid : ℕ) → Machine → Call (ℕ × Machine)
finish exit_stub entry priority rss flags pid m =
    scheduler_allocate_memory sched_stack_size >>= λ stack.
    if stack == 0
    then done (err_mem_fault, take_pid m)
    else done (err_ok, admit exit_stub entry priority rss flags pid stack (take_pid m))

finish_ok :
    (exit_stub entry priority rss flags pid : ℕ) (m : Machine) (c : SysOomCtrl)
    → Ready c
    → Roomy c
    → region_address c ≢ 0
    → finish exit_stub entry priority rss flags pid m c
      ≡ done
          (err_ok, admit exit_stub entry priority rss flags pid (region_address c) (take_pid m))
          (taken 1 1 c)
unfolding finish
finish_ok exit_stub entry priority rss flags pid m c u room there =
    let no : (region_address c == 0) ≡ false = ground arith in rw (allocate_stack c u room, no)

-- With a free slot in both tables and two free pages above the reserve, a registration succeeds.
-- It takes the next process number, two pages, a slot of the task array and a slot of the table.
pub scheduler_register_process_ok :
    (exit_stub entry priority rss flags : ℕ) (m : Machine) (c : SysOomCtrl)
    → Ready c
    → m.sched.active_process_count < sys_max_tasks
    → c.active_task_count < sys_max_tasks
    → (c.zones zone_normal).wm_min + 2 ≤ (c.zones zone_normal).free_pages
    → region_address c ≢ 0
    → (d : SysOomCtrl) × (scheduler_register_process exit_stub entry priority rss flags m c
        ≡ done
            (
              err_ok,
              admit exit_stub entry priority rss flags m.sched.global_process_identifier_seed
                  (region_address c)
                  (take_pid m),
            )
            d)
      × Ready d
      × (d.total_reclaimed ≡ c.total_reclaimed)
      × ((d.zones zone_normal).wm_min ≡ (c.zones zone_normal).wm_min)
      × ((d.zones zone_normal).free_pages + 2 ≡ (c.zones zone_normal).free_pages)
      × (d.active_task_count ≡ c.active_task_count + 1)
      × (d.task_array c.active_task_count ≡ region_address c)
unfolding scheduler_register_process
scheduler_register_process_ok exit_stub entry priority rss flags m c u slot task room there =
    let pid = m.sched.global_process_identifier_seed in
    let ppid = (running_pcb m.sched).task_id in
    let c1 = taken 1 1 c in
    let c2 = listed (region_address c) (filled (region_address c) pid ppid rss flags c1) in
    let u1 : Ready c1 = λ j. ground (arith, u 1, u j) in
    let free : leb sys_max_tasks m.sched.active_process_count ≡ false = ground arith in
    let no : (region_address c == 0) ≡ false = ground arith in
    (
      taken 1 1 c2,
      rw
          (
            free,
            scheduler_register_process,
            allocate_page c u (ground (arith, u 1)),
            no,
            fill_done (region_address c) pid ppid rss flags c1,
            list_done (region_address c) (filled (region_address c) pid ppid rss flags c1) task,
          )
          (unfold finish in
            finish_ok exit_stub entry priority rss flags pid m c2 (λ j. ground (arith, u 1, u j))
              (ground (arith, u 1)) there),
      (λ j. ground (arith, u 1, u j)),
      refl,
      ground (arith, u 1),
      ground (arith, u 1),
      ground (arith, u 1),
      ground (arith, u 1),
    )

module _ (exit_stub entry priority rss flags pid stack : ℕ) (m : Machine) where
  abbrev admitted : Machine
  admitted = admit exit_stub entry priority rss flags pid stack (take_pid m)

  pub admit_count : admitted.sched.active_process_count ≡ add32 m.sched.active_process_count 1
  unfolding admit take_pid
  admit_count = refl

  admit_stack :
      (admitted.sched.process_table m.sched.active_process_count).stack_memory_block ≡ stack
  unfolding admit take_pid
  admit_stack = ground arith

  admit_head :
      let p = admitted.sched.process_table m.sched.active_process_count in
      (p.task_id ≡ pid) × (p.execution_state ≡ task_state_running) × (p.dynamic_priority ≡ priority)
  unfolding admit take_pid
  admit_head = ground arith

  admit_others :
      (j : ℕ)
      → j ≢ m.sched.active_process_count
      → admitted.sched.process_table j ≡ m.sched.process_table j
  unfolding admit take_pid
  admit_others j ne = ground arith

  admit_esp :
      stack + sched_stack_size < u32
      → (admitted.sched.process_table m.sched.active_process_count).context_esp ≡ stack + 4052
  unfolding admit take_pid
  admit_esp fits = ground arith

  admit_word :
      (a w : ℕ)
      → stack + sched_stack_size < u32
      → ((a ≡ stack + 4084) × (w ≡ 0x202))
        ⊎ (((a ≡ stack + 4088) × (w ≡ entry)) ⊎ ((a ≡ stack + 4092) × (w ≡ exit_stub)))
      → admitted.words a ≡ w
  unfolding admit take_pid
  admit_word a w fits which = ground arith

  -- A process just registered waits in the table, running, with its own number; when the
  -- processor loads its stack pointer and takes nine words, it enables interrupts, enters at its
  -- entry point and, when that returns, is in `scheduler_exit_stub`.
  pub admit_lem :
      stack + sched_stack_size < u32
      → let p = admitted.sched.process_table m.sched.active_process_count in
        (p.task_id ≡ pid)
        × (p.execution_state ≡ task_state_running)
        × (p.dynamic_priority ≡ priority)
        × (p.context_esp ≡ stack + 4052)
        × (admitted.words (p.context_esp + 32) ≡ 0x202)
        × (admitted.words (p.context_esp + 36) ≡ entry)
        × (admitted.words (p.context_esp + 40) ≡ exit_stub)
        × ((j : ℕ)
            → j ≢ m.sched.active_process_count
            → admitted.sched.process_table j ≡ m.sched.process_table j)
  admit_lem fits =
      let esp = (admitted.sched.process_table m.sched.active_process_count).context_esp in
      let at : esp ≡ stack + 4052 = admit_esp fits in
      (
        admit_head.0,
        admit_head.1,
        admit_head.2,
        at,
        admit_word (esp + 32) 0x202 fits (inl (omega (arith, at), refl)),
        admit_word (esp + 36) entry fits (inr (inl (omega (arith, at), refl))),
        admit_word (esp + 40) exit_stub fits (inr (inr (omega (arith, at), refl))),
        admit_others,
      )

-- Two processes registered one after the other, with room for both, get the same memory for
-- their stacks.
pub scheduler_register_process_same_stack :
    (exit_stub entry entry' priority rss flags : ℕ) (m : Machine) (c : SysOomCtrl)
    → Ready c
    → m.sched.active_process_count + 1 < sys_max_tasks
    → c.active_task_count + 1 < sys_max_tasks
    → (c.zones zone_normal).wm_min + 4 ≤ (c.zones zone_normal).free_pages
    → region_address c ≢ 0
    → (m1 m2 : Machine) × (d e : SysOomCtrl) × (scheduler_register_process exit_stub entry priority
          rss flags m c
        ≡ done (err_ok, m1) d)
      × (scheduler_register_process exit_stub entry' priority rss flags m1 d ≡ done (err_ok, m2) e)
      × ((m2.sched.process_table m.sched.active_process_count).stack_memory_block
          ≡ (m2.sched.process_table (m.sched.active_process_count + 1)).stack_memory_block)
scheduler_register_process_same_stack exit_stub entry entry' priority rss flags m c u slot task room
      there =
    let pid = m.sched.global_process_identifier_seed in
    let stack = region_address c in
    let (d, first, v, same, mark, left, tasks, node) =
      scheduler_register_process_ok exit_stub entry priority rss flags m c u (omega arith)
        (omega arith) (omega arith) there in
    let m1 = admit exit_stub entry priority rss flags pid stack (take_pid m) in
    let pid1 = m1.sched.global_process_identifier_seed in
    let count : m1.sched.active_process_count ≡ m.sched.active_process_count + 1 =
      omega (arith, admit_count exit_stub entry priority rss flags pid stack m) in
    let again : region_address d ≡ region_address c =
      ap (λ n. add32 0x1000_0000 (mul32 n page_size)) same in
    let (e, second, w, same', mark', left', tasks', node') =
      scheduler_register_process_ok exit_stub entry' priority rss flags m1 d v (omega arith)
        (omega arith) (omega arith) (rw again there) in
    let stack1 = region_address d in
    let old : m.sched.active_process_count ≢ m1.sched.active_process_count = omega arith in
    (
      m1,
      admit exit_stub entry' priority rss flags pid1 stack1 (take_pid m1),
      d,
      e,
      first,
      second,
      ap (λ (p : ProcessControlBlock). p.stack_memory_block)
            (admit_others exit_stub entry' priority rss flags pid1 stack1 m1
              m.sched.active_process_count old)
          ∙ admit_stack exit_stub entry priority rss flags pid stack m
          ∙ sym again
          ∙ sym (admit_stack exit_stub entry' priority rss flags pid1 stack1 m1)
          ∙ ap
              (λ n.
                ((admit exit_stub entry' priority rss flags pid1 stack1
                    (take_pid m1)).sched.process_table
                  n).stack_memory_block)
              count,
    )
