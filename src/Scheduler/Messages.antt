-- ===== src/Scheduler/Messages.antt =====
-- The commands `msgsend`, `msgrecv` and `top` of i386/whitex/sys_tools.h.
use whitex_kernel.Prelude.{
  ℕ, zero, suc, ◌+◌, Option, none, some, List, [], ◌∷◌, ltb, ◌==◌, if◌then◌else◌, length, get_elem?,
}
use whitex_kernel.Kernel.Shell.{split_word}
use whitex_kernel.Oom.{task_state_running, task_state_dead}
use whitex_kernel.Scheduler.{
  SchedulerState, ProcessControlBlock, err_ok, task_state_blocked, task_state_stopped,
}
use whitex_kernel.Scheduler.Channel.{scheduler_ipc_send, scheduler_ipc_receive}
use whitex_kernel.Scheduler.Number.{scheduler_integer_to_string, parse_integer}

-- the byte of a text at a place, with its NUL behind it
abbrev pub byte_at : List ℕ → ℕ → ℕ
byte_at s i = elim (get_elem? s i) [ some c ↦ c | none ↦ 0 ]

-- one space is skipped
abbrev pub skip_space : List ℕ → List ℕ
skip_space [] = []
skip_space (c ∷ rest) = if c == 32 then rest else c ∷ rest

-- the messages of the command
pub data SendAnswer : Type 0 where
  usage sent failed : SendAnswer

unfoldable pub send_text :
    (dest_pid : ℕ) (message : List ℕ) → SchedulerState → SchedulerState × SendAnswer
send_text dest_pid message s =
    let (t, status) = scheduler_ipc_send dest_pid (byte_at message) (length message + 1) 1 s in
    if status == err_ok then (t, sent) else (t, failed)

-- The number has at most 15 bytes, up to the first space.
unfoldable pub cmd_msgsend : (args : List ℕ) → SchedulerState → SchedulerState × SendAnswer
cmd_msgsend [] s = (s, usage)
cmd_msgsend (c ∷ args) s =
    let (pid_str, rest) = split_word 15 (c ∷ args) in
    send_text (parse_integer pid_str) (skip_space rest) s

-- What `msgrecv` prints: the sender, and the buffer up to its first NUL; `stack` is what the buffer held
-- before. The inner `none` is the message of an error.
unfoldable pub cmd_msgrecv :
    (others : List (SchedulerState → SchedulerState)) (current : ℕ) (stack : ℕ → ℕ)
    → SchedulerState
    → Option (SchedulerState × Option (List ℕ × (ℕ → ℕ)))
cmd_msgrecv others current stack s = elim (scheduler_ipc_receive others current stack 127 s) [
  | none ↦ none
  | some (t, got) ↦ some (
    t,
    if ltb 0 got.copy_length
        then some (scheduler_integer_to_string got.sender_id, got.buffer)
        else none,
  )
]

-- the word that `top` prints for a state
pub data StateWord : Type 0 where
  running blocked stopped sleeping : StateWord

unfoldable pub state_word : ℕ → StateWord
state_word state =
    if state == task_state_running
    then running
    else if state == task_state_blocked
    then blocked
    else if state == task_state_stopped
    then stopped
    else sleeping

-- a line of `top`
pub record TopLine : Type 0 where
  pub pid : List ℕ
  pub ppid : List ℕ
  pub state : StateWord
  pub pages : List ℕ
  pub priority : List ℕ
  pub switches : List ℕ

unfoldable pub top_line : ProcessControlBlock → TopLine
top_line p = record {
  pid = scheduler_integer_to_string p.task_id;
  ppid = scheduler_integer_to_string p.parent_id;
  state = state_word p.execution_state;
  pages = scheduler_integer_to_string p.memory_footprint_pages;
  priority = scheduler_integer_to_string p.base_priority;
  switches = scheduler_integer_to_string p.metrics.context_switches;
}

-- the loop over the table from `i` on; a dead process is left out
unfoldable pub top_from : (rounds i : ℕ) → SchedulerState → List TopLine
top_from zero i s = []
top_from (suc k) i s =
    let rest = top_from k (i + 1) s in
    if (s.process_table i).execution_state == task_state_dead
    then rest
    else top_line (s.process_table i) ∷ rest

unfoldable pub cmd_top : SchedulerState → List TopLine
cmd_top s = top_from s.active_process_count 0 s
