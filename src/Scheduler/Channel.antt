-- ===== src/Scheduler/Channel.antt =====
-- The message channels of i386/whitex/multitasking.h: `scheduler_ipc_send` and
-- `scheduler_ipc_receive` against a bounded queue of messages.
use whitex_kernel.Prelude.{
  ℕ, ◌%◌, Option, none, some, List, [], ◌∷◌, ltb, leb, ◌==◌, ◌&&◌, if◌then◌else◌, update, length,
}
use whitex_kernel.Prelude.Words.{add32, sub32}
use whitex_kernel.Oom.{task_state_running}
use whitex_kernel.Scheduler.{
  SchedulerState, ProcessControlBlock, IpcMessage, IpcChannel, set_pcb, running_pcb,
  task_state_blocked, sched_ipc_max_messages, sched_ipc_msg_size, err_ok, err_busy, err_overflow,
  err_io_not_found, scheduler_yield,
}
use whitex_kernel.Scheduler.Process.{find_process, find_from, live}

-- `scheduler_memory_copy`: the first `n` bytes of `dest` become those of `src`
abbrev pub scheduler_memory_copy : (dest src : ℕ → ℕ) → ℕ → ℕ → ℕ
scheduler_memory_copy dest src n i = if ltb i n then src i else dest i

-- the message that the slot at `tail` holds after a send
abbrev pub written : IpcChannel → ℕ → (ℕ → ℕ) → ℕ → ℕ → IpcMessage
written ch sender message_ptr length type = record {
  bytes = scheduler_memory_copy (ch.queue ch.tail).bytes message_ptr length;
  sender_id = sender;
  length = length;
  type = type;
}

-- the update of the channel at the end of `scheduler_ipc_send`
unfoldable pub enqueue : IpcMessage → IpcChannel → IpcChannel
enqueue m ch = record ch {
  queue = update ch.queue ch.tail m;
  tail = add32 ch.tail 1 % sched_ipc_max_messages;
  count = add32 ch.count 1;
}

-- the update of the channel at the end of `scheduler_ipc_receive`
unfoldable pub dequeue : IpcChannel → IpcChannel
dequeue ch = record ch { head = add32 ch.head 1 % sched_ipc_max_messages; count = sub32 ch.count 1 }

-- a receiver that is blocked on any message runs again
unfoldable pub unblock : ProcessControlBlock → ProcessControlBlock
unblock p =
    if (p.execution_state == task_state_blocked) && (p.waiting_on_pid == 0)
    then record p { execution_state = task_state_running }
    else p

unfoldable pub scheduler_ipc_send : ℕ → (ℕ → ℕ) → ℕ → ℕ → SchedulerState → SchedulerState × ℕ
unfolding find_from enqueue unblock
scheduler_ipc_send destination_pid message_ptr length type s =
    if ltb sched_ipc_msg_size length
    then (s, err_overflow)
    else elim (find_process (live destination_pid) s) [
      | none ↦ (s, err_io_not_found)
      | some i ↦
          let dest = s.process_table i in
          let ch = dest.communication_channel in
          if leb sched_ipc_max_messages ch.count then (s, err_busy) else (
            set_pcb i
                (unblock (record dest {
                  communication_channel =
                      enqueue (written ch (running_pcb s).task_id message_ptr length type) ch;
                }))
                s,
            err_ok,
          )
    ]

-- What a receiver gets: the bytes copied, their number, the sender and the type.
pub record Received : Type 0 where
  pub buffer : ℕ → ℕ
  pub copy_length : ℕ
  pub sender_id : ℕ
  pub type : ℕ

-- the part of `scheduler_ipc_receive` behind its waiting loop
unfoldable pub take_message : (buffer_ptr : ℕ → ℕ) → ℕ → IpcChannel → IpcChannel × Received
unfolding dequeue
take_message buffer_ptr max_length ch =
    let msg = ch.queue ch.head in
    let copy_length = if ltb max_length msg.length then max_length else msg.length in
    (
      dequeue ch,
      record {
        buffer = scheduler_memory_copy buffer_ptr msg.bytes copy_length;
        copy_length = copy_length;
        sender_id = msg.sender_id;
        type = msg.type;
      },
    )

-- `scheduler_ipc_receive` of the process at `current`. Each yield hands the processor to others,
-- and what they do until this process runs again is the next element of `others`; `none` means
-- that the list ended while the channel was still empty.
unfoldable pub scheduler_ipc_receive :
    (others : List (SchedulerState → SchedulerState)) (current : ℕ) (buffer_ptr : ℕ → ℕ)
    → ℕ
    → SchedulerState
    → Option (SchedulerState × Received)
unfolding take_message
scheduler_ipc_receive [] current buffer_ptr max_length s =
    if (s.process_table current).communication_channel.count == 0
    then none
    else (let p = s.process_table current in
        let (ch, got) = take_message buffer_ptr max_length p.communication_channel in
        some (set_pcb current (record p { communication_channel = ch }) s, got))
scheduler_ipc_receive (others ∷ later) current buffer_ptr max_length s =
    let blocked =
      set_pcb current
        (record (s.process_table current) {
          execution_state = task_state_blocked;
          waiting_on_pid = 0;
        })
        s in
    let rest =
      scheduler_ipc_receive later current buffer_ptr max_length
        (others (scheduler_yield blocked)) in
    if (s.process_table current).communication_channel.count == 0
    then rest
    else (let p = s.process_table current in
        let (ch, got) = take_message buffer_ptr max_length p.communication_channel in
        some (set_pcb current (record p { communication_channel = ch }) s, got))
