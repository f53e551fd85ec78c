-- ===== src/Scheduler/Queue.antt =====
-- The channels of i386/whitex/multitasking.h as bounded queues of messages.
use whitex_kernel.Prelude.{
  ℕ, suc, ◌+◌, ◌-◌, ◌%◌, ◌≤◌, ◌<◌, ◌≡◌, ◌≢◌, refl, false, some, List, [], ◌∷◌, ◌++◌, ltb, leb, ◌==◌,
  if◌then◌else◌, length, arith, Bool-cases, Option-cases, inl, inr, ap, sym, min, ◌∙◌,
}
use whitex_kernel.Prelude.Words.{add32, sub32}
use whitex_kernel.Prelude.Ring.{window, window_push, window_pop}
use whitex_kernel.Scheduler.{
  SchedulerState, ProcessControlBlock, IpcMessage, IpcChannel, set_pcb, running_pcb, zero_channel,
  sched_ipc_max_messages, sched_ipc_msg_size, err_ok,
}
use whitex_kernel.Scheduler.Process.{find_process, live}
use whitex_kernel.Scheduler.Channel.{
  written, enqueue, dequeue, unblock, scheduler_ipc_send, Received, take_message,
  scheduler_ipc_receive,
}

-- the messages waiting in a channel, oldest first
abbrev pub contents : IpcChannel → List IpcMessage
contents ch = window sched_ipc_max_messages ch.queue ch.head ch.count

pub record IsChannel (ch : IpcChannel) : Type 0 where
  pub head_in : ch.head < sched_ipc_max_messages
  pub count_in : ch.count ≤ sched_ipc_max_messages
  pub tail_at : ch.tail ≡ (ch.head + ch.count) % sched_ipc_max_messages

pub zero_channel-IsChannel : IsChannel zero_channel
zero_channel-IsChannel = omega arith

-- A send to a channel that is not full keeps the channel well formed and appends the message.
pub enqueue_lem :
    (m : IpcMessage) (ch : IpcChannel)
    → IsChannel ch
    → ch.count < sched_ipc_max_messages
    → IsChannel (enqueue m ch) × (contents (enqueue m ch) ≡ contents ch ++ (m ∷ []))
unfolding enqueue
enqueue_lem m ch v room =
    let more : add32 ch.count 1 ≡ suc ch.count = omega (arith, v.count_in) in
    (
      omega (arith, v.head_in, v.count_in, v.tail_at),
      rw more (
          window_push m sched_ipc_max_messages ch.queue ch.count ch.head ch.tail v.head_in room
            v.tail_at),
    )

-- A receive from a channel that is not empty keeps it well formed, takes the oldest message and
-- leaves the others in order.
pub dequeue_lem :
    (ch : IpcChannel)
    → IsChannel ch
    → ch.count ≢ 0
    → IsChannel (dequeue ch) × (contents ch ≡ ch.queue ch.head ∷ contents (dequeue ch))
unfolding dequeue
dequeue_lem ch v some_message =
    let less : sub32 ch.count 1 ≡ ch.count - 1 = omega (arith, v.count_in) in
    let next : add32 ch.head 1 ≡ ch.head + 1 = omega (arith, v.head_in) in
    (
      omega (arith, v.head_in, v.count_in, v.tail_at),
      rw (less, next) (window_pop sched_ipc_max_messages ch.queue ch.head ch.count some_message),
    )

-- the channel of the process at `i`
abbrev pub channel : SchedulerState → ℕ → IpcChannel
channel s i = (s.process_table i).communication_channel

unblock_channel :
    (p : ProcessControlBlock) → (unblock p).communication_channel ≡ p.communication_channel
unfolding unblock
unblock_channel p = ground arith

-- the state after the message `m` was put into the channel of the process at `i`
abbrev pub delivered : ℕ → IpcMessage → SchedulerState → SchedulerState
delivered i m s =
    set_pcb i
      (unblock (record (s.process_table i) { communication_channel = enqueue m (channel s i) })) s

channel-delivered :
    (i j : ℕ) (m : IpcMessage) (s : SchedulerState)
    → channel (delivered i m s) j ≡ (if j == i then enqueue m (channel s i) else channel s j)
channel-delivered i j m s = ground (
  arith,
  unblock_channel (record (s.process_table i) { communication_channel = enqueue m (channel s i) }),
)

-- the three refusals of a send, and what it does otherwise
send_cases :
    (pid length type : ℕ) (message_ptr : ℕ → ℕ) (s : SchedulerState)
    → (scheduler_ipc_send pid message_ptr length type s).1 ≡ err_ok
    → (i : ℕ) × (length ≤ sched_ipc_msg_size)
      × (find_process (live pid) s ≡ some i)
      × ((channel s i).count < sched_ipc_max_messages)
      × ((scheduler_ipc_send pid message_ptr length type s).0
          ≡ delivered i (written (channel s i) (running_pcb s).task_id message_ptr length type) s)
unfolding scheduler_ipc_send
send_cases pid length type message_ptr s r = elim (Bool-cases (ltb sched_ipc_msg_size length)) [
  | inl long ↦ absurd (ground (arith, long))
  | inr fits ↦ elim (Option-cases (find_process (live pid) s)) [
    | inl nobody ↦ absurd (ground (arith, nobody, fits))
    | inr (i, found) ↦ elim (Bool-cases (leb sched_ipc_max_messages (channel s i).count)) [
      | inl full ↦ absurd (ground (arith, found, full, fits))
      | inr room ↦
          (i, ground arith, found, ground arith, rw (fits, scheduler_ipc_send, found, room))
    ]
  ]
]

here :
    (i : ℕ) (m : IpcMessage) (s : SchedulerState)
    → contents (enqueue m (channel s i)) ≡ contents (channel s i) ++ (m ∷ [])
    → contents (channel (delivered i m s) i) ≡ contents (channel s i) ++ (m ∷ [])
here i m s e =
    let at : channel (delivered i m s) i ≡ enqueue m (channel s i) =
      ground (arith, channel-delivered i i m s) in
    ap contents at ∙ e

others-IsChannel :
    (i j : ℕ) (m : IpcMessage) (s : SchedulerState)
    → ((j : ℕ) → IsChannel (channel s j))
    → IsChannel (enqueue m (channel s i))
    → IsChannel (channel (delivered i m s) j)
others-IsChannel i j m s v good = elim (Bool-cases (j == i)) [
  | inl same ↦ rw (channel-delivered i j m s, same) good
  | inr apart ↦ rw (channel-delivered i j m s, apart) (v j)
]

-- A send that returns ERR_OK has put one message, from the running process and with the first
-- `length` bytes of the buffer, behind those of the first live process with that number, whose
-- channel stays well formed and in bounds; the channels of the others are as they were.
pub scheduler_ipc_send_ok :
    (pid length type : ℕ) (message_ptr : ℕ → ℕ) (s : SchedulerState)
    → ((i : ℕ) → IsChannel (channel s i))
    → (scheduler_ipc_send pid message_ptr length type s).1 ≡ err_ok
    → (i : ℕ) × (m : IpcMessage) × (find_process (live pid) s ≡ some i)
      × (m.sender_id ≡ (running_pcb s).task_id)
      × (m.length ≡ length)
      × (m.type ≡ type)
      × ((k : ℕ) → k < length → m.bytes k ≡ message_ptr k)
      × (length ≤ sched_ipc_msg_size)
      × (contents (channel (scheduler_ipc_send pid message_ptr length type s).0 i)
          ≡ contents (channel s i) ++ (m ∷ []))
      × ((j : ℕ) → IsChannel (channel (scheduler_ipc_send pid message_ptr length type s).0 j))
      × ((j : ℕ)
          → j ≢ i
          → channel (scheduler_ipc_send pid message_ptr length type s).0 j ≡ channel s j)
scheduler_ipc_send_ok pid length type message_ptr s v r =
    let (i, fits, found, room, result) = send_cases pid length type message_ptr s r in
    let m = written (channel s i) (running_pcb s).task_id message_ptr length type in
    let (good, appended) = enqueue_lem m (channel s i) (v i) room in
    rw result (
      i,
      m,
      found,
      refl,
      refl,
      refl,
      (λ k lt. ground arith),
      fits,
      here i m s appended,
      (λ j. others-IsChannel i j m s v good),
      (λ j ne. ground (arith, channel-delivered i j m s)),
    )

-- the state after the process at `current` took its oldest message
abbrev pub relieved : ℕ → SchedulerState → SchedulerState
relieved current s =
    set_pcb current
      (record (s.process_table current) { communication_channel = dequeue (channel s current) }) s

receive_now :
    (others : List (SchedulerState → SchedulerState)) (current max_length : ℕ) (buffer_ptr : ℕ → ℕ)
    (s : SchedulerState)
    → ((channel s current).count == 0) ≡ false
    → scheduler_ipc_receive others current buffer_ptr max_length s
      ≡ some (relieved current s, (take_message buffer_ptr max_length (channel s current)).1)
unfolding scheduler_ipc_receive
receive_now [] current max_length buffer_ptr s e = rw (e, scheduler_ipc_receive)
receive_now (o ∷ later) current max_length buffer_ptr s e = rw (e, scheduler_ipc_receive)

-- When a message waits, a receive returns at once with the oldest one: its sender, its type, and
-- its bytes cut at `max_length`, beyond which the buffer is as it was. The other messages of
-- the channel stay, in order, and no other channel changes.
pub scheduler_ipc_receive_ok :
    (others : List (SchedulerState → SchedulerState)) (current max_length : ℕ) (buffer_ptr : ℕ → ℕ)
    (s : SchedulerState)
    → IsChannel (channel s current)
    → (channel s current).count ≢ 0
    → (t : SchedulerState) × (got : Received) × (m : IpcMessage) × (scheduler_ipc_receive others
          current buffer_ptr max_length s
        ≡ some (t, got))
      × (contents (channel s current) ≡ m ∷ contents (channel t current))
      × IsChannel (channel t current)
      × ((j : ℕ) → j ≢ current → channel t j ≡ channel s j)
      × (got.sender_id ≡ m.sender_id)
      × (got.type ≡ m.type)
      × (got.copy_length ≡ min m.length max_length)
      × ((k : ℕ) → got.buffer k ≡ (if ltb k got.copy_length then m.bytes k else buffer_ptr k))
unfolding take_message
scheduler_ipc_receive_ok others current max_length buffer_ptr s v some_message =
    let (good, split) = dequeue_lem (channel s current) v some_message in
    let at : channel (relieved current s) current ≡ dequeue (channel s current) = ground arith in
    (
      relieved current s,
      (take_message buffer_ptr max_length (channel s current)).1,
      (channel s current).queue (channel s current).head,
      receive_now others current max_length buffer_ptr s (ground arith),
      split ∙ ap (λ ch. (channel s current).queue (channel s current).head ∷ contents ch) (sym at),
      rw at good,
      (λ j ne. ground arith),
      refl,
      refl,
      ground arith,
      (λ k. refl),
    )
