-- ===== src/Scheduler/Delivery.antt =====
-- From `msgsend` to `msgrecv` of i386/whitex/sys_tools.h: a text reaches the process with the number typed.
use whitex_kernel.Prelude.{
  ℕ, zero, suc, ◌+◌, ◌/◌, ◌%◌, ◌≤◌, ◌<◌, ◌≡◌, ◌≢◌, refl, Bool, true, false, some, List, [], ◌∷◌,
  ◌++◌, ltb, ◌==◌, if◌then◌else◌, length, arith, Bool-cases, inl, inr, ap, sym, ◌∙◌, ==_iff, min,
}
use mathlib.Core.Bool.{true≢false}
use mathlib.Core.Option.{some-injective}
use whitex_kernel.Prelude.Words.{u32}
use whitex_kernel.Prelude.Ring.{window}
use whitex_kernel.Kernel.Shell.{split_word}
use whitex_kernel.Scheduler.{
  SchedulerState, IpcMessage, running_pcb, sched_ipc_max_messages, err_ok,
}
use whitex_kernel.Scheduler.Channel.{Received, scheduler_ipc_send, scheduler_ipc_receive}
use whitex_kernel.Scheduler.Queue.{
  IsChannel, channel, contents, scheduler_ipc_send_ok, scheduler_ipc_receive_ok,
}
use whitex_kernel.Scheduler.Process.{find_process, live}
use whitex_kernel.Scheduler.Number.{
  digit_count, write_digits, scheduler_integer_to_string, parse_integer,
  parse_integer-scheduler_integer_to_string,
}
use whitex_kernel.Scheduler.Messages.{
  byte_at, skip_space, SendAnswer, usage, sent, failed, send_text, cmd_msgsend, cmd_msgrecv,
}

-- a text without a space
data Word : List ℕ → Type 0 where
  end : Word []
  more : {c : ℕ} {s : List ℕ} → (c == 32) ≡ false → Word s → Word (c ∷ s)

split_word-Word :
    (n : ℕ) (word text : List ℕ)
    → Word word
    → length word ≤ n
    → split_word (suc n) (word ++ (32 ∷ text)) ≡ (word, 32 ∷ text)
unfolding split_word
split_word-Word n [] text w le = refl
split_word-Word zero (c ∷ word) text w le = absurd (omega (arith, le))
split_word-Word (suc n) (c ∷ word) text (more plain w) le =
    rw (plain, split_word)
      (ap (λ (p : List ℕ × List ℕ). (c ∷ p.0, p.1))
        (split_word-Word n word text w (omega (arith, le))))

write_digits-Word : (k v : ℕ) (s : List ℕ) → Word s → Word (write_digits k v s)
unfolding write_digits
write_digits-Word zero v s w = w
write_digits-Word (suc k) v s w =
    write_digits-Word k (v / 10) ((v % 10 + 48) ∷ s) (more (ground arith) w)

length-write_digits : (k v : ℕ) (s : List ℕ) → length (write_digits k v s) ≡ k + length s
unfolding write_digits
length-write_digits zero v s = omega arith
length-write_digits (suc k) v s = omega (arith, length-write_digits k (v / 10) ((v % 10 + 48) ∷ s))

digit_count-short : (f v : ℕ) → digit_count f v ≤ f
unfolding digit_count
digit_count-short zero v = omega arith
digit_count-short (suc f) v = ground (arith, digit_count-short f (v / 10))

digit_count_some : (f v : ℕ) → (v == 0) ≡ false → digit_count (suc f) v ≢ 0
unfolding digit_count
digit_count_some f v something = λ e. omega (arith, rw (something, digit_count) at e)

scheduler_integer_to_string-Word :
    (v : ℕ)
    → Word (scheduler_integer_to_string v)
      × (length (scheduler_integer_to_string v) ≤ 10)
      × (length (scheduler_integer_to_string v) ≢ 0)
unfolding scheduler_integer_to_string
scheduler_integer_to_string-Word v = elim (Bool-cases (v == 0)) [
  | inl nothing ↦ rw nothing (more refl end, omega arith, λ e. omega (arith, e))
  | inr something ↦ rw something (
    write_digits-Word (digit_count 10 v) v [] end,
    omega (arith, length-write_digits (digit_count 10 v) v [], digit_count-short 10 v),
    λ e.
        omega
          (arith, e, length-write_digits (digit_count 10 v) v [], digit_count_some 9 v something),
  )
]

parts :
    (word rest : List ℕ) (s : SchedulerState)
    → split_word 15 (word ++ rest) ≡ (word, rest)
    → length word ≢ 0
    → cmd_msgsend (word ++ rest) s ≡ send_text (parse_integer word) (skip_space rest) s
unfolding cmd_msgsend
parts [] rest s e filled = absurd (filled refl)
parts (c ∷ word) rest s e filled =
    ap (λ (p : List ℕ × List ℕ). send_text (parse_integer p.0) (skip_space p.1) s) e

-- `msgsend` with the number of a process as `ps` prints it, a space and a text sends that process the text
-- with its NUL.
pub cmd_msgsend-scheduler_integer_to_string :
    (pid : ℕ) (text : List ℕ) (s : SchedulerState)
    → pid < u32
    → cmd_msgsend (scheduler_integer_to_string pid ++ (32 ∷ text)) s ≡ send_text pid text s
cmd_msgsend-scheduler_integer_to_string pid text s lt =
    let (w, short, filled) = scheduler_integer_to_string-Word pid in
    parts (scheduler_integer_to_string pid) (32 ∷ text) s
      (split_word-Word 14 (scheduler_integer_to_string pid) text w (omega (arith, short))) filled
    ∙ ap (λ p. send_text p text s) (parse_integer-scheduler_integer_to_string pid lt)

abbrev is_sent : SendAnswer → Bool
is_sent sent = true
is_sent failed = false
is_sent usage = false

sent_ok :
    (pid : ℕ) (text : List ℕ) (s : SchedulerState)
    → (send_text pid text s).1 ≡ sent
    → ((scheduler_ipc_send pid (byte_at text) (length text + 1) 1 s).1 ≡ err_ok)
      × ((send_text pid text s).0 ≡ (scheduler_ipc_send pid (byte_at text) (length text + 1) 1 s).0)
unfolding send_text
sent_ok pid text s e =
    let status = (scheduler_ipc_send pid (byte_at text) (length text + 1) 1 s).1 in
    elim (Bool-cases (status == err_ok)) [
      | inl fine ↦ ((==_iff status err_ok).0 fine, rw (fine, send_text) refl)
      | inr wrong ↦ absurd (true≢false (sym (ap is_sent (rw (wrong, send_text) at e))))
    ]

abbrev head_or : IpcMessage → List IpcMessage → IpcMessage
head_or m [] = m
head_or m (x ∷ xs) = x

-- a receive from a channel that holds one message gives that message
receive_one :
    (i : ℕ) (m : IpcMessage) (stack : ℕ → ℕ) (others : List (SchedulerState → SchedulerState))
    (t : SchedulerState)
    → IsChannel (channel t i)
    → contents (channel t i) ≡ m ∷ []
    → (u : SchedulerState) × (got : Received) × (scheduler_ipc_receive others i stack 127 t
        ≡ some (u, got))
      × (got.sender_id ≡ m.sender_id)
      × (got.copy_length ≡ min m.length 127)
      × ((k : ℕ) → got.buffer k ≡ (if ltb k got.copy_length then m.bytes k else stack k))
receive_one i m stack others t v one =
    let filled : (channel t i).count ≢ 0 = λ e. omega (
      arith,
      ap length one,
      ap (λ n. length (window sched_ipc_max_messages (channel t i).queue (channel t i).head n)) e,
    ) in
    let (u, got, m', came, split, good, kept, sender, type, size, bytes) =
      scheduler_ipc_receive_ok others i 127 stack t v filled in
    let same : m' ≡ m = ap (head_or m) (sym split ∙ one) in
    (
      u,
      got,
      came,
      sender ∙ ap (λ (x : IpcMessage). x.sender_id) same,
      size ∙ ap (λ (x : IpcMessage). min x.length 127) same,
      λ k.
          bytes k
          ∙ ap (λ (x : IpcMessage). if ltb k got.copy_length then x.bytes k else stack k) same,
    )

-- A text that `msgsend` sent to a process with no other message waiting is what `msgrecv` prints in that
-- process, its NUL included, with the number of the sender, when it has at most 126 bytes and no process
-- ran in between.
pub cmd_msgrecv-cmd_msgsend :
    (pid i : ℕ) (text : List ℕ) (stack : ℕ → ℕ) (others : List (SchedulerState → SchedulerState))
    (s : SchedulerState)
    → pid < u32
    → length text ≤ 126
    → ((j : ℕ) → IsChannel (channel s j))
    → (channel s i).count ≡ 0
    → find_process (live pid) s ≡ some i
    → (cmd_msgsend (scheduler_integer_to_string pid ++ (32 ∷ text)) s).1 ≡ sent
    → (u : SchedulerState) × (buffer : ℕ → ℕ) × (cmd_msgrecv others i stack
          (cmd_msgsend (scheduler_integer_to_string pid ++ (32 ∷ text)) s).0
        ≡ some (u, some (scheduler_integer_to_string (running_pcb s).task_id, buffer)))
      × ((k : ℕ) → k < length text + 1 → buffer k ≡ byte_at text k)
unfolding cmd_msgrecv
cmd_msgrecv-cmd_msgsend pid i text stack others s lt short v empty at answer =
    let whole = cmd_msgsend-scheduler_integer_to_string pid text s lt in
    let (ok, result) =
      sent_ok pid text s (ap (λ (p : SchedulerState × SendAnswer). p.1) (sym whole) ∙ answer) in
    let state = ap (λ (p : SchedulerState × SendAnswer). p.0) whole ∙ result in
    let (i', m, found, sender, size, type, bytes, fits, appended, good, kept) =
      scheduler_ipc_send_ok pid (length text + 1) 1 (byte_at text) s v ok in
    let t = (scheduler_ipc_send pid (byte_at text) (length text + 1) 1 s).0 in
    let same : i' ≡ i = some-injective i' i (sym found ∙ at) in
    let one : contents (channel t i) ≡ m ∷ [] =
      ap (λ j. contents (channel t j)) (sym same)
      ∙ appended
      ∙ ap (λ j. contents (channel s j) ++ (m ∷ [])) same
      ∙ ap (λ n. window sched_ipc_max_messages (channel s i).queue (channel s i).head n ++ (m ∷ []))
          empty in
    let (u, got, came, from, length_got, copy) = receive_one i m stack others t (good i) one in
    let copied : got.copy_length ≡ length text + 1 = omega (arith, length_got, size, short) in
    let some_bytes : ltb 0 got.copy_length ≡ true = ground (arith, copied) in
    (
      u,
      got.buffer,
      ap (cmd_msgrecv others i stack) state ∙ rw (came, cmd_msgrecv, some_bytes, from, sender) refl,
      λ k below.
          let within : ltb k got.copy_length ≡ true = ground (arith, copied, below) in
          copy k ∙ rw within (bytes k below),
    )
