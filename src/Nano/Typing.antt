-- ===== src/Nano/Typing.antt =====
-- What typing and the directives of i386/whitex/nano.h do to the document.
use whitex_kernel.Prelude.{
  length, ltb, false, if_both, ℕ, zero, suc, ◌+◌, ◌-◌, ◌≤◌, ◌<◌, ◌≡◌, refl, true, false, List, [],
  ◌∷◌, ◌++◌, ltb, leb, ◌==◌, if◌then◌else◌, take, arith, Bool-cases, inl, inr, sym, ap, ◌∙◌,
}
use mathlib.Core.List.{append-nil, append_assoc}
use whitex_kernel.Kernel.Shell.{codes}
use whitex_kernel.Nano.{
  NanoContext, nano_max_total_lines, nano_set_status_message, open_line,
  nano_insert_character_at_cursor, nano_process_raw_input_stream, nano_context_hard_reset,
  nano_subsystem_execute_clear, Directive, return, abort, clear, stats, save, unrecognized,
  directive, obey, leaves, Round, nano_subsystem_terminal_dispatcher, nano_sys_strcmp, edit,
  run_editor, execute_nano_terminal_simulator,
}
use whitex_kernel.Nano.Text.{
  IsNano, text, text_length, text_capacity, Appends, put-Appends, open-IsNano, open_length,
  open_text,
}

open_short : (n : NanoContext) → (open_line n).global_cursor_x < 254
unfolding open_line
open_short n = omega arith

insert-Appends :
    (c : ℕ) (n : NanoContext)
    → IsNano n
    → text_length n < text_capacity
    → Appends c n (nano_insert_character_at_cursor c n)
unfolding nano_insert_character_at_cursor
insert-Appends c n good room =
    let y = n.global_cursor_y in
    let inside : leb 1024 y ≡ false = ground (arith, good.few) in
    elim (Bool-cases (leb 254 (n.lines y).occupied_length)) [
      | inl full ↦
          let at : n.global_cursor_x ≡ 254 = ground (arith, full, good.at_end, good.short) in
          let more : y + 1 < nano_max_total_lines = omega (arith, room, at) in
          let some_left : ltb n.active_line_count 1024 ≡ true =
            ground (arith, more, good.line_count) in
          let added = put-Appends c (open_line n) (open-IsNano n good more) (open_short n) in
          rw (inside, full, some_left)
            (record {
              good = added.good;
              text_is = added.text_is ∙ ap (λ l. l ++ (c ∷ [])) (open_text n at more);
              length_is = added.length_is ∙ ap (λ k. k + 1) (open_length n at more);
            })
      | inr short ↦
          let at : n.global_cursor_x < 254 = ground (arith, short, good.at_end) in
          rw (inside, short) (put-Appends c n good at)
    ]

with_status-IsNano :
    (m : List ℕ) (n : NanoContext) → IsNano n → IsNano (nano_set_status_message m n)
with_status-IsNano m n good = record {
  line_count = good.line_count;
  few = good.few;
  at_end = good.at_end;
  short = good.short;
  behind = good.behind;
}

-- a full document, to which typing adds nothing
pub record Unchanged (n n' : NanoContext) : Type 0 where
  pub good : IsNano n'
  pub text_is : text n' ≡ text n
  pub length_is : text_length n' ≡ text_length n

insert-Unchanged :
    (c : ℕ) (n : NanoContext)
    → IsNano n
    → text_capacity ≤ text_length n
    → Unchanged n (nano_insert_character_at_cursor c n)
unfolding nano_insert_character_at_cursor
insert-Unchanged c n good none =
    let y = n.global_cursor_y in
    let inside : leb 1024 y ≡ false = ground (arith, good.few) in
    let x_is : n.global_cursor_x ≡ 254 = omega (arith, none, good.few, good.short) in
    let y_is : y ≡ 1023 = omega (arith, none, good.few, good.short) in
    let full : leb 254 (n.lines y).occupied_length ≡ true = ground (arith, x_is, good.at_end) in
    let no_line : ltb n.active_line_count 1024 ≡ false = ground (arith, y_is, good.line_count) in
    rw (inside, full, no_line)
      (record { good = with_status-IsNano _ n good; text_is = refl; length_is = refl })

append-take : (xs : List ℕ) (k : ℕ) → xs ++ take k [] ≡ xs
append-take xs zero = append-nil xs
append-take xs (suc k) = append-nil xs

-- Typing appends to the document what fits: of the bytes typed, as many as the lines still have room
-- for, in their order, and nothing else changes in it.
pub text-nano_process_raw_input_stream :
    (cs : List ℕ) (n : NanoContext)
    → IsNano n
    → text (nano_process_raw_input_stream cs n) ≡ text n ++ take (text_capacity - text_length n) cs
unfolding nano_process_raw_input_stream
text-nano_process_raw_input_stream [] n good =
    sym (append-take (text n) (text_capacity - text_length n))
text-nano_process_raw_input_stream (c ∷ cs) n good =
    let n' = nano_insert_character_at_cursor c n in
    elim (Bool-cases (ltb (text_length n) text_capacity)) [
      | inl room ↦
          let lt : text_length n < text_capacity = ground (arith, room) in
          let added = insert-Appends c n good lt in
          let left : text_capacity - text_length n ≡ suc (text_capacity - text_length n') =
            omega (arith, lt, added.length_is) in
          text-nano_process_raw_input_stream cs n' added.good
          ∙ ap (λ l. l ++ take (text_capacity - text_length n') cs) added.text_is
          ∙ append_assoc (text n) (c ∷ []) (take (text_capacity - text_length n') cs)
          ∙ ap (λ k. text n ++ take k (c ∷ cs)) (sym left)
      | inr over ↦
          let ge : text_capacity ≤ text_length n = ground (arith, over) in
          let same = insert-Unchanged c n good ge in
          let none : text_capacity - text_length n ≡ 0 = omega (arith, ge) in
          text-nano_process_raw_input_stream cs n' same.good
          ∙ ap (λ l. l ++ take (text_capacity - text_length n') cs) same.text_is
          ∙ ap (λ k. text n ++ take (text_capacity - k) cs) same.length_is
          ∙ ap (λ k. text n ++ take k cs) none
          ∙ ap (λ k. text n ++ take k (c ∷ cs)) (sym none)
    ]

-- The editor is where a new document starts.
pub fresh-IsNano : IsNano nano_context_hard_reset
unfolding nano_context_hard_reset
fresh-IsNano = record {
  line_count = refl;
  few = omega arith;
  at_end = refl;
  short = omega arith;
  behind = λ j gt. refl;
}

process-IsNano :
    (cs : List ℕ) (n : NanoContext) → IsNano n → IsNano (nano_process_raw_input_stream cs n)
unfolding nano_process_raw_input_stream
process-IsNano [] n good = good
process-IsNano (c ∷ cs) n good =
    process-IsNano cs (nano_insert_character_at_cursor c n)
      (elim (Bool-cases (ltb (text_length n) text_capacity)) [
        | inl room ↦ (insert-Appends c n good (ground (arith, room))).good
        | inr over ↦ (insert-Unchanged c n good (ground (arith, over))).good
      ])

stop-IsNano : (n : NanoContext) → IsNano n → IsNano (record n { editor_running_state = 0 })
stop-IsNano n good = record {
  line_count = good.line_count;
  few = good.few;
  at_end = good.at_end;
  short = good.short;
  behind = good.behind;
}

clear-IsNano : (n : NanoContext) → IsNano n → IsNano (nano_subsystem_execute_clear n)
unfolding nano_subsystem_execute_clear
clear-IsNano n good = record {
  line_count = refl;
  few = omega arith;
  at_end = refl;
  short = omega arith;
  behind = λ j gt. elim (Bool-cases (ltb j 1024)) [
    | inl inside ↦ rw inside refl
    | inr outside ↦ rw outside (good.behind j (ground (arith, outside, good.few)))
  ];
}

obey-IsNano : (d : Directive) (n : NanoContext) → IsNano n → IsNano (obey d n)
unfolding obey
obey-IsNano return n good = with_status-IsNano _ n good
obey-IsNano abort n good = stop-IsNano n good
obey-IsNano clear n good = clear-IsNano n good
obey-IsNano stats n good = with_status-IsNano _ n good
obey-IsNano save n good = with_status-IsNano _ n good
obey-IsNano unrecognized n good = good

over-IsNano : (n : NanoContext) → IsNano n → IsNano (record n { overrun = true })
over-IsNano n good = record {
  line_count = good.line_count;
  few = good.few;
  at_end = good.at_end;
  short = good.short;
  behind = good.behind;
}

dispatcher-IsNano :
    (ds : List (List ℕ × List ℕ)) (n : NanoContext)
    → IsNano n
    → IsNano (nano_subsystem_terminal_dispatcher ds n)
unfolding nano_subsystem_terminal_dispatcher
dispatcher-IsNano [] n good = good
dispatcher-IsNano ((d, answer) ∷ ds) n good =
    let next = obey (directive d) n in
    let good_next = obey-IsNano (directive d) n good in
    if_both IsNano (leaves (directive d)) next _ good_next (
      if_both IsNano (ltb 9 (length answer)) (record next { overrun = true })
        (nano_subsystem_terminal_dispatcher ds next) (over-IsNano next good_next)
        (dispatcher-IsNano ds next good_next))

edit-IsNano : (r : Round) (n : NanoContext) → IsNano n → IsNano (edit r n)
unfolding edit
edit-IsNano r n good =
    let stopped = record n { editor_running_state = 0 } in
    let commanded = nano_subsystem_terminal_dispatcher r.directives n in
    let typed = nano_process_raw_input_stream r.line n in
    let asks = nano_sys_strcmp r.line (codes "-cmdnanocmd") in
    if_both IsNano (nano_sys_strcmp r.line (codes "exit")) stopped
      (if asks then commanded else typed) (stop-IsNano n good)
      (if_both IsNano asks commanded typed (dispatcher-IsNano r.directives n good)
        (process-IsNano r.line n good))

run_editor-IsNano : (rs : List Round) (n : NanoContext) → IsNano n → IsNano (run_editor rs n)
unfolding run_editor
run_editor-IsNano [] n good = good
run_editor-IsNano (r ∷ rs) n good =
    if_both IsNano (n.editor_running_state == 1) (run_editor rs (edit r n)) n
      (run_editor-IsNano rs (edit r n) (edit-IsNano r n good)) good

-- However the editor is used, its document keeps its form: the cursor stays inside the lines, so that no
-- character is written outside of them, and what is typed next goes to its end, as long as no answer to a
-- prompt has run over its array.
pub execute_nano_terminal_simulator-IsNano :
    (rs : List Round)
    → (execute_nano_terminal_simulator rs).overrun ≡ false
    → IsNano (execute_nano_terminal_simulator rs)
unfolding execute_nano_terminal_simulator
execute_nano_terminal_simulator-IsNano rs fits =
    run_editor-IsNano rs nano_context_hard_reset fresh-IsNano
