-- ===== src/Nano.antt =====
-- The editor of i386/whitex/nano.h. What the user types is the input, one line after the other; the
-- screens are not modelled.
pub mod Text
pub mod Typing
pub mod Tests
use whitex_kernel.Prelude.{
  ℕ, zero, suc, ◌+◌, ◌-◌, ◌==◌, Bool, true, false, List, [], ◌∷◌, ltb, leb, ◌&&◌, if◌then◌else◌,
  update, length,
}
use whitex_kernel.Prelude.Words.{add32}
use whitex_kernel.Kernel.Shell.{codes}

abbrev pub nano_max_line_length : ℕ
nano_max_line_length = 256

abbrev pub nano_max_total_lines : ℕ
nano_max_total_lines = 1024

-- `nano_text_line_t`, but for its index, which no code reads
pub record NanoTextLine : Type 0 where
  pub character_data : ℕ → ℕ
  pub occupied_length : ℕ

-- `nano_global_context_t`; the status message is its text. With `overrun` an answer typed to a prompt ran over
-- its ten bytes on the stack; what the program does from there on is not described.
pub record NanoContext : Type 0 where
  pub lines : ℕ → NanoTextLine
  pub active_line_count : ℕ
  pub global_cursor_x : ℕ
  pub global_cursor_y : ℕ
  pub viewport_offset_y : ℕ
  pub document_modified_flag : ℕ
  pub editor_running_state : ℕ
  pub status_message : List ℕ
  pub overrun : Bool

abbrev pub empty_line : NanoTextLine
empty_line = record { character_data = λ i. 0; occupied_length = 0 }

-- `nano_context_hard_reset`, which sets every field
unfoldable pub nano_context_hard_reset : NanoContext
nano_context_hard_reset = record {
  lines = λ i. empty_line;
  active_line_count = 1;
  global_cursor_x = 0;
  global_cursor_y = 0;
  viewport_offset_y = 0;
  document_modified_flag = 0;
  editor_running_state = 1;
  status_message = codes "System Initialized. Awaiting Input.";
  overrun = false;
}

abbrev pub nano_set_status_message : List ℕ → NanoContext → NanoContext
nano_set_status_message message n = record n { status_message = message }

-- the loop that makes room for a character: `rounds` bytes move up, from index `i` downwards
unfoldable pub move_up : (rounds i : ℕ) → (ℕ → ℕ) → ℕ → ℕ
move_up zero i d = d
move_up (suc k) i d = move_up k (i - 1) (update d i (d (i - 1)))

-- the line with a character put at `x_pos`
unfoldable pub put_in_line : (x_pos input_char : ℕ) → NanoTextLine → NanoTextLine
unfolding move_up
put_in_line x_pos input_char l =
    let moved = move_up (l.occupied_length - x_pos) l.occupied_length l.character_data in
    let occupied = add32 l.occupied_length 1 in
    record {
      character_data = update (update moved x_pos input_char) occupied 0;
      occupied_length = occupied;
    }

-- the cursor moves to a new line
unfoldable pub open_line : NanoContext → NanoContext
open_line n = record n {
  global_cursor_y = add32 n.global_cursor_y 1;
  global_cursor_x = 0;
  active_line_count = add32 n.active_line_count 1;
}

unfoldable pub put_at_cursor : ℕ → NanoContext → NanoContext
put_at_cursor input_char n = record n {
  lines =
      update n.lines n.global_cursor_y
        (put_in_line n.global_cursor_x input_char (n.lines n.global_cursor_y));
  global_cursor_x = add32 n.global_cursor_x 1;
  document_modified_flag = 1;
  status_message = codes "Document Modified.";
}

unfoldable pub nano_insert_character_at_cursor : ℕ → NanoContext → NanoContext
nano_insert_character_at_cursor input_char n =
    if leb nano_max_total_lines n.global_cursor_y
    then n
    else if leb (nano_max_line_length - 2) (n.lines n.global_cursor_y).occupied_length
    then (if ltb n.active_line_count nano_max_total_lines
        then put_at_cursor input_char (open_line n)
        else nano_set_status_message (codes "ERROR: Maximum document length reached.") n)
    else put_at_cursor input_char n

unfoldable pub nano_process_raw_input_stream : List ℕ → NanoContext → NanoContext
nano_process_raw_input_stream [] n = n
nano_process_raw_input_stream (c ∷ cs) n =
    nano_process_raw_input_stream cs (nano_insert_character_at_cursor c n)

unfoldable pub nano_subsystem_execute_clear : NanoContext → NanoContext
nano_subsystem_execute_clear n = record n {
  lines = λ i. if ltb i nano_max_total_lines then empty_line else n.lines i;
  active_line_count = 1;
  global_cursor_x = 0;
  global_cursor_y = 0;
  viewport_offset_y = 0;
  status_message = codes "Buffer wiped clean successfully.";
}

abbrev pub nano_subsystem_execute_stats : NanoContext → NanoContext
nano_subsystem_execute_stats =
    nano_set_status_message (codes "Total Lines: ACTIVE | Memory: SECURE | Subsystem: ONLINE")

-- strings as lists of their bytes
abbrev pub nano_sys_strcmp : List ℕ → List ℕ → Bool
nano_sys_strcmp [] [] = true
nano_sys_strcmp [] (y ∷ ys) = false
nano_sys_strcmp (x ∷ xs) [] = false
nano_sys_strcmp (x ∷ xs) (y ∷ ys) = (x == y) && nano_sys_strcmp xs ys

-- the directives of the command screen
pub data Directive : Type 0 where
  return abort clear stats save unrecognized : Directive

unfoldable pub directive : List ℕ → Directive
directive typed =
    if nano_sys_strcmp typed (codes "return")
    then return
    else if nano_sys_strcmp typed (codes "abort")
    then abort
    else if nano_sys_strcmp typed (codes "clear")
    then clear
    else if nano_sys_strcmp typed (codes "stats")
    then stats
    else if nano_sys_strcmp typed (codes "save")
    then save
    else unrecognized

-- what a directive does to the document
unfoldable pub obey : Directive → NanoContext → NanoContext
obey return n = nano_set_status_message (codes "Returned to editor mode.") n
obey abort n = record n { editor_running_state = 0 }
obey clear n = nano_subsystem_execute_clear n
obey stats n = nano_subsystem_execute_stats n
obey save n = nano_set_status_message (codes "File saved to VFS (Simulated).") n
obey unrecognized n = n

abbrev pub leaves : Directive → Bool
leaves return = true
leaves abort = true
leaves clear = false
leaves stats = false
leaves save = false
leaves unrecognized = false

-- what is typed in one round of the editor: a line, and the directives if the line asks for the
-- command screen, each with the answer to the prompt behind it
pub record Round : Type 0 where
  pub line : List ℕ
  pub directives : List (List ℕ × List ℕ)

-- The loop of `nano_subsystem_terminal_dispatcher`, up to the end of what is typed. The answer goes to `dummy[10]`.
unfoldable pub nano_subsystem_terminal_dispatcher :
    List (List ℕ × List ℕ) → NanoContext → NanoContext
nano_subsystem_terminal_dispatcher [] n = n
nano_subsystem_terminal_dispatcher ((typed, answer) ∷ more) n =
    let next = obey (directive typed) n in
    let rest = nano_subsystem_terminal_dispatcher more next in
    if leaves (directive typed)
    then next
    else if ltb 9 (length answer)
    then record next { overrun = true }
    else rest

-- a round of the editor
unfoldable pub edit : Round → NanoContext → NanoContext
edit r n =
    if nano_sys_strcmp r.line (codes "exit")
    then record n { editor_running_state = 0 }
    else if nano_sys_strcmp r.line (codes "-cmdnanocmd")
    then nano_subsystem_terminal_dispatcher r.directives n
    else nano_process_raw_input_stream r.line n

unfoldable pub run_editor : List Round → NanoContext → NanoContext
run_editor [] n = n
run_editor (r ∷ rs) n =
    let rest = run_editor rs (edit r n) in if n.editor_running_state == 1 then rest else n

-- `execute_nano_terminal_simulator` up to the end of what is typed
unfoldable pub execute_nano_terminal_simulator : List Round → NanoContext
execute_nano_terminal_simulator rs = run_editor rs nano_context_hard_reset
