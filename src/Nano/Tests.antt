-- ===== src/Nano/Tests.antt =====
-- The statements on i386/whitex/nano.h at a concrete document.
use whitex_kernel.Prelude.{◌-◌, ◌≡◌, refl, List, [], ◌∷◌, ◌++◌, take}
use whitex_kernel.Kernel.Shell.{codes}
use whitex_kernel.Nano.{
  Round, put_in_line, run_editor, edit, nano_subsystem_terminal_dispatcher, obey, directive,
  nano_subsystem_execute_clear, nano_insert_character_at_cursor, put_at_cursor,
  nano_context_hard_reset, nano_process_raw_input_stream, execute_nano_terminal_simulator,
}
use whitex_kernel.Nano.Text.{IsNano, text, text_length, text_capacity}
use whitex_kernel.Nano.Typing.{
  fresh-IsNano, text-nano_process_raw_input_stream, execute_nano_terminal_simulator-IsNano,
}

text-nano_process_raw_input_stream_example :
    text (nano_process_raw_input_stream (codes "to do") nano_context_hard_reset)
    ≡ text nano_context_hard_reset
      ++ take (text_capacity - text_length nano_context_hard_reset) (codes "to do")
text-nano_process_raw_input_stream_example =
    text-nano_process_raw_input_stream (codes "to do") nano_context_hard_reset fresh-IsNano

abbrev visit : List Round
visit =
    record { line = codes "to do"; directives = [] }
    ∷ record {
      line = codes "-cmdnanocmd";
      directives = (codes "clear", codes "x") ∷ (codes "return", []) ∷ [];
    }
    ∷ record { line = codes "exit"; directives = [] }
    ∷ []

execute_nano_terminal_simulator_example : IsNano (execute_nano_terminal_simulator visit)
unfolding execute_nano_terminal_simulator run_editor edit nano_subsystem_terminal_dispatcher obey
    directive nano_subsystem_execute_clear nano_process_raw_input_stream
    nano_insert_character_at_cursor put_at_cursor nano_context_hard_reset put_in_line
execute_nano_terminal_simulator_example = execute_nano_terminal_simulator-IsNano visit refl
