-- ===== src/Scheduler/Commands.antt =====
-- The command `kill` of i386/whitex/sys_tools.h.
use whitex_kernel.Prelude.{ℕ, ◌==◌, List, [], ◌∷◌, if◌then◌else◌}
use whitex_kernel.Scheduler.{SchedulerState, err_ok, err_io_permission}
use whitex_kernel.Scheduler.Process.{scheduler_terminate_process}
use whitex_kernel.Scheduler.Number.{parse_integer}

-- the four messages of the command
pub data KillAnswer : Type 0 where
  usage terminated critical not_found : KillAnswer

unfoldable pub cmd_kill : List ℕ → SchedulerState → SchedulerState × KillAnswer
unfolding scheduler_terminate_process parse_integer
cmd_kill [] s = (s, usage)
cmd_kill (c ∷ arg) s =
    let (t, status) = scheduler_terminate_process (parse_integer (c ∷ arg)) s in
    if status == err_ok
    then (t, terminated)
    else if status == err_io_permission
    then (t, critical)
    else (t, not_found)
