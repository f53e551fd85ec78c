-- ===== src/Kernel/Dispatch.antt =====
-- The dispatch table of i386/whitex/Kernel.c and `sys_execute_vector`.
use Prim.Native.String.{String}
use whitex_kernel.Prelude.{
  ℕ, ◌+◌, ◌≡◌, ◌≢◌, refl, Bool, true, false, Option, none, some, List, [], ◌∷◌, ◌++◌, ltb, ◌&&◌,
  not, if◌then◌else◌, length, arith, Bool-cases, inl, inr,
}
use whitex_kernel.Prelude.Words.{add32}
use whitex_kernel.Kernel.Strings.{differences, sys_constant_time_compare}
use whitex_kernel.Kernel.Shell.{SysEnvironment, codes, sys_cmd_max}

-- `dispatch_entry_t`. A routine is known by its name in the source; `none` is a null pointer.
pub record DispatchEntry : Type 0 where
  pub signature : List ℕ
  pub exec_ptr : Option String
  pub exec_arg_ptr : Option String
  pub requires_args : Bool
  pub min_privilege : ℕ

abbrev pub plain : String → String → DispatchEntry
plain signature routine = record {
  signature = codes signature;
  exec_ptr = some routine;
  exec_arg_ptr = none;
  requires_args = false;
  min_privilege = 0;
}

abbrev pub with_arg : String → String → Bool → DispatchEntry
with_arg signature routine requires_args = record {
  signature = codes signature;
  exec_ptr = none;
  exec_arg_ptr = some routine;
  requires_args = requires_args;
  min_privilege = 0;
}

unfoldable pub g_dispatch_table : List DispatchEntry
g_dispatch_table =
    plain "help" "help"
    ∷ plain "logo" "logo"
    ∷ plain "cls" "cls"
    ∷ plain "uname" "uname"
    ∷ plain "reboot" "reboot"
    ∷ plain "shutdown" "shutdown"
    ∷ plain "ls" "ls"
    ∷ plain "mkdir" "mkdir"
    ∷ plain "cd" "cd"
    ∷ plain "pwd" "pwd"
    ∷ plain "hexdump" "hexdump"
    ∷ plain "initfs" "init_fs"
    ∷ plain "cpuid" "cpuid"
    ∷ plain "notepad" "notepad"
    ∷ plain "kiskrnl" "ant"
    ∷ plain "time" "time"
    ∷ plain "internet" "internetmain"
    ∷ plain "sddshell" "shellfs"
    ∷ plain "ram" "ram"
    ∷ plain "htop" "htop"
    ∷ plain "song" "melodi"
    ∷ with_arg "echo" "cmd_echo_handler" true
    ∷ plain "ntask" "new_task"
    ∷ plain "ps" "ps"
    ∷ plain "top" "cmd_top"
    ∷ with_arg "kill" "cmd_kill" true
    ∷ with_arg "msgsend" "cmd_msgsend" true
    ∷ plain "msgrecv" "cmd_msgrecv"
    ∷ with_arg "pkg" "wx_pkg_cli_handler" true
    ∷ with_arg "calc" "cmd_calc_handler" true
    ∷ plain "telemetry" "cmd_lifecycle_telemetry"
    ∷ with_arg "lcreset" "cmd_lifecycle_reset" true
    ∷ with_arg "panic" "faulthandler" false
    ∷ with_arg "sudo" "cmd_sudo_handler" true
    ∷ with_arg "nano" "execute_nano_terminal_simulator" false
    ∷ plain "ping" "ping"
    ∷ plain "fortune" "cmd_random_fortune"
    ∷ plain "power" "batt"
    ∷ []

-- DISPATCH_TABLE_SIZE
abbrev pub dispatch_table_size : ℕ
dispatch_table_size = 40

-- What a command comes to: nothing was typed, no entry has the name, the privilege is missing, or
-- the entry was taken and `routine` was called (`none`: its pointer is null).
pub data Action : Type 0 where
  ignored unknown denied : Action
  called : (routine : Option String) → Action

-- the routine that a matching entry calls
unfoldable pub routine_of : DispatchEntry → Option String
routine_of d = if d.requires_args then d.exec_arg_ptr else d.exec_ptr

-- the loop over the table
unfoldable pub search_table : List ℕ → List DispatchEntry → SysEnvironment → SysEnvironment × Action
unfolding routine_of
search_table cmd_name [] e = (e, unknown)
search_table cmd_name (d ∷ ds) e =
    let rest = search_table cmd_name ds e in
    if sys_constant_time_compare cmd_name d.signature sys_cmd_max
    then (if ltb 0 d.min_privilege && (not e.is_root && e.isolation_active)
        then (e, denied)
        else (record e { execution_cycles = add32 e.execution_cycles 1 }, called (routine_of d)))
    else rest

-- `sys_execute_vector` behind its integrity check. The table has fewer entries than the loop has
-- rounds: `beyond` is what the memory behind it holds for the others.
unfoldable pub sys_execute_vector :
    (beyond : List DispatchEntry) → List ℕ → SysEnvironment → SysEnvironment × Action
unfolding search_table g_dispatch_table
sys_execute_vector beyond [] e = (e, ignored)
sys_execute_vector beyond (c ∷ cs) e = search_table (c ∷ cs) (g_dispatch_table ++ beyond) e

-- The table has two entries fewer than the loop reads.
pub dispatch_table_short : length g_dispatch_table + 2 ≡ dispatch_table_size
unfolding g_dispatch_table
dispatch_table_short = refl

-- Every entry of the table can be called without privileges.
abbrev AllOpen : List DispatchEntry → Type 0
AllOpen [] = Unit
AllOpen (d ∷ ds) = (d.min_privilege ≡ 0) × AllOpen ds

table-AllOpen : AllOpen g_dispatch_table
unfolding g_dispatch_table
table-AllOpen = omega arith

-- an action that is not taken from the entries behind the table
abbrev pub NotDenied : Action → Type 0
NotDenied a = a ≢ denied

search-NotDenied :
    (cmd : List ℕ) (ds beyond : List DispatchEntry) (e : SysEnvironment)
    → AllOpen ds
    → NotDenied (search_table cmd beyond e).1
    → NotDenied (search_table cmd (ds ++ beyond) e).1
unfolding search_table
search-NotDenied cmd [] beyond e all h = h
search-NotDenied cmd (d ∷ ds) beyond e all h =
    elim (Bool-cases (sys_constant_time_compare cmd d.signature sys_cmd_max)) [
      | inl hit ↦ rw hit (ground (arith, all.0))
      | inr miss ↦ rw miss (search-NotDenied cmd ds beyond e all.1 h)
    ]

-- The refusal for want of privileges never happens to a command, unless an entry behind the
-- table causes it.
pub sys_execute_vector_open :
    (beyond : List DispatchEntry) (c : ℕ) (cs : List ℕ) (e : SysEnvironment)
    → (search_table (c ∷ cs) beyond e).1 ≢ denied
    → (sys_execute_vector beyond (c ∷ cs) e).1 ≢ denied
unfolding sys_execute_vector
sys_execute_vector_open beyond c cs e h =
    search-NotDenied (c ∷ cs) g_dispatch_table beyond e table-AllOpen h

-- `panic` and `nano` are accepted and counted, and call nothing: their entries have only a
-- routine with an argument, and ask for none.
pub sys_execute_vector_null :
    (beyond : List DispatchEntry) (e : SysEnvironment)
    → ((sys_execute_vector beyond (codes "panic") e).1 ≡ called none)
      × ((sys_execute_vector beyond (codes "nano") e).1 ≡ called none)
unfolding sys_execute_vector sys_constant_time_compare differences
sys_execute_vector_null beyond e = (refl, refl)
