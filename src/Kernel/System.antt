-- ===== src/Kernel/System.antt =====
-- The whole state of i386/whitex/Kernel.c and the handlers on it: each with its integrity check, its
-- writes to the log and its halt.
use Prim.Native.String.{String}
use whitex_kernel.Prelude.{
  ℕ, ◌+◌, ◌%◌, ◌^◌, Bool, Option, none, some, List, [], ◌∷◌, leb, ◌==◌, ◌&&◌, ◌||◌, not,
  if◌then◌else◌, same_bytes,
}
use whitex_kernel.Prelude.Words.{add32}
use Prim.Native.Nat.{bit_xor}
use whitex_kernel.Kernel.Strings.{sys_sanitize_string, sys_constant_time_compare}
use whitex_kernel.Kernel.Log.{LogEntry, SysLogRing, sys_log_write}
use whitex_kernel.Kernel.Shell.{
  SysEnvironment, Violation, canary_burst, stack_smash, kernel_zone, codes, sys_max_buffer,
  sys_stack_guard, sys_verify_integrity, raised, dropped,
}
use whitex_kernel.Kernel.Dispatch.{DispatchEntry, Action, ignored, unknown, denied, called}

-- `g_env`, `g_sys_log`, `g_global_canary` and `g_tick_counter`
pub record KernelState : Type 0 where
  pub env : SysEnvironment
  pub sys_log : SysLogRing
  pub global_canary : ℕ
  pub tick_counter : ℕ

-- What a routine comes to: it returns, the kernel has halted over a check of its own, or control has left
-- this part in a given state, for a routine elsewhere that does not return to it as it was called.
pub data Outcome : Type 0 where
  runs stopped left : KernelState → Outcome

abbrev pub and_then : Outcome → (KernelState → Outcome) → Outcome
and_then (runs s) f = f s
and_then (stopped s) f = stopped s
and_then (left s) f = left s

unfoldable pub log_write : (level : ℕ) (msg : List ℕ) → KernelState → Outcome
log_write level msg s = elim (sys_log_write s.global_canary s.tick_counter level msg s.sys_log) [
  | none ↦ stopped s
  | some g ↦ runs (record s { sys_log = g })
]

-- the state in which a panic halts; its screen is not modelled
unfoldable pub sys_panic : (error_code : List ℕ) → KernelState → Outcome
sys_panic error_code s =
    and_then
      (log_write 3 error_code
        (record s { env = record s.env { fault_detected = 1; system_state = 0 } }))
      stopped

abbrev pub violation_code : Violation → List ℕ
violation_code canary_burst = codes "ERR_INTEGRITY_VIOLATION_CANARY_BURST"
violation_code stack_smash = codes "ERR_INTEGRITY_VIOLATION_STACK_SMASH"
violation_code kernel_zone = codes "ERR_INTEGRITY_VIOLATION_KERNEL_ZONE"

-- `sys_verify_integrity` with its panic
unfoldable pub verify : KernelState → Outcome
verify s = elim (sys_verify_integrity s.global_canary s.sys_log.structures_canary s.env) [
  | none ↦ runs s
  | some v ↦ sys_panic (violation_code v) s
]

abbrev pub zero_entry : LogEntry
zero_entry = record { log_level = 0; timestamp = 0; message = []; integrity_checksum = 0 }

abbrev pub zero_log : ℕ → SysLogRing
zero_log canary = record {
  entries = λ i. zero_entry;
  head = 0;
  tail = 0;
  count = 0;
  structures_canary = canary;
}

unfoldable pub env_bootstrap : KernelState → Outcome
env_bootstrap s =
    let canary = bit_xor s.global_canary 0x55AA55AA in
    log_write 0 (codes "KERNEL_BOOTSTRAP_INITIALIZED_WITH_ASLR") (record s {
      env = whitex_kernel.Kernel.Shell.sys_env_bootstrap canary s.env;
      sys_log = zero_log canary;
      global_canary = canary;
    })

-- with the two lines that `scan` reads
unfoldable pub sudo : (auth_query cred_entry : List ℕ) → KernelState → Outcome
sudo auth_query cred_entry s0 = and_then (verify s0) (λ s.
    let answer = sys_sanitize_string auth_query sys_max_buffer in
    let credential = sys_sanitize_string cred_entry sys_max_buffer in
    if sys_constant_time_compare answer (codes "yes") sys_max_buffer
      || sys_constant_time_compare answer (codes "y") sys_max_buffer
    then (if sys_constant_time_compare credential (codes "root") sys_max_buffer
        then log_write 1 (codes "PRIVILEGE_ESCALATION_SUCCESS_RING0")
            (record s { env = raised s.env })
        else log_write 2 (codes "PRIVILEGE_ESCALATION_FAILED_INVALID_CREDENTIAL")
            (record s { env = dropped s.env }))
    else runs (record s { env = dropped s.env }))

unfoldable pub kill_protect : KernelState → Outcome
kill_protect s0 = and_then (verify s0) (λ s.
    if s.env.is_root
    then log_write 2 (codes "SECURITY_PROTECTION_DISABLED_WARNING")
        (record s { env = raised s.env })
    else runs s)

unfoldable pub open_safe : KernelState → Outcome
open_safe s =
    log_write 0 (codes "SECURITY_PROTECTION_RESTORED")
      (record s { env = whitex_kernel.Kernel.Shell.sys_open_safe s.env })

-- What happens in one round: the command line and the two lines that `sudo` asks for are typed. Whether the
-- routine that is called returns, and the watch on the stack and the memory monitor do, with the environment
-- and the log as they were, is up to them: they may halt, spin, trap, or run over their arrays.
pub record Typed : Type 0 where
  pub line : List ℕ
  pub auth_query : List ℕ
  pub cred_entry : List ℕ
  pub routine_returns : Bool
  pub monitors_return : Bool

-- The routine of an entry, if it is no null pointer. `g_env` and `g_sys_log` are static: of the routines of
-- the table, only `cmd_sudo_handler` names them. `shutdown` ends in a loop that halts.
unfoldable pub run_routine : Typed → Option String → KernelState → Outcome
run_routine t none s = runs s
run_routine t (some routine) s =
    if same_bytes (codes routine) (codes "cmd_sudo_handler")
    then sudo t.auth_query t.cred_entry s
    else if same_bytes (codes routine) (codes "shutdown")
    then left s
    else if t.routine_returns
    then runs s
    else left s

-- what an action of the table does to the state; `e` is the environment with the command counted
unfoldable pub take_action :
    Typed → (cmd_name : List ℕ) → SysEnvironment × Action → KernelState → Outcome
take_action t cmd_name (e, ignored) s = runs s
take_action t cmd_name (e, unknown) s = runs s
take_action t cmd_name (e, denied) s = log_write 2 (codes "UNAUTHORIZED_EXECUTION_ATTEMPT") s
take_action t cmd_name (e, called routine) s =
    and_then (log_write 0 cmd_name (record s { env = e })) (run_routine t routine)

unfoldable pub execute_vector :
    (beyond : List DispatchEntry) → Typed → (cmd_name : List ℕ) → KernelState → Outcome
execute_vector beyond t cmd_name s0 = and_then (verify s0) (λ s.
    take_action t cmd_name (whitex_kernel.Kernel.Dispatch.sys_execute_vector beyond cmd_name s.env)
      s)

unfoldable pub parse_input : (beyond : List DispatchEntry) → Typed → List ℕ → KernelState → Outcome
parse_input beyond t raw s0 = and_then (verify s0) (λ s.
    elim (whitex_kernel.Kernel.Shell.sys_parse_input raw) [
      | none ↦ runs s
      | some (cmd, args) ↦ execute_vector beyond t cmd s
    ])

-- SYS_TICK_MAX
abbrev pub sys_tick_max : ℕ
sys_tick_max = 3000

-- the clock of the main loop, with the watch on the stack and the memory monitor
unfoldable pub tick : Typed → KernelState → Outcome
tick t s =
    let now = (s.tick_counter + 1) % 2 ^ 64 in
    let watches = (now % 500 == 0) || leb sys_tick_max now in
    if watches && not t.monitors_return
    then left (record s { tick_counter = now })
    else if leb sys_tick_max now
    then verify (record s { tick_counter = 0 })
    else runs (record s { tick_counter = now })

-- one round of the main loop
unfoldable pub main_round : (beyond : List DispatchEntry) → Typed → KernelState → Outcome
main_round beyond t s0 = and_then (tick t s0) (λ s.
    elim (sys_sanitize_string t.line sys_max_buffer) [
      | [] ↦ runs s
      | c ∷ cs ↦ parse_input beyond t (c ∷ cs) s
    ])

-- The main loop of `Kernel` for as many rounds as there is something typed.
unfoldable pub main_loop : (beyond : List DispatchEntry) → List Typed → KernelState → Outcome
main_loop beyond [] s = runs s
main_loop beyond (t ∷ ts) s0 =
    let next = and_then (main_round beyond t s0) (main_loop beyond ts) in
    if s0.env.system_state == 1 then next else sys_panic (codes "ERR_MAIN_LOOP_EXIT") s0

-- `Kernel`: the start and the main loop. The other routines of the start, `login` with its halt after three
-- failures among them, are elsewhere: `start_returns` says that they return with the environment and the log
-- as they were.
unfoldable pub kernel :
    (beyond : List DispatchEntry) (start_returns : Bool) → List Typed → KernelState → Outcome
kernel beyond start_returns ts s0 =
    and_then (env_bootstrap s0) (λ s. if start_returns then main_loop beyond ts s else left s)

abbrev pub sys_help : ℕ
sys_help = 1

abbrev pub sys_ram : ℕ
sys_ram = 18

abbrev pub counted : KernelState → KernelState
counted s = record s { env = record s.env { execution_cycles = add32 s.env.execution_cycles 1 } }

-- `has_vm`: the pointer to the machine is not null. The routines of help and ram print, and the first call of
-- ram clears the heap, which is no part of this state.
unfoldable pub execute_syscall : (has_vm : Bool) (syscall_id : ℕ) → KernelState → Outcome
execute_syscall has_vm syscall_id s0 = and_then (verify s0) (λ s.
    let served = (syscall_id == sys_help) || (syscall_id == sys_ram) in
    if (s.env.memory_guard == 0) || not s.env.isolation_active
    then runs (if served then counted s else s)
    else if not has_vm || not (s.env.fault_detected == 0)
    then sys_panic (codes "ERR_SYSCALL_VIOLATION_INVALID_CONTEXT") s
    else if served
    then runs (counted s)
    else log_write 2 (codes "INVALID_SYSCALL_EXECUTION_ATTEMPT") s)
