-- ===== src/Kernel/Tests.antt =====
-- The statements on i386/whitex/Kernel.c at concrete strings and states.
use whitex_kernel.Prelude.{◌≡◌, ◌↔◌, refl, true, false, List, [], ◌∷◌, take, arith, inl}
use whitex_kernel.Kernel.Strings.{
  sys_sanitize_string, sys_constant_time_compare, sys_constant_time_compare_iff,
}
use whitex_kernel.Kernel.Log.{LogEntry, SysLogRing, IsLog}
use whitex_kernel.Kernel.Shell.{SysEnvironment, codes}
use whitex_kernel.Kernel.System.{KernelState, Typed, kernel, execute_syscall}
use whitex_kernel.Kernel.Sound.{Sound, Fine, Steady}
use whitex_kernel.Kernel.Rounds.{kernel-Steady, execute_syscall-Fine}
use whitex_kernel.Kernel.Guarded.{as_root, kernel_root}

sys_constant_time_compare_example :
    (sys_constant_time_compare (codes "root") (codes "roof") 3 ≡ true)
    ↔ (take 3 (codes "root") ≡ take 3 (codes "roof"))
sys_constant_time_compare_example = sys_constant_time_compare_iff (codes "root") (codes "roof") 3

abbrev blank_entry : LogEntry
blank_entry = record { log_level = 0; timestamp = 0; message = []; integrity_checksum = 5381 }

abbrev empty_log : SysLogRing
empty_log = record {
  entries = λ i. blank_entry;
  head = 127;
  tail = 127;
  count = 0;
  structures_canary = 77;
}

abbrev empty_log-IsLog : IsLog empty_log
empty_log-IsLog = record { head_in = omega arith; count_in = omega arith; tail_at = refl }

abbrev booted : SysEnvironment
booted = record {
  system_state = 1;
  memory_guard = 0xDEADBEEF;
  execution_cycles = 0;
  fault_detected = 0;
  kernel_zone_base = 0;
  kernel_zone_limit = 0x000F_FFFF;
  is_root = false;
  isolation_active = true;
  structural_canary = 77;
}

abbrev powered : KernelState
powered = record { env = booted; sys_log = empty_log; global_canary = 77; tick_counter = 2999 }

abbrev session : List Typed
session =
    record {
      line = codes "sudo x";
      auth_query = codes "yes";
      cred_entry = codes "toor";
      routine_returns = true;
      monitors_return = true;
    }
    ∷ record {
      line = codes "fortune";
      auth_query = [];
      cred_entry = [];
      routine_returns = true;
      monitors_return = true;
    }
    ∷ []

kernel-Steady_example : Steady (kernel [] true session powered)
kernel-Steady_example = kernel-Steady [] true session powered

kernel_root_example : as_root (kernel [] true session powered) ≡ false
unfolding sys_sanitize_string
kernel_root_example =
    kernel_root [] true session powered ((λ e. ground (arith, e)), ((λ e. ground (arith, e)), tt))

booted_Sound : Sound powered
booted_Sound = record {
  env_ok = record {
    canary_is = refl;
    guarded = inl refl;
    base = refl;
    limit = refl;
    working = refl;
    no_fault = refl;
  };
  log_ok = empty_log-IsLog;
  log_canary = refl;
}

execute_syscall-Fine_example : Fine (execute_syscall true 18 powered)
execute_syscall-Fine_example = execute_syscall-Fine 18 powered booted_Sound
