-- ===== src/Vm/Tests.antt =====
-- The statements on i386/whitex/vm.h at a concrete program.
use whitex_kernel.Prelude.{
  suc, ◌+◌, ◌*◌, ◌≡◌, refl, true, false, List, [], ◌∷◌, ◌++◌, inl, length, arith,
}
use whitex_kernel.Kernel.System.{KernelState, zero_log}
use whitex_kernel.Kernel.Sound.{Sound, zero_log-IsLog}
use whitex_kernel.Vm.{VmState, no_registers, vm_step, vm_run, vm_load_program}
use whitex_kernel.Vm.Code.{
  Instruction, call, set_register, jump, stop, image, perform, vm_step-perform,
}
use whitex_kernel.Vm.Straight.{registers_after, Finishes, vm_run-Finishes}

abbrev powered : KernelState
powered = record {
  env = record {
    system_state = 1;
    memory_guard = 0xDEADBEEF;
    execution_cycles = 0;
    fault_detected = 0;
    kernel_zone_base = 0;
    kernel_zone_limit = 0x000F_FFFF;
    is_root = true;
    isolation_active = true;
    structural_canary = 77;
  };
  sys_log = zero_log 77;
  global_canary = 77;
  tick_counter = 0;
}

powered-Sound : Sound powered
powered-Sound = record {
  env_ok = record {
    canary_is = refl;
    guarded = inl refl;
    base = refl;
    limit = refl;
    working = refl;
    no_fault = refl;
  };
  log_ok = zero_log-IsLog 77;
  log_canary = refl;
}

abbrev fresh : VmState
fresh = record { registers = no_registers; pc = 0; running = false; mem_size = 65536; ram = λ i. 0 }

abbrev program : List Instruction
program = set_register 3 42 ∷ call 18 ∷ []

vm_run-Finishes_example : Finishes (registers_after program no_registers) (
    vm_run
      (suc (length program + 0))
      (vm_load_program (image (program ++ (stop ∷ []))) (8 * length (program ++ (stop ∷ []))) fresh)
      powered)
vm_run-Finishes_example =
    vm_run-Finishes program 0 fresh powered
      (tt, (omega arith, omega arith), (tt, (omega arith, omega arith), tt)) powered-Sound refl
      (omega arith) (omega arith)

abbrev jumping : VmState
jumping = record fresh { ram = image (jump 0 ∷ []) }

vm_step-perform_example :
    vm_step jumping powered ≡ perform (jump 0) (record jumping { pc = jumping.pc + 8 }) powered
vm_step-perform_example =
    vm_step-perform (jump 0) jumping powered (omega arith, omega arith) (λ k lt. ground (arith, lt))
      (omega arith)
