-- ===== src/Vm/Runs.antt =====
-- Runs of the virtual machine of i386/whitex/vm.h: programs without jumps end, and no program harms the
-- kernel.
use whitex_kernel.Prelude.{ℕ}
use whitex_kernel.Kernel.System.{KernelState}
use whitex_kernel.Kernel.Sound.{Sound}
use whitex_kernel.Vm.{
  VmState, Machine, alive, Run, finished, going, Started, back, astray, running_on,
}

-- the kernel is sound and has not halted
pub data Works : Machine → Type 0 where
  works : {v : VmState} {s : KernelState} → Sound s → Works (alive v s)

pub data RunWorks : Run → Type 0 where
  ended : {v : VmState} {s : KernelState} → Sound s → RunWorks (finished v s)
  goes_on : {v : VmState} {s : KernelState} → Sound s → RunWorks (going v s)

-- the machine is started, and whatever it does the kernel is sound; or it does not lie in the heap
pub data StartWorks : Started → Type 0 where
  came_back : {s : KernelState} {m : ℕ → ℕ} → Sound s → StartWorks (back s m)
  lies_astray : StartWorks astray
  still_on : {v : VmState} {s : KernelState} → Sound s → StartWorks (running_on v s)
