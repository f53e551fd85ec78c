-- ===== src/Vm.antt =====
-- The virtual machine of i386/whitex/vm.h and the packets of i386/whitex/esysc.h. The memory of a machine is
-- what stands from the pointer `ram` on, with no end; its system calls act on the kernel.
pub mod Code
pub mod Runs
pub mod Straight
pub mod Tests
use whitex_kernel.Prelude.{
  ℕ, zero, suc, ◌+◌, ◌*◌, ◌/◌, ◌%◌, ◌^◌, Bool, true, false, Option, none, some, List, [], ◌∷◌, ltb,
  leb, ◌==◌, ◌&&◌, ◌||◌, not, if◌then◌else◌, update,
}
use whitex_kernel.Prelude.Int.{ℤ, pos, negsuc}
use whitex_kernel.Net.{read32}
use whitex_kernel.Heap.{heap_size, whitex_malloc, whitex_free}
use whitex_kernel.Kernel.Shell.{codes}
use whitex_kernel.Kernel.System.{
  KernelState, Outcome, runs, stopped, left, and_then, verify, log_write, execute_syscall,
}

-- `VMState`
pub record VmState : Type 0 where
  pub registers : ℕ → ℕ
  pub pc : ℕ
  pub running : Bool
  pub mem_size : ℕ
  pub ram : ℕ → ℕ

-- a machine in the heap, by its pointers
pub record VmPointers : Type 0 where
  pub vm : ℕ
  pub ram_ptr : ℕ

-- `sizeof(VMState)`
abbrev pub vm_state_size : ℕ
vm_state_size = 148

abbrev pub no_registers : ℕ → ℕ
no_registers i = 0

-- The new machine with its pointers, or NULL, and the heap. The fields of the machine are kept here and
-- not in the heap: what they stand for there, when the block reaches behind the heap, is `astray` below.
unfoldable pub vm_create : (mem_size : ℕ) → (ℕ → ℕ) → Option (VmPointers × VmState) × (ℕ → ℕ)
vm_create mem_size m =
    let (vm, taken) = whitex_malloc vm_state_size m in
    elim vm [
      | none ↦ (none, taken)
      | some p ↦
          let (ram_ptr, full) = whitex_malloc mem_size taken in
          elim ram_ptr [
            | none ↦ (none, whitex_free (some p) full)
            | some q ↦ (
              some (
                record { vm = p; ram_ptr = q },
                record {
                  registers = no_registers;
                  pc = 0;
                  running = false;
                  mem_size = mem_size;
                  ram = λ i. full (q + i);
                },
              ),
              full,
            )
          ]
    ]

unfoldable pub vm_destroy : VmPointers → (ℕ → ℕ) → ℕ → ℕ
vm_destroy p m = whitex_free (some p.vm) (whitex_free (some p.ram_ptr) m)

abbrev pub read64 : (ℕ → ℕ) → ℕ → ℕ
read64 b at = read32 b at + read32 b (at + 4) * 2 ^ 32

-- a machine on the kernel, or the kernel halted
pub data Machine : Type 0 where
  alive : VmState → KernelState → Machine
  halted : KernelState → Machine

abbrev pub after_call : VmState → Outcome → Machine
after_call v (runs s) = alive v s
after_call v (stopped s) = halted s
after_call v (left s) = halted s

-- the `switch` on the opcode
unfoldable pub execute : (opcode arg1 arg2 : ℕ) → VmState → KernelState → Machine
execute opcode arg1 arg2 v s =
    if opcode == 0xCC
    then after_call v (execute_syscall true arg1 s)
    else if opcode == 0x01
    then alive (if ltb arg1 16 then record v { registers = update v.registers arg1 arg2 } else v) s
    else if opcode == 0x0C
    then alive (record v { pc = arg2 }) s
    else alive (record v { running = false }) s

-- a round of the loop
unfoldable pub vm_step : VmState → KernelState → Machine
vm_step v s =
    let instruction = read64 v.ram v.pc in
    execute (instruction / 2 ^ 56 % 256) (instruction / 2 ^ 48 % 256) (instruction % 2 ^ 32)
      (record v { pc = (v.pc + 8) % 2 ^ 64 }) s

-- what a run comes to; `going` is a run whose rounds are not enough
pub data Run : Type 0 where
  finished going : VmState → KernelState → Run
  died : KernelState → Run

unfoldable pub loop_run : (rounds : ℕ) → Machine → Run
loop_run rounds (halted s) = died s
loop_run zero (alive v s) = elim v.running [ true ↦ going v s | false ↦ finished v s ]
loop_run (suc k) (alive v s) = elim v.running [
  | true ↦ loop_run k (vm_step v s)
  | false ↦ finished v s
]

-- `vm_run` for at most `rounds` instructions
unfoldable pub vm_run : (rounds : ℕ) → VmState → KernelState → Run
vm_run rounds v s = loop_run rounds (alive (record v { running = true }) s)

unfoldable pub vm_reset : VmState → VmState
vm_reset v = record v {
  pc = 0;
  running = false;
  registers = λ i. if ltb i 16 then 0 else v.registers i;
}

unfoldable pub vm_load_program : (program : ℕ → ℕ) (size : ℕ) → VmState → VmState
vm_load_program program size v =
    if ltb v.mem_size size
    then v
    else record v { ram = λ i. if ltb i size then program i else v.ram i }

-- an index of a register, which is signed
abbrev pub is_register : ℤ → Bool
is_register (pos r) = ltb r 16
is_register (negsuc r) = false

abbrev pub register_index : ℤ → ℕ
register_index (pos r) = r
register_index (negsuc r) = 0

unfoldable pub vm_get_register : ℤ → VmState → ℕ
vm_get_register reg v = if is_register reg then v.registers (register_index reg) else 0

unfoldable pub vm_set_register : ℤ → (val : ℕ) → VmState → VmState
vm_set_register reg val v =
    if is_register reg
    then record v { registers = update v.registers (register_index reg) val }
    else v

-- `sys_vm_init` of i386/whitex/Kernel.c on the kernel and the heap; the machine runs for at most `rounds`
-- instructions
pub data Started : Type 0 where
  back : KernelState → (ℕ → ℕ) → Started
  -- `whitex_malloc` does not check the end of the heap: the block of the machine, or the header of that of its
  -- memory, may reach behind it, and what lies there is then overwritten
  astray : Started
  gone : KernelState → Started
  running_on : VmState → KernelState → Started

abbrev pub with_heap : (ℕ → ℕ) → Outcome → Started
with_heap m (runs s) = back s m
with_heap m (stopped s) = gone s
with_heap m (left s) = gone s

abbrev pub after_run : VmPointers → (ℕ → ℕ) → Run → Started
after_run p m (finished v s) = back s (vm_destroy p m)
after_run p m (going v s) = running_on v s
after_run p m (died s) = gone s

-- the part behind the check of the privileges, with what `vm_create` has given
unfoldable pub start_vm :
    (rounds : ℕ) → Option (VmPointers × VmState) × (ℕ → ℕ) → KernelState → Started
start_vm rounds (none, m) s = with_heap m (log_write 2 (codes "VM_ALLOCATION_FAILED") s)
start_vm rounds (some (p, v), m) s =
    if ltb heap_size (p.vm + vm_state_size) || ltb heap_size p.ram_ptr
    then astray
    else elim (log_write 1 (codes "VM_ENVIRONMENT_STARTED") s) [
      | stopped t ↦ gone t
      | left t ↦ gone t
      | runs t ↦ after_run p m (vm_run rounds v t)
    ]

unfoldable pub sys_vm_init : (rounds : ℕ) → (ℕ → ℕ) → KernelState → Started
sys_vm_init rounds m s0 = elim (verify s0) [
  | stopped s ↦ gone s
  | left s ↦ gone s
  | runs s ↦
      if not s.env.is_root && s.env.isolation_active
      then back s m
      else start_vm rounds (vm_create 65536 m) s
]

abbrev pub sys_initfs : ℕ
sys_initfs = 13

abbrev pub sys_cpuid : ℕ
sys_cpuid = 14

abbrev pub sys_notepad : ℕ
sys_notepad = 15

abbrev pub sys_ant : ℕ
sys_ant = 16

abbrev pub sys_melodi : ℕ
sys_melodi = 20

-- a packet of `esyscall_dispatch`; what only prints leaves machine and kernel as they are
unfoldable pub esyscall_dispatch : (code : ℕ) → VmState → KernelState → Machine
esyscall_dispatch code v s =
    if code == sys_cpuid
    then alive (record v { registers = update v.registers 0 0x58544857 }) s
    else if (code == sys_notepad)
        || (code == sys_melodi)
        || (code == sys_ant)
        || (code == sys_initfs)
    then alive v s
    else after_call v (execute_syscall true code s)
