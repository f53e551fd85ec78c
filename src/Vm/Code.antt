-- ===== src/Vm/Code.antt =====
-- The code of the virtual machine of i386/whitex/vm.h: instructions as bytes, and what a round makes of them.
use whitex_kernel.Prelude.{
  ℕ, ◌+◌, ◌-◌, ◌*◌, ◌/◌, ◌%◌, ◌^◌, ◌≤◌, ◌<◌, ◌≡◌, refl, true, false, List, [], ◌∷◌, ltb,
  if◌then◌else◌, update, length, arith, ap, ◌∙◌,
}
use whitex_kernel.Kernel.System.{KernelState, execute_syscall}
use whitex_kernel.Vm.{
  VmState, Machine, alive, after_call, read64, execute, vm_step, vm_load_program,
}

-- the instructions; a machine code that is none of them stops the machine like `stop`
pub data Instruction : Type 0 where
  call : (syscall_id : ℕ) → Instruction
  set_register : (register value : ℕ) → Instruction
  jump : (target : ℕ) → Instruction
  stop : Instruction

abbrev pub opcode : Instruction → ℕ
opcode (call n) = 0xCC
opcode (set_register r v) = 0x01
opcode (jump t) = 0x0C
opcode stop = 0x1F

abbrev pub first_argument : Instruction → ℕ
first_argument (call n) = n
first_argument (set_register r v) = r
first_argument (jump t) = 0
first_argument stop = 0

abbrev pub second_argument : Instruction → ℕ
second_argument (call n) = 0
second_argument (set_register r v) = v
second_argument (jump t) = t
second_argument stop = 0

-- the arguments fit their bytes
abbrev pub InRange : Instruction → Type 0
InRange ins = (first_argument ins < 256) × (second_argument ins < 2 ^ 32)

-- the word that an instruction is
abbrev pub word : Instruction → ℕ
word ins = second_argument ins + first_argument ins * 2 ^ 48 + opcode ins * 2 ^ 56

-- the bytes of a word, in the order of memory
abbrev pub byte_of : (w k : ℕ) → ℕ
byte_of w k = w / 256 ^ k % 256

-- the bytes of a program
abbrev pub image : List Instruction → ℕ → ℕ
image [] j = 0
image (ins ∷ p) j = if ltb j 8 then byte_of (word ins) j else image p (j - 8)

-- the program stands in memory from an address on
abbrev pub Stands : (ram : ℕ → ℕ) → ℕ → List Instruction → Type 0
Stands ram at [] = Unit
Stands ram at (ins ∷ p) =
    ((k : ℕ) → k < 8 → ram (at + k) ≡ byte_of (word ins) k) × Stands ram (at + 8) p

-- what an instruction does to a machine whose counter is behind it
abbrev pub perform : Instruction → VmState → KernelState → Machine
perform (call n) v s = after_call v (execute_syscall true n s)
perform (set_register r x) v s =
    alive (if ltb r 16 then record v { registers = update v.registers r x } else v) s
perform (jump t) v s = alive (record v { pc = t }) s
perform stop v s = alive (record v { running = false }) s

word_read :
    (w at : ℕ) (ram : ℕ → ℕ)
    → w < 2 ^ 64
    → ((k : ℕ) → k < 8 → ram (at + k) ≡ byte_of w k)
    → read64 ram at ≡ w
word_read w at ram lt stands =
    let byte : (x k : ℕ) → k < 8 → x ≡ at + k → ram x ≡ byte_of w k =
      λ x k below e. ap ram e ∙ stands k below in
    omega (
      arith,
      lt,
      byte at 0 (omega arith) (omega arith),
      byte (at + 1) 1 (omega arith) (omega arith),
      byte (at + 2) 2 (omega arith) (omega arith),
      byte (at + 2 + 1) 3 (omega arith) (omega arith),
      byte (at + 4) 4 (omega arith) (omega arith),
      byte (at + 4 + 1) 5 (omega arith) (omega arith),
      byte (at + 4 + 2) 6 (omega arith) (omega arith),
      byte (at + 4 + 2 + 1) 7 (omega arith) (omega arith),
    )

perform-execute :
    (ins : Instruction) (v : VmState) (s : KernelState)
    → execute (opcode ins) (first_argument ins) (second_argument ins) v s ≡ perform ins v s
unfolding execute
perform-execute (call n) v s = refl
perform-execute (set_register r x) v s = refl
perform-execute (jump t) v s = refl
perform-execute stop v s = refl

word_parts :
    (ins : Instruction)
    → InRange ins
    → (word ins / 2 ^ 56 % 256 ≡ opcode ins)
      × (word ins / 2 ^ 48 % 256 ≡ first_argument ins)
      × (word ins % 2 ^ 32 ≡ second_argument ins)
      × (word ins < 2 ^ 64)
word_parts (call n) (lt, small) =
    (omega (arith, lt), omega (arith, lt), omega (arith, lt), omega (arith, lt))
word_parts (set_register r x) (lt, small) = (
  omega (arith, lt, small),
  omega (arith, lt, small),
  omega (arith, lt, small),
  omega (arith, lt, small),
)
word_parts (jump t) (lt, small) =
    (omega (arith, small), omega (arith, small), omega (arith, small), omega (arith, small))
word_parts stop all = (omega arith, omega arith, omega arith, omega arith)

-- A round at an instruction in memory does what the instruction says, with the counter moved behind it.
pub vm_step-perform :
    (ins : Instruction) (v : VmState) (s : KernelState)
    → InRange ins
    → ((k : ℕ) → k < 8 → v.ram (v.pc + k) ≡ byte_of (word ins) k)
    → v.pc + 8 < 2 ^ 64
    → vm_step v s ≡ perform ins (record v { pc = v.pc + 8 }) s
unfolding vm_step
vm_step-perform ins v s range stands room =
    let (op, first, second, small) = word_parts ins range in
    let read : read64 v.ram v.pc ≡ word ins = word_read (word ins) v.pc v.ram small stands in
    let next : (v.pc + 8) % 2 ^ 64 ≡ v.pc + 8 = omega (arith, room) in
    ap
      (λ w.
        execute (w / 2 ^ 56 % 256) (w / 2 ^ 48 % 256) (w % 2 ^ 32)
          (record v { pc = (v.pc + 8) % 2 ^ 64 }) s)
      read
    ∙ (rw (op, first, second, next) (perform-execute ins (record v { pc = v.pc + 8 }) s))

image_first :
    (ins : Instruction) (p : List Instruction) (k : ℕ)
    → k < 8
    → image (ins ∷ p) k ≡ byte_of (word ins) k
image_first ins p k lt = let inside : ltb k 8 ≡ true = ground (arith, lt) in rw inside refl

image_rest :
    (ins : Instruction) (p : List Instruction) (j : ℕ) → image (ins ∷ p) (8 + j) ≡ image p j
image_rest ins p j =
    let behind : ltb (8 + j) 8 ≡ false = ground arith in
    let back : 8 + j - 8 ≡ j = omega arith in rw behind (ap (image p) back)

image-Stands :
    (p : List Instruction) (ram : ℕ → ℕ) (at : ℕ)
    → ((j : ℕ) → j < 8 * length p → ram (at + j) ≡ image p j)
    → Stands ram at p
image-Stands [] ram at same = tt
image-Stands (ins ∷ p) ram at same = (
  λ k lt. same k (omega (arith, lt)) ∙ image_first ins p k lt,
  image-Stands p ram (at + 8) (λ j lt.
      let there : at + 8 + j ≡ at + (8 + j) = omega arith in
      ap ram there ∙ same (8 + j) (omega (arith, lt)) ∙ image_rest ins p j),
)

-- A program that fits the memory stands in it once it is loaded.
pub vm_load_program-Stands :
    (p : List Instruction) (v : VmState)
    → 8 * length p ≤ v.mem_size
    → Stands (vm_load_program (image p) (8 * length p) v).ram 0 p
unfolding vm_load_program
vm_load_program-Stands p v room =
    let whole : ltb v.mem_size (8 * length p) ≡ false = ground (arith, room) in
    rw whole (
      image-Stands p (λ i. if ltb i (8 * length p) then image p i else v.ram i) 0
        (λ j lt.
          let at : 0 + j ≡ j = omega arith in
          let inside : ltb j (8 * length p) ≡ true = ground (arith, lt) in rw (at, inside) refl))
