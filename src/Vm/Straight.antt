-- ===== src/Vm/Straight.antt =====
-- Programs without jumps on the virtual machine of i386/whitex/vm.h: they end.
use whitex_kernel.Prelude.{
  ℕ, zero, suc, ◌+◌, ◌*◌, ◌^◌, ◌≤◌, ◌<◌, ◌≡◌, refl, Bool, true, false, List, [], ◌∷◌, ◌++◌, ltb,
  if◌then◌else◌, update, length, arith, Bool-cases, inl, inr, sym, ap, ◌∙◌,
}
use mathlib.Core.Path.{subst}
use whitex_kernel.Kernel.System.{KernelState, Outcome, runs, stopped, left, execute_syscall}
use whitex_kernel.Kernel.Sound.{Sound, Fine, fine}
use whitex_kernel.Kernel.Rounds.{execute_syscall-Fine}
use whitex_kernel.Vm.{
  VmState, alive, after_call, vm_step, Run, finished, going, loop_run, vm_run, vm_load_program,
}
use whitex_kernel.Vm.Code.{
  Instruction, call, set_register, jump, stop, InRange, image, Stands, vm_step-perform,
  vm_load_program-Stands,
}

-- an instruction that goes on behind itself
abbrev pub GoesOn : Instruction → Type 0
GoesOn (call n) = Unit
GoesOn (set_register r x) = Unit
GoesOn (jump t) = ⊥
GoesOn stop = ⊥

-- a program of such instructions, whose arguments fit
abbrev pub IsStraight : List Instruction → Type 0
IsStraight [] = Unit
IsStraight (ins ∷ p) = GoesOn ins × InRange ins × IsStraight p

-- the registers that a program leaves
abbrev pub registers_after : List Instruction → (ℕ → ℕ) → ℕ → ℕ
registers_after [] regs = regs
registers_after (set_register r x ∷ p) regs =
    registers_after p (if ltb r 16 then update regs r x else regs)
registers_after (call n ∷ p) regs = registers_after p regs
registers_after (jump t ∷ p) regs = registers_after p regs
registers_after (stop ∷ p) regs = registers_after p regs

-- the run has ended with these registers in a sound kernel
pub data Finishes (regs : ℕ → ℕ) : Run → Type 0 where
  finishes :
      {v : VmState} {s : KernelState} → v.registers ≡ regs → Sound s → Finishes regs (finished v s)

if_on : (b : Bool) (x y : Run) → b ≡ true → elim b [ true ↦ x | false ↦ y ] ≡ x
if_on b x y on = rw on refl

if_off : (b : Bool) (x y : Run) → b ≡ false → elim b [ true ↦ x | false ↦ y ] ≡ y
if_off b x y off = rw off refl

loop_step :
    (k : ℕ) (v : VmState) (s : KernelState)
    → v.running ≡ true
    → loop_run (suc k) (alive v s) ≡ loop_run k (vm_step v s)
unfolding loop_run
loop_step k v s on = if_on v.running (loop_run k (vm_step v s)) (finished v s) on

loop_over :
    (k : ℕ) (v : VmState) (s : KernelState)
    → v.running ≡ false
    → loop_run k (alive v s) ≡ finished v s
unfolding loop_run
loop_over zero v s off = if_off v.running (going v s) (finished v s) off
loop_over (suc k) v s off = if_off v.running (loop_run k (vm_step v s)) (finished v s) off

stop-InRange : InRange stop
stop-InRange = (omega arith, omega arith)

behind_call :
    (regs : ℕ → ℕ) (k : ℕ) (v : VmState) (o : Outcome)
    → Fine o
    → ((s : KernelState) → Sound s → Finishes regs (loop_run k (alive v s)))
    → Finishes regs (loop_run k (after_call v o))
behind_call regs k v (runs s) (fine ok) next = next s ok
behind_call regs k v (stopped s) ok next = elim ok [ ]
behind_call regs k v (left s) ok next = elim ok [ ]

-- the machine behind an instruction at `pc`
abbrev moved : VmState → VmState
moved v = record v { pc = v.pc + 8 }

abbrev set_at : ℕ → ℕ → VmState → VmState
set_at r x v = if ltb r 16 then record v { registers = update v.registers r x } else v

set_at_lem :
    (r x : ℕ) (v : VmState)
    → ((set_at r x v).registers ≡ (if ltb r 16 then update v.registers r x else v.registers))
      × ((set_at r x v).pc ≡ v.pc)
      × ((set_at r x v).ram ≡ v.ram)
      × ((set_at r x v).running ≡ v.running)
set_at_lem r x v = elim (Bool-cases (ltb r 16)) [
  | inl on ↦ rw on (refl, refl, refl, refl)
  | inr off ↦ rw off (refl, refl, refl, refl)
]

rounds_step :
    (p : List Instruction) (more : ℕ) (v : VmState) (s : KernelState)
    → v.running ≡ true
    → loop_run (suc (suc (length p) + more)) (alive v s)
      ≡ loop_run (suc (length p + more)) (vm_step v s)
rounds_step p more v s on =
    let rounds : suc (length p) + more ≡ suc (length p + more) = omega arith in
    ap (λ n. loop_run (suc n) (alive v s)) rounds ∙ loop_step (suc (length p + more)) v s on

straight_runs :
    (p : List Instruction) (more : ℕ) (v : VmState) (s : KernelState)
    → IsStraight p
    → Sound s
    → v.running ≡ true
    → Stands v.ram v.pc (p ++ (stop ∷ []))
    → v.pc + 8 * (length p + 1) < 2 ^ 64
    → Finishes (registers_after p v.registers) (loop_run (suc (length p + more)) (alive v s))
straight_runs [] more v s straight ok on (stands, rest) room =
    let ends : loop_run (suc (0 + more)) (alive v s)
        ≡ finished (record (moved v) { running = false }) s =
      loop_step (0 + more) v s on
      ∙ ap (loop_run (0 + more))
          (vm_step-perform stop v s stop-InRange stands (omega (arith, room)))
      ∙ loop_over (0 + more) (record (moved v) { running = false }) s refl in
    subst (λ r. Finishes v.registers r) (sym ends) (finishes refl ok)
straight_runs (call n ∷ p) more v s (_, range, straight) ok on (stands, rest) room =
    let k = suc (length p + more) in
    let regs = registers_after p v.registers in
    let called : loop_run (suc (suc (length p) + more)) (alive v s)
        ≡ loop_run k (after_call (moved v) (execute_syscall true n s)) =
      rounds_step p more v s on
      ∙ ap (loop_run k) (vm_step-perform (call n) v s range stands (omega (arith, room))) in
    subst (Finishes regs) (sym called) (
      behind_call regs k (moved v) (execute_syscall true n s) (execute_syscall-Fine n s ok)
        (λ t good. straight_runs p more (moved v) t straight good on rest (omega (arith, room))))
straight_runs (set_register r x ∷ p) more v s (_, range, straight) ok on (stands, rest) room =
    let k = suc (length p + more) in
    let w = set_at r x (moved v) in
    let (regs_is, pc_is, ram_is, running_is) = set_at_lem r x (moved v) in
    let regs = registers_after (set_register r x ∷ p) v.registers in
    let set : loop_run (suc (suc (length p) + more)) (alive v s) ≡ loop_run k (alive w s) =
      rounds_step p more v s on
      ∙ ap (loop_run k)
          (vm_step-perform (set_register r x) v s range stands (omega (arith, room))) in
    let stands_on : Stands w.ram w.pc (p ++ (stop ∷ [])) =
      subst (λ a. Stands w.ram a (p ++ (stop ∷ []))) (sym pc_is)
        (subst (λ m. Stands m (v.pc + 8) (p ++ (stop ∷ []))) (sym ram_is) rest) in
    subst (Finishes regs) (sym set) (
      subst (λ g. Finishes (registers_after p g) (loop_run k (alive w s))) regs_is
        (straight_runs p more w s straight ok (running_is ∙ on) stands_on
          (omega (arith, room, pc_is))))
straight_runs (jump t ∷ p) more v s (never, range, straight) ok on stands room = absurd never
straight_runs (stop ∷ p) more v s (never, range, straight) ok on stands room = absurd never

length-stop : (p : List Instruction) → length (p ++ (stop ∷ [])) ≡ length p + 1
length-stop [] = omega arith
length-stop (ins ∷ p) = omega (arith, length-stop p)

loaded_lem :
    (program : ℕ → ℕ) (size : ℕ) (v : VmState)
    → ((vm_load_program program size v).pc ≡ v.pc)
      × ((vm_load_program program size v).registers ≡ v.registers)
unfolding vm_load_program
loaded_lem program size v = elim (Bool-cases (ltb v.mem_size size)) [
  | inl over ↦ rw over (refl, refl)
  | inr fits ↦ rw fits (refl, refl)
]

-- A program without jumps, loaded with a stop behind it, ends: with one round for each instruction and
-- one for the stop, or more, the run is over, the registers are what the program sets, and the kernel
-- is sound.
pub vm_run-Finishes :
    (p : List Instruction) (more : ℕ) (v : VmState) (s : KernelState)
    → IsStraight p
    → Sound s
    → v.pc ≡ 0
    → 8 * (length p + 1) ≤ v.mem_size
    → v.mem_size < 2 ^ 32
    → let program = p ++ (stop ∷ []) in
      Finishes
        (registers_after p v.registers)
        (vm_run (suc (length p + more)) (vm_load_program (image program) (8 * length program) v) s)
unfolding vm_run
vm_run-Finishes p more v s straight ok start room small =
    let program = p ++ (stop ∷ []) in
    let size = 8 * length program in
    let loaded = vm_load_program (image program) size v in
    let many = length-stop p in
    let (pc_is, regs_is) = loaded_lem (image program) size v in
    let stands : Stands loaded.ram loaded.pc program =
      subst (λ a. Stands loaded.ram a program) (sym (pc_is ∙ start))
        (vm_load_program-Stands program v (omega (arith, many, room))) in
    subst (λ g. Finishes (registers_after p g) (vm_run (suc (length p + more)) loaded s)) regs_is
      (straight_runs p more (record loaded { running = true }) s straight ok refl stands
        (omega (arith, pc_is, start, room, small)))
