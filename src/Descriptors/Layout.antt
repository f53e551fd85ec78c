-- ===== src/Descriptors/Layout.antt =====
-- How the processor reads the entries that i386/whitex/gdt.h and i386/whitex/idt.h write.
use whitex_kernel.Prelude.{
  ℕ, zero, suc, ◌+◌, ◌*◌, ◌/◌, ◌%◌, ◌≤◌, ◌<◌, ◌≡◌, ◌≢◌, refl, Bool, true, false, arith, ne_test,
  eq_test, ◌==◌, ap, ◌∙◌, Bool-cases, inl, inr, if◌then◌else◌,
}
use whitex_kernel.Descriptors.{
  GdtEntry, Gdt, gdt_set_gate, init_gdt, IdtEntry, Idt, gate, idt_set_gate, clear_gates, init_idt,
}

-- What a descriptor means to the processor: `flags` are the four bits above the limit.
pub record Segment : Type 0 where
  pub base : ℕ
  pub limit : ℕ
  pub access : ℕ
  pub flags : ℕ

-- the layout of a segment descriptor
unfoldable pub read_segment : GdtEntry → Segment
read_segment e = record {
  base = e.base_low + 65536 * e.base_middle + 16777216 * e.base_high;
  limit = e.limit_low + 65536 * (e.granularity % 16);
  access = e.access;
  flags = e.granularity / 16;
}

-- the last byte of a segment, by the granularity bit of its flags
unfoldable pub last_byte : Segment → ℕ
last_byte s = if s.flags / 8 % 2 == 1 then s.base + s.limit * 4096 + 4095 else s.base + s.limit

segment_ext :
    (s t : Segment)
    → s.base ≡ t.base
    → s.limit ≡ t.limit
    → s.access ≡ t.access
    → s.flags ≡ t.flags
    → s ≡ t
segment_ext s t b l a f = λ i. record { base = b i; limit = l i; access = a i; flags = f i }

-- The processor reads from a segment descriptor the base, limit, access and flags that it was set with, when
-- the base has 32 bits, the limit 20, and the access and the flags are bytes, and the others are kept.
pub read_segment-gdt_set_gate :
    (num base limit access gran : ℕ) (gdt : Gdt)
    → base < 4294967296
    → limit < 1048576
    → access < 256
    → gran < 256
    → (read_segment (gdt_set_gate num base limit access gran gdt num)
        ≡ record { base = base; limit = limit; access = access; flags = gran / 16 })
      × ((j : ℕ) → j ≢ num → gdt_set_gate num base limit access gran gdt j ≡ gdt j)
unfolding read_segment gdt_set_gate
read_segment-gdt_set_gate num base limit access gran gdt b l a g =
    let own : (num == num) ≡ true = eq_test refl in
    (
      rw own (
          segment_ext _ _ (omega (arith, b)) (omega (arith, l)) (omega (arith, a))
            (omega (arith, g))),
      λ j apart. rw (ne_test apart) refl,
    )

-- After the start both segments cover the whole address space, and the null segment stands.
pub init_gdt-whole :
    (at : ℕ) (gdt : Gdt)
    → (last_byte (read_segment ((init_gdt at gdt).1 1)) ≡ 4294967295)
      × ((read_segment ((init_gdt at gdt).1 1)).base ≡ 0)
      × (last_byte (read_segment ((init_gdt at gdt).1 2)) ≡ 4294967295)
      × ((read_segment ((init_gdt at gdt).1 2)).base ≡ 0)
unfolding init_gdt read_segment last_byte
init_gdt-whole at gdt = (refl, refl, refl, refl)

-- What an interrupt gate means to the processor.
pub record Handler : Type 0 where
  pub address : ℕ
  pub selector : ℕ
  pub present : Bool

unfoldable pub read_handler : IdtEntry → Handler
read_handler e = record {
  address = e.base_lo + 65536 * e.base_hi;
  selector = e.sel;
  present = e.flags / 128 % 2 == 1;
}

handler_ext :
    (s t : Handler)
    → s.address ≡ t.address
    → s.selector ≡ t.selector
    → s.present ≡ t.present
    → s ≡ t
handler_ext s t a b c = λ i. record { address = a i; selector = b i; present = c i }

-- The processor reads from a gate the handler that it was set with, when the address has 32 bits.
pub read_handler-idt_set_gate :
    (num base sel flags : ℕ) (idt : Idt)
    → num < 256
    → base < 4294967296
    → (read_handler (idt_set_gate num base sel flags idt num)
        ≡ record { address = base; selector = sel; present = flags / 128 % 2 == 1 })
      × ((j : ℕ) → j ≢ num → idt_set_gate num base sel flags idt j ≡ idt j)
unfolding read_handler idt_set_gate
read_handler-idt_set_gate num base sel flags idt n b =
    let small : num % 256 ≡ num = omega (arith, n) in
    let own : (num == num % 256) ≡ true = eq_test (omega (arith, n)) in
    (
      rw own (handler_ext _ _ (omega (arith, b)) refl refl),
      λ j apart.
          let other : (j == num % 256) ≡ false = ne_test (λ e. apart (e ∙ small)) in rw other refl,
    )

clear_gates_below :
    (n i : ℕ) (idt : Idt) (j : ℕ) → i + n ≤ 256 → j < i → clear_gates n i idt j ≡ idt j
unfolding clear_gates idt_set_gate
clear_gates_below zero i idt j le lt = refl
clear_gates_below (suc n) i idt j le lt =
    let other : (j == i % 256 % 256) ≡ false = ground (arith, lt) in
    clear_gates_below n (i + 1) (idt_set_gate (i % 256) 0 0 0 idt) j (omega (arith, le))
      (omega (arith, lt))
    ∙ (rw other refl)

clear_gates_within :
    (n i : ℕ) (idt : Idt) (j : ℕ)
    → i + n ≤ 256
    → i ≤ j
    → j < i + n
    → clear_gates n i idt j ≡ gate 0 0 0
unfolding clear_gates idt_set_gate
clear_gates_within zero i idt j le from lt = absurd (omega (arith, from, lt))
clear_gates_within (suc n) i idt j le from lt = elim (Bool-cases (i == j)) [
  | inl here ↦
      let own : (j == i % 256 % 256) ≡ true = ground (arith, here, le) in
      clear_gates_below n (i + 1) (idt_set_gate (i % 256) 0 0 0 idt) j (omega (arith, le))
        (ground (arith, here))
      ∙ (rw own refl)
  | inr later ↦
      clear_gates_within n (i + 1) (idt_set_gate (i % 256) 0 0 0 idt) j (omega (arith, le))
        (ground (arith, later, from)) (omega (arith, lt))
]

-- After the start no gate is present: an interrupt finds no handler.
pub init_idt-absent :
    (at : ℕ) (idt : Idt) (j : ℕ)
    → j < 256
    → read_handler ((init_idt at idt).1 j) ≡ record { address = 0; selector = 0; present = false }
unfolding init_idt read_handler
init_idt-absent at idt j lt =
    ap read_handler (clear_gates_within 256 0 idt j (omega arith) (omega arith) (omega (arith, lt)))
