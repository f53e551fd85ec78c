-- ===== src/Descriptors.antt =====
-- The descriptor tables of i386/whitex/gdt.h and i386/whitex/idt.h, with the ports of the interrupt
-- controller. The fields that share a byte do not meet, so that `|` is a sum.
pub mod Layout
pub mod Tests
use whitex_kernel.Prelude.{ℕ, zero, suc, ◌+◌, ◌-◌, ◌*◌, ◌/◌, ◌%◌, List, [], ◌∷◌, update, each_from}

-- `gdt_entry_t`
pub record GdtEntry : Type 0 where
  pub limit_low : ℕ
  pub base_low : ℕ
  pub base_middle : ℕ
  pub access : ℕ
  pub granularity : ℕ
  pub base_high : ℕ

-- `gdt_ptr_t` and `idt_ptr_t`
pub record TablePtr : Type 0 where
  pub limit : ℕ
  pub base : ℕ

abbrev pub Gdt : Type 0
Gdt = ℕ → GdtEntry

unfoldable pub gdt_set_gate : (num base limit access gran : ℕ) → Gdt → Gdt
gdt_set_gate num base limit access gran gdt = update gdt num (record {
  limit_low = limit % 65536;
  base_low = base % 65536;
  base_middle = base / 65536 % 256;
  access = access % 256;
  granularity = limit / 65536 % 16 + gran % 256 / 16 * 16;
  base_high = base / 16777216 % 256;
})

-- the table at the address `at` and what `lgdt` loads
unfoldable pub init_gdt : (at : ℕ) → Gdt → TablePtr × Gdt
unfolding gdt_set_gate
init_gdt at gdt = (
  record { limit = 8 * 3 - 1; base = at },
  gdt_set_gate 2 0 0xFFFF_FFFF 0x92 0xCF
      (gdt_set_gate 1 0 0xFFFF_FFFF 0x9A 0xCF (gdt_set_gate 0 0 0 0 0 gdt)),
)

-- `idt_entry_t`
pub record IdtEntry : Type 0 where
  pub base_lo : ℕ
  pub sel : ℕ
  pub always0 : ℕ
  pub flags : ℕ
  pub base_hi : ℕ

abbrev pub Idt : Type 0
Idt = ℕ → IdtEntry

-- the entry that `idt_set_gate` writes
abbrev pub gate : (base sel flags : ℕ) → IdtEntry
gate base sel flags = record {
  base_lo = base % 65536;
  sel = sel;
  always0 = 0;
  flags = flags;
  base_hi = base / 65536 % 65536;
}

-- `num` is a byte
unfoldable pub idt_set_gate : (num base sel flags : ℕ) → Idt → Idt
idt_set_gate num base sel flags idt = update idt (num % 256) (gate base sel flags)

-- the bytes written to the ports, in order
unfoldable pub pic_remap : List (ℕ × ℕ)
pic_remap =
    (0x20, 0x11)
    ∷ (0xA0, 0x11)
    ∷ (0x21, 0x20)
    ∷ (0xA1, 0x28)
    ∷ (0x21, 0x04)
    ∷ (0xA1, 0x02)
    ∷ (0x21, 0x01)
    ∷ (0xA1, 0x01)
    ∷ (0x21, 0x0)
    ∷ (0xA1, 0x0)
    ∷ []

-- the loop over the gates from `i` on
unfoldable pub clear_gates : (rounds i : ℕ) → Idt → Idt
clear_gates zero i idt = idt
clear_gates (suc k) i idt = clear_gates k (i + 1) (idt_set_gate (i % 256) 0 0 0 idt)

-- the table at the address `at`, what `lidt` loads, and the ports written
unfoldable pub init_idt : (at : ℕ) → Idt → TablePtr × Idt × List (ℕ × ℕ)
init_idt at idt = (record { limit = 8 * 256 - 1; base = at }, clear_gates 256 0 idt, pic_remap)
