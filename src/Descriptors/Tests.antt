-- ===== src/Descriptors/Tests.antt =====
-- The statements on i386/whitex/gdt.h and i386/whitex/idt.h at concrete gates.
use whitex_kernel.Prelude.{ℕ, ◌≡◌, ◌≢◌, ◌/◌, arith}
use whitex_kernel.Descriptors.{Gdt, gdt_set_gate, Idt}
use whitex_kernel.Descriptors.Layout.{read_segment, read_segment-gdt_set_gate}

abbrev blank : Gdt
blank i = record {
  limit_low = 0;
  base_low = 0;
  base_middle = 0;
  access = 0;
  granularity = 0;
  base_high = 0;
}

-- a code segment at the second megabyte
read_segment-gdt_set_gate_example :
    (read_segment (gdt_set_gate 1 0x0020_0000 0x000F_FFFF 0x9A 0xCF blank 1)
      ≡ record { base = 0x0020_0000; limit = 0x000F_FFFF; access = 0x9A; flags = 0xCF / 16 })
    × ((j : ℕ) → j ≢ 1 → gdt_set_gate 1 0x0020_0000 0x000F_FFFF 0x9A 0xCF blank j ≡ blank j)
read_segment-gdt_set_gate_example =
    read_segment-gdt_set_gate 1 0x0020_0000 0x000F_FFFF 0x9A 0xCF blank (omega arith) (omega arith)
      (omega arith) (omega arith)

abbrev stale : Idt
stale i = record { base_lo = 7; sel = 7; always0 = 7; flags = 255; base_hi = 7 }
