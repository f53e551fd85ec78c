-- ===== src/Fault.antt =====
-- The last steps after a fault, i386/whitex/fault.h. Memory is the function of its words of 32 bits by their
-- addresses. The ports of the disk are those of Disk.
pub mod Locked
pub mod Tests
use whitex_kernel.Prelude.{
  ℕ, zero, suc, ◌+◌, ◌-◌, ◌*◌, ◌/◌, ◌%◌, Bool, true, false, Option, none, some, List, [], ◌∷◌, ◌++◌,
  ltb, ◌&&◌, ◌||◌, ◌==◌, not, if◌then◌else◌, update,
}
use whitex_kernel.Prelude.Words.{bit, clear_bit}
use whitex_kernel.Kernel.Shell.{codes}
use whitex_kernel.Disk.{Event, outb, outw}

-- words by their addresses
abbrev pub Words : Type 0
Words = ℕ → ℕ

-- an entry that is present loses its write bit
unfoldable pub lock_entry : (at : ℕ) → Words → Words
lock_entry at m = if bit (m at) 0 then update m at (clear_bit (m at) 1) else m

-- the loop over a page table from entry `i` on
unfoldable pub lock_table : (rounds i page_table : ℕ) → Words → Words
lock_table zero i page_table m = m
lock_table (suc k) i page_table m =
    lock_table k (i + 1) page_table (lock_entry (page_table + 4 * i) m)

-- the loop over the page directory
unfoldable pub lock_directory : (rounds i page_directory : ℕ) → Words → Words
lock_directory zero i page_directory m = m
lock_directory (suc k) i page_directory m = elim (bit (m (page_directory + 4 * i)) 0) [
  | false ↦ lock_directory k (i + 1) page_directory m
  | true ↦
      let m' = lock_entry (page_directory + 4 * i) m in
      let page_table = m' (page_directory + 4 * i) / 4096 * 4096 in
      lock_directory k (i + 1) page_directory (lock_table 1024 0 page_table m')
]

unfoldable pub enforce_strict_memory_protection : (cr3 : ℕ) → Words → Words
enforce_strict_memory_protection cr3 m = lock_directory 1024 0 (cr3 / 4096 * 4096) m

-- The wait for data, up to a number of reads of the status port from `polls` on; `none` means that they did
-- not suffice.
unfoldable pub wait_start : (status : ℕ → ℕ) (rounds polls : ℕ) → Option ℕ
wait_start status zero polls = none
wait_start status (suc k) polls = elim (bit (status polls) 7 && not (bit (status polls) 3)) [
  | true ↦ wait_start status k (polls + 1)
  | false ↦ some (polls + 1)
]

-- the wait for the end
unfoldable pub wait_idle : (status : ℕ → ℕ) (rounds polls : ℕ) → Option ℕ
wait_idle status zero polls = none
wait_idle status (suc k) polls = elim (bit (status polls) 7) [
  | true ↦ wait_idle status k (polls + 1)
  | false ↦ some (polls + 1)
]

-- the words of 16 bits sent from the address `a` on
unfoldable pub flush_words : (words16 : ℕ → ℕ) (count a : ℕ) → List Event
flush_words words16 zero a = []
flush_words words16 (suc k) a = outw (words16 a) ∷ flush_words words16 k (a + 2)

abbrev pub flush_command : (start_lba sector_count : ℕ) → List Event
flush_command start_lba sector_count =
    outb 0x1F6 (0xE0 + start_lba / 16777216 % 16)
    ∷ outb 0x1F2 sector_count
    ∷ outb 0x1F3 (start_lba % 256)
    ∷ outb 0x1F4 (start_lba / 256 % 256)
    ∷ outb 0x1F5 (start_lba / 65536 % 256)
    ∷ outb 0x1F7 0x30
    ∷ []

-- The events and the reads of the status port so far; `rounds` bounds each wait.
unfoldable pub ata_pio_force_disk_flush :
    (status words16 : ℕ → ℕ) (rounds polls start_lba sector_count source_address : ℕ)
    → Option (List Event × ℕ)
ata_pio_force_disk_flush status words16 rounds polls start_lba sector_count source_address =
    elim (wait_start status rounds polls) [
      | none ↦ none
      | some started ↦ elim (wait_idle status rounds started) [
        | none ↦ none
        | some done ↦ some (
          flush_command start_lba sector_count
              ++ flush_words words16 (sector_count * 512 / 2) source_address
              ++ (outb 0x1F7 0xE7 ∷ []),
          done,
        )
      ]
    ]

abbrev pub Screen : Type 0
Screen = ℕ → ℕ

-- the loop over the message, up to its NUL, from the cell `index` on
unfoldable pub print_cells : (message : List ℕ) (index : ℕ) → Screen → Screen
print_cells [] index cells = cells
print_cells (c ∷ message) index cells =
    print_cells message (index + 1) (update cells index (c + 0x4F00))

unfoldable pub secure_vga_print_panic : (message : List ℕ) → Screen → Screen
secure_vga_print_panic message cells =
    print_cells message 0 (λ i. if ltb i 2000 then 0x4F20 else cells i)

-- The loop that waits for a key other than the first, fed with the scancodes in order.
unfoldable pub wait_key : (initial_scancode : ℕ) → List ℕ → Option ℕ
wait_key initial_scancode [] = none
wait_key initial_scancode (c ∷ later) =
    let rest = wait_key initial_scancode later in
    if not (c == initial_scancode) && not (bit c 7) then some c else rest

-- Memory behind the fault, the events of the disk, and whether the stack is checked as too deep.
unfoldable pub watch_stack : (current_esp : ℕ) → Bool
watch_stack current_esp = ltb current_esp 0x10000

-- the half of a word at an even address
abbrev pub half_at : Words → ℕ → ℕ
half_at m a = if a % 4 == 0 then m a % 65536 else m (a - 2) / 65536 % 65536

abbrev pub panic_message : List ℕ
panic_message =
    codes "CRITICAL SYSTEM FAILURE. MEMORY LOCKED. DISK FLUSHED. PRESS ANY KEY TO REBOOT."

-- What `faulthandler` does before it waits for a key: memory, screen and disk. What it flushes is read after
-- the memory is protected.
unfoldable pub faulthandler :
    (status : ℕ → ℕ) (rounds cr3 : ℕ) → Words × Screen → Option (Words × Screen × List Event)
faulthandler status rounds cr3 (m, cells) =
    let locked = enforce_strict_memory_protection cr3 m in
    let flush = ata_pio_force_disk_flush status (half_at locked) rounds in
    elim (flush 0 0 1 0x0010_0000) [
      | none ↦ none
      | some (first, polls) ↦ elim (flush polls 1 8 0x0010_0200) [
        | none ↦ none
        | some (second, done) ↦
            some (locked, secure_vga_print_panic panic_message cells, first ++ second)
      ]
    ]
