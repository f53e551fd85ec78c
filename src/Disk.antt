-- ===== src/Disk.antt =====
-- The disk driver of i386/whitex/sdd.h and the writing of the directory tree to the disk, there and in
-- i386/whitex/fssdd.h. The drive is a parameter: `status n` is what the n-th read of the status port gives,
-- `words_in n` the n-th word read from the data port. What the code writes to the ports is a list of events.
pub mod Drive
pub mod Copies
pub mod Tests
use whitex_kernel.Prelude.{
  ℕ, zero, suc, ◌+◌, ◌-◌, ◌*◌, ◌/◌, ◌%◌, Bool, true, false, Option, none, some, List, [], ◌∷◌, ◌++◌,
  ltb, ◌&&◌, ◌==◌, not, if◌then◌else◌,
}
use whitex_kernel.Prelude.Int.{ℤ, pos, negsuc}
use whitex_kernel.Prelude.Words.{bit}

-- a byte written to a port, or a word to the data port
pub data Event : Type 0 where
  outb : (port value : ℕ) → Event
  outw : (value : ℕ) → Event

abbrev pub Memory : Type 0
Memory = ℕ → ℕ

-- the word at an even distance behind a pointer
abbrev pub word_at : Memory → ℕ → ℕ
word_at m a = m a + 256 * m (a + 1)

-- the reads of the status port that the timeout allows
abbrev pub max_polls : ℕ
max_polls = 1000001

-- The wait for the drive, from the status read `polls` on, which returns the number of reads so far; `none`
-- is the timeout.
unfoldable pub wait_data : (status : ℕ → ℕ) (rounds polls : ℕ) → Option ℕ
wait_data status zero polls = none
wait_data status (suc k) polls = elim (bit (status polls) 3) [
  | true ↦ some (polls + 1)
  | false ↦ wait_data status k (polls + 1)
]

-- the sector address and the command
unfoldable pub select : (lba command : ℕ) → List Event
select lba command =
    outb 0x1F6 (0xE0 + lba / 16777216 % 16)
    ∷ outb 0x1F2 1
    ∷ outb 0x1F3 (lba % 256)
    ∷ outb 0x1F4 (lba / 256 % 256)
    ∷ outb 0x1F5 (lba / 65536 % 256)
    ∷ outb 0x1F7 command
    ∷ []

-- the loop that sends words, from the address `a` on
unfoldable pub send_words : (count a : ℕ) → Memory → List Event
send_words zero a m = []
send_words (suc k) a m = outw (word_at m a) ∷ send_words k (a + 2) m

-- what a transfer returns, the reads of the status port so far, and what it wrote to the ports
pub record Transfer : Type 0 where
  pub code : ℤ
  pub polls : ℕ
  pub events : List Event

abbrev pub after_events : List Event → Transfer → Transfer
after_events events t = record t { events = events ++ t.events }

unfoldable pub ata_write_sectors : (status : ℕ → ℕ) (polls lba count buffer : ℕ) → Memory → Transfer
ata_write_sectors status polls lba zero buffer m = record {
  code = pos 0;
  polls = polls;
  events = [];
}
ata_write_sectors status polls lba (suc count) buffer m = elim (wait_data status max_polls polls) [
  | none ↦ record { code = negsuc 0; polls = polls + max_polls; events = select lba 0x30 }
  | some later ↦
      after_events (select lba 0x30 ++ send_words 256 buffer m)
        (ata_write_sectors status later ((lba + 1) % 18446744073709551616) count (buffer + 512) m)
]

-- the loop that receives words
unfoldable pub receive_words : (words_in : ℕ → ℕ) (count n a : ℕ) → Memory → Memory
receive_words words_in zero n a m = m
receive_words words_in (suc k) n a m =
    receive_words words_in k (n + 1) (a + 2)
      (λ i. if i == a then words_in n % 256 else if i == a + 1 then words_in n / 256 % 256 else m i)

-- `n` words have been read from the data port before
unfoldable pub ata_read_sectors :
    (status words_in : ℕ → ℕ) (polls n lba count buffer : ℕ) → Memory → Transfer × Memory
ata_read_sectors status words_in polls n lba zero buffer m =
    (record { code = pos 0; polls = polls; events = [] }, m)
ata_read_sectors status words_in polls n lba (suc count) buffer m =
    elim (wait_data status max_polls polls) [
      | none ↦ (record { code = negsuc 0; polls = polls + max_polls; events = select lba 0x20 }, m)
      | some later ↦
          let (t, m') =
            ata_read_sectors status words_in later (n + 256) ((lba + 1) % 18446744073709551616)
              count (buffer + 512) (receive_words words_in 256 n buffer m) in
          (after_events (select lba 0x20) t, m')
    ]

pub data StorageType : Type 0 where
  dev_none dev_ata : StorageType

-- `storage_device_t`: a pointer is null or to the routine of this file
pub record StorageDevice : Type 0 where
  pub type : StorageType
  pub read : Bool
  pub write : Bool

-- what `primary_dev` starts with
abbrev pub no_device : StorageDevice
no_device = record { type = dev_none; read = false; write = false }

-- `first` is what the status port gives
unfoldable pub probe : (first : ℕ) → StorageDevice → StorageDevice
probe first d =
    if not (first == 0xFF) then record { type = dev_ata; read = true; write = true } else d

unfoldable pub read_block :
    (status words_in : ℕ → ℕ) (polls n block_id buffer : ℕ)
    → StorageDevice
    → Memory
    → Transfer × Memory
read_block status words_in polls n block_id buffer d m =
    if d.read
    then ata_read_sectors status words_in polls n block_id 1 buffer m
    else (record { code = negsuc 0; polls = polls; events = [] }, m)

unfoldable pub write_block :
    (status : ℕ → ℕ) (polls block_id buffer : ℕ) → StorageDevice → Memory → Transfer
write_block status polls block_id buffer d m =
    if d.write
    then ata_write_sectors status polls block_id 1 buffer m
    else record { code = negsuc 0; polls = polls; events = [] }

-- 128 nodes of 44 bytes
abbrev pub storage_size : ℕ
storage_size = 5632

-- The loop of `fs_sync` from block `i` on, with the nodes at the address `storage`. What `write_block`
-- returns is dropped.
unfoldable pub sync_from :
    (status : ℕ → ℕ) (rounds i polls storage : ℕ) → StorageDevice → Memory → Transfer
sync_from status zero i polls storage d m = record { code = pos 0; polls = polls; events = [] }
sync_from status (suc k) i polls storage d m =
    let t = write_block status polls (100 + i) (storage + i * 512) d m in
    after_events t.events (sync_from status k (i + 1) t.polls storage d m)

-- the same in `Sdd_Sync`, but for the message
unfoldable pub fs_sync : (status : ℕ → ℕ) (polls storage : ℕ) → StorageDevice → Memory → Transfer
fs_sync status polls storage d m = sync_from status (storage_size / 512 + 1) 0 polls storage d m
