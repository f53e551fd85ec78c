-- ===== src/Disk/Copies.antt =====
-- The sectors and the tree that i386/whitex/sdd.h writes are plain copies of memory.
use whitex_kernel.Prelude.{
  ℕ, zero, suc, ◌+◌, ◌*◌, ◌%◌, ◌≤◌, ◌<◌, ◌≡◌, ◌≢◌, refl, true, some, ◌++◌, ne_test, arith,
  Bool-cases, inl, inr, ap, ◌∙◌,
}
use whitex_kernel.Prelude.Int.{pos}
use whitex_kernel.Prelude.Words.{bit}
use whitex_kernel.Disk.{
  Memory, max_polls, wait_data, select, send_words, ata_write_sectors, write_block, StorageDevice,
  dev_ata, no_device, probe, sync_from, fs_sync,
}
use whitex_kernel.Disk.Drive.{
  Drive, takes, copied, takes_append, copied_none, copied_more, copied_ext, takes-send_words,
  takes-select,
}

-- From each read of the status port on, the drive is ready within the timeout.
abbrev pub Ready : (ℕ → ℕ) → Type 0
Ready status = (p : ℕ) → (n : ℕ) × (n < max_polls) × (bit (status (p + n)) 3 ≡ true)

wait_in_time :
    (status : ℕ → ℕ) (k p n : ℕ)
    → n < k
    → bit (status (p + n)) 3 ≡ true
    → (later : ℕ) × (wait_data status k p ≡ some later)
unfolding wait_data
wait_in_time status zero p n lt up = absurd (omega (arith, lt))
wait_in_time status (suc k) p zero lt up =
    let now : bit (status p) 3 ≡ true = ap (λ i. bit (status i) 3) (omega arith) ∙ up in
    (p + 1, rw (now, wait_data) refl)
wait_in_time status (suc k) p (suc n) lt up = elim (Bool-cases (bit (status p) 3)) [
  | inl now ↦ (p + 1, rw (now, wait_data) refl)
  | inr waits ↦
      rw (waits, wait_data)
        (wait_in_time status k (p + 1) n (omega (arith, lt))
          (ap (λ i. bit (status i) 3) (omega arith) ∙ up))
]

sector-copied :
    (lba buffer : ℕ) (m : Memory) (d : Drive) (w : ℕ)
    → lba < 268435456
    → (takes (select lba 0x30 ++ send_words 256 buffer m) d).words w
      ≡ copied (256 * lba) 256 buffer m d.words w
sector-copied lba buffer m d w lt =
    let d1 = takes (select lba 0x30) d in
    let (at, same) = takes-select lba d lt in
    let (c, sent) = takes-send_words 256 buffer m d1 w in
    ap (λ (e : Drive). e.words w) (takes_append (select lba 0x30) (send_words 256 buffer m) d)
    ∙ sent
    ∙ ap (λ k. copied k 256 buffer m d1.words w) at
    ∙ ap (λ v. copied (256 * lba) 256 buffer m v w) same

-- The sectors written are the bytes of the buffer in order, and no other, when the drive is ready in time
-- and the sectors lie below the 2 ^ 28 of the address.
pub ata_write_sectors-copied :
    (status : ℕ → ℕ) (count p lba buffer : ℕ) (m : Memory) (d : Drive) (w : ℕ)
    → Ready status
    → lba + count ≤ 268435456
    → ((ata_write_sectors status p lba count buffer m).code ≡ pos 0)
      × ((takes (ata_write_sectors status p lba count buffer m).events d).words w
          ≡ copied (256 * lba) (256 * count) buffer m d.words w)
unfolding ata_write_sectors takes
ata_write_sectors-copied status zero p lba buffer m d w ready fits = (
  refl,
  copied_none (256 * lba) buffer m d.words w
      ∙ ap (λ k. copied (256 * lba) k buffer m d.words w) (omega arith),
)
ata_write_sectors-copied status (suc count) p lba buffer m d w ready fits =
    let (n, soon, up) = ready p in
    let (later, waits) = wait_in_time status max_polls p n soon up in
    let first = select lba 0x30 ++ send_words 256 buffer m in
    let next : (lba + 1) % 18446744073709551616 ≡ lba + 1 = omega (arith, fits) in
    let (code, rest) =
      ata_write_sectors-copied status count later (lba + 1) (buffer + 512) m (takes first d) w ready
        (omega (arith, fits)) in
    rw (waits, ata_write_sectors, next)
      (
        code,
        ap (λ (e : Drive). e.words w)
              (takes_append first
                (ata_write_sectors status later (lba + 1) count (buffer + 512) m).events d)
            ∙ rest
            ∙ copied_ext (256 * (lba + 1)) (256 * count) (buffer + 512) m (takes first d).words
                (copied (256 * lba) 256 buffer m d.words) w
                (sector-copied lba buffer m d w (omega (arith, fits)))
            ∙ ap
                (λ c.
                  copied c (256 * count) (buffer + 512) m (copied (256 * lba) 256 buffer m d.words)
                    w)
                (omega arith)
            ∙ copied_more 256 (256 * count) (256 * lba) buffer m d.words w
            ∙ ap (λ k. copied (256 * lba) k buffer m d.words w) (omega arith),
      )

abbrev attached : StorageDevice
attached = record { type = dev_ata; read = true; write = true }

sync_from-copied :
    (status : ℕ → ℕ) (n i p storage : ℕ) (m : Memory) (d : Drive) (w : ℕ)
    → Ready status
    → i + n ≤ 12
    → (takes (sync_from status n i p storage attached m).events d).words w
      ≡ copied (256 * (100 + i)) (256 * n) (storage + 512 * i) m d.words w
unfolding sync_from write_block takes
sync_from-copied status zero i p storage m d w ready le =
    copied_none (256 * (100 + i)) (storage + 512 * i) m d.words w
    ∙ ap (λ k. copied (256 * (100 + i)) k (storage + 512 * i) m d.words w) (omega arith)
sync_from-copied status (suc n) i p storage m d w ready le =
    let t = ata_write_sectors status p (100 + i) 1 (storage + i * 512) m in
    let (code, block) =
      ata_write_sectors-copied status 1 p (100 + i) (storage + i * 512) m d w ready
        (omega (arith, le)) in
    let rest = sync_from status n (i + 1) t.polls storage attached m in
    let near : copied (256 * (100 + i)) (256 * 1) (storage + i * 512) m d.words w
        ≡ copied (256 * (100 + i)) 256 (storage + 512 * i) m d.words w =
      ap (λ a. copied (256 * (100 + i)) 256 a m d.words w) (omega arith) in
    ap (λ (e : Drive). e.words w) (takes_append t.events rest.events d)
    ∙ sync_from-copied status n (i + 1) t.polls storage m (takes t.events d) w ready
        (omega (arith, le))
    ∙ copied_ext (256 * (100 + (i + 1))) (256 * n) (storage + 512 * (i + 1)) m
        (takes t.events d).words (copied (256 * (100 + i)) 256 (storage + 512 * i) m d.words) w
        (block ∙ near)
    ∙ ap
        (λ c.
          copied c (256 * n) (storage + 512 * (i + 1)) m
            (copied (256 * (100 + i)) 256 (storage + 512 * i) m d.words) w)
        (omega arith)
    ∙ ap
        (λ a.
          copied (256 * (100 + i) + 256) (256 * n) a m
            (copied (256 * (100 + i)) 256 (storage + 512 * i) m d.words) w)
        (omega arith)
    ∙ copied_more 256 (256 * n) (256 * (100 + i)) (storage + 512 * i) m d.words w
    ∙ ap (λ k. copied (256 * (100 + i)) k (storage + 512 * i) m d.words w) (omega arith)

-- When a drive was found, and it is ready in time, the directory tree is copied to the disk from sector 100
-- on, with 512 bytes that lie behind it, and the rest of the disk is kept.
pub fs_sync-copied :
    (status : ℕ → ℕ) (first p storage : ℕ) (m : Memory) (d : Drive) (w : ℕ)
    → Ready status
    → first ≢ 0xFF
    → (takes (fs_sync status p storage (probe first no_device) m).events d).words w
      ≡ copied 25600 3072 storage m d.words w
unfolding fs_sync probe
fs_sync-copied status first p storage m d w ready there =
    rw (ne_test there, probe)
      (sync_from-copied status 12 0 p storage m d w ready (omega arith)
        ∙ ap (λ a. copied 25600 3072 a m d.words w) (omega arith))
