-- ===== src/Disk/Tests.antt =====
-- The statements on i386/whitex/sdd.h for a drive that is always ready.
use whitex_kernel.Prelude.{ℕ, ◌+◌, ◌*◌, ◌≡◌, refl, [], arith}
use whitex_kernel.Prelude.Words.{bit}
use whitex_kernel.Disk.{Memory, fs_sync, probe, no_device, write_block}
use whitex_kernel.Disk.Drive.{Drive, takes, copied}
use whitex_kernel.Disk.Copies.{Ready, fs_sync-copied}

-- ready, and asking for data
abbrev asks : ℕ → ℕ
asks n = 0x58

asks-Ready : Ready asks
unfolding bit
asks-Ready p = (0, omega arith, refl)

abbrev counted : Memory
counted i = i

abbrev drive : Drive
drive = record { device = 0; low = 0; middle = 0; high = 0; cursor = 0; words = λ w. 7 }

fs_sync-copied_example :
    (takes (fs_sync asks 0 4096 (probe 0x50 no_device) counted).events drive).words 25601
    ≡ copied 25600 3072 4096 counted drive.words 25601
fs_sync-copied_example =
    fs_sync-copied asks 0x50 0 4096 counted drive 25601 asks-Ready (λ e. omega (arith, e))

-- without a drive nothing is written
no_drive : (write_block asks 0 100 4096 (probe 0xFF no_device) counted).events ≡ []
unfolding write_block probe
no_drive = refl

-- the tree of 5632 bytes ends inside the copy
behind : copied 25600 3072 4096 counted drive.words 28416 ≡ 4096 + 5632 + 256 * (4096 + 5633)
behind = refl
