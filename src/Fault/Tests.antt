-- ===== src/Fault/Tests.antt =====
-- The statements on i386/whitex/fault.h at a concrete directory.
use whitex_kernel.Prelude.{◌≡◌, ◌==◌, refl, if◌then◌else◌, none, some}
use whitex_kernel.Prelude.Words.{bit}
use whitex_kernel.Fault.{Words, enforce_strict_memory_protection}
use whitex_kernel.Fault.Locked.{user, walk, read_at, write_at, enforce_strict_memory_protection_lem}

-- a directory at 4096 with one table at 8192, and page 5 in frame 9
abbrev tables : Words
tables a = if a == 4096 then 8199 else if a == 8212 then 36871 else 0

enforce_strict_memory_protection_lem_example :
    (read_at user 4096 20500 (enforce_strict_memory_protection 4096 tables)
      ≡ read_at user 4096 20500 tables)
    × (write_at user 4096 20500 (enforce_strict_memory_protection 4096 tables) ≡ none)
enforce_strict_memory_protection_lem_example =
    enforce_strict_memory_protection_lem user 4096 20500 tables

-- before, the page can be written by the user
writable : write_at user 4096 20500 tables ≡ some 36884
unfolding walk bit
writable = refl
