-- ===== src/Kernel/Memory.antt =====
-- The copies and comparisons of memory in i386/whitex/Kernel.c and i386/whitex/strcmp.h.
use whitex_kernel.Prelude.{ℕ, List, [], ◌∷◌, ltb, ◌==◌, if◌then◌else◌}
use whitex_kernel.Prelude.Int.{ℤ, pos, sub_ℕ}

-- the first `count` bytes become 0
unfoldable pub sys_memzero : (dest : ℕ → ℕ) → ℕ → ℕ → ℕ
sys_memzero dest count i = if ltb i count then 0 else dest i

-- the first `count` bytes of `dest` become those of `src`, another object
unfoldable pub sys_memcpy : (dest src : ℕ → ℕ) → ℕ → ℕ → ℕ
sys_memcpy dest src count i = if ltb i count then src i else dest i

-- on the bytes up to the NUL, which is 0
unfoldable pub strcmp : List ℕ → List ℕ → ℤ
strcmp [] [] = pos 0
strcmp [] (y ∷ s2) = sub_ℕ 0 y
strcmp (x ∷ s1) [] = sub_ℕ x 0
strcmp (x ∷ s1) (y ∷ s2) = let rest = strcmp s1 s2 in if x == y then rest else sub_ℕ x y
