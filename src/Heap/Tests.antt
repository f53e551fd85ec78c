-- ===== src/Heap/Tests.antt =====
-- The statements on i386/whitex/malloc.h at a concrete heap.
use whitex_kernel.Prelude.{ℕ, ◌+◌, ◌≡◌, refl, some, [], ◌∷◌, ◌++◌, arith}
use whitex_kernel.Net.{store}
use whitex_kernel.Heap.{block_used, whitex_malloc, whitex_free, malloc_from, fits, write_header}
use whitex_kernel.Heap.Blocks.{Chain, here, new_block, whitex_malloc_new, whitex_malloc-whitex_free}

abbrev blank : ℕ → ℕ
blank i = 0

whitex_malloc_new_example :
    ((whitex_malloc 100 blank).0 ≡ some (0 + 8))
    × Chain (whitex_malloc 100 blank).1 0 ([] ++ (new_block 100 block_used ∷ [])) (0 + (8 + 100))
whitex_malloc_new_example =
    whitex_malloc_new blank 0 100 [] here tt (omega arith) refl (omega arith) (omega arith)

whitex_malloc-whitex_free_example :
    let (ptr, taken) = whitex_malloc 100 blank in (whitex_malloc 60 (whitex_free ptr taken)).0 ≡ ptr
whitex_malloc-whitex_free_example =
    whitex_malloc-whitex_free blank 0 100 60 [] here tt tt (omega arith) refl (omega arith)
      (omega arith)

-- The memory of the virtual machine is granted though it reaches behind the heap.
past_the_end : (whitex_malloc 65536 (whitex_malloc 148 blank).1).0 ≡ some 164
unfolding whitex_malloc malloc_from fits write_header store
past_the_end = refl
