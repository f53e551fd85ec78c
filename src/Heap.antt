-- ===== src/Heap.antt =====
-- The heap of i386/whitex/malloc.h. The array `memory_heap` is its bytes, in which the block headers
-- stand; a pointer is an index into it, and what lies behind the array is read as memory too.
pub mod Blocks
pub mod Tests
use whitex_kernel.Prelude.{
  ℕ, zero, suc, ◌+◌, ◌-◌, ◌*◌, ◌/◌, ◌%◌, Bool, true, false, Option, none, some, List, [], ◌∷◌, ltb,
  leb, ◌==◌, ◌&&◌, ◌||◌, not, if◌then◌else◌, update,
}
use whitex_kernel.Prelude.Words.{add32, sub32}
use whitex_kernel.Net.{read32, le32, store}

abbrev pub heap_size : ℕ
heap_size = 65536

-- `sizeof(block_header_t)`: a `size_t` and a byte, padded to its alignment
abbrev pub header_size : ℕ
header_size = 8

abbrev pub block_free : ℕ
block_free = 0

abbrev pub block_used : ℕ
block_used = 1

-- the two fields of the header at an offset
abbrev pub size_at : (ℕ → ℕ) → ℕ → ℕ
size_at m offset = read32 m offset

abbrev pub status_at : (ℕ → ℕ) → ℕ → ℕ
status_at m offset = m (offset + 4)

-- the offset of the header behind a block
abbrev pub next_block : (ℕ → ℕ) → ℕ → ℕ
next_block m offset = add32 offset (add32 header_size (size_at m offset))

-- a header that `whitex_malloc` takes
unfoldable pub fits : (size : ℕ) → (ℕ → ℕ) → ℕ → Bool
fits size m offset =
    (size_at m offset == 0) || ((status_at m offset == block_free) && leb size (size_at m offset))

unfoldable pub write_header : (size status offset : ℕ) → (ℕ → ℕ) → ℕ → ℕ
write_header size status offset m = update (store (le32 size) offset m) (offset + 4) status

-- The loop of `whitex_malloc` for at most `rounds` headers: the pointer, or `none` for NULL. A header
-- takes 8 bytes, so that 8193 rounds reach the end of the heap, unless a size makes the offset wrap.
unfoldable pub malloc_from : (rounds offset size : ℕ) → (ℕ → ℕ) → Option ℕ × (ℕ → ℕ)
malloc_from zero offset size m = (none, m)
malloc_from (suc k) offset size m = elim (ltb offset heap_size) [
  | false ↦ (none, m)
  | true ↦ elim (fits size m offset) [
    | true ↦ (some (offset + header_size), write_header size block_used offset m)
    | false ↦ malloc_from k (next_block m offset) size m
  ]
]

unfoldable pub whitex_malloc : (size : ℕ) → (ℕ → ℕ) → Option ℕ × (ℕ → ℕ)
whitex_malloc size m = malloc_from 8193 0 size m

unfoldable pub whitex_free : Option ℕ → (ℕ → ℕ) → ℕ → ℕ
whitex_free none m = m
whitex_free (some ptr) m = update m (ptr - header_size + 4) block_free

-- the loop of `get_free_ram`
unfoldable pub free_from : (rounds offset free_ram : ℕ) → (ℕ → ℕ) → ℕ
free_from zero offset free_ram m = free_ram
free_from (suc k) offset free_ram m = elim (ltb offset heap_size && not (size_at m offset == 0)) [
  | false ↦ free_ram
  | true ↦
      free_from k (next_block m offset)
        (if status_at m offset == block_used
          then sub32 free_ram (add32 (size_at m offset) header_size)
          else free_ram)
        m
]

unfoldable pub get_free_ram : (ℕ → ℕ) → ℕ
get_free_ram m = free_from 8193 0 heap_size m

-- `ram`, whose first call clears the heap: the number that it prints, the heap and the flag `first`
unfoldable pub ram : (first : Bool) → (ℕ → ℕ) → ℕ × ((ℕ → ℕ) × Bool)
ram first m =
    let cleared : ℕ → ℕ = λ i. if first && ltb i heap_size then 0 else m i in
    (get_free_ram cleared, (cleared, false))
