-- ===== src/Paging.antt =====
-- The physical frames, page tables and directories of i386/whitex/paging.h. A page table is the
-- function of its entries, kept by its address, and so is a directory: objects at different
-- addresses are taken not to overlap. `none` is a panic, which never returns.
pub mod Frames
pub mod Contiguous
pub mod Alloc
pub mod Tables
pub mod Mapping
pub mod Regions
pub mod Tests
use whitex_kernel.Prelude.{
  ℕ, zero, suc, ◌+◌, ◌-◌, ◌*◌, ◌/◌, ◌%◌, Bool, true, false, Option, none, some, ltb, leb, ◌==◌,
  ◌&&◌, ◌||◌, not, if◌then◌else◌, update,
}
use whitex_kernel.Prelude.Words.{add32, sub32, mul32, bit, set_bit, clear_bit}
use whitex_kernel.Prelude.Search.{first_index}

abbrev pub page_size : ℕ
page_size = 4096

abbrev pub page_entries : ℕ
page_entries = 1024

-- BITMAP_SIZE: 4 GiB in pages, 32 to a word
abbrev pub bitmap_size : ℕ
bitmap_size = 32768

-- the answer for no frame
abbrev pub no_frame : ℕ
no_frame = 0xFFFF_FFFF

-- `page_table_entry_t`
pub record PageTableEntry : Type 0 where
  pub present : Bool
  pub rw_allowed : Bool
  pub user : Bool
  pub accessed : Bool
  pub dirty : Bool
  pub frame : ℕ

-- `page_directory_t`
pub record PageDirectory : Type 0 where
  pub tables : ℕ → ℕ
  pub physical_tables : ℕ → ℕ
  pub physical_address : ℕ

-- the globals of the file, with the tables and directories in memory
pub record Paging : Type 0 where
  pub physical_memory_bitmap : ℕ → ℕ
  pub total_allocated_frames : ℕ
  pub total_system_frames : ℕ
  pub current_page_directory : ℕ
  pub kernel_page_directory : ℕ
  pub page_tables : ℕ → ℕ → PageTableEntry
  pub directories : ℕ → PageDirectory

abbrev pub Bitmap : Type 0
Bitmap = ℕ → ℕ

unfoldable pub bitmap_set_bit : ℕ → Bitmap → Bitmap
bitmap_set_bit frame_address b =
    let frame = frame_address / page_size in
    update b (frame / 32) (set_bit (b (frame / 32)) (frame % 32))

unfoldable pub bitmap_clear_bit : ℕ → Bitmap → Bitmap
bitmap_clear_bit frame_address b =
    let frame = frame_address / page_size in
    update b (frame / 32) (clear_bit (b (frame / 32)) (frame % 32))

unfoldable pub bitmap_test_bit : ℕ → Bitmap → Bool
bitmap_test_bit frame_address b =
    let frame = frame_address / page_size in bit (b (frame / 32)) (frame % 32)

-- the loop of `find_first_free_frame` over the words from `i` on
unfoldable pub scan_words : (rounds i : ℕ) → Bitmap → ℕ
unfolding first_index
scan_words zero i b = no_frame
scan_words (suc k) i b = elim (b i == 0xFFFF_FFFF) [
  | true ↦ scan_words k (i + 1) b
  | false ↦ elim (first_index (λ j. not (bit (b i) j)) 32 0) [
    | some j ↦ mul32 (add32 (mul32 i 32) j) page_size
    | none ↦ scan_words k (i + 1) b
  ]
]

unfoldable pub find_first_free_frame : Bitmap → ℕ
unfolding scan_words
find_first_free_frame b = scan_words bitmap_size 0 b

-- the loop of `find_contiguous_free_frames` from frame `i` on
unfoldable pub scan_frames : (count rounds i start_frame free_count : ℕ) → Bitmap → ℕ
unfolding bitmap_test_bit
scan_frames count zero i start_frame free_count b = no_frame
scan_frames count (suc k) i start_frame free_count b =
    elim (bitmap_test_bit (mul32 i page_size) b) [
      | true ↦ scan_frames count k (i + 1) start_frame 0 b
      | false ↦
          let start = if free_count == 0 then i else start_frame in
          elim (add32 free_count 1 == count) [
            | true ↦ mul32 start page_size
            | false ↦ scan_frames count k (i + 1) start (add32 free_count 1) b
          ]
    ]

unfoldable pub find_contiguous_free_frames : ℕ → Bitmap → ℕ
unfolding find_first_free_frame scan_frames
find_contiguous_free_frames count b =
    if count == 0
    then no_frame
    else if count == 1
    then find_first_free_frame b
    else scan_frames count (bitmap_size * 32) 0 0 0 b

unfoldable pub allocate_frame :
    (is_kernel is_writable : ℕ) → PageTableEntry → Paging → Option (PageTableEntry × Paging)
unfolding find_first_free_frame bitmap_set_bit
allocate_frame is_kernel is_writable page s =
    if not (page.frame == 0)
    then some (page, s)
    else (let frame_addr = find_first_free_frame s.physical_memory_bitmap in
        if frame_addr == no_frame
        then none
        else some (
          record page {
            present = true;
            rw_allowed = is_writable == 1;
            user = not (is_kernel == 1);
            frame = frame_addr / page_size;
          },
          record s {
            physical_memory_bitmap = bitmap_set_bit frame_addr s.physical_memory_bitmap;
            total_allocated_frames = add32 s.total_allocated_frames 1;
          },
        ))

unfoldable pub free_frame : PageTableEntry → Paging → PageTableEntry × Paging
unfolding bitmap_clear_bit
free_frame page s = if page.frame == 0 then (page, s) else (
  record page { frame = 0; present = false },
  record s {
    physical_memory_bitmap = bitmap_clear_bit (mul32 page.frame page_size) s.physical_memory_bitmap;
    total_allocated_frames = sub32 s.total_allocated_frames 1;
  },
)
