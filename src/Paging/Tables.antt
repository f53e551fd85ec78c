-- ===== src/Paging/Tables.antt =====
-- Page directories, mappings and faults of i386/whitex/paging.h. The pointer to an entry is the
-- address of its table with its index, and a null table is the address 0.
use whitex_kernel.Prelude.{
  ℕ, ◌/◌, ◌%◌, Bool, true, false, Option, none, some, ◌==◌, ◌||◌, not, if◌then◌else◌, update,
}
use whitex_kernel.Prelude.Words.{add32, sub32, mul32, bit, set_bit}
use whitex_kernel.Paging.{
  Paging, PageTableEntry, page_size, page_entries, no_frame, find_first_free_frame, bitmap_set_bit,
  allocate_frame, free_frame,
}

pub record EntryPtr : Type 0 where
  pub table : ℕ
  pub index : ℕ

abbrev pub entry_of : EntryPtr → Paging → PageTableEntry
entry_of p s = s.page_tables p.table p.index

abbrev pub set_entry : EntryPtr → PageTableEntry → Paging → Paging
set_entry p e s = record s {
  page_tables = update s.page_tables p.table (update (s.page_tables p.table) p.index e);
}

-- what `memzero_custom` makes of an entry
abbrev pub zero_entry : PageTableEntry
zero_entry = record {
  present = false;
  rw_allowed = false;
  user = false;
  accessed = false;
  dirty = false;
  frame = 0;
}

abbrev pub table_index : ℕ → ℕ
table_index address = address / page_size / page_entries

abbrev pub page_index : ℕ → ℕ
page_index address = address / page_size % page_entries

-- a new, zeroed table at `physical_addr` for slot `i` of the directory `dir`
unfoldable pub install_table : (dir i physical_addr : ℕ) → Paging → Paging
unfolding bitmap_set_bit
install_table dir i physical_addr s = record s {
  physical_memory_bitmap = bitmap_set_bit physical_addr s.physical_memory_bitmap;
  page_tables = update s.page_tables physical_addr (λ j. zero_entry);
  directories = update s.directories dir (record (s.directories dir) {
    tables = update (s.directories dir).tables i physical_addr;
    physical_tables =
        update (s.directories dir).physical_tables i
          (set_bit (set_bit (set_bit physical_addr 0) 1) 2);
  });
}

-- The inner `none` is a null pointer.
unfoldable pub get_page_entry :
    (address : ℕ) (make : Bool) (dir : ℕ) → Paging → Option (Option EntryPtr × Paging)
unfolding find_first_free_frame install_table
get_page_entry address make dir s =
    let i = table_index address in
    let table = (s.directories dir).tables i in
    let physical_addr = find_first_free_frame s.physical_memory_bitmap in
    if not (table == 0)
    then some (some (record { table = table; index = page_index address }), s)
    else if make
    then (if physical_addr == no_frame
        then none
        else some (
          some (record { table = physical_addr; index = page_index address }),
          install_table dir i physical_addr s,
        ))
    else some (none, s)

-- the entry and the bitmap that `map_virtual_to_physical` writes
unfoldable pub write_mapping :
    (physical_addr is_kernel is_writable : ℕ) → EntryPtr → Paging → Paging
unfolding bitmap_set_bit
write_mapping physical_addr is_kernel is_writable p s =
    let s' =
      set_entry p
        (record (entry_of p s) {
          present = true;
          rw_allowed = not (is_writable == 0);
          user = is_kernel == 0;
          frame = physical_addr / page_size;
        })
        s in
    record s' { physical_memory_bitmap = bitmap_set_bit physical_addr s'.physical_memory_bitmap }

unfoldable pub map_virtual_to_physical :
    (virtual_addr physical_addr is_kernel is_writable dir : ℕ) → Paging → Option Paging
unfolding get_page_entry write_mapping
map_virtual_to_physical virtual_addr physical_addr is_kernel is_writable dir s =
    elim (get_page_entry virtual_addr true dir s) [
      | none ↦ none
      | some (none, s') ↦ none
      | some (some p, s') ↦ some (write_mapping physical_addr is_kernel is_writable p s')
    ]

-- `free_frame` at an entry in memory, which is then not present
unfoldable pub release_entry : EntryPtr → Paging → Paging
unfolding free_frame
release_entry p s =
    let (page, s') = free_frame (entry_of p s) s in set_entry p (record page { present = false }) s'

unfoldable pub unmap_virtual_page : (virtual_addr dir : ℕ) → Paging → Option Paging
unfolding get_page_entry release_entry
unmap_virtual_page virtual_addr dir s = elim (get_page_entry virtual_addr false dir s) [
  | none ↦ none
  | some (none, s') ↦ some s'
  | some (some p, s') ↦ if (entry_of p s').present then some (release_entry p s') else some s'
]

unfoldable pub get_physical_address : (virtual_addr dir : ℕ) → Paging → Option ℕ
unfolding get_page_entry
get_physical_address virtual_addr dir s = elim (get_page_entry virtual_addr false dir s) [
  | none ↦ none
  | some (none, s') ↦ some no_frame
  | some (some p, s') ↦
      if (entry_of p s').present
      then some (add32 (mul32 (entry_of p s').frame page_size) (virtual_addr % page_size))
      else some no_frame
]

-- `allocate_frame` at an entry in memory
unfoldable pub allocate_entry : (is_kernel is_writable : ℕ) → EntryPtr → Paging → Option Paging
unfolding allocate_frame
allocate_entry is_kernel is_writable p s =
    elim (allocate_frame is_kernel is_writable (entry_of p s) s) [
      | none ↦ none
      | some (page, s') ↦ some (set_entry p page s')
    ]

-- `faulting_address` is what `asm_read_cr2` answers.
unfoldable pub page_fault_handler : (faulting_address err_code : ℕ) → Paging → Option Paging
unfolding get_page_entry allocate_entry
page_fault_handler faulting_address err_code s =
    let present = not (bit err_code 0) in
    let rw_set = bit err_code 1 in
    let us = bit err_code 2 in
    let reserved = bit err_code 3 in
    let id = bit err_code 4 in
    if present || reserved || id
    then none
    else elim (get_page_entry faulting_address true s.current_page_directory s) [
      | none ↦ none
      | some (none, s') ↦ none
      | some (some p, s') ↦
          if (entry_of p s').present
          then none
          else allocate_entry (if us then 0 else 1) (if rw_set then 1 else 0) p s'
    ]

unfoldable pub get_total_allocated_memory : Paging → ℕ
get_total_allocated_memory s = mul32 s.total_allocated_frames page_size

unfoldable pub get_total_free_memory : Paging → ℕ
get_total_free_memory s = mul32 (sub32 s.total_system_frames s.total_allocated_frames) page_size
