-- ===== src/Paging/Tests.antt =====
-- The statements on i386/whitex/paging.h at one concrete state: frame 0 taken, and a directory
-- at 16384 whose first table is at 8192.
use whitex_kernel.Prelude.{ℕ, ◌≡◌, refl, true, false, some, ◌==◌, arith, if◌then◌else◌}
use whitex_kernel.Prelude.Words.{bit}
use whitex_kernel.Prelude.Search.{first_index}
use whitex_kernel.Paging.{
  Bitmap, Paging, PageTableEntry, scan_words, find_first_free_frame, find_contiguous_free_frames,
  bitmap_set_bit, allocate_frame, free_frame,
}
use whitex_kernel.Paging.Frames.{used}
use whitex_kernel.Paging.Contiguous.{FreeRun, find_contiguous_free_frames_lem}
use whitex_kernel.Paging.Alloc.{free_frame-allocate_frame}
use whitex_kernel.Paging.Tables.{
  EntryPtr, zero_entry, get_page_entry, write_mapping, map_virtual_to_physical,
  get_physical_address,
}
use whitex_kernel.Paging.Mapping.{translated, get_physical_address-map_virtual_to_physical}

abbrev first_taken : Bitmap
first_taken i = if i == 0 then 1 else 0

find_contiguous_free_frames_example :
    FreeRun (λ i. 0xF7) 5 (find_contiguous_free_frames 5 (λ i. 0xF7))
find_contiguous_free_frames_example = find_contiguous_free_frames_lem 5 (λ i. 0xF7) (omega arith)

abbrev mapped_entry : PageTableEntry
mapped_entry = record zero_entry { present = true; frame = 77 }

abbrev kernel : Paging
kernel = record {
  physical_memory_bitmap = first_taken;
  total_allocated_frames = 5;
  total_system_frames = 4096;
  current_page_directory = 16384;
  kernel_page_directory = 16384;
  page_tables = λ a i. if i == 3 then mapped_entry else zero_entry;
  directories = λ d. record {
    tables = λ i. if i == 0 then 8192 else 0;
    physical_tables = λ i. 0;
    physical_address = 0;
  };
}

abbrev new_entry : PageTableEntry
new_entry = record zero_entry { present = true; rw_allowed = true; frame = 1 }

abbrev after : Paging
after = record kernel {
  physical_memory_bitmap = bitmap_set_bit 4096 first_taken;
  total_allocated_frames = 6;
}

free_frame-allocate_frame_example :
    let (page, s) = free_frame new_entry after in
    (page.frame ≡ 0)
    × (page.present ≡ false)
    × (s.total_allocated_frames ≡ 5)
    × ((g : ℕ) → used s.physical_memory_bitmap g ≡ used first_taken g)
unfolding allocate_frame find_first_free_frame scan_words first_index bit
free_frame-allocate_frame_example =
    free_frame-allocate_frame 1 1 zero_entry new_entry kernel after refl refl (omega arith) refl

abbrev fifth : EntryPtr
fifth = record { table = 8192; index = 5 }

get_physical_address-map_virtual_to_physical_example :
    get_physical_address 20500 16384 (write_mapping 40960 1 1 fifth kernel)
    ≡ some (translated 40960 20500)
unfolding map_virtual_to_physical get_page_entry bit
get_physical_address-map_virtual_to_physical_example =
    get_physical_address-map_virtual_to_physical 20500 40960 1 1 16384 kernel
      (write_mapping 40960 1 1 fifth kernel) (omega arith) refl refl

abbrev third : EntryPtr
third = record { table = 8192; index = 3 }
