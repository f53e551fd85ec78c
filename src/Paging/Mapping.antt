-- ===== src/Paging/Mapping.antt =====
-- What a mapping of i386/whitex/paging.h translates to.
use whitex_kernel.Prelude.{
  ℕ, ◌+◌, ◌*◌, ◌/◌, ◌%◌, ◌<◌, ◌≡◌, ◌≢◌, refl, Bool, true, false, none, some, ◌==◌, if◌then◌else◌,
  arith, Bool-cases, inl, inr, ==_iff, eq_test, ne_test, sym, ap, ◌∙◌,
}
use mathlib.Core.Option.{some-injective, none-ne-some}
use mathlib.Core.Bool.{true≢false}
use mathlib.Core.Path.{subst}
use whitex_kernel.Prelude.Words.{u32, add32, mul32}
use whitex_kernel.Paging.{
  Paging, PageDirectory, page_size, no_frame, find_first_free_frame, free_frame,
}
use whitex_kernel.Paging.Frames.{used, find_first_free_frame_lem}
use whitex_kernel.Paging.Tables.{
  EntryPtr, entry_of, table_index, page_index, get_page_entry, install_table, write_mapping,
  map_virtual_to_physical, get_physical_address, unmap_virtual_page, release_entry,
}

-- the address that a page of `frame` gives to `virtual_addr`
abbrev pub translated : (physical_addr virtual_addr : ℕ) → ℕ
translated physical_addr virtual_addr =
    physical_addr / page_size * page_size + virtual_addr % page_size

-- the entry of `virtual_addr` in a table that is there
pub get_page_entry_found :
    (v : ℕ) (make : Bool) (dir : ℕ) (s : Paging)
    → (s.directories dir).tables (table_index v) ≢ 0
    → get_page_entry v make dir s
      ≡ some (
        some (record { table = (s.directories dir).tables (table_index v); index = page_index v }),
        s,
      )
unfolding get_page_entry
get_page_entry_found v make dir s there = rw (ne_test there, get_page_entry)

get_page_entry_made :
    (v dir : ℕ) (s : Paging)
    → (s.directories dir).tables (table_index v) ≡ 0
    → find_first_free_frame s.physical_memory_bitmap ≢ no_frame
    → let a = find_first_free_frame s.physical_memory_bitmap in
      get_page_entry v true dir s
      ≡ some
          (some (record { table = a; index = page_index v }), install_table dir (table_index v) a s)
unfolding get_page_entry
get_page_entry_made v dir s absent room = rw (eq_test absent, ne_test room, get_page_entry)

get_page_entry_full :
    (v dir : ℕ) (s : Paging)
    → (s.directories dir).tables (table_index v) ≡ 0
    → find_first_free_frame s.physical_memory_bitmap ≡ no_frame
    → get_page_entry v true dir s ≡ none
unfolding get_page_entry
get_page_entry_full v dir s absent full = rw (eq_test absent, eq_test full, get_page_entry)

installed :
    (v dir a : ℕ) (s : Paging)
    → ((install_table dir (table_index v) a s).directories dir).tables (table_index v) ≡ a
unfolding install_table
installed v dir a s =
    let own : (dir == dir) ≡ true = eq_test refl in
    let slot : (table_index v == table_index v) ≡ true = eq_test refl in rw (own, slot)

false_ne : {a b : ℕ} → (a == b) ≡ false → a ≢ b
false_ne h = ground (arith, h)

-- An entry just written, in a table that the directory has, translates.
written_translates :
    (v p is_kernel is_writable dir table : ℕ) (s : Paging)
    → p < u32
    → table ≢ 0
    → (s.directories dir).tables (table_index v) ≡ table
    → get_physical_address v dir
        (write_mapping p is_kernel is_writable (record { table = table; index = page_index v }) s)
      ≡ some (translated p v)
unfolding get_physical_address write_mapping
written_translates v p is_kernel is_writable dir table s small there at =
    let q : EntryPtr = record { table = table; index = page_index v } in
    let t = write_mapping p is_kernel is_writable q s in
    let same : (t.directories dir).tables (table_index v) ≡ table = at in
    let found = get_page_entry_found v false dir t (λ e. there (sym same ∙ e)) in
    let own : (table == table) ≡ true = eq_test refl in
    let slot : (page_index v == page_index v) ≡ true = eq_test refl in
    rw (found, get_physical_address, same, own, slot) (ap some (omega (arith, small)))

not_free_zero :
    (s : Paging)
    → used s.physical_memory_bitmap 0 ≡ true
    → find_first_free_frame s.physical_memory_bitmap ≢ 0
not_free_zero s taken = elim (find_first_free_frame_lem s.physical_memory_bitmap) [
  | inl (none_left, all) ↦ omega (arith, none_left)
  | inr (f, at, le, lt, free, all) ↦ λ e.
      let zero_frame : f ≡ 0 = omega (arith, at, e) in
      absurd (true≢false (sym taken ∙ ap (used s.physical_memory_bitmap) (sym zero_frame) ∙ free))
]

-- With frame 0 taken, a mapping that does not panic is what the translation then answers: the
-- physical page, with the offset of the virtual address.
pub get_physical_address-map_virtual_to_physical :
    (v p is_kernel is_writable dir : ℕ) (s s' : Paging)
    → p < u32
    → used s.physical_memory_bitmap 0 ≡ true
    → map_virtual_to_physical v p is_kernel is_writable dir s ≡ some s'
    → get_physical_address v dir s' ≡ some (translated p v)
unfolding map_virtual_to_physical
get_physical_address-map_virtual_to_physical v p is_kernel is_writable dir s s' small taken r =
    let a = find_first_free_frame s.physical_memory_bitmap in
    elim (Bool-cases ((s.directories dir).tables (table_index v) == 0)) [
      | inr there ↦
          let some_table = false_ne there in
          let same =
            some-injective _ _
              (rw (get_page_entry_found v true dir s some_table, map_virtual_to_physical) at r) in
          subst (λ t. get_physical_address v dir t ≡ some (translated p v)) same
            (written_translates v p is_kernel is_writable dir
              ((s.directories dir).tables (table_index v)) s small some_table refl)
      | inl absent ↦
          let no_table = (==_iff ((s.directories dir).tables (table_index v)) 0).0 absent in
          elim (Bool-cases (a == no_frame)) [
            | inl full ↦ absurd (
                none-ne-some _ (
                  rw
                    (
                      get_page_entry_full v dir s no_table ((==_iff a no_frame).0 full),
                      map_virtual_to_physical,
                    )
                    at r))
            | inr room ↦
                let same = some-injective _ _ (
                  rw (get_page_entry_made v dir s no_table (false_ne room), map_virtual_to_physical)
                    at r) in
                subst (λ t. get_physical_address v dir t ≡ some (translated p v)) same
                  (written_translates v p is_kernel is_writable dir a
                    (install_table dir (table_index v) a s) small (not_free_zero s taken)
                    (installed v dir a s))
          ]
    ]

get_page_entry_absent :
    (v dir : ℕ) (s : Paging)
    → (s.directories dir).tables (table_index v) ≡ 0
    → get_page_entry v false dir s ≡ some (none, s)
unfolding get_page_entry
get_page_entry_absent v dir s absent = rw (eq_test absent, get_page_entry)

-- what a translation answers, by the entry of the address
pub physical_of :
    (v dir : ℕ) (s : Paging)
    → let table = (s.directories dir).tables (table_index v) in
      let e = s.page_tables table (page_index v) in
      table ≢ 0
      → get_physical_address v dir s
        ≡ some (if e.present then add32 (mul32 e.frame page_size) (v % page_size) else no_frame)
unfolding get_physical_address
physical_of v dir s there =
    let e = s.page_tables ((s.directories dir).tables (table_index v)) (page_index v) in
    elim (Bool-cases e.present) [
      | inl here ↦ rw (get_page_entry_found v false dir s there, get_physical_address, here)
      | inr missing ↦ rw (get_page_entry_found v false dir s there, get_physical_address, missing)
    ]

released :
    (p : EntryPtr) (s : Paging)
    → ((entry_of p (release_entry p s)).present ≡ false)
      × ((release_entry p s).directories ≡ s.directories)
unfolding release_entry free_frame
released p s =
    let own : (p.table == p.table) ≡ true = eq_test refl in
    let slot : (p.index == p.index) ≡ true = eq_test refl in
    elim (Bool-cases ((entry_of p s).frame == 0)) [
      | inl none_held ↦ rw (none_held, release_entry, free_frame, own, slot) (refl, refl)
      | inr held ↦ rw (held, release_entry, free_frame, own, slot) (refl, refl)
    ]

-- After a page is unmapped its address has no translation.
pub get_physical_address-unmap_virtual_page :
    (v dir : ℕ) (s s' : Paging)
    → unmap_virtual_page v dir s ≡ some s'
    → get_physical_address v dir s' ≡ some no_frame
unfolding unmap_virtual_page get_physical_address
get_physical_address-unmap_virtual_page v dir s s' r =
    let table = (s.directories dir).tables (table_index v) in
    let p : EntryPtr = record { table = table; index = page_index v } in
    elim (Bool-cases (table == 0)) [
      | inl absent ↦
          let no_table = (==_iff table 0).0 absent in
          let found = get_page_entry_absent v dir s no_table in
          let same = some-injective _ _ (rw (found, unmap_virtual_page) at r) in
          subst (λ t. get_physical_address v dir t ≡ some no_frame) same
            (rw (found, get_physical_address) refl)
      | inr there ↦
          let some_table = false_ne there in
          let found = get_page_entry_found v false dir s some_table in
          elim (Bool-cases (entry_of p s).present) [
            | inl present ↦
                let same = some-injective _ _ (rw (found, unmap_virtual_page, present) at r) in
                let (gone, kept) = released p s in
                let t = release_entry p s in
                let at = ap (λ (d : ℕ → PageDirectory). (d dir).tables (table_index v)) kept in
                let gone_there = ap (λ a. (t.page_tables a (page_index v)).present) at ∙ gone in
                subst (λ t. get_physical_address v dir t ≡ some no_frame) same
                  (physical_of v dir t (λ e. some_table (sym at ∙ e)) ∙ (rw gone_there refl))
            | inr missing ↦
                let same = some-injective _ _ (rw (found, unmap_virtual_page, missing) at r) in
                subst (λ t. get_physical_address v dir t ≡ some no_frame) same
                  (physical_of v dir s some_table ∙ (rw missing refl))
          ]
    ]
