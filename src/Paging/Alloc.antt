-- ===== src/Paging/Alloc.antt =====
-- The allocation and release of a page's frame in i386/whitex/paging.h.
use whitex_kernel.Prelude.{
  ℕ, ◌*◌, ◌/◌, ◌<◌, ◌≡◌, ◌≢◌, refl, Bool, true, false, some, ◌==◌, ◌&&◌, ◌||◌, not, arith,
  Bool-cases, inl, inr, ==_iff, ne_test, sym, ap, ◌∙◌,
}
use mathlib.Core.Bool.{false≢true}
use mathlib.Core.Option.{some-injective, none-ne-some}
use whitex_kernel.Prelude.Words.{u32, add32, sub32, mul32, bit-set_bit, bit-clear_bit}
use whitex_kernel.Paging.{
  Bitmap, Paging, PageTableEntry, page_size, no_frame, find_first_free_frame, bitmap_set_bit,
  bitmap_clear_bit, allocate_frame, free_frame,
}
use whitex_kernel.Paging.Frames.{used, find_first_free_frame_lem}
use whitex_kernel.Paging.Contiguous.{frame_count}

pub used-bitmap_set_bit :
    (b : Bitmap) (f g : ℕ) → used (bitmap_set_bit (f * page_size) b) g ≡ (g == f || used b g)
unfolding bitmap_set_bit
used-bitmap_set_bit b f g =
    let frame : f * page_size / page_size ≡ f = omega arith in
    rw frame (elim (Bool-cases (g / 32 == f / 32)) [
      | inl word ↦
          let same : g / 32 ≡ f / 32 = (==_iff (g / 32) (f / 32)).0 word in
          rw (word, bit-set_bit) (ground (arith, same))
      | inr other ↦ rw other (ground (arith, other))
    ])

pub used-bitmap_clear_bit :
    (b : Bitmap) (f g : ℕ)
    → used (bitmap_clear_bit (f * page_size) b) g ≡ (not (g == f) && used b g)
unfolding bitmap_clear_bit
used-bitmap_clear_bit b f g =
    let frame : f * page_size / page_size ≡ f = omega arith in
    rw frame (elim (Bool-cases (g / 32 == f / 32)) [
      | inl word ↦
          let same : g / 32 ≡ f / 32 = (==_iff (g / 32) (f / 32)).0 word in
          rw (word, bit-clear_bit) (ground (arith, same))
      | inr other ↦ rw other (ground (arith, other))
    ])

-- what an allocation for an entry without a frame has done
pub record Allocated (s : Paging) (page' : PageTableEntry) (s' : Paging) : Type 0 where
  pub inside : page'.frame < frame_count
  pub was_free : used s.physical_memory_bitmap page'.frame ≡ false
  pub is_present : page'.present ≡ true
  pub taken :
      (g : ℕ)
      → used s'.physical_memory_bitmap g ≡ (g == page'.frame || used s.physical_memory_bitmap g)
  pub counted : s'.total_allocated_frames ≡ add32 s.total_allocated_frames 1

allocated :
    (is_kernel is_writable : ℕ) (page page' : PageTableEntry) (s s' : Paging)
    → page.frame ≡ 0
    → allocate_frame is_kernel is_writable page s ≡ some (page', s')
    → let a = find_first_free_frame s.physical_memory_bitmap in
      (a ≢ no_frame)
      × (page'.frame ≡ a / page_size)
      × (page'.present ≡ true)
      × (s'.physical_memory_bitmap ≡ bitmap_set_bit a s.physical_memory_bitmap)
      × (s'.total_allocated_frames ≡ add32 s.total_allocated_frames 1)
unfolding allocate_frame
allocated is_kernel is_writable page page' s s' empty r =
    let a = find_first_free_frame s.physical_memory_bitmap in
    let plain : not (page.frame == 0) ≡ false = ground (arith, empty) in
    elim (Bool-cases (a == no_frame)) [
      | inl out ↦ absurd (none-ne-some _ (rw (plain, out, allocate_frame) at r))
      | inr ok ↦
          let same = some-injective _ _ (rw (plain, ok, allocate_frame) at r) in
          let entry = ap (λ x. x.0) same in
          let state = ap (λ x. x.1) same in
          (
            ground (arith, ok),
            sym (ap (λ (p : PageTableEntry). p.frame) entry),
            sym (ap (λ (p : PageTableEntry). p.present) entry),
            sym (ap (λ (t : Paging). t.physical_memory_bitmap) state),
            sym (ap (λ (t : Paging). t.total_allocated_frames) state),
          )
    ]

-- An entry that has no frame gets one that was free, which is then the only frame newly taken; the
-- entry is present, and one more frame is counted.
pub allocate_frame_lem :
    (is_kernel is_writable : ℕ) (page page' : PageTableEntry) (s s' : Paging)
    → page.frame ≡ 0
    → allocate_frame is_kernel is_writable page s ≡ some (page', s')
    → Allocated s page' s'
allocate_frame_lem is_kernel is_writable page page' s s' empty r =
    let (some_frame, frame, is_there, bitmap, count) =
      allocated is_kernel is_writable page page' s s' empty r in
    elim (find_first_free_frame_lem s.physical_memory_bitmap) [
      | inl (none_left, all) ↦ absurd (some_frame none_left)
      | inr (f, at, le, lt, free, all) ↦
          let same : page'.frame ≡ f = frame ∙ ap (λ a. a / page_size) at ∙ (omega arith) in
          record {
            inside = omega (arith, same);
            was_free = rw same free;
            is_present = is_there;
            taken = λ g. rw (bitmap, at, same) (used-bitmap_set_bit s.physical_memory_bitmap f g);
            counted = count;
          }
    ]

freed :
    (page : PageTableEntry) (s : Paging)
    → page.frame ≢ 0
    → page.frame < frame_count
    → let (page', s') = free_frame page s in
      (page'.frame ≡ 0)
      × (page'.present ≡ false)
      × (s'.physical_memory_bitmap
          ≡ bitmap_clear_bit (page.frame * page_size) s.physical_memory_bitmap)
      × (s'.total_allocated_frames ≡ sub32 s.total_allocated_frames 1)
unfolding free_frame
freed page s some_frame lt =
    let address : mul32 page.frame page_size ≡ page.frame * page_size = omega arith in
    rw (ne_test some_frame, free_frame, address) (refl, refl, refl, refl)

unchanged :
    (same before : Bool) → (same ≡ true → before ≡ false) → (not same && (same || before)) ≡ before
unchanged same before h = ground (arith, h)

-- With frame 0 taken, a frame that is allocated for an entry and freed again leaves the entry
-- without a frame, the same frames taken and the same count.
pub free_frame-allocate_frame :
    (is_kernel is_writable : ℕ) (page page' : PageTableEntry) (s s' : Paging)
    → page.frame ≡ 0
    → used s.physical_memory_bitmap 0 ≡ true
    → s.total_allocated_frames < u32
    → allocate_frame is_kernel is_writable page s ≡ some (page', s')
    → let (page'', s'') = free_frame page' s' in
      (page''.frame ≡ 0)
      × (page''.present ≡ false)
      × (s''.total_allocated_frames ≡ s.total_allocated_frames)
      × ((g : ℕ) → used s''.physical_memory_bitmap g ≡ used s.physical_memory_bitmap g)
free_frame-allocate_frame is_kernel is_writable page page' s s' empty zero_taken small r =
    let v = allocate_frame_lem is_kernel is_writable page page' s s' empty r in
    let some_frame : page'.frame ≢ 0 =
      λ e. false≢true (sym v.was_free ∙ ap (used s.physical_memory_bitmap) e ∙ zero_taken) in
    let (no_frame_left, absent, bitmap, count) = freed page' s' some_frame v.inside in
    (
      no_frame_left,
      absent,
      count ∙ ap (λ n. sub32 n 1) v.counted ∙ (omega (arith, small)),
      λ g.
          ap (λ b. used b g) bitmap
          ∙ used-bitmap_clear_bit s'.physical_memory_bitmap page'.frame g
          ∙ ap (λ x. not (g == page'.frame) && x) (v.taken g)
          ∙ unchanged (g == page'.frame) (used s.physical_memory_bitmap g)
              (λ h. ap (used s.physical_memory_bitmap) ((==_iff g page'.frame).0 h) ∙ v.was_free),
    )
