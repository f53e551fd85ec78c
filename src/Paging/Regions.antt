-- ===== src/Paging/Regions.antt =====
-- The regions of pages of i386/whitex/paging.h: loops over the pages from an aligned start to an
-- aligned end.
use whitex_kernel.Prelude.{
  ℕ, zero, suc, ◌+◌, ◌*◌, ◌/◌, ◌≤◌, ◌<◌, ◌≡◌, refl, Bool, true, false, Option, none, some, ltb,
  arith, Bool-cases, Option-cases, inl, inr, ◌∙◌, sym, ap,
}
use mathlib.Core.Bool.{false≢true}
use whitex_kernel.Prelude.Words.{u32, add32, sub32}
use whitex_kernel.Paging.{Paging, page_size}
use whitex_kernel.Paging.Tables.{
  entry_of, get_page_entry, allocate_entry, unmap_virtual_page, map_virtual_to_physical,
}

-- `start_addr & ~(PAGE_SIZE - 1)`
abbrev pub align_down : ℕ → ℕ
align_down a = a / page_size * page_size

-- `(a + PAGE_SIZE - 1) & ~(PAGE_SIZE - 1)`, where the sum wraps
abbrev pub align_up : ℕ → ℕ
align_up a = align_down (sub32 (add32 a page_size) 1)

-- more rounds than the loop over the pages of the 4 GiB can take
abbrev pub page_rounds : ℕ
page_rounds = 1048576

-- The loop `for (current = ...; current < aligned_end; current += PAGE_SIZE)`, with a body that
-- goes on in a new state, or ends the loop by `none`.
unfoldable pub for_pages :
    (body : ℕ → Paging → Option Paging) (rounds current aligned_end : ℕ) → Paging → Option Paging
for_pages body zero current aligned_end s = some s
for_pages body (suc k) current aligned_end s = elim (ltb current aligned_end) [
  | false ↦ some s
  | true ↦ elim (body current s) [
    | none ↦ none
    | some s' ↦ for_pages body k (add32 current page_size) aligned_end s'
  ]
]

-- The rounds are enough: more of them change nothing.
pub for_pages_enough :
    (body : ℕ → Paging → Option Paging) (k more current aligned_end : ℕ) (s : Paging)
    → aligned_end + page_size ≤ u32
    → aligned_end ≤ current + k * page_size
    → for_pages body (k + more) current aligned_end s ≡ for_pages body k current aligned_end s
unfolding for_pages
for_pages_enough body zero zero current aligned_end s h e = refl
for_pages_enough body zero (suc more) current aligned_end s h e =
    let stop : ltb current aligned_end ≡ false = ground arith in
    let shape : 0 + suc more ≡ suc more = omega arith in rw (shape, stop, for_pages)
for_pages_enough body (suc k) more current aligned_end s h e =
    let one : suc k + more ≡ suc (k + more) = omega arith in
    rw one (elim (Bool-cases (ltb current aligned_end)) [
      | inr stop ↦ rw (stop, for_pages)
      | inl go ↦ elim (Option-cases (body current s)) [
        | inl ends ↦ rw (go, ends, for_pages)
        | inr (s', goes_on) ↦
            rw (go, goes_on, for_pages)
              (for_pages_enough body k more (add32 current page_size) aligned_end s' h
                (ground (arith, go)))
      ]
    ])

abbrev pub allocate_page : (is_kernel is_writable dir : ℕ) → ℕ → Paging → Option Paging
allocate_page is_kernel is_writable dir current s = elim (get_page_entry current true dir s) [
  | none ↦ none
  | some (none, s') ↦ none
  | some (some p, s') ↦ allocate_entry is_kernel is_writable p s'
]

unfoldable pub allocate_memory_region :
    (start_addr size is_kernel is_writable dir : ℕ) → Paging → Option Paging
unfolding for_pages get_page_entry allocate_entry
allocate_memory_region start_addr size is_kernel is_writable dir =
    for_pages (allocate_page is_kernel is_writable dir) page_rounds (align_down start_addr)
      (align_up (add32 start_addr size))

unfoldable pub free_memory_region : (start_addr size dir : ℕ) → Paging → Option Paging
unfolding for_pages unmap_virtual_page
free_memory_region start_addr size dir =
    for_pages (λ current. unmap_virtual_page current dir) page_rounds (align_down start_addr)
      (align_up (add32 start_addr size))

unfoldable pub identity_map_region : (start_addr end_addr dir : ℕ) → Paging → Option Paging
unfolding for_pages map_virtual_to_physical
identity_map_region start_addr end_addr dir =
    for_pages (λ current. map_virtual_to_physical current current 1 1 dir) page_rounds
      (align_down start_addr) (align_up end_addr)

-- whether `current` has an entry that is present
abbrev pub page_taken : (dir current : ℕ) → Paging → Bool
page_taken dir current s = elim (get_page_entry current false dir s) [
  | none ↦ false
  | some (none, s') ↦ false
  | some (some p, s') ↦ (entry_of p s').present
]

-- the loop of `check_region_availability`
unfoldable pub pages_free : (rounds current aligned_end dir : ℕ) → Paging → Bool
pages_free zero current aligned_end dir s = true
pages_free (suc k) current aligned_end dir s = elim (ltb current aligned_end) [
  | false ↦ true
  | true ↦ elim (page_taken dir current s) [
    | true ↦ false
    | false ↦ pages_free k (add32 current page_size) aligned_end dir s
  ]
]

unfoldable pub check_region_availability : (start_addr size dir : ℕ) → Paging → Bool
unfolding pages_free get_page_entry
check_region_availability start_addr size dir s =
    pages_free page_rounds (align_down start_addr) (align_up (add32 start_addr size)) dir s

pages_free_lem :
    (k current aligned_end dir : ℕ) (s : Paging)
    → aligned_end + page_size ≤ u32
    → aligned_end ≤ current + k * page_size
    → pages_free k current aligned_end dir s ≡ true
    → (n : ℕ) → current + n * page_size < aligned_end
    → page_taken dir (current + n * page_size) s ≡ false
unfolding pages_free
pages_free_lem zero current aligned_end dir s h e r n lt = absurd (omega arith)
pages_free_lem (suc k) current aligned_end dir s h e r n lt =
    let go : ltb current aligned_end ≡ true = ground arith in
    elim (Bool-cases (page_taken dir current s)) [
      | inl taken ↦ absurd (false≢true (rw (go, taken, pages_free) at r))
      | inr free ↦ later k current aligned_end dir s h e n lt free (
          pages_free_lem k (add32 current page_size) aligned_end dir s h (ground (arith, go))
            (rw (go, free, pages_free) at r))
    ]
  where
    later :
        (k current aligned_end dir : ℕ) (s : Paging)
        → aligned_end + page_size ≤ u32
        → aligned_end ≤ current + suc k * page_size
        → (n : ℕ) → current + n * page_size < aligned_end
        → page_taken dir current s ≡ false
        → ((m : ℕ)
            → add32 current page_size + m * page_size < aligned_end
            → page_taken dir (add32 current page_size + m * page_size) s ≡ false)
        → page_taken dir (current + n * page_size) s ≡ false
    later k current aligned_end dir s h e zero lt free ih =
        let here : current + 0 * page_size ≡ current = omega arith in
        ap (λ a. page_taken dir a s) here ∙ free
    later k current aligned_end dir s h e (suc n) lt free ih =
        let next : add32 current page_size + n * page_size ≡ current + suc n * page_size =
          omega arith in
        ap (λ a. page_taken dir a s) (sym next) ∙ ih n (omega (arith, next))

-- A region found available, which does not reach the last page of the 4 GiB, has no page that is
-- present.
pub check_region_availability_lem :
    (start_addr size dir : ℕ) (s : Paging)
    → start_addr + size + page_size ≤ u32
    → check_region_availability start_addr size dir s ≡ true
    → (n : ℕ) → align_down start_addr + n * page_size < start_addr + size
    → page_taken dir (align_down start_addr + n * page_size) s ≡ false
unfolding check_region_availability
check_region_availability_lem start_addr size dir s fits r n lt =
    pages_free_lem page_rounds (align_down start_addr) (align_up (add32 start_addr size)) dir s
      (omega arith) (omega arith) r n (omega arith)
