-- ===== src/Oom/Address.antt =====
-- What `sys_alloc_pages` of i386/whitex/oomk.h hands out when the zone has room.
use whitex_kernel.Prelude.{
  ℕ, zero, suc, ◌+◌, ◌-◌, ◌≤◌, ◌<◌, ◌≡◌, ◌≢◌, refl, true, false, none, some, leb, update, arith,
}
use whitex_kernel.Prelude.Words.{add32, sub32, mul32, u32}
use whitex_kernel.Prelude.Int.{pos}
use whitex_kernel.Oom.{
  SysOomCtrl, done, trapped, max_nr_zones, exempt, total_sys_pages, sys_calculate_badness,
  sys_select_bad_process, select_from, sys_trigger_oom_killer, enough, sys_zone_lock, attempt,
  retry_allocation, sys_alloc_pages, page_size,
}
use whitex_kernel.Oom.Alloc.{Ready}

-- zone `i` locked, relieved of `count` pages and unlocked, as the code writes it
abbrev pub taken : ℕ → ℕ → SysOomCtrl → SysOomCtrl
taken i count c =
    let held = update c.zones i (record (c.zones i) { lock = true }) in
    let less = update held i (record (held i) { free_pages = sub32 (held i).free_pages count }) in
    record c { zones = update less i (record (less i) { lock = false }) }

abbrev pub region_address : SysOomCtrl → ℕ
region_address c = add32 0x1000_0000 (mul32 c.total_reclaimed page_size)

attempt_enough :
    (i count : ℕ) (c : SysOomCtrl)
    → Ready c
    → leb (add32 count (c.zones i).wm_min) (c.zones i).free_pages ≡ true
    → attempt i count c ≡ done (some (region_address c)) (taken i count c)
unfolding attempt sys_zone_lock
attempt_enough i count c u room = rw (there, attempt) (simp (open_lock, still))
  where
    open_lock : (c.zones i).lock ≡ false
    open_lock = (u i).0

    there : enough i count c ≡ true
    there = unfold enough in room

    still :
        enough i count (record c { zones = update c.zones i (record (c.zones i) { lock = true }) })
        ≡ true
    still = unfold enough in ground (arith, room)

pub alloc_enough :
    (i count : ℕ) (c : SysOomCtrl)
    → Ready c
    → i < max_nr_zones
    → leb (add32 count (c.zones i).wm_min) (c.zones i).free_pages ≡ true
    → sys_alloc_pages (pos i) count c ≡ done (region_address c) (taken i count c)
unfolding sys_alloc_pages retry_allocation
alloc_enough i count c u z room =
    let ok : leb max_nr_zones i ≡ false = ground arith in
    rw (ok, sys_alloc_pages, attempt_enough i count c u room) refl

-- Where zone `i` has room for the request above its minimum watermark, `sys_alloc_pages` returns
-- at once: it takes exactly `count` pages from that zone, changes no other zone and no counter of
-- reclaimed pages, and leaves the state ready.
pub sys_alloc_pages-takes :
    (i count : ℕ) (c : SysOomCtrl)
    → Ready c
    → i < max_nr_zones
    → count + (c.zones i).wm_min ≤ (c.zones i).free_pages
    → (d : SysOomCtrl) × (sys_alloc_pages (pos i) count c ≡ done (region_address c) d)
      × ((d.zones i).free_pages + count ≡ (c.zones i).free_pages)
      × ((j : ℕ) → j ≢ i → d.zones j ≡ c.zones j)
      × (d.total_reclaimed ≡ c.total_reclaimed)
      × Ready d
sys_alloc_pages-takes i count c u z room = (
  taken i count c,
  alloc_enough i count c u z (ground (arith, u i)),
  ground (arith, u i),
  λ j ne. ground arith,
  refl,
  λ j. ground (arith, u i, u j),
)

-- Two requests in a row, for each of which the zone has room, get the same address: the address
-- depends on the pages reclaimed so far and not on the pages handed out.
pub sys_alloc_pages_same_address :
    (i count more : ℕ) (c : SysOomCtrl)
    → Ready c
    → i < max_nr_zones
    → count + more + (c.zones i).wm_min ≤ (c.zones i).free_pages
    → (d e : SysOomCtrl) × (sys_alloc_pages (pos i) count c ≡ done (region_address c) d)
      × (sys_alloc_pages (pos i) more d ≡ done (region_address c) e)
sys_alloc_pages_same_address i count more c u z room = (
  taken i count c,
  taken i more (taken i count c),
  alloc_enough i count c u z (ground (arith, u i)),
  alloc_enough i more (taken i count c) (λ j. ground (arith, u i, u j)) z (ground (arith, u i)),
)

-- A request that overflows past the minimum watermark is granted, however few pages are free.
pub sys_alloc_pages_overflow :
    (i : ℕ) (c : SysOomCtrl)
    → Ready c
    → i < max_nr_zones
    → 0 < (c.zones i).wm_min
    → (c.zones i).wm_min < u32
    → (d : SysOomCtrl) × (sys_alloc_pages (pos i) (u32 - (c.zones i).wm_min) c
        ≡ done (region_address c) d)
sys_alloc_pages_overflow i c u z p q = (
  taken i (u32 - (c.zones i).wm_min) c,
  alloc_enough i (u32 - (c.zones i).wm_min) c u z (ground arith),
)

select_from_traps :
    (n : ℕ) (c : SysOomCtrl)
    → 0 < n
    → c.task_array 0 ≢ 0
    → exempt (c.memory (c.task_array 0)) ≡ false
    → select_from n 0 0 0 0 c ≡ none
unfolding select_from sys_calculate_badness
select_from_traps zero c p there plain = absurd (omega arith)
select_from_traps (suc n) c p there plain = ground (arith, plain)

-- With no page under management the search for a victim divides by zero at the first task, unless
-- that task is null or exempt, and the killer traps.
pub sys_trigger_oom_killer_traps :
    (c : SysOomCtrl)
    → total_sys_pages c ≡ 0
    → 0 < c.active_task_count
    → c.task_array 0 ≢ 0
    → exempt (c.memory (c.task_array 0)) ≡ false
    → sys_trigger_oom_killer c ≡ trapped
unfolding sys_trigger_oom_killer sys_select_bad_process
sys_trigger_oom_killer_traps c none_managed some_task there plain = rw (
  sys_trigger_oom_killer,
  sys_select_bad_process,
  none_managed,
  select_from_traps c.active_task_count c some_task there plain,
)
