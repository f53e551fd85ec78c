-- ===== src/Oom.antt =====
-- The page allocator and the out-of-memory killer of i386/whitex/oomk.h: memory zones with
-- watermarks, the badness score of a task, the choice of a victim, and an allocation that
-- reclaims and retries. `g_sys_ctrl`, the device registers and the tasks in memory are one state.
-- A panic and a held lock never return, and a division by zero traps: these are outcomes.
pub mod Bounds
pub mod Victim
pub mod Address
pub mod Alloc
pub mod Tests
use Prim.Native.Nat.{bit_or}
use whitex_kernel.Prelude.{
  ℕ, zero, suc, ◌+◌, ◌-◌, ◌*◌, ◌/◌, ◌%◌, Bool, true, false, Option, none, some, ltb, leb, ◌==◌,
  ◌&&◌, ◌||◌, if◌then◌else◌, update,
}
use whitex_kernel.Prelude.Words.{u32, add32, sub32, mul32, bit}
use whitex_kernel.Prelude.Int.{
  ℤ, pos, negsuc, pos_part, neg_part, ◌+ℤ◌, ◌*ℤ◌, ltb_ℤ, eq_ℤ, signed32,
}

abbrev pub page_size : ℕ
page_size = 4096

abbrev pub sys_max_tasks : ℕ
sys_max_tasks = 1024

abbrev pub oom_score_adj_min : ℤ
oom_score_adj_min = negsuc 999

abbrev pub oom_score_max : ℕ
oom_score_max = 10000

abbrev pub zone_normal : ℕ
zone_normal = 1

abbrev pub max_nr_zones : ℕ
max_nr_zones = 3

-- TASK_STATE_RUNNING and the other states of oomk.h
abbrev pub task_state_running : ℕ
task_state_running = 0x01

abbrev pub task_state_zombie : ℕ
task_state_zombie = 0x04

abbrev pub task_state_dead : ℕ
task_state_dead = 0x08

-- the bits of OOM_FLAG_CRITICAL and OOM_FLAG_UNKILLABLE
abbrev pub oom_flag_critical : ℕ
oom_flag_critical = 0

abbrev pub oom_flag_unkillable : ℕ
oom_flag_unkillable = 1

-- `hw_oom_regs_t`
pub record HwOomRegs : Type 0 where
  pub panic_ctrl : ℕ
  pub reclaim_trig : ℕ
  pub kill_sig_vec : ℕ
  pub oom_victim_pid : ℕ

-- `sys_task_t`
pub record SysTask : Type 0 where
  pub pid : ℕ
  pub ppid : ℕ
  pub uid : ℕ
  pub state : ℕ
  pub flags : ℕ
  pub oom_score_adj : ℤ
  pub rss_pages : ℕ
  pub virtual_pages : ℕ
  pub page_faults : ℕ
  pub cpu_time_ms : ℕ
  pub nice_value : ℤ

-- `sys_mem_zone_t`; `watermark[3]` by its three names
pub record SysMemZone : Type 0 where
  pub managed_pages : ℕ
  pub free_pages : ℕ
  pub wm_min : ℕ
  pub wm_low : ℕ
  pub wm_high : ℕ
  pub lock : Bool

-- `sys_oom_ctrl_t`, with the device registers and the tasks that the pointers of `task_array`
-- lead to. A null pointer is 0.
pub record SysOomCtrl : Type 0 where
  pub zones : ℕ → SysMemZone
  pub total_reclaimed : ℕ
  pub total_oom_kills : ℕ
  pub task_array : ℕ → ℕ
  pub active_task_count : ℕ
  pub regs : HwOomRegs
  pub memory : ℕ → SysTask

-- What a call comes to: it returns, or halts the machine in `sys_oom_panic`, or spins on a lock
-- that nobody releases, or traps on a division by zero.
pub data Outcome (A : Type 0) : Type 0 where
  done : A → SysOomCtrl → Outcome A
  halted : SysOomCtrl → Outcome A
  spinning : Outcome A
  trapped : Outcome A

abbrev pub Call : Type 0 → Type 0
Call A = SysOomCtrl → Outcome A

module _ {A B : Type 0} where
  abbrev pub and_then : Outcome A → (A → Call B) → Outcome B
  and_then (done a c) k = k a c
  and_then (halted c) k = halted c
  and_then spinning k = spinning
  and_then trapped k = trapped

  infixl 5 ◌>>=◌ ◌>>◌
  abbrev pub ◌>>=◌ : Call A → (A → Call B) → Call B
  m >>= k = λ c. and_then (m c) k

  abbrev pub ◌>>◌ : Call A → Call B → Call B
  m >> n = m >>= λ _. n

abbrev pub set_zone : ℕ → SysMemZone → Call (Unit {0})
set_zone i z c = done tt (record c { zones = update c.zones i z })

unfoldable pub sys_zone_lock : ℕ → Call (Unit {0})
sys_zone_lock i c =
    if (c.zones i).lock then spinning else set_zone i (record (c.zones i) { lock = true }) c

unfoldable pub sys_zone_unlock : ℕ → Call (Unit {0})
sys_zone_unlock i c = set_zone i (record (c.zones i) { lock = false }) c

-- never returns
unfoldable pub sys_oom_panic : {A : Type 0} → ℕ → Call A
sys_oom_panic code c = halted (record c {
  regs = record c.regs { oom_victim_pid = code; panic_ctrl = bit_or 0xDEAD_0000 code };
})

init_zone : ℕ → ℕ → SysMemZone
init_zone pages divisor = record {
  managed_pages = pages;
  free_pages = pages;
  wm_min = pages / (4 * divisor);
  wm_low = pages / (2 * divisor);
  wm_high = pages / divisor;
  lock = false;
}

unfoldable pub sys_oom_init : ℕ → ℕ → ℕ → Call (Unit {0})
unfolding init_zone
sys_oom_init dma_pages normal_pages highmem_pages c = done tt (record c {
  zones =
      update (update (update c.zones 0 (init_zone dma_pages 16)) 1 (init_zone normal_pages 32)) 2
        (init_zone highmem_pages 64);
  total_reclaimed = 0;
  total_oom_kills = 0;
  active_task_count = 0;
})

-- what `sys_shrink_slab_caches` takes back in one zone
unfoldable pub slab_reclaim : SysMemZone → ℕ
slab_reclaim z =
    if ltb z.free_pages z.wm_low
    then (if ltb 100 (sub32 z.wm_high z.free_pages) then 100 else sub32 z.wm_high z.free_pages)
    else 0

-- `atomic_fetch_add(&zone->free_pages, n)`
unfoldable pub add_free : ℕ → ℕ → SysOomCtrl → SysOomCtrl
add_free i n c = record c {
  zones = update c.zones i (record (c.zones i) { free_pages = add32 (c.zones i).free_pages n });
}

-- the loop over the zones from `i` on, `reclaimed` so far
unfoldable pub shrink_zones : (rounds i reclaimed : ℕ) → SysOomCtrl → ℕ × SysOomCtrl
unfolding slab_reclaim add_free
shrink_zones zero i reclaimed c = (reclaimed, c)
shrink_zones (suc k) i reclaimed c =
    shrink_zones k (i + 1) (add32 reclaimed (slab_reclaim (c.zones i)))
      (add_free i (slab_reclaim (c.zones i)) c)

unfoldable pub sys_shrink_slab_caches : Call ℕ
unfolding shrink_zones
sys_shrink_slab_caches c =
    let (reclaimed, c') =
      shrink_zones max_nr_zones 0 0 (record c { regs = record c.regs { reclaim_trig = 0x01 } }) in
    done reclaimed (record c' { total_reclaimed = add32 c'.total_reclaimed reclaimed })

-- what `sys_shrink_page_cache` takes back in the normal zone
unfoldable pub cache_reclaim : SysMemZone → ℕ
cache_reclaim z = if ltb z.free_pages z.wm_high then sub32 z.wm_high z.free_pages / 2 else 0

unfoldable pub sys_shrink_page_cache : Call ℕ
unfolding cache_reclaim add_free
sys_shrink_page_cache c =
    let reclaimed = cache_reclaim (c.zones zone_normal) in
    let c' =
      add_free zone_normal reclaimed (record c { regs = record c.regs { reclaim_trig = 0x02 } }) in
    done reclaimed (record c' { total_reclaimed = add32 c'.total_reclaimed reclaimed })

-- The score before `oom_score_adj`: the share of memory, weighted by niceness. The products wrap.
unfoldable pub weighted_score : SysTask → ℕ → ℕ
weighted_score t total_pages =
    let score = mul32 t.rss_pages oom_score_max / total_pages in
    let score =
      if ltb 0 (pos_part t.nice_value)
      then add32 score (mul32 score (pos_part t.nice_value) / 20)
      else if ltb 0 (neg_part t.nice_value)
      then sub32 score (mul32 score (neg_part t.nice_value) / 20)
      else score in
    if bit t.flags oom_flag_critical then score / 4 else score

-- `adjusted_score` held between 1 and OOM_SCORE_MAX
unfoldable pub clamp_score : ℤ → ℕ
clamp_score adjusted =
    if ltb_ℤ (pos 0) adjusted
    then (if ltb oom_score_max (pos_part adjusted) then oom_score_max else pos_part adjusted)
    else 1

-- A task that is no candidate: its score is 0.
unfoldable pub exempt : SysTask → Bool
exempt t =
    bit t.flags oom_flag_unkillable
    || (t.state == task_state_dead || t.state == task_state_zombie)
    || eq_ℤ t.oom_score_adj oom_score_adj_min

-- the sum of two `int`, which keeps 32 bits
abbrev pub wrapped : ℤ → ℤ
wrapped (pos n) = signed32 (n % u32)
wrapped (negsuc n) = signed32 (u32 - 1 - n % u32)

unfoldable pub adjusted_score : SysTask → ℕ → ℤ
unfolding weighted_score
adjusted_score t total_pages =
    wrapped (signed32 (weighted_score t total_pages) +ℤ (t.oom_score_adj *ℤ pos 10))

-- `none` is the trap of a division by `total_pages` 0. The first test, for a null task, is that of
-- the caller, which skips it.
unfoldable pub sys_calculate_badness : SysTask → ℕ → Option ℕ
sys_calculate_badness t total_pages =
    if exempt t
    then some 0
    else if total_pages == 0
    then none
    else some (clamp_score (adjusted_score t total_pages))

unfoldable pub total_sys_pages : SysOomCtrl → ℕ
total_sys_pages c =
    add32 (add32 (c.zones 0).managed_pages (c.zones 1).managed_pages) (c.zones 2).managed_pages

-- The loop over the task array from `i` on, with the highest score and its task so far.
unfoldable pub select_from : (rounds i total highest chosen : ℕ) → SysOomCtrl → Option ℕ
select_from zero i total highest chosen c = some chosen
select_from (suc k) i total highest chosen c = elim (c.task_array i == 0) [
  | true ↦ select_from k (i + 1) total highest chosen c
  | false ↦ elim (sys_calculate_badness (c.memory (c.task_array i)) total) [
    | none ↦ none
    | some score ↦ elim (ltb highest score) [
      | true ↦ select_from k (i + 1) total score (c.task_array i) c
      | false ↦ select_from k (i + 1) total highest chosen c
    ]
  ]
]

-- The victim's address, 0 for none; the outer `none` is the trap of the division.
unfoldable pub sys_select_bad_process : SysOomCtrl → Option ℕ
unfolding select_from sys_calculate_badness exempt adjusted_score clamp_score total_sys_pages
sys_select_bad_process c = select_from c.active_task_count 0 (total_sys_pages c) 0 0 c

set_task : ℕ → SysTask → Call (Unit {0})
set_task p t c = done tt (record c { memory = update c.memory p t })

free_rss : ℕ → Call (Unit {0})
free_rss n c = done tt (add_free zone_normal n c)

unfoldable pub sys_send_sigkill : ℕ → Call (Unit {0})
unfolding sys_zone_lock sys_zone_unlock add_free set_task free_rss
sys_send_sigkill victim = do
  (λ c. set_task victim (record (c.memory victim) { state = task_state_dead }) c)
  (λ c. done tt (record c {
    regs = record c.regs { oom_victim_pid = (c.memory victim).pid; kill_sig_vec = 0x09 };
  }))
  rss_reclaim ← λ c. done (c.memory victim).rss_pages c
  sys_zone_lock zone_normal
  free_rss rss_reclaim
  sys_zone_unlock zone_normal
  (λ c. set_task victim (record (c.memory victim) { rss_pages = 0; virtual_pages = 0 }) c)
  (λ c. done tt (record c { total_oom_kills = add32 c.total_oom_kills 1 }))

unfoldable pub sys_trigger_oom_killer : Call Bool
unfolding sys_select_bad_process sys_oom_panic sys_send_sigkill
sys_trigger_oom_killer c = elim (sys_select_bad_process c) [
  | none ↦ trapped
  | some victim ↦
      if victim == 0
      then sys_oom_panic 0xDEAD_0001 c
      else if (c.memory victim).pid == 1 || bit (c.memory victim).flags oom_flag_critical
      then sys_oom_panic (c.memory victim).pid c
      else (sys_send_sigkill victim >> done true) c
]

-- `current_free >= count + zone->watermark[WM_MIN]`
unfoldable pub enough : ℕ → ℕ → SysOomCtrl → Bool
enough i count c = leb (add32 count (c.zones i).wm_min) (c.zones i).free_pages

take_pages : ℕ → ℕ → Call (Unit {0})
take_pages i count c =
    set_zone i (record (c.zones i) { free_pages = sub32 (c.zones i).free_pages count }) c

-- what is done under the lock once the second test has passed
take_locked : ℕ → ℕ → Call (Option ℕ)
take_locked i count = do
  take_pages i count
  sys_zone_unlock i
  λ c. done (some (add32 0x1000_0000 (mul32 c.total_reclaimed page_size))) c

-- One pass from `retry_allocation` to the test of `retry_count`: the address, if pages were taken.
unfoldable pub attempt : ℕ → ℕ → Call (Option ℕ)
unfolding sys_zone_lock sys_zone_unlock take_pages take_locked
attempt i count = do
  free ← λ c. done (enough i count c) c
  if free
      then (do
        sys_zone_lock i
        still ← λ c. done (enough i count c) c
        if still then take_locked i count else (sys_zone_unlock i >> done none))
      else done none

-- What is tried with `left` retries remaining: `retry_count` is `3 - left`.
unfoldable pub reclaim : (left : ℕ) → Call Bool
unfolding sys_shrink_slab_caches sys_shrink_page_cache sys_trigger_oom_killer
reclaim zero = done false
reclaim (suc zero) = sys_trigger_oom_killer
reclaim (suc (suc zero)) = sys_shrink_page_cache >> done true
reclaim (suc (suc (suc k))) = sys_shrink_slab_caches >> done true

unfoldable pub retry_allocation : (left : ℕ) → ℕ → ℕ → Call ℕ
unfolding attempt reclaim sys_oom_panic
retry_allocation zero i count = do
  got ← attempt i count
  elim got [ some address ↦ done address | none ↦ sys_oom_panic 0xDEAD_0002 ]
retry_allocation (suc k) i count = do
  got ← attempt i count
  elim got [
    | some address ↦ done address
    | none ↦ reclaim (suc k) >>= λ again. elim again [
      | true ↦ retry_allocation k i count
      | false ↦ sys_oom_panic 0xDEAD_0002
    ]
  ]

-- `zone_idx` is an `int`; NULL is 0.
unfoldable pub sys_alloc_pages : ℤ → ℕ → Call ℕ
unfolding retry_allocation enough
sys_alloc_pages (negsuc n) count = done 0
sys_alloc_pages (pos i) count = if leb max_nr_zones i then done 0 else retry_allocation 3 i count

unfoldable pub sys_register_task : ℕ → Call (Unit {0})
unfolding sys_oom_panic
sys_register_task new_task c =
    if ltb c.active_task_count sys_max_tasks
    then done tt (record c {
      task_array = update c.task_array c.active_task_count new_task;
      active_task_count = add32 c.active_task_count 1;
    })
    else sys_oom_panic 0xDEAD_0003 c

-- the loop of `sys_oom_monitor_check` over the zones from `i` on
unfoldable pub monitor_from : (rounds i : ℕ) → Call (Unit {0})
unfolding sys_trigger_oom_killer
monitor_from zero i = done tt
monitor_from (suc k) i = do
  low ← λ c. done (ltb (c.zones i).free_pages (c.zones i).wm_min) c
  (if low then sys_trigger_oom_killer else done false)
  monitor_from k (i + 1)

unfoldable pub sys_oom_monitor_check : Call (Unit {0})
unfolding monitor_from
sys_oom_monitor_check = monitor_from max_nr_zones 0
