-- ===== src/Oom/Alloc.antt =====
-- `sys_alloc_pages` of i386/whitex/oomk.h: with the zone locks open it never spins, leaves them
-- open, and keeps the reserve below the low-memory mark.
use whitex_kernel.Prelude.{
  ℕ, zero, suc, ◌+◌, ◌≤◌, ◌<◌, ◌≡◌, refl, Bool, true, false, Option, none, some, leb, ◌==◌, ◌||◌,
  update, arith, Bool-cases, Option-cases, ◌∙◌, inl, inr,
}
use whitex_kernel.Prelude.Words.{u32, bit}
use whitex_kernel.Prelude.Int.{pos}
use whitex_kernel.Oom.{
  SysOomCtrl, Outcome, done, halted, trapped, Call, ◌>>◌, and_then, max_nr_zones,
  sys_shrink_slab_caches, sys_shrink_page_cache, sys_select_bad_process, sys_send_sigkill,
  sys_trigger_oom_killer, sys_oom_panic, enough, attempt, reclaim, retry_allocation,
  sys_alloc_pages, sys_zone_lock, oom_flag_critical,
}

-- no zone's lock is held, and each count of free pages is a 32-bit number
abbrev pub Ready : SysOomCtrl → Type 0
Ready c = (i : ℕ) → ((c.zones i).lock ≡ false) × ((c.zones i).free_pages < u32)

-- the watermarks of `c` are those of `d`
abbrev pub SameMarks : SysOomCtrl → SysOomCtrl → Type 0
SameMarks c d = (i : ℕ) → (d.zones i).wm_min ≡ (c.zones i).wm_min

-- A call that started in `c` with a ready state does not spin; where it returns, the state is ready,
-- the minimum watermarks are unchanged and the result satisfies `P`.
pub data Fine {A : Type 0} (P : A → SysOomCtrl → Type 0) (c : SysOomCtrl) : Outcome A → Type 0 where
  returns : {a : A} {d : SysOomCtrl} → Ready d → SameMarks c d → P a d → Fine P c (done a d)
  halts : {d : SysOomCtrl} → Fine P c (halted d)
  traps : Fine P c trapped

abbrev Any : {A : Type 0} → A → SysOomCtrl → Type 0
Any a d = Unit {0}

module _ {A B : Type 0} {P : A → SysOomCtrl → Type 0} {Q : B → SysOomCtrl → Type 0} where
  bind :
      (k : A → Call B) {c : SysOomCtrl} {o : Outcome A}
      → Fine P c o
      → ((a : A) (d : SysOomCtrl) → Ready d → SameMarks c d → P a d → Fine Q d (k a d))
      → Fine Q c (and_then o k)
  bind k {c} (returns {a} {d} u s p) next = chain (next a d u s p)
    where
      chain : {o : Outcome B} → Fine Q d o → Fine Q c o
      chain (returns u' s' q) = returns u' (λ i. s' i ∙ s i) q
      chain halts = halts
      chain traps = traps
  bind k halts next = halts
  bind k traps next = traps

sys_shrink_slab_caches-Fine : (c : SysOomCtrl) → Ready c → Fine Any c (sys_shrink_slab_caches c)
unfolding sys_shrink_slab_caches
sys_shrink_slab_caches-Fine c u = returns (λ i. ground (arith, u i)) (λ i. ground arith) tt

sys_shrink_page_cache-Fine : (c : SysOomCtrl) → Ready c → Fine Any c (sys_shrink_page_cache c)
unfolding sys_shrink_page_cache
sys_shrink_page_cache-Fine c u = returns (λ i. ground (arith, u i)) (λ i. ground arith) tt

sys_send_sigkill-Fine : (w : ℕ) (c : SysOomCtrl) → Ready c → Fine Any c (sys_send_sigkill w c)
unfolding sys_send_sigkill
sys_send_sigkill-Fine w c u =
    rw ((u 1).0) (returns (λ i. ground (arith, u i)) (λ i. ground arith) tt)

kill-Fine : (w : ℕ) (c : SysOomCtrl) → Ready c → Fine Any c ((sys_send_sigkill w >> done true) c)
kill-Fine w c u =
    bind (λ _. done true) (sys_send_sigkill-Fine w c u) (λ a d v s q. returns v (λ i. refl) tt)

sys_trigger_oom_killer-Fine : (c : SysOomCtrl) → Ready c → Fine Any c (sys_trigger_oom_killer c)
unfolding sys_trigger_oom_killer
sys_trigger_oom_killer-Fine c u = elim (Option-cases (sys_select_bad_process c)) [
  | inl trap ↦ rw (trap, sys_trigger_oom_killer) traps
  | inr (w, found) ↦ elim (Bool-cases (w == 0)) [
    | inl nobody ↦ rw (found, nobody, sys_trigger_oom_killer) halts
    | inr somebody ↦
        elim (Bool-cases ((c.memory w).pid == 1 || bit (c.memory w).flags oom_flag_critical)) [
          | inl vital ↦ rw (found, somebody, vital, sys_trigger_oom_killer) halts
          | inr mortal ↦ rw (found, somebody, mortal, sys_trigger_oom_killer) (kill-Fine w c u)
        ]
  ]
]

-- when pages were taken, the zone keeps its minimum watermark free
abbrev pub Kept : ℕ → Option ℕ → SysOomCtrl → Type 0
Kept i none d = Unit
Kept i (some a) d = (d.zones i).wm_min ≤ (d.zones i).free_pages

locked : ℕ → SysOomCtrl → SysOomCtrl
locked i c = record c { zones = update c.zones i (record (c.zones i) { lock = true }) }

enough-locked : (i count : ℕ) (c : SysOomCtrl) → enough i count (locked i c) ≡ enough i count c
unfolding enough locked
enough-locked i count c = ground arith

attempt-Fine :
    (i count : ℕ) (c : SysOomCtrl)
    → Ready c
    → count + (c.zones i).wm_min < u32
    → Fine (Kept i) c (attempt i count c)
unfolding attempt locked
attempt-Fine i count c u lt = elim (Bool-cases (enough i count c)) [
  | inl there ↦
      let room : count + (c.zones i).wm_min ≤ (c.zones i).free_pages =
        unfold enough in ground (arith, there) in
      rw (there, attempt, (u i).0, sys_zone_lock, enough-locked i count c, there)
        (returns (λ j. ground (arith, u i, u j)) (λ j. ground arith) (ground (arith, u i)))
  | inr short ↦ rw (short, attempt) (returns u (λ i. refl) tt)
]

reclaim-Fine : (left : ℕ) (c : SysOomCtrl) → Ready c → Fine Any c (reclaim left c)
unfolding reclaim
reclaim-Fine zero c u = returns u (λ i. refl) tt
reclaim-Fine (suc zero) c u = sys_trigger_oom_killer-Fine c u
reclaim-Fine (suc (suc zero)) c u =
    bind (λ _. done true) (sys_shrink_page_cache-Fine c u) (λ a d v s q. returns v (λ i. refl) tt)
reclaim-Fine (suc (suc (suc k))) c u =
    bind (λ _. done true) (sys_shrink_slab_caches-Fine c u) (λ a d v s q. returns v (λ i. refl) tt)

-- an address was returned, and zone `i` keeps its minimum watermark
abbrev pub Reserved : ℕ → ℕ → SysOomCtrl → Type 0
Reserved i address d = (d.zones i).wm_min ≤ (d.zones i).free_pages

-- what follows an attempt when retries remain
again : (k i count : ℕ) → Bool → Call ℕ
again k i count = elim [ true ↦ retry_allocation k i count | false ↦ sys_oom_panic 0xDEAD_0002 ]

retry_allocation-Fine :
    (left i count : ℕ) (c : SysOomCtrl)
    → Ready c
    → count + (c.zones i).wm_min < u32
    → Fine (Reserved i) c (retry_allocation left i count c)
unfolding retry_allocation sys_oom_panic
retry_allocation-Fine zero i count c u lt =
    bind (elim [ some address ↦ done address | none ↦ sys_oom_panic 0xDEAD_0002 ])
      (attempt-Fine i count c u lt)
      (elim [ some address ↦ λ d v s q. returns v (λ j. refl) q | none ↦ λ d v s q. halts ])
retry_allocation-Fine (suc k) i count c u lt = bind _ (attempt-Fine i count c u lt) (elim [
  | some address ↦ λ d v s q. returns v (λ j. refl) q
  | none ↦ λ d v s q. bind _ (reclaim-Fine (suc k) d v) (elim [
    | true ↦ λ e v' s' q'. retry_allocation-Fine k i count e v' (omega (arith, s i, s' i))
    | false ↦ λ e v' s' q'. halts
  ])
])

-- From a ready state, with a request that does not overflow, `sys_alloc_pages` never spins on a
-- lock; if it returns, no lock is held, the minimum watermarks are what they were and the zone
-- still has its minimum watermark free.
pub sys_alloc_pages-Fine :
    (i count : ℕ) (c : SysOomCtrl)
    → Ready c
    → i < max_nr_zones
    → count + (c.zones i).wm_min < u32
    → Fine (Reserved i) c (sys_alloc_pages (pos i) count c)
unfolding sys_alloc_pages
sys_alloc_pages-Fine i count c u z lt = elim (Bool-cases (leb max_nr_zones i)) [
  | inl out ↦ absurd (ground arith)
  | inr in_range ↦ rw (in_range, sys_alloc_pages) (retry_allocation-Fine 3 i count c u lt)
]
