-- ===== src/Oom/Bounds.antt =====
-- The badness score and the reclaimers of i386/whitex/oomk.h: their bounds.
use whitex_kernel.Prelude.{ℕ, ◌+◌, ◌≤◌, ◌<◌, ◌≡◌, ◌↔◌, true, some, arith}
use whitex_kernel.Prelude.Words.{u32}
use whitex_kernel.Prelude.Int.{ℤ, pos, negsuc}
use whitex_kernel.Oom.{
  SysTask, SysMemZone, oom_score_max, clamp_score, exempt, adjusted_score, sys_calculate_badness,
  slab_reclaim,
}

pub clamp_score_bounds : (z : ℤ) → (1 ≤ clamp_score z) × (clamp_score z ≤ oom_score_max)
unfolding clamp_score
clamp_score_bounds (pos n) = ground arith
clamp_score_bounds (negsuc n) = ground arith

-- A score is at most OOM_SCORE_MAX, and it is 0 exactly for the exempt tasks: the unkillable, the
-- dead, the zombies and those with the least `oom_score_adj`.
pub sys_calculate_badness_bounds :
    (t : SysTask) (total_pages score : ℕ)
    → sys_calculate_badness t total_pages ≡ some score
    → (score ≤ oom_score_max) × ((score ≡ 0) ↔ (exempt t ≡ true))
unfolding sys_calculate_badness
sys_calculate_badness_bounds t total_pages score h =
    ground (arith, clamp_score_bounds (adjusted_score t total_pages))

-- A slab pass gives a zone at most 100 pages, only below its low watermark, and does not take it
-- past its high watermark.
pub slab_reclaim_bounds :
    (z : SysMemZone)
    → z.wm_low ≤ z.wm_high
    → z.wm_high < u32
    → (slab_reclaim z ≤ 100)
      × (z.free_pages ≤ z.wm_high → z.free_pages + slab_reclaim z ≤ z.wm_high)
      × (z.wm_low ≤ z.free_pages → slab_reclaim z ≡ 0)
unfolding slab_reclaim
slab_reclaim_bounds z h k = ground arith
