-- ===== src/Oom/Victim.antt =====
-- `sys_select_bad_process` of i386/whitex/oomk.h against its specification: a task of the highest
-- badness.
use whitex_kernel.Prelude.{
  ℕ, zero, suc, ◌+◌, ◌≤◌, ◌<◌, ◌≡◌, ◌≢◌, ◌⊎◌, inl, inr, refl, some, ltb, ◌==◌, arith, Bool-cases,
  Option-cases, sym, ◌∙◌, ==_iff, ltb→lt,
}
use mathlib.Core.Path.{subst}
use whitex_kernel.Oom.{
  SysOomCtrl, sys_calculate_badness, select_from, sys_select_bad_process, total_sys_pages,
}

-- the score of the task at slot `j`, which is none for a null pointer
abbrev pub Scores : SysOomCtrl → ℕ → ℕ → ℕ → Type 0
Scores c total j s =
    (c.task_array j ≢ 0) × (sys_calculate_badness (c.memory (c.task_array j)) total ≡ some s)

-- `best` bounds every score of the slots from `i` up to `stop`
abbrev pub Bounded : SysOomCtrl → (total i stop best : ℕ) → Type 0
Bounded c total i stop best = (j s : ℕ) → i ≤ j → j < stop → Scores c total j s → s ≤ best

-- `w` is the task of a slot from `i` up to `stop`, and its score is `best`
abbrev pub Attains : SysOomCtrl → (total i stop best w : ℕ) → Type 0
Attains c total i stop best w =
    (j : ℕ) × (i ≤ j) × (j < stop) × (c.task_array j ≡ w) × Scores c total j best

-- what the loop has found: the earlier choice `v` of score `h`, or a slot with a higher score
record Found (c : SysOomCtrl) (total i stop h v w : ℕ) : Type 0 where
  best : ℕ
  above : h ≤ best
  bounded : Bounded c total i stop best
  chosen : ((best ≡ h) × (w ≡ v)) ⊎ ((h < best) × Attains c total i stop best w)

module _ (c : SysOomCtrl) (total : ℕ) where
  join :
      {i stop h h' v v' w best : ℕ}
      → i < stop
      → ((best ≡ h') × (w ≡ v')) ⊎ ((h' < best) × Attains c total (i + 1) stop best w)
      → ((h' ≡ h) × (v' ≡ v)) ⊎ ((h < h') × (c.task_array i ≡ v') × Scores c total i h')
      → ((best ≡ h) × (w ≡ v)) ⊎ ((h < best) × Attains c total i stop best w)
  join lt (inl (e, d)) (inl (e', d')) = inl (e ∙ e', d ∙ d')
  join {i} lt (inl (e, d)) (inr (up, at, sc)) =
      inr (omega arith, (i, omega arith, lt, at ∙ sym d, subst (Scores c total i) (sym e) sc))
  join {i} {h} {h'} {v} {v'} {best} lt (inr (up, (j, le, below, at, sc))) how =
      inr (step how, (j, omega arith, below, at, sc))
    where
      step :
          ((h' ≡ h) × (v' ≡ v)) ⊎ ((h < h') × (c.task_array i ≡ v') × Scores c total i h')
          → h < best
      step (inl (e, d)) = omega arith
      step (inr (more, at', sc')) = omega arith

  above-step :
      {i h h' v v' : ℕ}
      → ((h' ≡ h) × (v' ≡ v)) ⊎ ((h < h') × (c.task_array i ≡ v') × Scores c total i h')
      → h ≤ h'
  above-step (inl (e, d)) = omega arith
  above-step (inr (up, at, sc)) = omega arith

  -- one more slot in front, whose score is at most what the rest was started with
  extend :
      {i stop h h' v v' w : ℕ}
      → Found c total (i + 1) stop h' v' w
      → i < stop
      → ((s : ℕ) → Scores c total i s → s ≤ h')
      → ((h' ≡ h) × (v' ≡ v)) ⊎ ((h < h') × (c.task_array i ≡ v') × Scores c total i h')
      → Found c total i stop h v w
  extend {i} {stop} {h} {h'} {v} {v'} {w} f lt here how = record {
    best = f.best;
    above = omega (arith, above-step how);
    bounded = λ j s le below sc. elim (Bool-cases (j == i)) [
      | inl same ↦
          omega (arith, f.above, here s (subst (λ n. Scores c total n s) ((==_iff j i).0 same) sc))
      | inr apart ↦ f.bounded j s (ground arith) below sc
    ];
    chosen = join lt f.chosen how;
  }

  select_from_lem :
      (k i h v w stop : ℕ)
      → i + k ≡ stop
      → select_from k i total h v c ≡ some w
      → Found c total i stop h v w
  unfolding select_from
  select_from_lem zero i h v w stop e r = record {
    best = h;
    above = omega arith;
    bounded = λ j s le below. absurd (omega arith);
    chosen = inl (refl, ground arith);
  }
  select_from_lem (suc k) i h v w stop e r = elim (Bool-cases (c.task_array i == 0)) [
    | inl null ↦
        extend (select_from_lem k (i + 1) h v w stop (omega arith) (ground arith)) (omega arith)
          (λ s sc. absurd (sc.0 ((==_iff _ 0).0 null))) (inl (refl, refl))
    | inr live ↦ elim (Option-cases (sys_calculate_badness (c.memory (c.task_array i)) total)) [
      | inl trap ↦ absurd (ground arith)
      | inr (score, known) ↦ elim (Bool-cases (ltb h score)) [
        | inl more ↦
            extend
              (select_from_lem k (i + 1) score (c.task_array i) w stop (omega arith) (ground arith))
              (omega arith) (λ s sc. ground arith)
              (inr (ltb→lt h score more, refl, ((λ e. ground arith), known)))
        | inr less ↦
            extend (select_from_lem k (i + 1) h v w stop (omega arith) (ground arith)) (omega arith)
              (λ s sc. ground arith) (inl (refl, refl))
      ]
    ]
  ]

-- the two ends of a search that began with no choice
abbrev pub Choice : SysOomCtrl → (total stop w : ℕ) → Type 0
Choice c total stop w =
    ((w ≡ 0) × Bounded c total 0 stop 0)
    ⊎ ((best : ℕ) × (0 < best)
        × (w ≢ 0)
        × Attains c total 0 stop best w
        × Bounded c total 0 stop best)

settle :
    (c : SysOomCtrl) (total stop w best : ℕ)
    → Bounded c total 0 stop best
    → ((best ≡ 0) × (w ≡ 0)) ⊎ ((0 < best) × Attains c total 0 stop best w)
    → Choice c total stop w
settle c total stop w best b (inl (e, d)) = inl (d, subst (Bounded c total 0 stop) e b)
settle c total stop w best b (inr (up, (j, le, below, at, sc))) =
    inr (best, up, (λ e. sc.0 (at ∙ e)), (j, le, below, at, sc), b)

-- When the search returns, either it found nobody and every task scores 0, or the victim is the
-- task of an active slot whose score is positive and bounds the score of every task.
pub sys_select_bad_process_lem :
    (c : SysOomCtrl) (w : ℕ)
    → sys_select_bad_process c ≡ some w
    → Choice c (total_sys_pages c) c.active_task_count w
unfolding sys_select_bad_process
sys_select_bad_process_lem c w r =
    let total = total_sys_pages c in
    let stop = c.active_task_count in
    let found = select_from_lem c total stop 0 0 0 w stop (omega arith) r in
    settle c total stop w found.best found.bounded found.chosen
