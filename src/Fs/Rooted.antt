-- ===== src/Fs/Rooted.antt =====
-- With files and removals the nodes of i386/whitex/fssdd.h need not form a tree any more, but the current
-- directory keeps a way to the root.
use whitex_kernel.Prelude.{
  if_both, length, ltb, false_of_not, ℕ, zero, suc, ◌<◌, ◌≡◌, ◌≢◌, refl, ◌==◌, Bool, true, false,
  Option, none, some, List, not, if◌then◌else◌, update, arith, Bool-cases, inl, inr, ne_test,
  ==_iff, sym, ap, ◌∙◌,
}
use mathlib.Core.Path.{subst}
use mathlib.Core.Bool.{true≢false}
use whitex_kernel.Prelude.Search.{first_index, first_index-Search, Search, found}
use whitex_kernel.Kernel.Shell.{codes}
use whitex_kernel.Kernel.Memory.{strcmp}
use whitex_kernel.Fs.{Fs, VfsNode, max_nodes, is_zero, mkdir, is_target, cd}
use whitex_kernel.Fs.Files.{
  Removal, kept, deleted, not_found, touch, rm, whitex_touch, whitex_rm, is_removed, without, Deed,
  shows, leaves, unknown, syncs, resets, makes, changes, touches, removes, perform, perform_fsshell,
}

-- the way of a node in use to the root over nodes in use, with its length
pub data Way (f : Fs) : ℕ → ℕ → Type 0 where
  at_root : Way f 0 0
  up :
      {k i : ℕ}
      → i ≢ 0
      → (f.storage i).is_used ≡ true
      → Way f k (f.storage i).parent_idx
      → Way f (suc k) i

-- The root is in use and its own parent, and the current directory has a way to it.
pub record IsRooted (f : Fs) : Type 0 where
  pub root_used : (f.storage 0).is_used ≡ true
  pub root_top : (f.storage 0).parent_idx ≡ 0
  pub depth : ℕ
  pub way : Way f depth f.current_dir

-- a node has one way only
Way-depth : {f : Fs} {k l i : ℕ} → Way f k i → Way f l i → k ≡ l
Way-depth at_root at_root = refl
Way-depth at_root (up other used rest) = absurd (other refl)
Way-depth (up other used rest) at_root = absurd (other refl)
Way-depth (up other used rest) (up other' used' rest') = ap suc (Way-depth rest rest')

-- what is changed is no node of the way
Way-kept :
    {f g : Fs} {k i : ℕ}
    → ((j : ℕ) → (f.storage j).is_used ≡ true → g.storage j ≡ f.storage j)
    → Way f k i
    → Way g k i
Way-kept same at_root = at_root
Way-kept {f} {g} same (up {k} {i} other used rest) =
    up other (ap (λ v. v.is_used) (same i used) ∙ used)
      (subst (λ p. Way g k p) (sym (ap (λ v. v.parent_idx) (same i used))) (Way-kept same rest))

without_other : (i j : ℕ) (f : Fs) → j ≢ i → (without i f).storage j ≡ f.storage j
without_other i j f apart = rw (ne_test apart) refl

-- a node that lies further from the root than the way reaches can go
Way-without : {f : Fs} {d k i : ℕ} (j : ℕ) → Way f d j → k < d → Way f k i → Way (without j f) k i
Way-without j far less at_root = at_root
Way-without {f} {d} j far less (up {k} {i} other used rest) =
    let apart : i ≢ j = λ at.
      let same : suc k ≡ d = Way-depth (up other used rest) (subst (λ n. Way f d n) (sym at) far) in
      absurd (omega (arith, same, less)) in
    let kept = without_other j i f apart in
    up other (ap (λ v. v.is_used) kept ∙ used) (
      subst (λ p. Way (without j f) k p) (sym (ap (λ v. v.parent_idx) kept))
        (Way-without j far (omega (arith, less)) rest))

-- a node that was free is written
IsRooted-written :
    (i : ℕ) (v : VfsNode) (f : Fs)
    → (f.storage i).is_used ≡ false
    → IsRooted f
    → IsRooted (record f { storage = update f.storage i v })
IsRooted-written i v f free good =
    let same : (j : ℕ) → (f.storage j).is_used ≡ true → update f.storage i v j ≡ f.storage j =
      λ j used.
        let apart : j ≢ i =
          λ at. true≢false (sym used ∙ ap (λ n. (f.storage n).is_used) at ∙ free) in
        rw (ne_test apart) refl in
    record {
      root_used = ap (λ n. n.is_used) (same 0 good.root_used) ∙ good.root_used;
      root_top = ap (λ n. n.parent_idx) (same 0 good.root_used) ∙ good.root_top;
      depth = good.depth;
      way = Way-kept same good.way;
    }

IsRooted-found :
    (v : ℕ → VfsNode) (f : Fs) (r : Option ℕ)
    → Search (λ i. not (f.storage i).is_used) 0 max_nodes r
    → IsRooted f
    → IsRooted (elim r [ none ↦ f | some i ↦ record f { storage = update f.storage i (v i) } ])
IsRooted-found v f (some i) (found a lt free before) good =
    IsRooted-written i (v i) f (false_of_not (f.storage i).is_used free) good
IsRooted-found v f none s good = good

-- the mark of an overrun is no part of the tree
pub over-IsRooted : (f : Fs) → IsRooted f → IsRooted (record f { overrun = true })
over-IsRooted f good = record {
  root_used = good.root_used;
  root_top = good.root_top;
  depth = good.depth;
  way = Way-kept (λ j used. refl) good.way;
}

module _ (name : List ℕ) (f : Fs) (good : IsRooted f) where
  mkdir-IsRooted : IsRooted (mkdir name f)
  unfolding mkdir
  mkdir-IsRooted = if_both IsRooted (ltb 31 (length name)) _ _ (over-IsRooted f good) (
      IsRooted-found _ f (first_index (λ i. not (f.storage i).is_used) max_nodes 0)
        (first_index-Search (λ i. not (f.storage i).is_used) max_nodes 0 max_nodes refl) good)

  whitex_touch-IsRooted : IsRooted (whitex_touch name f)
  unfolding whitex_touch
  whitex_touch-IsRooted = if_both IsRooted (ltb 31 (length name)) _ _ (over-IsRooted f good) (
      IsRooted-found _ f (first_index (λ i. not (f.storage i).is_used) max_nodes 0)
        (first_index-Search (λ i. not (f.storage i).is_used) max_nodes 0 max_nodes refl) good)

abbrev touched : (ℕ → VfsNode) → Fs → Option ℕ → Bool × Fs
touched v f none = (false, f)
touched v f (some i) = (true, record f { storage = update f.storage i (v i) })

touched-IsRooted :
    (v : ℕ → VfsNode) (f : Fs) (r : Option ℕ)
    → Search (λ i. not (f.storage i).is_used) 0 max_nodes r
    → IsRooted f
    → IsRooted (touched v f r).1
touched-IsRooted v f (some i) (found a lt free before) good =
    IsRooted-written i (v i) f (false_of_not (f.storage i).is_used free) good
touched-IsRooted v f none s good = good

touch-IsRooted : (name : List ℕ) (f : Fs) → IsRooted f → IsRooted (touch name f).1
unfolding touch
touch-IsRooted name f good =
    if_both (λ (r : Bool × Fs). IsRooted r.1) (ltb 31 (length name)) _ _ (over-IsRooted f good)
      (touched-IsRooted _ f (first_index (λ i. not (f.storage i).is_used) max_nodes 0)
        (first_index-Search (λ i. not (f.storage i).is_used) max_nodes 0 max_nodes refl) good)

abbrev gone_after : Fs → Option ℕ → Removal × Fs
gone_after f none = (not_found, f)
gone_after f (some i) = if i == 0 then (kept, f) else (deleted, without i f)

IsRooted-without :
    (i : ℕ) (f : Fs)
    → i ≢ 0
    → (f.storage i).is_used ≡ true
    → (f.storage i).parent_idx ≡ f.current_dir
    → IsRooted f
    → IsRooted (without i f)
IsRooted-without i f inner used here good =
    let root : (without i f).storage 0 ≡ f.storage 0 = without_other i 0 f (λ e. inner (sym e)) in
    let far : Way f (suc good.depth) i =
      up inner used (subst (λ p. Way f good.depth p) (sym here) good.way) in
    record {
      root_used = ap (λ n. n.is_used) root ∙ good.root_used;
      root_top = ap (λ n. n.parent_idx) root ∙ good.root_top;
      depth = good.depth;
      way = Way-without i far (omega arith) good.way;
    }

module _ (name : List ℕ) (f : Fs) (good : IsRooted f) where
  gone-IsRooted : (i : ℕ) → is_removed name f i ≡ true → (i == 0) ≡ false → IsRooted (without i f)
  unfolding is_removed
  gone-IsRooted i hit inner =
      IsRooted-without i f (λ e. ground (arith, inner, e)) (ground (arith, hit))
        (ground (arith, hit)) good

  rm_from : (r : Option ℕ) → Search (is_removed name f) 0 max_nodes r → IsRooted (gone_after f r).1
  rm_from none s = good
  rm_from (some i) (found a lt hit before) = elim (Bool-cases (i == 0)) [
    | inl root ↦ rw root good
    | inr inner ↦ rw inner (gone-IsRooted i hit inner)
  ]

  rm-IsRooted : IsRooted (rm name f).1
  unfolding rm
  rm-IsRooted =
      if_both (λ (r : Removal × Fs). IsRooted r.1) (ltb 31 (length name)) _ _ (over-IsRooted f good)
        (rm_from (first_index (is_removed name f) max_nodes 0)
          (first_index-Search (is_removed name f) max_nodes 0 max_nodes refl))

  whitex_rm_from :
      (r : Option ℕ)
      → Search (is_removed name f) 0 max_nodes r
      → IsRooted (elim r [ none ↦ f | some i ↦ if not (i == 0) then without i f else f ])
  whitex_rm_from none s = good
  whitex_rm_from (some i) (found a lt hit before) = elim (Bool-cases (i == 0)) [
    | inl root ↦ rw root good
    | inr inner ↦ rw inner (gone-IsRooted i hit inner)
  ]

  whitex_rm-IsRooted : IsRooted (whitex_rm name f)
  unfolding whitex_rm
  whitex_rm-IsRooted = if_both IsRooted (ltb 31 (length name)) _ _ (over-IsRooted f good) (
      whitex_rm_from (first_index (is_removed name f) max_nodes 0)
        (first_index-Search (is_removed name f) max_nodes 0 max_nodes refl))

at_node : (f : Fs) (k i : ℕ) → IsRooted f → Way f k i → IsRooted (record f { current_dir = i })
at_node f k i good way = record {
  root_used = good.root_used;
  root_top = good.root_top;
  depth = k;
  way = Way-kept (λ j used. refl) way;
}

Way-parent :
    (f : Fs) (k i : ℕ)
    → (f.storage 0).parent_idx ≡ 0
    → Way f k i
    → (l : ℕ) × Way f l (f.storage i).parent_idx
Way-parent f zero i top at_root = (0, subst (λ p. Way f 0 p) (sym top) at_root)
Way-parent f (suc k) i top (up other used rest) = (k, rest)

module _ (name : List ℕ) (f : Fs) (good : IsRooted f) where
  entered : (i : ℕ) → is_target name f i ≡ true → IsRooted (record f { current_dir = i })
  unfolding is_target
  entered i hit = elim (Bool-cases (i == 0)) [
    | inl root ↦ at_node f 0 i good (subst (λ n. Way f 0 n) (sym ((==_iff i 0).0 root)) at_root)
    | inr inner ↦
        let used : (f.storage i).is_used ≡ true = ground (arith, hit) in
        let here : (f.storage i).parent_idx ≡ f.current_dir = ground (arith, hit) in
        at_node f (suc good.depth) i good (
          up (λ e. ground (arith, inner, e)) used
            (subst (λ p. Way f good.depth p) (sym here) good.way))
  ]

  cd_from :
      (r : Option ℕ)
      → Search (is_target name f) 0 max_nodes r
      → IsRooted (elim r [ none ↦ f | some i ↦ record f { current_dir = i } ])
  cd_from none s = good
  cd_from (some i) (found a lt hit before) = entered i hit

  cd-IsRooted : IsRooted (cd name f)
  unfolding cd
  cd-IsRooted =
      if_both IsRooted (ltb 31 (length name)) _ _ (over-IsRooted f good)
        (elim (Bool-cases (is_zero (strcmp name (codes "..")))) [
          | inl upwards ↦
              let (l, way) = Way-parent f good.depth f.current_dir good.root_top good.way in
              rw (upwards, cd) (at_node f l (f.storage f.current_dir).parent_idx good way)
          | inr down ↦
              rw (down, cd)
                (cd_from (first_index (is_target name f) max_nodes 0)
                  (first_index-Search (is_target name f) max_nodes 0 max_nodes refl))
        ])

  pub perform-IsRooted : (d : Deed) → IsRooted (perform d name f)
  unfolding perform
  perform-IsRooted makes = mkdir-IsRooted name f good
  perform-IsRooted changes = cd-IsRooted
  perform-IsRooted touches = touch-IsRooted name f good
  perform-IsRooted removes = rm-IsRooted name f good
  perform-IsRooted shows = good
  perform-IsRooted leaves = good
  perform-IsRooted unknown = good
  perform-IsRooted syncs = good
  perform-IsRooted resets = good

  pub perform_fsshell-IsRooted : (d : Deed) → IsRooted (perform_fsshell d name f)
  unfolding perform_fsshell
  perform_fsshell-IsRooted makes = mkdir-IsRooted name f good
  perform_fsshell-IsRooted changes = cd-IsRooted
  perform_fsshell-IsRooted touches = whitex_touch-IsRooted name f good
  perform_fsshell-IsRooted removes = whitex_rm-IsRooted name f good
  perform_fsshell-IsRooted shows = good
  perform_fsshell-IsRooted leaves = good
  perform_fsshell-IsRooted unknown = good
  perform_fsshell-IsRooted syncs = good
  perform_fsshell-IsRooted resets = good
