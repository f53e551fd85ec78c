-- ===== src/Fs/Tree.antt =====
-- The directories of i386/whitex/fs.h form a tree, and the current one has a way to the root.
use whitex_kernel.Prelude.{
  if_both, length, ltb, true_of_not, false_of_not, ℕ, ◌<◌, ◌≡◌, ◌≢◌, refl, ◌==◌, true, false,
  Option, none, some, List, [], ◌∷◌, ltb, not, update, arith, Bool-cases, inl, inr, eq_test,
  ne_test, ==_iff, sym, ap, ◌∙◌,
}
use mathlib.Core.Bool.{true≢false}
use whitex_kernel.Prelude.Search.{first_index, first_index-Search, Search, found}
use whitex_kernel.Kernel.Shell.{codes}
use whitex_kernel.Kernel.Memory.{strcmp}
use whitex_kernel.Fs.{
  Fs, dir_node, max_nodes, fs_strcpy, is_zero, init_fs, mkdir, is_target, cd, Command, make_dir,
  change_dir, start_again, run_command, run_commands,
}

-- The nodes in use come first, each lies below an earlier one, and the current directory is in use.
pub record IsTree (f : Fs) : Type 0 where
  pub root_used : (f.storage 0).is_used ≡ true
  pub root_top : (f.storage 0).parent_idx ≡ 0
  pub dense :
      (i j : ℕ)
      → i < j
      → j < max_nodes
      → (f.storage j).is_used ≡ true
      → (f.storage i).is_used ≡ true
  pub below :
      (i : ℕ) → 0 < i → i < max_nodes → (f.storage i).is_used ≡ true → (f.storage i).parent_idx < i
  pub here_in : f.current_dir < max_nodes
  pub here_used : (f.storage f.current_dir).is_used ≡ true

-- the parent of a node in use is a node in use
pub parent_used :
    (f : Fs) (i : ℕ)
    → IsTree f
    → i < max_nodes
    → (f.storage i).is_used ≡ true
    → ((f.storage i).parent_idx < max_nodes) × ((f.storage (f.storage i).parent_idx).is_used ≡ true)
parent_used f i good lt used = elim (Bool-cases (i == 0)) [
  | inl root ↦
      let at : i ≡ 0 = (==_iff i 0).0 root in
      let top : (f.storage i).parent_idx ≡ 0 =
        ap (λ j. (f.storage j).parent_idx) at ∙ good.root_top in
      (omega (arith, top), ap (λ j. (f.storage j).is_used) top ∙ good.root_used)
  | inr inner ↦
      let above : 0 < i = ground (arith, inner) in
      let less : (f.storage i).parent_idx < i = good.below i above lt used in
      (omega (arith, less, lt), good.dense (f.storage i).parent_idx i less lt used)
]

pub init_fs-IsTree : (f : Fs) → IsTree (init_fs f)
unfolding init_fs
init_fs-IsTree f = record {
  root_used = refl;
  root_top = refl;
  dense = λ i j less lt used. absurd (true≢false (sym used ∙ unused j less lt));
  below = λ i above lt used. absurd (true≢false (sym used ∙ unused i above lt));
  here_in = omega arith;
  here_used = refl;
}
  where
    unused : {i : ℕ} (j : ℕ) → i < j → j < max_nodes → ((init_fs f).storage j).is_used ≡ false
    unused j less lt =
        let inner : (j == 0) ≡ false = ground (arith, less) in
        let inside : ltb j max_nodes ≡ true = ground (arith, lt) in rw (inner, inside) refl

at_dir :
    (f : Fs) (i : ℕ)
    → IsTree f
    → i < max_nodes
    → (f.storage i).is_used ≡ true
    → IsTree (record f { current_dir = i })
at_dir f i good lt used = record {
  root_used = good.root_used;
  root_top = good.root_top;
  dense = good.dense;
  below = good.below;
  here_in = lt;
  here_used = used;
}

-- the mark of an overrun is no part of the tree
over-IsTree : (f : Fs) → IsTree f → IsTree (record f { overrun = true })
over-IsTree f good = record {
  root_used = good.root_used;
  root_top = good.root_top;
  dense = good.dense;
  below = good.below;
  here_in = good.here_in;
  here_used = good.here_used;
}

cd-Search :
    (name : List ℕ) (f : Fs) (r : Option ℕ)
    → IsTree f
    → Search (is_target name f) 0 max_nodes r
    → IsTree (elim r [ none ↦ f | some i ↦ record f { current_dir = i } ])
unfolding is_target
cd-Search name f (some i) good (found a lt hit before) = at_dir f i good lt (ground (arith, hit))
cd-Search name f none good s = good

pub cd-IsTree : (name : List ℕ) (f : Fs) → IsTree f → IsTree (cd name f)
unfolding cd
cd-IsTree name f good =
    if_both IsTree (ltb 31 (length name)) _ _ (over-IsTree f good)
      (elim (Bool-cases (is_zero (strcmp name (codes "..")))) [
        | inl up ↦
            let parent = parent_used f f.current_dir good good.here_in good.here_used in
            rw (up, cd) (at_dir f (f.storage f.current_dir).parent_idx good parent.0 parent.1)
        | inr down ↦
            rw (down, cd)
              (cd-Search name f (first_index (is_target name f) max_nodes 0) good
                (first_index-Search (is_target name f) max_nodes 0 max_nodes refl))
      ])

-- the state with a new directory in the free slot `i`
abbrev pub with_dir : (name : List ℕ) (i : ℕ) → Fs → Fs
with_dir name i f = record f {
  storage = update f.storage i (record (f.storage i) {
    is_used = true;
    type = dir_node;
    parent_idx = f.current_dir;
    name = fs_strcpy name;
  });
}

used_eq : (f : Fs) (i j : ℕ) → (f.storage i).is_used ≡ false → (f.storage j).is_used ≡ true → j ≢ i
used_eq f i j free used at = true≢false (sym used ∙ ap (λ k. (f.storage k).is_used) at ∙ free)

-- a node in use stands before the first free one
pub used_before :
    (f : Fs) (i j : ℕ)
    → IsTree f
    → j < max_nodes
    → (f.storage i).is_used ≡ false
    → (f.storage j).is_used ≡ true
    → j < i
used_before f i j good lt free used = elim (Bool-cases (ltb j i)) [
  | inl less ↦ ground (arith, less)
  | inr over ↦
      let apart : j ≢ i = used_eq f i j free used in
      let more : i < j = ground (arith, over, apart) in
      absurd (true≢false (sym (good.dense i j more lt used) ∙ free))
]

pub kept_node :
    (name : List ℕ) (i j : ℕ) (f : Fs) → j ≢ i → (with_dir name i f).storage j ≡ f.storage j
kept_node name i j f apart = rw (ne_test apart) refl

pub new_node :
    (name : List ℕ) (i : ℕ) (f : Fs)
    → (with_dir name i f).storage i ≡ record {
      is_used = true;
      type = dir_node;
      parent_idx = f.current_dir;
      name = fs_strcpy name;
    }
new_node name i f = let own : (i == i) ≡ true = eq_test refl in rw own refl

pub with_dir-IsTree :
    (name : List ℕ) (f : Fs) (i : ℕ)
    → IsTree f
    → i < max_nodes
    → (f.storage i).is_used ≡ false
    → ((j : ℕ) → j < i → (f.storage j).is_used ≡ true)
    → IsTree (with_dir name i f)
with_dir-IsTree name f i good lt free before =
    let f' = with_dir name i f in
    let old : (j : ℕ) → j ≢ i → f'.storage j ≡ f.storage j =
      λ j apart. kept_node name i j f apart in
    let not_root : 0 ≢ i = used_eq f i 0 free good.root_used in
    let here : f.current_dir < i =
      used_before f i f.current_dir good good.here_in free good.here_used in
    record {
      root_used = ap (λ v. v.is_used) (old 0 not_root) ∙ good.root_used;
      root_top = ap (λ v. v.parent_idx) (old 0 not_root) ∙ good.root_top;
      dense = λ a b less inside used. elim (Bool-cases (a == i)) [
        | inl same ↦
            let at : a ≡ i = (==_iff a i).0 same in
            ap (λ k. (f'.storage k).is_used) at ∙ ap (λ v. v.is_used) (new_node name i f)
        | inr other ↦
            let apart : a ≢ i = ground (arith, other) in
            ap (λ v. v.is_used) (old a apart) ∙ elim (Bool-cases (b == i)) [
              | inl last ↦ before a (ground (arith, less, last))
              | inr inner ↦
                  let off : b ≢ i = ground (arith, inner) in
                  good.dense a b less inside (sym (ap (λ v. v.is_used) (old b off)) ∙ used)
            ]
      ];
      below = λ a above inside used. elim (Bool-cases (a == i)) [
        | inl same ↦
            let at : a ≡ i = (==_iff a i).0 same in
            let to : (f'.storage a).parent_idx ≡ f.current_dir =
              ap (λ k. (f'.storage k).parent_idx) at ∙ ap (λ v. v.parent_idx) (new_node name i f) in
            omega (arith, to, here, at)
        | inr other ↦
            let apart : a ≢ i = ground (arith, other) in
            let to : (f'.storage a).parent_idx ≡ (f.storage a).parent_idx =
              ap (λ v. v.parent_idx) (old a apart) in
            let less : (f.storage a).parent_idx < a =
              good.below a above inside (sym (ap (λ v. v.is_used) (old a apart)) ∙ used) in
            omega (arith, to, less)
      ];
      here_in = good.here_in;
      here_used =
          let apart : f.current_dir ≢ i = omega (arith, here) in
          ap (λ v. v.is_used) (old f.current_dir apart) ∙ good.here_used;
    }

mkdir-Search :
    (name : List ℕ) (f : Fs) (r : Option ℕ)
    → IsTree f
    → Search (λ i. not (f.storage i).is_used) 0 max_nodes r
    → IsTree (elim r [ none ↦ f | some i ↦ with_dir name i f ])
mkdir-Search name f (some i) good (found a lt free before) =
    with_dir-IsTree name f i good lt (false_of_not (f.storage i).is_used free)
      (λ j less. true_of_not (f.storage j).is_used (before j (omega arith) less))
mkdir-Search name f none good s = good

pub mkdir-IsTree : (name : List ℕ) (f : Fs) → IsTree f → IsTree (mkdir name f)
unfolding mkdir
mkdir-IsTree name f good = if_both IsTree (ltb 31 (length name)) _ _ (over-IsTree f good) (
    mkdir-Search name f (first_index (λ i. not (f.storage i).is_used) max_nodes 0) good
      (first_index-Search (λ i. not (f.storage i).is_used) max_nodes 0 max_nodes refl))

-- However the tree is used, its nodes in use form a tree, and the current directory is one of them.
pub run_commands-IsTree : (cs : List Command) (f : Fs) → IsTree f → IsTree (run_commands cs f)
unfolding run_commands run_command
run_commands-IsTree [] f good = good
run_commands-IsTree (make_dir name ∷ cs) f good =
    run_commands-IsTree cs (mkdir name f) (mkdir-IsTree name f good)
run_commands-IsTree (change_dir name ∷ cs) f good =
    run_commands-IsTree cs (cd name f) (cd-IsTree name f good)
run_commands-IsTree (start_again ∷ cs) f good =
    run_commands-IsTree cs (init_fs f) (init_fs-IsTree f)
