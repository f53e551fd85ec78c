-- ===== src/Fs/Ways.antt =====
-- The ways through the directories of i386/whitex/fs.h: up to the root, and into a new directory and back.
use whitex_kernel.Prelude.{
  ℕ, zero, suc, ◌≤◌, ◌<◌, ◌≡◌, ◌≢◌, refl, ◌==◌, true, false, ltb, Option, none, some, List, [], ◌∷◌,
  ◌&&◌, not, take, length, arith, Bool-cases, inl, inr, eq_test, ==_iff, ap, ◌∙◌,
}
use whitex_kernel.Prelude.Int.{pos}
use whitex_kernel.Prelude.Search.{first_at, NonePass}
use whitex_kernel.Kernel.Shell.{codes}
use whitex_kernel.Kernel.Memory.{strcmp}
use whitex_kernel.Fs.{
  Fs, VfsNode, max_nodes, fs_strcpy, is_dir, is_zero, init_fs, mkdir, is_target, cd, Command,
  run_commands,
}
use whitex_kernel.Fs.Tree.{
  IsTree, cd-IsTree, kept_node, new_node, with_dir, init_fs-IsTree, run_commands-IsTree,
}

-- `cd ..`, a number of times
abbrev pub climb : ℕ → Fs → Fs
climb zero f = f
climb (suc k) f = climb k (cd (codes "..") f)

pub cd_up :
    (f : Fs) → cd (codes "..") f ≡ record f { current_dir = (f.storage f.current_dir).parent_idx }
unfolding cd strcmp
cd_up f = refl

up_lower :
    (f : Fs) (k : ℕ) → IsTree f → f.current_dir ≤ suc k → (f.storage f.current_dir).parent_idx ≤ k
up_lower f k good le = elim (Bool-cases (f.current_dir == 0)) [
  | inl root ↦
      let at : f.current_dir ≡ 0 = (==_iff f.current_dir 0).0 root in
      let top : (f.storage f.current_dir).parent_idx ≡ 0 =
        ap (λ j. (f.storage j).parent_idx) at ∙ good.root_top in
      omega (arith, top)
  | inr inner ↦
      let above : 0 < f.current_dir = ground (arith, inner) in
      omega (arith, good.below f.current_dir above good.here_in good.here_used, le)
]

climb_enough : (k : ℕ) (f : Fs) → IsTree f → f.current_dir ≤ k → (climb k f).current_dir ≡ 0
climb_enough zero f good le = omega (arith, le)
climb_enough (suc k) f good le =
    climb_enough k (cd (codes "..") f) (cd-IsTree (codes "..") f good)
      (rw (cd_up f) (up_lower f k good le))

-- Whatever commands are given after the start, 127 times `cd ..` lead to the root.
pub run_commands-climb :
    (cs : List Command) (f : Fs) → (climb 127 (run_commands cs (init_fs f))).current_dir ≡ 0
run_commands-climb cs f =
    let good = run_commands-IsTree cs (init_fs f) (init_fs-IsTree f) in
    climb_enough 127 (run_commands cs (init_fs f)) good (omega (arith, good.here_in))

strcmp_self : (s : List ℕ) → strcmp s s ≡ pos 0
unfolding strcmp
strcmp_self [] = refl
strcmp_self (x ∷ s) = let own : (x == x) ≡ true = eq_test refl in rw own (strcmp_self s)

pub take_all : (n : ℕ) (s : List ℕ) → length s ≤ n → take n s ≡ s
take_all zero [] le = refl
take_all zero (x ∷ s) le = absurd (omega arith)
take_all (suc n) [] le = refl
take_all (suc n) (x ∷ s) le = ap (λ l. x ∷ l) (take_all n s (omega arith))

-- the slot that `mkdir` takes
abbrev pub IsFree : Fs → ℕ → Type 0
IsFree f i =
    (i < max_nodes)
    × ((f.storage i).is_used ≡ false)
    × ((j : ℕ) → j < i → (f.storage j).is_used ≡ true)

mkdir_at :
    (name : List ℕ) (f : Fs) (i : ℕ)
    → length name < 32
    → IsFree f i
    → mkdir name f ≡ with_dir name i f
unfolding mkdir
mkdir_at name f i fits (lt, free, before) =
    let short : ltb 31 (length name) ≡ false = ground (arith, fits) in
    let at =
      first_at (λ j. not (f.storage j).is_used) max_nodes 0 i (omega arith) (omega (arith, lt))
        (ground (arith, free)) (λ j a less. ground (arith, before j less)) in
    rw (short, mkdir) (ap (λ (r : Option ℕ). elim r [ none ↦ f | some j ↦ with_dir name j f ]) at)

new-is_target :
    (name : List ℕ) (i : ℕ) (f : Fs)
    → length name < 32
    → is_target name (with_dir name i f) i ≡ true
unfolding is_target fs_strcpy
new-is_target name i f fits =
    let same : take 31 name ≡ name = take_all 31 name (omega (arith, fits)) in
    let here : (f.current_dir == f.current_dir) ≡ true = eq_test refl in
    let named : is_zero (strcmp (take 31 name) name) ≡ true =
      ap (λ l. is_zero (strcmp l name)) same ∙ ap is_zero (strcmp_self name) in
    ap
      (λ (v : VfsNode).
        v.is_used
        && is_dir v.type
        && is_zero (strcmp v.name name)
        && (v.parent_idx == f.current_dir))
      (new_node name i f)
    ∙ (rw (named, here) refl)

kept-is_target :
    (name : List ℕ) (i j : ℕ) (f : Fs)
    → j ≢ i
    → is_target name (with_dir name i f) j ≡ is_target name f j
unfolding is_target
kept-is_target name i j f apart =
    ap
      (λ (v : VfsNode).
        v.is_used
        && is_dir v.type
        && is_zero (strcmp v.name name)
        && (v.parent_idx == f.current_dir))
      (kept_node name i j f apart)

cd_to :
    (name : List ℕ) (f : Fs) (i : ℕ)
    → length name < 32
    → is_zero (strcmp name (codes "..")) ≡ false
    → i < max_nodes
    → is_target name f i ≡ true
    → NonePass (is_target name f) 0 i
    → cd name f ≡ record f { current_dir = i }
unfolding cd
cd_to name f i fits plain lt hit before =
    let short : ltb 31 (length name) ≡ false = ground (arith, fits) in
    let at =
      first_at (is_target name f) max_nodes 0 i (omega arith) (omega (arith, lt)) hit before in
    rw (short, plain, cd)
      (ap (λ (r : Option ℕ). elim r [ none ↦ f | some j ↦ record f { current_dir = j } ]) at)

-- A new directory can be entered by its name and left by `cd ..`, when a node is free, the name fits
-- and is not `..`, and no directory here had it before.
pub mkdir-cd :
    (name : List ℕ) (f : Fs) (i : ℕ)
    → IsFree f i
    → length name < 32
    → is_zero (strcmp name (codes "..")) ≡ false
    → NonePass (is_target name f) 0 i
    → ((cd name (mkdir name f)).current_dir ≡ i)
      × ((cd (codes "..") (cd name (mkdir name f))).current_dir ≡ f.current_dir)
mkdir-cd name f i (lt, free, before) fits plain unknown =
    let f' = with_dir name i f in
    let made = mkdir_at name f i fits (lt, free, before) in
    let entered : cd name f' ≡ record f' { current_dir = i } =
      cd_to name f' i fits plain lt (new-is_target name i f fits)
        (λ j a less. kept-is_target name i j f (omega (arith, less)) ∙ unknown j a less) in
    let whole : cd name (mkdir name f) ≡ record f' { current_dir = i } =
      ap (λ g. cd name g) made ∙ entered in
    (
      ap (λ g. g.current_dir) whole,
      ap (λ g. (cd (codes "..") g).current_dir) whole
          ∙ ap (λ g. g.current_dir) (cd_up (record f' { current_dir = i }))
          ∙ ap (λ v. v.parent_idx) (new_node name i f),
    )
