-- ===== src/Fs/Shells.antt =====
-- The loops of the two shells on the tree, in i386/whitex/fssdd.h and i386/whitex/sdd.h.
use whitex_kernel.Prelude.{
  if_both, ltb, length, false, ℕ, zero, suc, ◌≡◌, refl, List, [], ◌∷◌, ap, ◌∙◌,
}
use whitex_kernel.Fs.{Fs, init_fs}
use whitex_kernel.Fs.Ways.{climb, cd_up}
use whitex_kernel.Fs.Files.{
  deed_of, deed_of_fsshell, perform, perform_fsshell, goes_on, Line, shellfs, fsshell,
}
use whitex_kernel.Fs.Rooted.{
  Way, at_root, up, IsRooted, over-IsRooted, perform-IsRooted, perform_fsshell-IsRooted,
}

init_fs-IsRooted : (f : Fs) → IsRooted (init_fs f)
unfolding init_fs
init_fs-IsRooted f = record { root_used = refl; root_top = refl; depth = 0; way = at_root }

shellfs-IsRooted : (lines : List Line) (f : Fs) → IsRooted f → IsRooted (shellfs lines f)
unfolding shellfs
shellfs-IsRooted [] f good = good
shellfs-IsRooted ((cmd, name) ∷ lines) f good =
    let f' = perform (deed_of cmd) name f in
    if_both IsRooted (ltb 15 (length cmd)) _ _ (over-IsRooted f good) (
      if_both IsRooted (goes_on (deed_of cmd)) (shellfs lines f') f
        (shellfs-IsRooted lines f' (perform-IsRooted name f good (deed_of cmd))) good)

fsshell-IsRooted : (lines : List Line) (f : Fs) → IsRooted f → IsRooted (fsshell lines f)
unfolding fsshell
fsshell-IsRooted [] f good = good
fsshell-IsRooted ((cmd, name) ∷ lines) f good =
    let f' = perform_fsshell (deed_of_fsshell cmd) name f in
    if_both IsRooted (ltb 31 (length cmd)) _ _ (over-IsRooted f good) (
      if_both IsRooted (goes_on (deed_of_fsshell cmd)) (fsshell lines f') f
        (fsshell-IsRooted lines f' (perform_fsshell-IsRooted name f good (deed_of_fsshell cmd)))
        good)

Way-moved : {f : Fs} {k i : ℕ} (j : ℕ) → Way f k i → Way (record f { current_dir = j }) k i
Way-moved j at_root = at_root
Way-moved j (up other used rest) = up other used (Way-moved j rest)

Way-zero : {f : Fs} {i : ℕ} → Way f 0 i → i ≡ 0
Way-zero at_root = refl

Way-suc : {f : Fs} {k i : ℕ} → Way f (suc k) i → Way f k (f.storage i).parent_idx
Way-suc (up other used rest) = rest

climb_to_root : (k : ℕ) (f : Fs) → Way f k f.current_dir → (climb k f).current_dir ≡ 0
climb_to_root zero f way = Way-zero way
climb_to_root (suc k) f way =
    let above = (f.storage f.current_dir).parent_idx in
    ap (λ g. (climb k g).current_dir) (cd_up f)
    ∙ climb_to_root k (record f { current_dir = above }) (Way-moved above (Way-suc way))

-- Any lines typed into `shellfs` and then into `fsshell` from a fresh tree on, with files removed and
-- directories that are not empty too, leave a current directory that some number of `cd ..` leads to the
-- root, as long as no line has run over its array.
pub shells-climb :
    (lines more : List Line) (f : Fs)
    → (fsshell more (shellfs lines (init_fs f))).overrun ≡ false
    → (k : ℕ) × ((climb k (fsshell more (shellfs lines (init_fs f)))).current_dir ≡ 0)
shells-climb lines more f fits =
    let good =
      fsshell-IsRooted more (shellfs lines (init_fs f))
        (shellfs-IsRooted lines (init_fs f) (init_fs-IsRooted f)) in
    (good.depth, climb_to_root good.depth (fsshell more (shellfs lines (init_fs f))) good.way)
