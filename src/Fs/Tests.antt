-- ===== src/Fs/Tests.antt =====
-- The statements on i386/whitex/fs.h at a concrete tree.
use whitex_kernel.Prelude.{ℕ, ◌≡◌, refl, false, List, [], ◌∷◌, arith}
use whitex_kernel.Kernel.Shell.{codes}
use whitex_kernel.Kernel.Memory.{strcmp}
use whitex_kernel.Fs.{
  Fs, dir_node, Command, make_dir, change_dir, init_fs, mkdir, cd, is_target, fs_strcpy,
}
use whitex_kernel.Prelude.Search.{first_index}
use whitex_kernel.Fs.Files.{
  Line, shellfs, fsshell, deed_of_fsshell, deed_of, perform_fsshell, whitex_rm, is_removed,
  whitex_touch, perform, rm, touch,
}
use whitex_kernel.Fs.Shells.{shells-climb}
use whitex_kernel.Fs.Ways.{climb, mkdir-cd}

abbrev raw : Fs
raw = record {
  storage = λ i. record { name = []; type = dir_node; parent_idx = 7; is_used = false };
  current_dir = 5;
  overrun = false;
}

abbrev commands : List Command
commands = make_dir (codes "src") ∷ change_dir (codes "src") ∷ []

mkdir-cd_example :
    ((cd (codes "src") (mkdir (codes "src") (init_fs raw))).current_dir ≡ 1)
    × ((cd (codes "..") (cd (codes "src") (mkdir (codes "src") (init_fs raw)))).current_dir
        ≡ (init_fs raw).current_dir)
unfolding init_fs is_target strcmp fs_strcpy
mkdir-cd_example =
    mkdir-cd (codes "src") (init_fs raw) 1 (omega arith, refl, λ j less. ground (arith, less))
      (omega arith) refl (λ j a less. ground (arith, less))

-- a file and two directories, and the removal of the one in the other shell
abbrev lines : List Line
lines =
    (codes "touch", codes "a")
    ∷ (codes "mkdir", codes "b")
    ∷ (codes "cd", codes "b")
    ∷ (codes "mkdir", codes "c")
    ∷ (codes "q", [])
    ∷ []

abbrev more : List Line
more = (codes "rm", codes "c") ∷ (codes "quit", []) ∷ []

shells-climb_example :
    (k : ℕ) × ((climb k (fsshell more (shellfs lines (init_fs raw)))).current_dir ≡ 0)
unfolding fsshell deed_of_fsshell strcmp deed_of perform_fsshell whitex_rm first_index is_removed
    mkdir cd is_target whitex_touch shellfs perform rm touch init_fs fs_strcpy
shells-climb_example = shells-climb lines more raw refl
