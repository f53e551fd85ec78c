-- ===== src/Fs.antt =====
-- The tree of directories in memory of i386/whitex/fs.h. A name is its bytes up to the NUL. A command
-- asks for its name, and reads it into an array of 32 bytes on the stack: what happens behind a name that
-- is longer is not described, and the tree is marked as overrun.
pub mod Tree
pub mod Ways
pub mod Files
pub mod Rooted
pub mod Shells
pub mod Tests
use whitex_kernel.Prelude.{
  ℕ, zero, suc, ◌+◌, ◌-◌, ◌==◌, Bool, true, false, Option, none, some, List, [], ◌∷◌, ltb, ◌&&◌,
  not, if◌then◌else◌, update, take, length,
}
use whitex_kernel.Prelude.Int.{ℤ, pos, negsuc}
use whitex_kernel.Prelude.Search.{first_index}
use whitex_kernel.Kernel.Memory.{strcmp}
use whitex_kernel.Kernel.Shell.{codes}

abbrev pub max_nodes : ℕ
max_nodes = 128

abbrev pub name_len : ℕ
name_len = 32

pub data NodeType : Type 0 where
  dir_node file_node : NodeType

-- `VFSNode`; an index is never negative
pub record VfsNode : Type 0 where
  pub name : List ℕ
  pub type : NodeType
  pub parent_idx : ℕ
  pub is_used : Bool

-- `storage` and `current_dir`. With `overrun` a typed line ran over its array on the stack; what the program
-- does from there on is not described.
pub record Fs : Type 0 where
  pub storage : ℕ → VfsNode
  pub current_dir : ℕ
  pub overrun : Bool

unfoldable pub fs_strcpy : List ℕ → List ℕ
fs_strcpy src = take (name_len - 1) src

abbrev pub is_dir : NodeType → Bool
is_dir dir_node = true
is_dir file_node = false

abbrev pub is_zero : ℤ → Bool
is_zero (pos n) = n == 0
is_zero (negsuc n) = false

unfoldable pub init_fs : Fs → Fs
init_fs f = record {
  storage =
      update
        (λ i. if ltb i max_nodes then record (f.storage i) { is_used = false } else f.storage i) 0
        (record (f.storage 0) {
          is_used = true;
          type = dir_node;
          parent_idx = 0;
          name = fs_strcpy (codes "root");
        });
  current_dir = 0;
  overrun = f.overrun;
}

-- a node that `ls` shows
unfoldable pub listed : Fs → ℕ → Bool
listed f i =
    (f.storage i).is_used && ((f.storage i).parent_idx == f.current_dir) && not (i == f.current_dir)

-- the nodes that `ls` prints, by their indices, from `i` on
unfoldable pub ls_from : (rounds i : ℕ) → Fs → List ℕ
unfolding listed
ls_from zero i f = []
ls_from (suc k) i f = let rest = ls_from k (i + 1) f in if listed f i then i ∷ rest else rest

abbrev pub ls : Fs → List ℕ
ls f = ls_from max_nodes 0 f

unfoldable pub mkdir : (name : List ℕ) → Fs → Fs
mkdir name f =
    if ltb 31 (length name)
    then record f { overrun = true }
    else elim (first_index (λ i. not (f.storage i).is_used) max_nodes 0) [
      | none ↦ f
      | some i ↦ record f {
        storage = update f.storage i (record (f.storage i) {
          is_used = true;
          type = dir_node;
          parent_idx = f.current_dir;
          name = fs_strcpy name;
        });
      }
    ]

-- a node that `cd` goes to
unfoldable pub is_target : (name : List ℕ) → Fs → ℕ → Bool
is_target name f i =
    (f.storage i).is_used
    && is_dir (f.storage i).type
    && is_zero (strcmp (f.storage i).name name)
    && ((f.storage i).parent_idx == f.current_dir)

unfoldable pub cd : (name : List ℕ) → Fs → Fs
cd name f =
    if ltb 31 (length name)
    then record f { overrun = true }
    else if is_zero (strcmp name (codes ".."))
    then record f { current_dir = (f.storage f.current_dir).parent_idx }
    else elim (first_index (is_target name f) max_nodes 0) [
      | none ↦ f
      | some i ↦ record f { current_dir = i }
    ]

-- the name that `pwd` prints behind a slash
abbrev pub pwd : Fs → List ℕ
pwd f = (f.storage f.current_dir).name

-- the commands that change the tree
pub data Command : Type 0 where
  make_dir change_dir : (name : List ℕ) → Command
  start_again : Command

unfoldable pub run_command : Command → Fs → Fs
run_command (make_dir name) f = mkdir name f
run_command (change_dir name) f = cd name f
run_command start_again f = init_fs f

unfoldable pub run_commands : List Command → Fs → Fs
run_commands [] f = f
run_commands (c ∷ cs) f = run_commands cs (run_command c f)
