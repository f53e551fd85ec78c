-- ===== src/Fs/Files.antt =====
-- The files of i386/whitex/fssdd.h and i386/whitex/sdd.h in the tree of Fs, and the two shells on it.
use whitex_kernel.Prelude.{
  ℕ, ◌==◌, Bool, ltb, length, true, false, none, some, List, [], ◌∷◌, ◌&&◌, not, if◌then◌else◌,
  update,
}
use whitex_kernel.Prelude.Search.{first_index}
use whitex_kernel.Kernel.Memory.{strcmp}
use whitex_kernel.Kernel.Shell.{codes}
use whitex_kernel.Fs.{Fs, file_node, max_nodes, fs_strcpy, is_zero, mkdir, cd}

-- `true` is the message that the file is created, `false` that the tree is full. `whitex_touch` does the
-- same and prints nothing.
unfoldable pub touch : (name : List ℕ) → Fs → Bool × Fs
touch name f =
    if ltb 31 (length name)
    then (false, record f { overrun = true })
    else elim (first_index (λ i. not (f.storage i).is_used) max_nodes 0) [
      | none ↦ (false, f)
      | some i ↦ (
        true,
        record f {
          storage = update f.storage i (record (f.storage i) {
            is_used = true;
            type = file_node;
            parent_idx = f.current_dir;
            name = fs_strcpy name;
          });
        },
      )
    ]

unfoldable pub whitex_touch : (name : List ℕ) → Fs → Fs
whitex_touch name f =
    if ltb 31 (length name)
    then record f { overrun = true }
    else elim (first_index (λ i. not (f.storage i).is_used) max_nodes 0) [
      | none ↦ f
      | some i ↦ record f {
        storage = update f.storage i (record (f.storage i) {
          is_used = true;
          type = file_node;
          parent_idx = f.current_dir;
          name = fs_strcpy name;
        });
      }
    ]

-- a node that `rm` takes
unfoldable pub is_removed : (name : List ℕ) → Fs → ℕ → Bool
is_removed name f i =
    (f.storage i).is_used
    && is_zero (strcmp (f.storage i).name name)
    && ((f.storage i).parent_idx == f.current_dir)

-- what `rm` says: the root is kept without a word
pub data Removal : Type 0 where
  kept deleted not_found : Removal

abbrev pub without : ℕ → Fs → Fs
without i f = record f { storage = update f.storage i (record (f.storage i) { is_used = false }) }

unfoldable pub rm : (name : List ℕ) → Fs → Removal × Fs
rm name f =
    if ltb 31 (length name)
    then (not_found, record f { overrun = true })
    else elim (first_index (is_removed name f) max_nodes 0) [
      | none ↦ (not_found, f)
      | some i ↦ if i == 0 then (kept, f) else (deleted, without i f)
    ]

unfoldable pub whitex_rm : (name : List ℕ) → Fs → Fs
whitex_rm name f =
    if ltb 31 (length name)
    then record f { overrun = true }
    else elim (first_index (is_removed name f) max_nodes 0) [
      | none ↦ f
      | some i ↦ if not (i == 0) then without i f else f
    ]

-- what the loop of a shell does with a line; a second line is the name that a command asks for
pub data Deed : Type 0 where
  shows leaves unknown syncs resets : Deed
  makes changes touches removes : Deed

unfoldable pub deed_of : (cmd : List ℕ) → Deed
deed_of cmd =
    if is_zero (strcmp cmd (codes "ls"))
    then shows
    else if is_zero (strcmp cmd (codes "mkdir"))
    then makes
    else if is_zero (strcmp cmd (codes "cd"))
    then changes
    else if is_zero (strcmp cmd (codes "pwd"))
    then shows
    else if is_zero (strcmp cmd (codes "touch"))
    then touches
    else if is_zero (strcmp cmd (codes "rm"))
    then removes
    else if is_zero (strcmp cmd (codes "sync"))
    then syncs
    else if is_zero (strcmp cmd (codes "q"))
    then leaves
    else unknown

-- the commands of `fsshell`: as well `quit`, which resets the machine, and `help`
unfoldable pub deed_of_fsshell : (cmd : List ℕ) → Deed
deed_of_fsshell cmd =
    if is_zero (strcmp cmd (codes "quit"))
    then resets
    else if is_zero (strcmp cmd (codes "help"))
    then shows
    else deed_of cmd

-- what a deed does to the tree
unfoldable pub perform : Deed → (name : List ℕ) → Fs → Fs
perform makes name f = mkdir name f
perform changes name f = cd name f
perform touches name f = (touch name f).1
perform removes name f = (rm name f).1
perform shows name f = f
perform leaves name f = f
perform unknown name f = f
perform syncs name f = f
perform resets name f = f

-- the same in the other shell
unfoldable pub perform_fsshell : Deed → (name : List ℕ) → Fs → Fs
perform_fsshell makes name f = mkdir name f
perform_fsshell changes name f = cd name f
perform_fsshell touches name f = whitex_touch name f
perform_fsshell removes name f = whitex_rm name f
perform_fsshell shows name f = f
perform_fsshell leaves name f = f
perform_fsshell unknown name f = f
perform_fsshell syncs name f = f
perform_fsshell resets name f = f

abbrev pub goes_on : Deed → Bool
goes_on leaves = false
goes_on resets = false
goes_on shows = true
goes_on unknown = true
goes_on syncs = true
goes_on makes = true
goes_on changes = true
goes_on touches = true
goes_on removes = true

-- the commands typed, each with the name for which it asks
abbrev pub Line : Type 0
Line = List ℕ × List ℕ

-- The loop of `shellfs` up to the end of what is typed, or to a command that runs over `cmd[16]`.
unfoldable pub shellfs : List Line → Fs → Fs
shellfs [] f = f
shellfs ((cmd, name) ∷ lines) f =
    let rest = shellfs lines (perform (deed_of cmd) name f) in
    if ltb 15 (length cmd)
    then record f { overrun = true }
    else if goes_on (deed_of cmd)
    then rest
    else f

-- The loop of `fsshell`, with `cmd[32]`.
unfoldable pub fsshell : List Line → Fs → Fs
fsshell [] f = f
fsshell ((cmd, name) ∷ lines) f =
    let rest = fsshell lines (perform_fsshell (deed_of_fsshell cmd) name f) in
    if ltb 31 (length cmd)
    then record f { overrun = true }
    else if goes_on (deed_of_fsshell cmd)
    then rest
    else f
