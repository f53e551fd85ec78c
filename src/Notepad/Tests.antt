-- ===== src/Notepad/Tests.antt =====
-- The statements on i386/whitex/notepad.h for a short session.
use whitex_kernel.Prelude.{ℕ, false, List, [], ◌∷◌}
use whitex_kernel.Kernel.Shell.{codes}
use whitex_kernel.Fs.{Fs, dir_node, init_fs}
use whitex_kernel.Fs.Tree.{init_fs-IsTree}
use whitex_kernel.Notepad.{Notepad, blank_notepad, notepad}
use whitex_kernel.Notepad.Buffer.{Writes, texts, notepad-Writes}

abbrev used : Notepad
used = record { text_storage = λ i. codes "old"; line_count = 7 }

abbrev raw : Fs
raw = record {
  storage = λ i. record { name = []; type = dir_node; parent_idx = 7; is_used = false };
  current_dir = 5;
  overrun = false;
}

abbrev typed : List (List ℕ × List ℕ)
typed =
    (codes "one", [])
    ∷ (codes "/mkdir", codes "src")
    ∷ (codes "two", [])
    ∷ (codes "/q", [])
    ∷ (codes "three", [])
    ∷ []

notepad-Writes_example :
    Writes (blank_notepad used) (texts typed) (notepad typed used (init_fs raw))
notepad-Writes_example = notepad-Writes typed used (init_fs raw) (init_fs-IsTree raw)
