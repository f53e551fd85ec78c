-- ===== src/Notepad.antt =====
-- The notepad of i386/whitex/notepad.h on the tree of Fs. What is typed is a list of lines, each with the
-- name for which a command on the tree asks; the screen only prints.
pub mod Buffer
pub mod Tests
use whitex_kernel.Prelude.{
  ℕ, suc, ◌+◌, ◌-◌, ◌==◌, Bool, true, false, List, [], ◌∷◌, ltb, leb, if◌then◌else◌, update, take,
  length,
}
use whitex_kernel.Kernel.Memory.{strcmp}
use whitex_kernel.Kernel.Shell.{codes}
use whitex_kernel.Fs.{Fs, is_zero, mkdir, cd}

-- MAX_LINES
abbrev pub max_lines : ℕ
max_lines = 100

-- LINE_LEN
abbrev pub line_len : ℕ
line_len = 128

-- `text_storage` and `line_count`
pub record Notepad : Type 0 where
  pub text_storage : ℕ → List ℕ
  pub line_count : ℕ

-- `str_compare` computes what `strcmp` does
abbrev pub is_line : (input : List ℕ) (command : List ℕ) → Bool
is_line input command = is_zero (strcmp input command)

-- a new line, when there is room
unfoldable pub keep_line : (input : List ℕ) → Notepad → Notepad
keep_line input n =
    if ltb n.line_count max_lines
    then record n {
      text_storage = update n.text_storage n.line_count (take (line_len - 1) input);
      line_count = n.line_count + 1;
    }
    else n

-- how a session ends: with `/q`, with the lines, or with a line that runs over the 128 bytes of the array or a name that
-- runs over its own
pub data Session : Type 0 where
  left typing : Notepad → Fs → Session
  overrun : Session

-- the start of `notepad`
unfoldable pub blank_notepad : Notepad → Notepad
blank_notepad n = record {
  text_storage = λ i. if ltb i max_lines then [] else n.text_storage i;
  line_count = 0;
}

-- what a line does to the tree
unfoldable pub obey_line : (input name : List ℕ) → Fs → Fs
obey_line input name f =
    if is_line input (codes "/mkdir")
    then mkdir name f
    else if is_line input (codes "/cd")
    then cd name f
    else f

-- a line that is no command
unfoldable pub is_text : (input : List ℕ) → Bool
is_text input =
    if is_line input (codes "/v")
    then false
    else if is_line input (codes "/ls")
    then false
    else if is_line input (codes "/pwd")
    then false
    else if is_line input (codes "/mkdir")
    then false
    else if is_line input (codes "/cd")
    then false
    else true

-- the loop
unfoldable pub write_lines : (typed : List (List ℕ × List ℕ)) → Notepad → Fs → Session
write_lines [] n f = typing n f
write_lines ((input, name) ∷ typed) n f =
    let rest =
      write_lines typed (if is_text input then keep_line input n else n) (obey_line input name f) in
    if leb line_len (length input)
    then overrun
    else if is_line input (codes "/q")
    then left n f
    else if (obey_line input name f).overrun
    then overrun
    else rest

unfoldable pub notepad : (typed : List (List ℕ × List ℕ)) → Notepad → Fs → Session
notepad typed n f = write_lines typed (blank_notepad n) f
