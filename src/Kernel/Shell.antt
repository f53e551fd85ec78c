-- ===== src/Kernel/Shell.antt =====
-- The environment, the privileges and the command line of i386/whitex/Kernel.c.
use Prim.Native.String.{String}
use Prim.Native.Char.{code}
use whitex_kernel.Prelude.{
  ℕ, zero, suc, ◌-◌, ◌≤◌, ◌<◌, ◌≡◌, ◌⊎◌, ◌↔◌, refl, Bool, true, false, Option, none, some, List, [],
  ◌∷◌, ◌++◌, ◌==◌, ◌&&◌, ◌||◌, not, if◌then◌else◌, length, take, arith, Bool-cases, inl, inr, ap,
  sym,
}
use whitex_kernel.Kernel.Strings.{
  sys_sanitize_string, sys_constant_time_compare, sys_constant_time_compare_iff,
}

-- the bytes of a text
abbrev pub codes : String → List ℕ
codes String.[] = []
codes (String.◌∷◌ c s) = code c ∷ codes s

abbrev pub sys_max_buffer : ℕ
sys_max_buffer = 256

abbrev pub sys_cmd_max : ℕ
sys_cmd_max = 64

abbrev pub sys_arg_max : ℕ
sys_arg_max = 190

abbrev pub sys_stack_guard : ℕ
sys_stack_guard = 0xDEADBEEF

-- the fields of `sys_environment_t` that the code reads, but for the saved processor state
pub record SysEnvironment : Type 0 where
  pub system_state : ℕ
  pub memory_guard : ℕ
  pub execution_cycles : ℕ
  pub fault_detected : ℕ
  pub kernel_zone_base : ℕ
  pub kernel_zone_limit : ℕ
  pub is_root : Bool
  pub isolation_active : Bool
  pub structural_canary : ℕ

-- the panics of `sys_verify_integrity`
pub data Violation : Type 0 where
  canary_burst stack_smash kernel_zone : Violation

unfoldable pub sys_verify_integrity : (canary log_canary : ℕ) → SysEnvironment → Option Violation
sys_verify_integrity canary log_canary e =
    if not (e.structural_canary == canary) || not (log_canary == canary)
    then some canary_burst
    else if not (e.memory_guard == sys_stack_guard) && e.isolation_active
    then some stack_smash
    else if not (e.kernel_zone_base == 0) || not (e.kernel_zone_limit == 0x000F_FFFF)
    then some kernel_zone
    else none

-- the fields that `sys_env_bootstrap` sets
unfoldable pub sys_env_bootstrap : ℕ → SysEnvironment → SysEnvironment
sys_env_bootstrap canary e = record e {
  structural_canary = canary;
  system_state = 1;
  memory_guard = sys_stack_guard;
  execution_cycles = 0;
  fault_detected = 0;
  is_root = false;
  isolation_active = true;
  kernel_zone_base = 0;
  kernel_zone_limit = 0x000F_FFFF;
}

abbrev pub dropped : SysEnvironment → SysEnvironment
dropped e = record e { is_root = false }

abbrev pub raised : SysEnvironment → SysEnvironment
raised e = record e { is_root = true; isolation_active = false; memory_guard = 0 }

-- `cmd_sudo_handler` behind its integrity check, with the two lines that `scan` reads
unfoldable pub cmd_sudo_handler : (auth_query cred_entry : List ℕ) → SysEnvironment → SysEnvironment
cmd_sudo_handler auth_query cred_entry e =
    let answer = sys_sanitize_string auth_query sys_max_buffer in
    let credential = sys_sanitize_string cred_entry sys_max_buffer in
    if sys_constant_time_compare answer (codes "yes") sys_max_buffer
      || sys_constant_time_compare answer (codes "y") sys_max_buffer
    then (if sys_constant_time_compare credential (codes "root") sys_max_buffer
        then raised e
        else dropped e)
    else dropped e

unfoldable pub sys_kill_protect : SysEnvironment → SysEnvironment
sys_kill_protect e = if e.is_root then raised e else e

unfoldable pub sys_open_safe : SysEnvironment → SysEnvironment
sys_open_safe e = record e {
  memory_guard = sys_stack_guard;
  is_root = false;
  isolation_active = true;
}

-- the word that `sys_parse_input` copies, at most `n` bytes up to a space, and what follows it
unfoldable pub split_word : (n : ℕ) → List ℕ → List ℕ × List ℕ
split_word zero raw = ([], raw)
split_word (suc n) [] = ([], [])
split_word (suc n) (c ∷ raw) =
    let (word, rest) = split_word n raw in if c == 32 then ([], c ∷ raw) else (c ∷ word, rest)

unfoldable pub skip_spaces : List ℕ → List ℕ
skip_spaces [] = []
skip_spaces (c ∷ raw) = let rest = skip_spaces raw in if c == 32 then rest else c ∷ raw

abbrev pub blank : List ℕ → Bool
blank [] = true
blank (c ∷ raw) = c == 32

-- The command and its arguments; `none` for a line that is empty or begins with a space.
unfoldable pub sys_parse_input : List ℕ → Option (List ℕ × List ℕ)
unfolding split_word skip_spaces
sys_parse_input raw =
    if blank raw
    then none
    else (let (cmd, rest) = split_word (sys_cmd_max - 1) raw in
        some (cmd, take (sys_arg_max - 1) (skip_spaces rest)))

sudo_tests :
    (auth_query cred_entry : List ℕ) (e : SysEnvironment)
    → let answer = sys_sanitize_string auth_query 256 in
      let credential = sys_sanitize_string cred_entry 256 in
      ((cmd_sudo_handler auth_query cred_entry e).is_root ≡ true) ↔ (
        ((sys_constant_time_compare answer (codes "yes") 256 ≡ true)
          ⊎ (sys_constant_time_compare answer (codes "y") 256 ≡ true))
        × (sys_constant_time_compare credential (codes "root") 256 ≡ true))
unfolding cmd_sudo_handler
sudo_tests auth_query cred_entry e = (λ h. ground (arith, h), λ h. ground (arith, h))

map_sum : {A B C D : Type 0} → (A → C) → (B → D) → A ⊎ B → C ⊎ D
map_sum f g (inl a) = inl (f a)
map_sum f g (inr b) = inr (g b)

-- Root is gained exactly by the answers `yes` or `y` and the password `root`, each cut at its
-- first separator; else it is lost.
pub cmd_sudo_handler_lem :
    (auth_query cred_entry : List ℕ) (e : SysEnvironment)
    → ((cmd_sudo_handler auth_query cred_entry e).is_root ≡ true) ↔ (
        ((take 256 (sys_sanitize_string auth_query 256) ≡ codes "yes")
          ⊎ (take 256 (sys_sanitize_string auth_query 256) ≡ codes "y"))
        × (take 256 (sys_sanitize_string cred_entry 256) ≡ codes "root"))
cmd_sudo_handler_lem auth_query cred_entry e =
    let answer = sys_sanitize_string auth_query 256 in
    let credential = sys_sanitize_string cred_entry 256 in
    let yes_iff = sys_constant_time_compare_iff answer (codes "yes") 256 in
    let y_iff = sys_constant_time_compare_iff answer (codes "y") 256 in
    let root_iff = sys_constant_time_compare_iff credential (codes "root") 256 in
    let tests = sudo_tests auth_query cred_entry e in
    (
      λ h. let (said, known) = tests.0 h in (map_sum yes_iff.0 y_iff.0 said, root_iff.0 known),
      λ (said, known). tests.1 (map_sum yes_iff.1 y_iff.1 said, root_iff.1 known),
    )

-- After a login as root, the integrity check tolerates the removed stack guard: it passes
-- whenever it passed before.
pub cmd_sudo_handler_integrity :
    (auth_query cred_entry : List ℕ) (canary log_canary : ℕ) (e : SysEnvironment)
    → sys_verify_integrity canary log_canary e ≡ none
    → sys_verify_integrity canary log_canary (cmd_sudo_handler auth_query cred_entry e) ≡ none
unfolding cmd_sudo_handler sys_verify_integrity
cmd_sudo_handler_integrity auth_query cred_entry canary log_canary e h = ground (arith, h)

split_word_lem :
    (n : ℕ) (raw : List ℕ)
    → ((split_word n raw).0 ++ (split_word n raw).1 ≡ raw) × (length (split_word n raw).0 ≤ n)
unfolding split_word
split_word_lem zero raw = (refl, omega arith)
split_word_lem (suc n) [] = (refl, omega arith)
split_word_lem (suc n) (c ∷ raw) =
    let (joined, short) = split_word_lem n raw in
    elim (Bool-cases (c == 32)) [
      | inl space ↦ rw space (refl, omega arith)
      | inr letter ↦ rw letter (ap (λ l. c ∷ l) joined, omega (arith, short))
    ]

take_short : (n : ℕ) (xs : List ℕ) → length (take n xs) ≤ n
take_short zero xs = omega arith
take_short (suc n) [] = omega arith
take_short (suc n) (x ∷ xs) = omega (arith, take_short n xs)

word_parsed :
    (raw cmd args : List ℕ)
    → blank raw ≡ false
    → sys_parse_input raw ≡ some (cmd, args)
    → ((split_word (sys_cmd_max - 1) raw).0 ≡ cmd)
      × (take (sys_arg_max - 1) (skip_spaces (split_word (sys_cmd_max - 1) raw).1) ≡ args)
unfolding sys_parse_input
word_parsed raw cmd args full h = ground (arith, h, full)

-- What is parsed fits its buffers with a NUL, and the command is what the line begins with.
pub sys_parse_input_fits :
    (raw cmd args : List ℕ)
    → sys_parse_input raw ≡ some (cmd, args)
    → (length cmd < sys_cmd_max)
      × (length args < sys_arg_max)
      × ((rest : List ℕ) × (raw ≡ cmd ++ rest))
unfolding sys_parse_input
sys_parse_input_fits raw cmd args h =
    let (joined, short) = split_word_lem (sys_cmd_max - 1) raw in
    let rest = skip_spaces (split_word (sys_cmd_max - 1) raw).1 in
    let fits = take_short (sys_arg_max - 1) rest in
    elim (Bool-cases (blank raw)) [
      | inl empty ↦ ground (arith, h, empty)
      | inr full ↦
          let (cmd_is, args_is) = word_parsed raw cmd args full h in
          (
            rw (← cmd_is) (omega (arith, short)),
            rw (← args_is) (omega (arith, fits)),
            ((split_word (sys_cmd_max - 1) raw).1, rw (← cmd_is) (sym joined)),
          )
    ]
