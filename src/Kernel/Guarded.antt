-- ===== src/Kernel/Guarded.antt =====
-- Who becomes root in i386/whitex/Kernel.c.
use Prim.Native.String.{String}
use whitex_kernel.Prelude.{
  if_both, ℕ, ◌+◌, ◌%◌, ◌^◌, ◌≡◌, ◌≢◌, refl, Bool, true, false, Option, none, some, List, [], ◌∷◌,
  ◌++◌, ltb, leb, ◌==◌, ◌&&◌, ◌||◌, not, if◌then◌else◌, arith, Bool-cases, Option-cases, inl, inr,
  ◌∙◌, take, same_bytes,
}
use whitex_kernel.Kernel.Strings.{
  sys_sanitize_string, sys_constant_time_compare, sys_constant_time_compare_iff,
}
use whitex_kernel.Kernel.Log.{sys_log_write}
use whitex_kernel.Kernel.Shell.{
  SysEnvironment, codes, sys_env_bootstrap, sys_verify_integrity, sys_parse_input, dropped,
}
use whitex_kernel.Kernel.Dispatch.{
  DispatchEntry, Action, ignored, unknown, denied, called, search_table, sys_execute_vector,
  g_dispatch_table,
}
use whitex_kernel.Kernel.System.{
  KernelState, Outcome, runs, stopped, left, and_then, log_write, sys_panic, verify, violation_code,
  Typed, sudo, run_routine, take_action, execute_vector, parse_input, tick, main_round, main_loop,
  kernel, env_bootstrap, sys_tick_max,
}

-- whether the last state of a run is that of root
abbrev pub as_root : Outcome → Bool
as_root (runs s) = s.env.is_root
as_root (stopped s) = s.env.is_root
as_root (left s) = s.env.is_root

then_out :
    (o : Outcome) (f : KernelState → Outcome)
    → as_root o ≡ false
    → ((s : KernelState) → s.env.is_root ≡ false → as_root (f s) ≡ false)
    → as_root (and_then o f) ≡ false
then_out (runs s) f out next = next s out
then_out (stopped s) f out next = out
then_out (left s) f out next = out

out_second :
    (b : Bool) (x y : Outcome)
    → b ≡ false
    → as_root y ≡ false
    → as_root (if b then x else y) ≡ false
out_second true x y e f = ground (arith, e)
out_second false x y e f = f

log_write_root :
    (level : ℕ) (msg : List ℕ) (s : KernelState) → as_root (log_write level msg s) ≡ s.env.is_root
unfolding log_write
log_write_root level msg s =
    elim (Option-cases (sys_log_write s.global_canary s.tick_counter level msg s.sys_log)) [
      | inl broken ↦ rw (broken, log_write) refl
      | inr (g, wrote) ↦ rw (wrote, log_write) refl
    ]

sys_panic_root :
    (code : List ℕ) (s : KernelState) → s.env.is_root ≡ false → as_root (sys_panic code s) ≡ false
unfolding sys_panic
sys_panic_root code s out =
    then_out (log_write 3 code _) stopped (log_write_root 3 code _ ∙ out) (λ t still. still)

verify_root : (s : KernelState) → s.env.is_root ≡ false → as_root (verify s) ≡ false
unfolding verify
verify_root s out =
    elim (Option-cases (sys_verify_integrity s.global_canary s.sys_log.structures_canary s.env)) [
      | inl passes ↦ rw (passes, verify) out
      | inr (v, bad) ↦ rw (bad, verify) (sys_panic_root (violation_code v) s out)
    ]

-- the password typed is not `root`, up to a separator
abbrev pub Wrong : Typed → Type 0
Wrong t = take 256 (sys_sanitize_string t.cred_entry 256) ≢ codes "root"

abbrev pub AllWrong : List Typed → Type 0
AllWrong [] = Unit
AllWrong (t ∷ ts) = Wrong t × AllWrong ts

sudo_root :
    (t : Typed) (s : KernelState)
    → Wrong t
    → s.env.is_root ≡ false
    → as_root (sudo t.auth_query t.cred_entry s) ≡ false
unfolding sudo
sudo_root t s0 wrong out0 =
    let credential = sys_sanitize_string t.cred_entry 256 in
    let answer = sys_sanitize_string t.auth_query 256 in
    let knows = sys_constant_time_compare credential (codes "root") 256 in
    let fails : knows ≡ false = elim (Bool-cases knows) [
      | inl right ↦
          absurd (wrong ((sys_constant_time_compare_iff credential (codes "root") 256).0 right))
      | inr off ↦ off
    ] in
    then_out (verify s0) _ (verify_root s0 out0) (λ s out.
      if_both (λ (o : Outcome). as_root o ≡ false)
        (sys_constant_time_compare answer (codes "yes") 256
          || sys_constant_time_compare answer (codes "y") 256)
        _ (runs (record s { env = dropped s.env }))
        (out_second knows _ _ fails (log_write_root 2 _ (record s { env = dropped s.env }))) refl)

run_routine_root :
    (t : Typed) (r : Option String) (s : KernelState)
    → Wrong t
    → s.env.is_root ≡ false
    → as_root (run_routine t r s) ≡ false
unfolding run_routine
run_routine_root t none s wrong out = out
run_routine_root t (some r) s wrong out =
    if_both (λ (o : Outcome). as_root o ≡ false) (same_bytes (codes r) (codes "cmd_sudo_handler"))
      (sudo t.auth_query t.cred_entry s)
      (if same_bytes (codes r) (codes "shutdown")
        then left s
        else if t.routine_returns
        then runs s
        else left s)
      (sudo_root t s wrong out)
      (if_both (λ (o : Outcome). as_root o ≡ false) (same_bytes (codes r) (codes "shutdown"))
        (left s) (if t.routine_returns then runs s else left s) out
        (if_both (λ (o : Outcome). as_root o ≡ false) t.routine_returns (runs s) (left s) out out))

take_action_root :
    (t : Typed) (cmd : List ℕ) (e : SysEnvironment) (a : Action) (s : KernelState)
    → Wrong t
    → s.env.is_root ≡ false
    → e.is_root ≡ false
    → as_root (take_action t cmd (e, a) s) ≡ false
unfolding take_action
take_action_root t cmd e ignored s wrong out e_out = out
take_action_root t cmd e unknown s wrong out e_out = out
take_action_root t cmd e denied s wrong out e_out = log_write_root 2 _ s ∙ out
take_action_root t cmd e (called r) s wrong out e_out =
    then_out (log_write 0 cmd (record s { env = e })) (run_routine t r)
      (log_write_root 0 cmd (record s { env = e }) ∙ e_out)
      (λ m still. run_routine_root t r m wrong still)

search_root :
    (cmd : List ℕ) (ds : List DispatchEntry) (e : SysEnvironment)
    → (search_table cmd ds e).0.is_root ≡ e.is_root
unfolding search_table
search_root cmd [] e = refl
search_root cmd (d ∷ ds) e = elim (Bool-cases (sys_constant_time_compare cmd d.signature 64)) [
  | inl hit ↦
      rw hit (elim (Bool-cases (ltb 0 d.min_privilege && (not e.is_root && e.isolation_active))) [
        | inl refused ↦ rw refused refl
        | inr allowed ↦ rw allowed refl
      ])
  | inr miss ↦ rw miss (search_root cmd ds e)
]

vector_root :
    (beyond : List DispatchEntry) (cmd : List ℕ) (e : SysEnvironment)
    → (sys_execute_vector beyond cmd e).0.is_root ≡ e.is_root
unfolding sys_execute_vector
vector_root beyond [] e = refl
vector_root beyond (c ∷ cs) e = search_root (c ∷ cs) (g_dispatch_table ++ beyond) e

execute_vector_root :
    (beyond : List DispatchEntry) (t : Typed) (cmd : List ℕ) (s : KernelState)
    → Wrong t
    → s.env.is_root ≡ false
    → as_root (execute_vector beyond t cmd s) ≡ false
unfolding execute_vector
execute_vector_root beyond t cmd s0 wrong out0 =
    then_out (verify s0) _ (verify_root s0 out0) (λ s out.
      take_action_root t cmd (sys_execute_vector beyond cmd s.env).0
        (sys_execute_vector beyond cmd s.env).1 s wrong out (vector_root beyond cmd s.env ∙ out))

parse_input_root :
    (beyond : List DispatchEntry) (t : Typed) (raw : List ℕ) (s : KernelState)
    → Wrong t
    → s.env.is_root ≡ false
    → as_root (parse_input beyond t raw s) ≡ false
unfolding parse_input
parse_input_root beyond t raw s0 wrong out0 = then_out (verify s0) _ (verify_root s0 out0) (λ s out.
    elim (Option-cases (sys_parse_input raw)) [
      | inl nothing ↦ rw nothing out
      | inr ((cmd, args), parsed) ↦ rw parsed (execute_vector_root beyond t cmd s wrong out)
    ])

tick_root : (t : Typed) (s : KernelState) → s.env.is_root ≡ false → as_root (tick t s) ≡ false
unfolding tick
tick_root t s out =
    let now = (s.tick_counter + 1) % 2 ^ 64 in
    if_both (λ (o : Outcome). as_root o ≡ false)
      (((now % 500 == 0) || leb sys_tick_max now) && not t.monitors_return)
      (left (record s { tick_counter = now }))
      (if leb sys_tick_max now
        then verify (record s { tick_counter = 0 })
        else runs (record s { tick_counter = now }))
      out
      (if_both (λ (o : Outcome). as_root o ≡ false) (leb sys_tick_max now)
        (verify (record s { tick_counter = 0 })) (runs (record s { tick_counter = now }))
        (verify_root _ out) out)

main_round_root :
    (beyond : List DispatchEntry) (t : Typed) (s : KernelState)
    → Wrong t
    → s.env.is_root ≡ false
    → as_root (main_round beyond t s) ≡ false
unfolding main_round
main_round_root beyond t s0 wrong out0 =
    then_out (tick t s0) _ (tick_root t s0 out0)
      (λ s out. typed (sys_sanitize_string t.line 256) s out)
  where
    typed :
        (line : List ℕ) (s : KernelState)
        → s.env.is_root ≡ false
        → as_root (elim line [ [] ↦ runs s | c ∷ cs ↦ parse_input beyond t (c ∷ cs) s ]) ≡ false
    typed [] s out = out
    typed (c ∷ cs) s out = parse_input_root beyond t (c ∷ cs) s wrong out

main_loop_root :
    (beyond : List DispatchEntry) (ts : List Typed) (s : KernelState)
    → AllWrong ts
    → s.env.is_root ≡ false
    → as_root (main_loop beyond ts s) ≡ false
unfolding main_loop
main_loop_root beyond [] s wrong out = out
main_loop_root beyond (t ∷ ts) s (wrong, rest) out =
    if_both (λ (o : Outcome). as_root o ≡ false) (s.env.system_state == 1)
      (and_then (main_round beyond t s) (main_loop beyond ts)) _
      (then_out (main_round beyond t s) (main_loop beyond ts) (main_round_root beyond t s wrong out)
        (λ m still. main_loop_root beyond ts m rest still))
      (sys_panic_root _ s out)

-- Nobody who never types the password becomes root by the kernel's own handlers: from the start on, whether
-- the kernel goes on, halts or has left for a routine that does not return, as long as the routines elsewhere
-- that return keep the environment.
pub kernel_root :
    (beyond : List DispatchEntry) (start_returns : Bool) (ts : List Typed) (s : KernelState)
    → AllWrong ts
    → as_root (kernel beyond start_returns ts s) ≡ false
unfolding kernel env_bootstrap sys_env_bootstrap
kernel_root beyond start_returns ts s wrong =
    then_out (env_bootstrap s) _ (log_write_root 0 _ _) (λ m out.
      if_both (λ (o : Outcome). as_root o ≡ false) start_returns (main_loop beyond ts m) (left m)
        (main_loop_root beyond ts m wrong out) out)
