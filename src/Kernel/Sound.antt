-- ===== src/Kernel/Sound.antt =====
-- The integrity of i386/whitex/Kernel.c: from its start on the kernel passes its own checks, so that they
-- do not make it panic.
use Prim.Native.String.{String}
use whitex_kernel.Prelude.{
  if_both, ℕ, ◌≡◌, ◌⊎◌, refl, Bool, true, false, Option, none, some, List, [], ◌∷◌, ◌++◌,
  if◌then◌else◌, arith, inl, inr,
}
use whitex_kernel.Prelude.Words.{add32}
use whitex_kernel.Kernel.Log.{IsLog, sys_log_write_lem}
use whitex_kernel.Kernel.Shell.{
  SysEnvironment, codes, sys_max_buffer, sys_stack_guard, sys_verify_integrity, sys_env_bootstrap,
  raised, dropped, sys_parse_input,
}
use whitex_kernel.Kernel.Dispatch.{
  DispatchEntry, Action, ignored, unknown, denied, called, search_table, sys_execute_vector,
  g_dispatch_table,
}
use whitex_kernel.Kernel.System.{
  KernelState, Outcome, runs, stopped, left, and_then, log_write, verify, zero_log, env_bootstrap,
  sudo, kill_protect, open_safe, Typed, run_routine, take_action,
}

-- The environment passes the checks of `sys_verify_integrity`, and no fault is noted.
pub record GoodEnvironment (canary : ℕ) (e : SysEnvironment) : Type 0 where
  pub canary_is : e.structural_canary ≡ canary
  pub guarded : (e.memory_guard ≡ sys_stack_guard) ⊎ (e.isolation_active ≡ false)
  pub base : e.kernel_zone_base ≡ 0
  pub limit : e.kernel_zone_limit ≡ 0x000F_FFFF
  pub working : e.system_state ≡ 1
  pub no_fault : e.fault_detected ≡ 0

pub record Sound (s : KernelState) : Type 0 where
  pub env_ok : GoodEnvironment s.global_canary s.env
  pub log_ok : IsLog s.sys_log
  pub log_canary : s.sys_log.structures_canary ≡ s.global_canary

-- the routine returns in a sound state
pub data Fine : Outcome → Type 0 where
  fine : {s : KernelState} → Sound s → Fine (runs s)

pub Fine-and_then :
    (o : Outcome) (f : KernelState → Outcome)
    → Fine o
    → ((s : KernelState) → Sound s → Fine (f s))
    → Fine (and_then o f)
Fine-and_then (runs s) f (fine ok) next = next s ok
Fine-and_then (stopped s) f ok next = elim ok [ ]
Fine-and_then (left s) f ok next = elim ok [ ]

-- The kernel has not halted over a check of its own: it goes on, or has left for a routine, in a sound state.
pub data Steady : Outcome → Type 0 where
  steady : {s : KernelState} → Sound s → Steady (runs s)
  away : {s : KernelState} → Sound s → Steady (left s)

pub Fine-Steady : (o : Outcome) → Fine o → Steady o
Fine-Steady (runs s) (fine ok) = steady ok
Fine-Steady (stopped s) ok = elim ok [ ]
Fine-Steady (left s) ok = elim ok [ ]

pub Steady-and_then :
    (o : Outcome) (f : KernelState → Outcome)
    → Steady o
    → ((s : KernelState) → Sound s → Steady (f s))
    → Steady (and_then o f)
Steady-and_then (runs s) f (steady ok) next = next s ok
Steady-and_then (stopped s) f ok next = elim ok [ ]
Steady-and_then (left s) f (away ok) next = away ok

env_passes :
    (canary log_canary : ℕ) (e : SysEnvironment)
    → GoodEnvironment canary e
    → log_canary ≡ canary
    → sys_verify_integrity canary log_canary e ≡ none
unfolding sys_verify_integrity
env_passes canary log_canary e good same =
    ground (arith, same, good.canary_is, good.guarded, good.base, good.limit)

-- The integrity check of a sound state does nothing.
pub verify_lem : (s : KernelState) → Sound s → verify s ≡ runs s
unfolding verify
verify_lem s ok =
    rw
      (env_passes s.global_canary s.sys_log.structures_canary s.env ok.env_ok ok.log_canary, verify)
      refl

pub log_write-Fine :
    (level : ℕ) (msg : List ℕ) (s : KernelState) → Sound s → Fine (log_write level msg s)
unfolding log_write
log_write-Fine level msg s ok =
    let (h, e, wrote, good, after, lev, time, fits, text, whole, canary) =
      sys_log_write_lem s.global_canary s.tick_counter level msg s.sys_log ok.log_ok
        ok.log_canary in
    rw (wrote, log_write) (fine (record { env_ok = ok.env_ok; log_ok = good; log_canary = canary }))

pub verify-Fine : (s : KernelState) → Sound s → Fine (verify s)
verify-Fine s ok = rw (verify_lem s ok) (fine ok)

pub with_env :
    (s : KernelState) (e : SysEnvironment)
    → Sound s
    → GoodEnvironment s.global_canary e
    → Sound (record s { env = e })
with_env s e ok good = record { env_ok = good; log_ok = ok.log_ok; log_canary = ok.log_canary }

raised-Good :
    (canary : ℕ) (e : SysEnvironment) → GoodEnvironment canary e → GoodEnvironment canary (raised e)
raised-Good canary e g = record {
  canary_is = g.canary_is;
  guarded = inr refl;
  base = g.base;
  limit = g.limit;
  working = g.working;
  no_fault = g.no_fault;
}

dropped-Good :
    (canary : ℕ) (e : SysEnvironment)
    → GoodEnvironment canary e
    → GoodEnvironment canary (dropped e)
dropped-Good canary e g = record {
  canary_is = g.canary_is;
  guarded = g.guarded;
  base = g.base;
  limit = g.limit;
  working = g.working;
  no_fault = g.no_fault;
}

pub zero_log-IsLog : (canary : ℕ) → IsLog (zero_log canary)
zero_log-IsLog canary = record { head_in = omega arith; count_in = omega arith; tail_at = refl }

-- The start makes the state sound whatever memory held before.
pub env_bootstrap-Fine : (s : KernelState) → Fine (env_bootstrap s)
unfolding env_bootstrap sys_env_bootstrap
env_bootstrap-Fine s = log_write-Fine 0 _ _ (record {
  env_ok = record {
    canary_is = refl;
    guarded = inl refl;
    base = refl;
    limit = refl;
    working = refl;
    no_fault = refl;
  };
  log_ok = zero_log-IsLog _;
  log_canary = refl;
})

pub sudo-Fine :
    (auth_query cred_entry : List ℕ) (s : KernelState)
    → Sound s
    → Fine (sudo auth_query cred_entry s)
unfolding sudo
sudo-Fine auth_query cred_entry s0 ok0 = Fine-and_then (verify s0) _ (verify-Fine s0 ok0) (λ s ok.
    if_both Fine _ _ _
      (if_both Fine _ _ _
        (log_write-Fine 1 _ _ (with_env s (raised s.env) ok (raised-Good _ _ ok.env_ok)))
        (log_write-Fine 2 _ _ (with_env s (dropped s.env) ok (dropped-Good _ _ ok.env_ok))))
      (fine (with_env s (dropped s.env) ok (dropped-Good _ _ ok.env_ok))))

pub kill_protect-Fine : (s : KernelState) → Sound s → Fine (kill_protect s)
unfolding kill_protect
kill_protect-Fine s0 ok0 = Fine-and_then (verify s0) _ (verify-Fine s0 ok0) (λ s ok.
    if_both Fine _ _ _
      (log_write-Fine 2 _ _ (with_env s (raised s.env) ok (raised-Good _ _ ok.env_ok))) (fine ok))

pub open_safe-Fine : (s : KernelState) → Sound s → Fine (open_safe s)
unfolding open_safe whitex_kernel.Kernel.Shell.sys_open_safe
open_safe-Fine s ok = log_write-Fine 0 _ _ (
    with_env s _ ok (record {
      canary_is = ok.env_ok.canary_is;
      guarded = inl refl;
      base = ok.env_ok.base;
      limit = ok.env_ok.limit;
      working = ok.env_ok.working;
      no_fault = ok.env_ok.no_fault;
    }))

run_routine-Steady :
    (t : Typed) (r : Option String) (s : KernelState) → Sound s → Steady (run_routine t r s)
unfolding run_routine
run_routine-Steady t none s ok = steady ok
run_routine-Steady t (some r) s ok =
    if_both Steady _ _ _ (Fine-Steady _ (sudo-Fine t.auth_query t.cred_entry s ok))
      (if_both Steady _ _ _ (away ok) (if_both Steady _ _ _ (steady ok) (away ok)))

pub take_action-Steady :
    (t : Typed) (cmd : List ℕ) (e : SysEnvironment) (a : Action) (s : KernelState)
    → Sound s
    → GoodEnvironment s.global_canary e
    → Steady (take_action t cmd (e, a) s)
unfolding take_action
take_action-Steady t cmd e ignored s ok good = steady ok
take_action-Steady t cmd e unknown s ok good = steady ok
take_action-Steady t cmd e denied s ok good = Fine-Steady _ (log_write-Fine 2 _ s ok)
take_action-Steady t cmd e (called r) s ok good =
    Steady-and_then _ _ (Fine-Steady _ (log_write-Fine 0 cmd _ (with_env s e ok good)))
      (run_routine-Steady t r)

good_either :
    (canary : ℕ) (b : Bool) (x y : SysEnvironment × Action)
    → GoodEnvironment canary x.0
    → GoodEnvironment canary y.0
    → GoodEnvironment canary (if b then x else y).0
good_either canary true x y f g = f
good_either canary false x y f g = g

search-Good :
    (cmd : List ℕ) (ds : List DispatchEntry) (canary : ℕ) (e : SysEnvironment)
    → GoodEnvironment canary e
    → GoodEnvironment canary (search_table cmd ds e).0
unfolding search_table
search-Good cmd [] canary e g = g
search-Good cmd (d ∷ ds) canary e g =
    let more : GoodEnvironment canary (record e { execution_cycles = add32 e.execution_cycles 1 }) =
      record {
        canary_is = g.canary_is;
        guarded = g.guarded;
        base = g.base;
        limit = g.limit;
        working = g.working;
        no_fault = g.no_fault;
      } in
    good_either canary _ _ _ (good_either canary _ (e, denied) _ g more)
      (search-Good cmd ds canary e g)

pub vector-Good :
    (beyond : List DispatchEntry) (cmd : List ℕ) (canary : ℕ) (e : SysEnvironment)
    → GoodEnvironment canary e
    → GoodEnvironment canary (sys_execute_vector beyond cmd e).0
unfolding sys_execute_vector
vector-Good beyond [] canary e g = g
vector-Good beyond (c ∷ cs) canary e g =
    search-Good (c ∷ cs) (g_dispatch_table ++ beyond) canary e g
