-- ===== src/Oom/Tests.antt =====
-- The statements on i386/whitex/oomk.h at one concrete system: three zones of 32768 pages and two
-- tasks.
use whitex_kernel.Prelude.{ℕ, ◌+◌, ◌*◌, refl, false, arith}
use whitex_kernel.Prelude.Words.{bit}
use whitex_kernel.Prelude.Int.{pos}
use whitex_kernel.Oom.{
  SysTask, SysMemZone, SysOomCtrl, weighted_score, clamp_score, exempt, adjusted_score,
  sys_calculate_badness, total_sys_pages, select_from, sys_select_bad_process, sys_alloc_pages,
}
use whitex_kernel.Oom.Victim.{sys_select_bad_process_lem, Choice}
use whitex_kernel.Oom.Alloc.{Ready, Fine, Reserved, sys_alloc_pages-Fine}

abbrev normal : SysMemZone
normal = record {
  managed_pages = 32768;
  free_pages = 1000;
  wm_min = 10;
  wm_low = 1020;
  wm_high = 1030;
  lock = false;
}

abbrev task : ℕ → ℕ → SysTask
task id rss = record {
  pid = id;
  ppid = 0;
  uid = 0;
  state = 1;
  flags = 0;
  oom_score_adj = pos 0;
  rss_pages = rss;
  virtual_pages = 2 * rss;
  page_faults = 0;
  cpu_time_ms = 0;
  nice_value = pos 0;
}

abbrev pub system : SysOomCtrl
system = record {
  zones = λ i. normal;
  total_reclaimed = 0;
  total_oom_kills = 0;
  task_array = λ i. i + 1;
  active_task_count = 2;
  regs = record { panic_ctrl = 0; reclaim_trig = 0; kill_sig_vec = 0; oom_victim_pid = 0 };
  memory = λ p. task (100 + p) (30000 * p);
}

abbrev empty_zone : SysMemZone
empty_zone = record {
  managed_pages = 0;
  free_pages = 0;
  wm_min = 0;
  wm_low = 0;
  wm_high = 0;
  lock = false;
}

abbrev pub system-Ready : Ready system
system-Ready = λ i. (refl, omega arith)

sys_select_bad_process_example : Choice system (total_sys_pages system) system.active_task_count 2
unfolding sys_select_bad_process select_from total_sys_pages sys_calculate_badness adjusted_score
    exempt weighted_score clamp_score bit
sys_select_bad_process_example = sys_select_bad_process_lem system 2 refl

sys_alloc_pages-Fine_example : Fine (Reserved 1) system (sys_alloc_pages (pos 1) 5000 system)
sys_alloc_pages-Fine_example =
    sys_alloc_pages-Fine 1 5000 system system-Ready (omega arith) (omega arith)

-- no zone was set up
abbrev uninitialized : SysOomCtrl
uninitialized = record system { zones = λ i. empty_zone }
