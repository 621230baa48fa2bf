-- ===== src/Resources/Examples.antt =====
-- Admissions of wax/world/resources.py on a worker with one execution.
use waza.Prelude.{◌≤◌, ◌≡◌, refl, some, [], ◌∷◌, length}
use waza.Prelude.Text.{codes, text_eq, strip, lstrip, rstrip, is_space}
use waza.Resources.{
  ExecutionLimits, Settings, execution_limits, world_limits, Worker, admit_execution,
}
use waza.Resources.Counting.{idle_worker, pids_of, admits, starts, counters_exact}

abbrev settings : Settings
settings = record {
  isolation_timeout_seconds = 45;
  isolation_memory_bytes = 536870912;
  isolation_cpu_seconds = 0;
  isolation_max_output_bytes = 150000;
}

abbrev install : ExecutionLimits
install = execution_limits (λ s. s) settings (codes " pkg ")

abbrev busy : Worker
busy = (admit_execution 0 install world_limits (some 600000000) idle_worker).0

counters_exact_example :
    (busy.active_execs ≡ length (install ∷ []))
    × (busy.active_pids_est ≡ pids_of (install ∷ []))
    × (length (install ∷ []) ≤ 8)
    × (pids_of (install ∷ []) ≤ 256)
unfolding admit_execution execution_limits text_eq strip lstrip rstrip is_space
counters_exact_example = counters_exact (admits 0 install world_limits (some 600000000) refl starts)
