-- ===== src/Resources.antt =====
-- Admission of executions to the sandbox: wax/world/resources.py. Each call runs under the module's lock,
-- so that calls come one after the other; sizes and free space are given by the file system, and wall
-- time is in whole seconds.
pub mod Counting
mod Examples
use waza.Prelude.{
  ℕ, ◌+◌, ◌-◌, ◌*◌, max, ◌==◌, leb, ltb, Bool, true, false, ◌&&◌, ◌||◌, not, Option, none, some,
  List, [], ◌∷◌, if◌then◌else◌,
}
use waza.Prelude.Text.{Text, codes, text_eq, is_nil, strip}

pub data NetworkMode : Type 0 where
  no_network pkg : NetworkMode

pub record ExecutionLimits : Type 0 where
  pub wall_sec : ℕ
  pub memory_bytes : ℕ
  pub cpu_seconds : ℕ
  pub pids : ℕ
  pub max_output : ℕ
  pub network_mode : NetworkMode

pub record WorldLimits : Type 0 where
  pub max_disk_bytes : ℕ
  pub max_env_bytes : ℕ
  pub max_concurrent_execs : ℕ

pub record WorkerLimits : Type 0 where
  pub max_worker_execs : ℕ
  pub max_pids_est : ℕ
  pub disk_floor_bytes : ℕ

abbrev pub world_limits : WorldLimits
world_limits = record {
  max_disk_bytes = 2147483648;
  max_env_bytes = 1073741824;
  max_concurrent_execs = 2;
}

abbrev pub worker_limits : WorkerLimits
worker_limits = record { max_worker_execs = 8; max_pids_est = 256; disk_floor_bytes = 536870912 }

-- The settings that the profile reads; zero counts as absent for two of them.
pub record Settings : Type 0 where
  pub isolation_timeout_seconds : ℕ
  pub isolation_memory_bytes : ℕ
  pub isolation_cpu_seconds : ℕ
  pub isolation_max_output_bytes : ℕ

abbrev or_zero : ℕ → ℕ → ℕ
or_zero n default = if n == 0 then default else n

abbrev mode_of : Text → NetworkMode
mode_of mode = if text_eq mode (codes "pkg") then pkg else no_network

abbrev profile : Settings → NetworkMode → ExecutionLimits
profile s no_network = record {
  wall_sec = or_zero s.isolation_timeout_seconds 45;
  memory_bytes = s.isolation_memory_bytes;
  cpu_seconds = or_zero s.isolation_cpu_seconds 20;
  pids = 64;
  max_output = s.isolation_max_output_bytes;
  network_mode = no_network;
}
profile s pkg = record {
  wall_sec = max (or_zero s.isolation_timeout_seconds 45) 300;
  memory_bytes = max s.isolation_memory_bytes 536870912;
  cpu_seconds = or_zero s.isolation_cpu_seconds 20;
  pids = 64;
  max_output = s.isolation_max_output_bytes;
  network_mode = pkg;
}

-- `execution_limits`, with `str.lower` as a parameter.
unfoldable pub execution_limits : (Text → Text) → Settings → Text → ExecutionLimits
execution_limits lower s network_mode = profile s (mode_of (lower (strip network_mode)))

-- The module's two counters.
pub record Worker : Type 0 where
  pub active_execs : ℕ
  pub active_pids_est : ℕ

pub data Admission : Type 0 where
  admitted world_full worker_full too_many_pids disk_floor : Admission

-- The free space is `none` when the file system does not tell it.
abbrev pub below_floor : ℕ → Option ℕ → Bool
below_floor floor none = false
below_floor floor (some free) = ltb free floor

unfoldable pub admit_execution :
    ℕ → ExecutionLimits → WorldLimits → Option ℕ → Worker → Worker × Admission
admit_execution world_concurrent budget wb free w =
    if leb wb.max_concurrent_execs world_concurrent
    then (w, world_full)
    else if leb worker_limits.max_worker_execs w.active_execs
    then (w, worker_full)
    else if ltb worker_limits.max_pids_est (w.active_pids_est + budget.pids)
    then (w, too_many_pids)
    else if below_floor worker_limits.disk_floor_bytes free
    then (w, disk_floor)
    else (
      record {
        active_execs = w.active_execs + 1;
        active_pids_est = w.active_pids_est + budget.pids;
      },
      admitted,
    )

-- `max(0, n - k)` is subtraction that stops at 0.
unfoldable pub release_execution : ExecutionLimits → Worker → Worker
release_execution budget w = record {
  active_execs = w.active_execs - 1;
  active_pids_est = w.active_pids_est - budget.pids;
}

pub data DiskCheck : Type 0 where
  within : ℕ → ℕ → DiskCheck
  disk_exceeded env_exceeded : DiskCheck

-- `check_world_disk`, with the sizes that `dir_size` finds.
unfoldable check_world_disk : WorldLimits → ℕ → ℕ → DiskCheck
check_world_disk wb used env_used =
    if ltb wb.max_disk_bytes used
    then disk_exceeded
    else if ltb wb.max_env_bytes env_used
    then env_exceeded
    else within used env_used
