-- ===== src/Resources/Counting.antt =====
-- The counters of wax/world/resources.py under any order of admissions and releases.
use waza.Prelude.{ℕ, ◌+◌, ◌≤◌, ◌≡◌, refl, Option, List, [], ◌∷◌, ◌++◌, length, length-append, arith}
use waza.Resources.{
  ExecutionLimits, WorldLimits, Worker, admitted, admit_execution, release_execution,
}

abbrev pub idle_worker : Worker
idle_worker = record { active_execs = 0; active_pids_est = 0 }

-- The processes that a list of executions may start.
abbrev pub pids_of : List ExecutionLimits → ℕ
pids_of [] = 0
pids_of (b ∷ bs) = b.pids + pids_of bs

-- The worker's counters with the executions that run: one that is admitted runs until it is released,
-- in any order; a refused one does not run.
pub data Sandbox : Worker → List ExecutionLimits → Type 0 where
  starts : Sandbox idle_worker []
  admits :
      {w : Worker} {running : List ExecutionLimits} (world_concurrent : ℕ) (b : ExecutionLimits)
      (wb : WorldLimits) (free : Option ℕ)
      → (admit_execution world_concurrent b wb free w).1 ≡ admitted
      → Sandbox w running
      → Sandbox (admit_execution world_concurrent b wb free w).0 (b ∷ running)
  releases :
      {w : Worker} (before after : List ExecutionLimits) (b : ExecutionLimits)
      → Sandbox w (before ++ (b ∷ after))
      → Sandbox (release_execution b w) (before ++ after)

pids-append : (xs ys : List ExecutionLimits) → pids_of (xs ++ ys) ≡ pids_of xs + pids_of ys
pids-append [] ys = omega arith
pids-append (x ∷ xs) ys = omega (arith, pids-append xs ys)

-- What an admission checked, and what it counts.
admitted-counts :
    (n : ℕ) (b : ExecutionLimits) (wb : WorldLimits) (free : Option ℕ) (w : Worker)
    → (admit_execution n b wb free w).1 ≡ admitted
    → ((admit_execution n b wb free w).0.active_execs ≡ w.active_execs + 1)
      × ((admit_execution n b wb free w).0.active_pids_est ≡ w.active_pids_est + b.pids)
      × (w.active_execs + 1 ≤ 8)
      × (w.active_pids_est + b.pids ≤ 256)
unfolding admit_execution
admitted-counts n b wb free w h = ground (arith, h)

-- However admissions and releases come, the counters are exactly the number of the executions that run
-- and the sum of their process limits; at most 8 run, with at most 256 processes.
pub counters_exact :
    {w : Worker} {running : List ExecutionLimits}
    → Sandbox w running
    → (w.active_execs ≡ length running)
      × (w.active_pids_est ≡ pids_of running)
      × (length running ≤ 8)
      × (pids_of running ≤ 256)
unfolding release_execution
counters_exact starts = (refl, refl, omega arith, omega arith)
counters_exact (admits {w} {running} n b wb free e s) =
    let now = admitted-counts n b wb free w e in
    let then_ = counters_exact s in
    (
      omega (arith, now, then_),
      omega (arith, now, then_),
      omega (arith, now, then_),
      omega (arith, now, then_),
    )
counters_exact (releases before after b s) =
    let then_ = counters_exact s in
    let l = length-append before (b ∷ after) in
    let l' = length-append before after in
    let p = pids-append before (b ∷ after) in
    let p' = pids-append before after in
    (
      omega (arith, then_, l, l'),
      omega (arith, then_, p, p'),
      omega (arith, then_, l, l'),
      omega (arith, then_, p, p'),
    )
