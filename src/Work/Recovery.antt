-- ===== src/Work/Recovery.antt =====
-- The recovery sweeps of wax/workers/main.py: `recover_orphans`, `reclaim_stale_works` and
-- `resuscitate_rate_limited_works`.
use waza.Prelude.{
  ℕ, ◌+◌, ◌-◌, ◌*◌, Bool, true, false, ◌&&◌, not, Option, none, some, List, ltb, leb, length,
  rows_where, if◌then◌else◌, map,
}
use waza.Prelude.Table.{select, store_each}
use waza.Work.{
  Work, WorkStatus, running, retrying, failed, WorkKind, message_response, ErrorClass,
  provider_rate_limited, rate_protection, transient_provider, lease_expired, until, garbled,
  Settings, second, lease_length, max_rate_limit_retries,
}

abbrev pub is_running : WorkStatus → Bool
is_running running = true
is_running _ = false

-- `Work.claimed_at < threshold`; no row with a NULL passes.
abbrev pub claimed_before : Option ℕ → ℕ → Bool
claimed_before none t = false
claimed_before (some c) t = ltb c t

unfoldable pub is_orphan : Settings → ℕ → Work → Bool
is_orphan s now w =
    is_running w.status && claimed_before w.claimed_at (now - s.work_stale_seconds * second)

abbrev pub requeue_orphan : ℕ → Work → Work
requeue_orphan now w = record w { status = retrying; next_retry_at = some now }

-- The query has no limit and locks no row.
unfoldable pub recover_orphans : Settings → ℕ → List Work → List Work
recover_orphans s now rows = map (λ w. if is_orphan s now w then requeue_orphan now w else w) rows

-- ORDER BY claimed_at NULLS FIRST
abbrev pub claimed_earlier : Work → Work → Bool
claimed_earlier a b = elim a.claimed_at [
  | none ↦ true
  | some x ↦ elim b.claimed_at [ none ↦ false | some y ↦ leb x y ]
]

-- The lease has run out, or there is none and the claim is too old.
unfoldable pub is_stale : Settings → ℕ → Work → Bool
is_stale s now w = elim w.lease [
  | some l ↦ elim l [ until u ↦ ltb u now | garbled ↦ true ]
  | none ↦ elim w.claimed_at [ none ↦ false | some c ↦ ltb (lease_length s) (now - c) ]
]

unfoldable pub reclaim : Settings → ℕ → Work → Work
reclaim s now w =
    if is_stale s now w
    then record w {
      status = retrying;
      claimed_by = none;
      error_class = some lease_expired;
      next_retry_at = some now;
      attempt = w.attempt + 1;
    }
    else w

unfoldable pub reclaim_stale_works : Settings → (Work → Bool) → ℕ → ℕ → List Work → List Work × ℕ
reclaim_stale_works s locked now limit rows =
    let found = select (λ w. is_running w.status && not (locked w)) claimed_earlier limit rows in
    (store_each (λ w. w.id) (reclaim s now) found rows, length (rows_where (is_stale s now) found))

abbrev pub capacity_class : Option ErrorClass → Bool
capacity_class (some provider_rate_limited) = true
capacity_class (some rate_protection) = true
capacity_class (some transient_provider) = true
capacity_class _ = false

abbrev pub is_message : WorkKind → Bool
is_message message_response = true
is_message _ = false

abbrev pub is_failed : WorkStatus → Bool
is_failed failed = true
is_failed _ = false

unfoldable pub is_capacity_failure : Work → Bool
is_capacity_failure w = is_failed w.status && is_message w.kind && capacity_class w.error_class

abbrev pub updated_earlier : Work → Work → Bool
updated_earlier a b = leb a.updated_at b.updated_at

-- `answered` is the query for a delivered row of the work that is no interim notice.
unfoldable pub resuscitate : Settings → (Work → Bool) → ℕ → Work → Work
resuscitate s answered now w =
    if leb (max_rate_limit_retries s) w.rate_limit_retries
    then w
    else if answered w
    then w
    else record w {
      status = retrying;
      completed_at = none;
      claimed_by = none;
      next_retry_at = some now;
    }

unfoldable pub resuscitate_rate_limited_works :
    Settings → (Work → Bool) → (Work → Bool) → ℕ → ℕ → List Work → List Work
resuscitate_rate_limited_works s answered locked now limit rows =
    store_each (λ w. w.id) (resuscitate s answered now)
      (select (λ w. is_capacity_failure w && not (locked w)) updated_earlier limit rows) rows
