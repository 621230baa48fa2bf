-- ===== src/Work.antt =====
-- The life of a Work row, wax/workers/main.py: claiming, leases, the end of a tutor turn and the
-- recovery sweeps, over the `works` table of wax/db/models.py. Times are whole microseconds.
pub mod Turn
pub mod Recovery
pub mod Claiming
pub mod Failures
pub mod Life
pub mod Locks
pub mod Invariant
pub mod Idle
pub mod Terminal
mod Examples
use waza.Prelude.{
  ℕ, ◌+◌, ◌*◌, Bool, true, false, ◌&&◌, ◌||◌, not, Option, none, some, List, [], ◌∷◌, ltb, leb,
  ◌==◌, open_or_due, if◌then◌else◌,
}
use waza.Prelude.Table.{select, store}

pub data WorkStatus : Type 0 where
  queued running claimed retrying completed failed : WorkStatus

pub data WorkKind : Type 0 where
  message_response surface_ai scheduled_action unknown : WorkKind

-- The values that `error_class` is given.
pub data ErrorClass : Type 0 where
  timeout rate_protection transient_provider permanent_provider validation unexpected : ErrorClass
  provider_rate_limited lease_expired execution_failure configuration_failure : ErrorClass

-- `metadata_["lease_until"]`: a time, or a text that does not parse.
pub data Lease : Type 0 where
  until : ℕ → Lease
  garbled : Lease

pub record Work : Type 0 where
  pub id : ℕ
  pub kind : WorkKind
  pub status : WorkStatus
  pub priority : ℕ
  pub created_at : ℕ
  pub updated_at : ℕ
  pub principal_id : Option ℕ
  -- `input_payload["target_external_id"]`
  pub target : Option ℕ
  pub attempt : ℕ
  pub max_attempts : ℕ
  pub claimed_by : Option ℕ
  pub claimed_at : Option ℕ
  pub started_at : Option ℕ
  pub completed_at : Option ℕ
  pub next_retry_at : Option ℕ
  pub error_class : Option ErrorClass
  -- `metadata_["lease_until"]` and `metadata_["rate_limit_retries"]`
  pub lease : Option Lease
  pub rate_limit_retries : ℕ

pub record Settings : Type 0 where
  pub work_stale_seconds : ℕ
  pub provider_rate_limit_max_retries : ℕ

abbrev pub second : ℕ
second = 1000000

-- Python's `x or d` on a number.
abbrev pub or_default : ℕ → ℕ → ℕ
or_default x d = if x == 0 then d else x

abbrev pub lease_length : Settings → ℕ
lease_length s = or_default s.work_stale_seconds 300 * second

abbrev pub max_rate_limit_retries : Settings → ℕ
max_rate_limit_retries s = or_default s.provider_rate_limit_max_retries 48

-- The WHERE clause of `claim_next`.
unfoldable pub is_claimable : ℕ → Work → Bool
is_claimable now w = elim w.status [
  | queued ↦ true
  | retrying ↦ open_or_due w.next_retry_at now
  | _ ↦ false
]

-- ORDER BY priority, created_at
unfoldable pub claims_before : Work → Work → Bool
claims_before a b =
    ltb a.priority b.priority || (a.priority == b.priority && leb a.created_at b.created_at)

unfoldable pub take_claim : Settings → ℕ → ℕ → Work → Work
take_claim s now worker w = record w {
  status = running;
  claimed_by = some worker;
  claimed_at = some now;
  started_at = some now;
  lease = some (until (now + lease_length s));
  attempt = w.attempt + 1;
}

abbrev pub write_claim : Settings → ℕ → ℕ → List Work → List Work → Option Work × List Work
write_claim s now worker rows [] = (none, rows)
write_claim s now worker rows (w ∷ _) =
    (some (take_claim s now worker w), store (λ x. x.id) (take_claim s now worker w) rows)

-- The claimed work, if there is one, and the table as the claiming session sees it. The claim is not
-- committed before the end of the turn: see Life.
unfoldable pub claim_next : Settings → (Work → Bool) → ℕ → ℕ → List Work → Option Work × List Work
claim_next s locked now worker rows =
    write_claim s now worker rows
      (select (λ w. is_claimable now w && not (locked w)) claims_before 1 rows)

abbrev pub same_worker : Option ℕ → ℕ → Bool
same_worker none worker = false
same_worker (some c) worker = c == worker

unfoldable pub renew_lease : Settings → ℕ → ℕ → Work → Work
renew_lease s now worker w =
    if same_worker w.claimed_by worker
    then record w { lease = some (until (now + lease_length s)); claimed_at = some now }
    else w
