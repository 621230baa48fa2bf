-- ===== src/Delivery.antt =====
-- wax/delivery/retry.py: the backoff of a retry, `DeliveryRetryService.pending`, `attempt_one` and
-- `process_batch`, over the `deliveries` table of wax/db/models.py. Times are whole seconds. The
-- channel senders are a parameter: `respond` is what `deliver` does for one attempt.
pub mod Backoff
pub mod Attempts
pub mod Eligibility
mod Examples
use waza.Prelude.{
  ℕ, ◌+◌, ◌*◌, ◌^◌, min, max, Bool, true, false, ◌&&◌, not, Option, none, some, List, length, ltb,
  leb, open_or_due,
}
use waza.Prelude.Table.{select, store_each}

pub data DeliveryStatus : Type 0 where
  pending sending delivered failed : DeliveryStatus

-- The `status` of an outcome, as far as it is looked at: "ok", "skipped" or anything else.
pub data OutcomeStatus : Type 0 where
  ok skipped other : OutcomeStatus

pub record Outcome : Type 0 where
  pub status : OutcomeStatus
  pub external_message_id : Option ℕ

-- `deliver` returns an outcome or raises.
pub data Response : Type 0 where
  returned : Outcome → Response
  raised : Response

-- How a provider's message id is recorded: the provider's own, or the `out-{attempt}` stand-in.
pub data MessageId : Type 0 where
  provider : ℕ → MessageId
  out : ℕ → MessageId

-- `error` is `str(outcome)[:500]` or `str(e)[:500]`.
pub data DeliveryError : Type 0 where
  bad_outcome : Outcome → DeliveryError
  exception : DeliveryError

pub record Delivery : Type 0 where
  pub id : ℕ
  pub status : DeliveryStatus
  pub attempt : ℕ
  pub max_attempts : ℕ
  pub created_at : ℕ
  pub next_retry_at : Option ℕ
  pub delivered_at : Option ℕ
  pub external_message_id : Option MessageId
  pub last_outcome : Option Outcome
  pub error : Option DeliveryError

unfoldable pub retry_backoff_seconds : ℕ → ℕ → ℕ → ℕ
retry_backoff_seconds attempt base cap = let a = max 1 attempt in min cap (2 ^ a * base)

-- The defaults of the keyword arguments `base` and `cap`.
abbrev pub default_base : ℕ
default_base = 10

abbrev pub default_cap : ℕ
default_cap = 600

abbrev pub status_waits : DeliveryStatus → Bool
status_waits pending = true
status_waits failed = true
status_waits _ = false

-- The WHERE clause of `pending`.
unfoldable pub is_pending : ℕ → Delivery → Bool
is_pending now d =
    status_waits d.status && ltb d.attempt d.max_attempts && open_or_due d.next_retry_at now

abbrev pub older : Delivery → Delivery → Bool
older a b = leb a.created_at b.created_at

-- `locked` tells the rows that another transaction holds, which SKIP LOCKED passes over.
unfoldable pub pending_deliveries : (Delivery → Bool) → ℕ → ℕ → List Delivery → List Delivery
pending_deliveries locked now limit rows =
    select (λ d. is_pending now d && not (locked d)) older limit rows

-- The row as it is flushed before the send.
abbrev pub start_attempt : Delivery → Delivery
start_attempt d = record d { attempt = d.attempt + 1; status = sending }

abbrev pub message_id_of : Option ℕ → Option MessageId → ℕ → MessageId
message_id_of (some n) old attempt = provider n
message_id_of none (some m) attempt = m
message_id_of none none attempt = out attempt

abbrev pub succeed : ℕ → Outcome → Delivery → Delivery
succeed now o d = record d {
  status = delivered;
  delivered_at = some now;
  external_message_id = some (message_id_of o.external_message_id d.external_message_id d.attempt);
  last_outcome = some o;
  error = none;
}

abbrev pub defer : ℕ → DeliveryError → Delivery → Delivery
defer now e d = record d {
  status = failed;
  error = some e;
  next_retry_at = some (now + retry_backoff_seconds d.attempt default_base default_cap);
}

-- What is written after the send; `now` is the clock then.
unfoldable pub settle : ℕ → Response → Delivery → Delivery
settle now (returned o) d = elim o.status [
  | ok ↦ succeed now o d
  | skipped ↦ succeed now o d
  | other ↦ defer now (bad_outcome o) d
]
settle now raised d = defer now exception d

-- `respond` is the answer of the channel to one attempt, with the clock at that moment.
module _ (respond : Delivery → ℕ × Response) where
  unfoldable pub attempt_one : Delivery → Delivery
  unfolding settle
  attempt_one d = let sent = start_attempt d in let (now, r) = respond sent in settle now r sent

  -- The new table, and the number of deliveries that were attempted.
  unfoldable pub process_batch : (Delivery → Bool) → ℕ → ℕ → List Delivery → List Delivery × ℕ
  process_batch locked now limit rows =
      let items = pending_deliveries locked now limit rows in
      (store_each (λ d. d.id) attempt_one items rows, length items)
