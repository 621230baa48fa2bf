-- ===== src/Delivery/Examples.antt =====
-- Runs of the retry batch on small tables, and the theorems on them.
use waza.Prelude.{
  ℕ, ◌≤◌, ◌≡◌, refl, Bool, false, ◌&&◌, not, some, none, List, [], ◌∷◌, All, length, rows_where,
  inl, inr, ◌==◌, if◌then◌else◌, arith,
}
use waza.Prelude.Table.{select, order_by, insert_by}
use waza.Prelude.Rows.{RowIs}
use waza.Delivery.{
  Delivery, DeliveryStatus, Response, returned, raised, OutcomeStatus, is_pending,
  pending_deliveries, attempt_one, process_batch, retry_backoff_seconds,
}
use waza.Delivery.Attempts.{InLimit, process_batch-InLimit, process_batch_progress}
use waza.Delivery.Eligibility.{may_resend, is_pending-attempt_one}

abbrev delivery : ℕ → ℕ → Delivery
delivery id attempt = record {
  id = id;
  status = DeliveryStatus.pending;
  attempt = attempt;
  max_attempts = 3;
  created_at = id;
  next_retry_at = none;
  delivered_at = none;
  external_message_id = none;
  last_outcome = none;
  error = none;
}

-- The channel takes every message but that of delivery 2.
abbrev channel : Delivery → ℕ × Response
channel d =
    if d.id == 2
    then (1000, raised)
    else (1000, returned (record { status = OutcomeStatus.ok; external_message_id = some 77 }))

abbrev free : Delivery → Bool
free d = false

abbrev table : List Delivery
table = delivery 1 0 ∷ delivery 2 1 ∷ delivery 3 3 ∷ []

backs_off : retry_backoff_seconds 3 10 600 ≡ 80
unfolding retry_backoff_seconds
backs_off = refl

-- Two deliveries are attempted, the third has no attempts left.
counts_two : (process_batch channel free 900 15 table).1 ≡ 2
unfolding process_batch pending_deliveries select order_by insert_by is_pending
counts_two = refl

process_batch-InLimit_example :
    All InLimit (process_batch channel free 900 15 table).0
    × ((process_batch channel free 900 15 table).1 ≤ 15)
process_batch-InLimit_example =
    process_batch-InLimit channel free 900 15 table (omega arith, (omega arith, (omega arith, tt)))

process_batch_progress_example :
    RowIs
      (λ x. x.id)
      2
      (attempt_one channel (delivery 2 1))
      (process_batch channel free 900 15 table).0
process_batch_progress_example =
    process_batch_progress channel free 900 15 table (delivery 2 1) (refl, tt) (inr (inl refl))
      (inl refl) (omega arith) (inl refl) refl fits
  where
    fits : length (rows_where (λ x. is_pending 900 x && not (free x)) table) ≤ 15
    fits = ground arith

is_pending-attempt_one_example :
    is_pending 1500 (attempt_one channel (delivery 2 1))
    ≡ may_resend 1000 raised (delivery 2 1) 1500
is_pending-attempt_one_example = is_pending-attempt_one channel (delivery 2 1) 1000 1500 raised refl
