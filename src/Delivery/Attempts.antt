-- ===== src/Delivery/Attempts.antt =====
-- What a retry batch does to the attempt counters and to the rows it does not send.
use waza.Prelude.{
  ℕ, ◌+◌, ◌≤◌, ◌<◌, ◌≡◌, ◌⊎◌, Bool, true, false, refl, inl, inr, none, some, List, ◌&&◌, not, All,
  and_true, length, rows_where, arith,
}
use waza.Prelude.Table.{select, All-store_each, All-select_test, length-select-le}
use waza.Prelude.Rows.{In, RowIs, with_key}
use waza.Prelude.Sweep.{sweep_row, sweep_hit}
use waza.Delivery.{
  Delivery, DeliveryStatus, failed, Response, is_pending, older, pending_deliveries, attempt_one,
  process_batch,
}

-- The attempts of a delivery have not passed its limit.
abbrev pub InLimit : Delivery → Type 0
InLimit d = d.attempt ≤ d.max_attempts

module _ (respond : Delivery → ℕ × Response) where
  id-attempt_one : (d : Delivery) → (attempt_one respond d).id ≡ d.id
  unfolding attempt_one
  id-attempt_one d = ground arith

  attempt-attempt_one : (d : Delivery) → (attempt_one respond d).attempt ≡ d.attempt + 1
  unfolding attempt_one
  attempt-attempt_one d = ground arith

  max_attempts-attempt_one : (d : Delivery) → (attempt_one respond d).max_attempts ≡ d.max_attempts
  unfolding attempt_one
  max_attempts-attempt_one d = ground arith

  room_of_pending : (now : ℕ) (d : Delivery) → is_pending now d ≡ true → d.attempt < d.max_attempts
  unfolding is_pending
  room_of_pending now d h = ground arith

  -- From a table where no delivery has passed its limit, a batch passes none, and it sends at most
  -- `limit` deliveries.
  pub process_batch-InLimit :
      (locked : Delivery → Bool) (now limit : ℕ) (rows : List Delivery)
      → All InLimit rows
      → All InLimit (process_batch respond locked now limit rows).0
        × ((process_batch respond locked now limit rows).1 ≤ limit)
  unfolding process_batch pending_deliveries
  process_batch-InLimit locked now limit rows h = (
    All-store_each InLimit (λ d. d.id) (attempt_one respond)
        (select (λ d. is_pending now d && not (locked d)) older limit rows) rows
        (All-select_test (λ d. InLimit (attempt_one respond d))
          (λ d. is_pending now d && not (locked d)) older limit rows
          (λ d t.
            let room = room_of_pending now d (and_true (is_pending now d) (not (locked d)) t).0 in
            omega (arith, attempt-attempt_one d, max_attempts-attempt_one d)))
        h,
    length-select-le (λ d. is_pending now d && not (locked d)) older limit rows,
  )

  -- After a batch, the row of a delivery, the only one with its id, is what it was, or the delivery
  -- was eligible (waiting, below its limit, its retry time reached, not locked) and has been attempted
  -- exactly once.
  process_batch_row :
      (locked : Delivery → Bool) (now limit : ℕ) (rows : List Delivery) (d : Delivery)
      → RowIs (λ x. x.id) d.id d rows
      → All
          (λ x.
            (x ≡ d) ⊎ ((is_pending now d && not (locked d)) ≡ true) × (x ≡ attempt_one respond d))
          (with_key (λ x. x.id) d.id (process_batch respond locked now limit rows).0)
  unfolding process_batch pending_deliveries
  process_batch_row locked now limit rows d h =
      sweep_row (λ x. x.id) (attempt_one respond) id-attempt_one
        (λ x. is_pending now x && not (locked x)) older limit rows d h

  eligible :
      (now : ℕ) (d : Delivery)
      → (d.status ≡ DeliveryStatus.pending) ⊎ (d.status ≡ failed)
      → d.attempt < d.max_attempts
      → (d.next_retry_at ≡ none) ⊎ ((t : ℕ) × (d.next_retry_at ≡ some t) × (t ≤ now))
      → is_pending now d ≡ true
  unfolding is_pending
  eligible now d s l (inl r) = ground (arith, s)
  eligible now d s l (inr (t, r, le)) = ground (arith, s)

  -- A delivery of the table, the only one with its id, that is pending or has failed, is below its
  -- limit of attempts, has no retry time or one that is reached, and is not locked, is attempted by a
  -- batch whose limit covers all eligible deliveries.
  pub process_batch_progress :
      (locked : Delivery → Bool) (now limit : ℕ) (rows : List Delivery) (d : Delivery)
      → RowIs (λ x. x.id) d.id d rows
      → In d rows
      → (d.status ≡ DeliveryStatus.pending) ⊎ (d.status ≡ failed)
      → d.attempt < d.max_attempts
      → (d.next_retry_at ≡ none) ⊎ ((t : ℕ) × (d.next_retry_at ≡ some t) × (t ≤ now))
      → locked d ≡ false
      → length (rows_where (λ x. is_pending now x && not (locked x)) rows) ≤ limit
      → RowIs
          (λ x. x.id)
          d.id
          (attempt_one respond d)
          (process_batch respond locked now limit rows).0
  unfolding process_batch pending_deliveries
  process_batch_progress locked now limit rows d h m s l r u fits =
      let t : (is_pending now d && not (locked d)) ≡ true = rw (eligible now d s l r, u) refl in
      sweep_hit (λ x. x.id) (attempt_one respond) id-attempt_one
        (λ x. is_pending now x && not (locked x)) older limit rows d h m t fits
