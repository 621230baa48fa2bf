-- ===== src/Work/Examples.antt =====
-- Runs of the workers on small tables, and the theorems on them.
use waza.Prelude.{ℕ, ◌+◌, ◌≡◌, refl, Bool, false, some, none, List, [], ◌∷◌, arith}
use waza.Prelude.Table.{select, order_by, insert_by, store}
use waza.Prelude.Rows.{RowIs}
use waza.Work.{
  Work, queued, completed, failed, message_response, Settings, claim_next, claims_before,
  is_claimable, take_claim, unexpected,
}
use waza.Work.Turn.{rate_limited, other}
use waza.Work.Recovery.{recover_orphans, reclaim_stale_works, resuscitate_rate_limited_works}
use waza.Work.Life.{State, Steps, Step, locked, opened}
use waza.Work.Locks.{Apart}
use waza.Work.Failures.{Turn, failed_claims, failed_claims_end, swept}
use waza.Work.Invariant.{turns_exclusive, IsConsistent, recovery_finds_nothing}
use waza.Work.Terminal.{completed_final}

abbrev settings : Settings
settings = record { work_stale_seconds = 300; provider_rate_limit_max_retries = 1 }

abbrev new_row : ℕ → ℕ → Work
new_row id priority = record {
  id = id;
  kind = message_response;
  status = queued;
  priority = priority;
  created_at = id;
  updated_at = id;
  principal_id = some 7;
  target = some 9;
  attempt = 0;
  max_attempts = 2;
  claimed_by = none;
  claimed_at = none;
  started_at = none;
  completed_at = none;
  next_retry_at = none;
  error_class = none;
  lease = none;
  rate_limit_retries = 0;
}

abbrev two_rows : List Work
two_rows = new_row 1 80 ∷ new_row 2 40 ∷ []

abbrev free : Work → Bool
free w = false

abbrev first_claim : Work
first_claim = take_claim settings 1000 5 (new_row 2 40)

abbrev second_claim : Work
second_claim = take_claim settings 1001 6 (new_row 1 80)

abbrev one_claimed : List Work
one_claimed = new_row 1 80 ∷ first_claim ∷ []

-- The urgent work is claimed first.
claims_urgent : claim_next settings free 1000 5 two_rows ≡ (some first_claim, one_claimed)
unfolding claim_next select order_by insert_by store is_claimable claims_before take_claim
claims_urgent = refl

claims_nothing : (claim_next settings free 1002 7 (first_claim ∷ [])).0 ≡ none
unfolding claim_next select order_by insert_by is_claimable claims_before take_claim
claims_nothing = refl

abbrev turn : ℕ → Turn
turn t = record { claimed_at = t; worker = 5; failed_at = t + 10; failure = other unexpected }

abbrev limited_turn : Turn
limited_turn = record {
  claimed_at = 50;
  worker = 5;
  failed_at = 60;
  failure = rate_limited (some 30000000);
}

abbrev all_failed : List Turn
all_failed = turn 0 ∷ limited_turn ∷ turn 100 ∷ turn 200 ∷ []

failed_claims_end_example :
    ((failed_claims settings all_failed (new_row 1 80)).status ≡ failed)
    × (swept settings free 300 (failed_claims settings all_failed (new_row 1 80))
        ≡ failed_claims settings all_failed (new_row 1 80))
failed_claims_end_example =
    failed_claims_end settings all_failed (new_row 1 80) free 300 (refl, (refl, (refl, (refl, tt))))
      (omega arith)

abbrev start : State
start = record { works = two_rows; turns = []; marks = []; outbox = [] }

abbrev one_open : State
one_open = record start { turns = opened (claim_next settings (locked start) 1000 5 two_rows).0 [] }

abbrev two_open : State
two_open = record start {
  turns =
      opened (claim_next settings (locked one_open) 1001 6 two_rows).0
        (opened (claim_next settings (locked start) 1000 5 two_rows).0 []);
}

both_claim : Steps settings start two_open
both_claim =
    Steps.next (Steps.next Steps.here (Step.claim 1000 5 start)) (Step.claim 1001 6 one_open)

turns_exclusive_example : Apart two_open.turns
turns_exclusive_example = turns_exclusive tt both_claim

start-IsConsistent : IsConsistent start
start-IsConsistent = record { quiet = (refl, (refl, tt)); once = tt }

recovery_finds_nothing_example :
    (recover_orphans settings 900000000 two_rows ≡ two_rows)
    × (reclaim_stale_works settings free 900000000 20 two_rows ≡ (two_rows, 0))
recovery_finds_nothing_example =
    recovery_finds_nothing {a = start} {b = two_open} 900000000 20 free start-IsConsistent
      both_claim

abbrev done_row : Work
done_row = record (new_row 3 10) { status = completed; completed_at = some 500 }

abbrev with_done : State
with_done = record start { works = done_row ∷ two_rows }

abbrev after_sweep : State
after_sweep = record with_done {
  works = resuscitate_rate_limited_works settings free (locked with_done) 9000 25 with_done.works;
}

completed_final_example : RowIs (λ x. x.id) 3 done_row after_sweep.works
completed_final_example =
    completed_final settings done_row {a = with_done} {b = after_sweep} refl
      (record { row = (refl, tt); there = refl; free = refl; unmarked = tt })
      (Steps.next Steps.here (Step.sweep_failed free 9000 25 with_done))
