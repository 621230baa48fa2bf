-- ===== src/Scheduler/Cancelling.antt =====
-- A cancelled action stays cancelled, whatever the recovery loop does.
use waza.Prelude.{ℕ, ◌≡◌, Bool, if◌then◌else◌, List, [], ◌∷◌}
use waza.Prelude.Rows.{RowIs}
use waza.Prelude.Text.{Text}
use waza.Publishing.Requests.{change_at}
use waza.Scheduler.{Action, cancelled, is_executing, complete}
use waza.Scheduler.Wake.{Tables, wake_due, recover_stuck_executing}

-- One part of a recovery cycle, or the end of a scheduled turn, whose action is executing.
pub data Round : Type 0 where
  wake : (fresh : ℕ → ℕ) (locked : Action → Bool) (now limit : ℕ) → Round
  finish : (id now : ℕ) (result : Text) → Round
  recover : (query_failed : Bool) (locked : Action → Bool) (older_than now limit : ℕ) → Round

abbrev finished : ℕ → Text → Action → Action
finished now result a = if is_executing a.status then complete now result a else a

unfoldable pub run_round : Round → Tables → Tables
run_round (wake fresh locked now limit) t = wake_due fresh locked now limit t
run_round (finish id now result) t = record t {
  actions = change_at (λ a. a.id) id (finished now result) t.actions;
}
run_round (recover query_failed locked older_than now limit) t = record t {
  actions = recover_stuck_executing query_failed locked older_than now limit t.works t.actions;
}

unfoldable pub run_rounds : List Round → Tables → Tables
run_rounds [] t = t
run_rounds (r ∷ rs) t = run_rounds rs (run_round r t)

module _ (d : Action) (over : d.status ≡ cancelled) where
  -- The row of `d`.
  abbrev Own : List Action → Type 0
  Own rows = RowIs (λ x. x.id) d.id d rows
