-- ===== src/Scheduler/Examples.antt =====
-- Runs of the scheduler, and the theorems on them.
use waza.Prelude.{
  ℕ, ◌+◌, ◌≤◌, ◌≡◌, refl, Bool, true, false, ◌&&◌, not, some, none, List, [], ◌∷◌, All, length,
  rows_where, arith,
}
use waza.Prelude.Table.{find}
use waza.Prelude.Text.{codes, text_eq}
use waza.Scheduler.{
  cancelled, Action, ActionKey, Payload, pending, executing, SeriesRequest, schedule_series,
  series_loop, and_then, schedule_occurrence, schedule, has_key,
}
use waza.Scheduler.Wake.{
  WakeWork, Tables, existing_work, new_work, wake_due, has_active_work, is_stuck,
}
use waza.Scheduler.Series.{schedule_series_again}
use waza.Scheduler.Waking.{HasWork, wake_due-HasWork}

abbrev no_payload : Payload
no_payload = record {
  message_hint = none;
  objective = none;
  channel = none;
  conversation_id = none;
  target_external_id = none;
  timezone = none;
  utc_execute_at = none;
  series_index = none;
  series_count = none;
  rest = [];
}

abbrev weekly : SeriesRequest
weekly = record {
  principal = 7;
  action_type = codes "quiz";
  first_at = 1000;
  interval = 0;
  count = 2;
  reason = none;
  payload = no_payload;
}

abbrev fresh : ℕ → ℕ
fresh i = 100 + i

abbrev occurrence : ℕ → ℕ → Action
occurrence i at_ = record {
  id = 100 + i;
  principal_id = 7;
  action_type = codes "quiz";
  reason = none;
  execute_at = at_;
  status = pending;
  payload = record no_payload { series_index = some i; series_count = some 2 };
  result = none;
  work_id = none;
  executed_at = none;
  error = none;
  idempotency_key = ActionKey.series 7 (codes "quiz") 1000 i;
  cancelled_at = none;
  recovered_at = none;
}

abbrev both : List Action
both = occurrence 1 360001000 ∷ occurrence 0 1000 ∷ []

-- Two occurrences, at least six minutes apart.
schedules_two :
    schedule_series fresh weekly [] ≡ some (occurrence 0 1000 ∷ occurrence 1 360001000 ∷ [], both)
unfolding schedule_series series_loop and_then schedule_occurrence schedule has_key text_eq
schedules_two = refl

schedule_series_again_example :
    schedule_series fresh (record weekly { interval = 5; count = 1 }) both ≡ some ([], both)
schedule_series_again_example =
    schedule_series_again fresh fresh weekly (record weekly { interval = 5; count = 1 }) []
      (occurrence 0 1000 ∷ occurrence 1 360001000 ∷ []) both schedules_two (refl, refl, refl)
      (omega arith)

abbrev free : Action → Bool
free a = false

abbrev tables : Tables
tables = record { actions = both; works = [] }

wake_due-HasWork_example :
    All
      (HasWork (wake_due fresh free 2000 10 tables).works)
      (wake_due fresh free 2000 10 tables).actions
wake_due-HasWork_example = wake_due-HasWork fresh free 2000 10 tables (refl, (refl, tt))

abbrev woken : Action
woken = record (occurrence 0 1000) { status = executing; work_id = some 200 }

abbrev wake_work : WakeWork
wake_work = new_work 200 2000 (occurrence 0 1000)

active : has_active_work (wake_work ∷ []) woken ≡ true
unfolding has_active_work existing_work find
active = refl

inactive : has_active_work [] woken ≡ false
unfolding has_active_work existing_work find
inactive = refl

stuck : (is_stuck false 300000000 900000000 woken && not (free woken)) ≡ true
unfolding is_stuck
stuck = refl

fits :
    length (rows_where (λ a. is_stuck false 300000000 900000000 a && not (free a)) (woken ∷ []))
    ≤ 20
unfolding is_stuck
fits = ground arith

abbrev called_off : Action
called_off = record (occurrence 0 1000) { status = cancelled; cancelled_at = some 900 }
