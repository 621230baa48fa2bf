-- ===== src/Scheduler.antt =====
-- Scheduled actions, wax/scheduler/service.py: `SchedulerService` over the `scheduled_actions` table.
-- Times are whole microseconds; clock readings and fresh row ids are arguments.
pub mod Wake
pub mod Series
pub mod Waking
pub mod Recovering
pub mod Cancelling
mod Examples
use waza.Prelude.{
  ℕ, zero, suc, ◌+◌, ◌-◌, ◌*◌, Bool, true, false, ◌&&◌, not, Option, none, some, List, [], ◌∷◌,
  ◌++◌, ltb, leb, ◌==◌, if◌then◌else◌, or_else,
}
use waza.Prelude.Table.{select, find, store}
use waza.Prelude.Text.{Text, text_eq}

pub data ActionStatus : Type 0 where
  pending executing completed failed cancelled : ActionStatus

-- The idempotency key: the caller's own, the generated one with its random suffix, or that of an
-- occurrence of a series.
pub data ActionKey : Type 0 where
  given : Text → ActionKey
  generated : ℕ → Text → ℕ → ℕ → ActionKey
  series : ℕ → Text → ℕ → ℕ → ActionKey

-- The keys of `payload` that the service reads or writes, and the rest of the dictionary.
pub record Payload : Type 0 where
  pub message_hint : Option Text
  pub objective : Option Text
  pub channel : Option Text
  pub conversation_id : Option Text
  pub target_external_id : Option Text
  pub timezone : Option Text
  pub utc_execute_at : Option ℕ
  pub series_index : Option ℕ
  pub series_count : Option ℕ
  pub rest : List (Text × Text)

pub record Action : Type 0 where
  pub id : ℕ
  pub principal_id : ℕ
  pub action_type : Text
  pub reason : Option Text
  pub execute_at : ℕ
  pub status : ActionStatus
  pub payload : Payload
  pub result : Option Text
  pub work_id : Option ℕ
  pub executed_at : Option ℕ
  pub error : Option Text
  pub idempotency_key : ActionKey
  -- `metadata_["cancelled_at"]` and `metadata_["recovered_from_executing"]`
  pub cancelled_at : Option ℕ
  pub recovered_at : Option ℕ

abbrev pub key_eq : ActionKey → ActionKey → Bool
key_eq (given a) (given b) = text_eq a b
key_eq (generated p a t n) (generated q b u m) = (p == q && text_eq a b) && (t == u && n == m)
key_eq (series p a t n) (series q b u m) = (p == q && text_eq a b) && (t == u && n == m)
key_eq _ _ = false

-- The unique index on `idempotency_key`.
unfoldable pub has_key : ActionKey → List Action → Bool
has_key k [] = false
has_key k (a ∷ rows) =
    let rest = has_key k rows in if key_eq a.idempotency_key k then true else rest

-- `schedule`; there is no value where the INSERT violates the unique index.
unfoldable pub schedule :
    ℕ
    → ℕ
    → Text
    → ℕ
    → Option Text
    → Payload
    → ActionKey
    → List Action
    → Option (Action × List Action)
schedule id principal action_type execute_at reason payload key rows =
    let action : Action = record {
      id = id;
      principal_id = principal;
      action_type = action_type;
      reason = reason;
      execute_at = execute_at;
      status = pending;
      payload = payload;
      result = none;
      work_id = none;
      executed_at = none;
      error = none;
      idempotency_key = key;
      cancelled_at = none;
      recovered_at = none;
    } in
    if has_key key rows then none else some (action, action ∷ rows)

-- `idempotency_key or f"…"`, with the random suffix as an argument; an empty key is taken as absent.
abbrev pub key_or : Option Text → ℕ → Text → ℕ → ℕ → ActionKey
key_or none p t at_ suffix = generated p t at_ suffix
key_or (some []) p t at_ suffix = generated p t at_ suffix
key_or (some (c ∷ cs)) p t at_ suffix = given (c ∷ cs)

-- `schedule_at`, on a time in UTC; an empty timezone name is taken as absent.
abbrev pub with_timezone : Option Text → ℕ → Payload → Payload
with_timezone (some (c ∷ cs)) at_ p = record p {
  timezone = some (c ∷ cs);
  utc_execute_at = some at_;
}
with_timezone _ at_ p = p

unfoldable pub schedule_at :
    ℕ
    → ℕ
    → ℕ
    → Text
    → ℕ
    → Option Text
    → Payload
    → Option Text
    → Option Text
    → List Action
    → Option (Action × List Action)
schedule_at id suffix principal action_type execute_at reason payload timezone_name key rows =
    schedule id principal action_type execute_at reason
      (with_timezone timezone_name execute_at payload)
      (key_or key principal action_type execute_at suffix) rows

-- 0.01 and 0.1 hours.
abbrev pub least_delay : ℕ
least_delay = 36000000

abbrev pub least_interval : ℕ
least_interval = 360000000

abbrev pub at_least : ℕ → ℕ → ℕ
at_least a b = if ltb b a then a else b

-- `schedule_in_hours`, with the delay in microseconds.
unfoldable pub schedule_in_hours :
    ℕ → ℕ → ℕ → ℕ → Text → ℕ → Option Text → Payload → List Action → Option (Action × List Action)
schedule_in_hours id suffix now principal action_type delay reason payload rows =
    let execute_at = now + at_least least_delay delay in
    schedule id principal action_type execute_at reason payload
      (generated principal action_type execute_at suffix) rows

abbrev pub max_series_occurrences : ℕ
max_series_occurrences = 30

-- `max(1, min(count, MAX_SERIES_OCCURRENCES))`; a negative count is as 0.
abbrev pub series_count_of : ℕ → ℕ
series_count_of count =
    let least = if ltb max_series_occurrences count then max_series_occurrences else count in
    if ltb least 1 then 1 else least

-- What `schedule_series` is asked for; `interval` is `interval_hours` in microseconds, a negative one
-- is as 0.
pub record SeriesRequest : Type 0 where
  pub principal : ℕ
  pub action_type : Text
  pub first_at : ℕ
  pub interval : ℕ
  pub count : ℕ
  pub reason : Option Text
  pub payload : Payload

abbrev pub occurrence_key : SeriesRequest → ℕ → ActionKey
occurrence_key r i = series r.principal r.action_type r.first_at i

-- The body of the loop; `fresh i` is the id of occurrence `i`.
unfoldable pub schedule_occurrence :
    (ℕ → ℕ) → SeriesRequest → ℕ → List Action → Option (List Action × List Action)
schedule_occurrence fresh r i rows =
    if has_key (occurrence_key r i) rows
    then some ([], rows)
    else elim (schedule (fresh i) r.principal r.action_type
        (r.first_at + at_least least_interval r.interval * i) r.reason
        (record r.payload { series_index = some i; series_count = some (series_count_of r.count) })
        (occurrence_key r i) rows) [ none ↦ none | some s ↦ some (s.0 ∷ [], s.1) ]

-- The actions of one round in front of those of the later ones.
abbrev pub joined :
    List Action → Option (List Action × List Action) → Option (List Action × List Action)
joined xs none = none
joined xs (some t) = some (xs ++ t.0, t.1)

-- One round of the loop and then the rest of it, on the table that the round left.
unfoldable pub and_then :
    Option (List Action × List Action)
    → (List Action → Option (List Action × List Action))
    → Option (List Action × List Action)
and_then none k = none
and_then (some s) k = joined s.0 (k s.1)

-- `for i in range(count)`, with `i` occurrences done and `n` to do; the actions are in order.
unfoldable pub series_loop :
    (ℕ → ℕ) → SeriesRequest → ℕ → ℕ → List Action → Option (List Action × List Action)
series_loop fresh r i zero rows = some ([], rows)
series_loop fresh r i (suc n) rows =
    and_then (schedule_occurrence fresh r i rows) (λ rest. series_loop fresh r (i + 1) n rest)

unfoldable pub schedule_series :
    (ℕ → ℕ) → SeriesRequest → List Action → Option (List Action × List Action)
schedule_series fresh r rows = series_loop fresh r 0 (series_count_of r.count) rows

abbrev pub is_pending : ActionStatus → Bool
is_pending pending = true
is_pending _ = false

abbrev pub is_executing : ActionStatus → Bool
is_executing executing = true
is_executing _ = false

abbrev pub executes_first : Action → Action → Bool
executes_first a b = leb a.execute_at b.execute_at

unfoldable pub is_due : ℕ → Action → Bool
is_due now a = is_pending a.status && leb a.execute_at now

unfoldable pub due_actions : (Action → Bool) → ℕ → ℕ → List Action → List Action
due_actions locked now limit rows =
    select (λ a. is_due now a && not (locked a)) executes_first limit rows

abbrev pub mark_executing : Action → Action
mark_executing a = record a { status = executing }

abbrev pub complete : ℕ → Text → Action → Action
complete now result a = record a {
  status = completed;
  executed_at = some now;
  result = some result;
}

abbrev pub fail : ℕ → Text → Action → Action
fail now error a = record a { status = failed; error = some error; executed_at = some now }

-- `principal_id is not None and action.principal_id != principal_id` is not the case.
abbrev pub owned_by : Option ℕ → Action → Bool
owned_by none a = true
owned_by (some p) a = a.principal_id == p

abbrev pub is_open : ActionStatus → Bool
is_open pending = true
is_open executing = true
is_open _ = false

abbrev pub cancel_row : ℕ → Action → Action
cancel_row now a =
    if is_open a.status then record a { status = cancelled; cancelled_at = some now } else a

abbrev pub cancel_found : Option ℕ → ℕ → Option Action → List Action → Option Action × List Action
cancel_found principal now none rows = (none, rows)
cancel_found principal now (some a) rows =
    if owned_by principal a
    then (some (cancel_row now a), store (λ x. x.id) (cancel_row now a) rows)
    else (none, rows)

-- `cancel`: the action that is returned, and the table.
unfoldable pub cancel : ℕ → Option ℕ → ℕ → List Action → Option Action × List Action
cancel id principal now rows = cancel_found principal now (find (λ a. a.id) id rows) rows

unfoldable pub reschedule : ℕ → ℕ → Option ℕ → List Action → Option Action × List Action
reschedule id execute_at principal rows = elim (find (λ a. a.id) id rows) [
  | none ↦ (none, rows)
  | some a ↦
      if owned_by principal a && is_pending a.status
      then (
        some (record a { execute_at = execute_at }),
        store (λ x. x.id) (record a { execute_at = execute_at }) rows,
      )
      else (none, rows)
]
