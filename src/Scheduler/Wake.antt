-- ===== src/Scheduler/Wake.antt =====
-- Waking: `create_work_for_action` and `recover_stuck_executing` of wax/scheduler/service.py, and the
-- part of `recovery_loop` in wax/workers/main.py that turns due actions into works.
use waza.Prelude.{
  ℕ, ◌-◌, Bool, true, false, ◌&&◌, not, Option, none, some, List, [], ◌∷◌, leb, if◌then◌else◌,
}
use waza.Prelude.Table.{select, find, store, store_each}
use waza.Prelude.Text.{Text}
use waza.Work.{WorkStatus, WorkKind, queued, running, claimed, retrying, scheduled_action}
use waza.Scheduler.{
  Action, Payload, pending, is_executing, executes_first, due_actions, mark_executing, at_least,
}

-- `input_payload` of the work: what the wake-up says.
pub record WakePayload : Type 0 where
  pub scheduled_action_id : ℕ
  pub action_type : Text
  pub reason : Option Text
  pub execute_at : ℕ
  pub message_hint : Text
  pub objective : Option Text
  pub payload : Payload
  pub channel : Option Text
  pub conversation_id : Option Text
  pub target_external_id : Option Text
  pub triggered_at : ℕ

-- The columns of `works` that the scheduler writes or reads.
pub record WakeWork : Type 0 where
  pub id : ℕ
  pub principal_id : ℕ
  pub kind : WorkKind
  pub status : WorkStatus
  pub priority : ℕ
  pub objective : Text
  pub input_payload : WakePayload

pub record Tables : Type 0 where
  pub actions : List Action
  pub works : List WakeWork

-- `a or b` where both may be missing or empty.
abbrev pub or_text : Option Text → Option Text → Option Text
or_text (some (c ∷ cs)) b = some (c ∷ cs)
or_text _ b = b

abbrev pub text_or : Option Text → Text → Text
text_or (some (c ∷ cs)) b = c ∷ cs
text_or _ b = b

unfoldable pub wake_payload : ℕ → Action → WakePayload
wake_payload now a = record {
  scheduled_action_id = a.id;
  action_type = a.action_type;
  reason = a.reason;
  execute_at = a.execute_at;
  message_hint =
      text_or a.payload.message_hint (text_or a.payload.objective (text_or a.reason a.action_type));
  objective = or_text a.payload.objective (or_text a.payload.message_hint a.reason);
  payload = a.payload;
  channel = a.payload.channel;
  conversation_id = a.payload.conversation_id;
  target_external_id = a.payload.target_external_id;
  triggered_at = now;
}

-- `session.get(Work, action.work_id)` if there is a `work_id`.
unfoldable pub existing_work : Action → List WakeWork → Option WakeWork
existing_work a works = elim a.work_id [ none ↦ none | some k ↦ find (λ w. w.id) k works ]

abbrev pub new_work : ℕ → ℕ → Action → WakeWork
new_work id now a = record {
  id = id;
  principal_id = a.principal_id;
  kind = scheduled_action;
  status = queued;
  priority = 80;
  objective = text_or a.reason a.action_type;
  input_payload = wake_payload now a;
}

-- `create_work_for_action`: the work, the changed action and the works; `id` is the fresh id.
unfoldable pub create_work_for_action :
    ℕ → ℕ → Action → List WakeWork → WakeWork × Action × List WakeWork
create_work_for_action id now a works = elim (existing_work a works) [
  | some w ↦ (w, a, works)
  | none ↦ let w = new_work id now a in (w, record a { work_id = some id }, w ∷ works)
]

-- One round of `for action in due`.
unfoldable pub wake_one : (ℕ → ℕ) → ℕ → Action → Tables → Tables
wake_one fresh now a t =
    let made = create_work_for_action (fresh a.id) now (mark_executing a) t.works in
    record { actions = store (λ x. x.id) made.1 t.actions; works = made.2 }

unfoldable pub wake_each : (ℕ → ℕ) → ℕ → List Action → Tables → Tables
wake_each fresh now [] t = t
wake_each fresh now (a ∷ rest) t = wake_each fresh now rest (wake_one fresh now a t)

unfoldable pub wake_due : (ℕ → ℕ) → (Action → Bool) → ℕ → ℕ → Tables → Tables
wake_due fresh locked now limit t = wake_each fresh now (due_actions locked now limit t.actions) t

abbrev pub is_active : WorkStatus → Bool
is_active queued = true
is_active running = true
is_active claimed = true
is_active retrying = true
is_active _ = false

-- The action has a work that is still on its way.
unfoldable pub has_active_work : List WakeWork → Action → Bool
has_active_work works a = elim (existing_work a works) [
  | none ↦ false
  | some w ↦ is_active w.status
]

-- The body of the loop in `recover_stuck_executing`.
unfoldable pub recover_stuck : List WakeWork → ℕ → Action → Action
recover_stuck works now a =
    if has_active_work works a
    then a
    else record a { status = pending; work_id = none; recovered_at = some now }

-- `cutoff`: at least a minute ago; `older_than` is in microseconds.
abbrev pub cutoff : ℕ → ℕ → ℕ
cutoff older_than now = now - at_least 60000000 older_than

-- `recover_stuck_executing` on the action table. If the first query fails, a second one without the
-- time limit and the order is tried.
unfoldable pub is_stuck : Bool → ℕ → ℕ → Action → Bool
is_stuck query_failed older_than now a =
    if query_failed
    then is_executing a.status
    else is_executing a.status && leb a.execute_at (cutoff older_than now)

abbrev pub stuck_order : Bool → Action → Action → Bool
stuck_order query_failed a b = if query_failed then true else executes_first a b

unfoldable pub recover_stuck_executing :
    Bool → (Action → Bool) → ℕ → ℕ → ℕ → List WakeWork → List Action → List Action
recover_stuck_executing query_failed locked older_than now limit works rows =
    store_each (λ a. a.id) (recover_stuck works now)
      (select (λ a. is_stuck query_failed older_than now a && not (locked a))
        (stuck_order query_failed) limit rows)
      rows
