-- ===== src/Turns.antt =====
-- The turns of wax/workers/main.py that do not answer a message: `process_surface_ai`,
-- `process_scheduled_action`, `_mark_work_terminal`, and the end of `worker_loop`. A turn runs in
-- the transaction in which its work was claimed; `start` is what was committed before, `flushed`
-- what the transaction holds when the turn ends, and the result is what is committed after the turn.
-- The tutor's answer or exception is an argument, and so are a student's channel and the rendering
-- of a text. The sending that `_attempt_deliveries` does at the end of a turn is left out.
pub mod Failing
mod Examples
use waza.Prelude.{
  ℕ, ◌+◌, ltb, ◌==◌, Bool, true, false, not, Option, none, some, List, [], ◌∷◌, ◌++◌, take,
  if◌then◌else◌, or_else, is_some,
}
use waza.Prelude.Table.{find}
use waza.Prelude.Text.{Text, is_nil, strip}
use waza.Work.{
  Work, WorkStatus, retrying, completed, failed, WorkKind, ErrorClass, execution_failure,
  configuration_failure, Settings, renew_lease,
}
use waza.Work.Turn.{retry_delay}
use waza.Publishing.{State}
use waza.Publishing.Requests.{Tables, AiStatus, Result, reply, error, apply_ai_result, change_at}
use waza.Scheduler.{Action, complete}

-- A delivery that a scheduled turn queues, under the key `sched-delivery:{work_id}`.
pub record Reply : Type 0 where
  pub work_id : ℕ
  pub principal_id : ℕ
  pub channel : Text
  pub target : Text
  pub content : Text

pub record Store (V : Type 0) : Type 0 where
  pub works : List Work
  pub tables : Tables V
  pub actions : List Action
  pub replies : List Reply

-- The columns that `_mark_work_terminal` writes.
unfoldable pub terminal : ℕ → WorkStatus → ErrorClass → Option ℕ → Work → Work
terminal now failed c next w = record w {
  status = failed;
  error_class = some c;
  completed_at = some now;
  next_retry_at = if is_some next then next else w.next_retry_at;
}
terminal now completed c next w = record w {
  status = completed;
  error_class = some c;
  completed_at = some now;
  next_retry_at = if is_some next then next else w.next_retry_at;
}
terminal now s c next w = record w {
  status = s;
  error_class = some c;
  next_retry_at = if is_some next then next else w.next_retry_at;
}

abbrev pub finish : ℕ → Work → Work
finish now w = record w { status = completed; completed_at = some now }

module _ {V : Type 0} where
  -- `_mark_work_terminal`: it undoes the transaction, `flushed`, and then updates the work by its id.
  unfoldable pub mark_work_terminal :
      ℕ → ℕ → WorkStatus → ErrorClass → Option ℕ → Store V → Store V → Store V
  mark_work_terminal now id s c next start flushed = record start {
    works = change_at (λ w. w.id) id (terminal now s c next) start.works;
  }

  -- The retry or the end of a failed surface turn, by the attempts that the source reads.
  abbrev pub fail_or_retry : ℕ → Work → ℕ → Store V → Store V → Store V
  fail_or_retry now w attempt start flushed =
      if ltb attempt w.max_attempts
      then mark_work_terminal now w.id retrying execution_failure (some (now + retry_delay attempt))
          start flushed
      else mark_work_terminal now w.id failed execution_failure none start flushed

  abbrev pub write_work : ℕ → (Work → Work) → Store V → Store V
  write_work id f db = record db { works = change_at (λ w. w.id) id f db.works }

-- What a surface turn ends with: the tutor's reply, which may be absent, or an exception, as text.
pub data Outcome : Type 0 where
  answered : Option Text → Outcome
  raised : Text → Outcome

abbrev reply_of : Option Text → Result
reply_of none = reply []
reply_of (some s) = reply s

-- An exception without a text counts as no error.
abbrev error_of : Text → Result
error_of s = if is_nil s then reply [] else error (take 300 s)

module _ {V : Type 0} (state_bytes : State V → ℕ) (reply_value : AiStatus → Text → ℕ → V) where
  abbrev tell : ℕ → Option ℕ → Result → Store V → Store V
  tell now none res db = db
  tell now (some request_id) res db = record db {
    tables = apply_ai_result state_bytes reply_value now request_id res db.tables;
  }

  -- After the first rollback the columns of the work are read again: `reread` is what `work.attempt`
  -- gives then, `none` when the read raises, and the exception undoes the transaction.
  abbrev after_reread : ℕ → Work → Option ℕ → Store V → Store V → Store V
  after_reread now w none start flushed = start
  after_reread now w (some attempt) start flushed = fail_or_retry now w attempt start flushed

  abbrev fail_surface : ℕ → Work → Option ℕ → Option ℕ → Text → Store V → Store V → Store V
  fail_surface now w none reread e start flushed = fail_or_retry now w w.attempt start flushed
  fail_surface now w (some request_id) reread e start flushed =
      after_reread now w reread start (tell now (some request_id) (error_of e) start)

  unfoldable pub process_surface_ai :
      Settings → ℕ → Work → Option ℕ → Option ℕ → Outcome → Store V → Store V → Store V
  unfolding mark_work_terminal
  process_surface_ai s now w request_id reread (answered r) start flushed =
      tell now request_id (reply_of r)
        (write_work w.id (λ x. finish now (renew_lease s now (or_else x.claimed_by 0) x)) flushed)
  process_surface_ai s now w request_id reread (raised e) start flushed =
      fail_surface now w request_id reread e start flushed

module _ {V : Type 0} (present : Text → Text → Text) where
  abbrev queue_reply : Work → Text → Option ℕ → Option (Text × Text) → Store V → Store V
  queue_reply w s none target db = db
  queue_reply w s (some principal) none db = db
  queue_reply w s (some principal) (some (channel, external_id)) db =
      if is_nil s then db else record db {
        replies =
            db.replies
            ++ (record {
              work_id = w.id;
              principal_id = principal;
              channel = channel;
              target = external_id;
              content = present s channel;
            }
                ∷ []);
      }

  abbrev complete_action : ℕ → Option ℕ → Text → Store V → Store V
  complete_action now none s db = db
  complete_action now (some id) s db = record db {
    actions = change_at (λ a. a.id) id (complete now s) db.actions;
  }

  unfoldable pub process_scheduled_action :
      ℕ → Work → Option ℕ → Option (Text × Text) → Outcome → Store V → Store V → Store V
  unfolding mark_work_terminal
  process_scheduled_action now w action_id target (answered none) start flushed =
      complete_action now action_id [] (write_work w.id (finish now) flushed)
  process_scheduled_action now w action_id target (answered (some r)) start flushed =
      queue_reply w (strip r) w.principal_id target
        (complete_action now action_id (strip r) (write_work w.id (finish now) flushed))
  process_scheduled_action now w action_id target (raised e) start flushed =
      mark_work_terminal now w.id failed execution_failure none start flushed

-- The last branch of `worker_loop`, for a kind that it does not know.
abbrev pub unknown_kind : Work → Work
unknown_kind w = record w { status = failed; error_class = some configuration_failure }
