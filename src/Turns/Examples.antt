-- ===== src/Turns/Examples.antt =====
-- A surface turn of wax/workers/main.py whose tutor raises, at its first attempt.
use waza.Prelude.{ℕ, none, some, [], ◌∷◌}
use waza.Prelude.Text.{Text, codes}
use waza.Work.{Work, surface_ai, queued, running, Settings}
use waza.Publishing.{State}
use waza.Publishing.Requests.{AiStatus, accepted, AiRequest}
use waza.Turns.{Store, raised, process_surface_ai}
use waza.Turns.Failing.{Untold, process_surface_ai-Untold}

abbrev settings : Settings
settings = record { work_stale_seconds = 300; provider_rate_limit_max_retries = 1 }

abbrev question : Work
question = record {
  id = 6;
  kind = surface_ai;
  status = queued;
  priority = 50;
  created_at = 10;
  updated_at = 10;
  principal_id = some 7;
  target = none;
  attempt = 0;
  max_attempts = 3;
  claimed_by = none;
  claimed_at = none;
  started_at = none;
  completed_at = none;
  next_retry_at = none;
  error_class = none;
  lease = none;
  rate_limit_retries = 0;
}

abbrev request : AiRequest
request = record {
  id = 5;
  surface_id = 1;
  principal_id = 7;
  request_token_hash = codes "h";
  status = accepted;
  message_preview = codes "why?";
  reply_preview = none;
  error = none;
  idempotency_key = none;
  work_id = 6;
}

abbrev store : Store ℕ
store = record {
  works = question ∷ [];
  tables = record { surfaces = []; requests = request ∷ []; works = []; events = [] };
  actions = [];
  replies = [];
}

abbrev running_question : Work
running_question = record question { status = running; attempt = 1; claimed_by = some 3 }

abbrev bytes : State ℕ → ℕ
bytes st = 0

abbrev kept : AiStatus → Text → ℕ → ℕ
kept s t n = n

process_surface_ai-Untold_example : Untold 6 store (
    process_surface_ai bytes kept settings 100 running_question
      (some 5)
      (some 0)
      (raised (codes "boom"))
      store
      (record store { works = running_question ∷ [] }))
process_surface_ai-Untold_example =
    process_surface_ai-Untold bytes kept settings 100 running_question (some 5) (some 0)
      (codes "boom") store (record store { works = running_question ∷ [] })
