-- ===== src/Work/Turn.antt =====
-- The end of a turn, from `process_message_response` of wax/workers/main.py: what a completed turn and
-- a failed turn write. The tutor is outside the model; its answer or exception is an argument.
use waza.Prelude.{
  ℕ, ◌+◌, ◌-◌, ◌*◌, ◌/◌, ◌^◌, min, max, Bool, false, ◌||◌, Option, none, some, List, [], ◌∷◌, ltb,
  leb, ◌==◌, if◌then◌else◌, is_some,
}
use waza.Work.{
  Work, retrying, completed, failed, ErrorClass, provider_rate_limited, Settings, second,
  or_default, max_rate_limit_retries,
}

-- The exception of a turn: the provider's rate limit, with its `retry_after_seconds`, or any other
-- exception, with its class by `classify_error`.
pub data Failure : Type 0 where
  rate_limited : Option ℕ → Failure
  other : ErrorClass → Failure

-- The idempotency keys `tutor-reply:{id}`, `rate-ack:{id}` and `safe-err:{id}`.
pub data Key : Type 0 where
  tutor_reply rate_ack safe_err : ℕ → Key

abbrev pub same_key : Key → Key → Bool
same_key (tutor_reply a) (tutor_reply b) = a == b
same_key (rate_ack a) (rate_ack b) = a == b
same_key (safe_err a) (safe_err b) = a == b
same_key _ _ = false

-- The keys of the delivery rows.
abbrev pub has_key : Key → List Key → Bool
has_key k [] = false
has_key k (j ∷ js) = same_key j k || has_key k js

-- A delivery is queued if the work names a target and a principal, and its key is not there yet.
unfoldable pub queue_once : Key → Work → List Key → List Key
queue_once k w outbox =
    if is_some w.target
    then (if is_some w.principal_id
        then (if has_key k outbox then outbox else k ∷ outbox)
        else outbox)
    else outbox

-- `float(retry_after_seconds or 20.0)`
abbrev pub rate_delay : Option ℕ → ℕ
rate_delay none = 20 * second
rate_delay (some r) = or_default r (20 * second)

-- The delay after a rate limit: between 15 s and 900 s, growing by 15 % a retry up to the tenth.
unfoldable pub rate_limit_delay : ℕ → ℕ → ℕ
rate_limit_delay delay retries =
    let base = min (900 * second) (max (15 * second) delay) in
    min (900 * second) (base * (100 + 15 * min retries 10) / 100)

-- `min(300, 2 ** attempt * 5)` seconds.
unfoldable pub retry_delay : ℕ → ℕ
retry_delay attempt = min 300 (2 ^ attempt * 5) * second

unfoldable pub fail_rate_limited : Settings → ℕ → Option ℕ → Work → List Key → Work × List Key
fail_rate_limited s now retry_after w outbox =
    let retries = w.rate_limit_retries + 1 in
    let unburned = record w {
      rate_limit_retries = retries;
      attempt = w.attempt - 1;
      error_class = some provider_rate_limited;
    } in
    if leb retries (max_rate_limit_retries s)
    then (
      record unburned {
        status = retrying;
        next_retry_at = some (now + rate_limit_delay (rate_delay retry_after) retries);
      },
      queue_once (rate_ack w.id) w outbox,
    )
    else (record unburned { status = failed; completed_at = some now }, outbox)

unfoldable pub fail_turn : Settings → ℕ → Failure → Work → List Key → Work × List Key
unfolding fail_rate_limited
fail_turn s now (rate_limited retry_after) w outbox = fail_rate_limited s now retry_after w outbox
fail_turn s now (other c) w outbox =
    if ltb w.attempt w.max_attempts
    then (
      record w {
        error_class = some c;
        status = retrying;
        next_retry_at = some (now + retry_delay w.attempt);
      },
      outbox,
    )
    else (
      record w { error_class = some c; status = failed; completed_at = some now },
      queue_once (safe_err w.id) w outbox,
    )

-- `replied` tells whether the tutor's reply is not empty.
unfoldable pub complete_turn : ℕ → Bool → Work → List Key → Work × List Key
complete_turn now replied w outbox = (
  record w { status = completed; completed_at = some now },
  (if replied then queue_once (tutor_reply w.id) w outbox else outbox),
)
