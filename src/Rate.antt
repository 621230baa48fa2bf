-- ===== src/Rate.antt =====
-- Rate protection, wax/protection/rate.py: `decide_from_counts`, `decide_durable` on the
-- `principal_workloads` row of a principal, and the process-local `RateProtector.decide`. Times and
-- lengths of time are whole microseconds. Tokens are counted in shares of 1/`window`, so that a refill
-- is the whole number `elapsed * sustained`: a message costs `window` shares.
pub mod Bucket
pub mod Window
pub mod Cooldown
mod Examples
use waza.Prelude.{
  ℕ, zero, suc, ◌+◌, ◌-◌, ◌*◌, Bool, true, false, not, Option, none, some, List, [], ◌∷◌, ◌++◌, ltb,
  leb, ◌==◌, if◌then◌else◌, or_else, length,
}

pub data RateDecision : Type 0 where
  allow defer throttle protect : RateDecision

pub record RateSettings : Type 0 where
  pub rate_limit_enabled : Bool
  pub rate_burst_capacity : ℕ
  pub rate_sustained_per_minute : ℕ
  pub rate_window : ℕ
  pub rate_cooldown : ℕ
  pub rate_queue_limit_per_principal : ℕ

pub record Params : Type 0 where
  pub enabled : Bool
  pub burst : ℕ
  pub sustained : ℕ
  pub window : ℕ
  pub cooldown : ℕ
  pub queue_limit : ℕ

-- Python's `x or d` on a number.
abbrev pub or_number : ℕ → ℕ → ℕ
or_number x d = if x == 0 then d else x

unfoldable pub params : RateSettings → Params
params s = record {
  enabled = s.rate_limit_enabled;
  burst = or_number s.rate_burst_capacity 12;
  sustained = or_number s.rate_sustained_per_minute 30;
  window = or_number s.rate_window 60000000;
  cooldown = or_number s.rate_cooldown 15000000;
  queue_limit = or_number s.rate_queue_limit_per_principal 40;
}

-- The decision and the tokens that are left.
unfoldable pub decide_from_counts : Params → ℕ → ℕ → ℕ → Bool → RateDecision × ℕ
decide_from_counts p tokens recent message_count cooldown_active =
    if not p.enabled
    then (allow, tokens)
    else if cooldown_active
    then (throttle, tokens)
    else if ltb p.queue_limit (recent + message_count)
    then (protect, tokens)
    else if leb (message_count * p.window) tokens
    then (allow, tokens - message_count * p.window)
    else if ltb recent p.sustained
    then (defer, tokens)
    else (throttle, tokens)

abbrev pub least : ℕ → ℕ → ℕ
least a b = if ltb b a then b else a

-- The row of `principal_workloads`.
pub record Workload : Type 0 where
  pub tokens : ℕ
  pub last_refill_at : Option ℕ
  pub window_started_at : Option ℕ
  pub window_count : ℕ
  pub cooldown_until : Option ℕ

abbrev pub new_workload : Params → ℕ → Workload
new_workload p now = record {
  tokens = p.burst * p.window;
  last_refill_at = some now;
  window_started_at = some now;
  window_count = 0;
  cooldown_until = none;
}

-- A clock that went back counts as no time.
unfoldable pub refill : Params → ℕ → Workload → Workload
refill p now row = record row {
  tokens =
      least (p.burst * p.window)
        (row.tokens + (now - or_else row.last_refill_at now) * p.sustained);
  last_refill_at = some now;
}

abbrev pub window_over : Params → ℕ → Option ℕ → Bool
window_over p now none = true
window_over p now (some t) = ltb p.window (now - t)

unfoldable pub slide : Params → ℕ → Workload → Workload
slide p now row =
    if window_over p now row.window_started_at
    then record row { window_started_at = some now; window_count = 0 }
    else row

abbrev pub in_cooldown : ℕ → Option ℕ → Bool
in_cooldown now none = false
in_cooldown now (some t) = ltb now t

abbrev pub counts : RateDecision → Bool
counts allow = true
counts defer = true
counts _ = false

abbrev pub throttles : RateDecision → Bool
throttles throttle = true
throttles _ = false

-- What `decide_durable` writes back once it has decided.
unfoldable pub record_decision : Params → ℕ → ℕ → RateDecision × ℕ → Workload → Workload
record_decision p now message_count d row = record row {
  tokens = d.1;
  window_count = if counts d.0 then row.window_count + message_count else row.window_count;
  cooldown_until = if throttles d.0 then some (now + p.cooldown) else row.cooldown_until;
}

unfoldable pub decide_row : Params → ℕ → ℕ → Workload → RateDecision × Workload
decide_row p now message_count row =
    let ready = slide p now (refill p now row) in
    let d =
      decide_from_counts p ready.tokens ready.window_count message_count
        (in_cooldown now ready.cooldown_until) in
    (d.0, record_decision p now message_count d ready)

-- `decide_durable`: the decision and the row, which is created where there is none.
unfoldable pub decide_durable : Params → ℕ → ℕ → Option Workload → RateDecision × Option Workload
decide_durable p now message_count row =
    let made = decide_row p now message_count (or_else row (new_workload p now)) in
    if not p.enabled then (allow, row) else (made.0, some made.1)

-- The state that `RateProtector` keeps for a principal; 0 is a `last_refill` that was never set.
pub record PrincipalRateState : Type 0 where
  pub timestamps : List ℕ
  pub tokens : ℕ
  pub last_refill : ℕ
  pub cooldown_until : ℕ
  pub deferred_count : ℕ

abbrev pub drop_old : ℕ → List ℕ → List ℕ
drop_old since [] = []
drop_old since (t ∷ ts) = let rest = drop_old since ts in if ltb t since then rest else t ∷ ts

abbrev pub repeat : ℕ → ℕ → List ℕ
repeat zero t = []
repeat (suc n) t = t ∷ repeat n t

unfoldable pub refill_local : Params → ℕ → PrincipalRateState → PrincipalRateState
refill_local p now st =
    if st.last_refill == 0
    then record st { tokens = p.burst * p.window; last_refill = now }
    else record st {
      tokens = least (p.burst * p.window) (st.tokens + (now - st.last_refill) * p.sustained);
      last_refill = now;
    }

unfoldable pub record_local :
    Params → ℕ → ℕ → RateDecision × ℕ → PrincipalRateState → PrincipalRateState
record_local p now message_count d st = elim d.0 [
  | allow ↦ record st { tokens = d.1; timestamps = st.timestamps ++ repeat message_count now }
  | defer ↦ record st {
    tokens = d.1;
    timestamps = st.timestamps ++ repeat message_count now;
    deferred_count = st.deferred_count + 1;
  }
  | throttle ↦ record st { tokens = d.1; cooldown_until = now + p.cooldown }
  | protect ↦ record st { tokens = d.1; deferred_count = st.deferred_count + message_count }
]

-- `RateProtector.decide` on a monotonic clock.
unfoldable pub decide : Params → ℕ → ℕ → PrincipalRateState → RateDecision × PrincipalRateState
decide p now message_count st0 =
    let filled = refill_local p now st0 in
    let st : PrincipalRateState = record filled {
      timestamps = drop_old (now - p.window) filled.timestamps;
    } in
    let d =
      decide_from_counts p st.tokens (length st.timestamps) message_count
        (ltb now st.cooldown_until) in
    if not p.enabled then (allow, st0) else (d.0, record_local p now message_count d st)
