-- ===== src/Work/Failures.antt =====
-- Failed turns: when a work is retried, how long it waits, and that failing comes to an end.
use native.Mathlib.Nat.{pow-le-pow_right, mul-le-mul_left}
use waza.Prelude.{
  ℕ, ◌+◌, ◌-◌, ◌*◌, ◌^◌, ◌≤◌, ◌<◌, ◌≡◌, min, max, ◌⊎◌, refl, Bool, true, false, not, some, All,
  List, [], ◌∷◌, length, leb, if◌then◌else◌, arith, ◌∙◌, Bool-cases, inl, inr,
}
use waza.Work.{Work, retrying, failed, Settings, second, max_rate_limit_retries, take_claim}
use waza.Work.Recovery.{capacity_class, is_capacity_failure, resuscitate}
use waza.Work.Turn.{
  Failure, rate_limited, other, Key, rate_delay, rate_limit_delay, retry_delay, fail_turn,
}

-- The budget that a failure draws on is used up: the retries after rate limits, or the attempts.
abbrev pub is_exhausted : Settings → Failure → Work → Bool
is_exhausted s (rate_limited r) w = leb (max_rate_limit_retries s) w.rate_limit_retries
is_exhausted s (other c) w = leb w.max_attempts w.attempt

-- A failed turn ends the work exactly if the budget of its kind of failure is used up, and else the
-- work is retried.
pub status-fail_turn :
    (s : Settings) (now : ℕ) (f : Failure) (w : Work) (outbox : List Key)
    → (fail_turn s now f w outbox).0.status ≡ (if is_exhausted s f w then failed else retrying)
unfolding fail_turn
status-fail_turn s now (rate_limited r) w outbox = ground arith
status-fail_turn s now (other c) w outbox = ground arith

rate_limit_delay_bounds :
    (delay retries : ℕ)
    → (15 * second ≤ rate_limit_delay delay retries)
      × (rate_limit_delay delay retries ≤ 900 * second)
unfolding rate_limit_delay
rate_limit_delay_bounds delay retries =
    let base : ℕ = min (900 * second) (max (15 * second) delay) in
    let grown : base * 100 ≤ base * (100 + 15 * min retries 10) =
      mul-le-mul_left base (omega arith) in
    (omega arith, omega arith)

retry_delay_bounds :
    (attempt : ℕ) → (5 * second ≤ retry_delay attempt) × (retry_delay attempt ≤ 300 * second)
unfolding retry_delay
retry_delay_bounds attempt =
    let two : 0 < 2 = omega arith in
    let least : 0 ≤ attempt = omega arith in
    let one : 2 ^ 0 ≤ 2 ^ attempt = pow-le-pow_right two least in (omega arith, omega arith)

-- A work whose failed turn has not used up its budget waits at least 5 seconds and at most 15 minutes
-- for its retry.
fail_turn_delay :
    (s : Settings) (now : ℕ) (f : Failure) (w : Work) (outbox : List Key)
    → is_exhausted s f w ≡ false
    → (delay : ℕ) × ((fail_turn s now f w outbox).0.next_retry_at ≡ some (now + delay))
      × (5 * second ≤ delay)
      × (delay ≤ 900 * second)
unfolding fail_turn
fail_turn_delay s now (rate_limited r) w outbox h =
    let delay = rate_limit_delay (rate_delay r) (w.rate_limit_retries + 1) in
    let (low, high) = rate_limit_delay_bounds (rate_delay r) (w.rate_limit_retries + 1) in
    (delay, ground arith, omega arith, omega arith)
fail_turn_delay s now (other c) w outbox h =
    let (low, high) = retry_delay_bounds w.attempt in
    (retry_delay w.attempt, ground arith, omega arith, omega arith)

-- One claim and its failed turn, at the times of a schedule.
pub record Turn : Type 0 where
  pub claimed_at : ℕ
  pub worker : ℕ
  pub failed_at : ℕ
  pub failure : Failure

unfoldable pub failed_claim : Settings → Turn → Work → Work
failed_claim s t w = (fail_turn s t.failed_at t.failure (take_claim s t.claimed_at t.worker w) []).0

-- The turns that a work still gets while it is retried: a claim is followed by a failure, until the
-- work is given up.
unfoldable pub failed_claims : Settings → List Turn → Work → Work
failed_claims s [] w = w
failed_claims s (t ∷ ts) w =
    let rest = failed_claims s ts (failed_claim s t w) in
    if is_exhausted s t.failure (take_claim s t.claimed_at t.worker w)
    then failed_claim s t w
    else rest

-- The attempts and the rate-limit retries that are left.
abbrev pub turns_left : Settings → Work → ℕ
turns_left s w = (w.max_attempts - w.attempt) + (max_rate_limit_retries s - w.rate_limit_retries)

turns_left-fail_turn :
    (s : Settings) (now : ℕ) (f : Failure) (v : Work)
    → is_exhausted s f v ≡ false
    → 0 < v.attempt
    → turns_left s (fail_turn s now f v []).0
      < (v.max_attempts - (v.attempt - 1)) + (max_rate_limit_retries s - v.rate_limit_retries)
unfolding fail_turn
turns_left-fail_turn s now (rate_limited r) v h pos = ground arith
turns_left-fail_turn s now (other c) v h pos = ground arith

turns_left-failed_claim :
    (s : Settings) (t : Turn) (w : Work)
    → is_exhausted s t.failure (take_claim s t.claimed_at t.worker w) ≡ false
    → turns_left s (failed_claim s t w) < turns_left s w
unfolding failed_claim take_claim
turns_left-failed_claim s t w h = omega (
  arith,
  turns_left-fail_turn s t.failed_at t.failure (take_claim s t.claimed_at t.worker w) h
      (omega arith),
)

-- A failure that no sweep takes back: a rate limit, or an error that does not count as one of capacity.
abbrev pub stays_failed : Failure → Bool
stays_failed (rate_limited r) = true
stays_failed (other c) = not (capacity_class (some c))

beyond :
    (s : Settings) (answered : Work → Bool) (at now : ℕ) (f : Failure) (v : Work)
    → is_exhausted s f v ≡ true
    → stays_failed f ≡ true
    → (is_capacity_failure (fail_turn s at f v []).0 ≡ false)
      ⊎ (resuscitate s answered now (fail_turn s at f v []).0 ≡ (fail_turn s at f v []).0)
unfolding fail_turn resuscitate is_capacity_failure
beyond s answered at now (rate_limited r) v h n = inr (ground arith)
beyond s answered at now (other c) v h n = inl (ground arith)

-- A given up work is out of reach of the sweep that resuscitates failed works.
given_up :
    (s : Settings) (answered : Work → Bool) (t : Turn) (now : ℕ) (w : Work)
    → is_exhausted s t.failure (take_claim s t.claimed_at t.worker w) ≡ true
    → stays_failed t.failure ≡ true
    → ((failed_claim s t w).status ≡ failed)
      × ((is_capacity_failure (failed_claim s t w) ≡ false)
          ⊎ (resuscitate s answered now (failed_claim s t w) ≡ failed_claim s t w))
unfolding failed_claim
given_up s answered t now w e k = (
  status-fail_turn s t.failed_at t.failure (take_claim s t.claimed_at t.worker w) [] ∙ rw e,
  beyond s answered t.failed_at now t.failure (take_claim s t.claimed_at t.worker w) e k,
)

-- The sweep on the row of a work alone.
abbrev pub swept : Settings → (Work → Bool) → ℕ → Work → Work
swept s answered now w = if is_capacity_failure w then resuscitate s answered now w else w

-- A work whose turns are those of messages and all fail, none by an error of capacity other than the
-- provider's rate limit, is given up within any schedule of more turns than `turns_left`, the sum of its
-- remaining attempts and rate-limit retries, and the sweep that resuscitates failed works never takes
-- it up again.
pub failed_claims_end :
    (s : Settings) (ts : List Turn) (w : Work) (answered : Work → Bool) (now : ℕ)
    → All (λ t. stays_failed t.failure ≡ true) ts
    → turns_left s w < length ts
    → ((failed_claims s ts w).status ≡ failed)
      × (swept s answered now (failed_claims s ts w) ≡ failed_claims s ts w)
unfolding failed_claims
failed_claims_end s [] w answered now k h = absurd (omega arith)
failed_claims_end s (t ∷ ts) w answered now k h =
    elim (Bool-cases (is_exhausted s t.failure (take_claim s t.claimed_at t.worker w))) [
      | inl e ↦
          let (over, out) = given_up s answered t now w e k.0 in
          rw e (over, unswept (failed_claim s t w) out)
      | inr e ↦ rw e (
          failed_claims_end s ts (failed_claim s t w) answered now k.1
            (omega (arith, turns_left-failed_claim s t w e)))
    ]
  where
    unswept :
        (v : Work)
        → (is_capacity_failure v ≡ false) ⊎ (resuscitate s answered now v ≡ v)
        → swept s answered now v ≡ v
    unswept v (inl n) = rw n refl
    unswept v (inr n) = elim (Bool-cases (is_capacity_failure v)) [
      | inl u ↦ rw u n
      | inr u ↦ rw u refl
    ]
