-- ===== src/Delivery/Backoff.antt =====
-- The backoff of wax/delivery/retry.py, `retry_backoff_seconds`.
use native.Mathlib.Nat.{pow-le-pow_right, mul-le-mul_right}
use waza.Prelude.{ℕ, ◌*◌, ◌^◌, ◌≤◌, ◌<◌, min, max, arith}
use waza.Delivery.{retry_backoff_seconds}

-- The delay before the cap is applied.
raw_mono : (a b base : ℕ) → a ≤ b → 2 ^ max 1 a * base ≤ 2 ^ max 1 b * base
raw_mono a b base h =
    let larger : max 1 a ≤ max 1 b = omega arith in
    let two : 0 < 2 = omega arith in mul-le-mul_right base (pow-le-pow_right two larger)

raw_least : (a base : ℕ) → 2 * base ≤ 2 ^ max 1 a * base
raw_least a base =
    let larger : 1 ≤ max 1 a = omega arith in
    let two : 0 < 2 = omega arith in
    let double : 2 ^ 1 ≤ 2 ^ max 1 a = pow-le-pow_right two larger in mul-le-mul_right base double

-- For every base and cap, the delay does not fall as the attempts go up, is at least the smaller of
-- the cap and twice the base, and never passes the cap.
retry_backoff_bounds :
    (a b base cap : ℕ)
    → a ≤ b
    → (retry_backoff_seconds a base cap ≤ retry_backoff_seconds b base cap)
      × (min cap (2 * base) ≤ retry_backoff_seconds a base cap)
      × (retry_backoff_seconds b base cap ≤ cap)
unfolding retry_backoff_seconds
retry_backoff_bounds a b base cap h = omega (arith, raw_mono a b base h, raw_least a base)
