-- ===== src/Delivery/Eligibility.antt =====
-- When a delivery is sent again after an attempt.
use waza.Prelude.{ℕ, ◌+◌, ◌≡◌, ◌&&◌, Bool, true, false, arith, ltb, leb, if◌then◌else◌}
use waza.Delivery.{
  Delivery, DeliveryStatus, Response, returned, raised, other, is_pending, attempt_one,
  retry_backoff_seconds, default_base, default_cap,
}

-- The channel took the message.
abbrev pub accepted : Response → Bool
accepted (returned o) = elim o.status [ other ↦ false | _ ↦ true ]
accepted raised = false

-- When a delivery may be sent again after an attempt that ended at `now` with answer `r`: never if
-- the channel took it, and else from its backoff on, while attempts are left.
abbrev pub may_resend : ℕ → Response → Delivery → ℕ → Bool
may_resend now r d later =
    if accepted r
    then false
    else ltb (d.attempt + 1) d.max_attempts
      && leb (now + retry_backoff_seconds (d.attempt + 1) default_base default_cap) later

-- After one attempt the delivery is eligible again exactly if the channel did not take it, attempts
-- are left, and the backoff of this attempt has passed since the answer.
pub is_pending-attempt_one :
    (respond : Delivery → ℕ × Response) (d : Delivery) (now later : ℕ) (r : Response)
    → respond (record d { attempt = d.attempt + 1; status = DeliveryStatus.sending }) ≡ (now, r)
    → is_pending later (attempt_one respond d) ≡ may_resend now r d later
unfolding is_pending attempt_one
is_pending-attempt_one respond d now later (returned o) h = ground arith
is_pending-attempt_one respond d now later raised h = ground arith
