-- ===== src/Rate/Examples.antt =====
-- Runs of the rate protection, and the theorems on them.
use waza.Prelude.{ℕ, ◌+◌, ◌-◌, ◌*◌, ◌≤◌, ◌≡◌, refl, true, some, List, [], ◌∷◌, All, arith}
use waza.Rate.{
  allow, throttle, Params, Workload, new_workload, decide_row, decide_from_counts, refill, slide,
  record_decision,
}
use waza.Rate.Bucket.{Request, decide_all, total_spent, AreOrdered, decide_all_bucket}
use waza.Rate.Cooldown.{IsImpatient, decide_all_starved}

-- Two messages of burst, one a second after that.
abbrev small : Params
small = record {
  enabled = true;
  burst = 2;
  sustained = 1;
  window = 10;
  cooldown = 5;
  queue_limit = 4;
}

abbrev request : ℕ → Request
request t = record { time = t; messages = 1 }

abbrev quick : List Request
quick = request 1 ∷ request 2 ∷ request 3 ∷ request 4 ∷ []

-- The burst is allowed, and then the principal is throttled.
decides_quick :
    (decide_all small quick (new_workload small 0)).0 ≡ allow ∷ allow ∷ throttle ∷ throttle ∷ []
unfolding decide_all decide_row decide_from_counts refill slide record_decision
decides_quick = refl

ordered : AreOrdered 0 quick 4
unfolding AreOrdered
ordered = (omega arith, (omega arith, (omega arith, (omega arith, refl))))

decide_all_bucket_example :
    total_spent small quick (decide_all small quick (new_workload small 0)).0
      + (decide_all small quick (new_workload small 0)).1.tokens
    ≤ 20 + (4 - 0) * 1
decide_all_bucket_example =
    decide_all_bucket small quick (new_workload small 0) 0 4 refl refl ordered

abbrev cooling : Workload
cooling = record (new_workload small 0) { cooldown_until = some 5 }

impatient : IsImpatient small 5 quick
unfolding IsImpatient
impatient = (omega arith, (omega arith, (omega arith, (omega arith, tt))))

decide_all_starved_example : All (λ d. d ≡ throttle) (decide_all small quick cooling).0
decide_all_starved_example = decide_all_starved small quick 5 cooling refl refl impatient
