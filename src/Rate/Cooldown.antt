-- ===== src/Rate/Cooldown.antt =====
-- The cooldown: a request that comes during a cooldown is throttled and starts a new one.
use waza.Prelude.{ℕ, ◌+◌, ◌<◌, ◌≡◌, refl, true, some, List, [], ◌∷◌, All, lt→ltb, ap, ◌∙◌, arith}
use waza.Rate.{
  throttle, Params, Workload, decide_from_counts, refill, slide, record_decision, decide_row,
  in_cooldown,
}
use waza.Rate.Bucket.{Request, decide_all}

-- Each request comes before the cooldown that the one before it started is over.
unfoldable pub IsImpatient : Params → ℕ → List Request → Type 0
IsImpatient p end [] = Unit
IsImpatient p end (q ∷ qs) = (q.time < end) × IsImpatient p (q.time + p.cooldown) qs

cooldown-slide :
    (p : Params) (now : ℕ) (row : Workload)
    → (slide p now (refill p now row)).cooldown_until ≡ row.cooldown_until
unfolding slide refill
cooldown-slide p now row = ground arith

decide-throttle :
    (p : Params) (tokens recent n : ℕ)
    → p.enabled ≡ true
    → decide_from_counts p tokens recent n true ≡ (throttle, tokens)
unfolding decide_from_counts
decide-throttle p tokens recent n e = rw e refl

decide_row_in_cooldown :
    (p : Params) (now n end : ℕ) (row : Workload)
    → p.enabled ≡ true
    → row.cooldown_until ≡ some end
    → now < end
    → ((decide_row p now n row).0 ≡ throttle)
      × ((decide_row p now n row).1.cooldown_until ≡ some (now + p.cooldown))
unfolding decide_row record_decision
decide_row_in_cooldown p now n end row e h lt =
    let active : in_cooldown now (slide p now (refill p now row)).cooldown_until ≡ true =
      ap (in_cooldown now) (cooldown-slide p now row ∙ h) ∙ lt→ltb now end lt in
    let d =
      decide-throttle p (slide p now (refill p now row)).tokens
        (slide p now (refill p now row)).window_count n e in
    rw (active, d) (refl, refl)

-- With the protection enabled, a principal in a cooldown who asks again before each cooldown is over
-- is throttled every time, for however long this goes on.
pub decide_all_starved :
    (p : Params) (qs : List Request) (end : ℕ) (row : Workload)
    → p.enabled ≡ true
    → row.cooldown_until ≡ some end
    → IsImpatient p end qs
    → All (λ d. d ≡ throttle) (decide_all p qs row).0
unfolding decide_all IsImpatient
decide_all_starved p [] end row e h f = tt
decide_all_starved p (q ∷ qs) end row e h f =
    let (now, next) = decide_row_in_cooldown p q.time q.messages end row e h f.0 in
    (
      now,
      decide_all_starved p qs (q.time + p.cooldown) (decide_row p q.time q.messages row).1 e next
          f.1,
    )
