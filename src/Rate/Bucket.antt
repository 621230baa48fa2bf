-- ===== src/Rate/Bucket.antt =====
-- The token bucket: what is allowed over a stretch of time.
use waza.Prelude.{ℕ, ◌+◌, ◌-◌, ◌*◌, ◌≤◌, ◌≡◌, sym, ap, ◌∙◌, Bool, true, some, List, [], ◌∷◌, arith}
use native.Mathlib.Nat.{add-mul}
use waza.Rate.{
  RateDecision, allow, Params, Workload, decide_from_counts, refill, slide, least, record_decision,
  decide_row, in_cooldown,
}

-- A request: when it comes, and for how many messages.
pub record Request : Type 0 where
  pub time : ℕ
  pub messages : ℕ

-- The decisions on a sequence of requests, and the row after them.
unfoldable pub decide_all : Params → List Request → Workload → List RateDecision × Workload
decide_all p [] row = ([], row)
decide_all p (q ∷ qs) row =
    let one = decide_row p q.time q.messages row in
    let rest = decide_all p qs one.1 in (one.0 ∷ rest.0, rest.1)

-- What a request costs: its messages, if it is allowed.
abbrev pub spent : Params → RateDecision → ℕ → ℕ
spent p allow n = n * p.window
spent p _ n = 0

unfoldable pub total_spent : Params → List Request → List RateDecision → ℕ
total_spent p (q ∷ qs) (d ∷ ds) = spent p d q.messages + total_spent p qs ds
total_spent p _ _ = 0

-- The times of the requests do not go back, and end at `last`.
unfoldable pub AreOrdered : ℕ → List Request → ℕ → Type 0
AreOrdered now [] last = now ≡ last
AreOrdered now (q ∷ qs) last = (now ≤ q.time) × AreOrdered q.time qs last

decide-spent :
    (p : Params) (tokens recent n : ℕ) (c : Bool)
    → p.enabled ≡ true
    → spent p (decide_from_counts p tokens recent n c).0 n
        + (decide_from_counts p tokens recent n c).1
      ≡ tokens
unfolding decide_from_counts
decide-spent p tokens recent n c e = ground arith

tokens-slide : (p : Params) (now : ℕ) (row : Workload) → (slide p now row).tokens ≡ row.tokens
unfolding slide
tokens-slide p now row = ground arith

least-le : (a b : ℕ) → least a b ≤ b
least-le a b = ground arith

tokens-refill :
    (p : Params) (now t0 : ℕ) (row : Workload)
    → row.last_refill_at ≡ some t0
    → (refill p now row).tokens ≤ row.tokens + (now - t0) * p.sustained
unfolding refill
tokens-refill p now t0 row h =
    rw h (least-le (p.burst * p.window) (row.tokens + (now - t0) * p.sustained))

AreOrdered-le : (now : ℕ) (qs : List Request) (last : ℕ) → AreOrdered now qs last → now ≤ last
unfolding AreOrdered
AreOrdered-le now [] last h = omega arith
AreOrdered-le now (q ∷ qs) last h = let rest = AreOrdered-le q.time qs last h.1 in omega arith

elapsed_trans : (a b c s : ℕ) → a ≤ b → b ≤ c → (b - a) * s + (c - b) * s ≡ (c - a) * s
elapsed_trans a b c s h k =
    let sum : (b - a) + (c - b) ≡ c - a = omega arith in
    sym (add-mul (b - a) (c - b) s) ∙ ap (λ n. n * s) sum

spent-decide_row :
    (p : Params) (now n t0 : ℕ) (row : Workload)
    → p.enabled ≡ true
    → row.last_refill_at ≡ some t0
    → spent p (decide_row p now n row).0 n + (decide_row p now n row).1.tokens
      ≤ row.tokens + (now - t0) * p.sustained
unfolding decide_row record_decision
spent-decide_row p now n t0 row e h =
    let d =
      decide-spent p (slide p now (refill p now row)).tokens
        (slide p now (refill p now row)).window_count n
        (in_cooldown now (slide p now (refill p now row)).cooldown_until) e in
    let s = tokens-slide p now (refill p now row) in
    let f = tokens-refill p now t0 row h in omega arith

last-decide_row :
    (p : Params) (now n : ℕ) (row : Workload) → (decide_row p now n row).1.last_refill_at ≡ some now
unfolding decide_row record_decision slide refill
last-decide_row p now n row = ground arith

-- With the protection enabled, over any stretch of requests whose times do not go back from the last
-- refill on, what is allowed (in messages times the window) together with the tokens that are left is
-- at most the tokens at the start and the refill of the time that has passed.
pub decide_all_bucket :
    (p : Params) (qs : List Request) (row : Workload) (t0 last : ℕ)
    → p.enabled ≡ true
    → row.last_refill_at ≡ some t0
    → AreOrdered t0 qs last
    → total_spent p qs (decide_all p qs row).0 + (decide_all p qs row).1.tokens
      ≤ row.tokens + (last - t0) * p.sustained
unfolding decide_all total_spent AreOrdered
decide_all_bucket p [] row t0 last e h o = omega arith
decide_all_bucket p (q ∷ qs) row t0 last e h o =
    let one = spent-decide_row p q.time q.messages t0 row e h in
    let rest =
      decide_all_bucket p qs (decide_row p q.time q.messages row).1 q.time last e
        (last-decide_row p q.time q.messages row) o.1 in
    let later = AreOrdered-le q.time qs last o.1 in
    let time = elapsed_trans t0 q.time last p.sustained o.0 later in omega arith
