-- ===== src/Rate/Window.antt =====
-- The bounds that a workload row keeps.
use waza.Prelude.{ℕ, ◌+◌, ◌*◌, ◌≤◌, ◌≡◌, Bool, true, List, [], ◌∷◌, if◌then◌else◌, arith}
use waza.Rate.{
  Params, Workload, new_workload, decide_from_counts, refill, slide, record_decision, decide_row,
  in_cooldown, counts,
}
use waza.Rate.Bucket.{Request, decide_all}

-- At most the burst is in the bucket, and at most `queue_limit` messages are in the window.
abbrev pub InBounds : Params → Workload → Type 0
InBounds p row = (row.tokens ≤ p.burst * p.window) × (row.window_count ≤ p.queue_limit)

tokens_bound :
    (p : Params) (now : ℕ) (row : Workload) → (refill p now row).tokens ≤ p.burst * p.window
unfolding refill
tokens_bound p now row = ground arith

InBounds-slide :
    (p : Params) (now : ℕ) (row : Workload) → InBounds p row → InBounds p (slide p now row)
unfolding slide
InBounds-slide p now row h = ground arith

InBounds-refill :
    (p : Params) (now : ℕ) (row : Workload) → InBounds p row → InBounds p (refill p now row)
unfolding refill
InBounds-refill p now row h = (ground arith, h.1)

decide-bounds :
    (p : Params) (tokens recent n : ℕ) (c : Bool)
    → p.enabled ≡ true
    → recent ≤ p.queue_limit
    → ((decide_from_counts p tokens recent n c).1 ≤ tokens)
      × ((if counts (decide_from_counts p tokens recent n c).0 then recent + n else recent)
          ≤ p.queue_limit)
unfolding decide_from_counts
decide-bounds p tokens recent n c e h = ground arith

InBounds-decide_row :
    (p : Params) (now n : ℕ) (row : Workload)
    → p.enabled ≡ true
    → InBounds p row
    → InBounds p (decide_row p now n row).1
unfolding decide_row record_decision
InBounds-decide_row p now n row e h =
    let ready = InBounds-slide p now (refill p now row) (InBounds-refill p now row h) in
    let d =
      decide-bounds p (slide p now (refill p now row)).tokens
        (slide p now (refill p now row)).window_count n
        (in_cooldown now (slide p now (refill p now row)).cooldown_until) e ready.1 in
    (omega arith, d.1)

InBounds-decide_all :
    (p : Params) (qs : List Request) (row : Workload)
    → p.enabled ≡ true
    → InBounds p row
    → InBounds p (decide_all p qs row).1
unfolding decide_all
InBounds-decide_all p [] row e h = h
InBounds-decide_all p (q ∷ qs) row e h =
    InBounds-decide_all p qs (decide_row p q.time q.messages row).1 e
      (InBounds-decide_row p q.time q.messages row e h)

-- With the protection enabled, after any requests on a row that was just created, in any order of
-- times, the bucket holds at most the burst and the window counts at most `queue_limit` messages.
decide_all_bounds :
    (p : Params) (qs : List Request) (now : ℕ)
    → p.enabled ≡ true
    → ((decide_all p qs (new_workload p now)).1.tokens ≤ p.burst * p.window)
      × ((decide_all p qs (new_workload p now)).1.window_count ≤ p.queue_limit)
decide_all_bounds p qs now e =
    InBounds-decide_all p qs (new_workload p now) e (omega arith, omega arith)
