-- ===== src/Scheduler/Series.antt =====
-- `schedule_series`: it never fails, it keeps to its bounds, and repeating it creates nothing.
use waza.Prelude.{
  ℕ, zero, suc, ◌+◌, ◌≤◌, ◌≡◌, inl, inr, refl, sym, ◌∙◌, ap, true, Option, none, some, List, [],
  ◌++◌, ==_refl, Bool-cases, length, All, All-append, length-append, or_else, subst, is_some, arith,
}
use waza.Prelude.Text.{text_eq_refl}
use waza.Scheduler.{
  Action, ActionKey, given, generated, series, SeriesRequest, key_eq, has_key, schedule,
  occurrence_key, schedule_occurrence, joined, and_then, series_loop, schedule_series,
  series_count_of, max_series_occurrences, is_pending,
}

key_eq_refl : (k : ActionKey) → key_eq k k ≡ true
key_eq_refl (given a) = text_eq_refl a
key_eq_refl (generated p a t n) = rw (==_refl p, text_eq_refl a, ==_refl t, ==_refl n) refl
key_eq_refl (series p a t n) = rw (==_refl p, text_eq_refl a, ==_refl t, ==_refl n) refl

-- A step of the loop always has a result.
abbrev Returns : Option (List Action × List Action) → Type 0
Returns o = is_some o ≡ true

occurrence-Returns :
    (fresh : ℕ → ℕ) (r : SeriesRequest) (i : ℕ) (rows : List Action)
    → Returns (schedule_occurrence fresh r i rows)
unfolding schedule_occurrence schedule
occurrence-Returns fresh r i rows = elim (Bool-cases (has_key (occurrence_key r i) rows)) [
  | inl e ↦ rw e refl
  | inr e ↦ rw e refl
]

and_then-Returns :
    (o : Option (List Action × List Action)) (k : List Action → Option (List Action × List Action))
    → Returns o
    → ((rows : List Action) → Returns (k rows))
    → Returns (and_then o k)
unfolding and_then
and_then-Returns none k h f = h
and_then-Returns (some s) k h f = ground (arith, f s.1)

loop-Returns :
    (fresh : ℕ → ℕ) (r : SeriesRequest) (i n : ℕ) (rows : List Action)
    → Returns (series_loop fresh r i n rows)
unfolding series_loop
loop-Returns fresh r i zero rows = refl
loop-Returns fresh r i (suc n) rows =
    and_then-Returns (schedule_occurrence fresh r i rows)
      (λ rest. series_loop fresh r (i + 1) n rest) (occurrence-Returns fresh r i rows)
      (λ rest. loop-Returns fresh r (i + 1) n rest)

-- The parts of a chain that has a result.
and_then_parts :
    (o : Option (List Action × List Action)) (k : List Action → Option (List Action × List Action))
    (c rows : List Action)
    → and_then o k ≡ some (c, rows)
    → (s : List Action × List Action) × (t : List Action) × (o ≡ some s)
      × (k s.1 ≡ some (t, rows))
      × (c ≡ s.0 ++ t)
unfolding and_then
and_then_parts none k c rows h = ground arith
and_then_parts (some s) k c rows h = go (k s.1) refl h
  where
    go :
        (x : Option (List Action × List Action))
        → k s.1 ≡ x
        → joined s.0 x ≡ some (c, rows)
        → (s' : List Action × List Action) × (t : List Action) × (some s ≡ some s')
          × (k s'.1 ≡ some (t, rows))
          × (c ≡ s'.0 ++ t)
    go none e g = ground arith
    go (some t) e g = (s, t.0, refl, ground arith, ground arith)

-- Occurrences `i` to `i + n - 1` of the series are in the table.
abbrev Covered : SeriesRequest → ℕ → ℕ → List Action → Type 0
Covered r i zero rows = Unit
Covered r i (suc n) rows = (has_key (occurrence_key r i) rows ≡ true) × Covered r (i + 1) n rows

has_key-occurrence :
    (fresh : ℕ → ℕ) (r : SeriesRequest) (i : ℕ) (rows : List Action) (s : List Action × List Action)
    (k : ActionKey)
    → schedule_occurrence fresh r i rows ≡ some s
    → has_key k rows ≡ true
    → has_key k s.1 ≡ true
unfolding schedule_occurrence schedule has_key
has_key-occurrence fresh r i rows s k e h = ground arith

has_key-occurrence_own :
    (fresh : ℕ → ℕ) (r : SeriesRequest) (i : ℕ) (rows : List Action) (s : List Action × List Action)
    → schedule_occurrence fresh r i rows ≡ some s
    → has_key (occurrence_key r i) s.1 ≡ true
unfolding schedule_occurrence schedule has_key
has_key-occurrence_own fresh r i rows s e = ground (arith, key_eq_refl (occurrence_key r i))

has_key-loop :
    (fresh : ℕ → ℕ) (r : SeriesRequest) (i n : ℕ) (rows c rows' : List Action) (k : ActionKey)
    → series_loop fresh r i n rows ≡ some (c, rows')
    → has_key k rows ≡ true
    → has_key k rows' ≡ true
unfolding series_loop
has_key-loop fresh r i zero rows c rows' k e h = ground arith
has_key-loop fresh r i (suc n) rows c rows' k e h =
    let (s, t, now, rest, _) =
      and_then_parts (schedule_occurrence fresh r i rows)
        (λ left. series_loop fresh r (i + 1) n left) c rows' e in
    has_key-loop fresh r (i + 1) n s.1 t rows' k rest (has_key-occurrence fresh r i rows s k now h)

loop_covers :
    (fresh : ℕ → ℕ) (r : SeriesRequest) (i n : ℕ) (rows c rows' : List Action)
    → series_loop fresh r i n rows ≡ some (c, rows')
    → Covered r i n rows'
unfolding series_loop
loop_covers fresh r i zero rows c rows' e = tt
loop_covers fresh r i (suc n) rows c rows' e =
    let (s, t, now, rest, _) =
      and_then_parts (schedule_occurrence fresh r i rows)
        (λ left. series_loop fresh r (i + 1) n left) c rows' e in
    (
      has_key-loop fresh r (i + 1) n s.1 t rows' (occurrence_key r i) rest
          (has_key-occurrence_own fresh r i rows s now),
      loop_covers fresh r (i + 1) n s.1 t rows' rest,
    )

occurrence_skipped :
    (fresh : ℕ → ℕ) (r : SeriesRequest) (i : ℕ) (rows : List Action)
    → has_key (occurrence_key r i) rows ≡ true
    → schedule_occurrence fresh r i rows ≡ some ([], rows)
unfolding schedule_occurrence
occurrence_skipped fresh r i rows h = rw h refl

-- The two requests name the same series.
abbrev pub SameSeries : SeriesRequest → SeriesRequest → Type 0
SameSeries r r' =
    (r.principal ≡ r'.principal) × (r.action_type ≡ r'.action_type) × (r.first_at ≡ r'.first_at)

loop_skips :
    (fresh : ℕ → ℕ) (r r' : SeriesRequest) (i m n : ℕ) (rows : List Action)
    → SameSeries r r'
    → m ≤ n
    → Covered r i n rows
    → series_loop fresh r' i m rows ≡ some ([], rows)
unfolding series_loop and_then
loop_skips fresh r r' i zero n rows same le h = refl
loop_skips fresh r r' i (suc m) zero rows same le h = absurd (omega arith)
loop_skips fresh r r' i (suc m) (suc n) rows same le h =
    let key : occurrence_key r i ≡ occurrence_key r' i = rw (same.0, same.1, same.2) refl in
    rw
      (
        occurrence_skipped fresh r' i rows (ap (λ k. has_key k rows) (sym key) ∙ h.0),
        loop_skips fresh r r' (i + 1) m n rows same (omega arith) h.1,
      )
      refl

-- Asking again for a series that was scheduled (same principal, type and first time), with no more
-- occurrences than before and whatever the interval, the reason and the payload now are, creates
-- nothing and changes nothing.
pub schedule_series_again :
    (fresh fresh' : ℕ → ℕ) (r r' : SeriesRequest) (rows c rows' : List Action)
    → schedule_series fresh r rows ≡ some (c, rows')
    → SameSeries r r'
    → series_count_of r'.count ≤ series_count_of r.count
    → schedule_series fresh' r' rows' ≡ some ([], rows')
unfolding schedule_series
schedule_series_again fresh fresh' r r' rows c rows' e same le =
    loop_skips fresh' r r' 0 (series_count_of r'.count) (series_count_of r.count) rows' same le
      (loop_covers fresh r 0 (series_count_of r.count) rows c rows' e)

-- An action that the series may have created: pending, its principal's, not before the first time.
abbrev pub FromSeries : SeriesRequest → Action → Type 0
FromSeries r a =
    (a.principal_id ≡ r.principal) × (is_pending a.status ≡ true) × (r.first_at ≤ a.execute_at)

-- What a part of the loop with `n` rounds adds to the table.
abbrev pub Adds : SeriesRequest → ℕ → List Action → List Action → List Action → Type 0
Adds r n rows c rows' =
    (length c ≤ n) × (length rows' ≡ length c + length rows) × All (FromSeries r) c

occurrence-Adds :
    (fresh : ℕ → ℕ) (r : SeriesRequest) (i : ℕ) (rows : List Action) (s : List Action × List Action)
    → schedule_occurrence fresh r i rows ≡ some s
    → Adds r 1 rows s.0 s.1
unfolding schedule_occurrence schedule
occurrence-Adds fresh r i rows s e = elim (Bool-cases (has_key (occurrence_key r i) rows)) [
  | inl t ↦
      let same : some ([], rows) ≡ some s = (rw t at e) in
      subst (λ x. Adds r 1 rows x.0 x.1) (ap (λ o. or_else o ([], rows)) same)
        (omega arith, omega arith, tt)
  | inr t ↦
      subst (λ x. Adds r 1 rows x.0 x.1) (ap (λ o. or_else o ([], rows)) (rw t at e))
        (omega arith, omega arith, ((refl, refl, omega arith), tt))
]

loop-Adds :
    (fresh : ℕ → ℕ) (r : SeriesRequest) (i n : ℕ) (rows c rows' : List Action)
    → series_loop fresh r i n rows ≡ some (c, rows')
    → Adds r n rows c rows'
unfolding series_loop
loop-Adds fresh r i zero rows c rows' e =
    subst (λ x. Adds r 0 rows x.0 x.1) (ap (λ o. or_else o ([], rows)) e)
      (omega arith, omega arith, tt)
loop-Adds fresh r i (suc n) rows c rows' e =
    let (s, t, now, rest, split) =
      and_then_parts (schedule_occurrence fresh r i rows)
        (λ left. series_loop fresh r (i + 1) n left) c rows' e in
    let (few, sum, good) = occurrence-Adds fresh r i rows s now in
    let (few', sum', good') = loop-Adds fresh r (i + 1) n s.1 t rows' rest in
    let len : length c ≡ length s.0 + length t = ap length split ∙ length-append s.0 t in
    (
      omega arith,
      omega arith,
      subst (All (FromSeries r)) (sym split) (All-append (FromSeries r) s.0 t good good'),
    )

result_of :
    (o : Option (List Action × List Action))
    → Returns o
    → (c : List Action) × (rows : List Action) × (o ≡ some (c, rows))
result_of none h = ground arith
result_of (some s) h = (s.0, s.1, refl)

-- A series is always scheduled, without a conflict on the unique key, whatever is in the table. It
-- adds at most 30 actions, and they are pending, the principal's, and not before the first time.
schedule_series_adds :
    (fresh : ℕ → ℕ) (r : SeriesRequest) (rows : List Action)
    → (c : List Action) × (rows' : List Action) × (schedule_series fresh r rows ≡ some (c, rows'))
      × (length c ≤ max_series_occurrences)
      × (length rows' ≡ length c + length rows)
      × All (FromSeries r) c
unfolding schedule_series
schedule_series_adds fresh r rows =
    let (c, rows', e) =
      result_of (series_loop fresh r 0 (series_count_of r.count) rows)
        (loop-Returns fresh r 0 (series_count_of r.count) rows) in
    let (few, sum, good) = loop-Adds fresh r 0 (series_count_of r.count) rows c rows' e in
    let cap : series_count_of r.count ≤ max_series_occurrences = ground arith in
    (c, rows', e, omega arith, sum, good)
