-- ===== src/Interaction/Expiry.antt =====
-- The expiry sweep: an interaction is reported as expired at most once, and one that is settled never.
use waza.Prelude.{
  ℕ, ◌≡◌, refl, sym, Bool, true, false, ◌&&◌, ◌++◌, not, Option, List, [], ◌∷◌, ◌==◌, ==_iff,
  due_by, All, All-imp, All-append, All-of, ◌∙◌, arith, inl, inr, Bool-cases, and_true,
}
use waza.Prelude.Table.{All-store_each}
use waza.Prelude.Rows.{In, All-select_both}
use waza.Prelude.Sweep.{sweep_marks}
use waza.Prelude.Text.{Text}
use waza.Publishing.Requests.{change_at}
use waza.Interaction.{
  Interaction, Outcome, consumed_now, forbidden, expired_now, already_consumed, not_pending,
  flushed, consume_row, consume, is_pending, due, expire_due, expire, expires_first,
}

-- What happens to the table: a tap on an interaction, or a sweep.
pub data Event : Type 0 where
  tap : Interaction → Option Text → ℕ → ℕ → Event
  sweep : (Interaction → Bool) → ℕ → ℕ → Event

-- The table after the events, and all interactions that the sweeps returned.
unfoldable pub run : List Event → List Interaction → List Interaction × List Interaction
run [] rows = (rows, [])
run (tap ix choice principal now ∷ es) rows = run es (consume ix choice principal now rows).0
run (sweep locked now limit ∷ es) rows =
    let (rows', found) = expire_due locked now limit rows in
    let rest = run es rows' in (rest.0, found ++ rest.1)

-- No row with the key `j` is pending.
abbrev pub Settled : ℕ → List Interaction → Type 0
Settled j rows = All (λ y. y.id ≡ j → is_pending y.status ≡ false) rows

flushed_stays :
    (now : ℕ) (ix : Interaction) (o : Outcome) (d : Interaction)
    → is_pending d.status ≡ false
    → is_pending (flushed now ix o d).status ≡ false
unfolding flushed
flushed_stays now ix (consumed_now c) d h = refl
flushed_stays now ix forbidden d h = h
flushed_stays now ix expired_now d h = ground (arith, h)
flushed_stays now ix (already_consumed c) d h = h
flushed_stays now ix (not_pending t) d h = h

id-flushed :
    (now : ℕ) (ix : Interaction) (o : Outcome) (d : Interaction) → (flushed now ix o d).id ≡ d.id
unfolding flushed
id-flushed now ix (consumed_now c) d = refl
id-flushed now ix forbidden d = refl
id-flushed now ix expired_now d = ground arith
id-flushed now ix (already_consumed c) d = refl
id-flushed now ix (not_pending t) d = refl

Settled-flushed :
    (j id now : ℕ) (ix : Interaction) (o : Outcome) (rows : List Interaction)
    → Settled j rows
    → Settled j (change_at (λ x. x.id) id (flushed now ix o) rows)
unfolding change_at
Settled-flushed j id now ix o [] h = tt
Settled-flushed j id now ix o (x ∷ xs) h = elim (Bool-cases (x.id == id)) [
  | inl t ↦ rw t (
    λ e. flushed_stays now ix o x (h.0 (sym (id-flushed now ix o x) ∙ e)),
    Settled-flushed j id now ix o xs h.1,
  )
  | inr t ↦ rw t (h.0, Settled-flushed j id now ix o xs h.1)
]

-- A tap, on whatever copy, makes no row pending.
pub Settled-consume :
    (j : ℕ) (choice : Option Text) (p now : ℕ) (ix : Interaction) (rows : List Interaction)
    → Settled j rows
    → Settled j (consume ix choice p now rows).0
unfolding consume
Settled-consume j choice p now ix rows h =
    Settled-flushed j ix.id now ix (consume_row choice p now ix).1 rows h

Settled-expire_due :
    (j : ℕ) (locked : Interaction → Bool) (now limit : ℕ) (rows : List Interaction)
    → Settled j rows
    → Settled j (expire_due locked now limit rows).0
unfolding expire_due
Settled-expire_due j locked now limit rows h =
    All-store_each (λ y. y.id ≡ j → is_pending y.status ≡ false) (λ x. x.id) expire
      (due locked now limit rows) rows (All-of _ (due locked now limit rows) (λ x e. refl)) h

found_were_pending :
    (j : ℕ) (locked : Interaction → Bool) (now limit : ℕ) (rows : List Interaction)
    → Settled j rows
    → All (λ y. (y.id == j) ≡ false) (expire_due locked now limit rows).1
unfolding expire_due due
found_were_pending j locked now limit rows h =
    let p : Interaction → Bool =
      λ ix. (is_pending ix.status && due_by ix.expires_at now) && not (locked ix) in
    All-imp (λ y. (p y ≡ true) × (y.id ≡ j → is_pending y.status ≡ false))
      (λ y. (y.id == j) ≡ false) (due locked now limit rows)
      (λ y t. elim (Bool-cases (y.id == j)) [
        | inl e ↦
            let was =
              and_true (is_pending y.status) (due_by y.expires_at now)
                (and_true (is_pending y.status && due_by y.expires_at now) (not (locked y))
                  t.0).0 in
            let is_not = t.1 ((==_iff y.id j).0 e) in cc
        | inr e ↦ e
      ])
      (All-select_both (λ y. y.id ≡ j → is_pending y.status ≡ false) p expires_first limit rows h)

-- Once the row of an interaction is not pending, no sweep returns it, whatever taps and sweeps follow.
pub Settled-is_silent :
    (j : ℕ) (es : List Event) (rows : List Interaction)
    → Settled j rows
    → All (λ y. (y.id == j) ≡ false) (run es rows).1
unfolding run
Settled-is_silent j [] rows h = tt
Settled-is_silent j (tap ix choice p now ∷ es) rows h =
    Settled-is_silent j es (consume ix choice p now rows).0
      (Settled-consume j choice p now ix rows h)
Settled-is_silent j (sweep locked now limit ∷ es) rows h =
    All-append (λ y. (y.id == j) ≡ false) (expire_due locked now limit rows).1
      (run es (expire_due locked now limit rows).0).1 (found_were_pending j locked now limit rows h)
      (Settled-is_silent j es (expire_due locked now limit rows).0
        (Settled-expire_due j locked now limit rows h))

-- An interaction that a sweep returned as expired is returned by no later sweep, whatever taps and
-- sweeps come in between.
expire_due_once :
    (locked : Interaction → Bool) (now limit : ℕ) (rows : List Interaction) (x : Interaction)
    (es : List Event)
    → In x (expire_due locked now limit rows).1
    → All (λ y. (y.id == x.id) ≡ false) (run es (expire_due locked now limit rows).0).1
unfolding expire_due
expire_due_once locked now limit rows x es m =
    Settled-is_silent x.id es (expire_due locked now limit rows).0 (
      sweep_marks (λ y. y.id) expire (λ y. refl) (λ y. is_pending y.status ≡ false) (λ y. refl) x
        (due locked now limit rows) rows m)
