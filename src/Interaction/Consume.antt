-- ===== src/Interaction/Consume.antt =====
-- Taps that come one after another: how often an interaction is consumed.
use waza.Prelude.{
  ℕ, ◌+◌, ◌≤◌, ◌≡◌, refl, sym, Bool, true, false, ◌&&◌, and_true, Option, none, some, inl, inr,
  Bool-cases, List, [], ◌∷◌, if◌then◌else◌, ◌==◌, ==_iff, leb, All, subst, arith,
}
use waza.Prelude.Table.{All-select}
use waza.Prelude.Text.{Text}
use waza.Publishing.Requests.{change_at}
use waza.Interaction.{
  Interaction, Outcome, consumed_now, forbidden, expired_now, already_consumed, not_pending,
  consume_row, consume, flushed, find_by_callback, first_match, matches, is_pending, is_listed,
  for_principal,
}
use waza.Interaction.Expiry.{Settled, Settled-consume}

-- A tap: the data of the button, the choice that it stands for, and who taps when.
pub record Tap : Type 0 where
  pub callback_data : Text
  pub choice : Option Text
  pub principal : ℕ
  pub time : ℕ

-- The interaction that was found, and what `consume` answered on it.
abbrev pub Answer : Type 0
Answer = Option (ℕ × Outcome)

abbrev consume_found : Tap → Option Interaction → List Interaction → List Interaction × Answer
consume_found t none rows = (rows, none)
consume_found t (some ix) rows =
    let r = consume ix t.choice t.principal t.time rows in (r.0, some (ix.id, r.1))

-- What a message handler does with a tap, in one transaction.
unfoldable pub tap : Tap → List Interaction → List Interaction × Answer
tap t rows = consume_found t (find_by_callback t.callback_data (some t.principal) rows) rows

unfoldable pub taps : List Tap → List Interaction → List Interaction × List Answer
taps [] rows = (rows, [])
taps (t ∷ ts) rows = let now = tap t rows in let rest = taps ts now.0 in (rest.0, now.1 ∷ rest.1)

abbrev pub is_success : Outcome → Bool
is_success (consumed_now c) = true
is_success _ = false

abbrev pub is_win : ℕ → Answer → Bool
is_win j none = false
is_win j (some (id, o)) = id == j && is_success o

-- How many taps were answered with success on the interaction `j`.
unfoldable pub wins : ℕ → List Answer → ℕ
wins j [] = 0
wins j (a ∷ answers) = let rest = wins j answers in if is_win j a then rest + 1 else rest

consume_row_needs_pending :
    (choice : Option Text) (p now : ℕ) (d : Interaction)
    → is_pending d.status ≡ false
    → is_success (consume_row choice p now d).1 ≡ false
unfolding consume_row
consume_row_needs_pending choice p now d h = ground arith

-- A successful tap leaves no pending row with the id.
success_settles :
    (j now : ℕ) (ix : Interaction) (o : Outcome) (rows : List Interaction)
    → is_success o ≡ true
    → Settled j (change_at (λ x. x.id) j (flushed now ix o) rows)
unfolding change_at flushed
success_settles j now ix o [] h = tt
success_settles j now ix forbidden (x ∷ xs) h = cc
success_settles j now ix expired_now (x ∷ xs) h = cc
success_settles j now ix (already_consumed c) (x ∷ xs) h = cc
success_settles j now ix (not_pending t) (x ∷ xs) h = cc
success_settles j now ix (consumed_now c) (x ∷ xs) h = elim (Bool-cases (x.id == j)) [
  | inl t ↦ rw t (λ e. refl, success_settles j now ix (consumed_now c) xs h)
  | inr t ↦ rw t (
    λ e. let u = (==_iff x.id j).1 e in cc (t, u),
    success_settles j now ix (consumed_now c) xs h,
  )
]

All-first_match :
    (P : Interaction → Type 0) (d : Text) (rows : List Interaction) (ix : Interaction)
    → first_match d rows ≡ some ix
    → All P rows
    → P ix
All-first_match P d [] ix e h = absurd (ground (arith, e))
All-first_match P d (x ∷ xs) ix e h = elim (Bool-cases (matches d x)) [
  | inl t ↦ let same : x ≡ ix = ground (arith, rw t at e) in subst P same h.0
  | inr t ↦ All-first_match P d xs ix (rw t at e) h.1
]

All-find_by_callback :
    (P : Interaction → Type 0) (d : Text) (p : Option ℕ) (rows : List Interaction)
    (ix : Interaction)
    → find_by_callback d p rows ≡ some ix
    → All P rows
    → P ix
unfolding find_by_callback
All-find_by_callback P d p rows ix e h = All-first_match P d _ ix e (
    All-select P (λ x. is_listed x.status && for_principal p x)
      (λ a b. leb b.created_at a.created_at) 200 rows h)

tap-Settled :
    (j : ℕ) (t : Tap) (rows : List Interaction) (o : Option Interaction)
    → find_by_callback t.callback_data (some t.principal) rows ≡ o
    → Settled j rows
    → Settled j (consume_found t o rows).0 × (is_win j (consume_found t o rows).1 ≡ false)
unfolding consume
tap-Settled j t rows none e h = (h, refl)
tap-Settled j t rows (some ix) e h = (
  Settled-consume j t.choice t.principal t.time ix rows h,
  elim (Bool-cases (ix.id == j)) [
    | inr u ↦ rw u refl
    | inl u ↦
        let over =
          All-find_by_callback (λ x. x.id ≡ j → is_pending x.status ≡ false) t.callback_data
            (some t.principal) rows ix e h ((==_iff ix.id j).0 u) in
        rw (u, consume_row_needs_pending t.choice t.principal t.time ix over) refl
  ],
)

tap_win_settles :
    (j : ℕ) (t : Tap) (rows : List Interaction) (o : Option Interaction)
    → is_win j (consume_found t o rows).1 ≡ true
    → Settled j (consume_found t o rows).0
unfolding consume
tap_win_settles j t rows none h = cc
tap_win_settles j t rows (some ix) h =
    let (same, won) = and_true (ix.id == j) _ h in
    subst
      (λ k. Settled j (
        change_at (λ x. x.id) k (flushed t.time ix (consume_row t.choice t.principal t.time ix).1)
          rows))
      (sym ((==_iff ix.id j).0 same)) (success_settles j t.time ix _ rows won)

no_win_after :
    (j : ℕ) (ts : List Tap) (rows : List Interaction) → Settled j rows → wins j (taps ts rows).1 ≡ 0
unfolding taps wins tap
no_win_after j [] rows h = refl
no_win_after j (t ∷ ts) rows h =
    let (over, lost) =
      tap-Settled j t rows (find_by_callback t.callback_data (some t.principal) rows) refl h in
    rw lost (no_win_after j ts _ over)

-- Of all taps that are handled one after another, each in a transaction that begins when the one before
-- has committed, by anybody, at any times and on any buttons, at most one is answered with success on
-- the same interaction, whatever the table holds.
pub taps_win_once : (j : ℕ) (ts : List Tap) (rows : List Interaction) → wins j (taps ts rows).1 ≤ 1
unfolding taps wins tap
taps_win_once j [] rows = omega arith
taps_win_once j (t ∷ ts) rows =
    let found = find_by_callback t.callback_data (some t.principal) rows in
    elim (Bool-cases (is_win j (consume_found t found rows).1)) [
      | inl e ↦
          let none_left = no_win_after j ts _ (tap_win_settles j t rows found e) in
          rw e (omega arith)
      | inr e ↦ rw e (taps_win_once j ts _)
    ]
