-- ===== src/Publishing/Numbers.antt =====
-- The revision numbers of a surface, and what the writes of wax/surfaces/service.py do to them.
use waza.Prelude.{
  ℕ, zero, suc, ◌+◌, ◌<◌, ◌≡◌, refl, sym, ap, subst, ◌∙◌, ◌==◌, ==_iff, Bool, true, false, ◌||◌,
  Option, none, some, List, [], ◌∷◌, ◌++◌, map, any, rows_where, if◌then◌else◌, is_some, or_else,
  ltb, Bool-cases, inl, inr, arith,
}
use waza.Prelude.Table.{find, store, find-store, find-store_found, key-find}
use waza.Prelude.Text.{Text}
use waza.Surface.{Policy}
use waza.Publishing.{
  State, Surface, Revision, Change, has_revision, write_revision, current_or, on_row, write_row,
  edit, touch, mismatch, dict_update, max_state_json_bytes,
}
use waza.Publishing.States.{
  read_revision, Write, claim_state, set_state, patch_state, set_to, patched_by, write_state,
}

-- The revision numbers of a surface, in the order of the table.
abbrev pub numbers : ℕ → List Revision → List ℕ
numbers id revisions = map (λ r. r.revision) (rows_where (λ r. r.surface_id == id) revisions)

abbrev pub from_one : ℕ → List ℕ
from_one zero = []
from_one (suc n) = from_one n ++ (suc n ∷ [])

pub numbers-add :
    (id : ℕ) (r : Revision) (revisions : List Revision)
    → numbers id (revisions ++ (r ∷ [])) ≡ (
        if r.surface_id == id
        then numbers id revisions ++ (r.revision ∷ [])
        else numbers id revisions)
numbers-add id r [] = ground arith
numbers-add id r (x ∷ xs) = ground (arith, numbers-add id r xs)

any-add : (p : ℕ → Bool) (xs : List ℕ) (n : ℕ) → any p (xs ++ (n ∷ [])) ≡ (any p xs || p n)
any-add p [] n = ground arith
any-add p (x ∷ xs) n = ground (arith, any-add p xs n)

-- A number above the count is not yet there.
above_from_one : (n k : ℕ) → n < k → any (λ m. m == k) (from_one n) ≡ false
above_from_one zero k h = refl
above_from_one (suc n) k h =
    rw (any-add (λ m. m == k) (from_one n) (suc n), above_from_one n k (omega arith)) (ground arith)

has_revision-numbers :
    (id k : ℕ) (revisions : List Revision)
    → has_revision id k revisions ≡ any (λ m. m == k) (numbers id revisions)
has_revision-numbers id k [] = refl
has_revision-numbers id k (r ∷ rs) = ground (arith, has_revision-numbers id k rs)

-- The next number is free, so that a revision that is stored is written.
pub write_revision-next :
    (id n : ℕ) (html : Text) (revisions : List Revision)
    → numbers id revisions ≡ from_one n
    → write_revision true id n html revisions
      ≡ some (revisions ++ (record { surface_id = id; revision = n + 1; html = html } ∷ []))
unfolding write_revision
write_revision-next id n html revisions h =
    let free : has_revision id (n + 1) revisions ≡ false =
      has_revision-numbers id (n + 1) revisions
      ∙ ap (any (λ m. m == n + 1)) h
      ∙ above_from_one n (n + 1) (omega arith) in
    rw free refl

module _ {V : Type 0} where
  abbrev pub current : ℕ → List (Surface V) → ℕ
  current id rows = current_or 0 (find (λ y. y.id) id rows)

  -- Writing a row in place of the one with its id.
  current-store :
      (k : ℕ) (x y : Surface V) (rows : List (Surface V))
      → find (λ z. z.id) x.id rows ≡ some x
      → y.id ≡ x.id
      → current k (store (λ z. z.id) y rows)
        ≡ (if x.id == k then y.current_revision else current k rows)
  current-store k x y rows f i = elim (Bool-cases (x.id == k)) [
    | inl t ↦
        let e = (==_iff x.id k).0 t in
        let here = subst (λ j. find (λ z. z.id) j rows ≡ some x) e f in
        rw (t, find-store_found (λ z. z.id) y k rows here (i ∙ e)) refl
    | inr t ↦ rw (find-store (λ z. z.id) y k rows, ap (λ j. j == k) i, t) refl
  ]

  -- A write that keeps the id and the revision number of the row keeps all revision numbers.
  current-write_row :
      (k id : ℕ) (snap : Surface V) (f : Surface V → Surface V) (o : Option (Surface V))
      (rows : List (Surface V))
      → find (λ z. z.id) id rows ≡ o
      → ((x : Surface V) → ((f x).id ≡ x.id) × ((f x).current_revision ≡ x.current_revision))
      → current k (write_row snap f o rows) ≡ current k rows
  current-write_row k id snap f none rows e keep = refl
  current-write_row k id snap f (some x) rows e keep =
      let here =
        subst (λ j. find (λ z. z.id) j rows ≡ some x) (sym (key-find (λ z. z.id) id rows e)) e in
      current-store k x (f x) rows here (keep x).0 ∙ (elim (Bool-cases (x.id == k)) [
        | inl t ↦
            let there = subst (λ j. find (λ z. z.id) j rows ≡ some x) ((==_iff x.id k).0 t) here in
            rw (t, there) (keep x).1
        | inr t ↦ rw t refl
      ])

  pub current-on_row :
      (k : ℕ) (snap : Surface V) (f : Surface V → Surface V) (rows : List (Surface V))
      → ((x : Surface V) → ((f x).id ≡ x.id) × ((f x).current_revision ≡ x.current_revision))
      → current k (on_row snap f rows) ≡ current k rows
  unfolding on_row
  current-on_row k snap f rows keep =
      current-write_row k snap.id snap f (find (λ z. z.id) snap.id rows) rows refl keep

  pub current-edit :
      (state_bytes : State V → ℕ) (policy : Policy) (now : ℕ) (c : Change V) (k : ℕ)
      (snap : Surface V) (rows : List (Surface V))
      → current k (on_row snap (edit state_bytes policy now c snap) rows) ≡ current k rows
  unfolding edit
  current-edit state_bytes policy now c k snap rows =
      current-on_row k snap (edit state_bytes policy now c snap) rows (λ x. (refl, refl))

  pub current-touch :
      (now k : ℕ) (snap : Surface V) (rows : List (Surface V))
      → current k (on_row snap (touch now snap) rows) ≡ current k rows
  unfolding touch
  current-touch now k snap rows = current-on_row k snap (touch now snap) rows (λ x. (refl, refl))

  -- The write that ends an update of the html: it gives the row its next number.
  pub current-claim :
      (now n k : ℕ) (snap : Surface V) (o : Option (Surface V)) (rows : List (Surface V))
      → find (λ z. z.id) snap.id rows ≡ o
      → is_some o ≡ true
      → current k (write_row snap (λ x. touch now snap (record x { current_revision = n })) o rows)
        ≡ (if snap.id == k then n else current k rows)
  unfolding touch
  current-claim now n k snap none rows e h = absurd (ground arith)
  current-claim now n k snap (some x) rows e h =
      let i = key-find (λ z. z.id) snap.id rows e in
      let here = subst (λ j. find (λ z. z.id) j rows ≡ some x) (sym i) e in
      current-store k x (touch now snap (record x { current_revision = n })) rows here refl
      ∙ ap (λ j. if j == k then n else current k rows) i

  current-claim_state :
      (now read base k id : ℕ) (st : State V) (o : Option (Surface V)) (rows : List (Surface V))
      → find (λ z. z.id) id rows ≡ o
      → current k (claim_state now read base st o rows).0 ≡ current k rows
  unfolding claim_state
  current-claim_state now read base k id st none rows e = refl
  current-claim_state now read base k id st (some x) rows e =
      elim (Bool-cases (x.state_revision == base)) [
        | inl t ↦ rw t (
            current-write_row k id x
              (λ y. record y { state_json = st; state_revision = base + 1; last_activity_at = now })
              (some x) rows e (λ y. (refl, refl)))
        | inr t ↦ rw t refl
      ]

  current-set_state :
      (column : Bool) (state_bytes : State V → ℕ) (now k : ℕ) (st : State V) (expected : Option ℕ)
      (snap : Surface V) (rows : List (Surface V))
      → current k (set_state column state_bytes now st expected snap rows).0 ≡ current k rows
  unfolding set_state
  current-set_state column state_bytes now k st expected snap rows =
      elim (Bool-cases (ltb max_state_json_bytes (state_bytes st))) [
        | inl t ↦ rw t refl
        | inr t ↦ elim (Bool-cases column) [
          | inl u ↦
              rw (t, u)
                (current-claim_state now snap.state_revision (or_else expected snap.state_revision)
                  k snap.id st (find (λ z. z.id) snap.id rows) rows refl)
          | inr u ↦ rw (t, u) refl
        ]
      ]

  pub current-write_state :
      (column : Bool) (state_bytes : State V → ℕ) (now k : ℕ) (w : Write V) (snap : Surface V)
      (rows : List (Surface V))
      → current k (write_state column state_bytes now w snap rows).0 ≡ current k rows
  unfolding patch_state
  current-write_state column state_bytes now k (set_to st expected) snap rows =
      current-set_state column state_bytes now k st expected snap rows
  current-write_state column state_bytes now k (patched_by patch expected) snap rows =
      elim (Bool-cases (mismatch expected (read_revision column state_bytes snap))) [
        | inl t ↦ rw t refl
        | inr t ↦ rw t (
            current-set_state column state_bytes now k (dict_update snap.state_json patch)
              (some (read_revision column state_bytes snap)) snap rows)
      ]
