-- ===== src/Publishing/Exclusive.antt =====
-- Each revision of a surface is the base of one accepted html update at most: the claim in `update` of
-- wax/surfaces/service.py.
use waza.Prelude.{
  ℕ, ◌+◌, ◌≤◌, ◌≡◌, ◌≢◌, refl, sym, ap, subst, ◌∙◌, ◌==◌, ==_refl, ==_iff, Bool, true, false,
  Option, none, some, List, ◌∷◌, is_some, or_else, ltb, Bool-cases, inl, inr, arith,
}
use waza.Prelude.Table.{find}
use waza.Prelude.Text.{Text}
use waza.Surface.{Policy, active, failed}
use waza.Publishing.{
  State, Surface, Revision, Db, Change, updated, write_revision, at_revision, on_row, edit,
  finish_write, update_html, update_body, update_row, unextended, max_entry_bytes, utf8_length,
  is_encodable,
}
use waza.Publishing.Create.{
  Creation, already_there, create, create_found, find_key, key_of, is_live, insert_surface,
  new_surface, with_first_revision,
}
use waza.Publishing.Numbers.{
  current, current-edit, current-touch, current-claim, current-write_state,
}
use waza.Publishing.Revisions.{update_row_by, gate_by, current_at, current-new}
use waza.Publishing.Runs.{Run, begin, creates, updates, writes_state}

module _ {V : Type 0} where
  -- What an accepted write did to the number of its surface, and to the others.
  finish_grows :
      (stored : Bool) (now : ℕ) (snap : Surface V) (base k : ℕ) (db : Db V)
      (rows : List (Surface V)) (o : Option (List Revision))
      → ((j : ℕ) → current j rows ≡ current j db.surfaces)
      → current snap.id rows ≡ base
      → is_some (find (λ y. y.id) snap.id rows) ≡ true
      → current k db.surfaces ≤ current k (finish_write stored now snap base db rows o).0.surfaces
  unfolding on_row
  finish_grows false now snap base k db rows none c e s = omega (arith, c k)
  finish_grows true now snap base k db rows none c e s = omega arith
  finish_grows stored now snap base k db rows (some revisions) c e s =
      rw (current-claim now (base + 1) k snap (find (λ y. y.id) snap.id rows) rows refl s)
        (elim (Bool-cases (snap.id == k)) [
          | inl t ↦
              let same = ap (λ j. current j rows) ((==_iff snap.id k).0 t) in
              rw t (omega (arith, same, c k, e))
          | inr t ↦ rw t (omega (arith, c k))
        ])

  update_html_grows :
      (stored : Bool) (principal now : ℕ) (snap : Surface V) (base k : ℕ) (html : Text) (db : Db V)
      (rows : List (Surface V))
      → ((j : ℕ) → current j rows ≡ current j db.surfaces)
      → current k db.surfaces
        ≤ current k (update_html stored principal now snap base html db rows).0.surfaces
  unfolding update_html
  update_html_grows stored principal now snap base k html db rows c =
      let found = find (λ y. y.id) snap.id rows in
      elim (Bool-cases (is_encodable html)) [
        | inr n ↦ rw n (omega (arith, c k))
        | inl n ↦ elim (Bool-cases (ltb max_entry_bytes (utf8_length html))) [
          | inl t ↦ rw (n, t) (omega (arith, c k))
          | inr t ↦ elim (Bool-cases (at_revision principal base found)) [
            | inl u ↦
                let (e, s) = current_at principal base found u in
                rw (n, t, u)
                  (finish_grows stored now snap base k db rows
                    (write_revision stored snap.id base html db.revisions) c e s)
            | inr u ↦ rw (n, t, u) (omega arith)
          ]
        ]
      ]

  update_body_grows :
      (stored : Bool) (principal now : ℕ) (snap : Surface V) (base k : ℕ) (html : Option Text)
      (db : Db V) (rows : List (Surface V))
      → ((j : ℕ) → current j rows ≡ current j db.surfaces)
      → current k db.surfaces
        ≤ current k (update_body stored principal now snap base html db rows).0.surfaces
  update_body_grows stored principal now snap base k none db rows c =
      omega (arith, current-touch now k snap rows, c k)
  update_body_grows stored principal now snap base k (some html) db rows c =
      update_html_grows stored principal now snap base k html db rows c

  update_row_grows :
      (state_bytes : State V → ℕ) (policy : Policy) (stored : Bool) (principal now k : ℕ)
      (c : Change V) (snap : Surface V) (db : Db V)
      → current k db.surfaces
        ≤ current k (update_row state_bytes policy stored principal now c snap db).0.surfaces
  update_row_grows state_bytes policy stored principal now k c snap db =
      update_row_by (λ r. current k db.surfaces ≤ current k r.0.surfaces) state_bytes policy stored
        principal now c snap db (omega arith) (omega arith) (omega arith)
        (λ _. omega (arith, current-edit state_bytes policy now (unextended c) k snap db.surfaces))
        (update_body_grows stored principal now snap
          (or_else c.expected_revision snap.current_revision) k c.html db
          (on_row snap (edit state_bytes policy now c snap) db.surfaces)
          (λ j. current-edit state_bytes policy now c j snap db.surfaces))

  new_grows :
      (k : ℕ) (x : Surface V) (rows : List (Surface V))
      → find (λ y. y.id) x.id rows ≡ none
      → current k rows ≤ current k (x ∷ rows)
  new_grows k x rows f = rw (current-new k x rows) (elim (Bool-cases (x.id == k)) [
    | inl t ↦
        let there = subst (λ j. find (λ z. z.id) j rows ≡ none) ((==_iff x.id k).0 t) f in
        rw (t, there) (omega arith)
    | inr t ↦ rw t (omega arith)
  ])

  first_grows :
      (k : ℕ) (x : Surface V) (db : Db V) (o : Option (List Revision))
      → find (λ y. y.id) x.id db.surfaces ≡ none
      → current k db.surfaces ≤ current k (with_first_revision x db o).0.surfaces
  first_grows k x db none f = new_grows k (record x { status = failed }) db.surfaces f
  first_grows k x db (some revisions) f =
      new_grows k (record x { status = active; current_revision = 1 }) db.surfaces f

  create_found_grows :
      (policy : Policy) (stored : Bool) (now id k : ℕ) (c : Creation V) (db : Db V)
      (o : Option (Surface V))
      → find (λ y. y.id) id db.surfaces ≡ none
      → current k db.surfaces ≤ current k (create_found policy stored now id c db o).0.surfaces
  unfolding insert_surface
  create_found_grows policy stored now id k c db (some x) f = elim (Bool-cases (is_live x.status)) [
    | inl t ↦ rw t (omega arith)
    | inr t ↦ rw t (
        gate_by (λ e. current k db.surfaces ≤ current k e.surfaces) c db (db, already_there x.id)
          (omega arith) (omega arith))
  ]
  create_found_grows policy stored now id k c db none f =
      gate_by (λ e. current k db.surfaces ≤ current k e.surfaces) c db
        (insert_surface policy stored now id c db) (omega arith)
        (first_grows k (new_surface policy now id c) db
          (write_revision stored id 0 c.html db.revisions) f)

  -- The current revision of a surface never falls.
  Run-grows :
      (state_bytes : State V → ℕ) (policy : Policy) (k : ℕ) {start db : Db V}
      → Run state_bytes policy start db
      → current k start.surfaces ≤ current k db.surfaces
  unfolding create
  Run-grows state_bytes policy k begin = omega arith
  Run-grows state_bytes policy k (creates {db} stored now id c f r) = omega (
    arith,
    Run-grows state_bytes policy k r,
    create_found_grows policy stored now id k c db
        (find_key c.principal_id (key_of c.idempotency_key) db.surfaces) f,
  )
  Run-grows state_bytes policy k (updates {db} stored principal now c snap r) = omega (
    arith,
    Run-grows state_bytes policy k r,
    update_row_grows state_bytes policy stored principal now k c snap db,
  )
  Run-grows state_bytes policy k (writes_state {db} column now w snap r) = omega (
    arith,
    Run-grows state_bytes policy k r,
    current-write_state column state_bytes now k w snap db.surfaces,
  )

  -- An accepted html update: its base was the current revision, and the next one is.
  finish_accepted :
      (stored : Bool) (now : ℕ) (snap : Surface V) (base n : ℕ) (db : Db V)
      (rows : List (Surface V)) (o : Option (List Revision))
      → is_some (find (λ y. y.id) snap.id rows) ≡ true
      → (finish_write stored now snap base db rows o).1 ≡ updated n
      → current snap.id (finish_write stored now snap base db rows o).0.surfaces ≡ base + 1
  unfolding on_row
  finish_accepted false now snap base n db rows none s h = absurd (ground (arith, h))
  finish_accepted true now snap base n db rows none s h = absurd (ground (arith, h))
  finish_accepted stored now snap base n db rows (some revisions) s h =
      rw
        (
          current-claim now (base + 1) snap.id snap (find (λ y. y.id) snap.id rows) rows refl s,
          ==_refl snap.id,
        )
        refl

  accepted_html :
      (stored : Bool) (principal now : ℕ) (snap : Surface V) (base n : ℕ) (html : Text) (db : Db V)
      (rows : List (Surface V))
      → ((j : ℕ) → current j rows ≡ current j db.surfaces)
      → (update_html stored principal now snap base html db rows).1 ≡ updated n
      → (current snap.id db.surfaces ≡ base)
        × (current snap.id (update_html stored principal now snap base html db rows).0.surfaces
            ≡ base + 1)
  unfolding update_html
  accepted_html stored principal now snap base n html db rows c h =
      let found = find (λ y. y.id) snap.id rows in
      elim (Bool-cases (is_encodable html)) [
        | inr m ↦ absurd (ground (arith, rw m at h))
        | inl m ↦ elim (Bool-cases (ltb max_entry_bytes (utf8_length html))) [
          | inl t ↦ absurd (ground (arith, rw (m, t) at h))
          | inr t ↦ elim (Bool-cases (at_revision principal base found)) [
            | inl u ↦
                let (e, s) = current_at principal base found u in
                rw (m, t, u)
                  (
                    sym (c snap.id) ∙ e,
                    finish_accepted stored now snap base n db rows
                        (write_revision stored snap.id base html db.revisions) s
                        (rw (m, t, u) at h),
                  )
            | inr u ↦ absurd (ground (arith, rw (m, t, u) at h))
          ]
        ]
      ]

  accepted_body :
      (stored : Bool) (principal now : ℕ) (snap : Surface V) (base n : ℕ) (html : Option Text)
      (db : Db V) (rows : List (Surface V))
      → is_some html ≡ true
      → ((j : ℕ) → current j rows ≡ current j db.surfaces)
      → (update_body stored principal now snap base html db rows).1 ≡ updated n
      → (current snap.id db.surfaces ≡ base)
        × (current snap.id (update_body stored principal now snap base html db rows).0.surfaces
            ≡ base + 1)
  accepted_body stored principal now snap base n none db rows e c h = absurd (ground arith)
  accepted_body stored principal now snap base n (some html) db rows e c h =
      accepted_html stored principal now snap base n html db rows c h

-- The revision that an update takes as its base.
abbrev pub base_of : {V : Type 0} → Change V → Surface V → ℕ
base_of c snap = or_else c.expected_revision snap.current_revision

module _ {V : Type 0} (state_bytes : State V → ℕ) (policy : Policy) where
  accepted :
      (stored : Bool) (principal now n : ℕ) (c : Change V) (snap : Surface V) (db : Db V)
      → is_some c.html ≡ true
      → (update_row state_bytes policy stored principal now c snap db).1 ≡ updated n
      → (current snap.id db.surfaces ≡ base_of c snap)
        × (current snap.id (update_row state_bytes policy stored principal now c snap db).0.surfaces
            ≡ base_of c snap + 1)
  accepted stored principal now n c snap db e =
      update_row_by
        (λ r.
          r.1 ≡ updated n
          → (current snap.id db.surfaces ≡ base_of c snap)
            × (current snap.id r.0.surfaces ≡ base_of c snap + 1))
        state_bytes policy stored principal now c snap db (λ h. absurd (ground (arith, h)))
        (λ h. absurd (ground (arith, h))) (λ h. absurd (ground (arith, h)))
        (λ _ h. absurd (ground (arith, h)))
        (accepted_body stored principal now snap (base_of c snap) n c.html db
          (on_row snap (edit state_bytes policy now c snap) db.surfaces) e
          (λ k. current-edit state_bytes policy now c k snap db.surfaces))

  -- Once an html update of a surface is accepted, no later html update of that surface with the same
  -- base revision is, whatever sessions do in between and whenever the rows were read.
  pub base_claimed_once :
      (d e : Db V) (stored stored' : Bool) (principal principal' now now' n m : ℕ) (c c' : Change V)
      (snap snap' : Surface V)
      → is_some c.html ≡ true
      → is_some c'.html ≡ true
      → snap'.id ≡ snap.id
      → base_of c' snap' ≡ base_of c snap
      → (update_row state_bytes policy stored principal now c snap d).1 ≡ updated n
      → Run state_bytes policy (update_row state_bytes policy stored principal now c snap d).0 e
      → (update_row state_bytes policy stored' principal' now' c' snap' e).1 ≢ updated m
  base_claimed_once d e stored stored' principal principal' now now' n m c c' snap snap' h h' i b a
        r a' =
      let before = (accepted stored principal now n c snap d h a).1 in
      let later = (accepted stored' principal' now' m c' snap' e h' a').0 in
      let grown = Run-grows state_bytes policy snap.id r in
      let same = ap (λ j. current j e.surfaces) i in
      absurd (omega (arith, before, later, grown, same, b))
