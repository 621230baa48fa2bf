-- ===== src/Publishing/Revisions.antt =====
-- What `create` and `update` of wax/surfaces/service.py do to the numbering of the revisions.
use waza.Prelude.{
  ℕ, suc, ◌+◌, ◌≡◌, refl, sym, ap, subst, ◌∙◌, ◌==◌, ==_iff, Bool, true, false, and_true, Option,
  none, some, List, [], ◌∷◌, ◌++◌, if◌then◌else◌, is_some, or_else, ltb, Bool-cases, inl, inr,
  arith,
}
use waza.Prelude.Table.{find}
use waza.Prelude.Text.{Text}
use waza.Surface.{Policy, active, failed, is_open, in_range}
use waza.Publishing.{
  State, Surface, Revision, Db, Change, Answer, revision_conflict, not_found, invalid_state,
  write_revision, current_or, at_revision, on_row, edit, finish_write, update_html, update_body,
  update_row, raised, unextended, mismatch, max_entry_bytes, utf8_length, is_encodable,
}
use waza.Publishing.Create.{
  Creation, Created, already_there, gate, create, create_found, find_key, key_of, is_live,
  insert_surface, new_surface,
}
use waza.Publishing.Numbers.{
  numbers, numbers-add, from_one, write_revision-next, current, current-edit, current-touch,
  current-claim,
}

from_one-next : (n : ℕ) → from_one (n + 1) ≡ from_one n ++ ((n + 1) ∷ [])
from_one-next n = let e : n + 1 ≡ suc n = omega arith in rw e refl

module _ {V : Type 0} where
  -- The revisions of each surface are numbered from one to its current revision, without a gap.
  abbrev pub Numbered : Db V → Type 0
  Numbered db = (id : ℕ) → numbers id db.revisions ≡ from_one (current id db.surfaces)

  pub current_at :
      (principal base : ℕ) (o : Option (Surface V))
      → at_revision principal base o ≡ true
      → (current_or 0 o ≡ base) × (is_some o ≡ true)
  current_at principal base none h = absurd (ground arith)
  current_at principal base (some x) h = (
    (==_iff x.current_revision base).0
        (and_true (x.current_revision == base) (x.principal_id == principal) h).0,
    refl,
  )

  -- A new revision of one surface, and the row with its number.
  Numbered-next :
      (id n : ℕ) (html : Text) (revisions : List Revision) (rows rows' : List (Surface V))
      → ((k : ℕ) → numbers k revisions ≡ from_one (current k rows))
      → current id rows ≡ n
      → ((k : ℕ) → current k rows' ≡ (if id == k then n + 1 else current k rows))
      → (k : ℕ)
      → numbers k (revisions ++ (record { surface_id = id; revision = n + 1; html = html } ∷ []))
        ≡ from_one (current k rows')
  Numbered-next id n html revisions rows rows' h e c k =
      rw (numbers-add k (record { surface_id = id; revision = n + 1; html = html }) revisions, c k)
        (elim (Bool-cases (id == k)) [
          | inl t ↦
              let same = (==_iff id k).0 t in
              rw (t, h k, ap (λ j. current j rows) (sym same) ∙ e) (sym (from_one-next n))
          | inr t ↦ rw t (h k)
        ])

  Numbered-finish :
      (stored : Bool) (now : ℕ) (snap : Surface V) (base : ℕ) (html : Text) (db : Db V)
      (rows : List (Surface V))
      → Numbered db
      → ((k : ℕ) → current k rows ≡ current k db.surfaces)
      → current snap.id rows ≡ base
      → is_some (find (λ y. y.id) snap.id rows) ≡ true
      → Numbered
          (finish_write stored now snap base db rows
            (write_revision stored snap.id base html db.revisions)).0
  unfolding write_revision on_row
  Numbered-finish false now snap base html db rows h c e s = λ k. h k ∙ ap from_one (sym (c k))
  Numbered-finish true now snap base html db rows h c e s =
      let before = h snap.id ∙ ap from_one (sym (c snap.id) ∙ e) in
      rw (write_revision-next snap.id base html db.revisions before) (λ k.
        Numbered-next snap.id base html db.revisions rows _ (λ j. h j ∙ ap from_one (sym (c j))) e
          (λ j. current-claim now (base + 1) j snap (find (λ y. y.id) snap.id rows) rows refl s) k)

  Numbered-update_html :
      (stored : Bool) (principal now : ℕ) (snap : Surface V) (base : ℕ) (html : Text) (db : Db V)
      (rows : List (Surface V))
      → Numbered db
      → ((k : ℕ) → current k rows ≡ current k db.surfaces)
      → Numbered (update_html stored principal now snap base html db rows).0
  unfolding update_html
  Numbered-update_html stored principal now snap base html db rows h c =
      let found = find (λ y. y.id) snap.id rows in
      elim (Bool-cases (is_encodable html)) [
        | inr n ↦ rw n (λ k. h k ∙ ap from_one (sym (c k)))
        | inl n ↦ elim (Bool-cases (ltb max_entry_bytes (utf8_length html))) [
          | inl t ↦ rw (n, t) (λ k. h k ∙ ap from_one (sym (c k)))
          | inr t ↦ elim (Bool-cases (at_revision principal base found)) [
            | inl u ↦
                let (e, s) = current_at principal base found u in
                rw (n, t, u) (Numbered-finish stored now snap base html db rows h c e s)
            | inr u ↦ rw (n, t, u) h
          ]
        ]
      ]

  Numbered-update_body :
      (stored : Bool) (principal now : ℕ) (snap : Surface V) (base : ℕ) (html : Option Text)
      (db : Db V) (rows : List (Surface V))
      → Numbered db
      → ((k : ℕ) → current k rows ≡ current k db.surfaces)
      → Numbered (update_body stored principal now snap base html db rows).0
  Numbered-update_body stored principal now snap base none db rows h c =
      λ k. h k ∙ ap from_one (sym (current-touch now k snap rows ∙ c k))
  Numbered-update_body stored principal now snap base (some html) db rows h c =
      Numbered-update_html stored principal now snap base html db rows h c

  -- What holds of the three early answers and of the body holds of an update.
  pub update_row_by :
      (P : Db V × Answer → Type 0) (state_bytes : State V → ℕ) (policy : Policy) (stored : Bool)
      (principal now : ℕ) (c : Change V) (snap : Surface V) (db : Db V)
      → P (db, not_found)
      → P (db, invalid_state)
      → P (db, revision_conflict snap.current_revision)
      → (in_range c.extend ≡ false
          → P (
            record db {
              surfaces = on_row snap (edit state_bytes policy now (unextended c) snap) db.surfaces;
            },
            raised,
          ))
      → P (
          update_body stored principal now snap
            (or_else c.expected_revision snap.current_revision)
            c.html
            db
            (on_row snap (edit state_bytes policy now c snap) db.surfaces))
      → P (update_row state_bytes policy stored principal now c snap db)
  unfolding update_row
  update_row_by P state_bytes policy stored principal now c snap db f i m o h =
      elim (Bool-cases (snap.principal_id == principal)) [
        | inr t ↦ rw t f
        | inl t ↦ elim (Bool-cases (is_open snap.status)) [
          | inr u ↦ rw (t, u) i
          | inl u ↦ elim (Bool-cases (mismatch c.expected_revision snap.current_revision)) [
            | inl v ↦ rw (t, u, v) m
            | inr v ↦ elim (Bool-cases (in_range c.extend)) [
              | inl w ↦ rw (t, u, v, w) h
              | inr w ↦ rw (t, u, v, w) (o w)
            ]
          ]
        ]
      ]

  pub Numbered-update_row :
      (state_bytes : State V → ℕ) (policy : Policy) (stored : Bool) (principal now : ℕ)
      (c : Change V) (snap : Surface V) (db : Db V)
      → Numbered db
      → Numbered (update_row state_bytes policy stored principal now c snap db).0
  Numbered-update_row state_bytes policy stored principal now c snap db h =
      update_row_by (λ r. Numbered r.0) state_bytes policy stored principal now c snap db h h h
        (λ _ k.
          h k
          ∙ ap from_one
              (sym (current-edit state_bytes policy now (unextended c) k snap db.surfaces)))
        (Numbered-update_body stored principal now snap
          (or_else c.expected_revision snap.current_revision) c.html db
          (on_row snap (edit state_bytes policy now c snap) db.surfaces) h
          (λ k. current-edit state_bytes policy now c k snap db.surfaces))

  -- A new row, whose id is new.
  pub current-new :
      (k : ℕ) (x : Surface V) (rows : List (Surface V))
      → current k (x ∷ rows) ≡ (if x.id == k then x.current_revision else current k rows)
  unfolding find
  current-new k x rows = ground arith

  pub current-new_zero :
      (k : ℕ) (x : Surface V) (rows : List (Surface V))
      → find (λ y. y.id) x.id rows ≡ none
      → x.current_revision ≡ 0
      → current k (x ∷ rows) ≡ current k rows
  current-new_zero k x rows f z = rw (current-new k x rows) (elim (Bool-cases (x.id == k)) [
    | inl t ↦
        let there = subst (λ j. find (λ z. z.id) j rows ≡ none) ((==_iff x.id k).0 t) f in
        rw (t, there) z
    | inr t ↦ rw t refl
  ])

  Numbered-insert :
      (policy : Policy) (stored : Bool) (now id : ℕ) (c : Creation V) (db : Db V)
      → find (λ y. y.id) id db.surfaces ≡ none
      → Numbered db
      → Numbered (insert_surface policy stored now id c db).0
  unfolding insert_surface write_revision
  Numbered-insert policy false now id c db f h = λ k.
      h k
      ∙ ap from_one (
          sym (
            current-new_zero k (record (new_surface policy now id c) { status = failed })
              db.surfaces f refl))
  Numbered-insert policy true now id c db f h =
      let none_yet : current id db.surfaces ≡ 0 = rw f refl in
      rw (write_revision-next id 0 c.html db.revisions (h id ∙ ap from_one none_yet)) (λ k.
        Numbered-next id 0 c.html db.revisions db.surfaces _ h none_yet
          (λ j.
            current-new j
              (record (new_surface policy now id c) { status = active; current_revision = 1 })
              db.surfaces)
          k)

  -- The checks of a creation keep what holds of the tables before and after it.
  pub gate_by :
      (P : Db V → Type 0) (c : Creation V) (db : Db V) (done : Db V × Created)
      → P db
      → P done.0
      → P (gate c db done).0
  unfolding gate
  gate_by P c db done h k = elim (Bool-cases (is_encodable c.html)) [
    | inr t ↦ rw t h
    | inl t ↦ elim (Bool-cases (ltb max_entry_bytes (utf8_length c.html))) [
      | inl u ↦ rw (t, u) h
      | inr u ↦ elim (Bool-cases (in_range c.preferred_lifetime)) [
        | inl v ↦ rw (t, u, v) k
        | inr v ↦ rw (t, u, v) h
      ]
    ]
  ]

  Numbered-create_found :
      (policy : Policy) (stored : Bool) (now id : ℕ) (c : Creation V) (db : Db V)
      (o : Option (Surface V))
      → find (λ y. y.id) id db.surfaces ≡ none
      → Numbered db
      → Numbered (create_found policy stored now id c db o).0
  Numbered-create_found policy stored now id c db (some x) f h =
      elim (Bool-cases (is_live x.status)) [
        | inl t ↦ rw t h
        | inr t ↦ rw t (gate_by Numbered c db (db, already_there x.id) h h)
      ]
  Numbered-create_found policy stored now id c db none f h =
      gate_by Numbered c db (insert_surface policy stored now id c db) h
        (Numbered-insert policy stored now id c db f h)

  pub Numbered-create :
      (policy : Policy) (stored : Bool) (now id : ℕ) (c : Creation V) (db : Db V)
      → find (λ y. y.id) id db.surfaces ≡ none
      → Numbered db
      → Numbered (create policy stored now id c db).0
  unfolding create
  Numbered-create policy stored now id c db f h =
      Numbered-create_found policy stored now id c db
        (find_key c.principal_id (key_of c.idempotency_key) db.surfaces) f h

  abbrev pub no_surfaces : Db V
  no_surfaces = record { surfaces = []; revisions = [] }
