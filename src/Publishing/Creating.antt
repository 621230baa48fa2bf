-- ===== src/Publishing/Creating.antt =====
-- A second `create` with the same idempotency key, in wax/surfaces/service.py.
use waza.Prelude.{
  ℕ, ◌≡◌, refl, sym, ap, ◌∙◌, ==_refl, Bool, true, Option, none, some, List, ◌∷◌, ltb, Bool-cases,
  inl, inr, arith,
}
use waza.Prelude.Text.{Text, text_eq_refl}
use waza.Surface.{Policy, active, in_range}
use waza.Publishing.{
  Surface, Revision, Db, write_revision, max_entry_bytes, utf8_length, is_encodable,
}
use waza.Publishing.Create.{
  Creation, Created, created, already_there, gate, create, create_found, insert_surface,
  new_surface, with_first_revision, find_key, key_of, is_live,
}

module _ {V : Type 0} where
  -- A row with the key in front is the one that the key finds.
  found_first :
      (principal : ℕ) (k : Text) (x : Surface V) (rows : List (Surface V))
      → x.principal_id ≡ principal
      → x.idempotency_key ≡ some k
      → find_key principal (some k) (x ∷ rows) ≡ some x
  unfolding find_key
  found_first principal k x rows p e = rw (p, e, ==_refl principal, text_eq_refl k) refl

  create_at :
      (policy : Policy) (stored : Bool) (now id : ℕ) (c : Creation V) (x : Surface V) (db : Db V)
      → find_key c.principal_id (key_of c.idempotency_key) db.surfaces ≡ some x
      → is_live x.status ≡ true
      → create policy stored now id c db ≡ (db, already_there x.id)
  unfolding create
  create_at policy stored now id c x db f l = rw (f, l) refl

  -- A creation after one that put its row in front.
  module _ (policy : Policy) (stored stored' : Bool) (now now' id id' : ℕ) (c c' : Creation V)
      (k : Text) where
    abbrev SameKey : Type 0
    SameKey =
        (c'.principal_id ≡ c.principal_id)
        × (key_of c.idempotency_key ≡ some k)
        × (key_of c'.idempotency_key ≡ some k)

    again_after :
        (x : Surface V) (rows : List (Surface V)) (revisions : List Revision)
        → SameKey
        → x.principal_id ≡ c.principal_id
        → x.idempotency_key ≡ key_of c.idempotency_key
        → is_live x.status ≡ true
        → create policy stored' now' id' c' (record { surfaces = x ∷ rows; revisions = revisions })
          ≡ (record { surfaces = x ∷ rows; revisions = revisions }, already_there x.id)
    again_after x rows revisions (p, h, h') q e l =
        create_at policy stored' now' id' c' x
          (record { surfaces = x ∷ rows; revisions = revisions })
          (rw h' (found_first c'.principal_id k x rows (q ∙ sym p) (e ∙ h))) l

    again_first :
        (db : Db V) (o : Option (List Revision)) (j : ℕ)
        → SameKey
        → (with_first_revision (new_surface policy now id c) db o).1 ≡ created j
        → create policy stored' now' id' c'
            (with_first_revision (new_surface policy now id c) db o).0
          ≡ ((with_first_revision (new_surface policy now id c) db o).0, already_there j)
    unfolding new_surface
    again_first db none j s h = absurd (ground (arith, h))
    again_first db (some revisions) j s h =
        let same : id ≡ j = ground (arith, h) in
        again_after (record (new_surface policy now id c) { status = active; current_revision = 1 })
          db.surfaces revisions s refl refl refl
        ∙ ap
            (λ i. (
              (with_first_revision (new_surface policy now id c) db (some revisions)).0,
              already_there i,
            ))
            same

    -- Where the checks let a creation pass.
    again_gate :
        (db : Db V) (done : Db V × Created) (j : ℕ)
        → SameKey
        → (done.1 ≡ created j
            → create policy stored' now' id' c' done.0 ≡ (done.0, already_there j))
        → (gate c db done).1 ≡ created j
        → create policy stored' now' id' c' (gate c db done).0
          ≡ ((gate c db done).0, already_there j)
    unfolding gate
    again_gate db done j s k h = elim (Bool-cases (is_encodable c.html)) [
      | inr t ↦ absurd (ground (arith, rw t at h))
      | inl t ↦ elim (Bool-cases (ltb max_entry_bytes (utf8_length c.html))) [
        | inl u ↦ absurd (ground (arith, rw (t, u) at h))
        | inr u ↦ elim (Bool-cases (in_range c.preferred_lifetime)) [
          | inl v ↦ rw (t, u, v) (k (rw (t, u, v) at h))
          | inr v ↦ absurd (ground (arith, rw (t, u, v) at h))
        ]
      ]
    ]

    again_found :
        (db : Db V) (o : Option (Surface V)) (j : ℕ)
        → SameKey
        → (create_found policy stored now id c db o).1 ≡ created j
        → create policy stored' now' id' c' (create_found policy stored now id c db o).0
          ≡ ((create_found policy stored now id c db o).0, already_there j)
    unfolding insert_surface
    again_found db (some x) j s h = elim (Bool-cases (is_live x.status)) [
      | inl t ↦ absurd (ground (arith, rw t at h))
      | inr t ↦
          rw t (
            again_gate db (db, already_there x.id) j s (λ g. absurd (ground (arith, g)))
              (rw t at h))
    ]
    again_found db none j s h =
        again_gate db (insert_surface policy stored now id c db) j s
          (again_first db (write_revision stored id 0 c.html db.revisions) j s) h

  -- After a creation with an idempotency key succeeded, a second one of the same principal with the
  -- same key, whatever else it asks for, changes no table and answers with the surface of the first.
  pub create_idempotent :
      (policy : Policy) (stored stored' : Bool) (now now' id id' j : ℕ) (c c' : Creation V)
      (k : Text) (db : Db V)
      → c'.principal_id ≡ c.principal_id
      → key_of c.idempotency_key ≡ some k
      → key_of c'.idempotency_key ≡ some k
      → (create policy stored now id c db).1 ≡ created j
      → create policy stored' now' id' c' (create policy stored now id c db).0
        ≡ ((create policy stored now id c db).0, already_there j)
  unfolding create
  create_idempotent policy stored stored' now now' id id' j c c' k db p e e' =
      again_found policy stored stored' now now' id id' c c' k db
        (find_key c.principal_id (key_of c.idempotency_key) db.surfaces) j (p, e, e')
