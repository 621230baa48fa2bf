-- ===== src/Publishing/Runs.antt =====
-- The revisions of surfaces under any sequence of the writes of wax/surfaces/service.py, by sessions that
-- may have read their rows at any earlier time.
use waza.Prelude.{ℕ, ◌≡◌, refl, sym, ap, ◌∙◌, Bool, true, Option, none, some}
use waza.Prelude.Table.{find}
use waza.Prelude.Text.{Text}
use waza.Surface.{Policy}
use waza.Publishing.{State, Surface, Db, Change, update_row, is_encodable}
use waza.Publishing.Create.{Creation, create}
use waza.Publishing.States.{Write, write_state}
use waza.Publishing.Numbers.{numbers, from_one, current, current-write_state}
use waza.Publishing.Revisions.{Numbered, Numbered-create, Numbered-update_row, no_surfaces}

-- What sessions do to the tables, from `start` on: each write takes a row as it was read at some time.
pub data Run {V : Type 0} (state_bytes : State V → ℕ) (policy : Policy) (start : Db V)
    : Db V → Type 0 where
  begin : Run state_bytes policy start start
  creates :
      {db : Db V} (stored : Bool) (now id : ℕ) (c : Creation V)
      → find (λ y. y.id) id db.surfaces ≡ none
      → Run state_bytes policy start db
      → Run state_bytes policy start (create policy stored now id c db).0
  updates :
      {db : Db V} (stored : Bool) (principal now : ℕ) (c : Change V) (snap : Surface V)
      → Run state_bytes policy start db
      → Run state_bytes policy start
          (update_row state_bytes policy stored principal now c snap db).0
  writes_state :
      {db : Db V} (column : Bool) (now : ℕ) (w : Write V) (snap : Surface V)
      → Run state_bytes policy start db
      → Run state_bytes policy start
          (record db { surfaces = (write_state column state_bytes now w snap db.surfaces).0 })

module _ {V : Type 0} (state_bytes : State V → ℕ) (policy : Policy) where
  -- No update in the run failed to store its bytes.
  unfoldable pub AllStored : {start db : Db V} → Run state_bytes policy start db → Type 0
  AllStored begin = Unit
  AllStored (creates stored now id c f r) = AllStored r
  AllStored (updates stored principal now c snap r) = (stored ≡ true) × AllStored r
  AllStored (writes_state column now w snap r) = AllStored r

  Numbered-Run : {start db : Db V} → Numbered start → Run state_bytes policy start db → Numbered db
  Numbered-Run h begin = h
  Numbered-Run h (creates stored now id c f r) =
      Numbered-create policy stored now id c _ f (Numbered-Run h r)
  Numbered-Run h (updates stored principal now c snap r) =
      Numbered-update_row state_bytes policy stored principal now c snap _ (Numbered-Run h r)
  Numbered-Run h (writes_state {db} column now w snap r) = λ k.
      Numbered-Run h r k
      ∙ ap from_one (sym (current-write_state column state_bytes now k w snap db.surfaces))

  Numbered-start : Numbered {V = V} no_surfaces
  unfolding find
  Numbered-start id = refl

  -- Whatever sessions create, update and write from empty tables on, in any order and with rows that
  -- they read at any time, as long as the bytes of every update are stored, the revisions of every surface are numbered 1, 2, … up to its current
  -- revision, each once and in the order of the table.
  pub revisions_numbered :
      {db : Db V} (id : ℕ) (r : Run state_bytes policy no_surfaces db)
      → AllStored r
      → numbers id db.revisions ≡ from_one (current id db.surfaces)
  revisions_numbered id r kept = Numbered-Run Numbered-start r id

  abbrev pub encodable : Option Text → Bool
  encodable none = true
  encodable (some html) = is_encodable html
