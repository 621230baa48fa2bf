-- ===== src/Publishing/States.antt =====
-- The state of a surface: `set_state` and `patch_state` of wax/surfaces/service.py, and what becomes of
-- the writes of sessions that work on the same surface at the same time.
use waza.Prelude.{
  ℕ, ◌+◌, ◌==◌, ltb, Bool, Option, none, some, List, [], ◌∷◌, if◌then◌else◌, or_else,
}
use waza.Prelude.Table.{find, store}
use waza.Publishing.{State, Surface, dict_update, max_state_json_bytes, mismatch}

pub data Saved : Type 0 where
  saved : ℕ → Saved
  state_conflict : ℕ → Saved
  state_too_large attribute_error : Saved

-- What a session asks for: the whole state, or a patch of the state that it has read.
pub data Write (V : Type 0) : Type 0 where
  set_to : State V → Option ℕ → Write V
  patched_by : State V → Option ℕ → Write V

abbrev pub state_of : {V : Type 0} → Option (Surface V) → State V
state_of none = []
state_of (some x) = x.state_json

module _ {V : Type 0} where
  -- The UPDATE with its WHERE clause on the row as it is now.
  unfoldable pub claim_state :
      ℕ → ℕ → ℕ → State V → Option (Surface V) → List (Surface V) → List (Surface V) × Saved
  claim_state now read base st none rows = (rows, state_conflict read)
  claim_state now read base st (some x) rows =
      if x.state_revision == base
      then (
        store (λ y. y.id)
            (record x { state_json = st; state_revision = base + 1; last_activity_at = now }) rows,
        saved (base + 1),
      )
      else (rows, state_conflict x.state_revision)

-- `has_column` says whether the class `Surface` has the attribute `state_revision`, which the UPDATE
-- compares and without which it raises; at this commit, wax/db/models.py does not declare it.
module _ {V : Type 0} (has_column : Bool) (state_bytes : State V → ℕ) where
  -- `getattr(surface, "state_revision", 0)`.
  abbrev pub read_revision : Surface V → ℕ
  read_revision snap = if has_column then snap.state_revision else 0

  unfoldable pub set_state :
      ℕ → State V → Option ℕ → Surface V → List (Surface V) → List (Surface V) × Saved
  unfolding claim_state
  set_state now st expected snap rows =
      if ltb max_state_json_bytes (state_bytes st)
      then (rows, state_too_large)
      else (if has_column
          then claim_state now snap.state_revision (or_else expected snap.state_revision) st
              (find (λ y. y.id) snap.id rows) rows
          else (rows, attribute_error))

  unfoldable pub patch_state :
      ℕ → State V → Option ℕ → Surface V → List (Surface V) → List (Surface V) × Saved
  unfolding set_state
  patch_state now patch expected snap rows =
      if mismatch expected (read_revision snap)
      then (rows, state_conflict (read_revision snap))
      else set_state now (dict_update snap.state_json patch) (some (read_revision snap)) snap rows

  abbrev pub write_state : ℕ → Write V → Surface V → List (Surface V) → List (Surface V) × Saved
  write_state now (set_to st expected) snap rows = set_state now st expected snap rows
  write_state now (patched_by patch expected) snap rows = patch_state now patch expected snap rows

  -- Writes of sessions, one after the other, each with the row as its session had read it.
  abbrev pub write_all : List (ℕ × Write V × Surface V) → List (Surface V) → List (Surface V)
  write_all [] rows = rows
  write_all (w ∷ ws) rows = write_all ws (write_state w.0 w.1 w.2 rows).0
