-- ===== src/Publishing.antt =====
-- Updating surfaces: `update` and `_write_revision` of wax/surfaces/service.py. An operation on a row that a session has read takes the row as it was
-- read, `snap`, beside the tables as they are when it writes. The values of a surface's state are a
-- parameter, and so is `state_bytes`, the size of its text.
pub mod Create
pub mod Requests
pub mod Numbers
pub mod Revisions
pub mod Runs
pub mod Exclusive
pub mod States
pub mod Creating
pub mod Asking
mod Examples
use waza.Prelude.{
  ℕ, ◌+◌, max, ◌==◌, leb, ltb, Bool, true, false, ◌&&◌, ◌||◌, not, Option, none, some, List, [],
  ◌∷◌, ◌++◌, take, any, if◌then◌else◌, or_else, is_some, rows_where, map,
}
use waza.Prelude.Table.{find, store}
use waza.Prelude.Text.{Text, codes, text_eq, is_nil}
use waza.Surface.{
  SurfaceStatus, creating, active, idle, dormant, failed, is_open, is_idle, is_dormant, Policy,
  resolve_lifetime, in_range,
}

abbrev pub max_entry_bytes : ℕ
max_entry_bytes = 2000000

abbrev pub max_state_json_bytes : ℕ
max_state_json_bytes = 200000

-- Whether `s.encode("utf-8")` returns: it raises on a surrogate.
unfoldable pub is_encodable : Text → Bool
is_encodable [] = true
is_encodable (c ∷ s) = let rest = is_encodable s in not (leb 55296 c && leb c 57343) && rest

-- `len(s.encode("utf-8"))` of a text without surrogates.
unfoldable pub utf8_length : Text → ℕ
utf8_length [] = 0
utf8_length (c ∷ s) =
    let rest = utf8_length s in
    if ltb c 128
    then 1 + rest
    else if ltb c 2048
    then 2 + rest
    else if ltb c 65536
    then 3 + rest
    else 4 + rest

-- A dictionary: `d[key] = value` and `d.update(patch)`.
abbrev pub State : Type 0 → Type 0
State V = List (Text × V)

module _ {V : Type 0} where
  unfoldable pub set_key : Text → V → State V → State V
  set_key key value [] = (key, value) ∷ []
  set_key key value (kv ∷ st) =
      let rest = set_key key value st in if text_eq kv.0 key then (key, value) ∷ st else kv ∷ rest

  unfoldable pub dict_update : State V → State V → State V
  unfolding set_key
  dict_update st [] = st
  dict_update st (kv ∷ patch) = dict_update (set_key kv.0 kv.1 st) patch

pub record Surface (V : Type 0) : Type 0 where
  pub id : ℕ
  pub principal_id : ℕ
  pub title : Text
  pub status : SurfaceStatus
  pub expires_at : ℕ
  pub current_revision : ℕ
  pub granted_scopes : List Text
  pub idempotency_key : Option Text
  pub state_json : State V
  pub state_revision : ℕ
  pub last_activity_at : ℕ
  pub created_at : ℕ
  pub last_ai_request_at : Option ℕ
  pub last_ai_response_at : Option ℕ
  pub last_user_interaction_at : Option ℕ
  pub related_surface_ids : List ℕ

pub record Revision : Type 0 where
  pub surface_id : ℕ
  pub revision : ℕ
  pub html : Text

pub record Db (V : Type 0) : Type 0 where
  pub surfaces : List (Surface V)
  pub revisions : List Revision

abbrev pub has_revision : ℕ → ℕ → List Revision → Bool
has_revision id n revisions = any (λ r. r.surface_id == id && r.revision == n) revisions

-- `_write_revision`, the revision after `current`. It raises, here `none`, when the bytes are not
-- stored or when the table has a revision with this number.
unfoldable pub write_revision : Bool → ℕ → ℕ → Text → List Revision → Option (List Revision)
write_revision stored id current html revisions =
    if not stored || has_revision id (current + 1) revisions
    then none
    else some (revisions ++ (record { surface_id = id; revision = current + 1; html = html } ∷ []))

-- What a caller of `update` may ask for; an empty `merge_state` counts as absent.
pub record Change (V : Type 0) : Type 0 where
  pub html : Option Text
  pub title : Option Text
  pub merge_state : State V
  pub extend : Option ℕ
  pub expected_revision : Option ℕ

pub data Answer : Type 0 where
  updated : ℕ → Answer
  revision_conflict : ℕ → Answer
  not_found invalid_state entry_too_large raised : Answer

abbrev title_or : Option Text → Text → Text
title_or none old = old
title_or (some title) old = take 500 title

abbrev expiry_or : Policy → ℕ → Option ℕ → ℕ → ℕ → ℕ
expiry_or policy now none read old = old
expiry_or policy now (some hours) read old = max read (now + resolve_lifetime policy (some hours))

abbrev pub mismatch : Option ℕ → ℕ → Bool
mismatch none n = false
mismatch (some e) n = not (n == e)

module _ {V : Type 0} where
  -- The row of `snap` in the table, changed by `f`.
  abbrev pub write_row :
      Surface V → (Surface V → Surface V) → Option (Surface V) → List (Surface V) → List (Surface V)
  write_row snap f none rows = rows
  write_row snap f (some x) rows = store (λ y. y.id) (f x) rows

  unfoldable pub on_row : Surface V → (Surface V → Surface V) → List (Surface V) → List (Surface V)
  on_row snap f rows = write_row snap f (find (λ y. y.id) snap.id rows) rows

  unfoldable pub merged : (State V → ℕ) → State V → State V → State V → State V
  unfolding dict_update
  merged state_bytes read patch old =
      let st = dict_update read patch in
      if not (is_nil patch) && leb (state_bytes st) max_state_json_bytes then st else old

  -- The columns that `update` writes before it looks at the html.
  unfoldable pub edit : (State V → ℕ) → Policy → ℕ → Change V → Surface V → Surface V → Surface V
  edit state_bytes policy now c snap x = record x {
    title = title_or c.title x.title;
    state_json = merged state_bytes snap.state_json c.merge_state x.state_json;
    expires_at = expiry_or policy now c.extend snap.expires_at x.expires_at;
  }

  -- The columns that it writes at its end.
  unfoldable pub touch : ℕ → Surface V → Surface V → Surface V
  touch now snap x = record x {
    last_activity_at = now;
    status = if is_idle snap.status || is_dormant snap.status then active else x.status;
  }

  -- The atomic claim of the next revision, on the row as it is now: `some` the row when it is one of
  -- the principal's at this revision.
  abbrev pub at_revision : ℕ → ℕ → Option (Surface V) → Bool
  at_revision principal base none = false
  at_revision principal base (some x) = x.current_revision == base && x.principal_id == principal

  abbrev pub current_or : ℕ → Option (Surface V) → ℕ
  current_or n none = n
  current_or n (some x) = x.current_revision

  -- When the bytes are not stored, the first columns stay in the session and are committed with the
  -- turn, and the number that the session holds, the old one, is written over the claimed one; a number
  -- that the table has already undoes the transaction.
  abbrev pub finish_write :
      Bool → ℕ → Surface V → ℕ → Db V → List (Surface V) → Option (List Revision) → Db V × Answer
  finish_write false now snap base db rows none = (record db { surfaces = rows }, raised)
  finish_write true now snap base db rows none = (db, raised)
  finish_write stored now snap base db rows (some revisions) = (
    record {
      surfaces = on_row snap (λ x. touch now snap (record x { current_revision = base + 1 })) rows;
      revisions = revisions;
    },
    updated (base + 1),
  )

  -- The html of an update, with the rows as the first columns leave them. The session does not write
  -- them before the claim, and reads the row again when the claim fails.
  unfoldable pub update_html :
      Bool → ℕ → ℕ → Surface V → ℕ → Text → Db V → List (Surface V) → Db V × Answer
  update_html stored principal now snap base html db rows =
      let found = find (λ y. y.id) snap.id rows in
      if not (is_encodable html)
      then (record db { surfaces = rows }, raised)
      else (if ltb max_entry_bytes (utf8_length html)
          then (record db { surfaces = rows }, entry_too_large)
          else (if at_revision principal base found
              then finish_write stored now snap base db rows
                  (write_revision stored snap.id base html db.revisions)
              else (db, revision_conflict (current_or snap.current_revision found))))

  abbrev pub update_body :
      Bool → ℕ → ℕ → Surface V → ℕ → Option Text → Db V → List (Surface V) → Db V × Answer
  update_body stored principal now snap base none db rows =
      (record db { surfaces = on_row snap (touch now snap) rows }, updated snap.current_revision)
  update_body stored principal now snap base (some html) db rows =
      update_html stored principal now snap base html db rows

  abbrev pub unextended : Change V → Change V
  unextended c = record c { extend = none }

  -- `update`, after `session.get` gave the row `snap`. The caller, `_execute` of
  -- wax/intelligence/tutor.py, catches an exception without a rollback, so the columns that were changed
  -- before it are committed with the turn. A turn updates the html of a surface once.
  unfoldable pub update_row :
      (State V → ℕ) → Policy → Bool → ℕ → ℕ → Change V → Surface V → Db V → Db V × Answer
  update_row state_bytes policy stored principal now c snap db =
      let base = or_else c.expected_revision snap.current_revision in
      let rows = on_row snap (edit state_bytes policy now c snap) db.surfaces in
      if not (snap.principal_id == principal)
      then (db, not_found)
      else (if not (is_open snap.status)
          then (db, invalid_state)
          else (if mismatch c.expected_revision snap.current_revision
              then (db, revision_conflict snap.current_revision)
              else (if in_range c.extend
                  then update_body stored principal now snap base c.html db rows
                  else (
                    record db {
                      surfaces =
                          on_row snap (edit state_bytes policy now (unextended c) snap) db.surfaces;
                    },
                    raised,
                  ))))
