-- ===== src/Publishing/Create.antt =====
-- Creating surfaces: `create` of wax/surfaces/service.py.
use waza.Prelude.{
  ℕ, ◌+◌, ◌==◌, ltb, Bool, true, false, ◌&&◌, not, Option, none, some, List, [], ◌∷◌, take, any,
  if◌then◌else◌, rows_where,
}
use waza.Prelude.Text.{Text, codes, text_eq, is_nil}
use waza.Surface.{SurfaceStatus, creating, active, idle, failed, Policy, resolve_lifetime, in_range}
use waza.Publishing.{
  State, Surface, Revision, Db, write_revision, max_entry_bytes, utf8_length, is_encodable,
}

abbrev pub key_is : Text → Option Text → Bool
key_is k none = false
key_is k (some k') = text_eq k' k

module _ {V : Type 0} where
  abbrev pub has_key : ℕ → Text → Surface V → Bool
  has_key principal k x = x.principal_id == principal && key_is k x.idempotency_key

  unfoldable pub find_key : ℕ → Option Text → List (Surface V) → Option (Surface V)
  find_key principal none rows = none
  find_key principal (some k) [] = none
  find_key principal (some k) (x ∷ xs) =
      let rest = find_key principal (some k) xs in if has_key principal k x then some x else rest

abbrev default_scopes : List Text
default_scopes =
    codes "view"
    ∷ codes "state_read"
    ∷ codes "state_write"
    ∷ codes "event_write"
    ∷ codes "ai_request"
    ∷ codes "artifact_read"
    ∷ []

abbrev pub granted : List Text → List Text
granted requested =
    if is_nil requested
    then default_scopes
    else rows_where (λ s. any (λ t. text_eq t s) default_scopes) requested

pub record Creation (V : Type 0) : Type 0 where
  pub principal_id : ℕ
  pub html : Text
  pub title : Option Text
  pub preferred_lifetime : Option ℕ
  pub requested_scopes : List Text
  pub idempotency_key : Option Text
  pub initial_state : State V

pub data Created : Type 0 where
  created : ℕ → Created
  already_there : ℕ → Created
  too_large create_failed create_raised : Created

abbrev pub key_of : Option Text → Option Text
key_of none = none
key_of (some k) = if is_nil k then none else some (take 200 k)

abbrev title_of : Option Text → Text
title_of none = codes "WAX Surface"
title_of (some t) = if is_nil t then codes "WAX Surface" else take 500 t

abbrev pub is_live : SurfaceStatus → Bool
is_live creating = true
is_live active = true
is_live idle = true
is_live _ = false

module _ {V : Type 0} where
  unfoldable pub new_surface : Policy → ℕ → ℕ → Creation V → Surface V
  new_surface policy now id c = record {
    id = id;
    principal_id = c.principal_id;
    title = title_of c.title;
    status = creating;
    expires_at = now + resolve_lifetime policy c.preferred_lifetime;
    current_revision = 0;
    granted_scopes = granted c.requested_scopes;
    idempotency_key = key_of c.idempotency_key;
    state_json = c.initial_state;
    state_revision = 0;
    last_activity_at = now;
    created_at = now;
    last_ai_request_at = none;
    last_ai_response_at = none;
    last_user_interaction_at = none;
    related_surface_ids = [];
  }

  abbrev pub with_first_revision : Surface V → Db V → Option (List Revision) → Db V × Created
  with_first_revision x db none =
      (record db { surfaces = record x { status = failed } ∷ db.surfaces }, create_failed)
  with_first_revision x db (some revisions) = (
    record {
      surfaces = record x { status = active; current_revision = 1 } ∷ db.surfaces;
      revisions = revisions;
    },
    created x.id,
  )

  unfoldable pub insert_surface : Policy → Bool → ℕ → ℕ → Creation V → Db V → Db V × Created
  unfolding new_surface
  insert_surface policy stored now id c db =
      with_first_revision (new_surface policy now id c) db
        (write_revision stored id 0 c.html db.revisions)

  -- The checks before the flush: the size of the html and the lifetime, each of which may raise.
  unfoldable pub gate : Creation V → Db V → Db V × Created → Db V × Created
  gate c db done =
      if not (is_encodable c.html)
      then (db, create_raised)
      else (if ltb max_entry_bytes (utf8_length c.html)
          then (db, too_large)
          else (if in_range c.preferred_lifetime then done else (db, create_raised)))

  -- A row that has the key but is not live is met at the flush, by the unique index.
  abbrev pub create_found :
      Policy → Bool → ℕ → ℕ → Creation V → Db V → Option (Surface V) → Db V × Created
  create_found policy stored now id c db (some x) =
      if is_live x.status then (db, already_there x.id) else gate c db (db, already_there x.id)
  create_found policy stored now id c db none = gate c db (insert_surface policy stored now id c db)

  -- `create`, with `id` for the `uuid4()` of the new row.
  unfoldable pub create : Policy → Bool → ℕ → ℕ → Creation V → Db V → Db V × Created
  unfolding find_key gate
  create policy stored now id c db =
      create_found policy stored now id c db
        (find_key c.principal_id (key_of c.idempotency_key) db.surfaces)
