-- ===== src/IdentityLink.antt =====
-- Cross-channel identity linking, wax/identity_link/service.py: challenges with one-time codes over the
-- tables `interface_identities` and `identity_link_challenges`. `str.lower`, `str.upper` and
-- `str.capitalize` are parameters, as are the drawn code and the clock readings.
pub mod SingleUse
pub mod Ownership
pub mod Outcomes
mod Examples
use waza.Prelude.{
  ℕ, ◌+◌, Bool, true, false, ◌&&◌, not, Option, none, some, List, [], ◌∷◌, ◌++◌, leb, ltb, ◌==◌,
  if◌then◌else◌, take, length,
}
use waza.Prelude.Table.{select, store, store_each}
use waza.Prelude.Text.{Text, codes, text_eq, strip, is_nil}

pub data ChallengeStatus : Type 0 where
  pending verified expired used : ChallengeStatus

pub record Challenge : Type 0 where
  pub id : ℕ
  pub principal_id : ℕ
  pub pending_channel : Text
  pub pending_external_id : Text
  pub code : Text
  pub display_hint : Text
  pub status : ChallengeStatus
  pub expires_at : ℕ
  pub created_at : ℕ
  pub consumed_at : Option ℕ
  -- `error` is set to the one value "pending_identity_belongs_to_other_principal"
  pub refused : Bool

pub record InterfaceIdentity : Type 0 where
  pub principal_id : ℕ
  pub channel : Text
  pub external_id : Text
  pub is_primary : Bool

-- The two tables, and the display names of the principals.
pub record Db : Type 0 where
  pub identities : List InterfaceIdentity
  pub challenges : List Challenge
  pub display_name : ℕ → Option Text

pub data LinkError : Type 0 where
  missing_external_id other_principal duplicate_code : LinkError

pub data Requested : Type 0 where
  challenge : Challenge → Requested
  raised : LinkError → Requested

-- The dictionaries that `verify_code` returns; `linked` has the principal and `already_linked`.
pub data Reply : Type 0 where
  linked : ℕ → Bool → Reply
  code_and_identity_required invalid_code code_already_used code_already_verified : Reply
  code_expired code_does_not_match_identity belongs_to_another_account : Reply

-- `_find_identity`
unfoldable pub find_identity : Text → Text → List InterfaceIdentity → Option InterfaceIdentity
find_identity channel external_id [] = none
find_identity channel external_id (i ∷ rest) =
    if text_eq i.channel channel && text_eq i.external_id external_id
    then some i
    else find_identity channel external_id rest

-- SELECT … WHERE code = :code
unfoldable pub find_challenge : Text → List Challenge → Option Challenge
find_challenge code [] = none
find_challenge code (c ∷ rest) = if text_eq c.code code then some c else find_challenge code rest

abbrev pub write : Challenge → Db → Db
write c db = record db { challenges = store (λ x. x.id) c db.challenges }

abbrev pub use_challenge : ℕ → Challenge → Challenge
use_challenge now c = record c { status = used; consumed_at = some now }

abbrev pub new_identity : Challenge → InterfaceIdentity
new_identity c = record {
  principal_id = c.principal_id;
  channel = c.pending_channel;
  external_id = c.pending_external_id;
  is_primary = false;
}

abbrev pub complete_with : ℕ → Challenge → Db → Option InterfaceIdentity → Db × Reply
complete_with now c db (some i) =
    if i.principal_id == c.principal_id
    then (write (use_challenge now c) db, linked c.principal_id true)
    else (write (record c { status = expired; refused = true }) db, belongs_to_another_account)
complete_with now c db none = (
  write (use_challenge now c) (record db { identities = new_identity c ∷ db.identities }),
  linked c.principal_id false,
)

-- `_complete_verification`
unfoldable pub complete_verification : ℕ → Challenge → Db → Db × Reply
complete_verification now c db =
    complete_with now c db (find_identity c.pending_channel c.pending_external_id db.identities)

-- The checks of `verify_code` on the challenge that the code names; `now'` is the later clock reading.
unfoldable pub verify_challenge : ℕ → ℕ → Text → Text → Challenge → Db → Db × Reply
unfolding complete_verification
verify_challenge now now' channel external_id c db = elim c.status [
  | used ↦ (db, code_already_used)
  | verified ↦ (db, code_already_verified)
  | expired ↦ (db, code_expired)
  | pending ↦
      if leb c.expires_at now
      then (write (record c { status = expired }) db, code_expired)
      else if text_eq c.pending_channel channel && text_eq c.pending_external_id external_id
      then complete_verification now' c db
      else (db, code_does_not_match_identity)
]

abbrev pub verify_found : ℕ → ℕ → Text → Text → Option Challenge → Db → Db × Reply
verify_found now now' channel external_id none db = (db, invalid_code)
verify_found now now' channel external_id (some c) db =
    verify_challenge now now' channel external_id c db

module _ (lower upper capitalize : Text → Text) where
  unfoldable pub verify_code : ℕ → ℕ → Text → Text → Text → Db → Db × Reply
  verify_code now now' raw_code raw_channel raw_external_id db =
      let code = upper (strip raw_code) in
      let channel = strip (lower raw_channel) in
      let external_id = strip raw_external_id in
      if is_nil code
      then (db, code_and_identity_required)
      else if is_nil external_id
      then (db, code_and_identity_required)
      else verify_found now now' channel external_id (find_challenge code db.challenges) db

  unfoldable pub generate_hint : Option Text → Text → Text
  generate_hint none channel = codes "Link your " ++ (capitalize channel ++ codes " account")
  generate_hint (some []) channel = codes "Link your " ++ (capitalize channel ++ codes " account")
  generate_hint (some (c ∷ cs)) channel =
      codes "Link "
      ++ (capitalize channel ++ (codes " to " ++ (take 30 (c ∷ cs) ++ codes "'s account")))

  abbrev pub hint_or : Option Text → Text → Text
  hint_or (some h) d = h
  hint_or none d = d

  abbrev pub is_foreign : ℕ → Option InterfaceIdentity → Bool
  is_foreign principal none = false
  is_foreign principal (some i) = not (i.principal_id == principal)

  abbrev pub taken : Option Challenge → Bool
  taken none = false
  taken (some c) = true

  -- `code` is what `_generate_code` drew and `id` the new row's key; the UNIQUE constraint on the
  -- code refuses one that is there already.
  unfoldable pub request_link :
      ℕ → ℕ → Text → ℕ → Text → Text → ℕ → Option Text → Db → Db × Requested
  unfolding generate_hint
  request_link now id code principal raw_channel raw_external_id ttl display_hint db =
      let channel = strip (lower raw_channel) in
      let external_id = strip raw_external_id in
      let new : Challenge = record {
        id = id;
        principal_id = principal;
        pending_channel = channel;
        pending_external_id = external_id;
        code = code;
        display_hint =
            take 128 (hint_or display_hint (generate_hint (db.display_name principal) channel));
        status = pending;
        expires_at = now + ttl;
        created_at = now;
        consumed_at = none;
        refused = false;
      } in
      if is_nil external_id
      then (db, raised missing_external_id)
      else if is_foreign principal (find_identity channel external_id db.identities)
      then (db, raised other_principal)
      else if taken (find_challenge code db.challenges)
      then (db, raised duplicate_code)
      else (record db { challenges = new ∷ db.challenges }, challenge new)

abbrev pub is_pending : ChallengeStatus → Bool
is_pending pending = true
is_pending _ = false

-- `get_pending_challenge_for_principal`: the latest challenge that waits and has not run out.
unfoldable pub pending_challenge_for_principal : ℕ → ℕ → List Challenge → Option Challenge
pending_challenge_for_principal principal now rows = head_of (
    select (λ c. (c.principal_id == principal && is_pending c.status) && ltb now c.expires_at)
      (λ a b. leb b.created_at a.created_at) 1 rows)
  where
    head_of : List Challenge → Option Challenge
    head_of [] = none
    head_of (c ∷ rest) = some c

-- `get_challenge_by_code`, by `str.upper`.
unfoldable pub challenge_by_code : (Text → Text) → Text → List Challenge → Option Challenge
challenge_by_code upper code rows = find_challenge (upper (strip code)) rows

abbrev pub expire : Challenge → Challenge
expire c = record c { status = expired }

-- The new tables and the number of challenges that were marked.
unfoldable pub cleanup_expired : (Challenge → Bool) → ℕ → ℕ → Db → Db × ℕ
cleanup_expired locked now limit db =
    let rows =
      select (λ c. (is_pending c.status && leb c.expires_at now) && not (locked c))
        (λ a b. leb a.expires_at b.expires_at) limit db.challenges in
    (record db { challenges = store_each (λ c. c.id) expire rows db.challenges }, length rows)
