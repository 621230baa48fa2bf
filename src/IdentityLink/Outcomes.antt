-- ===== src/IdentityLink/Outcomes.antt =====
-- When a code is accepted, and what an acceptance brings about.
use waza.Prelude.{
  ℕ, ◌≡◌, ◌&&◌, Bool, true, false, Option, some, none, if◌then◌else◌, arith, refl, sym, ◌∙◌, ◌==◌,
  leb, ap, Bool-cases, inl, inr, not,
}
use waza.Prelude.Text.{Text, text_eq, text_eq_iff, text_eq_refl, strip, is_nil}
use waza.IdentityLink.{
  Challenge, Db, InterfaceIdentity, Reply, linked, find_challenge, find_identity,
  complete_verification, complete_with, new_identity, verify_challenge, verify_found, verify_code,
  is_pending,
}

abbrev pub is_foreign_to : ℕ → Option InterfaceIdentity → Bool
is_foreign_to principal none = false
is_foreign_to principal (some i) = not (i.principal_id == principal)

-- The account that presents the code may get it: the challenge waits, has not run out, names this
-- account, and the account belongs to no other principal.
abbrev pub accepts : ℕ → Text → Text → Challenge → Db → Bool
accepts now channel external_id c db =
    is_pending c.status
    && (not (leb c.expires_at now)
        && (text_eq c.pending_channel channel
            && (text_eq c.pending_external_id external_id
                && not (
                    is_foreign_to c.principal_id
                      (find_identity c.pending_channel c.pending_external_id db.identities)))))

-- The principal that an answer links to, if it is a success.
abbrev pub linked_to : Reply → Option ℕ
linked_to (linked p b) = some p
linked_to _ = none

complete_with_linked :
    (now : ℕ) (c : Challenge) (db : Db) (o : Option InterfaceIdentity)
    → linked_to (complete_with now c db o).1
      ≡ (if is_foreign_to c.principal_id o then none else some c.principal_id)
complete_with_linked now c db none = refl
complete_with_linked now c db (some i) = ground arith

verify_challenge_linked :
    (now now' : ℕ) (channel external_id : Text) (c : Challenge) (db : Db)
    → linked_to (verify_challenge now now' channel external_id c db).1
      ≡ (if accepts now channel external_id c db then some c.principal_id else none)
unfolding verify_challenge complete_verification
verify_challenge_linked now now' channel external_id c db = ground (
  arith,
  complete_with_linked now' c db
      (find_identity c.pending_channel c.pending_external_id db.identities),
)

abbrev pub accepted_principal : ℕ → Text → Text → Option Challenge → Db → Option ℕ
accepted_principal now channel external_id none db = none
accepted_principal now channel external_id (some c) db =
    if accepts now channel external_id c db then some c.principal_id else none

verify_found_linked :
    (now now' : ℕ) (channel external_id : Text) (o : Option Challenge) (db : Db)
    → linked_to (verify_found now now' channel external_id o db).1
      ≡ accepted_principal now channel external_id o db
verify_found_linked now now' channel external_id none db = refl
verify_found_linked now now' channel external_id (some c) db =
    verify_challenge_linked now now' channel external_id c db

-- A presented code links exactly if it names a challenge that accepts the account, and then it links to
-- the principal of that challenge; every other case is a refusal.
pub verify_code_links :
    (lower upper capitalize : Text → Text) (now now' : ℕ) (code channel external_id : Text)
    (db : Db)
    → linked_to (verify_code lower upper capitalize now now' code channel external_id db).1 ≡ (
        if is_nil (upper (strip code))
        then none
        else if is_nil (strip external_id)
        then none
        else accepted_principal now
            (strip (lower channel))
            (strip external_id)
            (find_challenge (upper (strip code)) db.challenges)
            db)
unfolding verify_code
verify_code_links lower upper capitalize now now' code channel external_id db = ground (
  arith,
  verify_found_linked now now' (strip (lower channel)) (strip external_id)
      (find_challenge (upper (strip code)) db.challenges) db,
)

-- After a completion that links, the pending account is known and belongs to the challenge's principal.
complete_with_owner :
    (now : ℕ) (c : Challenge) (db : Db) (o : Option InterfaceIdentity)
    → find_identity c.pending_channel c.pending_external_id db.identities ≡ o
    → (p : ℕ) → linked_to (complete_with now c db o).1 ≡ some p
    → (i : InterfaceIdentity) × (find_identity c.pending_channel c.pending_external_id
          (complete_with now c db o).0.identities
        ≡ some i)
      × (i.principal_id ≡ p)
unfolding find_identity
complete_with_owner now c db none f p h = (
  new_identity c,
  rw (text_eq_refl c.pending_channel, text_eq_refl c.pending_external_id),
  ground arith,
)
complete_with_owner now c db (some i) f p h = (i, ground arith, ground arith)

verify_challenge_complete :
    (now now' : ℕ) (channel external_id : Text) (c : Challenge) (db : Db) (p : ℕ)
    → linked_to (verify_challenge now now' channel external_id c db).1 ≡ some p
    → (verify_challenge now now' channel external_id c db ≡ complete_verification now' c db)
      × (text_eq c.pending_channel channel ≡ true)
      × (text_eq c.pending_external_id external_id ≡ true)
unfolding verify_challenge
verify_challenge_complete now now' channel external_id c db p h =
    (ground arith, ground arith, ground arith)

abbrev Owned : Text → Text → ℕ → Db → Type 0
Owned channel external_id p db =
    (i : InterfaceIdentity) × (find_identity channel external_id db.identities ≡ some i)
    × (i.principal_id ≡ p)

verify_found_owner :
    (now now' : ℕ) (channel external_id : Text) (o : Option Challenge) (db : Db) (p : ℕ)
    → linked_to (verify_found now now' channel external_id o db).1 ≡ some p
    → Owned channel external_id p (verify_found now now' channel external_id o db).0
verify_found_owner now now' channel external_id none db p h = ground arith
verify_found_owner now now' channel external_id (some c) db p h =
    let (done, ch, ext) = verify_challenge_complete now now' channel external_id c db p h in
    let same_channel = (text_eq_iff c.pending_channel channel).0 ch in
    let same_id = (text_eq_iff c.pending_external_id external_id).0 ext in
    rw (done, ← same_channel, ← same_id)
      (unfold complete_verification in
        complete_with_owner now' c db
          (find_identity c.pending_channel c.pending_external_id db.identities) refl p
          (ap (λ (r : Db × Reply). linked_to r.1) (sym done) ∙ h))

-- After a success the account that presented the code is known, and belongs to the principal that the
-- answer names.
verify_code_owner :
    (lower upper capitalize : Text → Text) (now now' : ℕ) (code channel external_id : Text)
    (db : Db) (p : ℕ)
    → linked_to (verify_code lower upper capitalize now now' code channel external_id db).1 ≡ some p
    → (i : InterfaceIdentity) × (find_identity
          (strip (lower channel))
          (strip external_id)
          (verify_code lower upper capitalize now now' code channel external_id db).0.identities
        ≡ some i)
      × (i.principal_id ≡ p)
unfolding verify_code
verify_code_owner lower upper capitalize now now' code channel external_id db p h =
    elim (Bool-cases (is_nil (upper (strip code)))) [
      | inl e ↦ ground arith
      | inr e ↦ elim (Bool-cases (is_nil (strip external_id))) [
        | inl f ↦ ground arith
        | inr f ↦
            rw (e, f)
              (verify_found_owner now now' (strip (lower channel)) (strip external_id)
                (find_challenge (upper (strip code)) db.challenges) db p (rw (e, f) at h))
      ]
    ]
