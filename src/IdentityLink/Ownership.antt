-- ===== src/IdentityLink/Ownership.antt =====
-- Linking never moves an identity that exists, and never makes a second one.
use waza.Prelude.{
  ℕ, ◌≡◌, ◌&&◌, Bool, Option, some, none, List, [], ◌∷◌, arith, refl, Bool-cases, ◌⊎◌, inl, inr,
  and_true,
}
use waza.Prelude.Text.{Text, text_eq, text_eq_iff, strip, is_nil}
use waza.IdentityLink.{
  Challenge, Db, InterfaceIdentity, find_challenge, find_identity, complete_verification,
  complete_with, new_identity, verify_challenge, verify_found, verify_code, request_link,
  cleanup_expired,
}

-- One call of the service. What the calls draw, read from the clock or find locked is arbitrary.
pub data Call (lower upper capitalize : Text → Text) : Db → Db → Type 0 where
  request :
      (now id : ℕ) (code : Text) (principal : ℕ) (channel external_id : Text) (ttl : ℕ)
      (hint : Option Text) (db : Db)
      → Call lower upper capitalize db
          (request_link lower upper capitalize now id code principal channel external_id ttl hint
            db).0
  verify :
      (now now' : ℕ) (code channel external_id : Text) (db : Db)
      → Call lower upper capitalize db
          (verify_code lower upper capitalize now now' code channel external_id db).0
  cleanup :
      (locked : Challenge → Bool) (now limit : ℕ) (db : Db)
      → Call lower upper capitalize db (cleanup_expired locked now limit db).0

pub data Calls (lower upper capitalize : Text → Text) (db : Db) : Db → Type 0 where
  here : Calls lower upper capitalize db db
  next :
      {mid end : Db}
      → Calls lower upper capitalize db mid
      → Call lower upper capitalize mid end
      → Calls lower upper capitalize db end

-- The identities are those from before, or there is one new row for a pair that had none.
Grows : List InterfaceIdentity → List InterfaceIdentity → Type 0
Grows old new =
    (new ≡ old)
    ⊎ ((i : InterfaceIdentity) × (new ≡ i ∷ old)
        × (find_identity i.channel i.external_id old ≡ none))

complete_with-Grows :
    (now : ℕ) (c : Challenge) (db : Db) (o : Option InterfaceIdentity)
    → find_identity c.pending_channel c.pending_external_id db.identities ≡ o
    → Grows db.identities (complete_with now c db o).0.identities
unfolding Grows
complete_with-Grows now c db none h = inr (new_identity c, refl, h)
complete_with-Grows now c db (some i) h = inl (ground arith)

-- A challenge that is checked leaves the identities alone, or goes on to its completion.
verify_challenge_cases :
    (now now' : ℕ) (channel external_id : Text) (c : Challenge) (db : Db)
    → ((verify_challenge now now' channel external_id c db).0.identities ≡ db.identities)
      ⊎ (verify_challenge now now' channel external_id c db ≡ complete_verification now' c db)
unfolding verify_challenge
verify_challenge_cases now now' channel external_id c db = ground arith

verify_found-Grows :
    (now now' : ℕ) (channel external_id : Text) (o : Option Challenge) (db : Db)
    → Grows db.identities (verify_found now now' channel external_id o db).0.identities
unfolding Grows complete_verification
verify_found-Grows now now' channel external_id none db = inl refl
verify_found-Grows now now' channel external_id (some c) db =
    elim (verify_challenge_cases now now' channel external_id c db) [
      | inl e ↦ inl e
      | inr e ↦ rw e (
          complete_with-Grows now' c db
            (find_identity c.pending_channel c.pending_external_id db.identities) refl)
    ]

module _ (lower upper capitalize : Text → Text) where
  request_link_identities :
      (now id : ℕ) (code : Text) (principal : ℕ) (channel external_id : Text) (ttl : ℕ)
      (hint : Option Text) (db : Db)
      → (request_link lower upper capitalize now id code principal channel external_id ttl hint
          db).0.identities
        ≡ db.identities
  unfolding request_link
  request_link_identities now id code principal channel external_id ttl hint db = ground arith

  verify_code-Grows :
      (now now' : ℕ) (code channel external_id : Text) (db : Db)
      → Grows db.identities
          (verify_code lower upper capitalize now now' code channel external_id db).0.identities
  unfolding Grows verify_code
  verify_code-Grows now now' code channel external_id db =
      elim (Bool-cases (is_nil (upper (strip code)))) [
        | inl e ↦ rw e (inl refl)
        | inr e ↦ elim (Bool-cases (is_nil (strip external_id))) [
          | inl f ↦ rw (e, f) (inl refl)
          | inr f ↦
              rw (e, f)
                (verify_found-Grows now now' (strip (lower channel)) (strip external_id)
                  (find_challenge (upper (strip code)) db.challenges) db)
        ]
      ]

  Call-Grows : {a b : Db} → Call lower upper capitalize a b → Grows a.identities b.identities
  unfolding Grows cleanup_expired
  Call-Grows (request now id code principal channel external_id ttl hint db) =
      inl (request_link_identities now id code principal channel external_id ttl hint db)
  Call-Grows (verify now now' code channel external_id db) =
      verify_code-Grows now now' code channel external_id db
  Call-Grows (cleanup locked now limit db) = inl refl

kept :
    (channel external_id : Text) (i : InterfaceIdentity) (old new : List InterfaceIdentity)
    → Grows old new
    → find_identity channel external_id old ≡ some i
    → find_identity channel external_id new ≡ some i
unfolding Grows find_identity
kept channel external_id i old new (inl e) h = rw e h
kept channel external_id i old new (inr (j, e, f)) h =
    rw e (elim (Bool-cases (text_eq j.channel channel && text_eq j.external_id external_id)) [
      | inl m ↦
          let (mc, me) =
            and_true (text_eq j.channel channel) (text_eq j.external_id external_id) m in
          let sc = (text_eq_iff j.channel channel).0 mc in
          let se = (text_eq_iff j.external_id external_id).0 me in cc
      | inr m ↦ rw m h
    ])

-- No call of the service moves an identity to another principal or changes its row: a channel account
-- that is known stays what it is through any sequence of requests, verifications and cleanups.
pub Calls-keep_owner :
    (lower upper capitalize : Text → Text) (channel external_id : Text) (i : InterfaceIdentity)
    {a b : Db}
    → find_identity channel external_id a.identities ≡ some i
    → Calls lower upper capitalize a b
    → find_identity channel external_id b.identities ≡ some i
Calls-keep_owner lower upper capitalize channel external_id i h here = h
Calls-keep_owner lower upper capitalize channel external_id i h (next {mid} {end} r c) =
    kept channel external_id i mid.identities end.identities (Call-Grows lower upper capitalize c)
      (Calls-keep_owner lower upper capitalize channel external_id i h r)

-- Every pair of channel and external id has one row at most (the table's UNIQUE constraint).
abbrev pub NoDouble : List InterfaceIdentity → Type 0
NoDouble [] = Unit
NoDouble (i ∷ rest) = (find_identity i.channel i.external_id rest ≡ none) × NoDouble rest

grown-NoDouble : (old new : List InterfaceIdentity) → Grows old new → NoDouble old → NoDouble new
unfolding Grows
grown-NoDouble old new (inl e) h = rw e h
grown-NoDouble old new (inr (j, e, f)) h = rw e (f, h)

-- Linking never creates a second row for a channel account: the constraint that no pair of channel and
-- external id stands twice is kept by every sequence of calls.
Calls-NoDouble :
    (lower upper capitalize : Text → Text) {a b : Db}
    → NoDouble a.identities
    → Calls lower upper capitalize a b
    → NoDouble b.identities
Calls-NoDouble lower upper capitalize h here = h
Calls-NoDouble lower upper capitalize h (next {mid} {end} r c) =
    grown-NoDouble mid.identities end.identities (Call-Grows lower upper capitalize c)
      (Calls-NoDouble lower upper capitalize h r)
