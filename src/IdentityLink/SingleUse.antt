-- ===== src/IdentityLink/SingleUse.antt =====
-- A code works once.
use waza.Prelude.{
  ℕ, ◌≡◌, Bool, true, false, Option, some, none, List, [], ◌∷◌, arith, refl, ap, ◌∙◌, Bool-cases,
  inl, inr,
}
use waza.Prelude.Table.{store}
use waza.Prelude.Text.{Text, text_eq, strip, is_nil}
use waza.IdentityLink.{
  Challenge, Db, linked, code_already_used, used, find_challenge, use_challenge,
  complete_verification, verify_challenge, verify_found, verify_code,
}

pub code-find_challenge :
    (code : Text) (rows : List Challenge) (c : Challenge)
    → find_challenge code rows ≡ some c
    → text_eq c.code code ≡ true
unfolding find_challenge
code-find_challenge code [] c h = ground arith
code-find_challenge code (x ∷ xs) c h = ground (arith, code-find_challenge code xs c)

-- Writing back a challenge that was found by its code leaves it the one that the code finds.
find_challenge-store :
    (code : Text) (rows : List Challenge) (c c' : Challenge)
    → find_challenge code rows ≡ some c
    → c'.id ≡ c.id
    → c'.code ≡ c.code
    → find_challenge code (store (λ x. x.id) c' rows) ≡ some c'
unfolding find_challenge store
find_challenge-store code [] c c' h i k = ground arith
find_challenge-store code (x ∷ xs) c c' h i k =
    let match : text_eq c'.code code ≡ true =
      ap (λ t. text_eq t code) k ∙ code-find_challenge code (x ∷ xs) c h in
    ground (arith, find_challenge-store code xs c c')

-- What a success leaves behind: the challenge is used, whatever became of the identities.
verify_challenge_used :
    (now now' : ℕ) (channel external_id : Text) (c : Challenge) (db : Db) (p : ℕ) (b : Bool)
    → (verify_challenge now now' channel external_id c db).1 ≡ linked p b
    → (verify_challenge now now' channel external_id c db).0.challenges
      ≡ store (λ x. x.id) (use_challenge now' c) db.challenges
unfolding verify_challenge complete_verification
verify_challenge_used now now' channel external_id c db p b h = ground arith

verify_challenge_again :
    (now now' : ℕ) (channel external_id : Text) (c : Challenge) (db : Db)
    → c.status ≡ used
    → (verify_challenge now now' channel external_id c db).1 ≡ code_already_used
unfolding verify_challenge
verify_challenge_again now now' channel external_id c db h = ground arith

verify_found_again :
    (now now' t t' : ℕ) (code channel external_id channel' external_id' : Text)
    (o : Option Challenge) (db : Db) (p : ℕ) (b : Bool)
    → find_challenge code db.challenges ≡ o
    → (verify_found now now' channel external_id o db).1 ≡ linked p b
    → (verify_found t t' channel' external_id'
        (find_challenge code (verify_found now now' channel external_id o db).0.challenges)
        (verify_found now now' channel external_id o db).0).1
      ≡ code_already_used
verify_found_again now now' t t' code channel external_id channel' external_id' none db p b f h =
    ground arith
verify_found_again now now' t t' code channel external_id channel' external_id' (some c) db p b f
      h =
    rw
      (
        verify_challenge_used now now' channel external_id c db p b h,
        find_challenge-store code db.challenges c (use_challenge now' c) f refl refl,
      )
      (verify_challenge_again t t' channel' external_id' (use_challenge now' c) _ refl)

-- Once a code has linked an identity, presenting it again, at any time and from any account whose id
-- is not empty, is answered with `code_already_used`.
pub verify_code_single_use :
    (lower upper capitalize : Text → Text) (now now' t t' : ℕ)
    (raw_code channel external_id raw_code' channel' external_id' : Text) (db : Db) (p : ℕ)
    (b : Bool)
    → (verify_code lower upper capitalize now now' raw_code channel external_id db).1 ≡ linked p b
    → upper (strip raw_code') ≡ upper (strip raw_code)
    → is_nil (strip external_id') ≡ false
    → (verify_code lower upper capitalize t t' raw_code' channel' external_id'
        (verify_code lower upper capitalize now now' raw_code channel external_id db).0).1
      ≡ code_already_used
unfolding verify_code
verify_code_single_use lower upper capitalize now now' t t' raw_code channel external_id raw_code'
      channel' external_id' db p b h k n =
    elim (Bool-cases (is_nil (upper (strip raw_code)))) [
      | inl e ↦ ground arith
      | inr e ↦ elim (Bool-cases (is_nil (strip external_id))) [
        | inl f ↦ ground arith
        | inr f ↦
            rw (k, e, f, n)
              (verify_found_again now now' t t' (upper (strip raw_code)) (strip (lower channel))
                (strip external_id) (strip (lower channel')) (strip external_id')
                (find_challenge (upper (strip raw_code)) db.challenges) db p b refl
                (rw (e, f) at h))
      ]
    ]
