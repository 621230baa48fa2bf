-- ===== src/IdentityLink/Examples.antt =====
-- Runs of the linking service, and the theorems on them.
use waza.Prelude.{◌≡◌, refl, true, false, some, none, [], ◌∷◌}
use waza.Prelude.Text.{Text, codes, strip, lstrip, rstrip, is_space, text_eq}
use waza.IdentityLink.{
  Challenge, ChallengeStatus, InterfaceIdentity, Db, linked, code_already_used, find_identity,
  find_challenge, verify_code, verify_challenge, complete_verification,
}
use waza.IdentityLink.SingleUse.{verify_code_single_use}
use waza.IdentityLink.Ownership.{Calls, Call, Calls-keep_owner}
use waza.IdentityLink.Outcomes.{linked_to, verify_code_links}

abbrev same : Text → Text
same t = t

abbrev telegram : Text
telegram = codes "telegram"

abbrev challenge : Challenge
challenge = record {
  id = 1;
  principal_id = 7;
  pending_channel = telegram;
  pending_external_id = codes "42";
  code = codes "AB";
  display_hint = [];
  status = ChallengeStatus.pending;
  expires_at = 400;
  created_at = 100;
  consumed_at = none;
  refused = false;
}

abbrev owner : InterfaceIdentity
owner = record {
  principal_id = 7;
  channel = codes "whatsapp";
  external_id = codes "1";
  is_primary = true;
}

abbrev db : Db
db = record { identities = owner ∷ []; challenges = challenge ∷ []; display_name = λ p. none }

-- The code links the account to the principal of the challenge.
links :
    (verify_code same same same 200 201 (codes " AB") telegram (codes "42") db).1 ≡ linked 7 false
unfolding verify_code verify_challenge complete_verification find_challenge find_identity strip
    lstrip rstrip is_space text_eq
links = refl

verify_code_single_use_example :
    (verify_code same same same 300 301
      (codes "AB ")
      (codes "whatsapp")
      (codes "3")
      (verify_code same same same 200 201 (codes " AB") telegram (codes "42") db).0).1
    ≡ code_already_used
unfolding strip lstrip rstrip is_space text_eq
verify_code_single_use_example =
    verify_code_single_use same same same 200 201 300 301 (codes " AB") telegram (codes "42")
      (codes "AB ") (codes "whatsapp") (codes "3") db 7 false links refl refl

abbrev linked_db : Db
linked_db = (verify_code same same same 200 201 (codes " AB") telegram (codes "42") db).0

one_call : Calls same same same db linked_db
one_call = Calls.next Calls.here (Call.verify 200 201 (codes " AB") telegram (codes "42") db)

Calls-keep_owner_example :
    find_identity (codes "whatsapp") (codes "1") linked_db.identities ≡ some owner
unfolding find_identity text_eq
Calls-keep_owner_example =
    Calls-keep_owner same same same (codes "whatsapp") (codes "1") owner {a = db} {b = linked_db}
      refl one_call

verify_code_links_example :
    linked_to (verify_code same same same 500 501 (codes "AB") telegram (codes "42") db).1 ≡ none
unfolding find_challenge strip lstrip rstrip is_space text_eq find_identity
verify_code_links_example =
    verify_code_links same same same 500 501 (codes "AB") telegram (codes "42") db
