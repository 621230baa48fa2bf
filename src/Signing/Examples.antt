-- ===== src/Signing/Examples.antt =====
-- Tokens and signatures on concrete texts, with a stand-in for the keyed hashes.
use waza.Prelude.{ℕ, ◌+◌, ◌≤◌, ◌≡◌, ◌↔◌, max, refl, leb, true, none, some, ◌++◌, ◌∷◌, take}
use waza.Prelude.Text.{Text, codes}
use waza.Prelude.Decimal.{int_of}
use waza.Signing.{
  message, make_download_token, verify_download_token, verify_whatsapp_signature,
  verify_telegram_secret,
}
use waza.Signing.Download.{download_token_round_trip, verify_download_token_only}
use waza.Signing.Webhooks.{whatsapp_signature_iff}

abbrev a_mac : Text → Text
a_mac s = codes "6a09e667"

abbrev a_keyed_mac : Text → Text → Text
a_keyed_mac secret body = codes "bb67ae85"

abbrev token : Text
token = make_download_token a_mac 1000 (codes "art") (codes "pri") 600

download_token_round_trip_example :
    verify_download_token a_mac 1500
      (codes "art")
      (codes "pri")
      (make_download_token a_mac 1000 (codes "art") (codes "pri") 600)
    ≡ some (leb 1500 (1000 + max 60 600))
download_token_round_trip_example =
    download_token_round_trip a_mac 1000 1500 (codes "art") (codes "pri") 600 (λ s. refl)

token_accepted : verify_download_token a_mac 1500 (codes "art") (codes "pri") token ≡ some true
token_accepted =
    download_token_round_trip a_mac 1000 1500 (codes "art") (codes "pri") 600 (λ s. refl)

verify_download_token_only_example :
    (exp_s : Text) × (exp : ℕ) × (token
      ≡ exp_s ++ (46 ∷ take 32 (a_mac (message (codes "art") (codes "pri") exp))))
    × (int_of exp_s ≡ some exp)
    × (1500 ≤ exp)
verify_download_token_only_example =
    verify_download_token_only a_mac 1500 (codes "art") (codes "pri") token token_accepted

-- A signature that is not ASCII raises.
raises_on_text_that_is_not_ascii : verify_telegram_secret (codes "s3cret") (codes "s3crét") ≡ none
unfolding verify_telegram_secret
raises_on_text_that_is_not_ascii = refl

whatsapp_signature_iff_example :
    (verify_whatsapp_signature a_keyed_mac (codes "k") (codes "{}") (codes "sha256=bb67ae85") true
      ≡ some true)
    ↔ (codes "sha256=bb67ae85" ≡ codes "sha256=" ++ a_keyed_mac (codes "k") (codes "{}"))
whatsapp_signature_iff_example =
    whatsapp_signature_iff a_keyed_mac (codes "k") (codes "{}") (codes "sha256=bb67ae85") true refl
      refl refl
