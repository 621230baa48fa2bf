-- ===== src/Signing.antt =====
-- Signed tokens and signature checks: wax/artifacts/access.py (`make_download_token`,
-- `verify_download_token`), wax/security/webhooks.py, and `tokens_match` of wax/surfaces/tokens.py. The
-- keyed hashes, as the text of their hexadecimal digits, are parameters. `int` reads the digits 0 to 9; a
-- number with other digits or a minus sign counts as no number.
pub mod Download
pub mod Webhooks
mod Examples
use waza.Prelude.{
  ℕ, ◌+◌, max, ◌==◌, ltb, Bool, true, false, ◌&&◌, ◌||◌, not, Option, none, some, List, [], ◌∷◌,
  ◌++◌, take, drop, length, if◌then◌else◌,
}
use waza.Prelude.Text.{Text, codes, text_eq, is_nil}
use waza.Prelude.Find.{starts_with}
use waza.Prelude.Decimal.{show, int_of}

abbrev pub is_ascii : Text → Bool
is_ascii [] = true
is_ascii (c ∷ s) = ltb c 128 && is_ascii s

-- `hmac.compare_digest` of two texts, which raises, here `none`, when one of them is not ASCII.
unfoldable pub compare_digest : Text → Text → Option Bool
compare_digest s t = if is_ascii s && is_ascii t then some (text_eq s t) else none

-- `f"{artifact_id}:{principal_id}:{exp}"`.
abbrev pub message : Text → Text → ℕ → Text
message artifact principal exp = artifact ++ (58 ∷ (principal ++ (58 ∷ show exp)))

unfoldable pub make_download_token : (Text → Text) → ℕ → Text → Text → ℕ → Text
make_download_token mac now artifact principal ttl_seconds =
    let exp = now + max 60 ttl_seconds in
    show exp ++ (46 ∷ take 32 (mac (message artifact principal exp)))

-- `token.split(".", 1)` into two parts; `none` when there is no dot.
abbrev before_dot : ℕ → Option (Text × Text) → Option (Text × Text)
before_dot c none = none
before_dot c (some (a, b)) = some (c ∷ a, b)

unfoldable pub split_dot : Text → Option (Text × Text)
split_dot [] = none
split_dot (c ∷ s) = let rest = split_dot s in if c == 46 then some ([], s) else before_dot c rest

abbrev pub verify_signature : (Text → Text) → ℕ → Text → Text → Text → Option ℕ → Option Bool
verify_signature mac now artifact principal sig none = some false
verify_signature mac now artifact principal sig (some exp) =
    if ltb exp now
    then some false
    else compare_digest (take 32 (mac (message artifact principal exp))) sig

abbrev pub verify_parts : (Text → Text) → ℕ → Text → Text → Option (Text × Text) → Option Bool
verify_parts mac now artifact principal none = some false
verify_parts mac now artifact principal (some (exp_s, sig)) =
    verify_signature mac now artifact principal sig (int_of exp_s)

unfoldable pub verify_download_token : (Text → Text) → ℕ → Text → Text → Text → Option Bool
unfolding split_dot
verify_download_token mac now artifact principal token =
    verify_parts mac now artifact principal (split_dot token)

-- `verify_whatsapp_signature`, with the keyed hash of a body under a secret; an empty secret or header
-- counts as absent.
unfoldable pub verify_whatsapp_signature :
    (Text → Text → Text) → Text → Text → Text → Bool → Option Bool
unfolding compare_digest
verify_whatsapp_signature mac app_secret body header required =
    if is_nil app_secret
    then some (not required)
    else (if not (starts_with (codes "sha256=") header)
        then some false
        else compare_digest (mac app_secret body) (drop 7 header))

unfoldable pub verify_telegram_secret : Text → Text → Option Bool
unfolding compare_digest
verify_telegram_secret expected header =
    if is_nil expected
    then some true
    else (if is_nil header then some false else compare_digest expected header)

-- `tokens_match`.
unfoldable pub tokens_match : (Text → Text) → Text → Text → Option Bool
unfolding compare_digest
tokens_match hash presented stored_hash =
    if is_nil presented || is_nil stored_hash || ltb (length presented) 16
    then some false
    else compare_digest (hash presented) stored_hash
