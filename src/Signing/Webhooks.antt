-- ===== src/Signing/Webhooks.antt =====
-- The webhook checks of wax/security/webhooks.py, and `tokens_match` of wax/surfaces/tokens.py.
use waza.Prelude.{
  ℕ, zero, suc, ◌≡◌, ◌↔◌, refl, sym, ap, ◌∙◌, Bool, true, false, and_true, ltb, some, [], ◌∷◌, ◌++◌,
  drop, Bool-cases, inl, inr, arith,
}
use waza.Prelude.Text.{Text, codes, is_nil, text_eq_iff, text_eq_refl}
use waza.Prelude.Find.{starts_with, starts_with-drop, starts_with-append, drop-append}
use waza.Signing.{is_ascii, compare_digest, verify_whatsapp_signature}

is_ascii-drop : (n : ℕ) (s : Text) → is_ascii s ≡ true → is_ascii (drop n s) ≡ true
is_ascii-drop zero s h = h
is_ascii-drop (suc n) [] h = refl
is_ascii-drop (suc n) (c ∷ s) h = is_ascii-drop n s (and_true (ltb c 128) (is_ascii s) h).1

-- Two ASCII texts are compared without an exception, and are equal when the answer is yes.
compare_digest_iff :
    (s t : Text)
    → is_ascii s ≡ true
    → is_ascii t ≡ true
    → (compare_digest s t ≡ some true) ↔ (s ≡ t)
unfolding compare_digest
compare_digest_iff s t h k = (
  λ e. (text_eq_iff s t).0 (ground (arith, rw (h, k) at e)),
  λ e. rw (h, k, sym e, text_eq_refl s) refl,
)

-- With a secret set and an ASCII header, a WhatsApp webhook is accepted, whether or not a signature is
-- required, exactly when its header is `sha256=` and the keyed hash of its body. The keyed hash is
-- written in ASCII.
pub whatsapp_signature_iff :
    (mac : Text → Text → Text) (app_secret body header : Text) (required : Bool)
    → is_nil app_secret ≡ false
    → is_ascii header ≡ true
    → is_ascii (mac app_secret body) ≡ true
    → (verify_whatsapp_signature mac app_secret body header required ≡ some true)
      ↔ (header ≡ codes "sha256=" ++ mac app_secret body)
unfolding verify_whatsapp_signature
whatsapp_signature_iff mac app_secret body header required n h k =
    let same =
      compare_digest_iff (mac app_secret body) (drop 7 header) k (is_ascii-drop 7 header h) in
    (
      λ e. elim (Bool-cases (starts_with (codes "sha256=") header)) [
        | inl t ↦
            starts_with-drop (codes "sha256=") header t
            ∙ ap (λ s. codes "sha256=" ++ s) (sym (same.0 (rw (n, t) at e)))
        | inr t ↦ absurd (ground (arith, rw (n, t) at e))
      ],
      λ e.
          let starts : starts_with (codes "sha256=") header ≡ true =
            ap (starts_with (codes "sha256=")) e
            ∙ starts_with-append (codes "sha256=") (mac app_secret body) in
          let rest : mac app_secret body ≡ drop 7 header =
            sym (ap (drop 7) e ∙ drop-append (codes "sha256=") (mac app_secret body)) in
          rw (n, starts) (same.1 rest),
    )
