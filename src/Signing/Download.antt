-- ===== src/Signing/Download.antt =====
-- Download tokens of wax/artifacts/access.py: the ones that are made are the ones that are accepted.
use waza.Prelude.{
  ℕ, zero, suc, ◌+◌, ◌≤◌, ◌≡◌, refl, sym, ap, ◌∙◌, max, ◌==◌, ==_iff, ltb, leb, true, false, ◌&&◌,
  and_true, Option, none, some, [], ◌∷◌, ◌++◌, All, take, Bool-cases, inl, inr, arith,
}
use waza.Prelude.Text.{Text, text_eq_iff, text_eq_refl}
use waza.Prelude.Decimal.{show, int_of, int_of-show, show-All}
use waza.Signing.{
  is_ascii, compare_digest, message, make_download_token, before_dot, split_dot, verify_signature,
  verify_parts, verify_download_token,
}

-- The first dot is the one after the digits.
split_dot-digits :
    (s t : Text) → All (λ c. (48 ≤ c) × (c ≤ 57)) s → split_dot (s ++ (46 ∷ t)) ≡ some (s, t)
unfolding split_dot
split_dot-digits [] t h = refl
split_dot-digits (c ∷ s) t h =
    let other : (c == 46) ≡ false = ground (arith, h.0) in rw (other, split_dot-digits s t h.1) refl

is_ascii-take : (n : ℕ) (s : Text) → is_ascii s ≡ true → is_ascii (take n s) ≡ true
is_ascii-take zero s h = refl
is_ascii-take (suc n) [] h = refl
is_ascii-take (suc n) (c ∷ s) h =
    let (a, b) = and_true (ltb c 128) (is_ascii s) h in rw (a, is_ascii-take n s b) refl

-- A token for an artifact and a principal, made at `now`, is accepted for them at every time `then_` up
-- to its expiry, which is at least a minute away, and refused at every later time. The keyed hash is
-- written in ASCII.
pub download_token_round_trip :
    (mac : Text → Text) (now then_ : ℕ) (artifact principal : Text) (ttl_seconds : ℕ)
    → ((s : Text) → is_ascii (mac s) ≡ true)
    → verify_download_token mac then_ artifact principal
        (make_download_token mac now artifact principal ttl_seconds)
      ≡ some (leb then_ (now + max 60 ttl_seconds))
unfolding verify_download_token make_download_token compare_digest
download_token_round_trip mac now then_ artifact principal ttl ascii =
    let exp = now + max 60 ttl in
    let sig = take 32 (mac (message artifact principal exp)) in
    let clean = is_ascii-take 32 (mac (message artifact principal exp)) (ascii _) in
    rw (split_dot-digits (show exp) sig (show-All exp), int_of-show exp)
      (elim (Bool-cases (ltb exp then_)) [
        | inl t ↦ rw t (ground (arith, t))
        | inr t ↦ rw (t, clean, text_eq_refl sig) (ground (arith, t))
      ])

abbrev head_of : Option (Text × Text) → Text
head_of none = []
head_of (some (a, b)) = a

abbrev tail_of : Option (Text × Text) → Text
tail_of none = []
tail_of (some (a, b)) = b

before_dot-append :
    (c : ℕ) (s : Text) (o : Option (Text × Text)) (a b : Text)
    → ((a' b' : Text) → o ≡ some (a', b') → s ≡ a' ++ (46 ∷ b'))
    → before_dot c o ≡ some (a, b)
    → c ∷ s ≡ a ++ (46 ∷ b)
before_dot-append c s none a b ih h = absurd (ground (arith, h))
before_dot-append c s (some (a', b')) a b ih h =
    let first : c ∷ a' ≡ a = ap head_of h in
    let last : b' ≡ b = ap tail_of h in rw (sym first, sym last) (ap (λ t. c ∷ t) (ih a' b' refl))

split_dot-append : (s a b : Text) → split_dot s ≡ some (a, b) → s ≡ a ++ (46 ∷ b)
unfolding split_dot
split_dot-append [] a b h = absurd (ground (arith, h))
split_dot-append (c ∷ s) a b h = elim (Bool-cases (c == 46)) [
  | inl t ↦
      let k = rw t at h in
      let first : [] ≡ a = ap head_of k in
      let last : s ≡ b = ap tail_of k in
      rw (sym first, sym last) (ap (λ d. d ∷ s) ((==_iff c 46).0 t))
  | inr t ↦
      before_dot-append c s (split_dot s) a b (λ a' b' e. split_dot-append s a' b' e) (rw t at h)
]

compare_digest-eq : (s t : Text) → compare_digest s t ≡ some true → s ≡ t
unfolding compare_digest
compare_digest-eq s t h = elim (Bool-cases (is_ascii s && is_ascii t)) [
  | inl u ↦ (text_eq_iff s t).0 (ground (arith, rw u at h))
  | inr u ↦ absurd (ground (arith, rw u at h))
]

Accepted : (Text → Text) → ℕ → Text → Text → Text → Text → ℕ → Type 0
Accepted mac now artifact principal exp_s sig exp =
    (sig ≡ take 32 (mac (message artifact principal exp))) × (int_of exp_s ≡ some exp) × (now ≤ exp)

only_signature :
    (mac : Text → Text) (now : ℕ) (artifact principal exp_s sig : Text) (o : Option ℕ)
    → int_of exp_s ≡ o
    → verify_signature mac now artifact principal sig o ≡ some true
    → (exp : ℕ) × Accepted mac now artifact principal exp_s sig exp
unfolding Accepted
only_signature mac now artifact principal exp_s sig none e h = absurd (ground (arith, h))
only_signature mac now artifact principal exp_s sig (some exp) e h =
    elim (Bool-cases (ltb exp now)) [
      | inl t ↦ absurd (ground (arith, rw t at h))
      | inr t ↦
          let same =
            compare_digest-eq (take 32 (mac (message artifact principal exp))) sig (rw t at h) in
          (exp, (sym same, e, ground (arith, t)))
    ]

only_parts :
    (mac : Text → Text) (now : ℕ) (artifact principal token : Text) (o : Option (Text × Text))
    → split_dot token ≡ o
    → verify_parts mac now artifact principal o ≡ some true
    → (exp_s : Text) × (exp : ℕ) × (token
        ≡ exp_s ++ (46 ∷ take 32 (mac (message artifact principal exp))))
      × (int_of exp_s ≡ some exp)
      × (now ≤ exp)
unfolding Accepted
only_parts mac now artifact principal token none e h = absurd (ground (arith, h))
only_parts mac now artifact principal token (some (a, b)) e h =
    let (exp, (same, read, later)) =
      only_signature mac now artifact principal a b (int_of a) refl h in
    (a, exp, split_dot-append token a b e ∙ ap (λ t. a ++ (46 ∷ t)) same, read, later)

-- A token that is accepted for an artifact and a principal is a number, not before the time of the
-- check, a dot, and the first 32 characters of the keyed hash of just this artifact, principal and
-- number.
pub verify_download_token_only :
    (mac : Text → Text) (now : ℕ) (artifact principal token : Text)
    → verify_download_token mac now artifact principal token ≡ some true
    → (exp_s : Text) × (exp : ℕ) × (token
        ≡ exp_s ++ (46 ∷ take 32 (mac (message artifact principal exp))))
      × (int_of exp_s ≡ some exp)
      × (now ≤ exp)
unfolding verify_download_token Accepted
verify_download_token_only mac now artifact principal token h =
    only_parts mac now artifact principal token (split_dot token) refl h
