-- ===== src/Chunking/Splits.antt =====
-- Where `chunk_message` of wax/delivery/chunking.py splits: each piece is the stripped text up to its
-- `split_at`, which stays within the slack.
use waza.Prelude.{
  ℕ, zero, suc, ◌+◌, ◌-◌, ◌/◌, ◌≤◌, ◌≡◌, refl, Bool, true, false, ◌&&◌, not, Option, none, some,
  List, [], ◌∷◌, All, length, take, min, length-take, ltb, Bool-cases, inl, inr, arith,
}
use waza.Prelude.Text.{Text, codes, is_nil, strip}
use waza.Prelude.Find.{find_text_from, rfind_text, rfind_text-le}
use waza.Chunking.{
  above, prefer, paragraph_break, item_below, sentence_break, sep_end, sentence_ends, first_split,
  or_at, Piece, cut_piece, hard_ceiling, close_at, close_fence, safer_at, or_piece, safer,
  safe_ends, close_marker, adjust, next_piece,
}
use waza.Chunking.Markers.{fence, unbalanced_fence, has_unclosed_inline_marker}

-- A position that is found is at most `m`.
abbrev UpTo : ℕ → Option ℕ → Type 0
UpTo m o = (i : ℕ) → o ≡ some i → i ≤ m

above-UpTo : (m bound : ℕ) (o : Option ℕ) → UpTo m o → UpTo m (above bound o)
unfolding above
above-UpTo m bound none h i e = ground arith
above-UpTo m bound (some j) h i e = ground (arith, h j refl)

prefer-UpTo : (m : ℕ) (o q : Option ℕ) → UpTo m o → UpTo m q → UpTo m (prefer o q)
unfolding prefer
prefer-UpTo m none q g h = h
prefer-UpTo m (some j) q g h = g

or_at-le : (m : ℕ) (o : Option ℕ) → UpTo m o → or_at o m ≤ m
or_at-le m none h = omega arith
or_at-le m (some j) h = h j refl

-- A text of at least one character that is found in the window stands before the limit.
rfind-UpTo :
    (m : ℕ) (sub window : Text)
    → length window ≤ m + 1
    → 1 ≤ length sub
    → UpTo m (rfind_text sub window)
rfind-UpTo m sub window w l i e = omega (arith, rfind_text-le sub window i e)

paragraph_break-UpTo :
    (b : Bool) (m : ℕ) (window : Text) → length window ≤ m + 1 → UpTo m (paragraph_break b m window)
unfolding paragraph_break
paragraph_break-UpTo false m window w = λ i e. ground arith
paragraph_break-UpTo true m window w =
    above-UpTo m (m / 3) (rfind_text (codes "\n\n") window)
      (rfind-UpTo m (codes "\n\n") window w (omega arith))

item_below-UpTo :
    (is_digit : ℕ → Bool) (m bound : ℕ) (window : Text) (n : ℕ)
    → n ≤ m + 1
    → UpTo m (item_below is_digit bound window n)
unfolding item_below
item_below-UpTo is_digit m bound window zero l i e = ground arith
item_below-UpTo is_digit m bound window (suc n) l i e =
    let lower : n ≤ m + 1 = omega arith in
    ground (arith, item_below-UpTo is_digit m bound window n lower i)

sep_end-UpTo :
    (m bound : ℕ) (sep : Text) (o : Option ℕ)
    → ((i : ℕ) → o ≡ some i → i + length sep ≤ m + 1)
    → UpTo m (sep_end sep (above bound o))
unfolding above
sep_end-UpTo m bound sep none h i e = ground arith
sep_end-UpTo m bound sep (some j) h i e = ground (arith, h j refl)

sentence_break-UpTo :
    (m : ℕ) (seps : List Text) (window : Text)
    → length window ≤ m + 1
    → UpTo m (sentence_break m seps window)
unfolding sentence_break
sentence_break-UpTo m [] window w = λ i e. ground arith
sentence_break-UpTo m (sep ∷ seps) window w =
    prefer-UpTo m _ _
      (sep_end-UpTo m (m / 3) sep (rfind_text sep window)
        (λ i e. omega (arith, rfind_text-le sep window i e)))
      (sentence_break-UpTo m seps window w)

first_split-le :
    (is_digit : ℕ → Bool) (b : Bool) (m : ℕ) (window : Text)
    → length window ≤ m + 1
    → first_split is_digit b m window ≤ m
unfolding first_split
first_split-le is_digit b m window w = or_at-le m _ (
    prefer-UpTo m _ _ (paragraph_break-UpTo b m window w) (
      prefer-UpTo m _ _ (item_below-UpTo is_digit m (m / 3) window (length window) w) (
        prefer-UpTo m _ _ (sentence_break-UpTo m sentence_ends window w) (
          prefer-UpTo m _ _
            (above-UpTo m (m / 3) _ (rfind-UpTo m (codes "\n") window w (omega arith)))
            (above-UpTo m (m / 4) _ (rfind-UpTo m (codes " ") window w (omega arith)))))))

-- A piece cut off the front of `remaining`, at most one character past the ceiling.
abbrev pub IsCut : ℕ → Text → Piece → Type 0
IsCut ceiling remaining p =
    (p.text ≡ strip (take (suc p.split_at) remaining)) × (p.split_at ≤ ceiling + 1)

cut_piece-IsCut :
    (ceiling : ℕ) (remaining : Text) (n : ℕ)
    → n ≤ ceiling + 1
    → IsCut ceiling remaining (cut_piece remaining n)
unfolding cut_piece
cut_piece-IsCut ceiling remaining n h = (refl, h)

close_at-IsCut :
    (ceiling : ℕ) (remaining : Text) (p : Piece) (o : Option ℕ)
    → IsCut ceiling remaining p
    → IsCut ceiling remaining (close_at ceiling remaining p o)
close_at-IsCut ceiling remaining p none h = h
close_at-IsCut ceiling remaining p (some close) h =
    elim (Bool-cases (ltb 0 close && ltb close ceiling)) [
      | inl t ↦ rw t (cut_piece-IsCut ceiling remaining (close + 2) (ground arith))
      | inr t ↦ rw t h
    ]

close_fence-IsCut :
    (ceiling : ℕ) (remaining : Text) (p : Piece)
    → IsCut ceiling remaining p
    → IsCut ceiling remaining (close_fence ceiling remaining p)
unfolding close_fence
close_fence-IsCut ceiling remaining p h = elim (Bool-cases (unbalanced_fence p.text)) [
  | inl t ↦
      rw t (close_at-IsCut ceiling remaining p (find_text_from fence (p.split_at + 1) remaining) h)
  | inr t ↦ rw t h
]

or_piece-IsCut :
    (ceiling : ℕ) (remaining sep : Text) (o : Option ℕ) (q : Piece)
    → length sep ≤ 2
    → IsCut ceiling remaining q
    → IsCut ceiling remaining (or_piece (safer_at ceiling remaining sep o) q)
unfolding safer_at
or_piece-IsCut ceiling remaining sep none q l h = h
or_piece-IsCut ceiling remaining sep (some i) q l h =
    let candidate = cut_piece remaining (i + length sep - 1) in
    elim (Bool-cases (
      ltb 0 i
      && ltb i ceiling
      && not (has_unclosed_inline_marker candidate.text)
      && not (unbalanced_fence candidate.text))) [
        | inl t ↦ rw t (cut_piece-IsCut ceiling remaining (i + length sep - 1) (ground arith))
        | inr t ↦ rw t h
      ]

safer-IsCut :
    (ceiling : ℕ) (remaining : Text) (seps : List Text) (p : Piece)
    → All (λ sep. length sep ≤ 2) seps
    → IsCut ceiling remaining p
    → IsCut ceiling remaining (safer ceiling remaining seps p)
unfolding safer
safer-IsCut ceiling remaining [] p l h = h
safer-IsCut ceiling remaining (sep ∷ seps) p l h =
    or_piece-IsCut ceiling remaining sep
      (find_text_from sep (p.split_at + 1) (take (min (length remaining) ceiling) remaining))
      (safer ceiling remaining seps p) l.0 (safer-IsCut ceiling remaining seps p l.1 h)

adjust-IsCut :
    (ceiling : ℕ) (remaining : Text) (p : Piece)
    → IsCut ceiling remaining p
    → IsCut ceiling remaining (adjust ceiling remaining p)
unfolding adjust close_marker
adjust-IsCut ceiling remaining p h =
    let q = close_fence ceiling remaining p in
    let k = close_fence-IsCut ceiling remaining p h in
    let short : All (λ sep. length sep ≤ 2) safe_ends =
      (omega arith, (omega arith, (omega arith, (omega arith, (omega arith, tt))))) in
    elim (Bool-cases (is_nil p.text)) [
      | inl t ↦ rw t h
      | inr t ↦ rw t (elim (Bool-cases (has_unclosed_inline_marker q.text)) [
        | inl u ↦ rw u (safer-IsCut ceiling remaining safe_ends q short k)
        | inr u ↦ rw u k
      ])
    ]

pub next_piece-IsCut :
    (is_digit : ℕ → Bool) (b : Bool) (m : ℕ) (remaining : Text)
    → IsCut (hard_ceiling m) remaining (next_piece is_digit b m remaining)
unfolding next_piece
next_piece-IsCut is_digit b m remaining =
    let window = take (m + 1) remaining in
    let fits : length window ≤ m + 1 = omega (arith, length-take (m + 1) remaining) in
    let low = first_split-le is_digit b m window fits in
    adjust-IsCut (hard_ceiling m) remaining _
      (cut_piece-IsCut (hard_ceiling m) remaining (first_split is_digit b m window) (omega arith))
