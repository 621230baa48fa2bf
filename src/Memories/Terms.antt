-- ===== src/Memories/Terms.antt =====
-- The terms of a search: `_clean_terms` of wax/memory/store.py, on a list of texts.
use waza.Prelude.{
  ℕ, ◌-◌, ◌≤◌, ◌≡◌, refl, ap, ◌∙◌, ◌==◌, Bool, true, false, ◌&&◌, List, [], ◌∷◌, ◌++◌, any, length,
  length-append, length-take, length-drop, leb, leb→le, ◌⊎◌, take, drop, take-append-drop,
  if◌then◌else◌, Bool-cases, inl, inr, arith,
}
use waza.Prelude.Text.{Text, codes, text_eq, is_nil, is_space, strip}

abbrev pub max_terms : ℕ
max_terms = 12

-- `s.split(mark)` for a single character.
abbrev onto_first : ℕ → List Text → List Text
onto_first c [] = (c ∷ []) ∷ []
onto_first c (p ∷ ps) = (c ∷ p) ∷ ps

unfoldable split_at_mark : ℕ → Text → List Text
split_at_mark mark [] = [] ∷ []
split_at_mark mark (c ∷ s) =
    let rest = split_at_mark mark s in if c == mark then [] ∷ rest else onto_first c rest

-- `part.split()`.
abbrev add_word : Text → List Text → List Text
add_word word ws = if is_nil word then ws else word ∷ ws

unfoldable split_words : Text → Text → List Text
split_words word [] = add_word word []
split_words word (c ∷ s) =
    let next = add_word word (split_words [] s) in
    let more = split_words (word ++ (c ∷ [])) s in if is_space c then next else more

-- `w.strip(chars)`.
unfoldable strip_left : Text → Text → Text
strip_left chars [] = []
strip_left chars (c ∷ s) =
    let rest = strip_left chars s in if any (λ d. d == c) chars then rest else c ∷ s

unfoldable strip_right : Text → Text → Text
strip_right chars [] = []
strip_right chars (c ∷ s) =
    let rest = strip_right chars s in
    if is_nil rest && any (λ d. d == c) chars then [] else c ∷ rest

abbrev strip_chars : Text → Text → Text
strip_chars chars s = strip_right chars (strip_left chars s)

abbrev quotes : Text
quotes = codes "\"'`“”‘’"

abbrev marks : Text
marks = codes ".,;:!?()[]{}<>"

record Terms : Type 0 where
  phrases : List Text
  words : List Text

abbrev no_terms : Terms
no_terms = record { phrases = []; words = [] }

module _ (lower : Text → Text) where
  unfoldable clean_words : List Text → List Text
  unfolding strip_left strip_right
  clean_words [] = []
  clean_words (w ∷ ws) =
      let rest = clean_words ws in
      let bare = take 200 (strip_chars marks (strip_chars quotes w)) in
      if is_nil bare then rest else lower bare ∷ rest

  -- The parts of an item between its quotation marks: `quoted` says whether the first one is inside.
  unfoldable clean_parts : Bool → List Text → Terms
  unfolding clean_words split_words
  clean_parts quoted [] = no_terms
  clean_parts true (p ∷ ps) =
      let rest = clean_parts false ps in
      let phrase = take 200 (strip p) in
      if is_nil phrase then rest else record rest { phrases = phrase ∷ rest.phrases }
  clean_parts false (p ∷ ps) =
      let rest = clean_parts true ps in
      record rest { words = clean_words (split_words [] p) ++ rest.words }

  unfoldable clean_items : List Text → Terms
  unfolding clean_parts split_at_mark
  clean_items [] = no_terms
  clean_items (item ∷ items) =
      let first = clean_parts false (split_at_mark 34 (strip item)) in
      let rest = clean_items items in
      record { phrases = first.phrases ++ rest.phrases; words = first.words ++ rest.words }

  abbrev seen_in : Text → List Text → Bool
  seen_in x seen = any (λ y. text_eq (lower y) (lower x)) seen

  -- `_dedup`, with what is kept so far.
  unfoldable dedup : List Text → List Text → List Text
  dedup seen [] = []
  dedup seen (x ∷ xs) =
      let again = dedup seen xs in
      let new = dedup (x ∷ seen) xs in if seen_in x seen then again else x ∷ new

  -- The terms that are used, and the ones that are dropped.
  unfoldable pub clean_terms : List Text → List Text × List Text
  unfolding clean_items dedup
  clean_terms raw =
      let all = clean_items raw in
      let phrases = dedup [] all.phrases in
      let words = dedup [] all.words in
      (phrases ++ take (max_terms - length phrases) words, drop (max_terms - length phrases) words)

  append_assoc : (a b c : List Text) → (a ++ b) ++ c ≡ a ++ (b ++ c)
  append_assoc [] b c = refl
  append_assoc (x ∷ a) b c = rw (append_assoc a b c) refl

  -- No two of the words are the same but for their case.
  abbrev pub Fresh : List Text → List Text → Type 0
  Fresh seen [] = Unit
  Fresh seen (x ∷ xs) = (seen_in x seen ≡ false) × Fresh (x ∷ seen) xs

  dedup-Fresh : (seen xs : List Text) → Fresh seen (dedup seen xs)
  unfolding dedup
  dedup-Fresh seen [] = tt
  dedup-Fresh seen (x ∷ xs) = elim (Bool-cases (seen_in x seen)) [
    | inl t ↦ rw t (dedup-Fresh seen xs)
    | inr t ↦ rw t (t, dedup-Fresh (x ∷ seen) xs)
  ]

  enough :
      (phrases words : List Text)
      → (length (drop (max_terms - length phrases) words) ≡ 0)
        ⊎ (max_terms ≤ length (phrases ++ take (max_terms - length phrases) words))
  enough phrases words =
      let room = max_terms - length phrases in
      let used = length-append phrases (take room words) in
      let kept = length-take room words in
      let lost = length-drop room words in
      elim (Bool-cases (leb (length words) room)) [
        | inl t ↦ inl (ground (arith, lost, leb→le (length words) room t))
        | inr t ↦ inr (ground (arith, used, kept, t))
      ]

  -- The terms that are used and the ones that are dropped are together the list's distinct phrases,
  -- followed by its distinct words: no term is lost without being reported, and words are dropped only
  -- when there are at least 12 terms in use. Among the phrases, and among the words, no two are the
  -- same but for their case.
  clean_terms_partition :
      (raw : List Text)
      → (phrases : List Text) × (words : List Text) × Fresh [] phrases
        × Fresh [] words
        × ((clean_terms raw).0 ++ (clean_terms raw).1 ≡ phrases ++ words)
        × ((length (clean_terms raw).1 ≡ 0) ⊎ (max_terms ≤ length (clean_terms raw).0))
  unfolding clean_terms
  clean_terms_partition raw =
      let all = clean_items raw in
      let phrases = dedup [] all.phrases in
      let words = dedup [] all.words in
      let room = max_terms - length phrases in
      (
        phrases,
        words,
        dedup-Fresh [] all.phrases,
        dedup-Fresh [] all.words,
        append_assoc phrases (take room words) (drop room words)
            ∙ ap (λ t. phrases ++ t) (take-append-drop room words),
        enough phrases words,
      )
