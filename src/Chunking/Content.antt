-- ===== src/Chunking/Content.antt =====
-- What `chunk_message` of wax/delivery/chunking.py gives: nothing of the text is lost, and no chunk
-- is longer than the slack allows.
use waza.Prelude.{
  ℕ, zero, suc, ◌+◌, ◌≤◌, ◌≡◌, refl, sym, ap, subst, ◌∙◌, Bool, ◌&&◌, not, Option, none, some, List,
  [], ◌∷◌, ◌++◌, All, length, take, drop, length-take, length-drop, rows_where, rows_where-append,
  take-append-drop, leb, if◌then◌else◌, Bool-cases, inl, inr, leb→le, arith,
}
use waza.Prelude.Text.{Text, is_nil, is_space, strip, lstrip, rstrip, length-strip, length-lstrip}
use waza.Chunking.{hard_ceiling, next_piece, add_chunk, chunk_loop, chunk_message}
use waza.Chunking.Splits.{next_piece-IsCut}

-- The characters that are not white space, in order.
abbrev pub ink : Text → Text
ink s = rows_where (λ c. not (is_space c)) s

abbrev pub joined : List Text → Text
joined [] = []
joined (t ∷ ts) = t ++ joined ts

ink-lstrip : (s : Text) → ink (lstrip s) ≡ ink s
unfolding lstrip
ink-lstrip [] = refl
ink-lstrip (c ∷ s) = ground (arith, ink-lstrip s)

-- One character in front of a stripped text.
ink-trim :
    (c : ℕ) (r s : Text)
    → ink r ≡ ink s
    → ink (if is_nil r && is_space c then [] else c ∷ r) ≡ ink (c ∷ s)
ink-trim c [] s h = ground (arith, h)
ink-trim c (x ∷ xs) s h = ground (arith, h)

ink-rstrip : (s : Text) → ink (rstrip s) ≡ ink s
unfolding rstrip
ink-rstrip [] = refl
ink-rstrip (c ∷ s) = ink-trim c (rstrip s) s (ink-rstrip s)

ink-strip : (s : Text) → ink (strip s) ≡ ink s
unfolding strip
ink-strip s = ink-rstrip (lstrip s) ∙ ink-lstrip s

-- A piece and what is left hold the characters of the text.
ink-cut : (n : ℕ) (s : Text) → ink (strip (take n s)) ++ ink (lstrip (drop n s)) ≡ ink s
ink-cut n s =
    rw (ink-strip (take n s), ink-lstrip (drop n s))
      (sym (rows_where-append (λ c. not (is_space c)) (take n s) (drop n s))
        ∙ ap ink (take-append-drop n s))

-- The outcome of the loop on a text: chunks with the characters of the text, none too long.
record Chunked (max_chars : ℕ) (s : Text) (o : Option (List Text)) : Type 0 where
  chunks : List Text
  returned : o ≡ some chunks
  content : ink (joined chunks) ≡ ink s
  bound : All (λ c. length c ≤ hard_ceiling max_chars + 2) chunks

no_chunks : (m : ℕ) → Chunked m [] (some [])
no_chunks m = record { chunks = []; returned = refl; content = refl; bound = tt }

-- Leaving out an empty chunk loses nothing.
joined-keep :
    (piece : Text) (chunks : List Text)
    → joined (if is_nil piece then chunks else piece ∷ chunks) ≡ piece ++ joined chunks
joined-keep [] chunks = refl
joined-keep (c ∷ s) chunks = refl

All-keep :
    (k : ℕ) (piece : Text) (chunks : List Text)
    → length piece ≤ k
    → All (λ c. length c ≤ k) chunks
    → All (λ c. length c ≤ k) (if is_nil piece then chunks else piece ∷ chunks)
All-keep k [] chunks l h = h
All-keep k (c ∷ s) chunks l h = (l, h)

append-nil : (s : Text) → s ++ [] ≡ s
append-nil [] = refl
append-nil (c ∷ s) = rw (append-nil s) refl

add_chunk-Chunked :
    (m : ℕ) (piece rest s : Text) (o : Option (List Text))
    → length piece ≤ hard_ceiling m + 2
    → ink piece ++ ink rest ≡ ink s
    → Chunked m rest o
    → Chunked m s (add_chunk piece o)
add_chunk-Chunked m piece rest s none l e r = absurd (ground (arith, r.returned))
add_chunk-Chunked m piece rest s (some chunks) l e r =
    let same : chunks ≡ r.chunks = ground (arith, r.returned) in
    record {
      chunks = if is_nil piece then chunks else piece ∷ chunks;
      returned = refl;
      content =
          ap ink (joined-keep piece chunks)
          ∙ rows_where-append (λ c. not (is_space c)) piece (joined chunks)
          ∙ ap (λ t. ink piece ++ ink (joined t)) same
          ∙ ap (λ t. ink piece ++ t) r.content
          ∙ e;
      bound =
          All-keep (hard_ceiling m + 2) piece chunks l
            (subst (λ t. All (λ c. length c ≤ hard_ceiling m + 2) t) (sym same) r.bound);
    }

length-cut : (n k : ℕ) (s : Text) → suc n ≤ k → length (strip (take (suc n) s)) ≤ k
length-cut n k s h = omega (arith, length-strip (take (suc n) s), length-take (suc n) s)

shorter :
    (n c : ℕ) (s : Text) (fuel : ℕ)
    → length s ≤ fuel
    → length (lstrip (drop (suc n) (c ∷ s))) ≤ fuel
shorter n c s fuel h = omega (arith, length-lstrip (drop n s), length-drop n s)

chunk_loop-Chunked :
    (is_digit : ℕ → Bool) (b : Bool) (m fuel : ℕ) (s : Text)
    → length s ≤ fuel
    → Chunked m s (chunk_loop is_digit b m fuel s)
unfolding chunk_loop
chunk_loop-Chunked is_digit b m fuel [] l = no_chunks m
chunk_loop-Chunked is_digit b m zero (c ∷ s) l = absurd (omega arith)
chunk_loop-Chunked is_digit b m (suc fuel) (c ∷ s) l =
    let p = next_piece is_digit b m (c ∷ s) in
    let k = next_piece-IsCut is_digit b m (c ∷ s) in
    let left = lstrip (drop (suc p.split_at) (c ∷ s)) in
    elim (Bool-cases (leb (length (c ∷ s)) m)) [
      | inl t ↦ rw t (
          add_chunk-Chunked m (strip (c ∷ s)) [] (c ∷ s) (some [])
            (omega (arith, length-strip (c ∷ s), leb→le (length (c ∷ s)) m t))
            (append-nil (ink (strip (c ∷ s))) ∙ ink-strip (c ∷ s)) (no_chunks m))
      | inr t ↦ rw t (
          add_chunk-Chunked m p.text left (c ∷ s) _
            (rw k.0 (length-cut p.split_at (hard_ceiling m + 2) (c ∷ s) (omega (arith, k.1))))
            (rw k.0 (ink-cut (suc p.split_at) (c ∷ s)))
            (chunk_loop-Chunked is_digit b m fuel left (shorter p.split_at c s fuel (omega arith))))
    ]

-- The text without the white space around it, and what the source does with it.
stripped-Chunked :
    (is_digit : ℕ → Bool) (b : Bool) (m : ℕ) (t : Text)
    → Chunked m t (
        if is_nil t
        then some []
        else (if leb (length t) m then some (t ∷ []) else chunk_loop is_digit b m (length t) t))
stripped-Chunked is_digit b m [] = no_chunks m
stripped-Chunked is_digit b m (c ∷ s) = elim (Bool-cases (leb (length (c ∷ s)) m)) [
  | inl t ↦
      let l = leb→le (length (c ∷ s)) m t in
      rw t (
        add_chunk-Chunked m (c ∷ s) [] (c ∷ s) (some []) (omega arith) (append-nil (ink (c ∷ s)))
          (no_chunks m))
  | inr t ↦ rw t (chunk_loop-Chunked is_digit b m (length (c ∷ s)) (c ∷ s) (omega arith))
]

chunk_message-Chunked :
    (is_digit : ℕ → Bool) (b : Bool) (m : ℕ) (s : Text) → Chunked m s (chunk_message is_digit b m s)
unfolding chunk_message
chunk_message-Chunked is_digit b m s =
    let r = stripped-Chunked is_digit b m (strip s) in
    record {
      chunks = r.chunks;
      returned = r.returned;
      content = r.content ∙ ink-strip s;
      bound = r.bound;
    }

-- For every limit and text, the loop ends within its fuel, and the chunks put together hold exactly
-- the text's characters that are not white space, in their order.
pub chunk_message_content :
    (is_digit : ℕ → Bool) (prefer_paragraphs : Bool) (max_chars : ℕ) (text : Text)
    → (chunks : List Text) × (chunk_message is_digit prefer_paragraphs max_chars text ≡ some chunks)
      × (ink (joined chunks) ≡ ink text)
chunk_message_content is_digit b m s =
    let r = chunk_message-Chunked is_digit b m s in (r.chunks, r.returned, r.content)

-- For every limit and text, the result is a list of chunks, and no chunk is longer than one and a
-- half times the limit, rounded down, plus two characters.
pub chunk_message_bound :
    (is_digit : ℕ → Bool) (prefer_paragraphs : Bool) (max_chars : ℕ) (text : Text)
    → (chunks : List Text) × (chunk_message is_digit prefer_paragraphs max_chars text ≡ some chunks)
      × All (λ c. length c ≤ hard_ceiling max_chars + 2) chunks
chunk_message_bound is_digit b m s =
    let r = chunk_message-Chunked is_digit b m s in (r.chunks, r.returned, r.bound)
