-- ===== src/Chunking.antt =====
-- wax/delivery/chunking.py: a long reply cut into chunks. `int(max_chars * CODE_FENCE_SLACK)` is
-- three halves of `max_chars`; the regular expressions are written out, with `is_digit` for `\d`.
-- `none` stands for a search that finds nothing, and for a loop that is out of fuel.
pub mod Markers
pub mod Splits
pub mod Content
pub mod Examples
use waza.Prelude.{
  ℕ, zero, suc, ◌+◌, ◌-◌, ◌*◌, ◌/◌, ◌==◌, leb, ltb, Bool, true, false, ◌&&◌, ◌||◌, not, Option,
  none, some, List, [], ◌∷◌, length, take, drop, rows_where, if◌then◌else◌, min,
}
use waza.Prelude.Text.{Text, codes, is_nil, is_space, strip, lstrip}
use waza.Prelude.Find.{starts_with, find_text_from, rfind_text}
use waza.Chunking.Markers.{fence, unbalanced_fence, has_unclosed_inline_marker}

-- The positions that a preference may cut at: those above a part of the limit.
unfoldable above : ℕ → Option ℕ → Option ℕ
above bound none = none
above bound (some i) = if ltb bound i then some i else none

-- Where a preference found no cut, the next one is tried.
unfoldable prefer : Option ℕ → Option ℕ → Option ℕ
prefer none o = o
prefer (some i) o = some i

unfoldable paragraph_break : Bool → ℕ → Text → Option ℕ
unfolding above
paragraph_break prefer_paragraphs max_chars window =
    if prefer_paragraphs then above (max_chars / 3) (rfind_text (codes "\n\n") window) else none

-- `re.match(r"\d+\.\s", after)`.
abbrev ends_number : Text → Bool
ends_number (d ∷ c ∷ s) = d == 46 && is_space c
ends_number _ = false

unfoldable numbered : (ℕ → Bool) → Bool → Text → Bool
numbered is_digit seen [] = false
numbered is_digit seen (c ∷ s) =
    let rest = numbered is_digit true s in if is_digit c then rest else seen && ends_number (c ∷ s)

unfoldable is_item : (ℕ → Bool) → Text → Bool
unfolding numbered
is_item is_digit after =
    starts_with (codes "• ") after
    || numbered is_digit false after
    || starts_with (codes "- ") after

-- The list item to cut at, below position `n`: the line breaks are tried from the last one down.
unfoldable item_below : (ℕ → Bool) → ℕ → Text → ℕ → Option ℕ
unfolding is_item
item_below is_digit bound window zero = none
item_below is_digit bound window (suc n) =
    let rest = item_below is_digit bound window n in
    if not (ltb bound n)
    then none
    else (if starts_with (codes "\n") (drop n window)
          && is_item is_digit (take 5 (drop (suc n) window))
        then some n
        else rest)

abbrev sep_end : Text → Option ℕ → Option ℕ
sep_end sep none = none
sep_end sep (some i) = some (i + length sep - 1)

unfoldable sentence_break : ℕ → List Text → Text → Option ℕ
unfolding above prefer
sentence_break max_chars [] window = none
sentence_break max_chars (sep ∷ seps) window =
    prefer (sep_end sep (above (max_chars / 3) (rfind_text sep window)))
      (sentence_break max_chars seps window)

abbrev sentence_ends : List Text
sentence_ends = codes ". " ∷ codes "! " ∷ codes "? " ∷ codes ".\n" ∷ codes "!\n" ∷ codes "?\n" ∷ []

abbrev or_at : Option ℕ → ℕ → ℕ
or_at none n = n
or_at (some i) n = i

-- `split_at` before the fences and markers are looked at.
unfoldable first_split : (ℕ → Bool) → Bool → ℕ → Text → ℕ
unfolding prefer paragraph_break item_below sentence_break above
first_split is_digit prefer_paragraphs max_chars window =
    or_at
      (prefer (paragraph_break prefer_paragraphs max_chars window) (
        prefer (item_below is_digit (max_chars / 3) window (length window)) (
          prefer (sentence_break max_chars sentence_ends window) (
            prefer (above (max_chars / 3) (rfind_text (codes "\n") window))
              (above (max_chars / 4) (rfind_text (codes " ") window))))))
      max_chars

-- A piece and its `split_at`.
record Piece : Type 0 where
  text : Text
  split_at : ℕ

-- `remaining[: end].strip()` for the position after `split_at`.
unfoldable cut_piece : Text → ℕ → Piece
cut_piece remaining split_at = record {
  text = strip (take (suc split_at) remaining);
  split_at = split_at;
}

abbrev pub hard_ceiling : ℕ → ℕ
hard_ceiling max_chars = max_chars * 3 / 2

-- The cut after the fence's closing marker, when there is one within the slack.
abbrev close_at : ℕ → Text → Piece → Option ℕ → Piece
close_at ceiling remaining p none = p
close_at ceiling remaining p (some close) =
    if ltb 0 close && ltb close ceiling then cut_piece remaining (close + 2) else p

unfoldable close_fence : ℕ → Text → Piece → Piece
unfolding cut_piece
close_fence ceiling remaining p =
    if unbalanced_fence p.text
    then close_at ceiling remaining p (find_text_from fence (p.split_at + 1) remaining)
    else p

-- The cut at one separator after the piece: `some` when it is a safer one.
unfoldable safer_at : ℕ → Text → Text → Option ℕ → Option Piece
unfolding cut_piece
safer_at ceiling remaining sep none = none
safer_at ceiling remaining sep (some i) =
    let candidate = cut_piece remaining (i + length sep - 1) in
    if ltb 0 i
      && ltb i ceiling
      && not (has_unclosed_inline_marker candidate.text)
      && not (unbalanced_fence candidate.text)
    then some candidate
    else none

abbrev or_piece : Option Piece → Piece → Piece
or_piece none p = p
or_piece (some q) p = q

unfoldable safer : ℕ → Text → List Text → Piece → Piece
unfolding safer_at
safer ceiling remaining [] p = p
safer ceiling remaining (sep ∷ seps) p =
    let extended = take (min (length remaining) ceiling) remaining in
    or_piece (safer_at ceiling remaining sep (find_text_from sep (p.split_at + 1) extended))
      (safer ceiling remaining seps p)

abbrev safe_ends : List Text
safe_ends = codes "\n\n" ∷ codes ". " ∷ codes "!\n" ∷ codes "?\n" ∷ codes "\n" ∷ []

unfoldable close_marker : ℕ → Text → Piece → Piece
unfolding safer
close_marker ceiling remaining p =
    if has_unclosed_inline_marker p.text then safer ceiling remaining safe_ends p else p

unfoldable adjust : ℕ → Text → Piece → Piece
unfolding close_fence close_marker
adjust ceiling remaining p =
    if is_nil p.text then p else close_marker ceiling remaining (close_fence ceiling remaining p)

-- One turn of the loop: the piece taken from the front of `remaining`.
unfoldable next_piece : (ℕ → Bool) → Bool → ℕ → Text → Piece
unfolding first_split adjust cut_piece
next_piece is_digit prefer_paragraphs max_chars remaining =
    adjust (hard_ceiling max_chars) remaining (
      cut_piece remaining
        (first_split is_digit prefer_paragraphs max_chars (take (max_chars + 1) remaining)))

abbrev add_chunk : Text → Option (List Text) → Option (List Text)
add_chunk piece none = none
add_chunk piece (some chunks) = some (if is_nil piece then chunks else piece ∷ chunks)

unfoldable chunk_loop : (ℕ → Bool) → Bool → ℕ → ℕ → Text → Option (List Text)
chunk_loop is_digit prefer_paragraphs max_chars fuel [] = some []
chunk_loop is_digit prefer_paragraphs max_chars zero (c ∷ s) = none
chunk_loop is_digit prefer_paragraphs max_chars (suc fuel) (c ∷ s) =
    let p = next_piece is_digit prefer_paragraphs max_chars (c ∷ s) in
    let rest =
      chunk_loop is_digit prefer_paragraphs max_chars fuel
        (lstrip (drop (suc p.split_at) (c ∷ s))) in
    if leb (length (c ∷ s)) max_chars
    then add_chunk (strip (c ∷ s)) (some [])
    else add_chunk p.text rest

-- Each turn takes at least one character, so the text's length is fuel enough.
unfoldable chunk_message : (ℕ → Bool) → Bool → ℕ → Text → Option (List Text)
unfolding chunk_loop
chunk_message is_digit prefer_paragraphs max_chars text =
    let stripped = strip text in
    let chunks = chunk_loop is_digit prefer_paragraphs max_chars (length stripped) stripped in
    if is_nil stripped
    then some []
    else (if leb (length stripped) max_chars then some (stripped ∷ []) else chunks)
