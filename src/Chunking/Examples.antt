-- ===== src/Chunking/Examples.antt =====
-- `chunk_message` of wax/delivery/chunking.py on concrete texts.
use waza.Prelude.{ℕ, ◌+◌, ◌≤◌, ◌≡◌, refl, leb, Bool, true, ◌&&◌, some, List, [], ◌∷◌, All, length}
use waza.Prelude.Text.{Text, codes, strip, is_space}
use waza.Prelude.Find.{rfind_text, starts_with, count_after, find_text_from, find_text}
use waza.Chunking.Markers.{has_unclosed_inline_marker, unbalanced_fence}
use waza.Chunking.{chunk_message, hard_ceiling, next_piece}
use waza.Chunking.Content.{ink, joined, chunk_message_content, chunk_message_bound}

abbrev ascii_digit : ℕ → Bool
ascii_digit c = leb 48 c && leb c 57

-- The first cut is at a space; the second one splits a word and keeps one character too many.
cut_at_words :
    chunk_message ascii_digit true 8 (codes "one two threefours")
    ≡ some (codes "one two" ∷ codes "threefour" ∷ codes "s" ∷ [])
unfolding chunk_message strip is_space next_piece rfind_text starts_with has_unclosed_inline_marker
    unbalanced_fence count_after find_text_from find_text
cut_at_words = refl

-- The list item is the place to cut at.
cut_at_item :
    chunk_message ascii_digit true 12 (codes "ab cd\n1. ef gh")
    ≡ some (codes "ab cd" ∷ codes "1. ef gh" ∷ [])
unfolding chunk_message strip is_space next_piece rfind_text starts_with has_unclosed_inline_marker
    unbalanced_fence count_after find_text_from find_text
cut_at_item = refl

-- The fence is closed within the slack.
cut_after_fence :
    chunk_message ascii_digit true 8 (codes "```ab cd``` e f")
    ≡ some (codes "```ab cd```" ∷ codes "e f" ∷ [])
unfolding chunk_message strip is_space next_piece rfind_text starts_with has_unclosed_inline_marker
    unbalanced_fence count_after find_text_from find_text
cut_after_fence = refl

chunk_message_content_example :
    (chunks : List Text) × (chunk_message ascii_digit true 8 (codes "one two threefours")
      ≡ some chunks)
    × (ink (joined chunks) ≡ ink (codes "one two threefours"))
chunk_message_content_example =
    chunk_message_content ascii_digit true 8 (codes "one two threefours")

chunk_message_bound_example :
    (chunks : List Text) × (chunk_message ascii_digit true 8 (codes "```ab cd``` e f")
      ≡ some chunks)
    × All (λ c. length c ≤ hard_ceiling 8 + 2) chunks
chunk_message_bound_example = chunk_message_bound ascii_digit true 8 (codes "```ab cd``` e f")
