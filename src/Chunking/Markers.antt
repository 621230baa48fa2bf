-- ===== src/Chunking/Markers.antt =====
-- Code fences and inline markers: `_unbalanced_fence` and `_has_unclosed_inline_marker` of
-- wax/delivery/chunking.py, with its regular expressions written out.
use waza.Prelude.{
  ℕ, zero, suc, ◌+◌, ◌%◌, ◌==◌, Bool, true, false, ◌&&◌, ◌||◌, not, Option, none, some, [], ◌∷◌,
  if◌then◌else◌,
}
use waza.Prelude.Text.{Text, codes, is_nil}
use waza.Prelude.Find.{starts_with, find_text_from, count_after}

abbrev pub fence : Text
fence = codes "```"

unfoldable pub unbalanced_fence : Text → Bool
unbalanced_fence text = count_after fence 0 text % 2 == 1

-- `re.sub` of ```.*?``` by nothing: the characters after the first one of a fenced part to leave out.
unfoldable fenced_rest : Text → Option ℕ
fenced_rest s = elim (find_text_from fence 3 s) [
  | none ↦ none
  | some close ↦ if starts_with fence s then some (close + 2) else none
]

unfoldable drop_fenced : ℕ → Text → Text
drop_fenced skip [] = []
drop_fenced (suc skip) (c ∷ s) = drop_fenced skip s
drop_fenced zero (c ∷ s) = elim (fenced_rest (c ∷ s)) [
  | none ↦ c ∷ drop_fenced 0 s
  | some skip ↦ drop_fenced skip s
]

-- Whether `[^\n]*$` takes the rest: its only line break, if any, is its last character.
unfoldable last_line : Text → Bool
last_line [] = true
last_line (c ∷ s) = if c == 10 then is_nil s else last_line s

-- What `$` leaves: the line break at the end.
unfoldable line_end : Text → Text
line_end [] = []
line_end (c ∷ s) = if c == 10 then c ∷ s else line_end s

-- `re.sub` of ```[^\n]*$ by nothing.
unfoldable drop_open_fence : Text → Text
unfolding last_line line_end
drop_open_fence [] = []
drop_open_fence (c ∷ s) =
    let rest = drop_open_fence s in
    if starts_with fence (c ∷ s) && last_line (c ∷ s) then line_end (c ∷ s) else c ∷ rest

-- The occurrences of a marker that has no other beside it; `before` says that one is just before.
unfoldable count_lone : ℕ → Bool → Text → ℕ
count_lone marker before [] = 0
count_lone marker before (c ∷ s) =
    let rest = count_lone marker (c == marker) s in
    if c == marker && not before && not (starts_with (marker ∷ []) s) then suc rest else rest

unfoldable pub has_unclosed_inline_marker : Text → Bool
unfolding drop_fenced drop_open_fence count_lone fenced_rest
has_unclosed_inline_marker text =
    let stripped = drop_open_fence (drop_fenced 0 text) in
    count_lone 42 false stripped % 2 == 1
    || count_lone 95 false stripped % 2 == 1
    || count_after (codes "`") 0 stripped % 2 == 1
