-- ===== src/Coalescing.antt =====
-- Messages that waited: `build_outage_context`, `relatedness_score`, `find_coalescable_works` and
-- `coalesce_works_into` of wax/work/recovery.py. Times are whole seconds, and a score is the exact
-- fraction in place of the floating-point number. The letters' lower case and `str.isalnum` are
-- parameters. The rows of a query are those that SKIP LOCKED leaves.
pub mod Finding
pub mod Folding
mod Examples
use waza.Prelude.{
  ℕ, suc, ◌+◌, ◌-◌, ◌*◌, min, max, ◌==◌, leb, ltb, Bool, true, false, ◌&&◌, ◌||◌, not, Option, none,
  some, List, [], ◌∷◌, ◌++◌, take, length, any, rows_where, if◌then◌else◌, or_else, map,
}
use waza.Prelude.Table.{select, order_by}
use waza.Prelude.Text.{Text, codes, text_eq, is_nil, is_space, strip}
use waza.Work.{WorkStatus, queued, retrying, completed}

-- `build_outage_context`; `none` is the empty dictionary.
pub record Outage : Type 0 where
  pub approximate_wait_seconds : ℕ
  pub preserved_message_count : ℕ

unfoldable pub build_outage_context : ℕ → ℕ → ℕ → Bool → Option Outage
build_outage_context min_s wait_seconds preserved_message_count recovered =
    if not recovered || ltb wait_seconds min_s
    then none
    else some (record {
      approximate_wait_seconds = min wait_seconds 86400;
      preserved_message_count = max 1 preserved_message_count;
    })

-- `text.split()` on a text that is read character by character; `word` is the word so far.
abbrev add_word : Text → List Text → List Text
add_word word ws = if is_nil word then ws else word ∷ ws

unfoldable words : Text → Text → List Text
words word [] = add_word word []
words word (c ∷ s) =
    let next = add_word word (words [] s) in
    let more = words (word ++ (c ∷ [])) s in if is_space c then next else more

abbrev pub is_in : Text → List Text → Bool
is_in w ws = any (λ v. text_eq v w) ws

-- A set as a list without repetitions.
unfoldable pub distinct : List Text → List Text
distinct [] = []
distinct (w ∷ ws) = let rest = distinct ws in if is_in w rest then rest else w ∷ rest

module _ (lower : ℕ → Text) (is_alnum : ℕ → Bool) where
  unfoldable normal : Text → Text
  normal [] = []
  normal (c ∷ s) = (if is_alnum c then lower c else 32 ∷ []) ++ normal s

  -- `_token_set`.
  unfoldable pub token_set : Text → List Text
  unfolding words normal distinct
  token_set text = distinct (rows_where (λ w. ltb 1 (length w)) (words [] (normal text)))

-- A fraction, with a denominator above zero.
pub record Score : Type 0 where
  pub num : ℕ
  pub den : ℕ

abbrev pub score_le : Score → Score → Bool
score_le a b = leb (a.num * b.den) (b.num * a.den)

abbrev pub score_max : Score → Score → Score
score_max a b = if score_le a b then b else a

abbrev pub of_hundred : ℕ → Score
of_hundred n = record { num = n; den = 100 }

-- 0.45 · inter / union + 0.35 / (1 + seconds / 60), with 0.2 and 0.1 more, and 1 at most.
abbrev raw_score : ℕ → ℕ → ℕ → ℕ → Score
raw_score inter union extra seconds = record {
  num = 45 * inter * (60 + seconds) + 2100 * union + extra * union * (60 + seconds);
  den = 100 * union * (60 + seconds);
}

abbrev extra_of : ℕ → ℕ → ℕ → ℕ
extra_of inter size_b seconds =
    (if leb size_b 4 && leb seconds 90 then 20 else 0) + (if leb 2 inter then 10 else 0)

abbrev pub capped : Score → Score
capped s = if leb s.den s.num then of_hundred 100 else s

unfoldable pub score_sets : List Text → List Text → ℕ → Score
score_sets [] [] seconds = of_hundred 0
score_sets [] (w ∷ ws) seconds = of_hundred (if leb seconds 45 then 55 else 15)
score_sets (w ∷ ws) [] seconds = of_hundred (if leb seconds 45 then 55 else 15)
score_sets (v ∷ vs) (w ∷ ws) seconds =
    let inter = length (rows_where (λ x. is_in x (w ∷ ws)) (v ∷ vs)) in
    let union = length (v ∷ vs) + length (w ∷ ws) - inter in
    capped (raw_score inter union (extra_of inter (length (w ∷ ws)) seconds) seconds)

unfoldable pub relatedness_score : (ℕ → Text) → (ℕ → Bool) → Text → Text → ℕ → Score
unfolding score_sets token_set
relatedness_score lower is_alnum a b seconds =
    score_sets (token_set lower is_alnum a) (token_set lower is_alnum b) seconds

-- One of the messages that a work's payload keeps together.
pub record Part : Type 0 where
  pub work_id : ℕ
  pub text : Text
  pub created_at : Option ℕ

-- The columns of a work and the keys of its payload and metadata that are read and written here.
pub record Work : Type 0 where
  pub id : ℕ
  pub principal_id : Option ℕ
  pub conversation_id : Option ℕ
  pub is_message_response : Bool
  pub status : WorkStatus
  pub created_at : Option ℕ
  pub completed_at : Option ℕ
  pub error : Option Text
  pub text : Text
  pub payload_recovery : Bool
  pub meta_recovery : Bool
  pub recovery_batch : List Part
  pub coalesced_combined : Text
  pub coalesced_work_ids : List ℕ
  pub coalesced_into : Option ℕ

abbrev pub waits : WorkStatus → Bool
waits queued = true
waits retrying = true
waits _ = false

abbrev pub same_id : Option ℕ → Option ℕ → Bool
same_id none o = false
same_id (some a) none = false
same_id (some a) (some b) = a == b

abbrev pub in_recovery : Work → Bool
in_recovery w = w.meta_recovery || w.payload_recovery

-- The WHERE clause of `find_coalescable_works`.
unfoldable pub is_sibling : Work → Work → Bool
is_sibling anchor w =
    same_id w.principal_id anchor.principal_id
    && same_id w.conversation_id anchor.conversation_id
    && w.is_message_response
    && not (w.id == anchor.id)
    && waits w.status

abbrev pub time_le : Option ℕ → Option ℕ → Bool
time_le o none = true
time_le none (some b) = false
time_le (some a) (some b) = leb a b

abbrev older : Work → Work → Bool
older a b = time_le a.created_at b.created_at

abbrev gap : ℕ → ℕ → ℕ
gap a b = (a - b) + (b - a)

abbrev pub window_of : ℕ → Work → ℕ
window_of window anchor = if in_recovery anchor then max window 180 else window

abbrev scored : Option Score → Work → List (Score × Work) → List (Score × Work)
scored none w rest = rest
scored (some s) w rest = (s, w) ∷ rest

abbrev higher : Score × Work → Score × Work → Bool
higher a b = score_le b.0 a.0

module _ (lower : ℕ → Text) (is_alnum : ℕ → Bool) where
  -- The score of a row in the loop; `none` when it is passed over.
  unfoldable pub sibling_score : ℕ → ℕ → Score → Work → Work → Option Score
  unfolding relatedness_score
  sibling_score now window min_relatedness anchor w =
      let seconds = gap (or_else w.created_at now) (or_else anchor.created_at now) in
      let score = relatedness_score lower is_alnum anchor.text w.text seconds in
      let raised =
        if (in_recovery anchor && in_recovery w) && leb seconds (window * 2)
        then score_max score (of_hundred 50)
        else score in
      if (ltb window seconds && not (anchor.meta_recovery || w.meta_recovery))
        && ltb (window * 2) seconds
      then none
      else (if score_le min_relatedness raised then some raised else none)

  unfoldable pub score_all : ℕ → ℕ → Score → Work → List Work → List (Score × Work)
  unfolding sibling_score
  score_all now window min_relatedness anchor [] = []
  score_all now window min_relatedness anchor (w ∷ ws) =
      scored (sibling_score now window min_relatedness anchor w) w
        (score_all now window min_relatedness anchor ws)

  unfoldable pub find_coalescable_works : ℕ → ℕ → Score → ℕ → Work → List Work → List Work
  unfolding score_all is_sibling
  find_coalescable_works now window min_relatedness max_siblings anchor rows =
      map (λ p. p.1)
        (take max_siblings (
          order_by higher (
            score_all now (window_of window anchor) min_relatedness anchor
              (select (is_sibling anchor) older 20 rows))))

-- A work without a time counts as created now.
abbrev pub earlier : ℕ → Work → Work → Bool
earlier now a b = leb (or_else a.created_at now) (or_else b.created_at now)

abbrev pub part_of : Work → Part
part_of w = record { work_id = w.id; text = take 2000 (strip w.text); created_at = w.created_at }

unfoldable pub parts_of : List Work → List Part
parts_of [] = []
parts_of (w ∷ ws) =
    let rest = parts_of ws in if is_nil (strip w.text) then rest else part_of w ∷ rest

abbrev pub last_text : List Part → Text
last_text [] = []
last_text (p ∷ []) = p.text
last_text (p ∷ q ∷ ps) = last_text (q ∷ ps)

-- `"\n".join(f"- {x['text']}" for x in texts)`.
unfoldable combine : List Part → Text
combine [] = []
combine (p ∷ []) = codes "- " ++ p.text
combine (p ∷ q ∷ ps) = codes "- " ++ (p.text ++ (10 ∷ combine (q ∷ ps)))

unfoldable pub fold_primary : List Part → List Work → Work → Work
unfolding combine
fold_primary texts siblings primary = record primary {
  text = last_text texts;
  recovery_batch = texts;
  coalesced_combined = combine texts;
  payload_recovery = true;
  coalesced_work_ids = map (λ s. s.id) siblings;
}

abbrev pub fold_sibling : ℕ → Work → Work → Work
fold_sibling now primary s = record s {
  status = completed;
  completed_at = some now;
  error = none;
  coalesced_into = some primary.id;
}

pub record Folded : Type 0 where
  pub primary : Work
  pub siblings : List Work
  pub coalesced : ℕ
  pub texts : List Part

abbrev pub has_two : List Part → Bool
has_two [] = false
has_two (p ∷ []) = false
has_two (p ∷ q ∷ ps) = true

unfoldable pub coalesce_works_into : ℕ → Work → List Work → Folded
unfolding fold_primary parts_of
coalesce_works_into now primary [] = record {
  primary = primary;
  siblings = [];
  coalesced = 0;
  texts = [];
}
coalesce_works_into now primary (s ∷ ss) =
    let texts = parts_of (order_by (earlier now) (primary ∷ s ∷ ss)) in
    if has_two texts
    then record {
      primary = fold_primary texts (s ∷ ss) primary;
      siblings = map (fold_sibling now primary) (s ∷ ss);
      coalesced = length (s ∷ ss);
      texts = texts;
    }
    else record { primary = primary; siblings = s ∷ ss; coalesced = 0; texts = texts }
