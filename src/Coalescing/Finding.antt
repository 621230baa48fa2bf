-- ===== src/Coalescing/Finding.antt =====
-- The works that `find_coalescable_works` of wax/work/recovery.py takes, and the scores that it takes them by.
use waza.Prelude.{
  ℕ, suc, ◌+◌, ◌-◌, ◌*◌, ◌≤◌, ◌<◌, ◌≡◌, ◌≢◌, ◌⊎◌, refl, ap, Bool, true, ◌&&◌, ◌||◌, leb, or_else,
  ==_iff, Option, none, some, List, [], ◌∷◌, All, All-take, All-map, length, length-take, take,
  rows_where, map, is_some, arith,
}
use waza.Prelude.Table.{select, order_by, All-order_by, All-select_test}
use waza.Prelude.Text.{Text}
use waza.Work.{WorkStatus, queued, retrying}
use waza.Coalescing.{
  Score, Work, is_in, raw_score, extra_of, capped, score_sets, relatedness_score, token_set,
  is_sibling, same_id, waits, in_recovery, score_le, of_hundred, sibling_score, scored, score_all,
  higher, older, window_of, find_coalescable_works,
}

capped-bounds : (s : Score) → ((capped s).num ≤ (capped s).den) × (0 < (capped s).den)
capped-bounds s = ground arith

sets-bounds :
    (a b : List Text) (seconds : ℕ)
    → ((score_sets a b seconds).num ≤ (score_sets a b seconds).den)
      × (0 < (score_sets a b seconds).den)
unfolding score_sets
sets-bounds [] [] seconds = (omega arith, omega arith)
sets-bounds [] (w ∷ ws) seconds = ground arith
sets-bounds (v ∷ vs) [] seconds = ground arith
sets-bounds (v ∷ vs) (w ∷ ws) seconds =
    let inter = length (rows_where (λ x. is_in x (w ∷ ws)) (v ∷ vs)) in
    let union = length (v ∷ vs) + length (w ∷ ws) - inter in
    capped-bounds (raw_score inter union (extra_of inter (length (w ∷ ws)) seconds) seconds)

-- How related two texts are is a number from 0 to 1, whatever the texts and the time between them.
relatedness_bounds :
    (lower : ℕ → Text) (is_alnum : ℕ → Bool) (a b : Text) (seconds : ℕ)
    → ((relatedness_score lower is_alnum a b seconds).num
        ≤ (relatedness_score lower is_alnum a b seconds).den)
      × (0 < (relatedness_score lower is_alnum a b seconds).den)
unfolding relatedness_score
relatedness_bounds lower is_alnum a b seconds =
    sets-bounds (token_set lower is_alnum a) (token_set lower is_alnum b) seconds

-- The two works are at most twice the window apart.
abbrev pub near : ℕ → ℕ → Work → Work → Bool
near now window a w =
    leb
      ((or_else w.created_at now - or_else a.created_at now)
        + (or_else a.created_at now - or_else w.created_at now))
      (window * 2)

module _ (lower : ℕ → Text) (is_alnum : ℕ → Bool) (now window : ℕ) (min_relatedness : Score)
    (anchor : Work) where
  -- A work that may be folded into the turn of the anchor.
  pub record Foldable (w : Work) : Type 0 where
    pub principal : is_some w.principal_id ≡ true × (w.principal_id ≡ anchor.principal_id)
    pub conversation :
        is_some w.conversation_id ≡ true × (w.conversation_id ≡ anchor.conversation_id)
    pub kind : w.is_message_response ≡ true
    pub another : w.id ≢ anchor.id
    pub status : (w.status ≡ queued) ⊎ (w.status ≡ retrying)
    -- far apart only if one of the two is marked as recovery
    pub close_by : (near now window anchor w || (anchor.meta_recovery || w.meta_recovery)) ≡ true
    -- related enough, or both in recovery and close
    pub related :
        (score_le min_relatedness (
            relatedness_score lower is_alnum anchor.text w.text (
              (or_else w.created_at now - or_else anchor.created_at now)
              + (or_else anchor.created_at now - or_else w.created_at now)))
          || (in_recovery anchor
              && in_recovery w
              && near now window anchor w
              && score_le min_relatedness (of_hundred 50)))
        ≡ true

  same_id_some : (a b : Option ℕ) → same_id a b ≡ true → is_some a ≡ true × (a ≡ b)
  same_id_some none b h = cc
  same_id_some (some a) none h = cc
  same_id_some (some a) (some b) h = (refl, ap some ((==_iff a b).0 h))

  waits_one_of : (t : WorkStatus) → waits t ≡ true → (t ≡ queued) ⊎ (t ≡ retrying)
  waits_one_of t h = ground arith

  Foldable-test :
      (w : Work)
      → is_sibling anchor w ≡ true
      → is_some (sibling_score lower is_alnum now window min_relatedness anchor w) ≡ true
      → Foldable w
  unfolding is_sibling sibling_score
  Foldable-test w t h = record {
    principal = same_id_some w.principal_id anchor.principal_id (ground arith);
    conversation = same_id_some w.conversation_id anchor.conversation_id (ground arith);
    kind = ground arith;
    another = λ e. ground arith;
    status = waits_one_of w.status (ground arith);
    close_by = ground arith;
    related = ground arith;
  }

  scored-Foldable :
      (o : Option Score) (w : Work) (rest : List (Score × Work))
      → sibling_score lower is_alnum now window min_relatedness anchor w ≡ o
      → is_sibling anchor w ≡ true
      → All (λ p. Foldable p.1) rest
      → All (λ p. Foldable p.1) (scored o w rest)
  scored-Foldable none w rest e t h = h
  scored-Foldable (some s) w rest e t h = (Foldable-test w t (ap is_some e), h)

  score_all-Foldable :
      (ws : List Work)
      → All (λ w. is_sibling anchor w ≡ true) ws
      → All (λ p. Foldable p.1) (score_all lower is_alnum now window min_relatedness anchor ws)
  unfolding score_all
  score_all-Foldable [] h = tt
  score_all-Foldable (w ∷ ws) h =
      scored-Foldable (sibling_score lower is_alnum now window min_relatedness anchor w) w _ refl
        h.0 (score_all-Foldable ws h.1)

length-map : {A B : Type 0} (f : A → B) (xs : List A) → length (map f xs) ≡ length xs
length-map f [] = refl
length-map f (x ∷ xs) = ap suc (length-map f xs)

-- Whatever the table holds, at most `max_siblings` works are taken, and each of them is another
-- `message_response` work of the anchor's principal and conversation, queued or retrying, at most twice
-- the window from the anchor unless the metadata of one of the two marks a recovery, and related
-- enough, where two works in recovery within twice the window count as related by at least a half. The
-- window is the one that a recovery of the anchor widens.
pub find_coalescable_only :
    (lower : ℕ → Text) (is_alnum : ℕ → Bool) (now window max_siblings : ℕ) (min_relatedness : Score)
    (anchor : Work) (rows : List Work)
    → (length (
          find_coalescable_works lower is_alnum now window min_relatedness max_siblings anchor rows)
        ≤ max_siblings)
      × All (Foldable lower is_alnum now (window_of window anchor) min_relatedness anchor) (
          find_coalescable_works lower is_alnum now window min_relatedness max_siblings anchor rows)
unfolding find_coalescable_works
find_coalescable_only lower is_alnum now window max_siblings min_relatedness anchor rows =
    let selected = select (is_sibling anchor) older 20 rows in
    let all =
      score_all lower is_alnum now (window_of window anchor) min_relatedness anchor selected in
    let foldable = Foldable lower is_alnum now (window_of window anchor) min_relatedness anchor in
    (
      omega (
        arith,
        length-map (λ p. p.1) (take max_siblings (order_by higher all)),
        length-take max_siblings (order_by higher all),
      ),
      All-map (λ p. foldable p.1) foldable (λ p. p.1) (take max_siblings (order_by higher all))
          (λ p h. h)
          (All-take (λ p. foldable p.1) max_siblings (order_by higher all)
            (All-order_by (λ p. foldable p.1) higher all
              (score_all-Foldable lower is_alnum now (window_of window anchor) min_relatedness
                anchor selected
                (All-select_test (λ w. is_sibling anchor w ≡ true) (is_sibling anchor) older 20 rows
                  (λ w t. t))))),
    )
