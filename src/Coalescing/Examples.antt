-- ===== src/Coalescing/Examples.antt =====
-- `find_coalescable_works` and `coalesce_works_into` of wax/work/recovery.py on concrete works.
use waza.Prelude.{
  ℕ, ◌≤◌, ◌≡◌, refl, leb, Bool, true, false, ◌&&◌, none, some, [], ◌∷◌, All, length, inl, inr,
}
use waza.Prelude.Table.{order_by, insert_by}
use waza.Prelude.Rows.{In}
use waza.Prelude.Text.{Text, codes, strip, lstrip, rstrip, is_space}
use waza.Work.{queued, completed}
use waza.Coalescing.{
  Work, of_hundred, find_coalescable_works, window_of, coalesce_works_into, part_of, parts_of,
}
use waza.Coalescing.Finding.{Foldable, find_coalescable_only}
use waza.Coalescing.Folding.{coalesce_keeps_parts}

abbrev same_letter : ℕ → Text
same_letter c = c ∷ []

abbrev is_small : ℕ → Bool
is_small c = leb 97 c && leb c 122

abbrev turn : ℕ → ℕ → Text → Work
turn id time text = record {
  id = id;
  principal_id = some 1;
  conversation_id = some 2;
  is_message_response = true;
  status = queued;
  created_at = some time;
  completed_at = none;
  error = none;
  text = text;
  payload_recovery = false;
  meta_recovery = false;
  recovery_batch = [];
  coalesced_combined = [];
  coalesced_work_ids = [];
  coalesced_into = none;
}

abbrev anchor : Work
anchor = turn 1 100 (codes "solve it")

abbrev follow_up : Work
follow_up = turn 2 110 (codes "and this")

find_coalescable_only_example :
    (length (
        find_coalescable_works same_letter is_small 200 90
          (of_hundred 42)
          6
          anchor
          (anchor ∷ follow_up ∷ []))
      ≤ 6)
    × All (Foldable same_letter is_small 200 (window_of 90 anchor) (of_hundred 42) anchor) (
        find_coalescable_works same_letter is_small 200 90
          (of_hundred 42)
          6
          anchor
          (anchor ∷ follow_up ∷ []))
find_coalescable_only_example =
    find_coalescable_only same_letter is_small 200 90 6 (of_hundred 42) anchor
      (anchor ∷ follow_up ∷ [])

coalesce_keeps_parts_example :
    In (part_of follow_up) (coalesce_works_into 200 anchor (follow_up ∷ [])).primary.recovery_batch
    × All
        (λ x. (x.status ≡ completed) × (x.coalesced_into ≡ some 1))
        (coalesce_works_into 200 anchor (follow_up ∷ [])).siblings
unfolding order_by insert_by parts_of strip lstrip rstrip is_space
coalesce_keeps_parts_example =
    coalesce_keeps_parts 200 anchor follow_up follow_up [] refl (inr (inl refl)) refl
