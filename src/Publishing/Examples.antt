-- ===== src/Publishing/Examples.antt =====
-- The operations of wax/surfaces/service.py on one surface.
use waza.Prelude.{ℕ, ◌*◌, ◌≤◌, ◌≡◌, ◌≢◌, refl, true, none, some, [], ◌∷◌, map, length}
use waza.Prelude.Table.{find, store}
use waza.Prelude.Text.{Text, codes}
use waza.Surface.{Policy, active}
use waza.Publishing.{
  State, Surface, Db, Change, updated, update_row, utf8_length, update_html, on_row, write_revision,
  edit, is_encodable,
}
use waza.Publishing.Create.{Creation, already_there, create, gate, insert_surface}
use waza.Publishing.Numbers.{numbers, from_one, current}
use waza.Publishing.Revisions.{no_surfaces}
use waza.Publishing.Runs.{Run, AllStored, begin, creates, updates, revisions_numbered}
use waza.Publishing.Exclusive.{base_claimed_once}
use waza.Publishing.Creating.{create_idempotent}
use waza.Publishing.Requests.{Tables, AiStatus, accept_ai_request, apply_ai_result, reply}
use waza.Publishing.Asking.{silent, asks_for, gets, asked, asked_once}

abbrev policy : Policy
policy = record {
  default_lifetime = 700;
  max_lifetime = 3000;
  min_lifetime = 30;
  idle_after = 100;
  dormant_after = 700;
  cleanup_grace = 200;
}

abbrev bytes : State ℕ → ℕ
bytes st = 20 * length st

abbrev quiz : Creation ℕ
quiz = record {
  principal_id = 7;
  html = codes "<p>1</p>";
  title = some (codes "Quiz");
  preferred_lifetime = none;
  requested_scopes = [];
  idempotency_key = some (codes "quiz-1");
  initial_state = (codes "score", 0) ∷ [];
}

abbrev row : Surface ℕ
row = record {
  id = 1;
  principal_id = 7;
  title = codes "Quiz";
  status = active;
  expires_at = 900;
  current_revision = 1;
  granted_scopes = [];
  idempotency_key = some (codes "quiz-1");
  state_json = (codes "score", 0) ∷ [];
  state_revision = 0;
  last_activity_at = 100;
  created_at = 100;
  last_ai_request_at = none;
  last_ai_response_at = none;
  last_user_interaction_at = none;
  related_surface_ids = [];
}

abbrev new_html : Change ℕ
new_html = record {
  html = some (codes "<p>2</p>");
  title = none;
  merge_state = [];
  extend = none;
  expected_revision = some 1;
}

abbrev first : Db ℕ
first = (create policy true 100 1 quiz no_surfaces).0

abbrev second : Db ℕ
second = (update_row bytes policy true 7 200 new_html row first).0

first-Run : Run bytes policy no_surfaces first
unfolding find
first-Run = creates true 100 1 quiz refl begin

revisions_numbered_example : numbers 1 second.revisions ≡ from_one (current 1 second.surfaces)
unfolding AllStored first-Run
revisions_numbered_example =
    revisions_numbered bytes policy 1 (updates true 7 200 new_html row first-Run) (refl, tt)

accepted_once : (update_row bytes policy true 7 200 new_html row first).1 ≡ updated 2
unfolding update_row create gate is_encodable find update_html utf8_length on_row insert_surface
    write_revision store edit
accepted_once = refl

base_claimed_once_example : (update_row bytes policy true 7 300 new_html row second).1 ≢ updated 2
base_claimed_once_example =
    base_claimed_once bytes policy first second true true 7 7 200 300 2 2 new_html new_html row row
      refl refl refl refl accepted_once begin

create_idempotent_example : create policy true 150 2 quiz first ≡ (first, already_there 1)
unfolding create gate is_encodable utf8_length insert_surface write_revision
create_idempotent_example =
    create_idempotent policy true true 100 150 1 2 1 quiz quiz (codes "quiz-1") no_surfaces refl
      refl refl refl

abbrev keyed : ℕ → Text → Text
keyed id k = id ∷ k

abbrev stored_reply : AiStatus → Text → ℕ → ℕ
stored_reply s t n = n

abbrev one_question : Tables ℕ
one_question =
    (accept_ai_request keyed (λ t. t) 200 5 6 (codes "fresh") row (codes "why?") (some (codes "q1"))
      [] (record { surfaces = row ∷ []; requests = []; works = []; events = [] })).0

asked_once_example :
    (asked 1
        (codes "q1")
        (apply_ai_result bytes stored_reply 300 5 (reply (codes "so")) one_question).requests
      ≤ 1)
    × (map
          (λ w. w.request_id)
          (apply_ai_result bytes stored_reply 300 5 (reply (codes "so")) one_question).works
        ≡ map
            (λ r. r.id)
            (apply_ai_result bytes stored_reply 300 5 (reply (codes "so")) one_question).requests)
    × (map
          (λ w. w.id)
          (apply_ai_result bytes stored_reply 300 5 (reply (codes "so")) one_question).works
        ≡ map
            (λ r. r.work_id)
            (apply_ai_result bytes stored_reply 300 5 (reply (codes "so")) one_question).requests)
asked_once_example =
    asked_once keyed (λ t. t) bytes stored_reply 1 (codes "q1")
      (gets 300 5 (reply (codes "so"))
        (asks_for 200 5 6 (codes "fresh") row (codes "why?") (some (codes "q1")) [] silent))
