-- ===== src/Memories/Examples.antt =====
-- The operations of wax/memory/store.py on two memories.
use waza.Prelude.{ℕ, ◌≡◌, refl, true, false, none, some, List, [], ◌∷◌, take, arith}
use waza.Prelude.Table.{find}
use waza.Prelude.Text.{Text, codes, strip, lstrip, rstrip, is_space}
use waza.Memories.{Memory, current, superseded, Replacement, memory_supersede}
use waza.Memories.Isolation.{forgets, perform_all, memories_of, memories_isolated}
use waza.Memories.Replacing.{active, counts, memory_supersede_replaces}

abbrev memory : ℕ → ℕ → Memory ℕ
memory id principal = record {
  id = id;
  principal_id = principal;
  memory_type = codes "semantic";
  content = codes "likes graphs";
  tags = [];
  structured = [];
  metadata = [];
  source = codes "ai";
  source_work_id = none;
  source_message_id = none;
  expires_at = none;
  is_active = true;
  validity_status = current;
  superseded_by_id = none;
}

abbrev two : List (Memory ℕ)
two = memory 1 7 ∷ memory 2 8 ∷ []

abbrev id_value : ℕ → ℕ
id_value n = n

abbrev text_value : Text → ℕ
text_value t = 0

abbrev better : Replacement ℕ
better = record {
  new_content = codes "likes trees";
  memory_type = none;
  tags = none;
  structured = none;
  metadata = none;
  expires_at = none;
  reason = codes "said so";
  work_id = none;
  message_id = none;
}

memories_isolated_example :
    memories_of 8 (perform_all id_value text_value ((7, forgets 2) ∷ []) two) ≡ memories_of 8 two
memories_isolated_example =
    memories_isolated id_value text_value 8 ((7, forgets 2) ∷ []) two
      ((λ e. absurd (omega (arith, e))), tt)

memory_supersede_replaces_example :
    (active 7 (memory_supersede id_value text_value 3 7 1 better two) ≡ active 7 two)
    × (find (λ x. x.id) 1 (memory_supersede id_value text_value 3 7 1 better two)
        ≡ some (record (memory 1 7) {
          is_active = false;
          validity_status = superseded;
          superseded_by_id = some 3;
        }))
    × (new : Memory ℕ) × (find (λ x. x.id) 3 (memory_supersede id_value text_value 3 7 1 better two)
        ≡ some new)
    × (new.content ≡ take 8000 (strip better.new_content))
    × (counts 7 new ≡ true)
unfolding find strip lstrip rstrip is_space
memory_supersede_replaces_example =
    memory_supersede_replaces id_value text_value 7 3 1 better two (memory 1 7) refl refl refl refl
