-- ===== src/Interaction/Examples.antt =====
-- Runs of the interaction service, and the theorems on them.
use waza.Prelude.{ℕ, ◌≤◌, ◌≡◌, refl, Bool, false, Option, some, none, List, [], ◌∷◌, inl}
use waza.Publishing.Requests.{change_at}
use waza.Prelude.Table.{select, order_by, insert_by}
use waza.Prelude.Rows.{In}
use waza.Prelude.Text.{Text, codes, text_eq}
use waza.Interaction.{
  Interaction, pending, consumed_now, already_consumed, consume, consume_row, flushed,
  find_by_callback, expire_due, due,
}
use waza.Interaction.Consume.{Tap, tap, taps, wins, taps_win_once}

abbrev question : Interaction
question = record {
  id = 1;
  principal_id = 7;
  work_id = none;
  conversation_id = none;
  channel = codes "telegram";
  callback_token = codes "r";
  choices = [];
  status = pending;
  created_at = 10;
  expires_at = some 100;
  consumed_at = none;
  consumed_choice_id = none;
  target = none;
}

abbrev table : List Interaction
table = question ∷ []

abbrev free : Interaction → Bool
free ix = false

abbrev yes_ : Option Text
yes_ = some (codes "yes")

abbrev tap_by : ℕ → Tap
tap_by principal = record {
  callback_data = codes "r";
  choice = yes_;
  principal = principal;
  time = 20;
}

-- A stranger's tap, and then the owner's two.
abbrev three_taps : List Tap
three_taps = tap_by 8 ∷ tap_by 7 ∷ tap_by 7 ∷ []

answers :
    (taps three_taps table).1
    ≡ none ∷ some (1, consumed_now yes_) ∷ some (1, already_consumed yes_) ∷ []
unfolding taps tap consume flushed consume_row find_by_callback change_at select order_by insert_by
    text_eq
answers = refl

-- Two sessions that have both read the pending row are both answered with success.
both_win : (consume question yes_ 7 21 (consume question none 7 20 table).0).1 ≡ consumed_now yes_
unfolding consume consume_row
both_win = refl

taps_win_once_example : wins 1 (taps three_taps table).1 ≤ 1
taps_win_once_example = taps_win_once 1 three_taps table

swept : In question (expire_due free 120 50 table).1
unfolding expire_due due select order_by insert_by
swept = inl refl
