-- ===== src/Interaction.antt =====
-- Server-authoritative choices, wax/interaction/service.py: `InteractionService` over the `interactions`
-- table. Random tokens and clock readings are arguments.
pub mod Consume
pub mod Expiry
mod Examples
use waza.Prelude.{
  ℕ, zero, suc, ◌+◌, Bool, true, false, ◌&&◌, ◌||◌, not, Option, none, some, List, [], ◌∷◌, ◌++◌,
  leb, ◌==◌, if◌then◌else◌, take, length, due_by, or_else, rows_where,
}
use waza.Prelude.Table.{select, store_each}
use waza.Publishing.Requests.{change_at}
use waza.Prelude.Text.{Text, codes, text_eq}
use waza.Work.{WorkKind, WorkStatus, message_response, queued}

pub data InteractionStatus : Type 0 where
  pending consumed expired cancelled : InteractionStatus

-- One element of `choices`: `id` and `callback_data` are the same opaque token.
pub record Choice : Type 0 where
  pub callback_data : Text
  pub title : Text
  pub description : Option Text
  pub logical_id : Text

pub record Interaction : Type 0 where
  pub id : ℕ
  pub principal_id : ℕ
  pub work_id : Option ℕ
  pub conversation_id : Option ℕ
  pub channel : Text
  pub callback_token : Text
  pub choices : List Choice
  pub status : InteractionStatus
  pub created_at : ℕ
  pub expires_at : Option ℕ
  pub consumed_at : Option ℕ
  pub consumed_choice_id : Option Text
  -- `metadata_["target_external_id"]`
  pub target : Option Text

-- A choice as the caller gives it; an empty text counts as absent.
pub record RawChoice : Type 0 where
  pub id : Text
  pub title : Text
  pub label : Text
  pub description : Option Text

-- `a or b` on texts.
abbrev pub text_or : Text → Text → Text
text_or [] b = b
text_or (c ∷ a) b = c ∷ a

-- The enriched choices; `draw i` is the token of choice `i`, and `i` has one digit.
unfoldable pub enrich : (ℕ → Text) → ℕ → List RawChoice → List Choice
enrich draw i [] = []
enrich draw i (c ∷ cs) =
    let cid = take 128 (text_or c.id (codes "opt_" ++ ((48 + i) ∷ []))) in
    record {
      callback_data = take 64 (codes "ix:" ++ draw i);
      title = take 64 (text_or c.title (text_or c.label cid));
      description = c.description;
      logical_id = cid;
    }
    ∷ enrich draw (i + 1) cs

-- `now + timedelta(seconds=…)` for a positive number of seconds, else no expiry.
abbrev pub expiry : ℕ → Option ℕ → Option ℕ
expiry now none = none
expiry now (some zero) = none
expiry now (some (suc n)) = some (now + suc n)

unfoldable pub create :
    (ℕ → Text)
    → Text
    → ℕ
    → ℕ
    → ℕ
    → Text
    → List RawChoice
    → Option ℕ
    → Option ℕ
    → Option ℕ
    → Option Text
    → List Interaction
    → Interaction × List Interaction
unfolding enrich
create draw root id now principal channel choices expires_in work conversation target rows =
    let ix : Interaction = record {
      id = id;
      principal_id = principal;
      work_id = work;
      conversation_id = conversation;
      channel = channel;
      callback_token = take 64 root;
      choices = enrich draw 0 (take 10 choices);
      status = pending;
      created_at = now;
      expires_at = expiry now expires_in;
      consumed_at = none;
      consumed_choice_id = none;
      target = target;
    } in
    (ix, ix ∷ rows)

abbrev pub is_listed : InteractionStatus → Bool
is_listed cancelled = false
is_listed _ = true

abbrev pub for_principal : Option ℕ → Interaction → Bool
for_principal none ix = true
for_principal (some p) ix = ix.principal_id == p

abbrev pub has_choice : Text → List Choice → Bool
has_choice data_ [] = false
has_choice data_ (c ∷ cs) = text_eq c.callback_data data_ || has_choice data_ cs

abbrev pub matches : Text → Interaction → Bool
matches data_ ix = has_choice data_ ix.choices || text_eq ix.callback_token data_

abbrev pub first_match : Text → List Interaction → Option Interaction
first_match data_ [] = none
first_match data_ (ix ∷ rest) = if matches data_ ix then some ix else first_match data_ rest

-- The 200 latest interactions are scanned.
unfoldable pub find_by_callback : Text → Option ℕ → List Interaction → Option Interaction
find_by_callback data_ principal rows = first_match data_ (
    select (λ ix. is_listed ix.status && for_principal principal ix)
      (λ a b. leb b.created_at a.created_at) 200 rows)

-- The dictionary that `consume` returns.
pub data Outcome : Type 0 where
  consumed_now : Option Text → Outcome
  forbidden expired_now : Outcome
  already_consumed : Option Text → Outcome
  not_pending : InteractionStatus → Outcome

-- What `consume` does to the object that it works on.
unfoldable pub consume_row : Option Text → ℕ → ℕ → Interaction → Interaction × Outcome
consume_row choice principal now ix =
    if ix.principal_id == principal
    then elim ix.status [
      | consumed ↦ (ix, already_consumed ix.consumed_choice_id)
      | expired ↦ (ix, expired_now)
      | cancelled ↦
          if due_by ix.expires_at now
          then (record ix { status = expired }, expired_now)
          else (ix, not_pending cancelled)
      | pending ↦
          if due_by ix.expires_at now then (record ix { status = expired }, expired_now) else (
            record ix { status = consumed; consumed_at = some now; consumed_choice_id = choice },
            consumed_now choice,
          )
    ]
    else (ix, forbidden)

abbrev is_expired : InteractionStatus → Bool
is_expired expired = true
is_expired _ = false

-- The column after the flush: it is written only if the session changed what it had read.
abbrev choice_column : Option Text → Option Text → Option Text → Option Text
choice_column (some c) read column = some c
choice_column none none column = column
choice_column none (some c) column = none

-- What the flush writes to the row `d`, when `ix` is what the session had read.
unfoldable pub flushed : ℕ → Interaction → Outcome → Interaction → Interaction
flushed now ix (consumed_now choice) d = record d {
  status = consumed;
  consumed_at = some now;
  consumed_choice_id = choice_column choice ix.consumed_choice_id d.consumed_choice_id;
}
flushed now ix expired_now d = if is_expired ix.status then d else record d { status = expired }
flushed now ix _ d = d

-- `consume`: the SELECT … FOR UPDATE gives back the object that the session holds, `ix`, with the
-- columns as `find_by_callback` read them, since the query does not ask for them anew; the changed
-- columns are written to the row as it is now.
unfoldable pub consume :
    Interaction → Option Text → ℕ → ℕ → List Interaction → List Interaction × Outcome
unfolding flushed
consume ix choice principal now rows =
    let outcome = (consume_row choice principal now ix).1 in
    (change_at (λ x. x.id) ix.id (flushed now ix outcome) rows, outcome)

abbrev pub is_pending : InteractionStatus → Bool
is_pending pending = true
is_pending _ = false

abbrev pub expire : Interaction → Interaction
expire ix = record ix { status = expired }

abbrev pub expires_first : Interaction → Interaction → Bool
expires_first a b = leb (or_else a.expires_at 0) (or_else b.expires_at 0)

-- The rows that `expire_due` marks.
unfoldable pub due : (Interaction → Bool) → ℕ → ℕ → List Interaction → List Interaction
due locked now limit rows =
    select (λ ix. (is_pending ix.status && due_by ix.expires_at now) && not (locked ix))
      expires_first limit rows

-- The new table, and the rows that were marked, as they were read.
unfoldable pub expire_due :
    (Interaction → Bool) → ℕ → ℕ → List Interaction → List Interaction × List Interaction
unfolding due
expire_due locked now limit rows =
    let found = due locked now limit rows in (store_each (λ ix. ix.id) expire found rows, found)

-- The work that `enqueue_continuation` creates, with its `input_payload`; `reason` is "consumed" or
-- "timeout" or what else the caller gives.
pub record Continuation : Type 0 where
  pub id : ℕ
  pub principal_id : ℕ
  pub conversation_id : Option ℕ
  pub kind : WorkKind
  pub status : WorkStatus
  pub priority : ℕ
  pub objective : Text
  pub channel : Text
  pub interaction_id : ℕ
  pub interaction_status : InteractionStatus
  pub choice_id : Option Text
  pub text : Text
  pub reason : Text
  pub target : Option Text

-- `text or f"[interaction:{reason}:{choice_id or 'none'}]"`
abbrev pub continuation_text : Option Text → Option Text → Text → Text
continuation_text text choice reason = text_or (or_else text []) (
    codes "[interaction:"
    ++ (reason ++ (codes ":" ++ (text_or (or_else choice []) (codes "none") ++ codes "]"))))

abbrev pub nonempty : Option Text → Option Text
nonempty (some (c ∷ cs)) = some (c ∷ cs)
nonempty _ = none

unfoldable pub enqueue_continuation :
    ℕ
    → Interaction
    → Text
    → Option Text
    → Option Text
    → List Continuation
    → Continuation × List Continuation
enqueue_continuation id ix reason choice text works =
    let work : Continuation = record {
      id = id;
      principal_id = ix.principal_id;
      conversation_id = ix.conversation_id;
      kind = message_response;
      status = queued;
      priority = 40;
      objective = codes "interaction_" ++ reason;
      channel = ix.channel;
      interaction_id = ix.id;
      interaction_status = ix.status;
      choice_id = choice;
      text = continuation_text text choice reason;
      reason = reason;
      target = nonempty ix.target;
    } in
    (work, work ∷ works)
