-- ===== src/Publishing/Requests.antt =====
-- The questions that a surface puts to the tutor: `accept_ai_request`, `get_ai_request_by_token`,
-- `apply_ai_result`, `record_event`, `relate` and `list_for_principal` of wax/surfaces/service.py. The
-- keyed hash of a request's token (`mac`), the hash that is stored (`hash`) and the value that keeps the
-- last reply in a surface's state (`reply_value`) are parameters.
use waza.Prelude.{
  ℕ, min, max, ◌==◌, leb, ltb, Bool, true, false, ◌&&◌, ◌||◌, not, Option, none, some, List, [],
  ◌∷◌, ◌++◌, take, length, any, if◌then◌else◌,
}
use waza.Prelude.Table.{find, select}
use waza.Prelude.Text.{Text, codes, text_eq, is_nil}
use waza.Surface.{is_open}
use waza.Publishing.{State, Surface, set_key, max_state_json_bytes}
use waza.Publishing.Create.{key_is, key_of}

pub data AiStatus : Type 0 where
  accepted completed failed : AiStatus

pub record AiRequest : Type 0 where
  pub id : ℕ
  pub surface_id : ℕ
  pub principal_id : ℕ
  pub request_token_hash : Text
  pub status : AiStatus
  pub message_preview : Text
  pub reply_preview : Option Text
  pub error : Option Text
  pub idempotency_key : Option Text
  pub work_id : ℕ

-- A work of kind `surface_ai`, queued.
pub record AiWork : Type 0 where
  pub id : ℕ
  pub principal_id : ℕ
  pub surface_id : ℕ
  pub revision : ℕ
  pub text : Text
  pub request_id : ℕ

pub record Event : Type 0 where
  pub surface_id : ℕ
  pub principal_id : ℕ
  pub event_type : Text
  pub revision : ℕ
  pub source : Text

pub record Tables (V : Type 0) : Type 0 where
  pub surfaces : List (Surface V)
  pub requests : List AiRequest
  pub works : List AiWork
  pub events : List Event

-- The change of the row with this id.
unfoldable pub change_at {ℓ} : {R : Type ℓ} → (R → ℕ) → ℕ → (R → R) → List R → List R
change_at key id f [] = []
change_at key id f (x ∷ xs) = (if key x == id then f x else x) ∷ change_at key id f xs

abbrev is_interaction : Text → Bool
is_interaction t =
    text_eq t (codes "interaction")
    || text_eq t (codes "state_changed")
    || text_eq t (codes "save_requested")

abbrev type_or : Text → Text
type_or t = take 80 (if is_nil t then codes "interaction" else t)

module _ {V : Type 0} where
  unfoldable pub record_event : ℕ → Text → Text → Surface V → Tables V → Tables V
  unfolding change_at
  record_event now event_type source x t =
      let event : Event = record {
        surface_id = x.id;
        principal_id = x.principal_id;
        event_type = type_or event_type;
        revision = x.current_revision;
        source = take 40 source;
      } in
      record t {
        events = t.events ++ (event ∷ []);
        surfaces =
            change_at (λ y. y.id) x.id
              (λ y. record y {
                last_activity_at = now;
                last_user_interaction_at =
                    if is_interaction event_type then some now else y.last_user_interaction_at;
              })
              t.surfaces;
      }

-- `_opaque_request_token`, with `fresh` for a random token.
abbrev pub opaque_token : (ℕ → Text → Text) → Text → ℕ → Option Text → Text
opaque_token mac fresh id none = fresh
opaque_token mac fresh id (some k) = take 43 (mac id k)

abbrev pub asks : ℕ → Text → AiRequest → Bool
asks id k r = r.surface_id == id && key_is k r.idempotency_key

unfoldable pub find_request : ℕ → Option Text → List AiRequest → Option AiRequest
find_request id none rows = none
find_request id (some k) [] = none
find_request id (some k) (r ∷ rs) =
    let rest = find_request id (some k) rs in if asks id k r then some r else rest

unfoldable has_token : ℕ → Text → List AiRequest → Option AiRequest
has_token id h [] = none
has_token id h (r ∷ rs) =
    let rest = has_token id h rs in
    if r.surface_id == id && text_eq r.request_token_hash h then some r else rest

-- The token for polling, the status of the request, and whether it was there before.
pub data Reply : Type 0 where
  replied : Text → AiStatus → Bool → Reply

module _ {V : Type 0} (mac : ℕ → Text → Text) (hash : Text → Text) where
  abbrev pub new_request : ℕ → ℕ → Surface V → Text → Option Text → Text → AiRequest
  new_request id work_id x message k token = record {
    id = id;
    surface_id = x.id;
    principal_id = x.principal_id;
    request_token_hash = hash token;
    status = accepted;
    message_preview = take 240 message;
    reply_preview = none;
    error = none;
    idempotency_key = k;
    work_id = work_id;
  }

  abbrev pub new_work : ℕ → ℕ → Surface V → Text → AiWork
  new_work id work_id x message = record {
    id = work_id;
    principal_id = x.principal_id;
    surface_id = x.id;
    revision = x.current_revision;
    text = message;
    request_id = id;
  }

  -- The flush of the new request and its work, and the event: a request that has the key by now, which
  -- the unique index refuses, is answered in its place.
  abbrev pub flush_request :
      ℕ
      → ℕ
      → ℕ
      → Surface V
      → Text
      → Option Text
      → Text
      → Tables V
      → Option AiRequest
      → Tables V × Reply
  flush_request now id work_id x message k token t (some r) = (t, replied token r.status true)
  flush_request now id work_id x message k token t none = (
    record_event now (codes "ai_requested") (codes "browser") x (record t {
      works = t.works ++ (new_work id work_id x message ∷ []);
      requests = t.requests ++ (new_request id work_id x message k token ∷ []);
      surfaces =
          change_at (λ y. y.id) x.id (λ y. record y { last_ai_request_at = some now }) t.surfaces;
    }),
    replied token accepted false,
  )

  abbrev pub answer_request :
      ℕ
      → ℕ
      → ℕ
      → Surface V
      → Text
      → Option Text
      → Text
      → Tables V
      → Option AiRequest
      → Tables V × Reply
  answer_request now id work_id x message k token t (some r) = (t, replied token r.status true)
  answer_request now id work_id x message k token t none =
      flush_request now id work_id x message k token t (find_request x.id k t.requests)

  -- `accept_ai_request`: the query sees the requests as `read`, the flush the tables as `t`. A key that
  -- is empty counts as absent.
  unfoldable pub accept_ai_request :
      ℕ
      → ℕ
      → ℕ
      → Text
      → Surface V
      → Text
      → Option Text
      → List AiRequest
      → Tables V
      → Tables V × Reply
  unfolding find_request
  accept_ai_request now id work_id fresh x message key read t =
      let k = key_of key in
      answer_request now id work_id x message k (opaque_token mac fresh x.id k) t
        (find_request x.id k read)

  unfoldable pub get_ai_request_by_token : Text → Surface V → Tables V → Option AiRequest
  unfolding has_token
  get_ai_request_by_token token x t =
      if ltb (length token) 16 then none else has_token x.id (hash token) t.requests

-- What the worker brings: a reply, or an error.
pub data Result : Type 0 where
  reply : Text → Result
  error : Text → Result

abbrev result_status : Result → AiStatus
result_status (reply s) = completed
result_status (error s) = failed

abbrev result_text : Result → Text
result_text (reply s) = take 4000 s
result_text (error s) = []

abbrev pub settle : Result → AiRequest → AiRequest
settle (reply s) r = record r { status = completed; reply_preview = some (take 4000 s) }
settle (error e) r = record r { status = failed; error = some (take 300 e) }

abbrev event_of : Result → Text
event_of (reply s) = codes "ai_completed"
event_of (error e) = codes "ai_failed"

module _ {V : Type 0} (state_bytes : State V → ℕ) (reply_value : AiStatus → Text → ℕ → V) where
  unfoldable pub keep_reply : ℕ → Result → Surface V → Surface V
  keep_reply now res x =
      let st =
        set_key (codes "_wax_last_ai")
          (reply_value (result_status res) (result_text res) x.current_revision) x.state_json in
      record x {
        last_ai_response_at = some now;
        last_activity_at = now;
        state_json = if leb (state_bytes st) max_state_json_bytes then st else x.state_json;
      }

  abbrev pub notify : ℕ → Result → Option (Surface V) → Tables V → Tables V
  notify now res none t = t
  notify now res (some x) t =
      record_event now (event_of res) (codes "worker") x
        (record t { surfaces = change_at (λ y. y.id) x.id (keep_reply now res) t.surfaces })

  abbrev pub apply_to : ℕ → Result → Option AiRequest → Tables V → Tables V
  apply_to now res none t = t
  apply_to now res (some r) t =
      notify now res (find (λ y. y.id) r.surface_id t.surfaces)
        (record t { requests = change_at (λ y. y.id) r.id (settle res) t.requests })

  unfoldable pub apply_ai_result : ℕ → ℕ → Result → Tables V → Tables V
  unfolding record_event keep_reply
  apply_ai_result now request_row_id res t =
      apply_to now res (find (λ r. r.id) request_row_id t.requests) t

-- `relate`: the ids that a surface is related to; `none` when one of the two is not the principal's.
abbrev has_id : ℕ → List ℕ → Bool
has_id n ns = any (λ m. m == n) ns

module _ {V : Type 0} where
  abbrev relate_found :
      ℕ → Option (Surface V) → Option (Surface V) → List (Surface V) → Option (List (Surface V))
  relate_found principal none o rows = none
  relate_found principal (some x) none rows = none
  relate_found principal (some x) (some y) rows =
      if x.principal_id == principal && y.principal_id == principal
      then some (
          change_at (λ z. z.id) x.id
            (λ z. record z {
              related_surface_ids =
                  if has_id y.id z.related_surface_ids
                  then z.related_surface_ids
                  else z.related_surface_ids ++ (y.id ∷ []);
            })
            rows)
      else none

  unfoldable relate : ℕ → ℕ → ℕ → List (Surface V) → Option (List (Surface V))
  unfolding change_at
  relate id related principal rows =
      relate_found principal (find (λ z. z.id) id rows) (find (λ z. z.id) related rows) rows

  abbrev listed : ℕ → Bool → Surface V → Bool
  listed principal active_only x =
      x.principal_id == principal && (not active_only || is_open x.status)

  abbrev newer : Surface V → Surface V → Bool
  newer x y =
      ltb y.last_activity_at x.last_activity_at
      || (x.last_activity_at == y.last_activity_at && leb y.created_at x.created_at)

  unfoldable list_for_principal : ℕ → ℕ → Bool → List (Surface V) → List (Surface V)
  list_for_principal principal limit active_only rows =
      select (listed principal active_only) newer (min 50 (max 1 limit)) rows
