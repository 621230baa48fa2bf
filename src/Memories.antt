-- ===== src/Memories.antt =====
-- The student's memories: wax/memory/store.py. The database's order by `updated_at` (`newer`), its match
-- of a term in a field (`matches`), the lower case of a text (`lower`) and the values that a row's
-- structured part keeps are parameters; ids are read already.
pub mod Terms
pub mod Isolation
pub mod Replacing
mod Examples
use waza.Prelude.{
  ℕ, suc, ◌+◌, ◌-◌, min, max, ◌==◌, leb, ltb, Bool, true, false, ◌&&◌, ◌||◌, not, Option, none,
  some, List, [], ◌∷◌, ◌++◌, map, any, rows_where, length, take, drop, if◌then◌else◌, or_else,
}
use waza.Prelude.Table.{order_by, find}
use waza.Prelude.Text.{Text, codes, text_eq, is_nil, strip}
use waza.Publishing.{State, set_key}

pub data Validity : Type 0 where
  current superseded forgotten : Validity

pub record Memory (V : Type 0) : Type 0 where
  pub id : ℕ
  pub principal_id : ℕ
  pub memory_type : Text
  pub content : Text
  pub tags : List Text
  pub structured : State V
  pub metadata : State V
  pub source : Text
  pub source_work_id : Option ℕ
  pub source_message_id : Option ℕ
  pub expires_at : Option ℕ
  pub is_active : Bool
  pub validity_status : Validity
  pub superseded_by_id : Option ℕ

-- `_clean_tags`.
abbrev not_blank : Text → Bool
not_blank t = not (is_nil (strip t))

unfoldable pub clean_tags : List Text → List Text
clean_tags raw = take 20 (map (λ t. take 80 (strip t)) (rows_where not_blank raw))

-- `_owned`, on the row that `session.get` gave.
abbrev pub owned : {V : Type 0} → ℕ → Option (Memory V) → Bool
owned principal none = false
owned principal (some m) = m.principal_id == principal

pub data Answer (V : Type 0) : Type 0 where
  stored : Memory V → Answer V
  not_found content_required forgotten_one : Answer V

-- What a caller gives for a new memory.
pub record Draft (V : Type 0) : Type 0 where
  pub content : Text
  pub memory_type : Text
  pub tags : List Text
  pub structured : State V
  pub metadata : State V
  pub expires_at : Option ℕ
  pub work_id : Option ℕ
  pub message_id : Option ℕ
  pub source : Text

abbrev text_or : Text → Text → Text
text_or t default = if is_nil t then default else t

-- The row that `session.get` gave, changed in place.
unfoldable pub change_row :
    {V : Type 0} → ℕ → (Memory V → Memory V) → List (Memory V) → List (Memory V)
change_row id f [] = []
change_row id f (m ∷ ms) =
    let rest = change_row id f ms in if m.id == id then f m ∷ ms else m ∷ rest

-- The columns that `memory_update` is asked to change; for `expires_at`, `none` is the sentinel.
pub record Update (V : Type 0) : Type 0 where
  pub content : Option Text
  pub memory_type : Option Text
  pub tags : Option (List Text)
  pub structured : Option (State V)
  pub metadata : Option (State V)
  pub expires_at : Option (Option ℕ)

-- What `memory_supersede` is given beside the new content.
pub record Replacement (V : Type 0) : Type 0 where
  pub new_content : Text
  pub memory_type : Option Text
  pub tags : Option (List Text)
  pub structured : Option (State V)
  pub metadata : Option (State V)
  pub expires_at : Option (Option ℕ)
  pub reason : Text
  pub work_id : Option ℕ
  pub message_id : Option ℕ

abbrev or_map {ℓ κ} : {A : Type ℓ} {B : Type κ} → (A → B) → Option A → B → B
or_map f none b = b
or_map f (some a) b = f a

module _ {V : Type 0} where
  unfoldable pub new_memory : ℕ → ℕ → Draft V → Memory V
  new_memory id principal d = record {
    id = id;
    principal_id = principal;
    memory_type = take 50 (text_or d.memory_type (codes "semantic"));
    content = take 8000 (strip d.content);
    tags = clean_tags d.tags;
    structured = d.structured;
    metadata = d.metadata;
    source = take 50 (text_or d.source (codes "ai"));
    source_work_id = d.work_id;
    source_message_id = d.message_id;
    expires_at = d.expires_at;
    is_active = true;
    validity_status = current;
    superseded_by_id = none;
  }

  -- `memory_create`, with `id` for the `uuid4()` of the row.
  unfoldable pub memory_create : ℕ → ℕ → Draft V → List (Memory V) → List (Memory V) × Answer V
  memory_create id principal d rows =
      if is_nil (strip d.content)
      then (rows, content_required)
      else (rows ++ (new_memory id principal d ∷ []), stored (new_memory id principal d))

  unfoldable pub memory_get : ℕ → ℕ → List (Memory V) → Option (Memory V)
  memory_get principal id rows =
      let found = find (λ m. m.id) id rows in if owned principal found then found else none

  unfoldable pub updated : Update V → Memory V → Memory V
  updated u m = record m {
    content = or_map (λ s. take 8000 (strip s)) u.content m.content;
    memory_type = or_map (take 50) u.memory_type m.memory_type;
    tags = or_map clean_tags u.tags m.tags;
    structured = or_else u.structured m.structured;
    metadata = or_else u.metadata m.metadata;
    expires_at = or_else u.expires_at m.expires_at;
  }

  -- A change of a row of one's own.
  unfoldable pub change_own : ℕ → ℕ → (Memory V → Memory V) → List (Memory V) → List (Memory V)
  change_own principal id f rows =
      if owned principal (find (λ m. m.id) id rows) then change_row id f rows else rows

  abbrev pub memory_update : ℕ → ℕ → Update V → List (Memory V) → List (Memory V)
  memory_update principal id u rows = change_own principal id (updated u) rows

  unfoldable pub forget : Memory V → Memory V
  forget m = record m { is_active = false; validity_status = forgotten }

  abbrev pub memory_forget : ℕ → ℕ → List (Memory V) → List (Memory V)
  memory_forget principal id rows = change_own principal id forget rows

  unfoldable pub supersede : ℕ → Memory V → Memory V
  supersede new m = record m {
    is_active = false;
    validity_status = superseded;
    superseded_by_id = some new;
  }

module _ {V : Type 0} (id_value : ℕ → V) (text_value : Text → V) where
  -- What the new memory takes over from the old one; an absent expiry is not taken over.
  unfoldable pub draft_from : Memory V → Replacement V → Draft V
  draft_from old r = record {
    content = r.new_content;
    memory_type = or_map (λ t. text_or t old.memory_type) r.memory_type old.memory_type;
    tags = or_map clean_tags r.tags old.tags;
    structured =
        set_key (codes "supersede_reason") (text_value (take 500 r.reason))
          (set_key (codes "supersedes") (id_value old.id) (or_else r.structured old.structured));
    metadata = or_else r.metadata old.metadata;
    expires_at = or_else r.expires_at none;
    work_id = r.work_id;
    message_id = r.message_id;
    source = codes "ai_supersede";
  }

  abbrev pub replace :
      ℕ → ℕ → ℕ → Option (Memory V) → Replacement V → List (Memory V) → List (Memory V)
  replace id principal old_id none r rows = rows
  replace id principal old_id (some old) r rows =
      if is_nil (strip r.new_content)
      then rows
      else change_row old_id (supersede id) (memory_create id principal (draft_from old r) rows).0

  -- `memory_supersede`: the new row is inserted before the old one is marked.
  unfoldable pub memory_supersede : ℕ → ℕ → ℕ → Replacement V → List (Memory V) → List (Memory V)
  memory_supersede id principal old_id r rows =
      let found = find (λ m. m.id) old_id rows in
      if owned principal found then replace id principal old_id found r rows else rows

-- The query of `memory_list` and, with `test` for its terms and tags, of `memory_search`; a limit of 0
-- counts as absent.
abbrev pub page_size : ℕ → ℕ → ℕ
page_size default limit = max 1 (min (if limit == 0 then default else limit) 100)

abbrev type_is : Option Text → Text → Bool
type_is none t = true
type_is (some k) t = if is_nil k then true else text_eq t (take 50 k)

module _ {V : Type 0} (newer : Memory V → Memory V → Bool) where
  unfoldable pub listed :
      ℕ → Bool → Option Text → (Memory V → Bool) → List (Memory V) → List (Memory V)
  listed principal include_inactive memory_type test rows = order_by newer (
      rows_where
        (λ m.
          m.principal_id == principal
          && (include_inactive || m.is_active)
          && type_is memory_type m.memory_type
          && test m)
        rows)

  unfoldable pub memory_list : ℕ → Option Text → ℕ → ℕ → Bool → List (Memory V) → List (Memory V)
  memory_list principal memory_type limit offset include_inactive rows =
      take (page_size 50 limit)
        (drop offset (listed principal include_inactive memory_type (λ m. true) rows))

pub data Field : Type 0 where
  content_field tags_field structured_field : Field

pub data Mode : Type 0 where
  any_term all_terms : Mode

abbrev has_tags : List Text → List Text → Bool
has_tags [] tags = true
has_tags (t ∷ ts) tags = any (λ u. text_eq u t) tags && has_tags ts tags

abbrev search_fields : List Field → List Field
search_fields [] = content_field ∷ []
search_fields (f ∷ fs) = f ∷ fs

module _ {V : Type 0} (matches : Field → Memory V → Text → Bool) where
  abbrev in_fields : List Field → Memory V → Text → Bool
  in_fields fields m term = any (λ f. matches f m term) fields

  abbrev all_of : List Field → Memory V → List Text → Bool
  all_of fields m [] = true
  all_of fields m (t ∷ ts) = in_fields fields m t && all_of fields m ts

  abbrev passes_terms : Mode → List Field → List Text → Memory V → Bool
  passes_terms mode fields [] m = true
  passes_terms any_term fields (t ∷ ts) m = any (in_fields fields m) (t ∷ ts)
  passes_terms all_terms fields (t ∷ ts) m = all_of fields m (t ∷ ts)

  unfoldable pub memory_search :
      (Memory V → Memory V → Bool)
      → ℕ
      → Mode
      → List Field
      → List Text
      → List Text
      → Option Text
      → ℕ
      → ℕ
      → Bool
      → List (Memory V)
      → List (Memory V)
  memory_search newer principal mode fields terms tags memory_type limit offset include_inactive
        rows =
      take (page_size 20 limit) (
        drop offset (
          listed newer principal include_inactive memory_type
            (λ m.
              passes_terms mode (search_fields fields) terms m
              && has_tags (rows_where (λ t. not (is_nil t)) (map strip tags)) m.tags)
            rows))
