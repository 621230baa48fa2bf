-- ===== src/Memories/Isolation.antt =====
-- No operation of wax/memory/store.py reaches a memory of another principal.
use waza.Prelude.{
  ℕ, ◌≡◌, ◌≢◌, refl, sym, ap, ◌∙◌, ◌==◌, ==_iff, true, false, Option, none, some, List, [], ◌∷◌,
  ◌++◌, All, rows_where, rows_where-append, Bool-cases, inl, inr, arith,
}
use waza.Prelude.Table.{find}
use waza.Prelude.Text.{Text, is_nil, strip}
use waza.Memories.{
  Memory, Draft, Update, Replacement, owned, change_row, change_own, memory_create, memory_update,
  memory_forget, memory_supersede, replace, new_memory, updated, forget, supersede, draft_from,
}

-- What a principal may ask for.
pub data Request (V : Type 0) : Type 0 where
  creates : ℕ → Draft V → Request V
  updates : ℕ → Update V → Request V
  forgets : ℕ → Request V
  supersedes : ℕ → ℕ → Replacement V → Request V

module _ {V : Type 0} where
  abbrev pub memories_of : ℕ → List (Memory V) → List (Memory V)
  memories_of q rows = rows_where (λ m. m.principal_id == q) rows

  other_owner :
      (p q : ℕ) (m : Memory V) → p ≢ q → m.principal_id ≡ p → (m.principal_id == q) ≡ false
  other_owner p q m n e = elim (Bool-cases (m.principal_id == q)) [
    | inl t ↦ absurd (n (sym e ∙ (==_iff m.principal_id q).0 t))
    | inr t ↦ t
  ]

  change-other :
      (p q id : ℕ) (f : Memory V → Memory V) (rows : List (Memory V))
      → p ≢ q
      → ((m : Memory V) → (f m).principal_id ≡ m.principal_id)
      → owned p (find (λ m. m.id) id rows) ≡ true
      → memories_of q (change_row id f rows) ≡ memories_of q rows
  unfolding change_row find
  change-other p q id f [] n keep h = refl
  change-other p q id f (m ∷ ms) n keep h = elim (Bool-cases (m.id == id)) [
    | inl t ↦
        let mine : m.principal_id ≡ p = (==_iff m.principal_id p).0 (rw t at h) in
        let a = other_owner p q m n mine in
        let b = other_owner p q (f m) n (keep m ∙ mine) in rw (t, a, b) refl
    | inr t ↦ let rest = change-other p q id f ms n keep (rw t at h) in rw (t, rest) refl
  ]

  change_own-other :
      (p q id : ℕ) (f : Memory V → Memory V) (rows : List (Memory V))
      → p ≢ q
      → ((m : Memory V) → (f m).principal_id ≡ m.principal_id)
      → memories_of q (change_own p id f rows) ≡ memories_of q rows
  unfolding change_own
  change_own-other p q id f rows n keep = elim (Bool-cases (owned p (find (λ m. m.id) id rows))) [
    | inl t ↦ rw t (change-other p q id f rows n keep t)
    | inr t ↦ rw t refl
  ]

  new-owner : (id p : ℕ) (d : Draft V) → (new_memory id p d).principal_id ≡ p
  unfolding new_memory
  new-owner id p d = refl

  append-none : (ms : List (Memory V)) → ms ++ [] ≡ ms
  append-none [] = refl
  append-none (m ∷ ms) = rw (append-none ms) refl

  create-other :
      (p q id : ℕ) (d : Draft V) (rows : List (Memory V))
      → p ≢ q
      → memories_of q (memory_create id p d rows).0 ≡ memories_of q rows
  unfolding memory_create
  create-other p q id d rows n = elim (Bool-cases (is_nil (strip d.content))) [
    | inl t ↦ rw t refl
    | inr t ↦
        let b = other_owner p q (new_memory id p d) n (new-owner id p d) in
        rw (t, rows_where-append (λ m. m.principal_id == q) rows (new_memory id p d ∷ []), b)
          (append-none (memories_of q rows))
  ]

  -- A row that is found is found in a longer table too.
  find-longer :
      (id : ℕ) (rows more : List (Memory V)) (m : Memory V)
      → find (λ x. x.id) id rows ≡ some m
      → find (λ x. x.id) id (rows ++ more) ≡ some m
  unfolding find
  find-longer id [] more m h = absurd (ground (arith, h))
  find-longer id (x ∷ xs) more m h = elim (Bool-cases (x.id == id)) [
    | inl t ↦ rw t (rw t at h)
    | inr t ↦ rw t (find-longer id xs more m (rw t at h))
  ]

  pub find-created :
      (id new p : ℕ) (d : Draft V) (rows : List (Memory V)) (m : Memory V)
      → find (λ x. x.id) id rows ≡ some m
      → find (λ x. x.id) id (memory_create new p d rows).0 ≡ some m
  unfolding memory_create
  find-created id new p d rows m h = elim (Bool-cases (is_nil (strip d.content))) [
    | inl t ↦ rw t h
    | inr t ↦ rw t (find-longer id rows (new_memory new p d ∷ []) m h)
  ]

  supersede-owner : (new : ℕ) (m : Memory V) → (supersede new m).principal_id ≡ m.principal_id
  unfolding supersede
  supersede-owner new m = refl

  updated-owner : (u : Update V) (m : Memory V) → (updated u m).principal_id ≡ m.principal_id
  unfolding updated
  updated-owner u m = refl

  forget-owner : (m : Memory V) → (forget m).principal_id ≡ m.principal_id
  unfolding forget
  forget-owner m = refl

module _ {V : Type 0} (id_value : ℕ → V) (text_value : Text → V) where
  replace-other :
      (p q id old_id : ℕ) (o : Option (Memory V)) (r : Replacement V) (rows : List (Memory V))
      → p ≢ q
      → find (λ m. m.id) old_id rows ≡ o
      → owned p o ≡ true
      → memories_of q (replace id_value text_value id p old_id o r rows) ≡ memories_of q rows
  replace-other p q id old_id none r rows n e h = refl
  replace-other p q id old_id (some old) r rows n e h =
      elim (Bool-cases (is_nil (strip r.new_content))) [
        | inl t ↦ rw t refl
        | inr t ↦
            let d = draft_from id_value text_value old r in
            let there = find-created old_id id p d rows old e in
            rw t (
              change-other p q old_id (supersede id) (memory_create id p d rows).0 n
                (supersede-owner id) (ap (owned p) there ∙ h)
              ∙ create-other p q id d rows n)
      ]

  supersede-other :
      (p q id old_id : ℕ) (r : Replacement V) (rows : List (Memory V))
      → p ≢ q
      → memories_of q (memory_supersede id_value text_value id p old_id r rows) ≡ memories_of q rows
  unfolding memory_supersede
  supersede-other p q id old_id r rows n =
      elim (Bool-cases (owned p (find (λ m. m.id) old_id rows))) [
        | inl t ↦ rw t (replace-other p q id old_id (find (λ m. m.id) old_id rows) r rows n refl t)
        | inr t ↦ rw t refl
      ]

  abbrev pub perform : ℕ → Request V → List (Memory V) → List (Memory V)
  perform p (creates id d) rows = (memory_create id p d rows).0
  perform p (updates id u) rows = memory_update p id u rows
  perform p (forgets id) rows = memory_forget p id rows
  perform p (supersedes id old_id r) rows = memory_supersede id_value text_value id p old_id r rows

  abbrev pub perform_all : List (ℕ × Request V) → List (Memory V) → List (Memory V)
  perform_all [] rows = rows
  perform_all (a ∷ as_) rows = perform_all as_ (perform a.0 a.1 rows)

  perform-other :
      (p q : ℕ) (a : Request V) (rows : List (Memory V))
      → p ≢ q
      → memories_of q (perform p a rows) ≡ memories_of q rows
  perform-other p q (creates id d) rows n = create-other p q id d rows n
  perform-other p q (updates id u) rows n =
      change_own-other p q id (updated u) rows n (updated-owner u)
  perform-other p q (forgets id) rows n = change_own-other p q id forget rows n forget-owner
  perform-other p q (supersedes id old_id r) rows n = supersede-other p q id old_id r rows n

  -- Whatever other principals create, update, forget and supersede, naming any ids they like, the
  -- memories of a principal stay as they are, in the same order.
  pub memories_isolated :
      (q : ℕ) (as_ : List (ℕ × Request V)) (rows : List (Memory V))
      → All (λ a. a.0 ≢ q) as_
      → memories_of q (perform_all as_ rows) ≡ memories_of q rows
  memories_isolated q [] rows h = refl
  memories_isolated q (a ∷ as_) rows h =
      memories_isolated q as_ (perform a.0 a.1 rows) h.1 ∙ perform-other a.0 q a.1 rows h.0
