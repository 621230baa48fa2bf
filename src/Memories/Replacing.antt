-- ===== src/Memories/Replacing.antt =====
-- Superseding and forgetting in wax/memory/store.py: how many memories of a principal are active.
use waza.Prelude.{
  ℕ, suc, ◌≡◌, and_true, refl, ap, ◌∙◌, ◌==◌, ==_refl, ==_iff, ◌++◌, take, Bool, true, false, ◌&&◌,
  none, some, List, [], ◌∷◌, length, length-append, rows_where, rows_where-append, Bool-cases, inl,
  inr, arith,
}
use waza.Prelude.Table.{find}
use waza.Prelude.Text.{Text, is_nil, strip}
use waza.Memories.{
  Memory, superseded, Draft, Replacement, change_row, change_own, memory_create, memory_forget,
  memory_supersede, new_memory, forget, supersede, draft_from,
}
use waza.Memories.Isolation.{find-created}

off : (b : Bool) → (b && false) ≡ false
off true = refl
off false = refl

module _ {V : Type 0} where
  abbrev pub counts : ℕ → Memory V → Bool
  counts p m = m.principal_id == p && m.is_active

  -- The number of a principal's active memories.
  abbrev pub active : ℕ → List (Memory V) → ℕ
  active p rows = length (rows_where (counts p) rows)

  -- Taking an active memory of one's own out of use takes one off.
  active-change :
      (p id : ℕ) (f : Memory V → Memory V) (rows : List (Memory V)) (m : Memory V)
      → find (λ x. x.id) id rows ≡ some m
      → counts p m ≡ true
      → ((x : Memory V) → counts p (f x) ≡ false)
      → suc (active p (change_row id f rows)) ≡ active p rows
  unfolding change_row find
  active-change p id f [] m e c g = absurd (ground (arith, e))
  active-change p id f (x ∷ xs) m e c g = elim (Bool-cases (x.id == id)) [
    | inl t ↦
        let same : x ≡ m = ground (arith, rw t at e) in
        let on : counts p x ≡ true = ap (counts p) same ∙ c in rw (t, on, g x) refl
    | inr t ↦
        let rest = active-change p id f xs m (rw t at e) c g in
        rw t (elim (Bool-cases (counts p x)) [ inl u ↦ rw u (ap suc rest) | inr u ↦ rw u rest ])
  ]

  active-create :
      (p id : ℕ) (d : Draft V) (rows : List (Memory V))
      → is_nil (strip d.content) ≡ false
      → active p (memory_create id p d rows).0 ≡ suc (active p rows)
  unfolding memory_create new_memory
  active-create p id d rows n =
      rw
        (
          n,
          rows_where-append (counts p) rows (new_memory id p d ∷ []),
          ==_refl p,
          length-append (rows_where (counts p) rows) (new_memory id p d ∷ []),
        )
        (omega arith)

  off_forget : (p : ℕ) (x : Memory V) → counts p (forget x) ≡ false
  unfolding forget
  off_forget p x = off (x.principal_id == p)

  off_supersede : (p new : ℕ) (x : Memory V) → counts p (supersede new x) ≡ false
  unfolding supersede
  off_supersede p new x = off (x.principal_id == p)

  -- Forgetting an active memory of one's own leaves one active memory less.
  active-memory_forget :
      (p id : ℕ) (rows : List (Memory V)) (m : Memory V)
      → find (λ x. x.id) id rows ≡ some m
      → (m.principal_id == p && m.is_active) ≡ true
      → suc (active p (memory_forget p id rows)) ≡ active p rows
  unfolding change_own
  active-memory_forget p id rows m e c =
      let mine = (and_true (m.principal_id == p) m.is_active c).0 in
      rw (e, mine) (active-change p id forget rows m e c (off_forget p))

  find-superseded :
      (k new : ℕ) (rows : List (Memory V)) (m : Memory V)
      → find (λ x. x.id) k rows ≡ some m
      → find (λ x. x.id) k (change_row k (supersede new) rows)
        ≡ some (record m {
          is_active = false;
          validity_status = superseded;
          superseded_by_id = some new;
        })
  unfolding find change_row supersede
  find-superseded k new [] m e = absurd (ground (arith, e))
  find-superseded k new (x ∷ xs) m e = elim (Bool-cases (x.id == k)) [
    | inl t ↦
        let same : x ≡ m = ground (arith, rw t at e) in
        rw (t, t)
          (ap
            (λ (y : Memory V). some (record y {
              is_active = false;
              validity_status = superseded;
              superseded_by_id = some new;
            }))
            same)
    | inr t ↦ rw (t, t) (find-superseded k new xs m (rw t at e))
  ]

  -- Superseding one row leaves what another key finds.
  find-other :
      (k new j : ℕ) (rows : List (Memory V))
      → (j == k) ≡ false
      → find (λ x. x.id) j (change_row k (supersede new) rows) ≡ find (λ x. x.id) j rows
  unfolding find change_row supersede
  find-other k new j [] n = refl
  find-other k new j (x ∷ xs) n = elim (Bool-cases (x.id == k)) [
    | inl t ↦ let away : (x.id == j) ≡ false = ground (arith, n) in rw (t, away) refl
    | inr t ↦ elim (Bool-cases (x.id == j)) [
      | inl u ↦ rw (t, u) refl
      | inr u ↦ rw (t, u) (find-other k new j xs n)
    ]
  ]

  fresh_key :
      (k j : ℕ) (rows : List (Memory V)) (m : Memory V)
      → find (λ x. x.id) k rows ≡ some m
      → find (λ x. x.id) j rows ≡ none
      → (j == k) ≡ false
  fresh_key k j rows m e f = elim (Bool-cases (j == k)) [
    | inr t ↦ t
    | inl t ↦
        let same = ap (λ i. find (λ (x : Memory V). x.id) i rows) ((==_iff j k).0 t) in
        absurd (cc (e, f, same))
  ]

  find-added :
      (j : ℕ) (rows : List (Memory V)) (m : Memory V)
      → find (λ x. x.id) j rows ≡ none
      → m.id ≡ j
      → find (λ x. x.id) j (rows ++ (m ∷ [])) ≡ some m
  unfolding find
  find-added j [] m f e = rw (e, ==_refl j) refl
  find-added j (x ∷ xs) m f e = elim (Bool-cases (x.id == j)) [
    | inl t ↦ absurd (ground (arith, rw t at f))
    | inr t ↦ rw t (find-added j xs m (rw t at f) e)
  ]

  find-new :
      (id p : ℕ) (d : Draft V) (rows : List (Memory V))
      → find (λ x. x.id) id rows ≡ none
      → is_nil (strip d.content) ≡ false
      → find (λ x. x.id) id (memory_create id p d rows).0 ≡ some (new_memory id p d)
  unfolding memory_create new_memory
  find-new id p d rows f n = rw n (find-added id rows (new_memory id p d) f refl)

  new-counts : (id p : ℕ) (d : Draft V) → counts p (new_memory id p d) ≡ true
  unfolding new_memory
  new-counts id p d = rw (==_refl p) refl

module _ {V : Type 0} (id_value : ℕ → V) (text_value : Text → V) where
  draft-content :
      (old : Memory V) (r : Replacement V)
      → is_nil (strip r.new_content) ≡ false
      → is_nil (strip (draft_from id_value text_value old r).content) ≡ false
  unfolding draft_from
  draft-content old r n = n

  new-content :
      (id p : ℕ) (old : Memory V) (r : Replacement V)
      → (new_memory id p (draft_from id_value text_value old r)).content
        ≡ take 8000 (strip r.new_content)
  unfolding new_memory draft_from
  new-content id p old r = refl

  -- Superseding an active memory of one's own with content that is not blank, under a new id, puts an
  -- active memory of the same principal with the new content in its place: the old one is inactive and
  -- names the new one, the new one is found under its id, and the principal has as many active memories
  -- as before.
  pub memory_supersede_replaces :
      (p id old_id : ℕ) (r : Replacement V) (rows : List (Memory V)) (old : Memory V)
      → find (λ x. x.id) old_id rows ≡ some old
      → find (λ x. x.id) id rows ≡ none
      → counts p old ≡ true
      → is_nil (strip r.new_content) ≡ false
      → (active p (memory_supersede id_value text_value id p old_id r rows) ≡ active p rows)
        × (find (λ x. x.id) old_id (memory_supersede id_value text_value id p old_id r rows)
            ≡ some (record old {
              is_active = false;
              validity_status = superseded;
              superseded_by_id = some id;
            }))
        × (new : Memory V) × (find
              (λ x. x.id)
              id
              (memory_supersede id_value text_value id p old_id r rows)
            ≡ some new)
        × (new.content ≡ take 8000 (strip r.new_content))
        × (counts p new ≡ true)
  unfolding memory_supersede
  memory_supersede_replaces p id old_id r rows old e fresh c n =
      let mine = (and_true (old.principal_id == p) old.is_active c).0 in
      let d = draft_from id_value text_value old r in
      let there = find-created old_id id p d rows old e in
      let one_less =
        active-change p old_id (supersede id) (memory_create id p d rows).0 old there c
          (off_supersede p id) in
      let one_more = active-create p id d rows (draft-content old r n) in
      rw (e, mine, n)
        (
          omega (arith, one_less, one_more),
          find-superseded old_id id (memory_create id p d rows).0 old there,
          new_memory id p d,
          find-other old_id id id (memory_create id p d rows).0
                (fresh_key old_id id rows old e fresh)
              ∙ find-new id p d rows fresh (draft-content old r n),
          new-content id p old r,
          new-counts id p d,
        )
