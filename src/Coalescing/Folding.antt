-- ===== src/Coalescing/Folding.antt =====
-- What `coalesce_works_into` of wax/work/recovery.py makes of a turn and its siblings.
use waza.Prelude.{
  ℕ, ◌≤◌, ◌≡◌, refl, sym, ap, ◌∙◌, true, false, some, List, [], ◌∷◌, All, leb, leb→le, or_else,
  Bool-cases, inl, inr, map, arith,
}
use waza.Prelude.Table.{insert_by, order_by}
use waza.Prelude.Rows.{In, In-order_by}
use waza.Prelude.Text.{is_nil, strip}
use waza.Work.{completed}
use waza.Coalescing.{
  Work, Part, part_of, parts_of, has_two, earlier, fold_sibling, coalesce_works_into,
}

-- What is said in a work that is not blank is one of the parts.
In-parts_of :
    (w : Work) (ws : List Work)
    → is_nil (strip w.text) ≡ false
    → In w ws
    → In (part_of w) (parts_of ws)
unfolding parts_of
In-parts_of w [] n m = absurd m
In-parts_of w (x ∷ xs) n (inl e) =
    let said : is_nil (strip x.text) ≡ false = ap (λ y. is_nil (strip y.text)) (sym e) ∙ n in
    rw said (inl (ap part_of e))
In-parts_of w (x ∷ xs) n (inr m) = elim (Bool-cases (is_nil (strip x.text))) [
  | inl t ↦ rw t (In-parts_of w xs n m)
  | inr t ↦ rw t (inr (In-parts_of w xs n m))
]

All-completed :
    (now : ℕ) (primary : Work) (ws : List Work)
    → All
        (λ s. (s.status ≡ completed) × (s.coalesced_into ≡ some primary.id))
        (map (fold_sibling now primary) ws)
All-completed now primary [] = tt
All-completed now primary (w ∷ ws) = ((refl, refl), All-completed now primary ws)

-- When at least two of a turn and its siblings say something, the turn's payload keeps what each of them
-- says, stripped and up to 2000 characters, and every sibling is completed and names the turn.
pub coalesce_keeps_parts :
    (now : ℕ) (primary w s : Work) (ss : List Work)
    → has_two (parts_of (order_by (earlier now) (primary ∷ s ∷ ss))) ≡ true
    → In w (primary ∷ s ∷ ss)
    → is_nil (strip w.text) ≡ false
    → In (part_of w) (coalesce_works_into now primary (s ∷ ss)).primary.recovery_batch
      × All
          (λ x. (x.status ≡ completed) × (x.coalesced_into ≡ some primary.id))
          (coalesce_works_into now primary (s ∷ ss)).siblings
unfolding coalesce_works_into
coalesce_keeps_parts now primary w s ss two m n = rw two (
  In-parts_of w (order_by (earlier now) (primary ∷ s ∷ ss)) n
      (In-order_by (earlier now) w (primary ∷ s ∷ ss) m),
  All-completed now primary (s ∷ ss),
)

-- Each element stands before all later ones.
module _ {R : Type 0} (key : R → ℕ) where
  abbrev pub Ascending : List R → Type 0
  Ascending [] = Unit
  Ascending (x ∷ xs) = All (λ y. key x ≤ key y) xs × Ascending xs

  All-insert_le :
      (k : ℕ) (r : R) (xs : List R)
      → k ≤ key r
      → All (λ y. k ≤ key y) xs
      → All (λ y. k ≤ key y) (insert_by (λ a b. leb (key a) (key b)) r xs)
  unfolding insert_by
  All-insert_le k r [] l h = (l, tt)
  All-insert_le k r (x ∷ xs) l h = elim (Bool-cases (leb (key r) (key x))) [
    | inl t ↦ rw t (l, h)
    | inr t ↦ rw t (h.0, All-insert_le k r xs l h.1)
  ]

  All-le : (a b : ℕ) (xs : List R) → a ≤ b → All (λ y. b ≤ key y) xs → All (λ y. a ≤ key y) xs
  All-le a b [] l h = tt
  All-le a b (x ∷ xs) l h = (omega (arith, h.0), All-le a b xs l h.1)

  insert-Ascending :
      (r : R) (xs : List R) → Ascending xs → Ascending (insert_by (λ a b. leb (key a) (key b)) r xs)
  unfolding insert_by
  insert-Ascending r [] h = (tt, tt)
  insert-Ascending r (x ∷ xs) h = elim (Bool-cases (leb (key r) (key x))) [
    | inl t ↦ let l = leb→le (key r) (key x) t in rw t ((l, All-le (key r) (key x) xs l h.0), h)
    | inr t ↦
        let l : key x ≤ key r = ground (arith, t) in
        rw t (All-insert_le (key x) r xs l h.0, insert-Ascending r xs h.1)
  ]

  pub order_by-Ascending : (xs : List R) → Ascending (order_by (λ a b. leb (key a) (key b)) xs)
  unfolding order_by
  order_by-Ascending [] = tt
  order_by-Ascending (x ∷ xs) = insert-Ascending x _ (order_by-Ascending xs)

-- A part's time, where one without a time is as late as `now`.
abbrev pub part_time : ℕ → Part → ℕ
part_time now p = or_else p.created_at now

All-parts :
    (k now : ℕ) (ws : List Work)
    → All (λ w. k ≤ or_else w.created_at now) ws
    → All (λ p. k ≤ part_time now p) (parts_of ws)
unfolding parts_of
All-parts k now [] h = tt
All-parts k now (w ∷ ws) h = elim (Bool-cases (is_nil (strip w.text))) [
  | inl t ↦ rw t (All-parts k now ws h.1)
  | inr t ↦ rw t (h.0, All-parts k now ws h.1)
]

parts-Ascending :
    (now : ℕ) (ws : List Work)
    → Ascending (λ w. or_else w.created_at now) ws
    → Ascending (part_time now) (parts_of ws)
unfolding parts_of
parts-Ascending now [] h = tt
parts-Ascending now (w ∷ ws) h = elim (Bool-cases (is_nil (strip w.text))) [
  | inl t ↦ rw t (parts-Ascending now ws h.1)
  | inr t ↦ rw t (All-parts (or_else w.created_at now) now ws h.0, parts-Ascending now ws h.1)
]

-- The parts that a turn and its siblings are folded to come in the order of their times, where a work
-- without a time counts as created at `now`.
coalesce_in_order :
    (now : ℕ) (primary : Work) (ss : List Work)
    → Ascending (part_time now) (coalesce_works_into now primary ss).texts
unfolding coalesce_works_into
coalesce_in_order now primary [] = tt
coalesce_in_order now primary (s ∷ ss) =
    let ordered =
      parts-Ascending now (order_by (earlier now) (primary ∷ s ∷ ss))
        (order_by-Ascending (λ w. or_else w.created_at now) (primary ∷ s ∷ ss)) in
    elim (Bool-cases (has_two (parts_of (order_by (earlier now) (primary ∷ s ∷ ss))))) [
      | inl t ↦ rw t ordered
      | inr t ↦ rw t ordered
    ]
