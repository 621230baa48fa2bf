-- ===== src/Prelude/Rows.antt =====
-- Rows of a table: membership, the rows with a given primary key, and what a query selects.
use Prim.Native.Nat.{ℕ, zero, suc, ◌≤◌}
use mathlib.Core.Path.{◌≡◌, refl, sym, ◌∙◌, ap, subst}
use mathlib.Core.Logic.{◌⊎◌, ◌≢◌, inl, inr}
use mathlib.Core.Bool.{Bool, true, false}
use mathlib.Core.List.{List, [], ◌∷◌}
use native.Mathlib.Omega.{arith}
use waza.Prelude.Lists.{length, length-take, take, rows_where, All, All-zip, All-imp, All-if_cons}
use waza.Prelude.Tests.{◌==◌, ==_iff, ==_refl, if◌then◌else◌, Bool-cases}
use waza.Prelude.Table.{
  insert_by, order_by, select, store, store_each, All-store, All-select, All-select_test,
  All-store_each,
}

-- `x` is one of the rows.
abbrev pub In : {R : Type 0} → R → List R → Type 0
In x [] = ⊥
In x (y ∷ ys) = (x ≡ y) ⊎ In x ys

abbrev pub IfKey : {R : Type 0} → (R → ℕ) → ℕ → R → List R → Type 0
IfKey key j d rows = All (λ x. key x ≡ j → x ≡ d) rows

-- The rows with primary key `j`: SELECT … WHERE id = j.
abbrev pub with_key : {R : Type 0} → (R → ℕ) → ℕ → List R → List R
with_key key j rows = rows_where (λ x. key x == j) rows

-- The row with primary key `j`, if there is one, is `d`.
abbrev pub RowIs : {R : Type 0} → (R → ℕ) → ℕ → R → List R → Type 0
RowIs key j d rows = All (λ x. x ≡ d) (with_key key j rows)

module _ {R : Type 0} where
  In-rows_where :
      (p : R → Bool) (d : R) (rows : List R) → In d rows → p d ≡ true → In d (rows_where p rows)
  In-rows_where p d [] m h = m
  In-rows_where p d (x ∷ xs) (inl e) h = let t : p x ≡ true = ap p (sym e) ∙ h in rw t (inl e)
  In-rows_where p d (x ∷ xs) (inr m) h = elim (Bool-cases (p x)) [
    | inl t ↦ rw t (inr (In-rows_where p d xs m h))
    | inr t ↦ rw t (In-rows_where p d xs m h)
  ]

  In-insert_by_self :
      (before : R → R → Bool) (r : R) (rows : List R) → In r (insert_by before r rows)
  unfolding insert_by
  In-insert_by_self before r [] = inl refl
  In-insert_by_self before r (x ∷ xs) = elim (Bool-cases (before r x)) [
    | inl t ↦ rw t (inl refl)
    | inr t ↦ rw t (inr (In-insert_by_self before r xs))
  ]

  In-insert_by :
      (before : R → R → Bool) (r d : R) (rows : List R) → In d rows → In d (insert_by before r rows)
  unfolding insert_by
  In-insert_by before r d [] m = absurd m
  In-insert_by before r d (x ∷ xs) (inl e) = elim (Bool-cases (before r x)) [
    | inl t ↦ rw t (inr (inl e))
    | inr t ↦ rw t (inl e)
  ]
  In-insert_by before r d (x ∷ xs) (inr m) = elim (Bool-cases (before r x)) [
    | inl t ↦ rw t (inr (inr m))
    | inr t ↦ rw t (inr (In-insert_by before r d xs m))
  ]

  pub In-order_by :
      (before : R → R → Bool) (d : R) (rows : List R) → In d rows → In d (order_by before rows)
  unfolding order_by
  In-order_by before d [] m = m
  In-order_by before d (x ∷ xs) (inl e) =
      subst (λ r. In r (order_by before (x ∷ xs))) (sym e)
        (In-insert_by_self before x (order_by before xs))
  In-order_by before d (x ∷ xs) (inr m) =
      In-insert_by before x d (order_by before xs) (In-order_by before d xs m)

  length-insert_by :
      (before : R → R → Bool) (r : R) (rows : List R)
      → length (insert_by before r rows) ≡ suc (length rows)
  unfolding insert_by
  length-insert_by before r [] = refl
  length-insert_by before r (x ∷ xs) = ground (arith, length-insert_by before r xs)

  pub length-order_by :
      (before : R → R → Bool) (rows : List R) → length (order_by before rows) ≡ length rows
  unfolding order_by
  length-order_by before [] = refl
  length-order_by before (x ∷ xs) =
      length-insert_by before x (order_by before xs) ∙ ap suc (length-order_by before xs)

  -- A limit that is not reached cuts nothing off.
  pub take_uncut : (rows : List R) (limit : ℕ) → length rows ≤ limit → take limit rows ≡ rows
  take_uncut [] zero fits = refl
  take_uncut [] (suc limit) fits = refl
  take_uncut (r ∷ rows) zero fits = ground arith
  take_uncut (r ∷ rows) (suc limit) fits =
      let rest = take_uncut rows limit (omega arith) in rw rest refl

  -- Where the limit does not cut the query off, every row that passes the test is selected.
  pub In-select :
      (p : R → Bool) (before : R → R → Bool) (limit : ℕ) (d : R) (rows : List R)
      → length (rows_where p rows) ≤ limit
      → In d rows
      → p d ≡ true
      → In d (select p before limit rows)
  unfolding select
  In-select p before limit d rows fits m h =
      let same = length-order_by before (rows_where p rows) in
      rw (take_uncut (order_by before (rows_where p rows)) limit (omega arith))
        (In-order_by before d (rows_where p rows) (In-rows_where p d rows m h))

module _ {R : Type 0} (key : R → ℕ) (j : ℕ) (P : R → Type 0) where
  pub All-with_key : (rows : List R) → All (λ x. key x ≡ j → P x) rows → All P (with_key key j rows)
  All-with_key [] h = tt
  All-with_key (x ∷ xs) h =
      All-if_cons P (key x == j) x (with_key key j xs) (λ t. h.0 ((==_iff (key x) j).0 t))
        (All-with_key xs h.1)

  if_cons-All :
      (b : Bool) (x : R) (xs : List R)
      → All P (if b then x ∷ xs else xs)
      → (b ≡ true → P x) × All P xs
  if_cons-All true x xs h = (λ _. h.0, h.1)
  if_cons-All false x xs h = (λ t. cc, h)

  pub All-if_key : (rows : List R) → All P (with_key key j rows) → All (λ x. key x ≡ j → P x) rows
  All-if_key [] h = tt
  All-if_key (x ∷ xs) h =
      let (now, rest) = if_cons-All (key x == j) x (with_key key j xs) h in
      (λ e. now ((==_iff (key x) j).1 e), All-if_key xs rest)

module _ {R : Type 0} (key : R → ℕ) where
  -- After a row is written, it is what its primary key finds.
  pub RowIs-store_new : (r : R) (rows : List R) → RowIs key (key r) r (store key r rows)
  unfolding store
  RowIs-store_new r [] = tt
  RowIs-store_new r (x ∷ xs) = elim (Bool-cases (key x == key r)) [
    | inl e ↦ rw e (rw (==_refl (key r)) (refl, RowIs-store_new r xs))
    | inr e ↦ rw (e, e) (RowIs-store_new r xs)
  ]

module _ {R : Type 0} where
  In-tail : (y : R) (xs zs : List R) → All (λ x. In x zs) xs → All (λ x. In x (y ∷ zs)) xs
  In-tail y [] zs h = tt
  In-tail y (x ∷ xs) zs h = (inr h.0, In-tail y xs zs h.1)

  pub All-In : (rows : List R) → All (λ x. In x rows) rows
  All-In [] = tt
  All-In (x ∷ xs) = (inl refl, In-tail x xs xs (All-In xs))

  nil_of_length : (xs : List R) → length xs ≡ 0 → xs ≡ []
  nil_of_length [] e = refl
  nil_of_length (x ∷ xs) e = absurd (omega arith)

  -- A query with a limit above zero that finds nothing: nothing passes its test.
  pub select_none :
      (p : R → Bool) (before : R → R → Bool) (limit : ℕ) (rows : List R)
      → 1 ≤ limit
      → select p before limit rows ≡ []
      → rows_where p rows ≡ []
  unfolding select
  select_none p before limit rows h e = nil_of_length (rows_where p rows) (
      omega (
        arith,
        length-order_by before (rows_where p rows),
        length-take limit (order_by before (rows_where p rows)),
        ap length e,
      ))

module _ {R : Type 0} (P : R → Type 0) where
  pub All-at : (x : R) (rows : List R) → All P rows → In x rows → P x
  All-at x [] h m = absurd m
  All-at x (y ∷ ys) h (inl e) = subst P (sym e) h.0
  All-at x (y ∷ ys) h (inr m) = All-at x ys h.1 m

module _ {R : Type 0} (key : R → ℕ) where
  -- A row that is in the table under the primary key of `d` is `d`.
  pub RowIs-at :
      (d x : R) (rows : List R) → RowIs key (key d) d rows → In x rows → key x ≡ key d → x ≡ d
  RowIs-at d x rows h m =
      All-at (λ y. key y ≡ key d → y ≡ d) x rows (All-if_key key (key d) (λ y. y ≡ d) rows h) m

  -- Writing another row leaves this one alone.
  pub RowIs-store_ne :
      (j : ℕ) (d r : R) (rows : List R)
      → key r ≢ j
      → RowIs key j d rows
      → RowIs key j d (store key r rows)
  RowIs-store_ne j d r rows n h =
      All-with_key key j (λ x. x ≡ d) (store key r rows)
        (All-store (λ x. key x ≡ j → x ≡ d) key r rows (λ e. absurd (n e))
          (All-if_key key j (λ x. x ≡ d) rows h))

module _ {R : Type 0} (P : R → Type 0) where
  -- What holds of all rows holds of each selected one, beside what the WHERE clause says.
  pub All-select_both :
      (p : R → Bool) (before : R → R → Bool) (limit : ℕ) (rows : List R)
      → All P rows
      → All (λ x. (p x ≡ true) × P x) (select p before limit rows)
  All-select_both p before limit rows h =
      All-zip (λ x. p x ≡ true) P (select p before limit rows)
        (All-select_test (λ x. p x ≡ true) p before limit rows (λ x t. t))
        (All-select P p before limit rows h)

  -- A sweep keeps what its body keeps on the rows that pass the test.
  pub All-sweep :
      (key : R → ℕ) (f : R → R) (p : R → Bool) (before : R → R → Bool) (limit : ℕ) (rows : List R)
      → ((x : R) → p x ≡ true → P x → P (f x))
      → All P rows
      → All P (store_each key f (select p before limit rows) rows)
  All-sweep key f p before limit rows keep h =
      All-store_each P key f (select p before limit rows) rows
        (All-imp (λ x. (p x ≡ true) × P x) (λ x. P (f x)) (select p before limit rows)
          (λ x t. keep x t.0 t.1) (All-select_both p before limit rows h))
        h
