-- ===== src/Prelude/Table.antt =====
-- A database table: the rows, with a native number for the primary key. `select` is a query with
-- WHERE, ORDER BY and LIMIT; rows that compare equal keep their order in the table.
use waza.Prelude.Lists.{
  length, take, rows_where, All, All-take, All-rows_where, All-rows_where_test, length-take,
}
use waza.Prelude.Tests.{◌==◌, ==_refl, if◌then◌else◌, is_some, Bool-cases}
use Prim.Native.Nat.{ℕ, ◌≤◌}
use mathlib.Core.Path.{◌≡◌, refl, subst}
use mathlib.Core.Logic.{inl, inr}
use mathlib.Core.Bool.{Bool, true}
use mathlib.Core.Option.{Option, none, some}
use mathlib.Core.List.{List, [], ◌∷◌, map}
use native.Mathlib.Omega.{arith}

module _ {ℓ} {R : Type ℓ} where
  unfoldable pub insert_by : (R → R → Bool) → R → List R → List R
  insert_by before r [] = r ∷ []
  insert_by before r (x ∷ xs) =
      let rest = insert_by before r xs in if before r x then r ∷ x ∷ xs else x ∷ rest

  -- ORDER BY: `before r x` says that `r` may stand in front of `x`.
  unfoldable pub order_by : (R → R → Bool) → List R → List R
  unfolding insert_by
  order_by before [] = []
  order_by before (x ∷ xs) = insert_by before x (order_by before xs)

  -- SELECT … WHERE p ORDER BY before LIMIT limit
  unfoldable pub select : (R → Bool) → (R → R → Bool) → ℕ → List R → List R
  unfolding order_by
  select p before limit rows = take limit (order_by before (rows_where p rows))

module _ {ℓ} {R : Type ℓ} (key : R → ℕ) where
  -- session.get: the row with this primary key.
  unfoldable pub find : ℕ → List R → Option R
  find k [] = none
  find k (x ∷ xs) = if key x == k then some x else find k xs

  -- Writing back a row that was read: it replaces the row with its primary key.
  unfoldable pub store : R → List R → List R
  store r [] = []
  store r (x ∷ xs) = (if key x == key r then r else x) ∷ store r xs

  -- `for x in selected: x = f(x)`, on rows that were read before the loop.
  unfoldable pub store_each : (R → R) → List R → List R → List R
  unfolding store
  store_each f [] rows = rows
  store_each f (x ∷ xs) rows = store_each f xs (store (f x) rows)

  pub find-store :
      (r : R) (k : ℕ) (rows : List R)
      → find k (store r rows)
        ≡ (if key r == k then (if is_some (find k rows) then some r else none) else find k rows)
  unfolding find store
  find-store r k [] = ground arith
  find-store r k (x ∷ xs) = ground (arith, find-store r k xs)

  -- A row that is there is found as it was written.
  pub find-store_found :
      (r : R) (k : ℕ) (rows : List R) {x : R}
      → find k rows ≡ some x
      → key r ≡ k
      → find k (store r rows) ≡ some r
  find-store_found r k rows h e = rw (find-store r k rows, h, e, ==_refl k) refl

  pub keys-store : (r : R) (rows : List R) → map key (store r rows) ≡ map key rows
  unfolding store
  keys-store r [] = refl
  keys-store r (x ∷ xs) = ground (arith, keys-store r xs)

  pub key-find : (k : ℕ) (rows : List R) {r : R} → find k rows ≡ some r → key r ≡ k
  unfolding find
  key-find k [] h = ground arith
  key-find k (x ∷ xs) {r} h = ground (arith, key-find k xs {r = r})

module _ {ℓ κ} {R : Type ℓ} (P : R → Type κ) where
  All-insert_by :
      (before : R → R → Bool) (r : R) (rows : List R)
      → P r
      → All P rows
      → All P (insert_by before r rows)
  unfolding insert_by
  All-insert_by before r [] p h = (p, tt)
  All-insert_by before r (x ∷ xs) p h = elim (Bool-cases (before r x)) [
    | inl e ↦ rw e (p, h)
    | inr e ↦ rw e (h.0, All-insert_by before r xs p h.1)
  ]

  pub All-order_by :
      (before : R → R → Bool) (rows : List R) → All P rows → All P (order_by before rows)
  unfolding order_by
  All-order_by before [] h = tt
  All-order_by before (x ∷ xs) h =
      All-insert_by before x (order_by before xs) h.0 (All-order_by before xs h.1)

  -- What holds of all rows holds of the selected ones.
  pub All-select :
      (p : R → Bool) (before : R → R → Bool) (limit : ℕ) (rows : List R)
      → All P rows
      → All P (select p before limit rows)
  unfolding select
  All-select p before limit rows h =
      All-take P limit (order_by before (rows_where p rows))
        (All-order_by before (rows_where p rows) (All-rows_where P p rows h))

  -- What the WHERE clause says holds of each selected row.
  pub All-select_test :
      (p : R → Bool) (before : R → R → Bool) (limit : ℕ) (rows : List R)
      → ((x : R) → p x ≡ true → P x)
      → All P (select p before limit rows)
  unfolding select
  All-select_test p before limit rows f =
      All-take P limit (order_by before (rows_where p rows))
        (All-order_by before (rows_where p rows) (All-rows_where_test P p rows f))

  pub All-store :
      (key : R → ℕ) (r : R) (rows : List R) → P r → All P rows → All P (store key r rows)
  unfolding store
  All-store key r [] p h = tt
  All-store key r (x ∷ xs) p h = elim (Bool-cases (key x == key r)) [
    | inl e ↦ rw e (p, All-store key r xs p h.1)
    | inr e ↦ rw e (h.0, All-store key r xs p h.1)
  ]

  pub All-store_each :
      (key : R → ℕ) (f : R → R) (sel rows : List R)
      → All (λ x. P (f x)) sel
      → All P rows
      → All P (store_each key f sel rows)
  unfolding store_each
  All-store_each key f [] rows s h = h
  All-store_each key f (x ∷ xs) rows s h =
      All-store_each key f xs (store key (f x) rows) s.1 (All-store key (f x) rows s.0 h)

  pub All-find :
      (key : R → ℕ) (k : ℕ) (rows : List R) {r : R} → All P rows → find key k rows ≡ some r → P r
  unfolding find
  All-find key k [] h e = ground arith
  All-find key k (x ∷ xs) {r} h e = elim (Bool-cases (key x == k)) [
    | inl t ↦ let same : x ≡ r = ground arith in subst P same h.0
    | inr t ↦ let rest : find key k xs ≡ some r = ground arith in All-find key k xs h.1 rest
  ]

module _ {ℓ} {R : Type ℓ} where
  pub length-select-le :
      (p : R → Bool) (before : R → R → Bool) (limit : ℕ) (rows : List R)
      → length (select p before limit rows) ≤ limit
  unfolding select
  length-select-le p before limit rows =
      omega (arith, length-take limit (order_by before (rows_where p rows)))
