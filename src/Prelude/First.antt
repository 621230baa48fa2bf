-- ===== src/Prelude/First.antt =====
-- The first row of an ordered query comes before every other row that passes the test.
use mathlib.Core.Path.{◌≡◌, subst}
use mathlib.Core.Logic.{inl, inr}
use mathlib.Core.Bool.{Bool, true, false}
use mathlib.Core.List.{List, [], ◌∷◌}
use waza.Prelude.Lists.{rows_where, take, All, All-imp}
use waza.Prelude.Tests.{Bool-cases}
use waza.Prelude.Table.{insert_by, order_by, select}
use native.Mathlib.Omega.{arith}

-- What ORDER BY asks of its comparison.
pub record IsTotal {R : Type 0} (before : R → R → Bool) : Type 0 where
  pub total : (a b : R) → before a b ≡ false → before b a ≡ true
  pub reflexive : (a : R) → before a a ≡ true
  pub transitive : (a b c : R) → before a b ≡ true → before b c ≡ true → before a c ≡ true

module _ {R : Type 0} (before : R → R → Bool) (t : IsTotal before) where
  abbrev IsFirst : R → List R → Type 0
  IsFirst h rows = All (λ y. before h y ≡ true) rows

  -- An ordered list starts with a row that comes before all.
  abbrev HeadFirst : List R → Type 0
  HeadFirst [] = Unit
  HeadFirst (h ∷ hs) = IsFirst h (h ∷ hs)

  IsFirst-insert_by :
      (h r : R) (xs : List R) → before h r ≡ true → IsFirst h xs → IsFirst h (insert_by before r xs)
  unfolding insert_by
  IsFirst-insert_by h r [] e f = (e, tt)
  IsFirst-insert_by h r (x ∷ xs) e f = elim (Bool-cases (before r x)) [
    | inl b ↦ rw b (e, f)
    | inr b ↦ rw b (f.0, IsFirst-insert_by h r xs e f.1)
  ]

  HeadFirst-insert_by : (r : R) (xs : List R) → HeadFirst xs → HeadFirst (insert_by before r xs)
  unfolding insert_by
  HeadFirst-insert_by r [] f = (t.reflexive r, tt)
  HeadFirst-insert_by r (x ∷ xs) f = elim (Bool-cases (before r x)) [
    | inl b ↦ rw b (
      t.reflexive r,
      All-imp (λ y. before x y ≡ true) (λ y. before r y ≡ true) (x ∷ xs)
          (λ y e. t.transitive r x y b e) f,
    )
    | inr b ↦ rw b (f.0, IsFirst-insert_by x r xs (t.total r x b) f.1)
  ]

  HeadFirst-order_by : (rows : List R) → HeadFirst (order_by before rows)
  unfolding order_by
  HeadFirst-order_by [] = tt
  HeadFirst-order_by (x ∷ xs) = HeadFirst-insert_by x (order_by before xs) (HeadFirst-order_by xs)

  IsFirst-of_insert_by :
      (h r : R) (xs : List R)
      → IsFirst h (insert_by before r xs)
      → (before h r ≡ true) × IsFirst h xs
  unfolding insert_by
  IsFirst-of_insert_by h r [] f = f
  IsFirst-of_insert_by h r (x ∷ xs) f = elim (Bool-cases (before r x)) [
    | inl b ↦ (rw b at f)
    | inr b ↦
        let g : (before h x ≡ true) × IsFirst h (insert_by before r xs) = (rw b at f) in
        let (hr, rest) = IsFirst-of_insert_by h r xs g.1 in (hr, (g.0, rest))
  ]

  IsFirst-of_order_by : (h : R) (rows : List R) → IsFirst h (order_by before rows) → IsFirst h rows
  unfolding order_by
  IsFirst-of_order_by h [] f = tt
  IsFirst-of_order_by h (x ∷ xs) f =
      let (hx, rest) = IsFirst-of_insert_by h x (order_by before xs) f in
      (hx, IsFirst-of_order_by h xs rest)

  IsFirst-of_take :
      (h : R) (rest rows : List R) → take 1 rows ≡ h ∷ rest → HeadFirst rows → IsFirst h rows
  IsFirst-of_take h rest [] e f = ground arith
  IsFirst-of_take h rest (x ∷ xs) e f =
      let same : x ≡ h = ground arith in subst (λ r. IsFirst r (x ∷ xs)) same f

  -- The row that ORDER BY … LIMIT 1 gives comes before every row that passes the test.
  pub select_first :
      (p : R → Bool) (rows : List R) (r : R) (rest : List R)
      → select p before 1 rows ≡ r ∷ rest
      → All (λ y. before r y ≡ true) (rows_where p rows)
  unfolding select
  select_first p rows r rest e = IsFirst-of_order_by r (rows_where p rows) (
      IsFirst-of_take r rest (order_by before (rows_where p rows)) e
        (HeadFirst-order_by (rows_where p rows)))
