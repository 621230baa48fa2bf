-- ===== src/Prelude/Sweep.antt =====
-- A sweep: the rows that a query selects are changed one by one and written back. What becomes of
-- the row with a given primary key.
use Prim.Native.Nat.{ℕ, ◌≤◌}
use mathlib.Core.Path.{◌≡◌, refl, sym, ◌∙◌, ap, subst}
use mathlib.Core.Logic.{◌⊎◌, inl, inr}
use mathlib.Core.Bool.{Bool, true, false}
use mathlib.Core.List.{List, [], ◌∷◌, map}
use native.Mathlib.Omega.{arith}
use native.Mathlib.Decide.{ℕ_discrete}
use waza.Prelude.Lists.{length, rows_where, All, All-zip, All-imp, All-map, All-of}
use waza.Prelude.Tests.{◌==◌, ==_iff, Bool-cases}
use waza.Prelude.Table.{
  select, store, store_each, All-select, All-select_test, All-store, All-store_each,
}
use waza.Prelude.Rows.{
  In, IfKey, with_key, RowIs, RowIs-store_new, In-select, All-with_key, All-if_key,
}

module _ {R : Type 0} (key : R → ℕ) (f : R → R) (keeps_key : (x : R) → key (f x) ≡ key x) where
  IfKey-store :
      (j : ℕ) (d r : R) (rows : List R)
      → (key r ≡ j → r ≡ d)
      → IfKey key j d rows
      → IfKey key j d (store key r rows)
  unfolding store
  IfKey-store j d r [] new h = tt
  IfKey-store j d r (x ∷ xs) new h = elim (Bool-cases (key x == key r)) [
    | inl e ↦ rw e (new, IfKey-store j d r xs new h.1)
    | inr e ↦ rw e (h.0, IfKey-store j d r xs new h.1)
  ]

  -- Once the row is written, it stays: a second visit writes the same value again.
  IfKey-store_each :
      (j : ℕ) (d : R) (sel rows : List R)
      → IfKey key j d sel
      → IfKey key j (f d) rows
      → IfKey key j (f d) (store_each key f sel rows)
  unfolding store_each
  IfKey-store_each j d [] rows s h = h
  IfKey-store_each j d (x ∷ xs) rows s h =
      IfKey-store_each j d xs (store key (f x) rows) s.1
        (IfKey-store j (f d) (f x) rows (λ e. ap f (s.0 (sym (keeps_key x) ∙ e))) h)

  -- Writing the row of `d` leaves the other keys alone, and `d`'s own row is the new value.
  IfKey-store_self :
      (d : R) (rows : List R)
      → IfKey key (key d) d rows
      → IfKey key (key d) (f d) (store key (f d) rows)
  unfolding store
  IfKey-store_self d [] h = tt
  IfKey-store_self d (x ∷ xs) h = elim (Bool-cases (key x == key (f d))) [
    | inl e ↦ rw e ((λ _. refl), IfKey-store_self d xs h.1)
    | inr e ↦ rw e (
      (λ k.
          let clash : (key x == key (f d)) ≡ true =
            (==_iff (key x) (key (f d))).1 (k ∙ sym (keeps_key d)) in
          cc),
      IfKey-store_self d xs h.1,
    )
  ]

  tail_of_hit :
      (d x : R) (xs rows : List R)
      → IfKey key (key d) d (x ∷ xs)
      → (IfKey key (key d) d (store key (f x) rows)
          → IfKey key (key d) (f d) (store_each key f xs (store key (f x) rows)))
      → IfKey key (key d) d rows
      → IfKey key (key d) (f d) (store_each key f xs (store key (f x) rows))
  tail_of_hit d x xs rows s rest h = elim (ℕ_discrete (key x) (key d)) [
    | yes e ↦
        IfKey-store_each (key d) d xs (store key (f x) rows) s.1
          (rw (s.0 e) (IfKey-store_self d rows h))
    | no n ↦ rest (IfKey-store (key d) d (f x) rows (λ e. absurd (n (sym (keeps_key x) ∙ e))) h)
  ]

  -- A selected row is changed, whatever else is selected.
  IfKey-store_each_hit :
      (d : R) (sel rows : List R)
      → In d sel
      → IfKey key (key d) d sel
      → IfKey key (key d) d rows
      → IfKey key (key d) (f d) (store_each key f sel rows)
  unfolding store_each
  IfKey-store_each_hit d [] rows m s h = absurd m
  IfKey-store_each_hit d (x ∷ xs) rows (inl e) s h =
      IfKey-store_each (key d) d xs (store key (f x) rows) s.1
        (rw (← e) (IfKey-store_self d rows h))
  IfKey-store_each_hit d (x ∷ xs) rows (inr m) s h =
      tail_of_hit d x xs rows s (IfKey-store_each_hit d xs (store key (f x) rows) m s.1) h

  module _ (p : R → Bool) (before : R → R → Bool) (limit : ℕ) (rows : List R) where
    -- After a sweep the row of `d` is as it was, or it passed the test and was changed once.
    IfKey-row :
        (d : R)
        → IfKey key (key d) d rows
        → All
            (λ x. key x ≡ key d → (x ≡ d) ⊎ ((p d ≡ true) × (x ≡ f d)))
            (store_each key f (select p before limit rows) rows)
    IfKey-row d h =
        All-store_each (λ x. key x ≡ key d → (x ≡ d) ⊎ ((p d ≡ true) × (x ≡ f d))) key f
          (select p before limit rows) rows
          (All-imp (λ x. (p x ≡ true) × (key x ≡ key d → x ≡ d))
            (λ x. key (f x) ≡ key d → (f x ≡ d) ⊎ ((p d ≡ true) × (f x ≡ f d)))
            (select p before limit rows)
            (λ x t e.
              let same = t.1 (sym (keeps_key x) ∙ e) in inr (ap p (sym same) ∙ t.0, ap f same))
            (All-zip (λ x. p x ≡ true) (λ x. key x ≡ key d → x ≡ d) (select p before limit rows)
              (All-select_test (λ x. p x ≡ true) p before limit rows (λ x t. t))
              (All-select (λ x. key x ≡ key d → x ≡ d) p before limit rows h)))
          (All-imp (λ x. key x ≡ key d → x ≡ d)
            (λ x. key x ≡ key d → (x ≡ d) ⊎ ((p d ≡ true) × (x ≡ f d))) rows (λ x t e. inl (t e)) h)

    -- If the limit is not reached, every row that passes the test is changed.
    IfKey-hit :
        (d : R)
        → IfKey key (key d) d rows
        → In d rows
        → p d ≡ true
        → length (rows_where p rows) ≤ limit
        → IfKey key (key d) (f d) (store_each key f (select p before limit rows) rows)
    IfKey-hit d h m t fits =
        IfKey-store_each_hit d (select p before limit rows) rows
          (In-select p before limit d rows fits m t)
          (All-select (λ x. key x ≡ key d → x ≡ d) p before limit rows h) h

    -- A row that fails the test is left alone.
    IfKey-miss :
        (d : R)
        → IfKey key (key d) d rows
        → p d ≡ false
        → IfKey key (key d) d (store_each key f (select p before limit rows) rows)
    IfKey-miss d h t =
        All-imp (λ x. key x ≡ key d → (x ≡ d) ⊎ ((p d ≡ true) × (x ≡ f d)))
          (λ x. key x ≡ key d → x ≡ d) (store_each key f (select p before limit rows) rows)
          (λ x c e. ground (arith, c e)) (IfKey-row d h)

    -- After a sweep the row of `d` is as it was, or it passed the test and was changed once.
    pub sweep_row :
        (d : R)
        → RowIs key (key d) d rows
        → All
            (λ x. (x ≡ d) ⊎ ((p d ≡ true) × (x ≡ f d)))
            (with_key key (key d) (store_each key f (select p before limit rows) rows))
    sweep_row d h =
        All-with_key key (key d) (λ x. (x ≡ d) ⊎ ((p d ≡ true) × (x ≡ f d)))
          (store_each key f (select p before limit rows) rows)
          (IfKey-row d (All-if_key key (key d) (λ x. x ≡ d) rows h))

    -- If the limit is not reached, every row that passes the test is changed.
    pub sweep_hit :
        (d : R)
        → RowIs key (key d) d rows
        → In d rows
        → p d ≡ true
        → length (rows_where p rows) ≤ limit
        → RowIs key (key d) (f d) (store_each key f (select p before limit rows) rows)
    sweep_hit d h m t fits =
        All-with_key key (key d) (λ x. x ≡ f d) (store_each key f (select p before limit rows) rows)
          (IfKey-hit d (All-if_key key (key d) (λ x. x ≡ d) rows h) m t fits)

    -- A row that fails the test is left alone.
    pub sweep_miss :
        (d : R)
        → RowIs key (key d) d rows
        → p d ≡ false
        → RowIs key (key d) d (store_each key f (select p before limit rows) rows)
    sweep_miss d h t =
        All-with_key key (key d) (λ x. x ≡ d) (store_each key f (select p before limit rows) rows)
          (IfKey-miss d (All-if_key key (key d) (λ x. x ≡ d) rows h) t)

module _ {R : Type 0} (key : R → ℕ) (f : R → R) (keeps_key : (x : R) → key (f x) ≡ key x) where
  -- `UPDATE … SET x = f(x)` on all rows.
  pub RowIs-map :
      (d : R) (rows : List R) → RowIs key (key d) d rows → RowIs key (key d) (f d) (map f rows)
  RowIs-map d rows h =
      All-with_key key (key d) (λ x. x ≡ f d) (map f rows)
        (All-map (λ x. key x ≡ key d → x ≡ d) (λ x. key x ≡ key d → x ≡ f d) f rows
          (λ x t e. ap f (t (sym (keeps_key x) ∙ e))) (All-if_key key (key d) (λ x. x ≡ d) rows h))

module _ {R : Type 0} (key : R → ℕ) (f : R → R) (keeps_key : (x : R) → key (f x) ≡ key x)
    (Q : R → Type 0) (marks : (x : R) → Q (f x)) where
  marked-store :
      (j : ℕ) (r : R) (rows : List R)
      → All (λ x. key x ≡ j → Q x) rows
      → All (λ x. key x ≡ j → Q x) (store key (f r) rows)
  marked-store j r rows h = All-store (λ x. key x ≡ j → Q x) key (f r) rows (λ _. marks r) h

  marked-store_each :
      (j : ℕ) (sel rows : List R)
      → All (λ x. key x ≡ j → Q x) rows
      → All (λ x. key x ≡ j → Q x) (store_each key f sel rows)
  marked-store_each j sel rows h =
      All-store_each (λ x. key x ≡ j → Q x) key f sel rows (All-of _ sel (λ x _. marks x)) h

  marked_head : (r : R) (rows : List R) → All (λ x. key x ≡ key r → Q x) (store key (f r) rows)
  marked_head r rows =
      All-imp (λ x. key x ≡ key r → x ≡ f r) (λ x. key x ≡ key r → Q x) (store key (f r) rows)
        (λ x t e. subst Q (sym (t e)) (marks r))
        (All-if_key key (key r) (λ x. x ≡ f r) (store key (f r) rows)
          (subst (λ j. RowIs key j (f r) (store key (f r) rows)) (keeps_key r)
            (RowIs-store_new key (f r) rows)))

  -- Every row that a sweep visits carries its mark afterwards.
  pub sweep_marks :
      (x : R) (sel rows : List R)
      → In x sel
      → All (λ y. key y ≡ key x → Q y) (store_each key f sel rows)
  unfolding store_each
  sweep_marks x [] rows m = absurd m
  sweep_marks x (y ∷ ys) rows (inl e) =
      marked-store_each (key x) ys (store key (f y) rows) (rw (← e) (marked_head x rows))
  sweep_marks x (y ∷ ys) rows (inr m) = sweep_marks x ys (store key (f y) rows) m
