-- ===== src/Work/Claiming.antt =====
-- `claim_next`: which work it takes, and that it takes none that another transaction has locked.
use waza.Prelude.{
  ℕ, ◌≡◌, Bool, true, ◌&&◌, not, some, none, List, [], ◌∷◌, All, rows_where, arith, refl, subst, ap,
}
use waza.Prelude.Table.{select, store, All-select, All-select_test}
use waza.Prelude.First.{IsTotal, select_first}
use waza.Prelude.Rows.{In, RowIs, All-In, select_none, RowIs-store_new}
use waza.Work.{Work, Settings, is_claimable, claims_before, take_claim, write_claim, claim_next}

claims_before-IsTotal : IsTotal claims_before
unfolding claims_before
claims_before-IsTotal = record {
  total = λ a b h. ground arith;
  reflexive = λ a. ground arith;
  transitive = λ a b c h k. ground arith;
}

-- The claim was written: `w` is `old` as claimed, and `old` is a row of the query.
pub record Claimed (s : Settings) (now worker : ℕ) (rows found : List Work) (w : Work)
    (rows' : List Work) : Type 0 where
  pub old : Work
  pub rest : List Work
  pub first : found ≡ old ∷ rest
  pub written : w ≡ take_claim s now worker old
  pub table : rows' ≡ store (λ x. x.id) w rows

pub write_claim-Claimed :
    (s : Settings) (now worker : ℕ) (rows found : List Work) (w : Work) (rows' : List Work)
    → write_claim s now worker rows found ≡ (some w, rows')
    → Claimed s now worker rows found w rows'
write_claim-Claimed s now worker rows [] w rows' h = ground arith
write_claim-Claimed s now worker rows (x ∷ xs) w rows' h = record {
  old = x;
  rest = xs;
  first = refl;
  written = ground arith;
  table = ground arith;
}

write_claim_idle :
    (s : Settings) (now worker : ℕ) (rows found : List Work)
    → (write_claim s now worker rows found).0 ≡ none
    → found ≡ []
write_claim_idle s now worker rows [] h = refl
write_claim_idle s now worker rows (x ∷ xs) h = ground arith

-- The rows that `claim_next` may take.
abbrev pub available : (Work → Bool) → ℕ → Work → Bool
available locked now w = is_claimable now w && not (locked w)

abbrev pub found_by : (Work → Bool) → ℕ → List Work → List Work
found_by locked now rows = select (available locked now) claims_before 1 rows

module _ (s : Settings) (locked : Work → Bool) (now worker : ℕ) (rows : List Work) {w : Work}
    {rows' : List Work} (c : Claimed s now worker rows (found_by locked now rows) w rows') where
  Claimed-All : (P : Work → Type 0) → All P (found_by locked now rows) → P c.old
  Claimed-All P h = (subst (All P) c.first h).0

  pub Claimed-available : available locked now c.old ≡ true
  Claimed-available =
      Claimed-All (λ x. available locked now x ≡ true)
        (All-select_test (λ x. available locked now x ≡ true) (available locked now) claims_before 1
          rows (λ x t. t))

  pub Claimed-In : In c.old rows
  Claimed-In =
      Claimed-All (λ x. In x rows)
        (All-select (λ x. In x rows) (available locked now) claims_before 1 rows (All-In rows))

  pub Claimed-id : w.id ≡ c.old.id
  unfolding take_claim
  Claimed-id = ap (λ (x : Work). x.id) c.written

  pub Claimed-RowIs : RowIs (λ x. x.id) w.id w rows'
  Claimed-RowIs = rw c.table (RowIs-store_new (λ x. x.id) w rows)

module _ (s : Settings) (locked : Work → Bool) (now worker : ℕ) (rows : List Work) where
  -- A claimed work is the running version of a row that was queued, or whose retry was due, and that
  -- no one had locked; and every other such row stands behind it by priority, then by age.
  claim_next_best :
      (w : Work) (rows' : List Work)
      → claim_next s locked now worker rows ≡ (some w, rows')
      → (old : Work) × In old rows
        × (available locked now old ≡ true)
        × (w ≡ take_claim s now worker old)
        × All (λ y. claims_before old y ≡ true) (rows_where (available locked now) rows)
  unfolding claim_next
  claim_next_best w rows' h =
      let c = write_claim-Claimed s now worker rows (found_by locked now rows) w rows' h in
      (
        c.old,
        Claimed-In s locked now worker rows c,
        Claimed-available s locked now worker rows c,
        c.written,
        select_first claims_before claims_before-IsTotal (available locked now) rows c.old c.rest
            c.first,
      )

  -- A claim that finds no work finds none because no row of the table is available: queued or due for
  -- a retry, and not locked.
  claim_next_idle :
      (claim_next s locked now worker rows).0 ≡ none → rows_where (available locked now) rows ≡ []
  unfolding claim_next
  claim_next_idle h =
      select_none (available locked now) claims_before 1 rows (omega arith)
        (write_claim_idle s now worker rows (found_by locked now rows) h)
