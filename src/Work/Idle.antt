-- ===== src/Work/Idle.antt =====
-- The sweeps for orphans and for stale leases on a table in which no row is running.
use waza.Prelude.{
  ℕ, zero, suc, ◌≡◌, refl, Bool, false, ◌&&◌, not, List, [], ◌∷◌, All, rows_where, take,
}
use waza.Prelude.Table.{select, order_by, store_each}
use waza.Work.{Work, Settings}
use waza.Work.Recovery.{is_running, is_orphan, recover_orphans, reclaim_stale_works}

-- No row is running.
abbrev pub IsQuiet : List Work → Type 0
IsQuiet rows = All (λ w. is_running w.status ≡ false) rows

not_orphan :
    (s : Settings) (now : ℕ) (w : Work) → is_running w.status ≡ false → is_orphan s now w ≡ false
unfolding is_orphan
not_orphan s now w h = rw h refl

pub recover_orphans_quiet :
    (s : Settings) (now : ℕ) (rows : List Work) → IsQuiet rows → recover_orphans s now rows ≡ rows
unfolding recover_orphans
recover_orphans_quiet s now [] h = refl
recover_orphans_quiet s now (w ∷ ws) h =
    rw (not_orphan s now w h.0, recover_orphans_quiet s now ws h.1) refl

none_running :
    (free : Work → Bool) (rows : List Work)
    → IsQuiet rows
    → rows_where (λ w. is_running w.status && free w) rows ≡ []
none_running free [] h = refl
none_running free (w ∷ ws) h = rw (h.0, none_running free ws h.1) refl

abbrev no_works : List Work
no_works = []

take_nil : (n : ℕ) → take n (no_works) ≡ no_works
take_nil zero = refl
take_nil (suc n) = refl

pub reclaim_stale_works_quiet :
    (s : Settings) (locked : Work → Bool) (now limit : ℕ) (rows : List Work)
    → IsQuiet rows
    → reclaim_stale_works s locked now limit rows ≡ (rows, 0)
unfolding reclaim_stale_works select order_by store_each
reclaim_stale_works_quiet s locked now limit rows h =
    rw (none_running (λ w. not (locked w)) rows h, take_nil limit) refl
