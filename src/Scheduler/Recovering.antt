-- ===== src/Scheduler/Recovering.antt =====
-- `recover_stuck_executing`: which actions it takes back, and which it leaves.
use waza.Prelude.{
  ℕ, ◌≤◌, ◌≡◌, ◌⊎◌, refl, ◌∙◌, subst, Bool, true, false, ◌&&◌, not, none, some, List, inl, inr,
  All-imp, length, rows_where, arith,
}
use waza.Prelude.Table.{select, store_each}
use waza.Prelude.Rows.{In, RowIs, with_key}
use waza.Prelude.Sweep.{sweep_row, sweep_hit}
use waza.Scheduler.{Action, pending}
use waza.Scheduler.Wake.{
  WakeWork, has_active_work, recover_stuck, is_stuck, stuck_order, recover_stuck_executing,
}

module _ (query_failed : Bool) (locked : Action → Bool) (older_than now limit : ℕ)
    (works : List WakeWork) (rows : List Action) (d : Action)
    (own : RowIs (λ a. a.id) d.id d rows) where
  id-recover_stuck : (a : Action) → (recover_stuck works now a).id ≡ a.id
  unfolding recover_stuck
  id-recover_stuck a = ground arith

  spares : has_active_work works d ≡ true → recover_stuck works now d ≡ d
  unfolding recover_stuck
  spares h = rw h refl

  -- An action, the only one with its id, whose work is still queued, running, claimed or retrying is
  -- left as it is by the recovery of stuck actions.
  recover_stuck_spares :
      has_active_work works d ≡ true
      → RowIs
          (λ a. a.id)
          d.id
          d
          (recover_stuck_executing query_failed locked older_than now limit works rows)
  unfolding recover_stuck_executing
  recover_stuck_spares h =
      All-imp
        (λ x.
          (x ≡ d)
          ⊎ (((is_stuck query_failed older_than now d && not (locked d)) ≡ true)
              × (x ≡ recover_stuck works now d)))
        (λ x. x ≡ d)
        (with_key (λ a. a.id) d.id
          (store_each (λ a. a.id) (recover_stuck works now)
            (select (λ a. is_stuck query_failed older_than now a && not (locked a))
              (stuck_order query_failed) limit rows)
            rows))
        (λ x c. elim c [ inl e ↦ e | inr e ↦ e.1 ∙ spares h ])
        (sweep_row (λ a. a.id) (recover_stuck works now) id-recover_stuck
          (λ a. is_stuck query_failed older_than now a && not (locked a)) (stuck_order query_failed)
          limit rows d own)

  back :
      has_active_work works d ≡ false
      → recover_stuck works now d
        ≡ record d { status = pending; work_id = none; recovered_at = some now }
  unfolding recover_stuck
  back h = rw h refl

  -- A stuck, unlocked action of the table, the only one with its id, that has no such work is pending
  -- again and has no work, if the limit covers all stuck actions.
  recover_stuck_returns :
      In d rows
      → has_active_work works d ≡ false
      → (is_stuck query_failed older_than now d && not (locked d)) ≡ true
      → length (rows_where (λ a. is_stuck query_failed older_than now a && not (locked a)) rows)
        ≤ limit
      → RowIs
          (λ a. a.id)
          d.id
          (record d { status = pending; work_id = none; recovered_at = some now })
          (recover_stuck_executing query_failed locked older_than now limit works rows)
  unfolding recover_stuck_executing
  recover_stuck_returns m h t fits =
      subst
        (λ x.
          RowIs (λ a. a.id) d.id x
            (recover_stuck_executing query_failed locked older_than now limit works rows))
        (back h)
        (sweep_hit (λ a. a.id) (recover_stuck works now) id-recover_stuck
          (λ a. is_stuck query_failed older_than now a && not (locked a)) (stuck_order query_failed)
          limit rows d own m t fits)
