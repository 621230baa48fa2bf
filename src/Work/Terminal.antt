-- ===== src/Work/Terminal.antt =====
-- A completed work is final.
use waza.Prelude.{
  ℕ, ◌≡◌, ◌≢◌, Bool, true, false, ◌&&◌, not, Option, none, some, List, [], ◌∷◌, arith, refl, sym,
  ◌∙◌, ap, subst, and_true, All, map, ◌==◌, if◌then◌else◌, Bool-cases, inl, inr, ==_iff,
}
use waza.Prelude.Rows.{In, RowIs, RowIs-at, RowIs-store_ne}
use waza.Prelude.Sweep.{sweep_miss, RowIs-map}
use waza.Publishing.Requests.{change_at}
use waza.Turns.{terminal, finish, unknown_kind}
use waza.Work.{
  Work, WorkStatus, queued, running, claimed, retrying, completed, failed, ErrorClass,
  execution_failure, Settings, is_claimable, claim_next, renew_lease,
}
use waza.Coalescing.{waits}
use waza.Work.Turn.{Key, complete_turn, fail_turn, Failure, rate_limited, other}
use waza.Work.Recovery.{
  is_running, is_orphan, requeue_orphan, recover_orphans, reclaim, claimed_earlier,
  reclaim_stale_works, is_capacity_failure, updated_earlier, resuscitate,
  resuscitate_rate_limited_works,
}
use waza.Work.Claiming.{found_by, write_claim-Claimed, Claimed-available, Claimed-id, Claimed-In}
use waza.Work.Locks.{
  holds-In, holds-store, holds-store_each, holds-change_at, holds-close, All-Picks,
}
use waza.Work.Life.{
  State, Step, Steps, apply_mark, holds, locked, opened, commit, enqueue, claim, fold,
  commit_folded, defer, lower_priority, renew, answer, fail, answer_other, refuse_unknown, undo,
  mark, crash, sweep_orphans, sweep_stale, sweep_failed, here, next,
}

id-fail_turn :
    (s : Settings) (now : ℕ) (f : Failure) (w : Work) (o : List Key)
    → (fail_turn s now f w o).0.id ≡ w.id
unfolding fail_turn
id-fail_turn s now (rate_limited r) w o = ground arith
id-fail_turn s now (other c) w o = ground arith

id-complete_turn :
    (now : ℕ) (replied : Bool) (w : Work) (o : List Key)
    → (complete_turn now replied w o).0.id ≡ w.id
unfolding complete_turn
id-complete_turn now replied w o = refl

id-renew_lease : (s : Settings) (now worker : ℕ) (w : Work) → (renew_lease s now worker w).id ≡ w.id
unfolding renew_lease
id-renew_lease s now worker w = ground arith

id-terminal :
    (now : ℕ) (t : WorkStatus) (c : ErrorClass) (again : Option ℕ) (w : Work)
    → (terminal now t c again w).id ≡ w.id
unfolding terminal
id-terminal now queued c again w = refl
id-terminal now running c again w = refl
id-terminal now claimed c again w = refl
id-terminal now retrying c again w = refl
id-terminal now completed c again w = refl
id-terminal now failed c again w = refl

abbrev orphan_step : Settings → ℕ → Work → Work
orphan_step s now w = if is_orphan s now w then requeue_orphan now w else w

id-orphan_step : (s : Settings) (now : ℕ) (w : Work) → (orphan_step s now w).id ≡ w.id
id-orphan_step s now w = ground arith

id-reclaim : (s : Settings) (now : ℕ) (w : Work) → (reclaim s now w).id ≡ w.id
unfolding reclaim
id-reclaim s now w = ground arith

id-resuscitate :
    (s : Settings) (answered : Work → Bool) (now : ℕ) (w : Work)
    → (resuscitate s answered now w).id ≡ w.id
unfolding resuscitate
id-resuscitate s answered now w = ground arith

holds-map :
    (k : ℕ) (f : Work → Work) (ws : List Work)
    → ((x : Work) → (f x).id ≡ x.id)
    → holds k (map f ws) ≡ holds k ws
holds-map k f [] same = refl
holds-map k f (x ∷ xs) same = rw (same x, holds-map k f xs same) refl

RowIs-cons_ne :
    (j : ℕ) (d x : Work) (rows : List Work)
    → x.id ≢ j
    → RowIs (λ y. y.id) j d rows
    → RowIs (λ y. y.id) j d (x ∷ rows)
RowIs-cons_ne j d x rows n h = elim (Bool-cases (x.id == j)) [
  | inl t ↦ absurd (n ((==_iff x.id j).0 t))
  | inr t ↦ rw t h
]

RowIs-change_at_ne :
    (j k : ℕ) (d : Work) (f : Work → Work) (rows : List Work)
    → ((x : Work) → (f x).id ≡ x.id)
    → k ≢ j
    → RowIs (λ y. y.id) j d rows
    → RowIs (λ y. y.id) j d (change_at (λ y. y.id) k f rows)
unfolding change_at
RowIs-change_at_ne j k d f [] same n h = tt
RowIs-change_at_ne j k d f (x ∷ xs) same n h = elim (Bool-cases (x.id == k)) [
  | inl t ↦
      let e = (==_iff x.id k).0 t in
      elim (Bool-cases (x.id == j)) [
        | inl u ↦ absurd (n (sym e ∙ (==_iff x.id j).0 u))
        | inr u ↦ rw (t, same x, u) (RowIs-change_at_ne j k d f xs same n (rw u at h))
      ]
  | inr t ↦ elim (Bool-cases (x.id == j)) [
    | inl u ↦
        let (now, rest) = (rw u at h) in rw (t, u) (now, RowIs-change_at_ne j k d f xs same n rest)
    | inr u ↦ rw (t, u) (RowIs-change_at_ne j k d f xs same n (rw u at h))
  ]
]

-- `w` is the committed row of its id, and no open transaction and no outstanding update is about it.
pub record IsSettled (w : Work) (st : State) : Type 0 where
  pub row : RowIs (λ x. x.id) w.id w st.works
  pub there : holds w.id st.works ≡ true
  pub free : holds w.id st.turns ≡ false
  pub unmarked : All (λ m. m.id ≢ w.id) st.marks

module _ (s : Settings) (w : Work) (done : w.status ≡ completed) where
  not_claimable : (now : ℕ) → is_claimable now w ≡ false
  unfolding is_claimable
  not_claimable now = ground (arith, done)

  not_orphaned : (now : ℕ) → is_orphan s now w ≡ false
  unfolding is_orphan
  not_orphaned now = ground (arith, done)

  not_failed : is_capacity_failure w ≡ false
  unfolding is_capacity_failure
  not_failed = ground (arith, done)

  -- A row that an open transaction holds is another row.
  other_held : {st : State} (v : Work) → IsSettled w st → In v st.turns → v.id ≢ w.id
  other_held {st} v h m e =
      let held : holds w.id st.turns ≡ true =
        subst (λ k. holds k st.turns ≡ true) e (holds-In v st.turns m) in
      cc (held, h.free)

  opened_other :
      (now worker : ℕ) (st : State) (r : Option Work × List Work)
      → claim_next s (locked st) now worker st.works ≡ r
      → IsSettled w st
      → holds w.id (opened r.0 st.turns) ≡ false
  unfolding claim_next
  opened_other now worker st (none, rows) e h = h.free
  opened_other now worker st (some v, rows) e h =
      let c =
        write_claim-Claimed s now worker st.works (found_by (locked st) now st.works) v rows e in
      let ready =
        (and_true (is_claimable now c.old) _
          (Claimed-available s (locked st) now worker st.works c)).0 in
      let same = Claimed-id s (locked st) now worker st.works c in
      elim (Bool-cases (v.id == w.id)) [
        | inr t ↦ rw (t, h.free) refl
        | inl t ↦
            let key = sym same ∙ (==_iff v.id w.id).0 t in
            let here_ =
              RowIs-at (λ x. x.id) w c.old st.works h.row
                (Claimed-In s (locked st) now worker st.works c) key in
            let ready' = ap (λ (x : Work). is_claimable now x) here_ in
            absurd (cc (ready, ready', not_claimable now))
      ]

  commit-IsSettled :
      (v : Work) (o : List Key) (st : State)
      → v.id ≢ w.id
      → IsSettled w st
      → IsSettled w (commit (v, o) st)
  commit-IsSettled v o st n h = record {
    row = RowIs-store_ne (λ x. x.id) w.id w v st.works n h.row;
    there = holds-store w.id v st.works ∙ h.there;
    free = holds-close w.id v.id st.turns h.free;
    unmarked = h.unmarked;
  }

  orphans_row :
      (now : ℕ) (rows : List Work)
      → RowIs (λ x. x.id) w.id w rows
      → RowIs (λ x. x.id) w.id w (recover_orphans s now rows)
  unfolding recover_orphans
  orphans_row now rows h =
      let stepped : orphan_step s now w ≡ w = rw (not_orphaned now) refl in
      subst (λ v. RowIs (λ x. x.id) w.id v (map (orphan_step s now) rows)) stepped
        (RowIs-map (λ x. x.id) (orphan_step s now) (id-orphan_step s now) w rows h)

  orphans_there :
      (now : ℕ) (rows : List Work) → holds w.id (recover_orphans s now rows) ≡ holds w.id rows
  unfolding recover_orphans
  orphans_there now rows = holds-map w.id (orphan_step s now) rows (id-orphan_step s now)

  stale_there :
      (taken : Work → Bool) (now limit : ℕ) (rows : List Work)
      → holds w.id (reclaim_stale_works s taken now limit rows).0 ≡ holds w.id rows
  unfolding reclaim_stale_works
  stale_there taken now limit rows = holds-store_each w.id (reclaim s now) _ rows

  failed_there :
      (answered taken : Work → Bool) (now limit : ℕ) (rows : List Work)
      → holds w.id (resuscitate_rate_limited_works s answered taken now limit rows)
        ≡ holds w.id rows
  unfolding resuscitate_rate_limited_works
  failed_there answered taken now limit rows =
      holds-store_each w.id (resuscitate s answered now) _ rows

  Step-IsSettled : {a b : State} → Step s a b → IsSettled w a → IsSettled w b
  Step-IsSettled (enqueue v st q f) h = record {
    row =
        RowIs-cons_ne w.id w v st.works
          (λ e. let gone = ap (λ k. holds k st.works) e in cc (f, gone, h.there)) h.row;
    there = rw h.there (ground arith);
    free = h.free;
    unmarked = h.unmarked;
  }
  Step-IsSettled (claim now worker st) h = record {
    row = h.row;
    there = h.there;
    free = opened_other now worker st _ refl h;
    unmarked = h.unmarked;
  }
  Step-IsSettled (fold now v st m k q free) h = record {
    row = h.row;
    there = h.there;
    free = elim (Bool-cases (v.id == w.id)) [
      | inr t ↦ rw (t, h.free) refl
      | inl t ↦
          let here_ = RowIs-at (λ x. x.id) w v st.works h.row m ((==_iff v.id w.id).0 t) in
          let status : v.status ≡ completed = ap (λ (x : Work). x.status) here_ ∙ done in
          absurd (cc (q, ap waits status))
    ];
    unmarked = h.unmarked;
  }
  Step-IsSettled (commit_folded v st m d) h = commit-IsSettled v st.outbox st (other_held v h m) h
  Step-IsSettled (defer v st m k run) h = record {
    row = h.row;
    there = h.there;
    free = holds-store w.id (lower_priority v) st.turns ∙ h.free;
    unmarked = h.unmarked;
  }
  Step-IsSettled (renew now worker v st m) h = record {
    row = h.row;
    there = h.there;
    free = holds-store w.id (renew_lease s now worker v) st.turns ∙ h.free;
    unmarked = h.unmarked;
  }
  Step-IsSettled (answer now replied v st m k run) h =
      commit-IsSettled (complete_turn now replied v st.outbox).0 _ st
        (λ e. other_held v h m (sym (id-complete_turn now replied v st.outbox) ∙ e)) h
  Step-IsSettled (fail now f v st m k run) h =
      commit-IsSettled (fail_turn s now f v st.outbox).0 _ st
        (λ e. other_held v h m (sym (id-fail_turn s now f v st.outbox) ∙ e)) h
  Step-IsSettled (answer_other now v st m k run) h =
      commit-IsSettled (finish now v) st.outbox st (other_held v h m) h
  Step-IsSettled (refuse_unknown v st m k run) h =
      commit-IsSettled (unknown_kind v) st.outbox st (other_held v h m) h
  Step-IsSettled (undo now again v st m k run) h = record {
    row = h.row;
    there = h.there;
    free = holds-close w.id v.id st.turns h.free;
    unmarked = (other_held v h m, h.unmarked);
  }
  Step-IsSettled (mark m st p free) h =
      let (away, rest) = All-Picks (λ m. m.id ≢ w.id) m p h.unmarked in
      let same : (x : Work) → (apply_mark m x).id ≡ x.id =
        λ x. id-terminal m.now _ execution_failure m.next x in
      record {
        row = RowIs-change_at_ne w.id m.id w (apply_mark m) st.works same away h.row;
        there = holds-change_at w.id m.id (apply_mark m) st.works same ∙ h.there;
        free = h.free;
        unmarked = rest;
      }
  Step-IsSettled (crash v st m) h = record {
    row = h.row;
    there = h.there;
    free = holds-close w.id v.id st.turns h.free;
    unmarked = h.unmarked;
  }
  Step-IsSettled (sweep_orphans now st) h = record {
    row = orphans_row now st.works h.row;
    there = orphans_there now st.works ∙ h.there;
    free = h.free;
    unmarked = h.unmarked;
  }
  Step-IsSettled (sweep_stale now limit st) h = record {
    row =
        unfold reclaim_stale_works in
        sweep_miss (λ x. x.id) (reclaim s now) (id-reclaim s now)
          (λ x. is_running x.status && not (locked st x)) claimed_earlier limit st.works w h.row
          (ground (arith, done));
    there = stale_there (locked st) now limit st.works ∙ h.there;
    free = h.free;
    unmarked = h.unmarked;
  }
  Step-IsSettled (sweep_failed answered now limit st) h = record {
    row =
        unfold resuscitate_rate_limited_works in
        sweep_miss (λ x. x.id) (resuscitate s answered now) (id-resuscitate s answered now)
          (λ x. is_capacity_failure x && not (locked st x)) updated_earlier limit st.works w h.row
          (ground (arith, not_failed));
    there = failed_there answered (locked st) now limit st.works ∙ h.there;
    free = h.free;
    unmarked = h.unmarked;
  }

Steps-IsSettled :
    (s : Settings) (w : Work) {a b : State}
    → w.status ≡ completed
    → IsSettled w a
    → Steps s a b
    → IsSettled w b
Steps-IsSettled s w done h here = h
Steps-IsSettled s w done h (next r st) = Step-IsSettled s w done st (Steps-IsSettled s w done h r)

-- A completed work, the only one with its id, is final once no open transaction holds it and no update
-- after a rollback is outstanding for it: no new works, claims, works taken along by a turn, heartbeats, ends of turns of any kind,
-- rollbacks, updates after a rollback and recovery sweeps change anything in its row.
pub completed_final :
    (s : Settings) (w : Work) {a b : State}
    → w.status ≡ completed
    → IsSettled w a
    → Steps s a b
    → RowIs (λ x. x.id) w.id w b.works
completed_final s w done h r = (Steps-IsSettled s w done h r).row
