-- ===== src/Work/Invariant.antt =====
-- What holds of the committed works, the open transactions and the outbox between two steps.
use waza.Prelude.{
  ℕ, ◌≡◌, refl, sym, ap, ◌∙◌, subst, Bool, true, false, ◌&&◌, not, Option, none, some, List, [],
  ◌∷◌, is_some, arith, Bool-cases, inl, inr,
}
use waza.Prelude.Table.{All-store, store}
use waza.Prelude.Rows.{All-sweep}
use waza.Work.{Work, Settings, claim_next, renew_lease}
use waza.Turns.{terminal, finish, unknown_kind}
use waza.Work.Life.{
  State, Step, Steps, Mark, apply_mark, holds, locked, opened, enqueue, claim, fold, commit_folded,
  defer, lower_priority, renew, answer, fail, answer_other, refuse_unknown, undo, mark, crash,
  sweep_orphans, sweep_stale, sweep_failed, here, next,
}
use waza.Work.Locks.{Apart, Apart-close, Apart-store, All-change_at}
use waza.Work.Idle.{IsQuiet, recover_orphans_quiet, reclaim_stale_works_quiet}
use waza.Work.Claiming.{found_by, write_claim-Claimed, Claimed-available, Claimed-id}
use waza.Work.Failures.{status-fail_turn, is_exhausted}
use waza.Work.Turn.{
  Failure, Key, tutor_reply, rate_ack, safe_err, has_key, queue_once, fail_turn, complete_turn,
  rate_limited, other,
}
use waza.Work.Recovery.{
  is_running, is_capacity_failure, updated_earlier, resuscitate, resuscitate_rate_limited_works,
  recover_orphans, reclaim_stale_works,
}

not_locked : (b c : Bool) → (b && not c) ≡ true → c ≡ false
not_locked b c h = ground arith

-- The claimed row has an id that no open transaction holds.
Apart-claim :
    (s : Settings) (now worker : ℕ) (st : State) (r : Option Work × List Work)
    → claim_next s (locked st) now worker st.works ≡ r
    → Apart st.turns
    → Apart (opened r.0 st.turns)
unfolding claim_next
Apart-claim s now worker st (none, rows) e h = h
Apart-claim s now worker st (some w, rows) e h =
    let c =
      write_claim-Claimed s now worker st.works (found_by (locked st) now st.works) w rows e in
    let free = Claimed-available s (locked st) now worker st.works c in
    let same = Claimed-id s (locked st) now worker st.works c in
    (ap (λ k. holds k st.turns) same ∙ not_locked _ (holds c.old.id st.turns) free, h)

Step-Apart : {s : Settings} {a b : State} → Step s a b → Apart a.turns → Apart b.turns
Step-Apart (enqueue w st q f) h = h
Step-Apart {s} (claim now worker st) h = Apart-claim s now worker st _ refl h
Step-Apart (fold now w st m k q free) h = (free, h)
Step-Apart (commit_folded w st m d) h = Apart-close w.id st.turns h
Step-Apart (defer w st m k run) h = Apart-store (lower_priority w) st.turns h
Step-Apart {s} (renew now worker w st m) h = Apart-store (renew_lease s now worker w) st.turns h
Step-Apart {s} (answer now replied w st m k run) h = Apart-close _ st.turns h
Step-Apart {s} (fail now f w st m k run) h = Apart-close _ st.turns h
Step-Apart (answer_other now w st m k run) h = Apart-close w.id st.turns h
Step-Apart (refuse_unknown w st m k run) h = Apart-close w.id st.turns h
Step-Apart (undo now again w st m k run) h = Apart-close w.id st.turns h
Step-Apart (mark m st p free) h = h
Step-Apart (crash w st m) h = Apart-close w.id st.turns h
Step-Apart (sweep_orphans now st) h = h
Step-Apart (sweep_stale now limit st) h = h
Step-Apart (sweep_failed answered now limit st) h = h

-- No two open transactions ever hold the same work: from any state in which none do, claims, turns,
-- rollbacks, updates after a rollback and recovery sweeps, in any order, lead to no state in which two
-- do.
pub turns_exclusive : {s : Settings} {a b : State} → Apart a.turns → Steps s a b → Apart b.turns
turns_exclusive h here = h
turns_exclusive h (next r st) = Step-Apart st (turns_exclusive h r)

-- No key stands twice in the outbox.
abbrev pub NoRepeat : List Key → Type 0
NoRepeat [] = Unit
NoRepeat (k ∷ ks) = (has_key k ks ≡ false) × NoRepeat ks

queue_once-NoRepeat : (k : Key) (w : Work) (o : List Key) → NoRepeat o → NoRepeat (queue_once k w o)
unfolding queue_once
queue_once-NoRepeat k w o h = ground arith

complete_turn-NoRepeat :
    (now : ℕ) (replied : Bool) (w : Work) (o : List Key)
    → NoRepeat o
    → NoRepeat (complete_turn now replied w o).1
unfolding complete_turn
complete_turn-NoRepeat now replied w o h =
    ground (arith, queue_once-NoRepeat (tutor_reply w.id) w o)

fail_turn-NoRepeat :
    (s : Settings) (now : ℕ) (f : Failure) (w : Work) (o : List Key)
    → NoRepeat o
    → NoRepeat (fail_turn s now f w o).1
unfolding fail_turn
fail_turn-NoRepeat s now (rate_limited r) w o h =
    ground (arith, queue_once-NoRepeat (rate_ack w.id) w o)
fail_turn-NoRepeat s now (other c) w o h = ground (arith, queue_once-NoRepeat (safe_err w.id) w o)

complete_turn_rests :
    (now : ℕ) (replied : Bool) (w : Work) (o : List Key)
    → is_running (complete_turn now replied w o).0.status ≡ false
unfolding complete_turn
complete_turn_rests now replied w o = refl

fail_turn_rests :
    (s : Settings) (now : ℕ) (f : Failure) (w : Work) (o : List Key)
    → is_running (fail_turn s now f w o).0.status ≡ false
fail_turn_rests s now f w o =
    rw (status-fail_turn s now f w o)
      (elim (Bool-cases (is_exhausted s f w)) [ inl t ↦ rw t refl | inr t ↦ rw t refl ])

apply_mark_rests : (m : Mark) (w : Work) → is_running (apply_mark m w).status ≡ false
unfolding terminal
apply_mark_rests m w = elim (Bool-cases (is_some m.next)) [ inl t ↦ rw t refl | inr t ↦ rw t refl ]

resuscitate_rests :
    (s : Settings) (answered : Work → Bool) (now : ℕ) (w : Work)
    → is_running w.status ≡ false
    → is_running (resuscitate s answered now w).status ≡ false
unfolding resuscitate
resuscitate_rests s answered now w h = ground arith

pub record IsConsistent (st : State) : Type 0 where
  pub quiet : IsQuiet st.works
  pub once : NoRepeat st.outbox

stored-IsQuiet :
    (w : Work) (rows : List Work)
    → is_running w.status ≡ false
    → IsQuiet rows
    → IsQuiet (store (λ x. x.id) w rows)
stored-IsQuiet w rows r h = All-store (λ x. is_running x.status ≡ false) (λ x. x.id) w rows r h

Step-IsConsistent : {s : Settings} {a b : State} → Step s a b → IsConsistent a → IsConsistent b
unfolding resuscitate_rate_limited_works
Step-IsConsistent (enqueue w st q f) c = record {
  quiet = (ap is_running q, c.quiet);
  once = c.once;
}
Step-IsConsistent (claim now worker st) c = record { quiet = c.quiet; once = c.once }
Step-IsConsistent (fold now w st m k q free) c = record { quiet = c.quiet; once = c.once }
Step-IsConsistent (commit_folded w st m d) c = record {
  quiet = stored-IsQuiet w st.works (ap is_running d) c.quiet;
  once = c.once;
}
Step-IsConsistent (defer w st m k run) c = record { quiet = c.quiet; once = c.once }
Step-IsConsistent (renew now worker w st m) c = record { quiet = c.quiet; once = c.once }
Step-IsConsistent {s} (answer now replied w st m k run) c = record {
  quiet = stored-IsQuiet _ st.works (complete_turn_rests now replied w st.outbox) c.quiet;
  once = complete_turn-NoRepeat now replied w st.outbox c.once;
}
Step-IsConsistent {s} (fail now f w st m k run) c = record {
  quiet = stored-IsQuiet _ st.works (fail_turn_rests s now f w st.outbox) c.quiet;
  once = fail_turn-NoRepeat s now f w st.outbox c.once;
}
Step-IsConsistent (answer_other now w st m k run) c = record {
  quiet = stored-IsQuiet (finish now w) st.works refl c.quiet;
  once = c.once;
}
Step-IsConsistent (refuse_unknown w st m k run) c = record {
  quiet = stored-IsQuiet (unknown_kind w) st.works refl c.quiet;
  once = c.once;
}
Step-IsConsistent (undo now again w st m k run) c = record { quiet = c.quiet; once = c.once }
Step-IsConsistent (mark m st p free) c = record {
  quiet =
      All-change_at (λ x. is_running x.status ≡ false) m.id (apply_mark m) st.works
        (λ x _. apply_mark_rests m x) c.quiet;
  once = c.once;
}
Step-IsConsistent (crash w st m) c = record { quiet = c.quiet; once = c.once }
Step-IsConsistent {s} (sweep_orphans now st) c = record {
  quiet = subst IsQuiet (sym (recover_orphans_quiet s now st.works c.quiet)) c.quiet;
  once = c.once;
}
Step-IsConsistent {s} (sweep_stale now limit st) c = record {
  quiet =
      subst (λ r. IsQuiet r.0)
        (sym (reclaim_stale_works_quiet s (locked st) now limit st.works c.quiet)) c.quiet;
  once = c.once;
}
Step-IsConsistent {s} (sweep_failed answered now limit st) c = record {
  quiet =
      All-sweep (λ x. is_running x.status ≡ false) (λ x. x.id) (resuscitate s answered now)
        (λ x. is_capacity_failure x && not (locked st x)) updated_earlier limit st.works
        (λ x t h. resuscitate_rests s answered now x h) c.quiet;
  once = c.once;
}

pub Steps-IsConsistent :
    {s : Settings} {a b : State} → IsConsistent a → Steps s a b → IsConsistent b
Steps-IsConsistent c here = c
Steps-IsConsistent c (next r st) = Step-IsConsistent st (Steps-IsConsistent c r)

-- From such a state on, whatever the workers do and at whatever times, the sweeps for orphans and for
-- stale leases find nothing to recover and change nothing.
pub recovery_finds_nothing :
    {s : Settings} {a b : State} (now limit : ℕ) (free : Work → Bool)
    → IsConsistent a
    → Steps s a b
    → (recover_orphans s now b.works ≡ b.works)
      × (reclaim_stale_works s free now limit b.works ≡ (b.works, 0))
recovery_finds_nothing {s} {a} {b} now limit free c r =
    let quiet = (Steps-IsConsistent c r).quiet in
    (
      recover_orphans_quiet s now b.works quiet,
      reclaim_stale_works_quiet s free now limit b.works quiet,
    )
