-- ===== src/Work/Life.antt =====
-- The works under the transactions of wax/workers/main.py, in any order: a step relation. `worker_loop`
-- claims a work and runs its whole turn in one transaction, so the table keeps the row as it was until
-- the turn commits, and the transaction holds the row's lock. `_mark_work_terminal` undoes the
-- transaction, which gives the lock back, and updates the row afterwards.
use waza.Prelude.{
  ℕ, ◌+◌, min, ◌≡◌, ◌==◌, Bool, true, false, ◌||◌, not, Option, none, some, List, [], ◌∷◌,
  rows_where, is_some, if◌then◌else◌,
}
use waza.Prelude.Table.{store}
use waza.Prelude.Rows.{In}
use waza.Publishing.Requests.{change_at}
use waza.Turns.{terminal, finish, unknown_kind}
use waza.Work.{
  or_default, Work, queued, retrying, completed, failed, execution_failure, Settings, claim_next,
  renew_lease,
}
use waza.Coalescing.{waits}
use waza.Work.Turn.{Failure, Key, fail_turn, complete_turn}
use waza.Work.Recovery.{
  is_running, is_message, recover_orphans, reclaim_stale_works, resuscitate_rate_limited_works,
}

-- What `_mark_work_terminal` is about to write for a turn that raised: a retry at `next`, or the end.
pub record Mark : Type 0 where
  pub id : ℕ
  pub now : ℕ
  pub next : Option ℕ

abbrev pub apply_mark : Mark → Work → Work
apply_mark m w =
    terminal m.now (if is_some m.next then retrying else failed) execution_failure m.next w

pub record State : Type 0 where
  -- the rows as they are committed
  pub works : List Work
  -- the rows that open transactions have claimed or taken along, and hold locked
  pub turns : List Work
  pub marks : List Mark
  -- the idempotency keys of the deliveries
  pub outbox : List Key

abbrev pub holds : ℕ → List Work → Bool
holds id [] = false
holds id (w ∷ ws) = w.id == id || holds id ws

-- A row that another transaction has locked.
abbrev pub locked : State → Work → Bool
locked st w = holds w.id st.turns

abbrev pub close : ℕ → List Work → List Work
close id ws = rows_where (λ w. not (w.id == id)) ws

abbrev pub opened : Option Work → List Work → List Work
opened none ws = ws
opened (some w) ws = w ∷ ws

-- The transaction of a turn commits its row and the deliveries that it queued.
abbrev pub commit : Work × List Key → State → State
commit r st = record st {
  works = store (λ x. x.id) r.0 st.works;
  turns = close r.0.id st.turns;
  outbox = r.1;
}

pub data Picks (m : Mark) : List Mark → List Mark → Type 0 where
  first : (ms : List Mark) → Picks m (m ∷ ms) ms
  later : (k : Mark) {ms ms' : List Mark} → Picks m ms ms' → Picks m (k ∷ ms) (k ∷ ms')

abbrev pub lower_priority : Work → Work
lower_priority w = record w { priority = min (or_default w.priority 100 + 50) 200 }

pub data Step (s : Settings) : State → State → Type 0 where
  enqueue :
      (w : Work) (st : State)
      → w.status ≡ queued
      → holds w.id st.works ≡ false
      → Step s st (record st { works = w ∷ st.works })
  claim :
      (now worker : ℕ) (st : State)
      → Step s st
          (record st { turns = opened (claim_next s (locked st) now worker st.works).0 st.turns })
  -- a message turn takes a related work that waits, and no one has locked, along with its own
  fold :
      (now : ℕ) (w : Work) (st : State)
      → In w st.works
      → is_message w.kind ≡ true
      → waits w.status ≡ true
      → locked st w ≡ false
      → Step s st (record st { turns = finish now w ∷ st.turns })
  commit_folded :
      (w : Work) (st : State)
      → In w st.turns
      → w.status ≡ completed
      → Step s st (commit (w, st.outbox) st)
  -- the rate protection asks for it
  defer :
      (w : Work) (st : State)
      → In w st.turns
      → is_message w.kind ≡ true
      → is_running w.status ≡ true
      → Step s st (record st { turns = store (λ x. x.id) (lower_priority w) st.turns })
  renew :
      (now worker : ℕ) (w : Work) (st : State)
      → In w st.turns
      → Step s st (record st { turns = store (λ x. x.id) (renew_lease s now worker w) st.turns })
  answer :
      (now : ℕ) (replied : Bool) (w : Work) (st : State)
      → In w st.turns
      → is_message w.kind ≡ true
      → is_running w.status ≡ true
      → Step s st (commit (complete_turn now replied w st.outbox) st)
  fail :
      (now : ℕ) (f : Failure) (w : Work) (st : State)
      → In w st.turns
      → is_message w.kind ≡ true
      → is_running w.status ≡ true
      → Step s st (commit (fail_turn s now f w st.outbox) st)
  -- a surface turn or a scheduled turn that is answered
  answer_other :
      (now : ℕ) (w : Work) (st : State)
      → In w st.turns
      → is_message w.kind ≡ false
      → is_running w.status ≡ true
      → Step s st (commit (finish now w, st.outbox) st)
  refuse_unknown :
      (w : Work) (st : State)
      → In w st.turns
      → is_message w.kind ≡ false
      → is_running w.status ≡ true
      → Step s st (commit (unknown_kind w, st.outbox) st)
  -- a surface turn or a scheduled turn that raises: first the rollback, then the update
  undo :
      (now : ℕ) (next : Option ℕ) (w : Work) (st : State)
      → In w st.turns
      → is_message w.kind ≡ false
      → is_running w.status ≡ true
      → Step s st (record st {
        turns = close w.id st.turns;
        marks = record { id = w.id; now = now; next = next } ∷ st.marks;
      })
  -- the update waits for the lock of the row
  mark :
      (m : Mark) {rest : List Mark} (st : State)
      → Picks m st.marks rest
      → holds m.id st.turns ≡ false
      → Step s st
          (record st { works = change_at (λ x. x.id) m.id (apply_mark m) st.works; marks = rest })
  -- a transaction that ends by an exception
  crash :
      (w : Work) (st : State)
      → In w st.turns
      → Step s st (record st { turns = close w.id st.turns })
  sweep_orphans :
      (now : ℕ) (st : State) → Step s st (record st { works = recover_orphans s now st.works })
  sweep_stale :
      (now limit : ℕ) (st : State)
      → Step s st (record st { works = (reclaim_stale_works s (locked st) now limit st.works).0 })
  sweep_failed :
      (answered : Work → Bool) (now limit : ℕ) (st : State)
      → Step s st (record st {
        works = resuscitate_rate_limited_works s answered (locked st) now limit st.works;
      })

pub data Steps (s : Settings) (st : State) : State → Type 0 where
  here : Steps s st st
  next : {mid end : State} → Steps s st mid → Step s mid end → Steps s st end
