-- ===== src/Turns/Failing.antt =====
-- What is left of a surface turn that failed, in wax/workers/main.py.
use waza.Prelude.{
  ℕ, ◌+◌, ◌≡◌, refl, ltb, Option, none, some, List, [], ◌∷◌, map, not, rows_where, ◌==◌, Bool-cases,
  inl, inr,
}
use waza.Prelude.Text.{Text}
use waza.Work.{
  Work, WorkStatus, queued, running, claimed, retrying, completed, failed, ErrorClass,
  execution_failure, Settings,
}
use waza.Work.Turn.{retry_delay}
use waza.Publishing.{State}
use waza.Publishing.Requests.{AiStatus, change_at}
use waza.Turns.{Store, raised, terminal, mark_work_terminal, fail_or_retry, process_surface_ai}

terminal-attempt :
    (now : ℕ) (s : WorkStatus) (c : ErrorClass) (next : Option ℕ) (w : Work)
    → (terminal now s c next w).attempt ≡ w.attempt
unfolding terminal
terminal-attempt now queued c next w = refl
terminal-attempt now running c next w = refl
terminal-attempt now claimed c next w = refl
terminal-attempt now retrying c next w = refl
terminal-attempt now completed c next w = refl
terminal-attempt now failed c next w = refl

attempts-change_at :
    (id now : ℕ) (s : WorkStatus) (c : ErrorClass) (next : Option ℕ) (works : List Work)
    → map (λ w. w.attempt) (change_at (λ w. w.id) id (terminal now s c next) works)
      ≡ map (λ w. w.attempt) works
unfolding change_at
attempts-change_at id now s c next [] = refl
attempts-change_at id now s c next (w ∷ ws) = elim (Bool-cases (w.id == id)) [
  | inl t ↦ rw (t, terminal-attempt now s c next w, attempts-change_at id now s c next ws) refl
  | inr t ↦ rw (t, attempts-change_at id now s c next ws) refl
]

-- The rows of the other works.
abbrev pub others : ℕ → List Work → List Work
others id works = rows_where (λ w. not (w.id == id)) works

id-terminal :
    (now : ℕ) (s : WorkStatus) (c : ErrorClass) (next : Option ℕ) (w : Work)
    → (terminal now s c next w).id ≡ w.id
unfolding terminal
id-terminal now queued c next w = refl
id-terminal now running c next w = refl
id-terminal now claimed c next w = refl
id-terminal now retrying c next w = refl
id-terminal now completed c next w = refl
id-terminal now failed c next w = refl

others-change_at :
    (id now : ℕ) (s : WorkStatus) (c : ErrorClass) (next : Option ℕ) (works : List Work)
    → others id (change_at (λ w. w.id) id (terminal now s c next) works) ≡ others id works
unfolding change_at
others-change_at id now s c next [] = refl
others-change_at id now s c next (w ∷ ws) = elim (Bool-cases (w.id == id)) [
  | inl t ↦ rw (t, id-terminal now s c next w, t, others-change_at id now s c next ws) refl
  | inr t ↦ rw (t, t, others-change_at id now s c next ws) refl
]

module _ {V : Type 0} where
  -- The stores differ at most in the row of the work `id`, and there not in the attempts.
  abbrev pub Untold : ℕ → Store V → Store V → Type 0
  Untold id start db =
      (db ≡ record start { works = db.works })
      × (others id db.works ≡ others id start.works)
      × (map (λ w. w.attempt) db.works ≡ map (λ w. w.attempt) start.works)

  mark-Untold :
      (now id : ℕ) (s : WorkStatus) (c : ErrorClass) (next : Option ℕ) (start flushed : Store V)
      → Untold id start (mark_work_terminal now id s c next start flushed)
  unfolding mark_work_terminal
  mark-Untold now id s c next start flushed = (
    refl,
    others-change_at id now s c next start.works,
    attempts-change_at id now s c next start.works,
  )

  fail-Untold :
      (now attempt : ℕ) (w : Work) (start flushed : Store V)
      → Untold w.id start (fail_or_retry now w attempt start flushed)
  fail-Untold now attempt w start flushed = elim (Bool-cases (ltb attempt w.max_attempts)) [
    | inl t ↦ rw t (
        mark-Untold now w.id retrying execution_failure (some (now + retry_delay attempt)) start
          flushed)
    | inr t ↦ rw t (mark-Untold now w.id failed execution_failure none start flushed)
  ]

-- A surface turn that raises leaves no trace but in its work's row: the request that it should have
-- marked as failed, all tables of the surfaces, the scheduled actions, the queued replies and the rows
-- of all other works are as they were before the claim, and so is the number of attempts of every work,
-- the one of this turn not counted.
pub process_surface_ai-Untold :
    {V : Type 0} (state_bytes : State V → ℕ) (reply_value : AiStatus → Text → ℕ → V) (s : Settings)
    (now : ℕ) (w : Work) (request_id reread : Option ℕ) (e : Text) (start flushed : Store V)
    → Untold w.id start (
        process_surface_ai state_bytes reply_value s now w request_id reread
          (raised e)
          start
          flushed)
unfolding process_surface_ai
process_surface_ai-Untold state_bytes reply_value s now w none reread e start flushed =
    fail-Untold now w.attempt w start flushed
process_surface_ai-Untold state_bytes reply_value s now w (some r) none e start flushed =
    (refl, refl, refl)
process_surface_ai-Untold state_bytes reply_value s now w (some r) (some n) e start flushed =
    fail-Untold now n w start start
