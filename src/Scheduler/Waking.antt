-- ===== src/Scheduler/Waking.antt =====
-- Turning due actions into works: one work per wake-up, and none that is missing.
use waza.Prelude.{
  ℕ, ◌≡◌, refl, Bool, true, false, Option, none, some, List, [], ◌∷◌, ==_refl, if◌then◌else◌,
  is_some, All, All-imp, arith,
}
use waza.Prelude.Table.{find, All-store}
use waza.Scheduler.{Action, is_executing, mark_executing, due_actions}
use waza.Scheduler.Wake.{
  WakeWork, Tables, existing_work, new_work, create_work_for_action, wake_one, wake_each, wake_due,
}

find-cons_some :
    (k : ℕ) (w : WakeWork) (works : List WakeWork)
    → is_some (find (λ x. x.id) k works) ≡ true
    → is_some (find (λ x. x.id) k (w ∷ works)) ≡ true
unfolding find
find-cons_some k w works h = ground arith

create_work_fresh :
    (id now : ℕ) (a : Action) (works : List WakeWork)
    → existing_work a works ≡ none
    → create_work_for_action id now a works
      ≡ (new_work id now a, record a { work_id = some id }, new_work id now a ∷ works)
unfolding create_work_for_action
create_work_fresh id now a works e = rw (create_work_for_action, e) refl

create_work_reused :
    (id now : ℕ) (a : Action) (works : List WakeWork) (w : WakeWork)
    → existing_work a works ≡ some w
    → create_work_for_action id now a works ≡ (w, a, works)
unfolding create_work_for_action
create_work_reused id now a works w e = rw (create_work_for_action, e) refl

existing_work-new :
    (id : ℕ) (a : Action) (w : WakeWork) (works : List WakeWork)
    → w.id ≡ id
    → existing_work (record a { work_id = some id }) (w ∷ works) ≡ some w
unfolding existing_work find
existing_work-new id a w works e = rw (e, ==_refl id) refl

create_work_again_of :
    (id id' now now' : ℕ) (a : Action) (works : List WakeWork) (o : Option WakeWork)
    → existing_work a works ≡ o
    → create_work_for_action id' now'
        (create_work_for_action id now a works).1
        (create_work_for_action id now a works).2
      ≡ create_work_for_action id now a works
create_work_again_of id id' now now' a works none e = rw (create_work_fresh id now a works e) (
    create_work_reused id' now' (record a { work_id = some id }) (new_work id now a ∷ works)
      (new_work id now a) (existing_work-new id a (new_work id now a) works refl))
create_work_again_of id id' now now' a works (some w) e =
    rw (create_work_reused id now a works w e) (create_work_reused id' now' a works w e)

-- Calling `create_work_for_action` again on the action it returned, at any time and with any fresh id,
-- gives the same work and adds nothing.
create_work_again :
    (id id' now now' : ℕ) (a : Action) (works : List WakeWork)
    → create_work_for_action id' now'
        (create_work_for_action id now a works).1
        (create_work_for_action id now a works).2
      ≡ create_work_for_action id now a works
create_work_again id id' now now' a works =
    create_work_again_of id id' now now' a works (existing_work a works) refl

-- An action that is executing has a work that exists.
abbrev pub has_work : List WakeWork → Action → Bool
has_work works a = if is_executing a.status then is_some (existing_work a works) else true

abbrev pub HasWork : List WakeWork → Action → Type 0
HasWork works a = has_work works a ≡ true

existing-cons :
    (w : WakeWork) (works : List WakeWork) (a : Action)
    → is_some (existing_work a works) ≡ true
    → is_some (existing_work a (w ∷ works)) ≡ true
unfolding existing_work
existing-cons w works a h = go a.work_id h
  where
    go :
        (k : Option ℕ)
        → is_some (elim k [ none ↦ none | some j ↦ find (λ x. x.id) j works ]) ≡ true
        → is_some (elim k [ none ↦ none | some j ↦ find (λ x. x.id) j (w ∷ works) ]) ≡ true
    go none g = g
    go (some j) g = find-cons_some j w works g

HasWork-cons :
    (w : WakeWork) (works : List WakeWork) (a : Action) → HasWork works a → HasWork (w ∷ works) a
HasWork-cons w works a h = go (is_executing a.status) h
  where
    go :
        (b : Bool)
        → (if b then is_some (existing_work a works) else true) ≡ true
        → (if b then is_some (existing_work a (w ∷ works)) else true) ≡ true
    go true g = existing-cons w works a g
    go false g = refl

HasWork-create :
    (id now : ℕ) (a : Action) (works : List WakeWork) (o : Option WakeWork)
    → existing_work a works ≡ o
    → HasWork (create_work_for_action id now a works).2 (create_work_for_action id now a works).1
HasWork-create id now a works none e =
    rw (create_work_fresh id now a works e, existing_work-new id a (new_work id now a) works refl)
      (either (is_executing a.status))
  where
    either : (b : Bool) → (if b then true else true) ≡ true
    either true = refl
    either false = refl
HasWork-create id now a works (some w) e =
    rw (create_work_reused id now a works w e, e) (either (is_executing a.status))
  where
    either : (b : Bool) → (if b then true else true) ≡ true
    either true = refl
    either false = refl

HasWork-grow :
    (id now : ℕ) (a : Action) (works : List WakeWork) (o : Option WakeWork) (rows : List Action)
    → existing_work a works ≡ o
    → All (HasWork works) rows
    → All (HasWork (create_work_for_action id now a works).2) rows
HasWork-grow id now a works none rows e h = rw (create_work_fresh id now a works e) (
    All-imp (HasWork works) (HasWork (new_work id now a ∷ works)) rows
      (λ x. HasWork-cons (new_work id now a) works x) h)
HasWork-grow id now a works (some w) rows e h = rw (create_work_reused id now a works w e) h

HasWork-wake_one :
    (fresh : ℕ → ℕ) (now : ℕ) (a : Action) (t : Tables)
    → All (HasWork t.works) t.actions
    → All (HasWork (wake_one fresh now a t).works) (wake_one fresh now a t).actions
unfolding wake_one
HasWork-wake_one fresh now a t h =
    let m = mark_executing a in
    All-store (HasWork (create_work_for_action (fresh a.id) now m t.works).2) (λ x. x.id)
      (create_work_for_action (fresh a.id) now m t.works).1 t.actions
      (HasWork-create (fresh a.id) now m t.works (existing_work m t.works) refl)
      (HasWork-grow (fresh a.id) now m t.works (existing_work m t.works) t.actions refl h)

HasWork-wake_each :
    (fresh : ℕ → ℕ) (now : ℕ) (sel : List Action) (t : Tables)
    → All (HasWork t.works) t.actions
    → All (HasWork (wake_each fresh now sel t).works) (wake_each fresh now sel t).actions
unfolding wake_each
HasWork-wake_each fresh now [] t h = h
HasWork-wake_each fresh now (a ∷ sel) t h =
    HasWork-wake_each fresh now sel (wake_one fresh now a t) (HasWork-wake_one fresh now a t h)

-- If each executing action has a work that exists, then this still holds after a round of waking.
pub wake_due-HasWork :
    (fresh : ℕ → ℕ) (locked : Action → Bool) (now limit : ℕ) (t : Tables)
    → All (HasWork t.works) t.actions
    → All
        (HasWork (wake_due fresh locked now limit t).works)
        (wake_due fresh locked now limit t).actions
unfolding wake_due
wake_due-HasWork fresh locked now limit t h =
    HasWork-wake_each fresh now (due_actions locked now limit t.actions) t h
