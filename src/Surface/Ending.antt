-- ===== src/Surface/Ending.antt =====
-- What follows for a surface: its changes are those of the table, and an ended surface stays ended.
use waza.Prelude.{
  ℕ, ◌≡◌, ◌↔◌, sym, subst, Bool, true, false, none, some, leb, List, All, All-imp, not, is_some,
  arith,
}
use waza.Prelude.Table.{find}
use waza.Prelude.Rows.{RowIs, with_key, All-if_key, All-with_key}
use waza.Surface.{
  SurfaceStatus, creating, cleanup_pending, can_transition, Surface, is_open, resolve_row,
  resolve_by_token,
}
use waza.Surface.Lifecycle.{Operation, perform_all, makes, perform_all-Keeps}

-- From one status to another by any number of transitions of the table.
pub data Reaches (a : SurfaceStatus) : SurfaceStatus → Type 0 where
  stays : Reaches a a
  moves : {b c : SurfaceStatus} → Reaches a b → can_transition b c ≡ true → Reaches a c

makes-can_transition : (a b : SurfaceStatus) → makes a b ≡ true → can_transition a b ≡ true
unfolding can_transition
makes-can_transition a b h = ground arith

-- The status of surface `j` has the property, for every row with its id.
row_keeps :
    (Q : SurfaceStatus → Type 0) (closed : (a b : SurfaceStatus) → makes a b ≡ true → Q a → Q b)
    (os : List Operation) (rows : List Surface) (d : Surface)
    → RowIs (λ x. x.id) d.id d rows
    → Q d.status
    → All (λ x. Q x.status) (with_key (λ x. x.id) d.id (perform_all os rows))
row_keeps Q closed os rows d own q =
    All-with_key (λ x. x.id) d.id (λ x. Q x.status) (perform_all os rows)
      (perform_all-Keeps d.id Q closed os rows (
        All-imp (λ x. x.id ≡ d.id → x ≡ d) (λ x. x.id ≡ d.id → Q x.status) rows
          (λ x t e. subst (λ (y : Surface). Q y.status) (sym (t e)) q)
          (All-if_key (λ x. x.id) d.id (λ x. x ≡ d) rows own)))

-- Whatever operations are performed one after another, each on the rows that the one before left, by
-- anybody and in any order, the status of a surface, the only one with its id, is one that the
-- lifecycle table reaches from the status that it had.
pub lifecycle_follows_table :
    (os : List Operation) (rows : List Surface) (d : Surface)
    → RowIs (λ x. x.id) d.id d rows
    → All (λ x. Reaches d.status x.status) (with_key (λ x. x.id) d.id (perform_all os rows))
lifecycle_follows_table os rows d own =
    row_keeps (Reaches d.status) (λ a b m r. moves r (makes-can_transition a b m)) os rows d own
      stays

-- Not open, and not about to be.
abbrev pub is_over : SurfaceStatus → Bool
is_over creating = false
is_over s = not (is_open s)

over_closed : (a b : SurfaceStatus) → makes a b ≡ true → is_over a ≡ true → is_over b ≡ true
over_closed a b m h = ground arith

-- A surface that is neither open nor being created (it has expired, failed, been revoked, or is being
-- or has been cleaned), the only one with its id, is never open again, whatever operations are
-- performed one after another, each on the rows that the one before left.
pub ended_stays_ended :
    (os : List Operation) (rows : List Surface) (d : Surface)
    → RowIs (λ x. x.id) d.id d rows
    → is_over d.status ≡ true
    → All (λ x. is_open x.status ≡ false) (with_key (λ x. x.id) d.id (perform_all os rows))
ended_stays_ended os rows d own h =
    All-imp (λ x. is_over x.status ≡ true) (λ x. is_open x.status ≡ false)
      (with_key (λ x. x.id) d.id (perform_all os rows)) (λ x t. over_shut x.status t)
      (row_keeps (λ s. is_over s ≡ true) over_closed os rows d own h)
  where
    over_shut : (s : SurfaceStatus) → is_over s ≡ true → is_open s ≡ false
    over_shut s t = ground arith

pending_closed :
    (a b : SurfaceStatus) → makes a b ≡ true → a ≡ cleanup_pending → b ≡ cleanup_pending
pending_closed a b m h = ground arith

-- A surface in `cleanup_pending`, the only one with its id, is never taken out of this status by any
-- operations performed one after another, each on the rows that the one before left, so the deletion of its files is not tried again.
pub cleanup_pending_is_stuck :
    (os : List Operation) (rows : List Surface) (d : Surface)
    → RowIs (λ x. x.id) d.id d rows
    → d.status ≡ cleanup_pending
    → All (λ x. x.status ≡ cleanup_pending) (with_key (λ x. x.id) d.id (perform_all os rows))
cleanup_pending_is_stuck os rows d own h =
    row_keeps (λ s. s ≡ cleanup_pending) pending_closed os rows d own h

resolve_row-none :
    (now : ℕ) (x : Surface)
    → ((resolve_row now x).1 ≡ none) ↔ (
        (is_open x.status ≡ true) × (is_some x.revoked_at ≡ false) × (leb x.expires_at now ≡ false))
unfolding resolve_row
resolve_row-none now x = ground arith

-- A token that names a surface is served exactly if the surface is open, was never revoked, and has not
-- reached its expiry.
resolve_serves_iff :
    (hash now : ℕ) (rows : List Surface) (x : Surface)
    → find (λ y. y.token_hash) hash rows ≡ some x
    → ((resolve_by_token hash now rows).1 ≡ none) ↔ (
        (is_open x.status ≡ true) × (is_some x.revoked_at ≡ false) × (leb x.expires_at now ≡ false))
unfolding resolve_by_token
resolve_serves_iff hash now rows x h = rw h (resolve_row-none now x)
