-- ===== src/Surface.antt =====
-- The lifecycle of published surfaces: wax/surfaces/policy.py and the operations of `SurfaceService` in
-- wax/surfaces/service.py that move a surface through it. Times are whole microseconds.
pub mod Lifecycle
pub mod Ending
mod Examples
use waza.Prelude.{
  ℕ, ◌+◌, ◌-◌, max, Bool, true, false, ◌&&◌, ◌||◌, not, Option, none, some, List, [], ◌∷◌, ltb, leb,
  ◌==◌, if◌then◌else◌, due_by, is_some,
}
use waza.Prelude.Table.{select, find, store, store_each}

pub data SurfaceStatus : Type 0 where
  creating active idle dormant expired revoked cleanup_pending cleaned failed : SurfaceStatus

-- `can_transition`, by the table TRANSITIONS.
unfoldable pub can_transition : SurfaceStatus → SurfaceStatus → Bool
can_transition creating active = true
can_transition creating failed = true
can_transition active idle = true
can_transition active expired = true
can_transition active revoked = true
can_transition active failed = true
can_transition idle active = true
can_transition idle dormant = true
can_transition idle expired = true
can_transition idle revoked = true
can_transition dormant active = true
can_transition dormant expired = true
can_transition dormant revoked = true
can_transition expired cleanup_pending = true
can_transition expired cleaned = true
can_transition revoked cleanup_pending = true
can_transition revoked cleaned = true
can_transition cleanup_pending cleaned = true
can_transition cleanup_pending failed = true
can_transition failed cleanup_pending = true
can_transition failed cleaned = true
can_transition _ _ = false

-- The spans of time of `SurfaceLifecyclePolicy` that the operations read.
pub record Policy : Type 0 where
  pub default_lifetime : ℕ
  pub max_lifetime : ℕ
  pub min_lifetime : ℕ
  pub idle_after : ℕ
  pub dormant_after : ℕ
  pub cleanup_grace : ℕ

-- The longest `timedelta`; building one that is longer raises, and so do hours that are infinite or no
-- number, which are times above it here.
abbrev pub max_timedelta : ℕ
max_timedelta = 86399999999999999999

abbrev pub in_range : Option ℕ → Bool
in_range none = true
in_range (some delta) = leb delta max_timedelta

-- `resolve_lifetime` of a time in range, with the preferred time in microseconds; a text that is no number counts as absent.
unfoldable pub resolve_lifetime : Policy → Option ℕ → ℕ
resolve_lifetime p none = p.default_lifetime
resolve_lifetime p (some delta) =
    if ltb delta p.min_lifetime
    then p.min_lifetime
    else if ltb p.max_lifetime delta
    then p.max_lifetime
    else delta

pub record Surface : Type 0 where
  pub id : ℕ
  pub principal_id : ℕ
  pub token_hash : ℕ
  pub status : SurfaceStatus
  pub expires_at : ℕ
  pub revoked_at : Option ℕ
  pub cleaned_at : Option ℕ
  pub last_activity_at : Option ℕ
  pub last_opened_at : Option ℕ
  pub retention_requested : Bool
  pub access_count : ℕ
  pub is_retained : Bool

-- The statuses in which a surface is served.
abbrev pub is_open : SurfaceStatus → Bool
is_open active = true
is_open idle = true
is_open dormant = true
is_open _ = false

abbrev pub is_active : SurfaceStatus → Bool
is_active active = true
is_active _ = false

abbrev pub is_idle : SurfaceStatus → Bool
is_idle idle = true
is_idle _ = false

abbrev pub is_dormant : SurfaceStatus → Bool
is_dormant dormant = true
is_dormant _ = false

abbrev pub is_revoked : SurfaceStatus → Bool
is_revoked revoked = true
is_revoked _ = false

abbrev pub is_failed : SurfaceStatus → Bool
is_failed failed = true
is_failed _ = false

-- A query without ORDER BY: the rows come as they stand in the table.
abbrev pub unordered : Surface → Surface → Bool
unordered a b = true

abbrev pub mark : SurfaceStatus → Surface → Surface
mark s x = record x { status = s }

unfoldable pub expire_due : ℕ → ℕ → List Surface → List Surface
expire_due now limit rows =
    store_each (λ x. x.id) (mark expired)
      (select (λ x. is_open x.status && leb x.expires_at now) unordered limit rows) rows

abbrev pub quiet_since : Option ℕ → ℕ → ℕ → Bool
quiet_since none now span = false
quiet_since (some t) now span = leb (t + span) now

-- The first half of `mark_idle_dormant`, active to idle, and the second, idle to dormant.
unfoldable pub mark_idle : Policy → ℕ → ℕ → List Surface → List Surface
mark_idle p now limit rows =
    store_each (λ x. x.id) (mark idle)
      (select (λ x. is_active x.status && quiet_since x.last_activity_at now p.idle_after) unordered
        limit rows)
      rows

-- The second query reads `rows`, the table without the changes that the session has not written yet.
unfoldable pub mark_dormant : Policy → ℕ → ℕ → List Surface → List Surface → List Surface
mark_dormant p now limit rows changed =
    store_each (λ x. x.id) (mark dormant)
      (select (λ x. is_idle x.status && quiet_since x.last_activity_at now p.dormant_after)
        unordered limit rows)
      changed

unfoldable pub mark_idle_dormant : Policy → ℕ → ℕ → List Surface → List Surface
mark_idle_dormant p now limit rows = mark_dormant p now limit rows (mark_idle p now limit rows)

abbrev pub is_ended : SurfaceStatus → Bool
is_ended expired = true
is_ended revoked = true
is_ended failed = true
is_ended _ = false

-- The WHERE clause of `cleanup_expired`.
unfoldable pub is_cleanable : Policy → ℕ → Surface → Bool
is_cleanable p now x =
    (is_ended x.status && not (is_some x.cleaned_at)) && leb (x.expires_at + p.cleanup_grace) now

-- The body of its loop; `deleted` tells whether all files of the surface's revisions could be deleted.
unfoldable pub clean : (Surface → Bool) → ℕ → Surface → Surface
clean deleted now x =
    let pending = if can_transition x.status cleanup_pending then cleanup_pending else x.status in
    if deleted x
    then record x { status = cleaned; cleaned_at = some now }
    else record x { status = pending }

unfoldable pub cleanup_expired : Policy → (Surface → Bool) → ℕ → ℕ → List Surface → List Surface
cleanup_expired p deleted now limit rows =
    store_each (λ x. x.id) (clean deleted now) (select (is_cleanable p now) unordered limit rows)
      rows

abbrev pub written : Option Surface → List Surface → List Surface
written none rows = rows
written (some y) rows = store (λ x. x.id) y rows

-- The change of a row that was found, if its owner asks.
abbrev pub write_own : ℕ → (Surface → Option Surface) → Option Surface → List Surface → List Surface
write_own principal f none rows = rows
write_own principal f (some x) rows =
    if x.principal_id == principal then written (f x) rows else rows

-- `session.get` and the check of the owner, and then a change of the row.
unfoldable pub change_own : ℕ → ℕ → (Surface → Option Surface) → List Surface → List Surface
change_own id principal f rows = write_own principal f (find (λ x. x.id) id rows) rows

unfoldable pub revoke_row : ℕ → Surface → Option Surface
revoke_row now x =
    if can_transition x.status revoked
    then some (record x { status = revoked; revoked_at = some now })
    else none

abbrev pub revoke : ℕ → ℕ → ℕ → List Surface → List Surface
revoke id principal now rows = change_own id principal (revoke_row now) rows

abbrev extended : Policy → Option ℕ → ℕ → ℕ → ℕ
extended p none now old = old
extended p (some hours) now old = max old (now + resolve_lifetime p (some hours))

unfoldable pub retain_row : Policy → Bool → ℕ → Surface → Option Surface
retain_row p keep now x = some (
    if keep
    then record x {
      retention_requested = true;
      expires_at = now + p.max_lifetime;
      is_retained = true;
    }
    else record x { retention_requested = false })

abbrev pub set_retention : Policy → ℕ → ℕ → Bool → ℕ → List Surface → List Surface
set_retention p id principal keep now rows = change_own id principal (retain_row p keep now) rows

-- The columns of the lifecycle that `update` writes, on a row whose html, if the update has one, is
-- accepted.
unfoldable pub refresh_row : Policy → Option ℕ → ℕ → Surface → Option Surface
refresh_row p extend now x =
    if is_open x.status
    then some (record x {
      expires_at = extended p extend now x.expires_at;
      last_activity_at = some now;
      status = if is_idle x.status || is_dormant x.status then active else x.status;
    })
    else none

abbrev pub refresh : Policy → ℕ → ℕ → Option ℕ → ℕ → List Surface → List Surface
refresh p id principal extend now rows = change_own id principal (refresh_row p extend now) rows

-- `record_access` on the surface that a token gave.
unfoldable pub access_row : ℕ → Surface → Surface
access_row now x = record x {
  access_count = x.access_count + 1;
  last_activity_at = some now;
  last_opened_at = some now;
  status = if is_idle x.status || is_dormant x.status then active else x.status;
}

-- Why a token is refused.
pub data Refusal : Type 0 where
  not_found is_revoked_now is_expired_now is_failed_now : Refusal

abbrev pub has_run_out : SurfaceStatus → Bool
has_run_out expired = true
has_run_out cleaned = true
has_run_out cleanup_pending = true
has_run_out _ = false

-- What `resolve_by_token` answers on the surface that it found, and the row that it leaves.
unfoldable pub resolve_row : ℕ → Surface → Surface × Option Refusal
resolve_row now x =
    if is_revoked x.status || is_some x.revoked_at
    then (x, some is_revoked_now)
    else if has_run_out x.status || leb x.expires_at now
    then ((if is_active x.status then mark expired x else x), some is_expired_now)
    else if is_failed x.status
    then (x, some is_failed_now)
    else if is_open x.status
    then (x, none)
    else (x, some not_found)

abbrev pub resolve_found : ℕ → Option Surface → List Surface → List Surface × Option Refusal
resolve_found now none rows = (rows, some not_found)
resolve_found now (some x) rows =
    (store (λ y. y.id) (resolve_row now x).0 rows, (resolve_row now x).1)

-- `resolve_by_token`, by the hash of a token that is long enough.
unfoldable pub resolve_by_token : ℕ → ℕ → List Surface → List Surface × Option Refusal
resolve_by_token hash now rows = resolve_found now (find (λ x. x.token_hash) hash rows) rows
