-- ===== src/Surface/Lifecycle.antt =====
-- Every operation moves a surface along its lifecycle.
use waza.Prelude.{
  ℕ, ◌+◌, ◌≡◌, ◌⊎◌, inl, inr, refl, sym, subst, ◌∙◌, Bool, true, false, ◌&&◌, not, Option, none,
  some, All-imp, List, [], ◌∷◌, ◌==◌, leb, All, and_true, is_some, Bool-cases, arith,
}
use waza.Prelude.Table.{select, find, store, store_each, All-find, All-store, All-store_each}
use waza.Prelude.Rows.{All-sweep, All-select_both}
use waza.Surface.{
  SurfaceStatus, active, idle, dormant, expired, revoked, cleanup_pending, cleaned, failed,
  can_transition, Policy, Surface, is_open, is_active, is_idle, is_ended, mark, unordered,
  expire_due, quiet_since, mark_idle, mark_dormant, mark_idle_dormant, is_cleanable, clean,
  cleanup_expired, written, write_own, change_own, revoke_row, revoke, retain_row, set_retention,
  refresh_row, refresh, access_row, resolve_row, resolve_found, resolve_by_token,
}

-- The operations on the surfaces that exist, on any of them, by anybody and at any time. Each reads the
-- rows as the one before it left them.
pub data Operation : Type 0 where
  expire : (now limit : ℕ) → Operation
  rest : (p : Policy) (now limit : ℕ) → Operation
  tidy : (p : Policy) (deleted : Surface → Bool) (now limit : ℕ) → Operation
  take_back : (id principal now : ℕ) → Operation
  retain : (p : Policy) (id principal : ℕ) (keep : Bool) (now : ℕ) → Operation
  update : (p : Policy) (id principal : ℕ) (extend : Option ℕ) (now : ℕ) → Operation
  resolve : (hash now : ℕ) → Operation
  access : (id now : ℕ) → Operation

abbrev pub accessed : ℕ → Option Surface → List Surface → List Surface
accessed now none rows = rows
accessed now (some x) rows = store (λ y. y.id) (access_row now x) rows

unfoldable pub perform : Operation → List Surface → List Surface
perform (expire now limit) rows = expire_due now limit rows
perform (rest p now limit) rows = mark_idle_dormant p now limit rows
perform (tidy p deleted now limit) rows = cleanup_expired p deleted now limit rows
perform (take_back id principal now) rows = revoke id principal now rows
perform (retain p id principal keep now) rows = set_retention p id principal keep now rows
perform (update p id principal extend now) rows = refresh p id principal extend now rows
perform (resolve hash now) rows = (resolve_by_token hash now rows).0
perform (access id now) rows = accessed now (find (λ x. x.id) id rows) rows

unfoldable pub perform_all : List Operation → List Surface → List Surface
perform_all [] rows = rows
perform_all (o ∷ os) rows = perform_all os (perform o rows)

-- The changes of status that the operations make.
abbrev pub makes : SurfaceStatus → SurfaceStatus → Bool
makes active idle = true
makes idle dormant = true
makes idle active = true
makes dormant active = true
makes active expired = true
makes idle expired = true
makes dormant expired = true
makes active revoked = true
makes idle revoked = true
makes dormant revoked = true
makes expired cleanup_pending = true
makes revoked cleanup_pending = true
makes failed cleanup_pending = true
makes expired cleaned = true
makes revoked cleaned = true
makes failed cleaned = true
makes _ _ = false

abbrev IsChange : Surface → Surface → Type 0
IsChange x y = (y.id ≡ x.id) × ((y.status ≡ x.status) ⊎ (makes x.status y.status ≡ true))

expire-IsChange : (x : Surface) → is_open x.status ≡ true → IsChange x (mark expired x)
expire-IsChange x h = (refl, ground arith)

idle-IsChange : (x : Surface) → is_active x.status ≡ true → IsChange x (mark idle x)
idle-IsChange x h = (refl, ground arith)

dormant-IsChange : (x : Surface) → is_idle x.status ≡ true → IsChange x (mark dormant x)
dormant-IsChange x h = (refl, ground arith)

clean-IsChange :
    (deleted : Surface → Bool) (now : ℕ) (x : Surface)
    → is_ended x.status ≡ true
    → IsChange x (clean deleted now x)
unfolding clean can_transition
clean-IsChange deleted now x h = (ground arith, ground arith)

access-IsChange : (now : ℕ) (x : Surface) → IsChange x (access_row now x)
unfolding access_row
access-IsChange now x = (refl, ground arith)

resolve-IsChange : (now : ℕ) (x : Surface) → IsChange x (resolve_row now x).0
unfolding resolve_row
resolve-IsChange now x = (ground arith, ground arith)

revoke-IsChange : (now : ℕ) (x y : Surface) → revoke_row now x ≡ some y → IsChange x y
unfolding revoke_row can_transition
revoke-IsChange now x y h = (ground arith, ground arith)

retain-IsChange :
    (p : Policy) (keep : Bool) (now : ℕ) (x y : Surface)
    → retain_row p keep now x ≡ some y
    → IsChange x y
unfolding retain_row
retain-IsChange p keep now x y h = (ground arith, inl (ground arith))

refresh-IsChange :
    (p : Policy) (extend : Option ℕ) (now : ℕ) (x y : Surface)
    → refresh_row p extend now x ≡ some y
    → IsChange x y
unfolding refresh_row
refresh-IsChange p extend now x y h = (ground arith, ground arith)

-- A property of the status that every change keeps holds of a surface from then on.
module _ (j : ℕ) (Q : SurfaceStatus → Type 0)
    (closed : (a b : SurfaceStatus) → makes a b ≡ true → Q a → Q b) where
  abbrev Keeps : Surface → Type 0
  Keeps x = x.id ≡ j → Q x.status

  carry : (x y : Surface) → IsChange x y → Keeps x → Keeps y
  carry x y (same_id, inl e) q k = subst Q (sym e) (q (sym same_id ∙ k))
  carry x y (same_id, inr m) q k = closed x.status y.status m (q (sym same_id ∙ k))

  sweep-Keeps :
      (f : Surface → Surface) (p : Surface → Bool) (limit : ℕ) (rows : List Surface)
      → ((x : Surface) → p x ≡ true → IsChange x (f x))
      → All Keeps rows
      → All Keeps (store_each (λ x. x.id) f (select p unordered limit rows) rows)
  sweep-Keeps f p limit rows changes h =
      All-sweep Keeps (λ x. x.id) f p unordered limit rows (λ x t q. carry x (f x) (changes x t) q)
        h

  store-Keeps :
      (x y : Surface) (rows : List Surface)
      → IsChange x y
      → Keeps x
      → All Keeps rows
      → All Keeps (store (λ z. z.id) y rows)
  store-Keeps x y rows c q h = All-store Keeps (λ z. z.id) y rows (carry x y c q) h

  written-Keeps :
      (x : Surface) (o : Option Surface) (rows : List Surface)
      → ((y : Surface) → o ≡ some y → IsChange x y)
      → Keeps x
      → All Keeps rows
      → All Keeps (written o rows)
  written-Keeps x none rows changes q h = h
  written-Keeps x (some y) rows changes q h = store-Keeps x y rows (changes y refl) q h

  write_own-Keeps :
      (principal : ℕ) (f : Surface → Option Surface) (o : Option Surface) (rows : List Surface)
      → ((x y : Surface) → f x ≡ some y → IsChange x y)
      → ((x : Surface) → o ≡ some x → Keeps x)
      → All Keeps rows
      → All Keeps (write_own principal f o rows)
  write_own-Keeps principal f none rows changes q h = h
  write_own-Keeps principal f (some x) rows changes q h =
      elim (Bool-cases (x.principal_id == principal)) [
        | inl e ↦ rw e (written-Keeps x (f x) rows (changes x) (q x refl) h)
        | inr e ↦ rw e h
      ]

  change_own-Keeps :
      (id principal : ℕ) (f : Surface → Option Surface) (rows : List Surface)
      → ((x y : Surface) → f x ≡ some y → IsChange x y)
      → All Keeps rows
      → All Keeps (change_own id principal f rows)
  unfolding change_own
  change_own-Keeps id principal f rows changes h =
      write_own-Keeps principal f (find (λ x. x.id) id rows) rows changes
        (λ x e. All-find Keeps (λ y. y.id) id rows h e) h

  resolve-Keeps :
      (now : ℕ) (o : Option Surface) (rows : List Surface)
      → ((x : Surface) → o ≡ some x → Keeps x)
      → All Keeps rows
      → All Keeps (resolve_found now o rows).0
  resolve-Keeps now none rows q h = h
  resolve-Keeps now (some x) rows q h =
      store-Keeps x (resolve_row now x).0 rows (resolve-IsChange now x) (q x refl) h

  access-Keeps :
      (now : ℕ) (o : Option Surface) (rows : List Surface)
      → ((x : Surface) → o ≡ some x → Keeps x)
      → All Keeps rows
      → All Keeps (accessed now o rows)
  access-Keeps now none rows q h = h
  access-Keeps now (some x) rows q h =
      store-Keeps x (access_row now x) rows (access-IsChange now x) (q x refl) h

  perform-Keeps :
      (o : Operation) (rows : List Surface) → All Keeps rows → All Keeps (perform o rows)
  unfolding perform expire_due mark_idle_dormant mark_idle mark_dormant cleanup_expired
      resolve_by_token is_cleanable
  perform-Keeps (expire now limit) rows h =
      sweep-Keeps (mark expired) (λ x. is_open x.status && leb x.expires_at now) limit rows
        (λ x t. expire-IsChange x (and_true (is_open x.status) (leb x.expires_at now) t).0) h
  perform-Keeps (rest p now limit) rows h =
      let first =
        sweep-Keeps (mark idle)
          (λ x. is_active x.status && quiet_since x.last_activity_at now p.idle_after) limit rows
          (λ x t.
            idle-IsChange x
              (and_true (is_active x.status) (quiet_since x.last_activity_at now p.idle_after) t).0)
          h in
      let test : Surface → Bool =
        λ x. is_idle x.status && quiet_since x.last_activity_at now p.dormant_after in
      All-store_each Keeps (λ x. x.id) (mark dormant) (select test unordered limit rows) _
        (All-imp (λ x. (test x ≡ true) × Keeps x) (λ x. Keeps (mark dormant x))
          (select test unordered limit rows)
          (λ x t.
            carry x (mark dormant x)
              (dormant-IsChange x
                (and_true (is_idle x.status) (quiet_since x.last_activity_at now p.dormant_after)
                  t.0).0)
              t.1)
          (All-select_both Keeps test unordered limit rows h))
        first
  perform-Keeps (tidy p deleted now limit) rows h =
      sweep-Keeps (clean deleted now)
        (λ x.
          (is_ended x.status && not (is_some x.cleaned_at))
          && leb (x.expires_at + p.cleanup_grace) now)
        limit rows
        (λ x t.
          clean-IsChange deleted now x
            (and_true (is_ended x.status) (not (is_some x.cleaned_at))
              (and_true (is_ended x.status && not (is_some x.cleaned_at))
                (leb (x.expires_at + p.cleanup_grace) now) t).0).0)
        h
  perform-Keeps (take_back id principal now) rows h =
      change_own-Keeps id principal (revoke_row now) rows (revoke-IsChange now) h
  perform-Keeps (retain p id principal keep now) rows h =
      change_own-Keeps id principal (retain_row p keep now) rows (retain-IsChange p keep now) h
  perform-Keeps (update p id principal extend now) rows h =
      change_own-Keeps id principal (refresh_row p extend now) rows (refresh-IsChange p extend now)
        h
  perform-Keeps (resolve hash now) rows h =
      resolve-Keeps now (find (λ x. x.token_hash) hash rows) rows
        (λ x e. All-find Keeps (λ y. y.token_hash) hash rows h e) h
  perform-Keeps (access id now) rows h =
      access-Keeps now (find (λ x. x.id) id rows) rows
        (λ x e. All-find Keeps (λ y. y.id) id rows h e) h

  pub perform_all-Keeps :
      (os : List Operation) (rows : List Surface) → All Keeps rows → All Keeps (perform_all os rows)
  unfolding perform_all
  perform_all-Keeps [] rows h = h
  perform_all-Keeps (o ∷ os) rows h = perform_all-Keeps os (perform o rows) (perform-Keeps o rows h)
