-- ===== src/Surface/Examples.antt =====
-- Runs of the surface lifecycle, and the theorems on them.
use waza.Prelude.{◌≡◌, refl, Bool, true, false, none, some, List, [], ◌∷◌, All}
use waza.Prelude.Table.{find, select, store, store_each, order_by, insert_by}
use waza.Prelude.Rows.{with_key}
use waza.Surface.{
  active, expired, cleanup_pending, can_transition, Policy, Surface, is_open, cleanup_expired,
  clean, is_cleanable,
}
use waza.Surface.Lifecycle.{Operation, expire, tidy, retain, update, access, perform_all}
use waza.Surface.Ending.{
  Reaches, lifecycle_follows_table, ended_stays_ended, cleanup_pending_is_stuck,
}

abbrev policy : Policy
policy = record {
  default_lifetime = 604800000000;
  max_lifetime = 2592000000000;
  min_lifetime = 1800000000;
  idle_after = 86400000000;
  dormant_after = 604800000000;
  cleanup_grace = 172800000000;
}

abbrev page : Surface
page = record {
  id = 1;
  principal_id = 7;
  token_hash = 99;
  status = active;
  expires_at = 1000;
  revoked_at = none;
  cleaned_at = none;
  last_activity_at = some 500;
  last_opened_at = none;
  retention_requested = false;
  access_count = 0;
  is_retained = false;
}

abbrev keeps_files : Surface → Bool
keeps_files x = false

abbrev life : List Operation
life =
    expire 2000 200
    ∷ tidy policy keeps_files 172800001000 50
    ∷ tidy policy keeps_files 172800002000 50
    ∷ []

abbrev old_page : Surface
old_page = record page { status = expired }

-- The cleaning that could not delete all files leaves the page waiting.
waits :
    cleanup_expired policy keeps_files 172800001000 50 (old_page ∷ [])
    ≡ (record page { status = cleanup_pending }) ∷ []
unfolding cleanup_expired select order_by insert_by store_each store clean can_transition
    is_cleanable
waits = refl

lifecycle_follows_table_example :
    All (λ x. Reaches active x.status) (with_key (λ x. x.id) 1 (perform_all life (page ∷ [])))
lifecycle_follows_table_example = lifecycle_follows_table life (page ∷ []) page (refl, tt)

ended_stays_ended_example :
    All
      (λ x. is_open x.status ≡ false)
      (with_key
        (λ x. x.id)
        1
        (perform_all
          (retain policy 1 7 true 1500 ∷ update policy 1 7 none 1550 ∷ access 1 1600 ∷ [])
          (old_page ∷ [])))
ended_stays_ended_example =
    ended_stays_ended
      (retain policy 1 7 true 1500 ∷ update policy 1 7 none 1550 ∷ access 1 1600 ∷ [])
      (old_page ∷ []) old_page (refl, tt) refl

cleanup_pending_is_stuck_example :
    All
      (λ x. x.status ≡ cleanup_pending)
      (with_key (λ x. x.id) 1 (perform_all life (record page { status = cleanup_pending } ∷ [])))
cleanup_pending_is_stuck_example =
    cleanup_pending_is_stuck life (record page { status = cleanup_pending } ∷ [])
      (record page { status = cleanup_pending }) (refl, tt) refl

found : find (λ (x : Surface). x.token_hash) 99 (page ∷ []) ≡ some page
unfolding find
found = refl
