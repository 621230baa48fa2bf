-- ===== src/Lib.antt =====
-- Waza: the durable core of the tutor's backend, as definitions and theorems.
--
-- The program receives messages from WhatsApp and Telegram, stores each as a row of durable work, lets
-- workers claim the rows and run one tutor turn for each, and sends the replies through a table of
-- deliveries. A recovery loop repairs what crashed workers leave behind. Around this stand the linking
-- of channel accounts, choices that students tap on, scheduled actions, and a rate limit for each
-- student. All of them are services over database tables: a query selects rows, the code changes
-- them, and the change is flushed.
--
-- Files, by part:
--   Prelude                  shared notation. Prelude/Table is the database: `select` is a query with
--                            WHERE, ORDER BY and LIMIT, `store` writes a row back by primary key,
--                            `store_each` is a loop over selected rows. Prelude/Rows, Prelude/Sweep and
--                            Prelude/First are its theory, Prelude/Text the strings, Prelude/Find
--                            the searches in them, Prelude/Decimal `str` and `int` of a number.
--   Delivery                 wax/delivery/retry.py: `retry_backoff_seconds`, `DeliveryRetryService`
--                            (`pending` is `pending_deliveries`).
--   Work                     wax/workers/main.py: `claim_next`, `renew_lease`. Work/Turn is the end of a
--                            turn in `process_message_response` (`complete_turn`, `fail_turn`),
--                            Work/Recovery the sweeps `recover_orphans`, `reclaim_stale_works`,
--                            `resuscitate_rate_limited_works`, and Work/Life the step relation of all
--                            of these and of the turns of `worker_loop` on the committed works, the open
--                            transactions, the updates of `_mark_work_terminal` after a rollback, and
--                            the idempotency keys of the deliveries.
--   IdentityLink             wax/identity_link/service.py: `IdentityLinkService`.
--   Interaction              wax/interaction/service.py: `InteractionService`.
--   Scheduler                wax/scheduler/service.py: `SchedulerService`; Scheduler/Wake has
--                            `create_work_for_action`, `recover_stuck_executing` and the part of
--                            `recovery_loop` that wakes due actions.
--   Rate                     wax/protection/rate.py: `decide_from_counts`, `decide_durable` and
--                            `RateProtector.decide`.
--   Surface                  wax/surfaces/policy.py: `TRANSITIONS` (`can_transition`), `resolve_lifetime`;
--                            wax/surfaces/service.py: `expire_due`, `mark_idle_dormant`,
--                            `cleanup_expired`, `revoke`, `set_retention`, `resolve_by_token`,
--                            `record_access` and the lifecycle columns of `update`. Surface/Lifecycle is the sequence of such operations.
--   Publishing               wax/surfaces/service.py: `update` (`update_row`) and `_write_revision`;
--                            Publishing/Create has `create`, Publishing/States `set_state` and `patch_state`,
--                            Publishing/Requests `accept_ai_request`, `get_ai_request_by_token`,
--                            `apply_ai_result`, `record_event`, `relate` and `list_for_principal`.
--                            Publishing/Runs is the step relation of the writes.
--   Turns                    wax/workers/main.py: `process_surface_ai`, `process_scheduled_action`,
--                            `_mark_work_terminal`. They use Work, Scheduler and Publishing/Requests.
--   Chunking                 wax/delivery/chunking.py: `chunk_message`; Chunking/Markers has
--                            `_unbalanced_fence` and `_has_unclosed_inline_marker`.
--   Coalescing               wax/work/recovery.py: `build_outage_context`, `relatedness_score`,
--                            `find_coalescable_works`, `coalesce_works_into`.
--   Memories                 wax/memory/store.py: `memory_create`, `memory_get`, `memory_update`,
--                            `memory_supersede`, `memory_forget`, `memory_list`, `memory_search`;
--                            Memories/Terms has `_clean_terms`.
--   Resources                wax/world/resources.py: `execution_limits`, `admit_execution`,
--                            `release_execution`, `check_world_disk`.
--   Signing                  wax/artifacts/access.py: `make_download_token`, `verify_download_token`;
--                            wax/security/webhooks.py; `tokens_match` of wax/surfaces/tokens.py.
-- The other files prove properties, and each Examples file runs its part on small tables.
--
-- Reading the models. A table is a list of rows; columns that no modelled code reads, such as previews,
-- descriptions and some time stamps, are left out, as are log lines. A row's key and every other random value (codes, tokens, suffixes) are
-- arguments, and so is each reading of the clock; times are whole microseconds, or whole seconds in
-- Delivery. Ids and worker names are numbers. `locked` is an arbitrary test that tells which rows SKIP
-- LOCKED passes over. Rows that ORDER BY does not tell apart keep their order in the table. Where
-- nothing else is said, each operation is one transaction on the committed rows. In Work/Life a claim
-- and the turn after it are one transaction, as in the program: the committed row stays as it was until
-- the turn ends, and other claims pass over the locked row; a turn may take related works along. In Interaction `consume` works on the copy
-- that its session has read, and in Surface/Lifecycle the operations follow one another, each on the
-- rows that the one before left. Idempotency keys are data types with a constructor for each format string of
-- the source, so keys of different formats are different. Tokens of the rate limit are counted in
-- shares of 1/window, so that a refill is a whole number; the source uses floats, and its rounding is
-- not modelled. A negative count, interval or delay, which the source replaces by its lower bound, is
-- given as 0.
--
-- In Publishing an operation takes the row as its session read it, at any earlier time, beside the tables
-- as they are when it writes; an exception of `update` leaves the columns that it changed before, since
-- its caller catches it without a rollback, and a turn updates the html of a surface at most once; the class of the surfaces may or may not have the column that the state
-- writes compare (at this commit it has not).
--
-- Parameters that stand for other code: `respond` for the channel senders, `lower`, `upper`,
-- `capitalize`, `is_alnum` and `is_digit` for what the string methods and the regular expressions know
-- of characters, `answered` for the query on delivered replies, `deleted` for the deletion of a
-- surface's files, `stored` for the storage of its bytes, `mac` and `hash` for the keyed hashes,
-- `state_bytes` for the size of a state's text, `reply_value`, `id_value` and `text_value` for values in
-- JSON, `matches` and `newer` for the database's match of a term and its order by `updated_at`, `reread`
-- for what a column gives after a rollback, and the result or the exception of a tutor turn. Of `mac`, two
-- theorems assume that it is written in ASCII, as hexadecimal digits are; of the others nothing is
-- assumed. Loops are recursion on the list of selected rows or on the count; the loop of `chunk_message`
-- has the length of its text as fuel, which is enough since each turn takes a character at least.
--
-- Not modelled: the rollback of a whole turn when `create` of a surface meets the unique index of the keys
-- in a race; in wax/workers/main.py the media download, the prompt and the sending inside a turn, and
-- the lines of the recovery loop that call other parts; the recovery of orphan messages; the World and
-- its file system, the tutor and the model providers, the directive parser and its front ends, rendering
-- of texts, the channel clients and their handlers, the HTTP routes, migrations and scripts. These are
-- calls of the network, of the file system and of models, or stand in front of the parts above.
pub mod Prelude
pub mod Delivery
pub mod Chunking
pub mod Work
pub mod IdentityLink
pub mod Interaction
pub mod Scheduler
pub mod Rate
pub mod Surface
pub mod Publishing
pub mod Signing
pub mod Coalescing
pub mod Resources
pub mod Memories
pub mod Turns
