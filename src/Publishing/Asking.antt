-- ===== src/Publishing/Asking.antt =====
-- A surface's questions reach the tutor once: the requests and works of wax/surfaces/service.py.
use waza.Prelude.{
  ℕ, ◌+◌, ◌≤◌, ◌≡◌, refl, sym, ap, ◌∙◌, ◌==◌, ==_iff, and_true, Bool, true, ◌&&◌, Option, none,
  some, List, [], ◌∷◌, ◌++◌, map, length, length-append, rows_where, rows_where-append, Bool-cases,
  inl, inr, arith,
}
use waza.Prelude.Table.{find}
use waza.Prelude.Text.{Text, text_eq, text_eq_iff}
use waza.Publishing.{State, Surface}
use waza.Publishing.Create.{key_is, key_of}
use waza.Publishing.Requests.{
  AiRequest, AiWork, Tables, change_at, record_event, asks, find_request, flush_request,
  answer_request, accept_ai_request, new_request, new_work, AiStatus, settle, Result, reply, error,
  notify, apply_to, apply_ai_result, opaque_token,
}

-- The requests of a surface with this key.
abbrev pub asked : ℕ → Text → List AiRequest → ℕ
asked id k rows = length (rows_where (asks id k) rows)

none-asked :
    (id : ℕ) (k : Text) (rows : List AiRequest)
    → find_request id (some k) rows ≡ none
    → asked id k rows ≡ 0
unfolding find_request
none-asked id k [] h = refl
none-asked id k (r ∷ rs) h = ground (arith, none-asked id k rs)

module _ {R : Type 0} (key : R → ℕ) (id : ℕ) (f : R → R) where
  length-change_at :
      (p : R → Bool) (rows : List R)
      → ((x : R) → p (f x) ≡ p x)
      → length (rows_where p (change_at key id f rows)) ≡ length (rows_where p rows)
  unfolding change_at
  length-change_at p [] h = refl
  length-change_at p (x ∷ xs) h = elim (Bool-cases (key x == id)) [
    | inl t ↦ rw (t, h x) (ground (arith, length-change_at p xs h))
    | inr t ↦ rw t (ground (arith, length-change_at p xs h))
  ]

  map-change_at :
      (g : R → ℕ) (rows : List R)
      → ((x : R) → g (f x) ≡ g x)
      → map g (change_at key id f rows) ≡ map g rows
  unfolding change_at
  map-change_at g [] h = refl
  map-change_at g (x ∷ xs) h = elim (Bool-cases (key x == id)) [
    | inl t ↦ rw (t, h x, map-change_at g xs h) refl
    | inr t ↦ rw (t, map-change_at g xs h) refl
  ]

settle-asks :
    (id : ℕ) (k : Text) (res : Result) (r : AiRequest) → asks id k (settle res r) ≡ asks id k r
settle-asks id k (reply s) r = refl
settle-asks id k (error e) r = refl

settle-id : (res : Result) (r : AiRequest) → (settle res r).id ≡ r.id
settle-id (reply s) r = refl
settle-id (error e) r = refl

settle-work_id : (res : Result) (r : AiRequest) → (settle res r).work_id ≡ r.work_id
settle-work_id (reply s) r = refl
settle-work_id (error e) r = refl

map-add :
    {R : Type 0} (g : R → ℕ) (xs : List R) (x : R) → map g (xs ++ (x ∷ [])) ≡ map g xs ++ (g x ∷ [])
map-add g [] x = refl
map-add g (y ∷ ys) x = rw (map-add g ys x) refl

-- At most one request of a surface has a key, and the works are those of the requests, one each.
record AskedOnce (requests : List AiRequest) (works : List AiWork) : Type 0 where
  single : (id : ℕ) (k : Text) → asked id k requests ≤ 1
  by_request : map (λ w. w.request_id) works ≡ map (λ r. r.id) requests
  by_work : map (λ w. w.id) works ≡ map (λ r. r.work_id) requests

abbrev KeyFree : ℕ → Option Text → List AiRequest → Type 0
KeyFree id none rows = Unit
KeyFree id (some k) rows = asked id k rows ≡ 0

key_hit :
    (id id' : ℕ) (k : Text) (o : Option Text) (rows : List AiRequest)
    → (id' == id && key_is k o) ≡ true
    → KeyFree id' o rows
    → asked id k rows ≡ 0
key_hit id id' k none rows h free = absurd (ground arith)
key_hit id id' k (some k') rows h free =
    let (e, t) = and_true (id' == id) (text_eq k' k) h in
    rw (sym ((==_iff id' id).0 e), sym ((text_eq_iff k' k).0 t)) free

asked-add :
    (id : ℕ) (k : Text) (r : AiRequest) (rows : List AiRequest)
    → asked id k rows ≤ 1
    → KeyFree r.surface_id r.idempotency_key rows
    → asked id k (rows ++ (r ∷ [])) ≤ 1
asked-add id k r rows h free =
    let p = asks id k in
    let parts : asked id k (rows ++ (r ∷ [])) ≡ asked id k rows + length (rows_where p (r ∷ [])) =
      ap length (rows_where-append p rows (r ∷ []))
      ∙ length-append (rows_where p rows) (rows_where p (r ∷ [])) in
    rw parts (elim (Bool-cases (asks id k r)) [
      | inl t ↦ rw t (omega (arith, key_hit id r.surface_id k r.idempotency_key rows t free))
      | inr t ↦ rw t (omega (arith, h))
    ])

AskedOnce-add :
    (r : AiRequest) (w : AiWork) (requests : List AiRequest) (works : List AiWork)
    → w.request_id ≡ r.id
    → w.id ≡ r.work_id
    → KeyFree r.surface_id r.idempotency_key requests
    → AskedOnce requests works
    → AskedOnce (requests ++ (r ∷ [])) (works ++ (w ∷ []))
AskedOnce-add r w requests works i j free h = record {
  single = λ id k. asked-add id k r requests (h.single id k) free;
  by_request =
      map-add (λ x. x.request_id) works w
      ∙ ap (λ xs. xs ++ (w.request_id ∷ [])) h.by_request
      ∙ ap (λ n. map (λ x. x.id) requests ++ (n ∷ [])) i
      ∙ sym (map-add (λ x. x.id) requests r);
  by_work =
      map-add (λ x. x.id) works w
      ∙ ap (λ xs. xs ++ (w.id ∷ [])) h.by_work
      ∙ ap (λ n. map (λ x. x.work_id) requests ++ (n ∷ [])) j
      ∙ sym (map-add (λ x. x.work_id) requests r);
}

AskedOnce-settle :
    (row : ℕ) (res : Result) (requests : List AiRequest) (works : List AiWork)
    → AskedOnce requests works
    → AskedOnce (change_at (λ y. y.id) row (settle res) requests) works
AskedOnce-settle row res requests works h = record {
  single = λ id k. omega (
    arith,
    h.single id k,
    length-change_at (λ y. y.id) row (settle res) (asks id k) requests (settle-asks id k res),
  );
  by_request =
      h.by_request
      ∙ sym (map-change_at (λ y. y.id) row (settle res) (λ r. r.id) requests (settle-id res));
  by_work =
      h.by_work
      ∙ sym (
          map-change_at (λ y. y.id) row (settle res) (λ r. r.work_id) requests
            (settle-work_id res));
}

KeyFree-none :
    (id : ℕ) (o : Option Text) (rows : List AiRequest)
    → find_request id o rows ≡ none
    → KeyFree id o rows
KeyFree-none id none rows h = tt
KeyFree-none id (some k) rows h = none-asked id k rows h

module _ {V : Type 0} (mac : ℕ → Text → Text) (hash : Text → Text) where
  flush-AskedOnce :
      (now id work_id : ℕ) (x : Surface V) (message : Text) (k : Option Text) (token : Text)
      (t : Tables V) (o : Option AiRequest)
      → find_request x.id k t.requests ≡ o
      → AskedOnce t.requests t.works
      → AskedOnce
          (flush_request mac hash now id work_id x message k token t o).0.requests
          (flush_request mac hash now id work_id x message k token t o).0.works
  unfolding record_event
  flush-AskedOnce now id work_id x message k token t (some r) e h = h
  flush-AskedOnce now id work_id x message k token t none e h =
      AskedOnce-add (new_request mac hash id work_id x message k token)
        (new_work mac hash id work_id x message) t.requests t.works refl refl
        (KeyFree-none x.id k t.requests e) h

  answer-AskedOnce :
      (now id work_id : ℕ) (x : Surface V) (message : Text) (k : Option Text) (token : Text)
      (t : Tables V) (o : Option AiRequest)
      → AskedOnce t.requests t.works
      → AskedOnce
          (answer_request mac hash now id work_id x message k token t o).0.requests
          (answer_request mac hash now id work_id x message k token t o).0.works
  answer-AskedOnce now id work_id x message k token t (some r) h = h
  answer-AskedOnce now id work_id x message k token t none h =
      flush-AskedOnce now id work_id x message k token t (find_request x.id k t.requests) refl h

  accept-AskedOnce :
      (now id work_id : ℕ) (fresh : Text) (x : Surface V) (message : Text) (key : Option Text)
      (read : List AiRequest) (t : Tables V)
      → AskedOnce t.requests t.works
      → AskedOnce
          (accept_ai_request mac hash now id work_id fresh x message key read t).0.requests
          (accept_ai_request mac hash now id work_id fresh x message key read t).0.works
  unfolding accept_ai_request
  accept-AskedOnce now id work_id fresh x message key read t h =
      answer-AskedOnce now id work_id x message (key_of key)
        (opaque_token mac fresh x.id (key_of key)) t (find_request x.id (key_of key) read) h

module _ {V : Type 0} (state_bytes : State V → ℕ) (reply_value : AiStatus → Text → ℕ → V) where
  notify-AskedOnce :
      (now : ℕ) (res : Result) (o : Option (Surface V)) (t : Tables V)
      → AskedOnce t.requests t.works
      → AskedOnce
          (notify state_bytes reply_value now res o t).requests
          (notify state_bytes reply_value now res o t).works
  unfolding record_event
  notify-AskedOnce now res none t h = h
  notify-AskedOnce now res (some x) t h = h

  apply_to-AskedOnce :
      (now : ℕ) (res : Result) (o : Option AiRequest) (t : Tables V)
      → AskedOnce t.requests t.works
      → AskedOnce
          (apply_to state_bytes reply_value now res o t).requests
          (apply_to state_bytes reply_value now res o t).works
  apply_to-AskedOnce now res none t h = h
  apply_to-AskedOnce now res (some r) t h =
      notify-AskedOnce now res (find (λ y. y.id) r.surface_id t.surfaces) _
        (AskedOnce-settle r.id res t.requests t.works h)

  apply-AskedOnce :
      (now row : ℕ) (res : Result) (t : Tables V)
      → AskedOnce t.requests t.works
      → AskedOnce
          (apply_ai_result state_bytes reply_value now row res t).requests
          (apply_ai_result state_bytes reply_value now row res t).works
  unfolding apply_ai_result
  apply-AskedOnce now row res t h = apply_to-AskedOnce now res (find (λ r. r.id) row t.requests) t h

-- Questions and answers from `surfaces` on, where nothing was asked before. The query of a question
-- may have seen the requests at any earlier time.
pub data Asking {V : Type 0} (mac : ℕ → Text → Text) (hash : Text → Text)
    (state_bytes : State V → ℕ) (reply_value : AiStatus → Text → ℕ → V)
    (surfaces : List (Surface V)) : Tables V → Type 0 where
  silent :
      Asking mac hash state_bytes reply_value surfaces
        (record { surfaces = surfaces; requests = []; works = []; events = [] })
  asks_for :
      {t : Tables V} (now id work_id : ℕ) (fresh : Text) (x : Surface V) (message : Text)
      (key : Option Text) (read : List AiRequest)
      → Asking mac hash state_bytes reply_value surfaces t
      → Asking mac hash state_bytes reply_value surfaces
          (accept_ai_request mac hash now id work_id fresh x message key read t).0
  gets :
      {t : Tables V} (now row : ℕ) (res : Result)
      → Asking mac hash state_bytes reply_value surfaces t
      → Asking mac hash state_bytes reply_value surfaces
          (apply_ai_result state_bytes reply_value now row res t)

module _ {V : Type 0} (mac : ℕ → Text → Text) (hash : Text → Text) (state_bytes : State V → ℕ)
    (reply_value : AiStatus → Text → ℕ → V) where
  AskedOnce-run :
      {surfaces : List (Surface V)} {t : Tables V}
      → Asking mac hash state_bytes reply_value surfaces t
      → AskedOnce t.requests t.works
  AskedOnce-run silent = record { single = λ id k. omega arith; by_request = refl; by_work = refl }
  AskedOnce-run (asks_for {t} now id work_id fresh x message key read r) =
      accept-AskedOnce mac hash now id work_id fresh x message key read t (AskedOnce-run r)
  AskedOnce-run (gets {t} now row res r) =
      apply-AskedOnce state_bytes reply_value now row res t (AskedOnce-run r)

  -- Whatever questions come and results are applied, and however old the requests that a question's
  -- query saw, a surface has at most one request under each idempotency key, and each request has
  -- exactly one work: the works' request ids are the requests' ids, and their ids are the ones that
  -- the requests name, in the same order.
  pub asked_once :
      {surfaces : List (Surface V)} {t : Tables V} (id : ℕ) (k : Text)
      → Asking mac hash state_bytes reply_value surfaces t
      → (asked id k t.requests ≤ 1)
        × (map (λ w. w.request_id) t.works ≡ map (λ r. r.id) t.requests)
        × (map (λ w. w.id) t.works ≡ map (λ r. r.work_id) t.requests)
  asked_once id k r = let h = AskedOnce-run r in (h.single id k, h.by_request, h.by_work)
