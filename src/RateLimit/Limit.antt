-- ===== src/RateLimit/Limit.antt =====
-- The middleware decides as the fixed window does, over any requests of one client.
use Prim.Native.Nat.{◌/◌}
use starlite.Prelude.{
  ℕ, zero, suc, ◌+◌, ◌*◌, ◌≤◌, ◌<◌, ◌≡◌, refl, ap, ◌∙◌, Bool, true, false, Option, none, some, List,
  [], ◌∷◌, length, leb, ltb, arith, Bool-cases, inl, inr, if◌then◌else◌, list_Eq, nat_Eq, beq_refl,
}
use starlite.Prelude.Dict.{lookup, lookup-insert}
use starlite.Prelude.Text.{Text}
use starlite.Store
use starlite.Store.{StorageObject, MemoryStore, get, set, nonzero, new_object}
use starlite.Store.Contents.{lookup-get, get-contents}
use starlite.RateLimit.{
  CacheObject, Request, RateLimitConfig, Outcome, forwarded, rejected, duration_values,
  cache_key_from_request, should_check_request, from_cached, retrieve_cached_history,
  set_cached_history, handle, headers_if,
}
use starlite.RateLimit.Bound.{limiter, passed, IsOrdered, passed-limiter}
use starlite.RateLimit.Window.{
  Span, current_span, limit_step, at_once, is_forwarded, Agrees, Agrees-touched, current_span_start,
  current_span_within, from_cached-Agrees, duration_values_pos,
}

nonzero_pos : (n : ℕ) → 0 < n → nonzero (some n) ≡ some n
nonzero_pos zero h = absurd (omega arith)
nonzero_pos (suc n) h = refl

-- Requests that are all checked, with one key, at times in order.
abbrev pub IsRun : RateLimitConfig → Text → ℕ → List (Request × ℕ) → Type 0
IsRun config key last [] = Unit
IsRun config key last ((request, now) ∷ requests) =
    ((last ≤ now)
      × (should_check_request config request ≡ true)
      × (cache_key_from_request request ≡ key))
    × IsRun config key now requests

abbrev pub seconds : List (Request × ℕ) → List ℕ
seconds [] = []
seconds ((request, now) ∷ requests) = (now / Store.second) ∷ seconds requests

module _ {Data : Type 0} (encode : CacheObject → Data) (decode : Data → CacheObject)
    (is_filled : Data → Bool) (round_trip : (c : CacheObject) → decode (encode c) ≡ c)
    (filled : (c : CacheObject) → is_filled (encode c) ≡ true) (config : RateLimitConfig) where
  abbrev duration : ℕ
  duration = duration_values config.unit

  module _ (request : Request) (store : MemoryStore Data) (state : Option Span) (last now : ℕ)
      (ordered : last ≤ now) (checked : should_check_request config request ≡ true)
      (agrees : Agrees encode decode is_filled duration last
        (lookup (cache_key_from_request request) store)
        state) where
    abbrev request_key : Text
    request_key = cache_key_from_request request

    abbrev span : Span
    span = current_span duration (now / Store.second) state

    abbrev after_get : MemoryStore Data
    after_get = (get now request_key none store).1

    abbrev stored : CacheObject
    stored = record { history = span.times; reset = span.start + duration }

    abbrev extended : CacheObject
    extended = record { history = (now / Store.second) ∷ span.times; reset = span.start + duration }

    retrieved :
        retrieve_cached_history encode decode is_filled config (at_once now) request_key store
        ≡ (stored, after_get)
    unfolding retrieve_cached_history
    retrieved =
        ap
          (λ (value : Option Data).
            (from_cached encode decode is_filled (now / Store.second) duration value, after_get))
          (get-contents now now request_key request_key none store).0
        ∙ ap (λ (c : CacheObject). (c, after_get))
            (from_cached-Agrees encode decode is_filled duration last now ordered round_trip filled
              (lookup request_key store) state agrees)

    handled : handle encode decode is_filled config request (at_once now) store ≡ (
        if leb config.max_requests (length span.times)
        then (rejected (headers_if encode decode is_filled config (at_once now) stored), after_get)
        else (
          forwarded (headers_if encode decode is_filled config (at_once now) extended),
          set now request_key (encode extended) (some (duration * Store.second)) after_get,
        ))
    unfolding handle
    handled = rw checked (ap rest retrieved)
      where
        rest : CacheObject × MemoryStore Data → Outcome × MemoryStore Data
        rest (cached, s) =
            if leb config.max_requests (length cached.history)
            then (rejected (headers_if encode decode is_filled config (at_once now) cached), s)
            else (
              forwarded (
                  headers_if encode decode is_filled config (at_once now)
                    (set_cached_history encode decode is_filled config (at_once now) request_key
                      cached s).0),
              (set_cached_history encode decode is_filled config (at_once now) request_key cached
                  s).1,
            )

    Agrees-after_get :
        Agrees encode decode is_filled duration now (lookup request_key after_get) state
    Agrees-after_get = rw (lookup-get now request_key request_key none store) (
        rw (beq_refl request_key) (
          Agrees-touched encode decode is_filled duration last now ordered
            (lookup request_key store) state agrees))

    Agrees-set :
        Agrees encode decode is_filled duration now
          (lookup request_key
            (set now request_key (encode extended) (some (duration * Store.second)) after_get))
          (some (record span { times = (now / Store.second) ∷ span.times }))
    unfolding set
    Agrees-set =
        rw
          (lookup-insert request_key request_key
            (new_object now (encode extended) (some (duration * Store.second))) after_get)
          (rw (beq_refl request_key) (
            unfold new_object in
            record {
              time = now + duration * Store.second;
              expires = rw (
                  nonzero_pos (duration * Store.second)
                    (omega (arith, duration_values_pos config.unit)));
              encoded = refl;
              outlives = omega (arith, started);
              within = (
                omega (arith, started),
                current_span_within encode decode is_filled duration last now ordered
                    (lookup request_key store) state agrees,
              );
              started = started;
            }))
      where
        started : span.start * Store.second ≤ now
        started =
            current_span_start encode decode is_filled duration last now ordered
              (lookup request_key store) state agrees

    -- One request: the middleware lets it through exactly if the window does, and afterwards the
    -- store stands for the state of the window.
    handle-Agrees :
        (is_forwarded (handle encode decode is_filled config request (at_once now) store).0
          ≡ (limit_step config.max_requests duration (now / Store.second) state).0)
        × Agrees encode decode is_filled duration now
            (lookup request_key
              (handle encode decode is_filled config request (at_once now) store).1)
            (limit_step config.max_requests duration (now / Store.second) state).1
    handle-Agrees = elim (Bool-cases (leb config.max_requests (length span.times))) [
      | inl full ↦
          let shut : ltb (length span.times) config.max_requests ≡ false = ground arith in
          rw handled (rw (full, shut) (refl, Agrees-after_get))
      | inr room ↦
          let free : ltb (length span.times) config.max_requests ≡ true = ground arith in
          rw handled (rw (room, free) (refl, Agrees-set))
    ]

  -- The decisions on requests of one client, each with the time at which it is handled.
  pub decisions : List (Request × ℕ) → MemoryStore Data → List Bool
  decisions [] store = []
  decisions ((request, now) ∷ requests) store =
      let (outcome, store') = handle encode decode is_filled config request (at_once now) store in
      is_forwarded outcome ∷ decisions requests store'

  decisions-Agrees :
      (requests : List (Request × ℕ)) (key : Text) (last : ℕ) (store : MemoryStore Data)
      (state : Option Span)
      → IsRun config key last requests
      → Agrees encode decode is_filled duration last (lookup key store) state
      → decisions requests store ≡ limiter config.max_requests duration (seconds requests) state
  unfolding decisions limiter
  decisions-Agrees [] key last store state r a = refl
  decisions-Agrees ((request, now) ∷ requests) key last store state ((order, checked, same), r) a =
      let (decided, kept) = handle-Agrees request store state last now order checked (rw same a) in
      λ i. decided i ∷ decisions-Agrees requests key now _ _ r (rw same at kept) i

  -- Where the encoding round-trips, each request reads the clock once, and the requests of one
  -- client come in order to a store with nothing under its key, the middleware lets through exactly
  -- the requests that a fixed window lets through.
  pub decisions-limiter :
      (requests : List (Request × ℕ)) (key : Text) (store : MemoryStore Data)
      → IsRun config key 0 requests
      → lookup key store ≡ none
      → decisions requests store ≡ limiter config.max_requests duration (seconds requests) none
  decisions-limiter requests key store r fresh =
      decisions-Agrees requests key 0 store none r (rw fresh refl)

  IsOrdered-seconds :
      (requests : List (Request × ℕ)) (key : Text) (last : ℕ)
      → IsRun config key last requests
      → IsOrdered (last / Store.second) (seconds requests)
  IsOrdered-seconds [] key last r = tt
  IsOrdered-seconds ((request, now) ∷ requests) key last ((order, _, _), r) =
      (omega arith, IsOrdered-seconds requests key now r)

  -- Where the encoding round-trips, each request reads the clock once, and the requests of one
  -- client come in order to a store with nothing under its key: in any period as long as the unit
  -- of the limit, at most twice the maximum number of the client's requests are let through.
  pub passed-decisions :
      (requests : List (Request × ℕ)) (key : Text) (store : MemoryStore Data) (from : ℕ)
      → IsRun config key 0 requests
      → lookup key store ≡ none
      → passed from (from + duration) (seconds requests) (decisions requests store)
        ≤ 2 * config.max_requests
  passed-decisions requests key store from r fresh =
      rw (decisions-limiter requests key store r fresh) (
        passed-limiter config.max_requests duration from 0 (seconds requests)
          (IsOrdered-seconds requests key 0 r))
