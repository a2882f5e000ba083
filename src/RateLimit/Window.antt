-- ===== src/RateLimit/Window.antt =====
-- The rate limit is a fixed window: from the first request on, at most so many are let through in
-- each stretch of the duration. A request reads the clock once here.
use Prim.Native.Nat.{◌/◌}
use starlite.Prelude.{
  ℕ, ◌+◌, ◌*◌, ◌≤◌, ◌<◌, ◌≡◌, refl, Bool, true, false, Option, none, some, List, [], ◌∷◌, length,
  leb, ltb, All, arith, Bool-cases, inl, inr, if◌then◌else◌, list_Eq, nat_Eq,
}
use starlite.Store
use starlite.Store.{StorageObject, MemoryStore, get, set, reached, nonzero, new_object}
use starlite.Store.Contents.{live, touched}
use starlite.RateLimit.{
  CacheObject, Readings, Outcome, forwarded, rejected, duration_values, drop_old, from_cached,
  DurationUnit, second, minute, hour, day,
}

-- A window starts with a request; `times` are those of the requests that it let through, in
-- seconds, the latest first.
pub record Span : Type 0 where
  pub start : ℕ
  pub times : List ℕ

abbrev pub span_is_open : ℕ → ℕ → Option Span → Bool
span_is_open duration now none = false
span_is_open duration now (some span) = ltb now (span.start + duration)

abbrev pub current_span : ℕ → ℕ → Option Span → Span
current_span duration now none = record { start = now; times = [] }
current_span duration now (some span) =
    if ltb now (span.start + duration) then span else record { start = now; times = [] }

-- The specification of one request: it is let through while fewer than the maximum are in the
-- window, and a request after the window starts a new one.
abbrev pub limit_step : ℕ → ℕ → ℕ → Option Span → Bool × Option Span
limit_step max_requests duration now state =
    let span = current_span duration now state in
    if ltb (length span.times) max_requests
    then (true, some (record span { times = now ∷ span.times }))
    else (false, state)

abbrev pub at_once : ℕ → Readings
at_once now = record {
  retrieving = now;
  getting = now;
  extending = now;
  setting = now;
  answering = now;
}

abbrev pub is_forwarded : Outcome → Bool
is_forwarded (forwarded _) = true
is_forwarded (rejected _) = false

drop_old_lem :
    (now duration : ℕ) (times : List ℕ)
    → All (λ time. now < time + duration) times
    → drop_old now duration times ≡ times
unfolding drop_old
drop_old_lem now duration [] h = refl
drop_old_lem now duration (time ∷ times) (p, h) =
    rw (drop_old_lem now duration times h) (ground arith)

pub duration_values_pos : (unit : DurationUnit) → 0 < duration_values unit
duration_values_pos second = omega arith
duration_values_pos minute = omega arith
duration_values_pos hour = omega arith
duration_values_pos day = omega arith

module _ {Data : Type 0} (encode : CacheObject → Data) (decode : Data → CacheObject)
    (is_filled : Data → Bool) where
  -- The stored object of a key stands for the state of the limit, at the time `now` and later.
  pub record Holds (duration now : ℕ) (object : StorageObject Data) (span : Span) : Type 0 where
    pub time : ℕ
    pub expires : object.expires_at ≡ some time
    pub encoded :
        object.payload ≡ encode (record { history = span.times; reset = span.start + duration })
    pub outlives : (span.start + duration) * Store.second ≤ time
    pub within : All (λ t. span.start ≤ t) span.times
    pub started : span.start * Store.second ≤ now

  -- An object may be missing only where the window is over.
  abbrev pub Agrees : ℕ → ℕ → Option (StorageObject Data) → Option Span → Type 0
  Agrees duration now none state = span_is_open duration (now / Store.second) state ≡ false
  Agrees duration now (some object) none = ⊥
  Agrees duration now (some object) (some span) = Holds duration now object span

  module _ (duration last now : ℕ) (ordered : last ≤ now) where
    closed_later :
        (state : Option Span)
        → span_is_open duration (last / Store.second) state ≡ false
        → span_is_open duration (now / Store.second) state ≡ false
    closed_later none h = refl
    closed_later (some span) h = ground arith

    closed_if_reached :
        (object : StorageObject Data) (span : Span)
        → Holds duration last object span
        → reached now object.expires_at ≡ true
        → span_is_open duration (now / Store.second) (some span) ≡ false
    closed_if_reached object span h e =
        let late : reached now (some h.time) ≡ true = rw h.expires at e in
        let past : h.time ≤ now = ground arith in
        let over : (span.start + duration) * 1000000 ≤ now = omega (arith, h.outlives) in
        let done : span.start + duration ≤ now / 1000000 = omega arith in ground arith

    pub Agrees-touched :
        (object : Option (StorageObject Data)) (state : Option Span)
        → Agrees duration last object state
        → Agrees duration now (touched now none object) state
    Agrees-touched none state h = closed_later state h
    Agrees-touched (some object) none h = absurd h
    Agrees-touched (some object) (some span) h = elim (Bool-cases (reached now object.expires_at)) [
      | inl e ↦ rw e (closed_if_reached object span h e)
      | inr e ↦ rw e (record {
        time = h.time;
        expires = h.expires;
        encoded = h.encoded;
        outlives = h.outlives;
        within = h.within;
        started = omega (arith, h.started);
      })
    ]

    -- The window that a request falls in has begun, and holds no time before its start.
    pub current_span_start :
        (object : Option (StorageObject Data)) (state : Option Span)
        → Agrees duration last object state
        → (current_span duration (now / Store.second) state).start * Store.second ≤ now
    current_span_start object none h = omega arith
    current_span_start none (some span) h =
        let closed = closed_later (some span) h in rw closed (omega arith)
    current_span_start (some object) (some span) h =
        elim (Bool-cases (ltb (now / Store.second) (span.start + duration))) [
          | inl e ↦ rw e (omega (arith, h.started))
          | inr e ↦ rw e (omega arith)
        ]

    pub current_span_within :
        (object : Option (StorageObject Data)) (state : Option Span)
        → Agrees duration last object state
        → All
            (λ t. (current_span duration (now / Store.second) state).start ≤ t)
            (current_span duration (now / Store.second) state).times
    current_span_within object none h = tt
    current_span_within none (some span) h = let closed = closed_later (some span) h in rw closed tt
    current_span_within (some object) (some span) h =
        elim (Bool-cases (ltb (now / Store.second) (span.start + duration))) [
          | inl e ↦ rw e h.within
          | inr e ↦ rw e tt
        ]

    module _ (round_trip : (c : CacheObject) → decode (encode c) ≡ c)
        (filled : (c : CacheObject) → is_filled (encode c) ≡ true) where
      abbrev pub cached_of : Span → CacheObject
      cached_of span = record { history = span.times; reset = span.start + duration }

      not_old :
          (start time : ℕ) (times : List ℕ)
          → time < start + duration
          → All (λ t. start ≤ t) times
          → All (λ t. time < t + duration) times
      not_old start time [] h k = tt
      not_old start time (t ∷ times) h (p, k) = (omega arith, not_old start time times h k)

      from_encoded :
          (span : Span)
          → All (λ t. span.start ≤ t) span.times
          → from_cached encode decode is_filled
              (now / Store.second)
              duration
              (some (encode (cached_of span)))
            ≡ cached_of (current_span duration (now / Store.second) (some span))
      from_encoded span within = rw filled (
          rw round_trip (elim (Bool-cases (ltb (now / Store.second) (span.start + duration))) [
            | inl e ↦
                let open_ : leb (span.start + duration) (now / Store.second) ≡ false =
                  ground arith in
                rw (e, open_)
                  (rw (
                    drop_old_lem (now / Store.second) duration span.times
                      (not_old span.start (now / Store.second) span.times (ground arith) within)))
            | inr e ↦
                let over : leb (span.start + duration) (now / Store.second) ≡ true = ground arith in
                rw (e, over)
          ]))

      pub from_cached-Agrees :
          (object : Option (StorageObject Data)) (state : Option Span)
          → Agrees duration last object state
          → from_cached encode decode is_filled (now / Store.second) duration (live now object)
            ≡ cached_of (current_span duration (now / Store.second) state)
      from_cached-Agrees none none h = refl
      from_cached-Agrees none (some span) h = let closed = closed_later (some span) h in rw closed
      from_cached-Agrees (some object) none h = absurd h
      from_cached-Agrees (some object) (some span) h =
          elim (Bool-cases (reached now object.expires_at)) [
            | inl e ↦ let closed = closed_if_reached object span h e in rw e (rw closed)
            | inr e ↦ rw e (rw h.encoded (from_encoded span h.within))
          ]
