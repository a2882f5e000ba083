-- ===== src/RateLimit.antt =====
-- middleware/rate_limit.py over a memory store. A request is what the middleware reads of it, the
-- encoding of the cached object is a parameter, and each reading of the clock, in microseconds, is
-- an argument. Header values stand as numbers; `await` lets no other request in between.
pub mod Window
pub mod Bound
pub mod Limit
pub mod Isolation
mod Tests
use Prim.Native.Nat.{◌/◌}
use starlite.Prelude.{
  ℕ, ◌+◌, ◌-◌, ◌*◌, Bool, Option, none, some, List, [], ◌∷◌, ◌++◌, ◌&&◌, length, is_nil, leb,
  if◌then◌else◌,
}
use starlite.Prelude.Text.{Text, codes}
use starlite.Store.{ℤ, pos, negated, MemoryStore, get, set}
use starlite.Store

-- `DURATION_VALUES`
pub data DurationUnit : Type 0 where
  second minute hour day : DurationUnit

abbrev pub duration_values : DurationUnit → ℕ
duration_values second = 1
duration_values minute = 60
duration_values hour = 3600
duration_values day = 86400

pub record CacheObject : Type 0 where
  pub history : List ℕ
  pub reset : ℕ

-- The client's host, the headers `X-Forwarded-For` and `X-Real-IP`, and two attributes of the
-- route handler.
pub record Request : Type 0 where
  pub client_host : Option Text
  pub forwarded_for : Option Text
  pub real_ip : Option Text
  pub is_mount : Bool
  pub is_static : Bool

pub record RateLimitConfig : Type 0 where
  pub unit : DurationUnit
  pub max_requests : ℕ
  pub set_rate_limit_headers : Bool
  pub check_throttle_handler : Option (Request → Bool)

-- `value or other`, for a text that may be `None`
abbrev or_else : Option Text → Text → Text
or_else none other = other
or_else (some []) other = other
or_else (some (c ∷ cs)) other = c ∷ cs

abbrev host_of : Option Text → Text
host_of none = codes "anonymous"
host_of (some host) = host

unfoldable pub cache_key_from_request : Request → Text
cache_key_from_request request =
    let identifier =
      or_else request.forwarded_for (or_else request.real_ip (host_of request.client_host)) in
    codes "RateLimitMiddleware::"
    ++ identifier
    ++ (if request.is_mount then codes "::mount" else [])
    ++ (if request.is_static then codes "::static" else [])

unfoldable pub should_check_request : RateLimitConfig → Request → Bool
should_check_request config request = elim config.check_throttle_handler [
  | none ↦ Bool.true
  | some handler ↦ handler request
]

-- `while history and history[-1] <= now - duration: history.pop()`
unfoldable pub drop_old : ℕ → ℕ → List ℕ → List ℕ
drop_old now duration [] = []
drop_old now duration (time ∷ times) =
    let rest = drop_old now duration times in
    if is_nil rest && leb (time + duration) now then [] else time ∷ rest

abbrev pub fresh : ℕ → ℕ → CacheObject
fresh now duration = record { history = []; reset = now + duration }

-- What the middleware adds to the response: the numbers of the four headers.
pub record RateLimitHeaders : Type 0 where
  pub policy_requests : ℕ
  pub policy_window : ℕ
  pub limit : ℕ
  pub remaining : ℕ
  pub reset_in : ℤ

abbrev difference : ℕ → ℕ → ℤ
difference a b = if leb b a then pos (a - b) else negated (b - a)

unfoldable pub create_response_headers : RateLimitConfig → ℕ → CacheObject → RateLimitHeaders
create_response_headers config time cached = record {
  policy_requests = config.max_requests;
  policy_window = duration_values config.unit;
  limit = config.max_requests;
  remaining =
      if leb (length cached.history) config.max_requests
      then config.max_requests - length cached.history
      else 0;
  reset_in = difference cached.reset (time / Store.second);
}

-- The readings of the clock during one request: in `retrieve_cached_history`, in the store's
-- `get`, in `set_cached_history`, in the store's `set`, and for the headers.
pub record Readings : Type 0 where
  pub retrieving : ℕ
  pub getting : ℕ
  pub extending : ℕ
  pub setting : ℕ
  pub answering : ℕ

-- The request goes on to the application, or is answered by 429; either with headers or without.
pub data Outcome : Type 0 where
  forwarded rejected : Option RateLimitHeaders → Outcome

module _ {Data : Type 0} (encode : CacheObject → Data) (decode : Data → CacheObject)
    (is_filled : Data → Bool) where
  abbrev pub from_cached : ℕ → ℕ → Option Data → CacheObject
  from_cached now duration none = fresh now duration
  from_cached now duration (some cached) =
      let object = decode cached in
      if is_filled cached
      then (if leb object.reset now
          then fresh now duration
          else record object { history = drop_old now duration object.history })
      else fresh now duration

  unfoldable pub retrieve_cached_history :
      RateLimitConfig → Readings → Text → MemoryStore Data → CacheObject × MemoryStore Data
  unfolding drop_old
  retrieve_cached_history config clock key store =
      let (cached, store') = get clock.getting key none store in
      (from_cached (clock.retrieving / Store.second) (duration_values config.unit) cached, store')

  unfoldable pub set_cached_history :
      RateLimitConfig
      → Readings
      → Text
      → CacheObject
      → MemoryStore Data
      → CacheObject × MemoryStore Data
  set_cached_history config clock key cached store =
      let extended = record cached {
        history = (clock.extending / Store.second) ∷ cached.history;
      } in
      (
        extended,
        set clock.setting key (encode extended) (some (duration_values config.unit * Store.second))
            store,
      )

  abbrev pub headers_if : RateLimitConfig → Readings → CacheObject → Option RateLimitHeaders
  headers_if config clock cached =
      if config.set_rate_limit_headers
      then some (create_response_headers config clock.answering cached)
      else none

  -- `__call__`
  unfoldable pub handle :
      RateLimitConfig → Request → Readings → MemoryStore Data → Outcome × MemoryStore Data
  unfolding cache_key_from_request should_check_request retrieve_cached_history set_cached_history
      create_response_headers
  handle config request clock store =
      let key = cache_key_from_request request in
      let (cached, store') = retrieve_cached_history config clock key store in
      let (extended, store'') = set_cached_history config clock key cached store' in
      if should_check_request config request
      then (if leb config.max_requests (length cached.history)
          then (rejected (headers_if config clock cached), store')
          else (forwarded (headers_if config clock extended), store''))
      else (forwarded none, store)
