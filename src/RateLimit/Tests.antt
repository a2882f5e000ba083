-- ===== src/RateLimit/Tests.antt =====
-- Runs of the middleware, and the theorems for a client that sends three requests.
use starlite.Prelude.{
  ℕ, ◌≤◌, ◌≡◌, refl, Bool, true, false, none, some, List, [], ◌∷◌, list_Eq, nat_Eq, arith, ◌==◌,
}
use starlite.Prelude.Text.{Text, codes}
use starlite.Store.{MemoryStore}
use starlite.RateLimit.{
  CacheObject, Request, RateLimitConfig, minute, handle, cache_key_from_request,
}
use starlite.RateLimit.Bound.{limiter, passed}
use starlite.RateLimit.Limit.{decisions, seconds, IsRun, decisions-limiter, passed-decisions}

abbrev config : RateLimitConfig
config = record {
  unit = minute;
  max_requests = 2;
  set_rate_limit_headers = true;
  check_throttle_handler = none;
}

abbrev client : Request
client = record {
  client_host = some (codes "10.0.0.1");
  forwarded_for = none;
  real_ip = some (codes "10.0.0.9");
  is_mount = false;
  is_static = true;
}

abbrev client_key : Text
client_key = cache_key_from_request client

-- The cached object is stored as it is.
abbrev same : CacheObject → CacheObject
same cached = cached

abbrev always : CacheObject → Bool
always cached = true

abbrev empty : MemoryStore CacheObject
empty = []

abbrev requests : List (Request × ℕ)
requests = (client, 5500000) ∷ (client, 6000000) ∷ (client, 64000000) ∷ (client, 65000000) ∷ []

client_key_run : cache_key_from_request client ≡ codes "RateLimitMiddleware::10.0.0.9::static"
unfolding cache_key_from_request
client_key_run = refl

limiter_run : limiter 2 60 (5 ∷ 6 ∷ 64 ∷ 65 ∷ []) none ≡ true ∷ true ∷ false ∷ true ∷ []
unfolding limiter
limiter_run = refl

are-IsRun : IsRun config client_key 0 requests
unfolding handle
are-IsRun = (
  (omega arith, refl, refl),
  ((omega arith, refl, refl), ((omega arith, refl, refl), ((omega arith, refl, refl), tt))),
)

decisions-limiter_example :
    decisions same same always (λ c. refl) (λ c. refl) config requests empty
    ≡ limiter 2 60 (seconds requests) none
decisions-limiter_example =
    decisions-limiter same same always (λ c. refl) (λ c. refl) config requests client_key empty
      are-IsRun refl

passed-decisions_example :
    passed 6 66
      (seconds requests)
      (decisions same same always (λ c. refl) (λ c. refl) config requests empty)
    ≤ 4
passed-decisions_example =
    passed-decisions same same always (λ c. refl) (λ c. refl) config requests client_key empty 6
      are-IsRun refl

other_key : (cache_key_from_request client == codes "RateLimitMiddleware::anonymous") ≡ false
unfolding cache_key_from_request
other_key = refl
