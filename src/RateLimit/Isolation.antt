-- ===== src/RateLimit/Isolation.antt =====
-- What one request leaves alone, and the numbers in its headers.
use starlite.Prelude.{
  ℕ, suc, ◌+◌, ◌≡◌, Bool, false, none, some, length, arith, ◌==◌, list_Eq, nat_Eq,
}
use starlite.Prelude.Dict.{lookup, lookup-insert}
use starlite.Prelude.Text.{Text}
use starlite.Store.{MemoryStore, set}
use starlite.Store.Contents.{lookup-get}
use starlite.RateLimit.{
  CacheObject, Request, RateLimitConfig, Readings, Outcome, forwarded, rejected,
  cache_key_from_request, retrieve_cached_history, set_cached_history, handle,
  create_response_headers,
}

module _ {Data : Type 0} (encode : CacheObject → Data) (decode : Data → CacheObject)
    (is_filled : Data → Bool) (config : RateLimitConfig) (request : Request) (clock : Readings)
    (store : MemoryStore Data) where
  lookup-retrieve :
      (key other : Text)
      → (key == other) ≡ false
      → lookup other (retrieve_cached_history encode decode is_filled config clock key store).1
        ≡ lookup other store
  unfolding retrieve_cached_history
  lookup-retrieve key other ne = rw (lookup-get clock.getting key other none store) (rw ne)

  lookup-set_cached :
      (key other : Text) (cached : CacheObject) (s : MemoryStore Data)
      → (key == other) ≡ false
      → lookup other (set_cached_history encode decode is_filled config clock key cached s).1
        ≡ lookup other s
  unfolding set_cached_history set
  lookup-set_cached key other cached s ne = rw (lookup-insert other key _ s) (rw ne)

  -- A request changes the store at no key but its own, whether it is let through or not.
  pub lookup-handle :
      (other : Text)
      → (cache_key_from_request request == other) ≡ false
      → lookup other (handle encode decode is_filled config request clock store).1
        ≡ lookup other store
  unfolding handle
  lookup-handle other ne = ground (
    arith,
    lookup-retrieve (cache_key_from_request request) other ne,
    lookup-set_cached (cache_key_from_request request) other
        (retrieve_cached_history encode decode is_filled config clock
          (cache_key_from_request request) store).0
        (retrieve_cached_history encode decode is_filled config clock
          (cache_key_from_request request) store).1
        ne,
  )

  -- The number of remaining requests in the headers: none where the request is rejected, and
  -- where it is let through, what the maximum leaves besides the history and itself.
  abbrev pub HasRemaining : Outcome → ℕ → Type 0
  HasRemaining (rejected none) used = Unit
  HasRemaining (rejected (some headers)) used = headers.remaining ≡ 0
  HasRemaining (forwarded none) used = Unit
  HasRemaining (forwarded (some headers)) used = headers.remaining + suc used ≡ config.max_requests

  pub handle-HasRemaining :
      HasRemaining (handle encode decode is_filled config request clock store).0 (
        length
          (retrieve_cached_history encode decode is_filled config clock
            (cache_key_from_request request)
            store).0.history)
  unfolding handle set_cached_history create_response_headers
  handle-HasRemaining = ground arith
