-- ===== src/ServerSession.antt =====
-- middleware/session/server_side.py with `SessionMiddleware` of middleware/session/base.py, over a
-- memory store: sessions that are kept on the server under the id in a cookie.
pub mod Keeping
pub mod Visits
mod Tests
use starlite.Prelude.{
  ℕ, ◌*◌, Bool, true, false, ◌||◌, Option, none, some, [], ◌∷◌, Result, ok, is_nil, if◌then◌else◌,
  ◌==◌, nat_Eq, list_Eq,
}
use starlite.Prelude.Text.{Text, codes}
use starlite.Store
use starlite.Store.{MemoryStore, second}

-- `max_age` is in seconds.
pub record Config : Type 0 where
  pub max_age : Option ℕ
  pub renew_on_access : Bool

-- What the middleware reads of a connection: the cookie of the session's key, and the id in the
-- state of the connection, where `none` stands for `None` and `Empty`.
pub record Connection : Type 0 where
  pub cookie : Option Text
  pub session_id : Option Text

-- `ScopeSession`: what is in the scope, or `Empty`
pub data ScopeSession (Session : Type 0) : Type 0 where
  empty : ScopeSession Session
  present : Session → ScopeSession Session

-- The cookie that a response sets: a value, and whether it expires at once.
pub record SessionCookie : Type 0 where
  pub value : Text
  pub expires_now : Bool

-- The encoding of sessions as bytes, and its inverse
pub record Serializer (Session Bytes : Type 0) : Type 0 where
  pub serialize_data : Session → Bytes
  pub deserialize_data : Bytes → Result Session
  pub empty_dict : Session

abbrev pub null_value : Text
null_value = codes "null"

abbrev pub duration : Option ℕ → Option ℕ
duration none = none
duration (some seconds) = some (seconds * second)

-- `session_id` where it is true and no null cookie
abbrev pub usable_id : Option Text → Option Text
usable_id none = none
usable_id (some id) = if is_nil id || id == null_value then none else some id

abbrev pub id_or : Text → Option Text → Text
id_or default none = default
id_or default (some id) = if is_nil id then default else id

abbrev pub cookie_id_or : Text → Option Text → Text
cookie_id_or default none = default
cookie_id_or default (some id) = id

-- `generated` is what `secrets.token_hex` returns if it is called.
unfoldable pub get_session_id : Text → Connection → Text
get_session_id generated connection =
    cookie_id_or (id_or generated connection.session_id) (usable_id connection.cookie)

module _ {Bytes : Type 0} where
  unfoldable pub get : Config → ℕ → Text → MemoryStore Bytes → Option Bytes × MemoryStore Bytes
  unfolding Store.get
  get config now session_id store =
      Store.get now session_id (if config.renew_on_access then duration config.max_age else none)
        store

  unfoldable pub set : Config → ℕ → Text → Bytes → MemoryStore Bytes → MemoryStore Bytes
  unfolding Store.set
  set config now session_id value store =
      Store.set now session_id value (duration config.max_age) store

  unfoldable pub delete : Text → MemoryStore Bytes → MemoryStore Bytes
  unfolding Store.delete
  delete session_id store = Store.delete session_id store

-- What the application leaves in the scope: the session, or none after `clear_session`, which also
-- empties the id in the state of the connection.
abbrev pub id_after : {Session : Type 0} → Text → ScopeSession Session → Option Text
id_after session_id empty = none
id_after session_id (present session) = some session_id

module _ {Session Bytes : Type 0} (serializer : Serializer Session Bytes) (config : Config) where
  abbrev pub store_under :
      ℕ → Text → ScopeSession Session → MemoryStore Bytes → SessionCookie × MemoryStore Bytes
  unfolding set delete
  store_under now session_id empty store =
      (record { value = null_value; expires_now = true }, delete session_id store)
  store_under now session_id (present session) store = (
    record { value = session_id; expires_now = false },
    set config now session_id (serializer.serialize_data session) store,
  )

  unfoldable pub store_in_message :
      ℕ
      → Text
      → ScopeSession Session
      → Connection
      → MemoryStore Bytes
      → SessionCookie × MemoryStore Bytes
  unfolding store_under get_session_id
  store_in_message now generated scope_session connection store =
      store_under now (get_session_id generated connection) scope_session store

  abbrev pub decoded : Option Bytes × MemoryStore Bytes → Result Session × MemoryStore Bytes
  decoded (none, store) = (ok serializer.empty_dict, store)
  decoded (some bytes, store) = (serializer.deserialize_data bytes, store)

  abbrev pub load_from : ℕ → Option Text → MemoryStore Bytes → Result Session × MemoryStore Bytes
  unfolding get
  load_from now none store = (ok serializer.empty_dict, store)
  load_from now (some session_id) store =
      if is_nil session_id
      then (ok serializer.empty_dict, store)
      else decoded (get config now session_id store)

  unfoldable pub load_from_connection :
      ℕ → Connection → MemoryStore Bytes → Result Session × MemoryStore Bytes
  unfolding load_from
  load_from_connection now connection store = load_from now connection.cookie store

  -- What comes of one request: the session that the application saw and the cookie of the response,
  -- unless the load raised.
  abbrev pub answered :
      ℕ
      → Text
      → Text
      → (Session → ScopeSession Session)
      → Connection
      → Result Session × MemoryStore Bytes
      → Result (Session × SessionCookie) × MemoryStore Bytes
  unfolding store_in_message
  answered later generated generated' app connection (Result.raise e, store) =
      (Result.raise e, store)
  answered later generated generated' app connection (ok session, store) =
      let session_id = get_session_id generated connection in
      let left = app session in
      let (cookie, store') =
        store_in_message later generated' left
          (record connection { session_id = id_after session_id left }) store in
      (ok (session, cookie), store')

  -- `SessionMiddleware.__call__` around an application that starts one response, at the time `later`
  unfoldable pub handle :
      ℕ
      → ℕ
      → Text
      → Text
      → (Session → ScopeSession Session)
      → Connection
      → MemoryStore Bytes
      → Result (Session × SessionCookie) × MemoryStore Bytes
  unfolding answered load_from_connection
  handle now later generated generated' app connection store =
      answered later generated generated' app connection (load_from_connection now connection store)
