-- ===== src/ServerSession/Visits.antt =====
-- What a client finds in its session when it comes back.
use starlite.Prelude.{
  ℕ, ◌≡◌, ◌≢◌, refl, ap, ◌∙◌, false, ◌||◌, Option, none, some, List, [], ◌∷◌, Result, ok, is_nil,
  if◌then◌else◌, ◌==◌, nat_Eq, list_Eq, arith,
}
use starlite.Prelude.Text.{Text}
use starlite.Store
use starlite.Store.{MemoryStore, nonzero, deadline, reached}
use starlite.Store.Contents.{contents, get-contents}
use starlite.ServerSession.{
  Config, Connection, ScopeSession, empty, present, SessionCookie, Serializer, null_value, duration,
  get_session_id, get, store_in_message, decoded, load_from_connection, answered, handle,
}
use starlite.ServerSession.Keeping.{
  NotOf, get_session_id-is_nil, contents-store_under_self, contents-store_under_empty,
  contents-handle,
}

-- A request, with what its application does.
pub record Visit (Session : Type 0) : Type 0 where
  pub now : ℕ
  pub later : ℕ
  pub generated : Text
  pub generated' : Text
  pub app : Session → ScopeSession Session
  pub connection : Connection

-- A request of somebody else: neither its connection nor what it generates is the id.
abbrev pub Stranger : {Session : Type 0} → Text → Visit Session → Type 0
Stranger id visit = (visit.generated ≢ id) × (visit.generated' ≢ id) × NotOf id visit.connection

abbrev pub AllStrangers : {Session : Type 0} → Text → List (Visit Session) → Type 0
AllStrangers id [] = Unit
AllStrangers id (visit ∷ visits) = Stranger id visit × AllStrangers id visits

-- A client that sends a cookie.
abbrev pub with_cookie : Text → Connection
with_cookie id = record { cookie = some id; session_id = none }

module _ {Session Bytes : Type 0} (serializer : Serializer Session Bytes) (config : Config) where
  abbrev pub visited :
      Visit Session → MemoryStore Bytes → Result (Session × SessionCookie) × MemoryStore Bytes
  visited visit store =
      handle serializer config visit.now visit.later visit.generated visit.generated' visit.app
        visit.connection store

  abbrev pub visit_all : List (Visit Session) → MemoryStore Bytes → MemoryStore Bytes
  visit_all [] store = store
  visit_all (visit ∷ visits) store = visit_all visits (visited visit store).1

  -- The session that the contents of an id stand for.
  abbrev session_in : Option Bytes → Result Session
  session_in none = ok serializer.empty_dict
  session_in (some bytes) = serializer.deserialize_data bytes

  decoded-session_in :
      (found : Option Bytes × MemoryStore Bytes)
      → (decoded serializer config found).0 ≡ session_in found.0
  decoded-session_in (none, store) = refl
  decoded-session_in (some bytes, store) = refl

  load-contents :
      (now : ℕ) (id : Text) (store : MemoryStore Bytes)
      → is_nil id ≡ false
      → (load_from_connection serializer config now (with_cookie id) store).0
        ≡ session_in (contents now store id)
  unfolding load_from_connection get
  load-contents now id store full =
      let renew_for = if config.renew_on_access then duration config.max_age else none in
      rw
        (
          full,
          decoded-session_in (Store.get now id renew_for store),
          (get-contents now now id id renew_for store).0,
        )
        refl

  contents-visit_all :
      (time : ℕ) (id : Text) (visits : List (Visit Session)) (store : MemoryStore Bytes)
      → AllStrangers id visits
      → contents time (visit_all visits store) id ≡ contents time store id
  contents-visit_all time id [] store strangers = refl
  contents-visit_all time id (v ∷ visits) store ((fresh, fresh', other), strangers) =
      contents-visit_all time id visits (visited v store).1 strangers
      ∙ contents-handle serializer config v.now v.later time v.generated v.generated' id v.app
          v.connection store fresh fresh' other

  answered-present :
      (later time : ℕ) (generated generated' : Text) (app : Session → ScopeSession Session)
      (connection : Connection) (loaded : Result Session × MemoryStore Bytes) (seen s : Session)
      (cookie : SessionCookie)
      → is_nil generated' ≡ false
      → (answered serializer config later generated generated' app connection loaded).0
        ≡ ok (seen, cookie)
      → app seen ≡ present s
      → reached time (deadline later (nonzero (duration config.max_age))) ≡ false
      → (is_nil cookie.value ≡ false)
        × (contents time
              (answered serializer config later generated generated' app connection loaded).1
              cookie.value
            ≡ some (serializer.serialize_data s))
  unfolding answered store_in_message
  answered-present later time g g' app connection (Result.raise e, store) seen s cookie full h left
        fresh =
      cc
  answered-present later time g g' app connection (ok t, store) seen s cookie full h left fresh =
      let same : t ≡ seen = cc in
      let e : app t ≡ present s = ap app same ∙ left in
      let h' = rw e at h in
      let sid =
        get_session_id g' (record connection { session_id = some (get_session_id g connection) }) in
      let c : record { value = sid; expires_now = false } ≡ cookie = cc in
      rw (← c, e)
        (
          get_session_id-is_nil g'
              (record connection { session_id = some (get_session_id g connection) }) full,
          contents-store_under_self serializer config later time sid s store fresh,
        )

  answered-empty :
      (later time : ℕ) (generated generated' id : Text) (app : Session → ScopeSession Session)
      (connection : Connection) (loaded : Result Session × MemoryStore Bytes) (seen : Session)
      (cookie : SessionCookie)
      → connection.cookie ≡ some id
      → is_nil id || id == null_value ≡ false
      → (answered serializer config later generated generated' app connection loaded).0
        ≡ ok (seen, cookie)
      → app seen ≡ empty
      → contents time
          (answered serializer config later generated generated' app connection loaded).1
          id
        ≡ none
  unfolding answered store_in_message get_session_id
  answered-empty later time g g' id app connection (Result.raise e, store) seen cookie had usable h
        left =
      cc
  answered-empty later time g g' id app connection (ok t, store) seen cookie had usable h left =
      let same : t ≡ seen = cc in
      let e : app t ≡ empty = ap app same ∙ left in
      rw (e, had, usable) (contents-store_under_empty serializer config later time id store)

  -- A client whose request ended with a session in the scope finds that session when it comes back with
  -- the cookie of the response, before the session expires, whatever requests of others, which have and
  -- generate other ids, come in between. The encoding of the session has to have an inverse, and a
  -- generated id is not empty.
  pub load_from_connection-handle :
      (visit : Visit Session) (visits : List (Visit Session)) (again : ℕ) (seen s : Session)
      (cookie : SessionCookie) (store : MemoryStore Bytes)
      → is_nil visit.generated' ≡ false
      → (visited visit store).0 ≡ ok (seen, cookie)
      → visit.app seen ≡ present s
      → AllStrangers cookie.value visits
      → reached again (deadline visit.later (nonzero (duration config.max_age))) ≡ false
      → serializer.deserialize_data (serializer.serialize_data s) ≡ ok s
      → (load_from_connection serializer config again
          (with_cookie cookie.value)
          (visit_all visits (visited visit store).1)).0
        ≡ ok s
  unfolding handle
  load_from_connection-handle v visits again seen s cookie store full h left strangers fresh
        inverse =
      let (there, holds) =
        answered-present v.later again v.generated v.generated' v.app v.connection
          (load_from_connection serializer config v.now v.connection store) seen s cookie full h
          left fresh in
      load-contents again cookie.value (visit_all visits (visited v store).1) there
      ∙ ap session_in
          (contents-visit_all again cookie.value visits (visited v store).1 strangers ∙ holds)
      ∙ inverse

  -- A client whose request ended with `clear_session` finds the empty session when it comes back with
  -- the cookie that it had, whatever requests of others, which have and generate other ids, come in
  -- between. The cookie is neither empty nor the null cookie.
  pub load_from_connection-cleared :
      (visit : Visit Session) (visits : List (Visit Session)) (again : ℕ) (id : Text)
      (seen : Session) (cookie : SessionCookie) (store : MemoryStore Bytes)
      → visit.connection.cookie ≡ some id
      → is_nil id || id == null_value ≡ false
      → (visited visit store).0 ≡ ok (seen, cookie)
      → visit.app seen ≡ empty
      → AllStrangers id visits
      → (load_from_connection serializer config again
          (with_cookie id)
          (visit_all visits (visited visit store).1)).0
        ≡ ok serializer.empty_dict
  unfolding handle
  load_from_connection-cleared v visits again id seen cookie store had usable h left strangers =
      let gone =
        answered-empty v.later again v.generated v.generated' id v.app v.connection
          (load_from_connection serializer config v.now v.connection store) seen cookie had usable h
          left in
      load-contents again id (visit_all visits (visited v store).1) (ground arith)
      ∙ ap session_in (contents-visit_all again id visits (visited v store).1 strangers ∙ gone)
