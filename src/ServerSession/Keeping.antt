-- ===== src/ServerSession/Keeping.antt =====
-- What a request changes in the store of the sessions.
use starlite.Prelude.{
  ℕ, ◌≡◌, ◌≢◌, refl, sym, ap, ◌∙◌, false, ◌||◌, ◌⊎◌, inl, inr, Option, none, some, Result, ok,
  is_nil, if◌then◌else◌, ◌==◌, nat_Eq, list_Eq, list_eq_iff, Bool-cases, beq_refl, arith,
}
use starlite.Prelude.Text.{Text}
use starlite.Store
use starlite.Store.{MemoryStore, nonzero, deadline, reached}
use starlite.Store.Contents.{contents, contents-set, contents-erase, lookup-get}
use starlite.ServerSession.{
  Config, Connection, ScopeSession, empty, present, Serializer, null_value, duration, usable_id,
  id_or, get_session_id, get, store_under, store_in_message, decoded, load_from,
  load_from_connection, id_after, answered, handle,
}

-- The id is not one of the connection's.
abbrev pub NotOf : Text → Connection → Type 0
NotOf id connection = (connection.cookie ≢ some id) × (connection.session_id ≢ some id)

usable_id-cases :
    (cookie : Option Text)
    → (usable_id cookie ≡ none)
      ⊎ ((id : Text) × (cookie ≡ some id) × (usable_id cookie ≡ some id) × (is_nil id ≡ false))
usable_id-cases none = inl refl
usable_id-cases (some id) = elim (Bool-cases (is_nil id || id == null_value)) [
  | inl e ↦ inl (rw e refl)
  | inr e ↦ inr (id, refl, rw e refl, ground arith)
]

id_or-cases :
    (generated : Text) (state : Option Text)
    → (id_or generated state ≡ generated)
      ⊎ ((id : Text) × (state ≡ some id) × (id_or generated state ≡ id) × (is_nil id ≡ false))
id_or-cases generated none = inl refl
id_or-cases generated (some id) = elim (Bool-cases (is_nil id)) [
  | inl e ↦ inl (rw e refl)
  | inr e ↦ inr (id, refl, rw e refl, e)
]

-- Where the id of a session comes from.
get_session_id-cases :
    (generated : Text) (connection : Connection)
    → (get_session_id generated connection ≡ generated)
      ⊎ ((id : Text) × (get_session_id generated connection ≡ id)
          × (is_nil id ≡ false)
          × ((connection.cookie ≡ some id) ⊎ (connection.session_id ≡ some id)))
unfolding get_session_id
get_session_id-cases generated connection = elim (usable_id-cases connection.cookie) [
  | inl unusable ↦ elim (id_or-cases generated connection.session_id) [
    | inl e ↦ inl (rw unusable e)
    | inr (id, given, e, full) ↦ inr (id, rw unusable e, full, inr given)
  ]
  | inr (id, given, e, full) ↦ inr (id, rw e refl, full, inl given)
]

pub get_session_id-is_nil :
    (generated : Text) (connection : Connection)
    → is_nil generated ≡ false
    → is_nil (get_session_id generated connection) ≡ false
get_session_id-is_nil generated connection h = elim (get_session_id-cases generated connection) [
  | inl e ↦ rw e h
  | inr (id, e, full, _) ↦ rw e full
]

get_session_id-NotOf :
    (generated id : Text) (connection : Connection)
    → generated ≢ id
    → NotOf id connection
    → get_session_id generated connection ≢ id
get_session_id-NotOf generated id connection fresh (other, another) same =
    elim (get_session_id-cases generated connection) [
      | inl e ↦ fresh (sym e ∙ same)
      | inr (found, e, _, inl given) ↦ other (given ∙ ap some (sym e ∙ same))
      | inr (found, e, _, inr given) ↦ another (given ∙ ap some (sym e ∙ same))
    ]

apart : (a b : Text) → a ≢ b → (a == b) ≡ false
apart a b h = elim (Bool-cases (a == b)) [ inl e ↦ absurd (h ((list_eq_iff a b).0 e)) | inr e ↦ e ]

module _ {Session Bytes : Type 0} (serializer : Serializer Session Bytes) (config : Config) where
  decoded-store :
      (found : Option Bytes) (store : MemoryStore Bytes)
      → (decoded serializer config (found, store)).1 ≡ store
  decoded-store none store = refl
  decoded-store (some b) store = refl

  -- Loading changes nothing under another id.
  contents-load_from :
      (now time : ℕ) (id : Text) (cookie : Option Text) (store : MemoryStore Bytes)
      → cookie ≢ some id
      → contents time (load_from serializer config now cookie store).1 id ≡ contents time store id
  unfolding get load_from
  contents-load_from now time id none store h = refl
  contents-load_from now time id (some found) store h = elim (Bool-cases (is_nil found)) [
    | inl e ↦ rw e refl
    | inr e ↦
        let renew_for = if config.renew_on_access then duration config.max_age else none in
        rw
          (
            e,
            decoded-store (Store.get now found renew_for store).0
                (Store.get now found renew_for store).1,
            lookup-get now found id renew_for store,
            apart found id (λ same. h (ap some same)),
          )
          refl
  ]

  -- Storing changes nothing under another id.
  contents-store_under :
      (now time : ℕ) (id session_id : Text) (left : ScopeSession Session)
      (store : MemoryStore Bytes)
      → session_id ≢ id
      → contents time (store_under serializer config now session_id left store).1 id
        ≡ contents time store id
  unfolding store_under
  contents-store_under now time id session_id empty store h =
      contents-erase time session_id id store ∙ rw (apart session_id id h) refl
  contents-store_under now time id session_id (present s) store h =
      contents-set now time session_id id (serializer.serialize_data s) (duration config.max_age)
        store
      ∙ rw (apart session_id id h) refl

  -- What is stored under the id itself.
  pub contents-store_under_self :
      (now time : ℕ) (id : Text) (s : Session) (store : MemoryStore Bytes)
      → reached time (deadline now (nonzero (duration config.max_age))) ≡ false
      → contents time (store_under serializer config now id (present s) store).1 id
        ≡ some (serializer.serialize_data s)
  unfolding store_under
  contents-store_under_self now time id s store h =
      contents-set now time id id (serializer.serialize_data s) (duration config.max_age) store
      ∙ rw (beq_refl id, h) refl

  pub contents-store_under_empty :
      (now time : ℕ) (id : Text) (store : MemoryStore Bytes)
      → contents time (store_under serializer config now id empty store).1 id ≡ none
  unfolding store_under
  contents-store_under_empty now time id store =
      contents-erase time id id store ∙ rw (beq_refl id) refl

  id_after_ne :
      (id session_id : Text) (left : ScopeSession Session)
      → session_id ≢ id
      → id_after session_id left ≢ some id
  id_after_ne id session_id empty h e = cc
  id_after_ne id session_id (present s) h e = h (let f : session_id ≡ id = cc in f)

  contents-answered :
      (later time : ℕ) (generated generated' id : Text) (app : Session → ScopeSession Session)
      (connection : Connection) (loaded : Result Session) (store : MemoryStore Bytes)
      → generated ≢ id
      → generated' ≢ id
      → NotOf id connection
      → contents time
          (answered serializer config later generated generated' app connection (loaded, store)).1
          id
        ≡ contents time store id
  unfolding answered store_in_message
  contents-answered later time g g' id app connection (Result.raise e) store fresh fresh' other =
      refl
  contents-answered later time g g' id app connection (ok s) store fresh fresh' other =
      let sid = get_session_id g connection in
      let first : sid ≢ id = get_session_id-NotOf g id connection fresh other in
      contents-store_under later time id
        (get_session_id g' (record connection { session_id = id_after sid (app s) })) (app s) store
        (get_session_id-NotOf g' id (record connection { session_id = id_after sid (app s) }) fresh'
          (other.0, id_after_ne id sid (app s) first))

  -- A request changes nothing that is stored under an id which is not the connection's and not one of
  -- those that are generated during the request, at whatever time it is looked at, and also if the
  -- load raises.
  pub contents-handle :
      (now later time : ℕ) (generated generated' id : Text) (app : Session → ScopeSession Session)
      (connection : Connection) (store : MemoryStore Bytes)
      → generated ≢ id
      → generated' ≢ id
      → NotOf id connection
      → contents time
          (handle serializer config now later generated generated' app connection store).1
          id
        ≡ contents time store id
  unfolding handle load_from_connection
  contents-handle now later time g g' id app connection store fresh fresh' other =
      let loaded = load_from serializer config now connection.cookie store in
      contents-answered later time g g' id app connection loaded.0 loaded.1 fresh fresh' other
      ∙ contents-load_from now time id connection.cookie store other.0
