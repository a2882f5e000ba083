-- ===== src/Store/Contents.antt =====
-- What a memory store holds at a time, and the operations as changes of that.
use starlite.Prelude.{
  ℕ, zero, suc, ◌+◌, ◌≤◌, ◌≡◌, refl, true, false, Option, none, some, [], ◌∷◌, arith, ◌==◌,
  if◌then◌else◌, list_Eq, nat_Eq, list_eq_iff, Bool-cases, Option-cases, inl, inr, All,
}
use starlite.Prelude.Dict.{
  lookup, erase, has_key, has_key-false, lookup-insert, lookup-erase, NodupKeys, insert-NodupKeys,
  erase-NodupKeys,
}
use starlite.Prelude.Text.{Text}
use starlite.Store.{
  StorageObject, MemoryStore, nonzero, deadline, reached, expired, new_object, set, get, delete,
  delete_all, delete_expired, renewed,
}

-- The deadline that a key has after a `get`.
abbrev pub renewed_deadline : ℕ → Option ℕ → Option ℕ → Option ℕ
renewed_deadline now none time = time
renewed_deadline now (some duration) none = none
renewed_deadline now (some duration) (some time) = some (now + duration)

reached_later :
    (now later : ℕ) (time : Option ℕ)
    → now ≤ later
    → reached now time ≡ true
    → reached later time ≡ true
reached_later now later none h e = cc
reached_later now later (some time) h e = ground arith

module _ {Data : Type 0} where
  -- The value of an object that has not expired.
  abbrev pub live : ℕ → Option (StorageObject Data) → Option Data
  live now none = none
  live now (some object) = if reached now object.expires_at then none else some object.payload

  -- The abstract view: what each key holds at the time `now`.
  abbrev pub contents : ℕ → MemoryStore Data → Text → Option Data
  contents now store key = live now (lookup key store)

  -- `get` answers by the contents.
  get-value :
      (now : ℕ) (key : Text) (renew_for : Option ℕ) (store : MemoryStore Data)
      → (get now key renew_for store).0 ≡ contents now store key
  unfolding get
  get-value now key renew_for store = ground arith

  pub contents-set :
      (now later : ℕ) (key other : Text) (value : Data) (expires_in : Option ℕ)
      (store : MemoryStore Data)
      → contents later (set now key value expires_in store) other ≡ (
          if key == other
          then (if reached later (deadline now (nonzero expires_in)) then none else some value)
          else contents later store other)
  unfolding set
  contents-set now later key other value expires_in store =
      ground (arith, lookup-insert other key (new_object now value expires_in) store)

  pub contents-erase :
      (now : ℕ) (key other : Text) (store : MemoryStore Data)
      → contents now (erase key store) other
        ≡ (if key == other then none else contents now store other)
  contents-erase now key other store = ground (arith, lookup-erase other key store)

  -- The object of a key after a `get`.
  abbrev pub touched : ℕ → Option ℕ → Option (StorageObject Data) → Option (StorageObject Data)
  touched now renew_for none = none
  touched now renew_for (some object) =
      if reached now object.expires_at
      then none
      else some (record object { expires_at = renewed_deadline now renew_for object.expires_at })

  lookup-renewed :
      (now : ℕ) (key other : Text) (renew_for : Option ℕ) (object : StorageObject Data)
      (store : MemoryStore Data)
      → lookup key store ≡ some object
      → lookup other (renewed now key (nonzero renew_for) object store) ≡ (
          if key == other
          then some (record object {
            expires_at = renewed_deadline now (nonzero renew_for) object.expires_at;
          })
          else lookup other store)
  unfolding set
  lookup-renewed now key other none object store h = ground (arith, list_eq_iff key other)
  lookup-renewed now key other (some zero) object store h = ground (arith, list_eq_iff key other)
  lookup-renewed now key other (some (suc n)) object store h = ground (
    arith,
    list_eq_iff key other,
    lookup-insert other key (new_object now object.payload (some (suc n))) store,
  )

  pub lookup-get :
      (now : ℕ) (key other : Text) (renew_for : Option ℕ) (store : MemoryStore Data)
      → lookup other (get now key renew_for store).1 ≡ (
          if key == other
          then touched now (nonzero renew_for) (lookup key store)
          else lookup other store)
  unfolding get
  lookup-get now key other renew_for store = elim (Option-cases (lookup key store)) [
    | inl e ↦ rw e (ground (arith, list_eq_iff key other))
    | inr (object, e) ↦ rw e (elim (Bool-cases (reached now object.expires_at)) [
      | inl gone ↦ rw gone (lookup-erase other key store)
      | inr there ↦ rw there (lookup-renewed now key other renew_for object store e)
    ])
  ]

  -- `get` answers by what the store holds at the time, and at any time afterwards changes only its
  -- own key: an expired object is removed, and the deadline of a live one that can expire is
  -- renewed if `renew_for` is not zero.
  pub get-contents :
      (now later : ℕ) (key other : Text) (renew_for : Option ℕ) (store : MemoryStore Data)
      → ((get now key renew_for store).0 ≡ contents now store key)
        × (contents later (get now key renew_for store).1 other ≡ (
            if key == other
            then live later (touched now (nonzero renew_for) (lookup key store))
            else contents later store other))
  get-contents now later key other renew_for store = (
    get-value now key renew_for store,
    rw (lookup-get now key other renew_for store) (ground arith),
  )

  -- Deleting expired objects removes no key that is not there.
  has_key-delete_expired :
      (clock : ℕ → ℕ) (i : ℕ) (key : Text) (store : MemoryStore Data)
      → has_key key store ≡ false
      → has_key key (delete_expired clock i store) ≡ false
  unfolding delete_expired
  has_key-delete_expired clock i key [] h = refl
  has_key-delete_expired clock i key ((k, object) ∷ store) h =
      ground (arith, has_key-delete_expired clock (suc i) key store)

  -- A step of the loop that removes an object, and one that keeps it.
  module _ (clock : ℕ → ℕ) (later : ℕ) (past : (i : ℕ) → clock i ≤ later) where
    -- Deleting the expired objects changes what no key holds, at any time after the loop.
    contents-delete_expired :
        (i : ℕ) (key : Text) (store : MemoryStore Data)
        → NodupKeys store
        → contents later (delete_expired clock i store) key ≡ contents later store key
    unfolding delete_expired expired
    contents-delete_expired i key [] h = refl
    contents-delete_expired i key ((k, object) ∷ store) (fresh, h) = ground (
      arith,
      contents-delete_expired (suc i) key store h,
      reached_later (clock i) later object.expires_at (past i),
      has_key-delete_expired clock (suc i) key store,
      has_key-false key (delete_expired clock (suc i) store),
      list_eq_iff k key,
    )

    All-delete_expired :
        (start i : ℕ) (store : MemoryStore Data)
        → ((j : ℕ) → start ≤ clock j)
        → All (λ entry. reached start entry.1.expires_at ≡ false) (delete_expired clock i store)
    unfolding delete_expired expired
    All-delete_expired start i [] h = tt
    All-delete_expired start i ((k, object) ∷ store) h =
        elim (Bool-cases (reached (clock i) object.expires_at)) [
          | inl gone ↦ rw gone (All-delete_expired start (suc i) store h)
          | inr there ↦ rw there (
            ground (arith, reached_later start (clock i) object.expires_at (h i)),
            All-delete_expired start (suc i) store h,
          )
        ]

  -- In a store that holds each key once, `delete_expired` changes what no key holds at any time
  -- after the loop, and leaves no object that had expired before it, while the clock goes on.
  pub delete_expired_lem :
      (clock : ℕ → ℕ) (start later : ℕ) (key : Text) (store : MemoryStore Data)
      → NodupKeys store
      → ((i : ℕ) → (start ≤ clock i) × (clock i ≤ later))
      → (contents later (delete_expired clock 0 store) key ≡ contents later store key)
        × All (λ entry. reached start entry.1.expires_at ≡ false) (delete_expired clock 0 store)
  delete_expired_lem clock start later key store h runs = (
    contents-delete_expired clock later (λ i. (runs i).1) 0 key store h,
    All-delete_expired clock later (λ i. (runs i).1) start 0 store (λ i. (runs i).0),
  )

-- The operations that change a store.
pub data Operation (Data : Type 0) : Type 0 where
  setting : (now : ℕ) (key : Text) (value : Data) (expires_in : Option ℕ) → Operation Data
  getting : (now : ℕ) (key : Text) (renew_for : Option ℕ) → Operation Data
  deleting : (key : Text) → Operation Data
  clearing : Operation Data
  sweeping : (clock : ℕ → ℕ) → Operation Data

module _ {Data : Type 0} where
  abbrev pub perform : Operation Data → MemoryStore Data → MemoryStore Data
  perform (setting now key value expires_in) store = set now key value expires_in store
  perform (getting now key renew_for) store = (get now key renew_for store).1
  perform (deleting key) store = delete key store
  perform clearing store = delete_all store
  perform (sweeping clock) store = delete_expired clock 0 store

  renewed-NodupKeys :
      (now : ℕ) (key : Text) (renew_for : Option ℕ) (object : StorageObject Data)
      (store : MemoryStore Data)
      → NodupKeys store
      → NodupKeys (renewed now key renew_for object store)
  unfolding set
  renewed-NodupKeys now key none object store h = h
  renewed-NodupKeys now key (some n) object store h =
      ground (arith, insert-NodupKeys key (new_object now object.payload (some n)) store h)

  get-NodupKeys :
      (now : ℕ) (key : Text) (renew_for : Option ℕ) (store : MemoryStore Data)
      → NodupKeys store
      → NodupKeys (get now key renew_for store).1
  unfolding get
  get-NodupKeys now key renew_for store h = elim (Option-cases (lookup key store)) [
    | inl e ↦ rw e h
    | inr (object, e) ↦ rw e (elim (Bool-cases (reached now object.expires_at)) [
      | inl gone ↦ rw gone (erase-NodupKeys key store h)
      | inr there ↦ rw there (renewed-NodupKeys now key (nonzero renew_for) object store h)
    ])
  ]

  delete_expired-NodupKeys :
      (clock : ℕ → ℕ) (i : ℕ) (store : MemoryStore Data)
      → NodupKeys store
      → NodupKeys (delete_expired clock i store)
  unfolding delete_expired
  delete_expired-NodupKeys clock i [] h = tt
  delete_expired-NodupKeys clock i ((k, object) ∷ store) (fresh, h) = ground (
    arith,
    delete_expired-NodupKeys clock (suc i) store h,
    has_key-delete_expired clock (suc i) k store fresh,
  )

  -- Every operation keeps each key of a store once.
  pub perform-NodupKeys :
      (operation : Operation Data) (store : MemoryStore Data)
      → NodupKeys store
      → NodupKeys (perform operation store)
  perform-NodupKeys (setting now key value expires_in) store h =
      unfold set in insert-NodupKeys key (new_object now value expires_in) store h
  perform-NodupKeys (getting now key renew_for) store h = get-NodupKeys now key renew_for store h
  perform-NodupKeys (deleting key) store h = unfold delete in erase-NodupKeys key store h
  perform-NodupKeys clearing store h = unfold delete_all in tt
  perform-NodupKeys (sweeping clock) store h = delete_expired-NodupKeys clock 0 store h
