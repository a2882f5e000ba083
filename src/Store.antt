-- ===== src/Store.antt =====
-- stores/memory.py and `StorageObject` of stores/base.py. Times are microseconds, each reading of
-- the clock is an argument, and `expires_in` and `renew_for` are not negative. Every operation
-- holds the lock of the store while it reads and writes, so it is one step.
pub mod Contents
mod Tests
use Prim.Native.Nat.{◌/◌}
use starlite.Prelude.{
  ℕ, zero, suc, ◌+◌, ◌-◌, Bool, true, false, ◌&&◌, Option, none, some, [], ◌∷◌, leb, if◌then◌else◌,
  list_Eq, nat_Eq,
}
use starlite.Prelude.Dict.{Dict, lookup, insert, erase, has_key}
use starlite.Prelude.Text.{Text}

abbrev pub second : ℕ
second = 1000000

-- Integers: `negsuc n` is -(n + 1).
pub data ℤ : Type 0 where
  pos : ℕ → ℤ
  negsuc : ℕ → ℤ

pub record StorageObject (Data : Type 0) : Type 0 where
  pub expires_at : Option ℕ
  pub payload : Data

-- A duration that is true: neither `None` nor zero.
abbrev pub nonzero : Option ℕ → Option ℕ
nonzero none = none
nonzero (some zero) = none
nonzero (some (suc n)) = some (suc n)

abbrev pub deadline : ℕ → Option ℕ → Option ℕ
deadline now none = none
deadline now (some duration) = some (now + duration)

abbrev pub reached : ℕ → Option ℕ → Bool
reached now none = false
reached now (some time) = leb time now

-- minus `n`
abbrev pub negated : ℕ → ℤ
negated zero = pos 0
negated (suc n) = negsuc n

-- `int` of a difference of times, which rounds towards zero
unfoldable pub seconds_until : ℕ → ℕ → ℤ
seconds_until now time =
    if leb now time then pos ((time - now) / second) else negated ((now - time) / second)

module _ {Data : Type 0} where
  -- `StorageObject.new`
  unfoldable pub new_object : ℕ → Data → Option ℕ → StorageObject Data
  new_object now payload expires_in = record {
    expires_at = deadline now (nonzero expires_in);
    payload = payload;
  }

  unfoldable pub expired : ℕ → StorageObject Data → Bool
  expired now object = reached now object.expires_at

  -- the property `StorageObject.expires_in`
  unfoldable pub expires_in_seconds : ℕ → StorageObject Data → ℤ
  unfolding seconds_until
  expires_in_seconds now object = elim object.expires_at [
    | none ↦ negsuc 0
    | some time ↦ seconds_until now time
  ]

abbrev pub MemoryStore : Type 0 → Type 0
MemoryStore Data = Dict Text (StorageObject Data)

module _ {Data : Type 0} where
  unfoldable pub set : ℕ → Text → Data → Option ℕ → MemoryStore Data → MemoryStore Data
  unfolding new_object
  set now key value expires_in store = insert key (new_object now value expires_in) store

  -- the branch of `get` for an object that is not expired: it is renewed if it can expire
  abbrev pub renewed :
      ℕ → Text → Option ℕ → StorageObject Data → MemoryStore Data → MemoryStore Data
  renewed now key none object store = store
  renewed now key (some duration) object store = elim object.expires_at [
    | none ↦ store
    | some _ ↦ set now key object.payload (some duration) store
  ]

  abbrev pub get_found :
      ℕ
      → Text
      → Option ℕ
      → MemoryStore Data
      → Option (StorageObject Data)
      → Option Data × MemoryStore Data
  get_found now key renew_for store none = (none, store)
  get_found now key renew_for store (some object) =
      if expired now object
      then (none, erase key store)
      else (some object.payload, renewed now key (nonzero renew_for) object store)

  unfoldable pub get : ℕ → Text → Option ℕ → MemoryStore Data → Option Data × MemoryStore Data
  unfolding expired set
  get now key renew_for store = get_found now key renew_for store (lookup key store)

  unfoldable pub delete : Text → MemoryStore Data → MemoryStore Data
  delete key store = erase key store

  unfoldable pub delete_all : MemoryStore Data → MemoryStore Data
  delete_all store = []

  -- the loop of `delete_expired`, where the clock reads `clock i` at the item `i`
  unfoldable pub delete_expired : (ℕ → ℕ) → ℕ → MemoryStore Data → MemoryStore Data
  unfolding expired
  delete_expired clock i [] = []
  delete_expired clock i ((key, object) ∷ rest) =
      let kept = delete_expired clock (suc i) rest in
      if expired (clock i) object then kept else (key, object) ∷ kept

  unfoldable pub exists : Text → MemoryStore Data → Bool
  exists key store = has_key key store

  unfoldable pub expires_in : ℕ → Text → MemoryStore Data → Option ℤ
  unfolding expires_in_seconds
  expires_in now key store = elim (lookup key store) [
    | none ↦ none
    | some object ↦ some (expires_in_seconds now object)
  ]
