-- ===== src/Dependencies.antt =====
-- _kwargs/dependencies.py: the batches in which the dependencies of a route handler are resolved.
-- A dependency is equal to every other of its key, so a dict or a set of dependencies is one of
-- keys. The providers are not part of the batches and left out.
pub mod Mapping
pub mod Removing
pub mod Batches
pub mod Schedule
pub mod Graph
pub mod Occurring
pub mod Resolving
mod Tests
use starlite.Prelude.{
  ℕ, zero, suc, Bool, true, false, Option, none, some, List, [], ◌∷◌, ◌++◌, is_nil, contains,
  discard, keep, if◌then◌else◌, list_Eq, nat_Eq, ◌==◌,
}
use starlite.Prelude.Dict.{Dict, insert, erase, has_key, keys}
use starlite.Prelude.Text.{Text}

mutual
  pub data Dependency : Type 0 where
    depends : Text → Dependencies → Dependency

  pub data Dependencies : Type 0 where
    nil : Dependencies
    cons : Dependency → Dependencies → Dependencies

abbrev pub key_of : Dependency → Text
key_of (depends key dependencies) = key

-- `set(dependency.dependencies)`, which holds a key once, as a list of keys
abbrev pub keys_of : Dependencies → List Text
keys_of nil = []
keys_of (cons dependency rest) = key_of dependency ∷ keys_of rest

-- the dict `dependencies_to`: what each dependency still waits for
abbrev pub Waiting : Type 0
Waiting = Dict Text (List Text)

unfoldable mutual
  pub map_dependencies_recursively : Dependency → Waiting → Waiting
  map_dependencies_recursively (depends key dependencies) waiting =
      map_all dependencies (insert key (keys_of dependencies) waiting)

  -- the loop over dependencies, of this function and of `create_dependency_batches`
  pub map_all : Dependencies → Waiting → Waiting
  map_all nil waiting = waiting
  map_all (cons dependency rest) waiting =
      let mapped = map_dependencies_recursively dependency waiting in
      map_all rest (if has_key (key_of dependency) waiting then waiting else mapped)

-- the dependencies that wait for no other
abbrev pub current_batch : Waiting → List Text
current_batch [] = []
current_batch ((key, remaining) ∷ waiting) =
    let rest = current_batch waiting in if is_nil remaining then key ∷ rest else rest

abbrev pub discard_from : Text → Waiting → Waiting
discard_from key [] = []
discard_from key ((other, remaining) ∷ waiting) =
    (other, discard key remaining) ∷ discard_from key waiting

-- the loop over the current batch
unfoldable pub remove_batch : List Text → Waiting → Waiting
remove_batch [] waiting = waiting
remove_batch (key ∷ batch) waiting = remove_batch batch (discard_from key (erase key waiting))

-- the `while` loop, on fuel, where `none` means that the fuel ran out
unfoldable pub batches_of : ℕ → Waiting → Option (List (List Text))
unfolding remove_batch
batches_of fuel [] = some []
batches_of zero (entry ∷ waiting) = none
batches_of (suc fuel) (entry ∷ waiting) =
    let batch = current_batch (entry ∷ waiting) in
    elim (batches_of fuel (remove_batch batch (entry ∷ waiting))) [
      | none ↦ none
      | some batches ↦ some (batch ∷ batches)
    ]

unfoldable pub create_dependency_batches : ℕ → Dependencies → Option (List (List Text))
unfolding map_all batches_of
create_dependency_batches fuel expected = batches_of fuel (map_all expected [])
