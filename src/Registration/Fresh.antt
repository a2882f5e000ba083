-- ===== src/Registration/Fresh.antt =====
-- Registering an HTTP handler on a path that has no route yet.
use starlite.Prelude.{
  ℕ, ◌≡◌, refl, inl, inr, false, Option, none, some, List, ◌∷◌, ◌==◌, nat_Eq, list_Eq, Bool-cases,
}
use starlite.Prelude.Dict.{Dict}
use starlite.Prelude.Text.{Text}
use starlite.Registration.{Route, path_of, find_index, suc_or_none}

-- No route of the path.
pub find_index_cons :
    (path : Text) (route : Route) (routes : List Route)
    → find_index path (route ∷ routes) ≡ none
    → ((path_of route == path) ≡ false) × (find_index path routes ≡ none)
unfolding find_index
find_index_cons path route routes h = elim (Bool-cases (path_of route == path)) [
  | inl same ↦ let h' = rw same at h in cc
  | inr other ↦ (other, no_suc (find_index path routes) (rw other at h))
]
  where
    no_suc : (i : Option ℕ) → suc_or_none i ≡ none → i ≡ none
    no_suc none h = refl
    no_suc (some i) h = cc
