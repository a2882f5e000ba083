-- ===== src/Store/Tests.antt =====
-- Runs of the store, and the theorems at a concrete store.
use starlite.Prelude.{
  ℕ, zero, suc, ◌≤◌, ◌≡◌, refl, true, none, some, [], ◌∷◌, list_Eq, nat_Eq, arith,
}
use starlite.Prelude.Text.{Text, codes}
use starlite.Store.{MemoryStore, get, expires_in, exists, negsuc}
use starlite.Store.Contents.{contents, get-contents}

abbrev a : Text
a = codes "a"

abbrev b : Text
b = codes "b"

abbrev sample : MemoryStore ℕ
sample =
    (a, record { expires_at = some 500; payload = 1 })
    ∷ (b, record { expires_at = none; payload = 2 })
    ∷ []

get_run : get 499 a (some 100) sample ≡ (
  some 1,
  (a, record { expires_at = some 599; payload = 1 })
      ∷ (b, record { expires_at = none; payload = 2 })
      ∷ [],
)
unfolding get
get_run = refl

get_expired : get 500 a none sample ≡ (none, (b, record { expires_at = none; payload = 2 }) ∷ [])
unfolding get
get_expired = refl

expires_in_run : expires_in 2500501 a sample ≡ some (negsuc 1)
unfolding expires_in
expires_in_run = refl

-- An object that has expired is still reported to exist until it is looked up.
exists_run : exists a sample ≡ true
unfolding exists
exists_run = refl

get-contents_example :
    ((get 499 a (some 100) sample).0 ≡ contents 499 sample a)
    × (contents 700 (get 499 a (some 100) sample).1 b ≡ contents 700 sample b)
get-contents_example = get-contents 499 700 a b (some 100) sample

-- The clock reads 600 at the first item, and 700 from then on.
abbrev clock : ℕ → ℕ
clock zero = 600
clock (suc i) = 700

clock_runs : (i : ℕ) → (600 ≤ clock i) × (clock i ≤ 700)
clock_runs zero = omega arith
clock_runs (suc i) = omega arith
