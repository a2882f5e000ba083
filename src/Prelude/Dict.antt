-- ===== src/Prelude/Dict.antt =====
-- Python's `dict` as an association list in insertion order. `lookup` finds the first entry of a
-- key, and `insert` writes it in place, so a dict built by these holds each key once.
use mathlib.Core.Path.{◌≡◌, refl}
use mathlib.Core.Bool.{Bool, true, false, ◌||◌}
use mathlib.Core.Option.{Option, none, some}
use mathlib.Core.List.{List, [], ◌∷◌, ◌++◌}
use native.Mathlib.Omega.{arith}
use starlite.Prelude.Tests.{Eq, ◌==◌, if◌then◌else◌}
use starlite.Prelude.Lists.{contains}

abbrev pub Dict {ℓ κ} : Type ℓ → Type κ → Type (ℓ ⊔ κ)
Dict K V = List (K × V)

module _ {ℓ κ} {K : Type ℓ} {V : Type κ} where
  -- `d.keys()`
  abbrev pub keys : Dict K V → List K
  keys [] = []
  keys ((k, v) ∷ d) = k ∷ keys d

  -- `d.values()`
  abbrev pub values : Dict K V → List V
  values [] = []
  values ((k, v) ∷ d) = v ∷ values d

module _ {ℓ κ} {K : Type ℓ} {V : Type κ} ⦃e : Eq K⦄ where
  -- `d.get(k)`
  abbrev pub lookup : K → Dict K V → Option V
  lookup k [] = none
  lookup k ((j, v) ∷ d) = if j == k then some v else lookup k d

  -- `d[k] = v`
  abbrev pub insert : K → V → Dict K V → Dict K V
  insert k v [] = (k, v) ∷ []
  insert k v ((j, w) ∷ d) = if j == k then (k, v) ∷ d else (j, w) ∷ insert k v d

  -- `d.pop(k, None)`
  abbrev pub erase : K → Dict K V → Dict K V
  erase k [] = []
  erase k ((j, w) ∷ d) = let rest = erase k d in if j == k then rest else (j, w) ∷ rest

  -- `k in d`
  abbrev pub has_key : K → Dict K V → Bool
  has_key k [] = false
  has_key k ((j, v) ∷ d) = j == k || has_key k d

  pub lookup-insert :
      (j k : K) (v : V) (d : Dict K V)
      → lookup j (insert k v d) ≡ (if k == j then some v else lookup j d)
  lookup-insert j k v [] = refl
  lookup-insert j k v ((i, w) ∷ d) =
      ground (arith, lookup-insert j k v d, e.beq_iff i k, e.beq_iff i j, e.beq_iff k j)

  pub lookup-erase :
      (j k : K) (d : Dict K V) → lookup j (erase k d) ≡ (if k == j then none else lookup j d)
  lookup-erase j k [] = ground arith
  lookup-erase j k ((i, w) ∷ d) =
      ground (arith, lookup-erase j k d, e.beq_iff i k, e.beq_iff i j, e.beq_iff k j)

  pub contains-keys : (k : K) (d : Dict K V) → contains k (keys d) ≡ has_key k d
  contains-keys k [] = refl
  contains-keys k ((j, v) ∷ d) = ground (arith, contains-keys k d)

  pub has_key-true : (k : K) (d : Dict K V) → has_key k d ≡ true → (v : V) × (lookup k d ≡ some v)
  has_key-true k [] h = cc
  has_key-true k ((j, v) ∷ d) h =
      elim (j == k)
          as (λ b.
            (b || has_key k d ≡ true) → (w : V) × ((if b then some v else lookup k d) ≡ some w)) [
              | true ↦ λ _. (v, refl)
              | false ↦ λ q. has_key-true k d q
            ]
        h

  pub has_key-false : (k : K) (d : Dict K V) → has_key k d ≡ false → lookup k d ≡ none
  has_key-false k [] h = refl
  has_key-false k ((j, v) ∷ d) h = ground (arith, has_key-false k d)

  -- Every key has one entry.
  abbrev pub NodupKeys : Dict K V → Type 0
  NodupKeys [] = Unit
  NodupKeys ((k, v) ∷ d) = (has_key k d ≡ false) × NodupKeys d

  pub has_key-insert :
      (j k : K) (v : V) (d : Dict K V) → has_key j (insert k v d) ≡ (k == j || has_key j d)
  has_key-insert j k v [] = refl
  has_key-insert j k v ((i, w) ∷ d) =
      ground (arith, has_key-insert j k v d, e.beq_iff i k, e.beq_iff i j, e.beq_iff k j)

  pub insert-NodupKeys : (k : K) (v : V) (d : Dict K V) → NodupKeys d → NodupKeys (insert k v d)
  insert-NodupKeys k v [] h = (refl, tt)
  insert-NodupKeys k v ((j, w) ∷ d) (fresh, h) =
      ground (arith, insert-NodupKeys k v d h, has_key-insert j k v d, e.beq_iff j k, e.beq_iff k j)

  pub insert_fresh :
      (k : K) (v : V) (d : Dict K V) → has_key k d ≡ false → insert k v d ≡ d ++ (k, v) ∷ []
  insert_fresh k v [] h = refl
  insert_fresh k v ((j, w) ∷ d) h = ground (arith, insert_fresh k v d)

  pub has_key-erase :
      (j k : K) (d : Dict K V) → has_key j (erase k d) ≡ (if k == j then false else has_key j d)
  has_key-erase j k [] = ground arith
  has_key-erase j k ((i, w) ∷ d) =
      ground (arith, has_key-erase j k d, e.beq_iff i k, e.beq_iff i j, e.beq_iff k j)

  pub erase-NodupKeys : (k : K) (d : Dict K V) → NodupKeys d → NodupKeys (erase k d)
  erase-NodupKeys k [] h = tt
  erase-NodupKeys k ((j, w) ∷ d) (fresh, h) =
      ground (arith, erase-NodupKeys k d h, has_key-erase j k d)
