-- ===== src/Dependencies/Occurring.antt =====
-- Which dependencies are mapped: the ones that occur.
use starlite.Prelude.{
  ◌≡◌, Bool, true, false, inl, inr, contains, ◌||◌, list_Eq, nat_Eq, ◌==◌, arith, Bool-cases,
  list_eq_iff, beq_refl,
}
use starlite.Prelude.Dict.{insert, has_key, has_key-insert}
use starlite.Prelude.Text.{Text}
use starlite.Dependencies.{
  Dependency, Dependencies, depends, nil, cons, key_of, keys_of, Waiting, map_all,
  map_dependencies_recursively,
}
use starlite.Dependencies.Graph.{Graph, Follows, FollowAll}

-- Whether a key occurs in dependencies, at any depth.
unfoldable mutual
  pub occurs_in : Text → Dependency → Bool
  occurs_in k (depends key dependencies) = key == k || occurs k dependencies

  pub occurs : Text → Dependencies → Bool
  occurs k nil = false
  occurs k (cons dependency rest) = occurs_in k dependency || occurs k rest

-- Nothing is mapped that does not occur.
mutual
  unfolding map_dependencies_recursively occurs_in

  map-occurs :
      (k : Text) (dependency : Dependency) (waiting : Waiting)
      → has_key k (map_dependencies_recursively dependency waiting) ≡ true
      → has_key k waiting || occurs_in k dependency ≡ true
  map-occurs k (depends key dependencies) waiting h =
      let held = map_all-occurs k dependencies (insert key (keys_of dependencies) waiting) h in
      ground (arith, has_key-insert k key (keys_of dependencies) waiting)

  pub map_all-occurs :
      (k : Text) (dependencies : Dependencies) (waiting : Waiting)
      → has_key k (map_all dependencies waiting) ≡ true
      → has_key k waiting || occurs k dependencies ≡ true
  map_all-occurs k nil waiting h = ground arith
  map_all-occurs k (cons dependency rest) waiting h =
      elim (Bool-cases (has_key (key_of dependency) waiting)) [
        | inl known ↦ let held = map_all-occurs k rest waiting (rw known at h) in ground arith
        | inr new ↦
            let held =
              map_all-occurs k rest (map_dependencies_recursively dependency waiting)
                (rw new at h) in
            elim (Bool-cases (has_key k (map_dependencies_recursively dependency waiting))) [
              | inl mapped ↦ let before = map-occurs k dependency waiting mapped in ground arith
              | inr unmapped ↦ ground arith
            ]
      ]

-- All that occurs is mapped where what a mapped key depends on is mapped.
mutual
  unfolding Follows occurs_in

  mapped_in :
      (graph : Graph) (k : Text) (dependency : Dependency) (waiting : Waiting)
      → Follows graph dependency
      → ((key sub : Text)
          → has_key key waiting ≡ true
          → contains sub (graph key) ≡ true
          → has_key sub waiting ≡ true)
      → has_key (key_of dependency) waiting ≡ true
      → occurs_in k dependency ≡ true
      → has_key k waiting ≡ true
  mapped_in graph k (depends key dependencies) waiting (same, follow) closed known h =
      elim (Bool-cases (key == k)) [
        | inl equal ↦ let e : key ≡ k = (list_eq_iff key k).0 equal in rw (← e) known
        | inr other ↦
            mapped_all graph k dependencies waiting follow closed
              (λ sub m. closed key sub known (rw (← same) m)) (ground arith)
      ]

  pub mapped_all :
      (graph : Graph) (k : Text) (dependencies : Dependencies) (waiting : Waiting)
      → FollowAll graph dependencies
      → ((key sub : Text)
          → has_key key waiting ≡ true
          → contains sub (graph key) ≡ true
          → has_key sub waiting ≡ true)
      → ((sub : Text) → contains sub (keys_of dependencies) ≡ true → has_key sub waiting ≡ true)
      → occurs k dependencies ≡ true
      → has_key k waiting ≡ true
  mapped_all graph k nil waiting follow closed known h = cc
  mapped_all graph k (cons dependency rest) waiting (follows, follow) closed known h =
      elim (Bool-cases (occurs_in k dependency)) [
        | inl here ↦
            mapped_in graph k dependency waiting follows closed
              (known (key_of dependency) (rw (beq_refl (key_of dependency)))) here
        | inr elsewhere ↦
            mapped_all graph k rest waiting follow closed (λ sub m. known sub (ground arith))
              (ground arith)
      ]
