-- ===== src/Dependencies/Graph.antt =====
-- The batches of dependencies that are made of one graph, as `KwargsModel` makes them: what a key
-- depends on is the same wherever it occurs.
use starlite.Prelude.{
  ℕ, ◌<◌, ◌≡◌, sym, ap, ◌∙◌, true, inl, inr, some, List, contains, list_Eq, nat_Eq, ◌==◌, arith,
  Bool-cases, list_eq_iff, beq_refl,
}
use starlite.Prelude.Dict.{lookup, insert, has_key, lookup-insert}
use starlite.Prelude.Text.{Text}
use starlite.Dependencies.{
  Dependency, Dependencies, depends, nil, cons, key_of, keys_of, Waiting, map_all,
  map_dependencies_recursively,
}
use starlite.Dependencies.Mapping.{Ranked, Below, AllRanked}

abbrev pub Graph : Type 0
Graph = Text → List Text

unfoldable mutual
  pub Follows : Graph → Dependency → Type 0
  Follows graph (depends key dependencies) =
      (keys_of dependencies ≡ graph key) × FollowAll graph dependencies

  pub FollowAll : Graph → Dependencies → Type 0
  FollowAll graph nil = Unit
  FollowAll graph (cons dependency rest) = Follows graph dependency × FollowAll graph rest

-- The graph is not circular.
abbrev pub IsAcyclic : (Text → ℕ) → Graph → Type 0
IsAcyclic rank graph = (key sub : Text) → contains sub (graph key) ≡ true → rank sub < rank key

mutual
  unfolding Follows Ranked Below

  Follows-Ranked :
      (rank : Text → ℕ) (graph : Graph) (dependency : Dependency)
      → IsAcyclic rank graph
      → Follows graph dependency
      → Ranked rank dependency
  Follows-Ranked rank graph (depends key dependencies) acyclic (same, follow) =
      FollowAll-Below rank graph (rank key) dependencies acyclic follow
        (λ sub m. acyclic key sub (rw (← same) m))

  FollowAll-Below :
      (rank : Text → ℕ) (graph : Graph) (n : ℕ) (dependencies : Dependencies)
      → IsAcyclic rank graph
      → FollowAll graph dependencies
      → ((sub : Text) → contains sub (keys_of dependencies) ≡ true → rank sub < n)
      → Below rank n dependencies
  FollowAll-Below rank graph n nil acyclic follow less = tt
  FollowAll-Below rank graph n (cons dependency rest) acyclic (follows, follow) less = (
    less (key_of dependency) (rw (beq_refl (key_of dependency))),
    Follows-Ranked rank graph dependency acyclic follows,
    FollowAll-Below rank graph n rest acyclic follow (λ sub m. less sub (ground arith)),
  )

pub FollowAll-AllRanked :
    (rank : Text → ℕ) (graph : Graph) (dependencies : Dependencies)
    → IsAcyclic rank graph
    → FollowAll graph dependencies
    → AllRanked rank dependencies
unfolding Follows
FollowAll-AllRanked rank graph nil acyclic follow = tt
FollowAll-AllRanked rank graph (cons dependency rest) acyclic (follows, follow) = (
  Follows-Ranked rank graph dependency acyclic follows,
  FollowAll-AllRanked rank graph rest acyclic follow,
)

-- Each entry holds what its key depends on.
abbrev pub Holds : Graph → Waiting → Type 0
Holds graph waiting =
    (key : Text) (remaining : List Text)
    → lookup key waiting ≡ some remaining
    → remaining ≡ graph key

insert-Holds :
    (graph : Graph) (key : Text) (remaining : List Text) (waiting : Waiting)
    → remaining ≡ graph key
    → Holds graph waiting
    → Holds graph (insert key remaining waiting)
insert-Holds graph key remaining waiting same holds k left h = elim (Bool-cases (key == k)) [
  | inl equal ↦
      let e : key ≡ k = (list_eq_iff key k).0 equal in
      let its : remaining ≡ left = ground (arith, lookup-insert k key remaining waiting) in
      sym its ∙ (same ∙ ap graph e)
  | inr other ↦ holds k left (ground (arith, lookup-insert k key remaining waiting))
]

mutual
  unfolding Follows map_dependencies_recursively

  map-Holds :
      (graph : Graph) (dependency : Dependency) (waiting : Waiting)
      → Follows graph dependency
      → Holds graph waiting
      → Holds graph (map_dependencies_recursively dependency waiting)
  map-Holds graph (depends key dependencies) waiting (same, follow) holds =
      map_all-Holds graph dependencies (insert key (keys_of dependencies) waiting) follow
        (insert-Holds graph key (keys_of dependencies) waiting same holds)

  pub map_all-Holds :
      (graph : Graph) (dependencies : Dependencies) (waiting : Waiting)
      → FollowAll graph dependencies
      → Holds graph waiting
      → Holds graph (map_all dependencies waiting)
  map_all-Holds graph nil waiting follow holds = holds
  map_all-Holds graph (cons dependency rest) waiting (follows, follow) holds =
      map_all-Holds graph rest _ follow (elim (Bool-cases (has_key (key_of dependency) waiting)) [
        | inl known ↦ rw known holds
        | inr new ↦ rw new (map-Holds graph dependency waiting follows holds)
      ])
