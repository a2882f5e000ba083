-- ===== src/Dependencies/Resolving.antt =====
-- The batches of dependencies that are made of one graph, as a schedule of them.
use starlite.Prelude.{
  Distinct, ℕ, ◌≤◌, ◌≡◌, sym, ◌∙◌, true, inl, inr, some, List, [], contains, list_Eq, nat_Eq, arith,
  Bool-cases, length,
}
use starlite.Prelude.Dict.{has_key, has_key-true}
use starlite.Prelude.Text.{Text}
use starlite.Dependencies.{Dependencies, keys_of, map_all, create_dependency_batches}
use starlite.Dependencies.Mapping.{map_all-Maps, map_all-NodupKeys}
use starlite.Dependencies.Batches.{IsSupported, batches_of-returns}
use starlite.Dependencies.Schedule.{
  concat, Ordered, contains-concat, concat-Distinct, Rounds-Ordered,
}
use starlite.Dependencies.Graph.{
  Graph, FollowAll, IsAcyclic, FollowAll-AllRanked, Holds, map_all-Holds,
}
use starlite.Dependencies.Occurring.{occurs, map_all-occurs, mapped_all}

-- All that the dependencies make of the empty dict.
record IsMapped (rank : Text → ℕ) (graph : Graph) (expected : Dependencies) : Type 0 where
  supported : IsSupported rank (map_all expected [])
  holds : Holds graph (map_all expected [])
  known :
      (sub : Text)
      → contains sub (keys_of expected) ≡ true
      → has_key sub (map_all expected []) ≡ true

map_all-IsMapped :
    (rank : Text → ℕ) (graph : Graph) (expected : Dependencies)
    → IsAcyclic rank graph
    → FollowAll graph expected
    → IsMapped rank graph expected
map_all-IsMapped rank graph expected acyclic follow =
    let (maps, known) =
      map_all-Maps rank expected [] (FollowAll-AllRanked rank graph expected acyclic follow) in
    record {
      supported = λ key remaining h. elim (maps.new key remaining h) [ inl e ↦ cc | inr s ↦ s ];
      holds = map_all-Holds graph expected [] follow (λ key remaining h. cc);
      known = known;
    }

has_key-map_all :
    (rank : Text → ℕ) (graph : Graph) (expected : Dependencies) (key : Text)
    → FollowAll graph expected
    → IsMapped rank graph expected
    → has_key key (map_all expected []) ≡ occurs key expected
has_key-map_all rank graph expected key follow mapped = elim (Bool-cases (occurs key expected)) [
  | inl here ↦
      mapped_all graph key expected (map_all expected []) follow closed mapped.known here ∙ sym here
  | inr nowhere ↦ elim (Bool-cases (has_key key (map_all expected []))) [
    | inl known ↦ let found = map_all-occurs key expected [] known in ground arith
    | inr unknown ↦ unknown ∙ sym nowhere
  ]
]
  where
    closed :
        (k sub : Text)
        → has_key k (map_all expected []) ≡ true
        → contains sub (graph k) ≡ true
        → has_key sub (map_all expected []) ≡ true
    closed k sub known m =
        let (remaining, e) = has_key-true k (map_all expected []) known in
        (mapped.supported k remaining e sub (rw (mapped.holds k remaining e) m)).0

-- The batches hold each dependency that occurs once, after the ones it depends on.
pub record IsSchedule (graph : Graph) (expected : Dependencies) (batches : List (List Text))
    : Type 0 where
  pub complete : (key : Text) → contains key (concat batches) ≡ occurs key expected
  pub once : Distinct (concat batches)
  pub ordered : Ordered graph [] batches

-- For dependencies that follow a graph without circles, `create_dependency_batches` ends with as
-- much fuel as there are dependencies, and its batches are a schedule: they hold each dependency
-- that occurs at any depth once, in a batch after those of all that it depends on.
pub create_dependency_batches-IsSchedule :
    (rank : Text → ℕ) (graph : Graph) (expected : Dependencies) (fuel : ℕ)
    → IsAcyclic rank graph
    → FollowAll graph expected
    → length (map_all expected []) ≤ fuel
    → (batches : List (List Text)) × (create_dependency_batches fuel expected ≡ some batches)
      × IsSchedule graph expected batches
unfolding create_dependency_batches
create_dependency_batches-IsSchedule rank graph expected fuel acyclic follow enough =
    let mapped = map_all-IsMapped rank graph expected acyclic follow in
    let nodup = map_all-NodupKeys expected [] tt in
    let (batches, returns, rounds) =
      batches_of-returns rank fuel (map_all expected []) mapped.supported enough in
    (
      batches,
      returns,
      record {
        complete = λ key.
            contains-concat key rounds ∙ has_key-map_all rank graph expected key follow mapped;
        once = concat-Distinct rounds nodup;
        ordered =
            Rounds-Ordered graph [] rounds nodup
              (λ key sub remaining h m. rw (mapped.holds key remaining h) (ground arith));
      },
    )
