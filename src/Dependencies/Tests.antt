-- ===== src/Dependencies/Tests.antt =====
-- The batches of three dependencies.
use starlite.Prelude.{
  ℕ, ◌<◌, ◌≡◌, refl, Bool, true, false, some, List, [], ◌∷◌, contains, list_Eq, nat_Eq, ◌==◌,
  if◌then◌else◌, arith, inl, inr, Bool-cases, list_eq_iff,
}
use starlite.Prelude.Text.{Text, codes}
use starlite.Dependencies.{Dependency, Dependencies, depends, nil, cons, create_dependency_batches}
use starlite.Dependencies.Graph.{Graph, FollowAll, IsAcyclic}
use starlite.Dependencies.Resolving.{IsSchedule, create_dependency_batches-IsSchedule}

abbrev db : Text
db = codes "db"

abbrev session : Text
session = codes "session"

abbrev user : Text
user = codes "user"

abbrev db_dependency : Dependency
db_dependency = depends db nil

abbrev session_dependency : Dependency
session_dependency = depends session (cons db_dependency nil)

abbrev expected : Dependencies
expected =
    cons (depends user (cons session_dependency (cons db_dependency nil))) (cons db_dependency nil)

abbrev graph : Graph
graph key = if key == user then session ∷ db ∷ [] else if key == session then db ∷ [] else []

abbrev rank : Text → ℕ
rank key = if key == user then 2 else if key == session then 1 else 0

batches_run :
    create_dependency_batches 3 expected ≡ some ((db ∷ []) ∷ (session ∷ []) ∷ (user ∷ []) ∷ [])
unfolding create_dependency_batches
batches_run = refl

below_session : (sub : Text) → contains sub (db ∷ []) ≡ true → rank sub < 1
below_session sub m = elim (Bool-cases (db == sub)) [
  | inl same ↦ rw (← (list_eq_iff db sub).0 same) (omega arith)
  | inr other ↦ ground arith
]

below_user : (sub : Text) → contains sub (session ∷ db ∷ []) ≡ true → rank sub < 2
below_user sub m = elim (Bool-cases (session == sub)) [
  | inl same ↦ rw (← (list_eq_iff session sub).0 same) (omega arith)
  | inr other ↦ let less = below_session sub (rw other at m) in omega arith
]

graph-IsAcyclic : IsAcyclic rank graph
graph-IsAcyclic key sub m = elim (Bool-cases (key == user)) [
  | inl at_user ↦ rw at_user (below_user sub (rw at_user at m))
  | inr other ↦ rw other (elim (Bool-cases (key == session)) [
    | inl at_session ↦ rw at_session (below_session sub (rw at_session at (rw other at m)))
    | inr neither ↦ let bad : ◌≡◌ {A = Bool} false true = rw neither at (rw other at m) in cc
  ])
]

create_dependency_batches-IsSchedule_example :
    (batches : List (List Text)) × (create_dependency_batches 3 expected ≡ some batches)
    × IsSchedule graph expected batches
unfolding create_dependency_batches FollowAll
create_dependency_batches-IsSchedule_example =
    create_dependency_batches-IsSchedule rank graph expected 3 graph-IsAcyclic
      ((refl, ((refl, ((refl, tt), tt)), ((refl, tt), tt))), ((refl, tt), tt)) (omega arith)
