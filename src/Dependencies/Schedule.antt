-- ===== src/Dependencies/Schedule.antt =====
-- The batches of the dependencies of a route handler as a schedule of them.
use starlite.Prelude.{
  Distinct, ◌≡◌, refl, true, false, some, List, [], ◌∷◌, ◌++◌, contains, contains-append, ◌||◌,
  list_Eq, nat_Eq, arith, beq_refl,
}
use starlite.Prelude.Dict.{lookup, has_key, NodupKeys}
use starlite.Prelude.Text.{Text}
use starlite.Dependencies.{Waiting, current_batch, remove_batch}
use starlite.Dependencies.Removing.{
  contains-discard_all, has_key-remove_batch, remove_batch-NodupKeys, current_batch-has_key,
  current_batch_ready, current_batch-Distinct,
}
use starlite.Dependencies.Batches.{Rounds, ends, round, left_over}

abbrev pub concat : List (List Text) → List Text
concat [] = []
concat (batch ∷ batches) = batch ++ concat batches

-- Every dependency stands in a batch after the batches of what it depends on by `graph`; `done`
-- are the ones before.
abbrev pub Ordered : (Text → List Text) → List Text → List (List Text) → Type 0
Ordered graph done [] = Unit
Ordered graph done (batch ∷ batches) =
    ((key sub : Text)
      → contains key batch ≡ true
      → contains sub (graph key) ≡ true
      → contains sub done ≡ true)
    × Ordered graph (done ++ batch) batches

pub contains-concat :
    {waiting : Waiting} {batches : List (List Text)} (key : Text)
    → Rounds waiting batches
    → contains key (concat batches) ≡ has_key key waiting
contains-concat key ends = refl
contains-concat key (round {waiting} {batches} rounds) = ground (
  arith,
  contains-append key (current_batch waiting) (concat batches),
  contains-concat key rounds,
  has_key-remove_batch key (current_batch waiting) waiting,
  current_batch-has_key key waiting,
)

append-Distinct :
    (xs ys : List Text)
    → Distinct xs
    → Distinct ys
    → ((key : Text) → contains key xs ≡ true → contains key ys ≡ false)
    → Distinct (xs ++ ys)
append-Distinct [] ys dx dy apart = dy
append-Distinct (x ∷ xs) ys (fresh, dx) dy apart =
    let not_in : contains x ys ≡ false = apart x (rw (beq_refl x)) in
    (
      rw (contains-append x xs ys) (ground arith),
      append-Distinct xs ys dx dy (λ key m. apart key (ground arith)),
    )

pub concat-Distinct :
    {waiting : Waiting} {batches : List (List Text)}
    → Rounds waiting batches
    → NodupKeys waiting
    → Distinct (concat batches)
concat-Distinct ends nodup = tt
concat-Distinct (round {waiting} {batches} rounds) nodup =
    append-Distinct (current_batch waiting) (concat batches) (current_batch-Distinct waiting nodup)
      (concat-Distinct rounds (remove_batch-NodupKeys (current_batch waiting) waiting nodup))
      (λ key m. ground (
        arith,
        contains-concat key rounds,
        has_key-remove_batch key (current_batch waiting) waiting,
      ))

-- Each dependency waits for all it depends on but what is done.
abbrev pub Tracks : (Text → List Text) → List Text → Waiting → Type 0
Tracks graph done waiting =
    (key sub : Text) (remaining : List Text)
    → lookup key waiting ≡ some remaining
    → contains sub (graph key) ≡ true
    → contains sub remaining || contains sub done ≡ true

remove_batch-Tracks :
    (graph : Text → List Text) (done batch : List Text) (waiting : Waiting)
    → Tracks graph done waiting
    → Tracks graph (done ++ batch) (remove_batch batch waiting)
remove_batch-Tracks graph done batch waiting tracks key sub remaining h m =
    let (before, e, same) = left_over batch waiting key remaining h in
    let held = tracks key sub before e m in
    rw same (ground (arith, contains-discard_all sub batch before, contains-append sub done batch))

pub Rounds-Ordered :
    {waiting : Waiting} {batches : List (List Text)} (graph : Text → List Text) (done : List Text)
    → Rounds waiting batches
    → NodupKeys waiting
    → Tracks graph done waiting
    → Ordered graph done batches
Rounds-Ordered graph done ends nodup tracks = tt
Rounds-Ordered graph done (round {waiting} {batches} rounds) nodup tracks = (
  λ key sub m d. tracks key sub [] (current_batch_ready key waiting nodup m) d,
  Rounds-Ordered graph (done ++ current_batch waiting) rounds
      (remove_batch-NodupKeys (current_batch waiting) waiting nodup)
      (remove_batch-Tracks graph done (current_batch waiting) waiting tracks),
)
