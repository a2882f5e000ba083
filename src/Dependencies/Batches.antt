-- ===== src/Dependencies/Batches.antt =====
-- The loop of `create_dependency_batches`: that it ends, and in which order its batches stand.
use starlite.Prelude.{
  ℕ, zero, suc, ◌≤◌, ◌≡◌, refl, true, false, inl, inr, some, List, [], ◌∷◌, contains, list_Eq,
  nat_Eq, arith, beq_refl, length, is_nil, Option-cases,
}
use starlite.Prelude.Dict.{lookup, has_key-true}
use starlite.Prelude.Text.{Text}
use starlite.Dependencies.{Waiting, current_batch, remove_batch, batches_of}
use starlite.Dependencies.Mapping.{Supported}
use starlite.Dependencies.Removing.{
  discard_all, contains-discard_all, lookup-remove_batch, has_key-remove_batch,
  length-remove_batch_lt, current_batch-has_key, ready-current_batch,
}

-- All that any dependency waits for is in the dict, and of a lower rank.
abbrev pub IsSupported : (Text → ℕ) → Waiting → Type 0
IsSupported rank waiting =
    (key : Text) (remaining : List Text)
    → lookup key waiting ≡ some remaining
    → Supported rank waiting key remaining

not_nil : (key : Text) (batch : List Text) → contains key batch ≡ true → is_nil batch ≡ false
not_nil key [] h = cc
not_nil key (other ∷ batch) h = refl

current_batch_filled :
    (rank : Text → ℕ) (waiting : Waiting) (n : ℕ) (key : Text) (remaining : List Text)
    → IsSupported rank waiting
    → lookup key waiting ≡ some remaining
    → rank key ≤ n
    → is_nil (current_batch waiting) ≡ false
current_batch_filled rank waiting n key [] supported e h =
    not_nil key (current_batch waiting) (ready-current_batch key waiting e)
current_batch_filled rank waiting zero key (sub ∷ remaining) supported e h =
    let (known, less) = supported key (sub ∷ remaining) e sub (rw (beq_refl sub)) in
    absurd (omega arith)
current_batch_filled rank waiting (suc n) key (sub ∷ remaining) supported e h =
    let (known, less) = supported key (sub ∷ remaining) e sub (rw (beq_refl sub)) in
    let (remaining', e') = has_key-true sub waiting known in
    current_batch_filled rank waiting n sub remaining' supported e' (omega arith)

-- What is left after a round, of what there was before.
pub left_over :
    (batch : List Text) (waiting : Waiting) (key : Text) (remaining : List Text)
    → lookup key (remove_batch batch waiting) ≡ some remaining
    → (before : List Text) × (lookup key waiting ≡ some before)
      × (remaining ≡ discard_all batch before)
left_over batch waiting key remaining h = elim (Option-cases (lookup key waiting)) [
  | inl e ↦ ground (arith, lookup-remove_batch key batch waiting)
  | inr (before, e) ↦ (before, e, ground (arith, lookup-remove_batch key batch waiting))
]

remove_batch-IsSupported :
    (rank : Text → ℕ) (batch : List Text) (waiting : Waiting)
    → IsSupported rank waiting
    → IsSupported rank (remove_batch batch waiting)
remove_batch-IsSupported rank batch waiting supported key remaining h sub m =
    let (before, e, same) = left_over batch waiting key remaining h in
    let m' : contains sub (discard_all batch before) ≡ true = rw (← same) m in
    let there : contains sub before ≡ true =
      ground (arith, contains-discard_all sub batch before) in
    let (known, less) = supported key before e sub there in
    (
      ground (arith, contains-discard_all sub batch before, has_key-remove_batch sub batch waiting),
      less,
    )

-- The rounds of the loop, and the batches that they take.
pub data Rounds : Waiting → List (List Text) → Type 0 where
  ends : Rounds [] []
  round :
      {waiting : Waiting} {batches : List (List Text)}
      → Rounds (remove_batch (current_batch waiting) waiting) batches
      → Rounds waiting (current_batch waiting ∷ batches)

-- The loop ends, with as much fuel as there are dependencies.
pub batches_of-returns :
    (rank : Text → ℕ) (fuel : ℕ) (waiting : Waiting)
    → IsSupported rank waiting
    → length waiting ≤ fuel
    → (batches : List (List Text)) × (batches_of fuel waiting ≡ some batches)
      × Rounds waiting batches
unfolding batches_of
batches_of-returns rank fuel [] supported h = ([], refl, ends)
batches_of-returns rank zero (entry ∷ waiting) supported h = absurd (omega arith)
batches_of-returns rank (suc fuel) ((key, remaining) ∷ waiting) supported h =
    let all = (key, remaining) ∷ waiting in
    let filled =
      current_batch_filled rank all (rank key) key remaining supported (rw (beq_refl key))
        (omega arith) in
    let less =
      length-remove_batch_lt (current_batch all) all filled
        (λ k m. current_batch-has_key k all m) in
    let (batches, e, rounds) =
      batches_of-returns rank fuel (remove_batch (current_batch all) all)
        (remove_batch-IsSupported rank (current_batch all) all supported) (omega arith) in
    (current_batch all ∷ batches, rw (e, batches_of), round rounds)
