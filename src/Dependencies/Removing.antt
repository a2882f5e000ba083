-- ===== src/Dependencies/Removing.antt =====
-- What one round of the loop of `create_dependency_batches` takes from the dict, and what it leaves.
use starlite.Prelude.{
  Distinct, suc, ◌≤◌, ◌<◌, ◌≡◌, refl, ap, true, false, Option, none, some, List, [], ◌∷◌, contains,
  discard, contains-discard, if◌then◌else◌, ◌||◌, list_Eq, nat_Eq, ◌==◌, arith, Bool-cases, inl,
  inr, list_eq_iff, beq_refl, length, is_nil,
}
use starlite.Prelude.Dict.{
  lookup, erase, has_key, lookup-erase, has_key-erase, NodupKeys, erase-NodupKeys,
}
use starlite.Prelude.Text.{Text}
use starlite.Dependencies.{Waiting, current_batch, discard_from, remove_batch}

abbrev pub discard_all : List Text → List Text → List Text
discard_all [] remaining = remaining
discard_all (key ∷ batch) remaining = discard_all batch (discard key remaining)

abbrev pub reduced : List Text → Option (List Text) → Option (List Text)
reduced batch none = none
reduced batch (some remaining) = some (discard_all batch remaining)

pub contains-discard_all :
    (sub : Text) (batch remaining : List Text)
    → contains sub (discard_all batch remaining)
      ≡ (if contains sub batch then false else contains sub remaining)
contains-discard_all sub [] remaining = refl
contains-discard_all sub (key ∷ batch) remaining = ground (
  arith,
  contains-discard_all sub batch (discard key remaining),
  contains-discard sub key remaining,
)

lookup-discard_from :
    (k key : Text) (waiting : Waiting)
    → lookup k (discard_from key waiting) ≡ reduced (key ∷ []) (lookup k waiting)
lookup-discard_from k key [] = refl
lookup-discard_from k key ((other, remaining) ∷ waiting) = elim (Bool-cases (other == k)) [
  | inl same ↦ rw same
  | inr differs ↦ rw differs (lookup-discard_from k key waiting)
]

reduced-reduced :
    (key : Text) (batch : List Text) (o : Option (List Text))
    → reduced batch (reduced (key ∷ []) o) ≡ reduced (key ∷ batch) o
reduced-reduced key batch none = refl
reduced-reduced key batch (some remaining) = refl

pub lookup-remove_batch :
    (k : Text) (batch : List Text) (waiting : Waiting)
    → lookup k (remove_batch batch waiting)
      ≡ (if contains k batch then none else reduced batch (lookup k waiting))
unfolding remove_batch
lookup-remove_batch k [] waiting = go (lookup k waiting)
  where
    go : (o : Option (List Text)) → o ≡ reduced [] o
    go none = refl
    go (some remaining) = refl
lookup-remove_batch k (key ∷ batch) waiting =
    rw (lookup-remove_batch k batch (discard_from key (erase key waiting))) (
      rw (lookup-discard_from k key (erase key waiting)) (
        rw (reduced-reduced key batch (lookup k (erase key waiting))) (
          rw (lookup-erase k key waiting) (elim (Bool-cases (key == k)) [
            | inl same ↦
                rw same (elim (Bool-cases (contains k batch)) [ inl m ↦ rw m | inr m ↦ rw m ])
            | inr differs ↦ rw differs
          ]))))

has_key-discard_from :
    (k key : Text) (waiting : Waiting) → has_key k (discard_from key waiting) ≡ has_key k waiting
has_key-discard_from k key [] = refl
has_key-discard_from k key ((other, remaining) ∷ waiting) =
    ap (λ b. other == k || b) (has_key-discard_from k key waiting)

pub has_key-remove_batch :
    (k : Text) (batch : List Text) (waiting : Waiting)
    → has_key k (remove_batch batch waiting)
      ≡ (if contains k batch then false else has_key k waiting)
unfolding remove_batch
has_key-remove_batch k [] waiting = refl
has_key-remove_batch k (key ∷ batch) waiting = ground (
  arith,
  has_key-remove_batch k batch (discard_from key (erase key waiting)),
  has_key-discard_from k key (erase key waiting),
  has_key-erase k key waiting,
)

discard_from-NodupKeys :
    (key : Text) (waiting : Waiting) → NodupKeys waiting → NodupKeys (discard_from key waiting)
discard_from-NodupKeys key [] h = tt
discard_from-NodupKeys key ((other, remaining) ∷ waiting) (fresh, h) =
    (rw (has_key-discard_from other key waiting) fresh, discard_from-NodupKeys key waiting h)

pub remove_batch-NodupKeys :
    (batch : List Text) (waiting : Waiting)
    → NodupKeys waiting
    → NodupKeys (remove_batch batch waiting)
unfolding remove_batch
remove_batch-NodupKeys [] waiting h = h
remove_batch-NodupKeys (key ∷ batch) waiting h =
    remove_batch-NodupKeys batch _
      (discard_from-NodupKeys key (erase key waiting) (erase-NodupKeys key waiting h))

length-discard_from :
    (key : Text) (waiting : Waiting) → length (discard_from key waiting) ≡ length waiting
length-discard_from key [] = refl
length-discard_from key (entry ∷ waiting) = ap suc (length-discard_from key waiting)

length-erase : (key : Text) (waiting : Waiting) → length (erase key waiting) ≤ length waiting
length-erase key [] = omega arith
length-erase key ((other, remaining) ∷ waiting) = ground (arith, length-erase key waiting)

length-erase_lt :
    (key : Text) (waiting : Waiting)
    → has_key key waiting ≡ true
    → length (erase key waiting) < length waiting
length-erase_lt key [] h = cc
length-erase_lt key ((other, remaining) ∷ waiting) h =
    ground (arith, length-erase key waiting, length-erase_lt key waiting)

length-remove_batch :
    (batch : List Text) (waiting : Waiting) → length (remove_batch batch waiting) ≤ length waiting
unfolding remove_batch
length-remove_batch [] waiting = omega arith
length-remove_batch (key ∷ batch) waiting = omega (
  arith,
  length-remove_batch batch (discard_from key (erase key waiting)),
  length-discard_from key (erase key waiting),
  length-erase key waiting,
)

-- A round that takes something leaves less.
pub length-remove_batch_lt :
    (batch : List Text) (waiting : Waiting)
    → is_nil batch ≡ false
    → ((key : Text) → contains key batch ≡ true → has_key key waiting ≡ true)
    → length (remove_batch batch waiting) < length waiting
unfolding remove_batch
length-remove_batch_lt [] waiting some_key known = cc
length-remove_batch_lt (key ∷ batch) waiting some_key known =
    let first : has_key key waiting ≡ true = known key (rw (beq_refl key)) in
    omega (
      arith,
      length-remove_batch batch (discard_from key (erase key waiting)),
      length-discard_from key (erase key waiting),
      length-erase_lt key waiting first,
    )

pub current_batch-has_key :
    (key : Text) (waiting : Waiting)
    → contains key (current_batch waiting) ≡ true
    → has_key key waiting ≡ true
current_batch-has_key key [] h = cc
current_batch-has_key key ((other, remaining) ∷ waiting) h =
    ground (arith, current_batch-has_key key waiting)

-- The current batch has just the dependencies that wait for nothing.
pub current_batch_ready :
    (key : Text) (waiting : Waiting)
    → NodupKeys waiting
    → contains key (current_batch waiting) ≡ true
    → lookup key waiting ≡ some []
current_batch_ready key [] nodup h = cc
current_batch_ready key ((other, []) ∷ waiting) (fresh, nodup) h =
    ground (arith, current_batch_ready key waiting nodup)
current_batch_ready key ((other, sub ∷ remaining) ∷ waiting) (fresh, nodup) h =
    elim (Bool-cases (other == key)) [
      | inl same ↦
          let e : other ≡ key = (list_eq_iff other key).0 same in
          let known : has_key other waiting ≡ true = rw e (current_batch-has_key key waiting h) in
          ground arith
      | inr differs ↦ rw differs (current_batch_ready key waiting nodup h)
    ]

pub ready-current_batch :
    (key : Text) (waiting : Waiting)
    → lookup key waiting ≡ some []
    → contains key (current_batch waiting) ≡ true
ready-current_batch key [] h = cc
ready-current_batch key ((other, []) ∷ waiting) h = ground (arith, ready-current_batch key waiting)
ready-current_batch key ((other, sub ∷ remaining) ∷ waiting) h = elim (Bool-cases (other == key)) [
  | inl same ↦ ground arith
  | inr differs ↦ ready-current_batch key waiting (rw differs at h)
]

pub current_batch-Distinct :
    (waiting : Waiting) → NodupKeys waiting → Distinct (current_batch waiting)
current_batch-Distinct [] nodup = tt
current_batch-Distinct ((other, []) ∷ waiting) (fresh, nodup) = (
  elim (Bool-cases (contains other (current_batch waiting))) [
    | inl m ↦ let known = current_batch-has_key other waiting m in ground arith
    | inr m ↦ m
  ],
  current_batch-Distinct waiting nodup,
)
current_batch-Distinct ((other, sub ∷ remaining) ∷ waiting) (fresh, nodup) =
    current_batch-Distinct waiting nodup
