-- ===== src/Prelude/Sorting.antt =====
-- Sorting of texts.
use mathlib.Core.Path.{◌≡◌, refl, ap, ◌∙◌}
use mathlib.Core.Logic.{inl, inr}
use mathlib.Core.Bool.{Bool, true, false, ◌||◌}
use mathlib.Core.List.{List, [], ◌∷◌}
use native.Mathlib.Omega.{arith}
use starlite.Prelude.Tests.{
  nat_eq, ltb, if◌then◌else◌, ◌==◌, nat_Eq, list_Eq, list_eq_iff, Bool-cases, beq_refl,
}
use starlite.Prelude.Lists.{contains}
use starlite.Prelude.Text.{Text}

-- The order of strings, and `sorted` by insertion.
abbrev pub text_le : Text → Text → Bool
text_le [] b = true
text_le (x ∷ xs) [] = false
text_le (x ∷ xs) (y ∷ ys) = if nat_eq x y then text_le xs ys else ltb x y

abbrev pub insert_sorted : Text → List Text → List Text
insert_sorted path [] = path ∷ []
insert_sorted path (next ∷ rest) =
    if text_le path next then path ∷ next ∷ rest else next ∷ insert_sorted path rest

abbrev pub sorted : List Text → List Text
sorted [] = []
sorted (path ∷ paths) = insert_sorted path (sorted paths)

pub text_le_refl : (a : Text) → text_le a a ≡ true
text_le_refl [] = refl
text_le_refl (x ∷ xs) = ground (arith, text_le_refl xs)

pub text_le_total : (a b : Text) → text_le a b ≡ false → text_le b a ≡ true
text_le_total [] b h = cc
text_le_total (x ∷ xs) [] h = refl
text_le_total (x ∷ xs) (y ∷ ys) h = ground (arith, text_le_total xs ys)

pub text_le_trans : (a b c : Text) → text_le a b ≡ true → text_le b c ≡ true → text_le a c ≡ true
text_le_trans [] b c h k = refl
text_le_trans (x ∷ xs) [] c h k = cc
text_le_trans (x ∷ xs) (y ∷ ys) [] h k = cc
text_le_trans (x ∷ xs) (y ∷ ys) (z ∷ zs) h k = ground (arith, text_le_trans xs ys zs)

abbrev pub LeastOf : Text → List Text → Type 0
LeastOf path paths = (a : Text) → contains a paths ≡ true → text_le path a ≡ true

abbrev pub Sorted : List Text → Type 0
Sorted [] = Unit
Sorted (path ∷ paths) = LeastOf path paths × Sorted paths

contains-insert_sorted :
    (a path : Text) (paths : List Text)
    → contains a (insert_sorted path paths) ≡ (path == a) || contains a paths
contains-insert_sorted a path [] = refl
contains-insert_sorted a path (next ∷ paths) = ground (arith, contains-insert_sorted a path paths)

pub contains-sorted : (a : Text) (paths : List Text) → contains a (sorted paths) ≡ contains a paths
contains-sorted a [] = refl
contains-sorted a (path ∷ paths) =
    ground (arith, contains-insert_sorted a path (sorted paths), contains-sorted a paths)

insert_sorted-Sorted :
    (path : Text) (paths : List Text) → Sorted paths → Sorted (insert_sorted path paths)
insert_sorted-Sorted path [] h = (λ a m. cc, tt)
insert_sorted-Sorted path (next ∷ paths) (least, h) = elim (Bool-cases (text_le path next)) [
  | inl le ↦ rw le (
    λ a m. elim (Bool-cases (next == a)) [
      | inl same ↦ rw (← (list_eq_iff next a).0 same) le
      | inr other ↦ text_le_trans path next a le (least a (ground arith))
    ],
    (least, h),
  )
  | inr gt ↦ rw gt (
    λ a m. elim (Bool-cases (path == a)) [
      | inl same ↦ rw (← (list_eq_iff path a).0 same) (text_le_total path next gt)
      | inr other ↦ least a (ground (arith, contains-insert_sorted a path paths))
    ],
    insert_sorted-Sorted path paths h,
  )
]

pub sorted-Sorted : (paths : List Text) → Sorted (sorted paths)
sorted-Sorted [] = tt
sorted-Sorted (path ∷ paths) = insert_sorted-Sorted path (sorted paths) (sorted-Sorted paths)

pub sorted_id : (names : List Text) → Sorted names → sorted names ≡ names
sorted_id [] h = refl
sorted_id (name ∷ names) (least, h) =
    ap (insert_sorted name) (sorted_id names h) ∙ front names least
  where
    front : (names : List Text) → LeastOf name names → insert_sorted name names ≡ name ∷ names
    front [] least = refl
    front (next ∷ names) least = rw (least next (rw (beq_refl next)))
