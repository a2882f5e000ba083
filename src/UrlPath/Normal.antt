-- ===== src/UrlPath/Normal.antt =====
-- What `normalize_path` and `join_paths` compute, by the components of the path.
use mathlib.Core.List.{append-nil}
use starlite.Prelude.{
  List, [], ◌∷◌, ◌++◌, ◌≡◌, refl, sym, ap, ◌∙◌, true, false, keep, is_nil, All, arith, Bool-cases,
  inl, inr,
}
use starlite.Prelude.Text.{Text}
use starlite.UrlPath.{
  slash, is_slash, strip_left, strip_right, collapse, normalize_path, split, is_filled, components,
  join_rest, join, join_paths,
}
use starlite.UrlPath.Split.{
  split_at_slash, split_at_other, components_at_slash, strip_right-HasEnd, components-strip_left,
  components-strip_right, collapse-parts,
}

-- A normalized path is a slash before the components of the path, with one slash between two.
pub normalize_path-eq-join : (path : Text) → normalize_path path ≡ slash ∷ join (components path)
unfolding normalize_path collapse is_slash
normalize_path-eq-join path =
    ap (λ s. slash ∷ s)
      ((collapse-parts (strip_right (strip_left path)) (strip_right-HasEnd (strip_left path))).0
        ∙ ap join (components-strip_right (strip_left path) ∙ components-strip_left path))

-- A component is not empty and holds no slash.
abbrev pub NoSlash : Text → Type 0
NoSlash s = All (λ c. is_slash c ≡ false) s

abbrev pub IsComponent : Text → Type 0
IsComponent s = NoSlash s × (is_nil s ≡ false)

All-keep_filled : (parts : List Text) → All NoSlash parts → All IsComponent (keep is_filled parts)
All-keep_filled [] h = tt
All-keep_filled ([] ∷ parts) (_, h) = All-keep_filled parts h
All-keep_filled ((c ∷ cs) ∷ parts) (p, h) = ((p, refl), All-keep_filled parts h)

split-NoSlash : (s : Text) → NoSlash (split s).0 × All NoSlash (split s).1
unfolding split
split-NoSlash [] = (tt, tt)
split-NoSlash (c ∷ cs) = elim (Bool-cases (is_slash c)) [
  | inl e ↦ rw e (tt, split-NoSlash cs)
  | inr e ↦ rw e ((e, (split-NoSlash cs).0), (split-NoSlash cs).1)
]

pub components-IsComponent : (s : Text) → All IsComponent (components s)
unfolding components
components-IsComponent s =
    let (part, parts) = split-NoSlash s in All-keep_filled ((split s).0 ∷ (split s).1) (part, parts)

-- A text that starts with a part that holds no slash.
split-append : (s t : Text) → NoSlash s → split (s ++ t) ≡ (s ++ (split t).0, (split t).1)
split-append [] t h = refl
split-append (c ∷ cs) t (e, h) = split_at_other c (cs ++ t) e ∙ rw (split-append cs t h)

is_slash-slash : is_slash slash ≡ true
unfolding is_slash
is_slash-slash = refl

keep_filled :
    (part : Text) (parts : List Text)
    → is_nil part ≡ false
    → keep is_filled (part ∷ parts) ≡ part ∷ keep is_filled parts
keep_filled part parts h = rw h

-- The parts of a text that starts with a component, given those of the rest.
parts_after :
    (part rest : Text) (parts : List Text)
    → IsComponent part
    → ((split rest).0 ≡ []) × (keep is_filled (split rest).1 ≡ parts)
    → keep is_filled ((split (part ++ rest)).0 ∷ (split (part ++ rest)).1) ≡ part ∷ parts
parts_after part rest parts (plain, filled) (first, others) =
    rw (split-append part rest plain) (
      rw first (rw append-nil (keep_filled part (split rest).1 filled ∙ ap (λ l. part ∷ l) others)))

split-join_rest :
    (parts : List Text)
    → All IsComponent parts
    → ((split (join_rest parts)).0 ≡ []) × (keep is_filled (split (join_rest parts)).1 ≡ parts)
unfolding join_rest
split-join_rest [] h = unfold split in (refl, refl)
split-join_rest (part ∷ parts) (p, h) =
    rw (split_at_slash slash (part ++ join_rest parts) is_slash-slash)
      (refl, parts_after part (join_rest parts) parts p (split-join_rest parts h))

-- Joining components and splitting the result gives them back.
pub components-join : (parts : List Text) → All IsComponent parts → components (join parts) ≡ parts
unfolding components join
components-join [] h = unfold split in refl
components-join (part ∷ parts) (p, h) =
    parts_after part (join_rest parts) parts p (split-join_rest parts h)

-- A component is its only component.
pub components_self : (part : Text) → IsComponent part → components part ≡ part ∷ []
components_self part h =
    ap components (sym (append-nil part)) ∙ (unfold join in components-join (part ∷ []) (h, tt))

-- Normalizing keeps the components, whatever slashes the path has.
pub components-normalize_path : (path : Text) → components (normalize_path path) ≡ components path
components-normalize_path path = rw (normalize_path-eq-join path) (
    components_at_slash slash (join (components path)) is_slash-slash
    ∙ components-join (components path) (components-IsComponent path))

-- Normalizing a second time changes nothing.
pub normalize_path_idempotent :
    (path : Text) → normalize_path (normalize_path path) ≡ normalize_path path
normalize_path_idempotent path =
    normalize_path-eq-join (normalize_path path)
    ∙ (ap (λ ps. slash ∷ join ps) (components-normalize_path path)
        ∙ sym (normalize_path-eq-join path))

split-append_slash :
    (s t : Text) → split (s ++ slash ∷ t) ≡ ((split s).0, (split s).1 ++ (split t).0 ∷ (split t).1)
split-append_slash [] t = split_at_slash slash t is_slash-slash ∙ unfold split in refl
split-append_slash (c ∷ cs) t = elim (Bool-cases (is_slash c)) [
  | inl e ↦
      split_at_slash c (cs ++ slash ∷ t) e
      ∙ (rw (split-append_slash cs t) (rw (split_at_slash c cs e)))
  | inr e ↦
      split_at_other c (cs ++ slash ∷ t) e
      ∙ (rw (split-append_slash cs t) (rw (split_at_other c cs e)))
]

keep-append :
    (xs ys : List Text) → keep is_filled (xs ++ ys) ≡ keep is_filled xs ++ keep is_filled ys
keep-append [] ys = refl
keep-append (x ∷ xs) ys = ground (arith, keep-append xs ys)

components-append_slash : (s t : Text) → components (s ++ slash ∷ t) ≡ components s ++ components t
unfolding components
components-append_slash s t =
    rw (split-append_slash s t)
      (keep-append ((split s).0 ∷ (split s).1) ((split t).0 ∷ (split t).1))

-- The components of every fragment, in order.
abbrev pub all_components : List Text → List Text
all_components [] = []
all_components (path ∷ paths) = components path ++ all_components paths

components-append-join_rest :
    (s : Text) (paths : List Text)
    → components (s ++ join_rest paths) ≡ components s ++ all_components paths
unfolding join_rest
components-append-join_rest s [] = rw (append-nil, append-nil)
components-append-join_rest s (path ∷ paths) =
    components-append_slash s (path ++ join_rest paths)
    ∙ ap (λ l. components s ++ l) (components-append-join_rest path paths)

-- `join_paths`, which collapses repeated slashes and strips those at the ends of the joined fragments,
-- returns a slash and behind it the components of all fragments that are not empty, in order, joined
-- by slashes.
pub join_paths-eq-join :
    (paths : List Text) → join_paths paths ≡ slash ∷ join (all_components paths)
unfolding join_paths join
join_paths-eq-join [] = normalize_path-eq-join [] ∙ unfold components split join in refl
join_paths-eq-join (path ∷ paths) =
    normalize_path-eq-join (path ++ join_rest paths)
    ∙ ap (λ ps. slash ∷ join ps) (components-append-join_rest path paths)
