-- ===== src/UrlPath/Split.antt =====
-- The components of a path under the steps of `normalize_path`.
use starlite.Prelude.{
  ℕ, List, [], ◌∷◌, ◌++◌, ◌≡◌, ◌≢◌, refl, sym, ap, ◌∙◌, true, false, ◌&&◌, keep, is_nil, arith,
  Bool-cases, inl, inr,
}
use starlite.Prelude.Text.{Text}
use starlite.UrlPath.{
  slash, is_slash, strip_left, strip_right, collapse, split, is_filled, components, join_rest, join,
}

nil_of_is_nil : (s : Text) → is_nil s ≡ true → s ≡ []
nil_of_is_nil [] h = refl
nil_of_is_nil (c ∷ cs) h = cc

pub slash_of_is_slash : (c : ℕ) → is_slash c ≡ true → c ≡ slash
unfolding is_slash
slash_of_is_slash c h = ground arith

-- The text does not end in a slash.
abbrev pub HasEnd : Text → Type 0
HasEnd [] = Unit
HasEnd (c ∷ []) = is_slash c ≡ false
HasEnd (c ∷ d ∷ cs) = HasEnd (d ∷ cs)

HasEnd-tail : (c : ℕ) (cs : Text) → HasEnd (c ∷ cs) → HasEnd cs
HasEnd-tail c [] h = tt
HasEnd-tail c (d ∷ cs) h = h

HasEnd-cons : (c : ℕ) (cs : Text) → HasEnd cs → is_slash c && is_nil cs ≡ false → HasEnd (c ∷ cs)
HasEnd-cons c [] h k = ground arith
HasEnd-cons c (d ∷ cs) h k = h

pub strip_right-HasEnd : (s : Text) → HasEnd (strip_right s)
unfolding strip_right
strip_right-HasEnd [] = tt
strip_right-HasEnd (c ∷ cs) = elim (Bool-cases (is_slash c && is_nil (strip_right cs))) [
  | inl e ↦ rw e tt
  | inr e ↦ rw e (HasEnd-cons c (strip_right cs) (strip_right-HasEnd cs) e)
]

module _ (c : ℕ) (cs : Text) where
  pub split_at_slash : is_slash c ≡ true → split (c ∷ cs) ≡ ([], (split cs).0 ∷ (split cs).1)
  unfolding split
  split_at_slash h = rw h

  pub split_at_other : is_slash c ≡ false → split (c ∷ cs) ≡ (c ∷ (split cs).0, (split cs).1)
  unfolding split
  split_at_other h = rw h

  pub components_at_slash : is_slash c ≡ true → components (c ∷ cs) ≡ components cs
  unfolding components
  components_at_slash h = rw (split_at_slash h)

  pub components_at_other :
      is_slash c ≡ false → components (c ∷ cs) ≡ (c ∷ (split cs).0) ∷ keep is_filled (split cs).1
  unfolding components
  components_at_other h = rw (split_at_other h)

pub components-strip_left : (s : Text) → components (strip_left s) ≡ components s
unfolding strip_left
components-strip_left [] = refl
components-strip_left (c ∷ cs) = elim (Bool-cases (is_slash c)) [
  | inl e ↦ rw e (components-strip_left cs ∙ sym (components_at_slash c cs e))
  | inr e ↦ rw e
]

-- Stripping on the right keeps the first part and the filled ones among the others.
abbrev SameParts : Text → Text → Type 0
SameParts s t =
    ((split s).0 ≡ (split t).0) × (keep is_filled (split s).1 ≡ keep is_filled (split t).1)

-- Only slashes on the right: there is no filled part.
no_parts :
    (cs : Text)
    → SameParts (strip_right cs) cs
    → is_nil (strip_right cs) ≡ true
    → ((split cs).0 ≡ []) × (keep is_filled (split cs).1 ≡ [])
unfolding split
no_parts cs same h =
    let nothing = nil_of_is_nil (strip_right cs) h in
    (
      sym same.0 ∙ ap (λ s. (split s).0) nothing,
      sym same.1 ∙ ap (λ s. keep is_filled (split s).1) nothing,
    )

module _ (c : ℕ) (cs : Text) (same : SameParts (strip_right cs) cs) where
  SameParts-at_slash : is_slash c ≡ true → SameParts (strip_right (c ∷ cs)) (c ∷ cs)
  unfolding strip_right
  SameParts-at_slash e = elim (Bool-cases (is_nil (strip_right cs))) [
    | inl n ↦
        rw (e, n, split_at_slash c cs e)
          (unfold split in (refl, rw (no_parts cs same n).0 (sym (no_parts cs same n).1)))
    | inr n ↦
        rw (e, n)
          (rw (split_at_slash c cs e)
            (rw (split_at_slash c (strip_right cs) e) (refl, rw (same.0, same.1))))
  ]

  SameParts-at_other : is_slash c ≡ false → SameParts (strip_right (c ∷ cs)) (c ∷ cs)
  unfolding strip_right
  SameParts-at_other e = rw e (
      rw (split_at_other c cs e)
        (rw (split_at_other c (strip_right cs) e) (ap (λ p. c ∷ p) same.0, same.1)))

SameParts-strip_right : (s : Text) → SameParts (strip_right s) s
unfolding strip_right
SameParts-strip_right [] = (refl, refl)
SameParts-strip_right (c ∷ cs) = elim (Bool-cases (is_slash c)) [
  | inl e ↦ SameParts-at_slash c cs (SameParts-strip_right cs) e
  | inr e ↦ SameParts-at_other c cs (SameParts-strip_right cs) e
]

pub components-strip_right : (s : Text) → components (strip_right s) ≡ components s
unfolding components
components-strip_right s = let (first, rest) = SameParts-strip_right s in rw (first, rest)

components-ne-nil : (c : ℕ) (cs : Text) → HasEnd (c ∷ cs) → components (c ∷ cs) ≢ []
components-ne-nil c [] h = rw (components_at_other c [] h) cc
components-ne-nil c (d ∷ cs) h = elim (Bool-cases (is_slash c)) [
  | inl e ↦ rw (components_at_slash c (d ∷ cs) e) (components-ne-nil d cs h)
  | inr e ↦ rw (components_at_other c (d ∷ cs) e) cc
]

join_rest-eq-join : (parts : List Text) → parts ≢ [] → join_rest parts ≡ slash ∷ join parts
unfolding join
join_rest-eq-join [] h = absurd (h refl)
join_rest-eq-join (part ∷ parts) h = refl

abbrev CollapsesAfter : Text → Type 0
CollapsesAfter s = collapse true s ≡ join (components s)

abbrev CollapsesWithin : Text → Type 0
CollapsesWithin s = collapse false s ≡ (split s).0 ++ join_rest (keep is_filled (split s).1)

collapse_at_slash :
    (c : ℕ) (cs : Text)
    → is_slash c ≡ true
    → c ≡ slash
    → HasEnd (c ∷ cs)
    → CollapsesAfter cs
    → CollapsesAfter (c ∷ cs) × CollapsesWithin (c ∷ cs)
unfolding collapse
collapse_at_slash c [] e same h ih = ground arith
collapse_at_slash c (d ∷ cs) e same h ih = (
  rw (e, components_at_slash c (d ∷ cs) e) ih,
  rw (e, split_at_slash c (d ∷ cs) e)
      (unfold components in
        (λ i. same i ∷ ih i)
        ∙ sym (join_rest-eq-join (components (d ∷ cs)) (components-ne-nil d cs h))),
)

collapse_at_other :
    (c : ℕ) (cs : Text)
    → is_slash c ≡ false
    → CollapsesWithin cs
    → CollapsesAfter (c ∷ cs) × CollapsesWithin (c ∷ cs)
unfolding collapse
collapse_at_other c cs e ih = (
  rw (e, components_at_other c cs e) (unfold join in ap (λ s. c ∷ s) ih),
  rw (e, split_at_other c cs e) (ap (λ s. c ∷ s) ih),
)

-- After a slash, a text that does not end in one collapses to its joined components; elsewhere
-- its first part is kept as it is.
pub collapse-parts : (s : Text) → HasEnd s → CollapsesAfter s × CollapsesWithin s
collapse-parts [] h = unfold collapse join components split in (refl, refl)
collapse-parts (c ∷ cs) h = elim (Bool-cases (is_slash c)) [
  | inl e ↦
      collapse_at_slash c cs e (slash_of_is_slash c e) h (collapse-parts cs (HasEnd-tail c cs h)).0
  | inr e ↦ collapse_at_other c cs e (collapse-parts cs (HasEnd-tail c cs h)).1
]
