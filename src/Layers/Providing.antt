-- ===== src/Layers/Providing.antt =====
-- The dependencies that a handler resolves.
use starlite.Prelude.{
  ℕ, ◌≡◌, refl, ap, ◌∙◌, inl, inr, true, false, ◌||◌, List, [], ◌∷◌, ok, >>=-eq-ok, contains,
  Distinct, ◌==◌, nat_Eq, list_Eq, nat_eq_iff, Bool-cases, arith,
}
use starlite.Prelude.Dict.{Dict, insert, values}
use starlite.Prelude.Text.{Text}
use starlite.Layers.{
  Layer, update, merged, provide, provide_all, provide_layers, resolve_dependencies,
}

contains-values-insert :
    (provider other : ℕ) (key : Text) (d : Dict Text ℕ)
    → contains other (values (insert key provider d)) ≡ true
    → (provider == other) || contains other (values d) ≡ true
contains-values-insert provider other key [] h = h
contains-values-insert provider other key ((k, v) ∷ d) h = elim (Bool-cases (k == key)) [
  | inl same ↦ let h' = rw same at h in ground arith
  | inr apart ↦
      let h' = rw apart at h in ground (arith, contains-values-insert provider other key d)
]

values-insert-Distinct :
    (provider : ℕ) (key : Text) (d : Dict Text ℕ)
    → contains provider (values d) ≡ false
    → Distinct (values d)
    → Distinct (values (insert key provider d))
values-insert-Distinct provider key [] new distinct = (refl, tt)
values-insert-Distinct provider key ((k, v) ∷ d) new (fresh, distinct) =
    elim (Bool-cases (k == key)) [
      | inl same ↦ rw same (ground arith, distinct)
      | inr apart ↦ rw apart (
        elim (Bool-cases (contains v (values (insert key provider d)))) [
          | inr missing ↦ missing
          | inl there ↦
              let found = contains-values-insert provider v key d there in
              ground (arith, nat_eq_iff provider v, nat_eq_iff v provider)
        ],
        values-insert-Distinct provider key d (ground arith) distinct,
      )
    ]

abbrev pub Provided : Dict Text ℕ → Dict Text ℕ → Type 0
Provided d resolved = (resolved ≡ d) × Distinct (values resolved)

provide_inv :
    (key : Text) (provider : ℕ) (d resolved : Dict Text ℕ)
    → Distinct (values d)
    → provide key provider d ≡ ok resolved
    → Provided (insert key provider d) resolved
provide_inv key provider d resolved distinct h = elim (Bool-cases (contains provider (values d))) [
  | inl there ↦ let h' = rw there at h in cc
  | inr new ↦
      let h' = rw new at h in
      let e : resolved ≡ insert key provider d = cc in
      (e, rw e (values-insert-Distinct provider key d new distinct))
]

provide_all_inv :
    (new d resolved : Dict Text ℕ)
    → Distinct (values d)
    → provide_all new d ≡ ok resolved
    → Provided (update d new) resolved
provide_all_inv [] d resolved distinct h = let e : resolved ≡ d = cc in (e, rw e distinct)
provide_all_inv ((key, provider) ∷ new) d resolved distinct h =
    let (d', first, rest) = >>=-eq-ok (provide key provider d) (provide_all new) h in
    let (e, distinct') = provide_inv key provider d d' distinct first in
    let (e', there) = provide_all_inv new d' resolved distinct' rest in
    (e' ∙ ap (λ c. update c new) e, there)

provide_layers_inv :
    (layers : List Layer) (d resolved : Dict Text ℕ)
    → Distinct (values d)
    → provide_layers layers d ≡ ok resolved
    → Provided (merged (λ layer. layer.dependencies) d layers) resolved
unfolding merged
provide_layers_inv [] d resolved distinct h = let e : resolved ≡ d = cc in (e, rw e distinct)
provide_layers_inv (layer ∷ layers) d resolved distinct h =
    let (d', first, rest) =
      >>=-eq-ok (provide_all layer.dependencies d) (provide_layers layers) h in
    let (e, distinct') = provide_all_inv layer.dependencies d d' distinct first in
    let (e', there) = provide_layers_inv layers d' resolved distinct' rest in
    (e' ∙ ap (λ c. merged (λ l. l.dependencies) c layers) e, there)

-- Where the dependencies of a handler can be resolved, they are the merged dependencies of its layers,
-- and no provider stands under two keys.
pub resolve_dependencies_inv :
    (layers : List Layer) (resolved : Dict Text ℕ)
    → resolve_dependencies layers ≡ ok resolved
    → (resolved ≡ merged (λ layer. layer.dependencies) [] layers) × Distinct (values resolved)
unfolding resolve_dependencies
resolve_dependencies_inv layers resolved h = provide_layers_inv layers [] resolved tt h
