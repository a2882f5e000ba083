-- ===== src/SchemaRegistry/Names.antt =====
-- Where the references of a document point after its components were generated.
use starlite.Prelude.{
  ℕ, suc, ◌≡◌, refl, ap, ◌∙◌, true, ◌⊎◌, inl, inr, none, some, List, [], ◌∷◌, ◌++◌, length,
  contains, Distinct, ok, get_elem?, if◌then◌else◌, ◌==◌, nat_Eq, list_Eq, list_eq_iff, Bool-cases,
  Option-cases, map, arith,
}
use starlite.Prelude.Dict.{Dict, lookup, keys, has_key, contains-keys, has_key-false, has_key-true}
use starlite.Prelude.Text.{Text}
use starlite.Prelude.Sorting.{sorted, contains-sorted}
use starlite.SchemaRegistry.{
  SchemaKey, RegisteredSchema, Registry, component_ref, references_of, zip, join_parts,
  group_or_empty, last_part, remove_common_prefix, named_group, named_components, name_components,
  in_order, schema_or_zero, generate_components_schemas, from_reference,
}
use starlite.SchemaRegistry.References.{names_of, HasName, IsOf, name_components-Points}
use starlite.SchemaRegistry.Keeping.{Made, Made-IsLinked, has_key-some}

HasName-append :
    (named more : List (Text × SchemaKey)) (key : SchemaKey)
    → HasName named key ⊎ HasName more key
    → HasName (named ++ more) key
HasName-append [] more key (inl h) = absurd h
HasName-append [] more key (inr h) = h
HasName-append (n ∷ named) more key (inl (inl e)) = inl e
HasName-append (n ∷ named) more key (inl (inr h)) = inr (HasName-append named more key (inl h))
HasName-append (n ∷ named) more key (inr h) = inr (HasName-append named more key (inr h))

HasName-zip :
    (names : List Text) (group : List SchemaKey) (key : SchemaKey)
    → length names ≡ length group
    → contains key group ≡ true
    → HasName (zip names group) key
HasName-zip names [] key same h = cc
HasName-zip [] (k ∷ group) key same h = absurd (omega arith)
HasName-zip (name ∷ names) (k ∷ group) key same h = elim (Bool-cases (k == key)) [
  | inl e ↦ inl ((list_eq_iff k key).0 e)
  | inr other ↦ inr (HasName-zip names group key (omega arith) (ground arith))
]

length-map {ℓ κ} :
    {A : Type ℓ} {B : Type κ} (f : A → B) (xs : List A) → length (map f xs) ≡ length xs
length-map f [] = refl
length-map f (x ∷ xs) = ap suc (length-map f xs)

length-remove_common_prefix :
    (group : List SchemaKey) → length (remove_common_prefix group) ≡ length group
unfolding remove_common_prefix
length-remove_common_prefix group = length-map _ group

named_group-HasName :
    (name : Text) (group : List SchemaKey) (key : SchemaKey)
    → contains key group ≡ true
    → HasName (named_group name group) key
unfolding named_group
named_group-HasName name [] key h = cc
named_group-HasName name (k ∷ []) key h = inl ((list_eq_iff k key).0 (ground arith))
named_group-HasName name (k ∷ next ∷ group) key h =
    HasName-zip (map join_parts (remove_common_prefix (k ∷ next ∷ group))) (k ∷ next ∷ group) key
      (length-map join_parts (remove_common_prefix (k ∷ next ∷ group))
        ∙ length-remove_common_prefix (k ∷ next ∷ group))
      h

named_components-HasName :
    (groups : Dict Text (List SchemaKey)) (name : Text) (key : SchemaKey)
    → contains key (group_or_empty (lookup name groups)) ≡ true
    → HasName (named_components groups) key
unfolding named_components
named_components-HasName [] name key h = cc
named_components-HasName ((g, group) ∷ groups) name key h = elim (Bool-cases (g == name)) [
  | inl e ↦
      HasName-append (named_group g group) (named_components groups) key
        (inl (named_group-HasName g group key (rw e at h)))
  | inr other ↦
      HasName-append (named_group g group) (named_components groups) key
        (inr (named_components-HasName groups name key (rw other at h)))
]

lookup-in_order :
    (name : Text) (names : List Text) (components : Dict Text ℕ)
    → lookup name (in_order names components)
      ≡ (if contains name names then some (schema_or_zero (lookup name components)) else none)
lookup-in_order name [] components = refl
lookup-in_order name (n ∷ names) components = elim (Bool-cases (n == name)) [
  | inl same ↦ rw same (rw ((list_eq_iff n name).0 same) refl)
  | inr other ↦ rw other (lookup-in_order name names components)
]

-- The document is as the components were, in another order.
lookup-in_order_sorted :
    (name : Text) (components : Dict Text ℕ)
    → lookup name (in_order (sorted (keys components)) components) ≡ lookup name components
lookup-in_order_sorted name components =
    lookup-in_order name (sorted (keys components)) components
    ∙ rw (contains-sorted name (keys components), contains-keys name components)
        (elim (Bool-cases (has_key name components)) [
          | inl known ↦ let (v, e) = has_key-true name components known in rw (known, e)
          | inr unknown ↦ rw (unknown, has_key-false name components unknown)
        ])

registered_of :
    (registry : Registry) (r : ℕ) (key : SchemaKey)
    → contains r (references_of (lookup key registry.schema_key_map)) ≡ true
    → (registered : RegisteredSchema) × (lookup key registry.schema_key_map ≡ some registered)
registered_of registry r key h = elim (Option-cases (lookup key registry.schema_key_map)) [
  | inl unknown ↦ absurd (let h' = rw unknown at h in cc)
  | inr found ↦ found
]

-- In a registry that calls of its two methods made, and whose component names are distinct, every
-- reference that it gave out points, after the components were generated, to a component of the
-- generated document, and that component is the schema which `from_reference` finds for the reference.
pub generate_components_schemas-get_reference :
    (registry : Registry) (r : ℕ) (key : SchemaKey)
    → Made registry
    → Distinct (names_of (named_components registry.model_name_groups))
    → lookup r registry.schema_reference_map ≡ some key
    → (name : Text) × (registered : RegisteredSchema) × (get_elem?
          (generate_components_schemas registry).0.refs
          r
        ≡ some (component_ref name))
      × (from_reference r registry ≡ ok registered)
      × (lookup name (generate_components_schemas registry).1 ≡ some registered.schema)
unfolding generate_components_schemas from_reference
generate_components_schemas-get_reference registry r key made distinct given =
    let linked = Made-IsLinked registry made in
    let held = linked.held r key given in
    let (registered, found) = registered_of registry r key held in
    let of : IsOf r key registered.schema registry = record {
      present = linked.in_range r key given;
      its_schema = rw found refl;
      held = held;
      alone = λ other h. let e = linked.owned r other h in cc;
    } in
    let known = has_key-some key registry found in
    let named = named_components registry.model_name_groups in
    let (name, (points, holds)) =
      name_components-Points r key registered.schema named registry [] of distinct (
        inr (
          named_components-HasName registry.model_name_groups (last_part key) key
            (linked.grouped key known))) in
    (
      name,
      registered,
      points,
      rw (given, found) refl,
      lookup-in_order_sorted name (name_components named registry []).1 ∙ holds,
    )
