-- ===== src/SchemaRegistry/Keeping.antt =====
-- What `SchemaRegistry` keeps between the calls of its two methods.
use starlite.Prelude.{
  ℕ, ◌<◌, ◌≡◌, true, inl, inr, none, some, [], ◌∷◌, ◌++◌, length, contains, contains-append,
  length-append, nat_Eq, list_Eq, nat_eq_iff, list_eq_iff, Bool-cases, Option-cases, arith,
}
use starlite.Prelude.Dict.{lookup, has_key, lookup-insert, has_key-insert, has_key-false}
use starlite.SchemaRegistry.{
  SchemaKey, FieldDefinition, RegisteredSchema, Registry, new_registry, last_part, group_or_empty,
  register_schema, references_of, add_reference, get_normalized_schema_key, is_type,
  get_schema_for_field_definition, get_reference_for_field_definition, component_ref, join_parts,
}

-- What the registry keeps: a reference stands at one registered key, where it is known to, and a
-- registered key stands in the group of its last part.
pub record IsLinked (registry : Registry) : Type 0 where
  pub in_range :
      (reference : ℕ) (key : SchemaKey)
      → lookup reference registry.schema_reference_map ≡ some key
      → reference < length registry.refs
  pub held :
      (reference : ℕ) (key : SchemaKey)
      → lookup reference registry.schema_reference_map ≡ some key
      → contains reference (references_of (lookup key registry.schema_key_map)) ≡ true
  pub owned :
      (reference : ℕ) (key : SchemaKey)
      → contains reference (references_of (lookup key registry.schema_key_map)) ≡ true
      → lookup reference registry.schema_reference_map ≡ some key
  pub grouped :
      (key : SchemaKey)
      → has_key key registry.schema_key_map ≡ true
      → contains key (group_or_empty (lookup (last_part key) registry.model_name_groups)) ≡ true

-- A registry that calls of the two methods made.
pub data Made : Registry → Type 0 where
  made_new : Made new_registry
  made_schema :
      (field : FieldDefinition) (registry : Registry)
      → Made registry
      → Made (get_schema_for_field_definition field registry).1
  made_reference :
      (field : FieldDefinition) (registry : Registry)
      → Made registry
      → Made (get_reference_for_field_definition field registry).1

new_registry-IsLinked : IsLinked new_registry
new_registry-IsLinked = record {
  in_range = λ r k h. cc;
  held = λ r k h. cc;
  owned = λ r k h. cc;
  grouped = λ k h. cc;
}

register_schema-IsLinked :
    (key : SchemaKey) (type : ℕ) (registry : Registry)
    → lookup key registry.schema_key_map ≡ none
    → IsLinked registry
    → IsLinked (register_schema key type registry)
unfolding register_schema
register_schema-IsLinked key type registry fresh linked =
    let added : RegisteredSchema = record { schema = registry.schemas; references = [] } in
    let group = group_or_empty (lookup (last_part key) registry.model_name_groups) in
    record {
      in_range = linked.in_range;
      held = λ r k h.
          rw (lookup-insert k key added registry.schema_key_map)
            (ground (arith, linked.held r k h, list_eq_iff key k));
      owned = λ r k h. linked.owned r k (
          let h' = rw (lookup-insert k key added registry.schema_key_map) at h in
          ground (arith, list_eq_iff key k));
      grouped = λ k h.
          rw
            (lookup-insert (last_part k) (last_part key) (group ++ key ∷ [])
              registry.model_name_groups)
            (let h' = rw (has_key-insert k key added registry.schema_key_map) at h in
              ground (
                arith,
                linked.grouped k,
                contains-append k group (key ∷ []),
                list_eq_iff key k,
                list_eq_iff (last_part key) (last_part k),
              ));
    }

add_reference-IsLinked :
    (key : SchemaKey) (registered : RegisteredSchema) (registry : Registry)
    → lookup key registry.schema_key_map ≡ some registered
    → has_key key registry.schema_key_map ≡ true
    → IsLinked registry
    → IsLinked (add_reference key registered registry)
unfolding add_reference
add_reference-IsLinked key registered registry found known linked =
    let reference = length registry.refs in
    let added : RegisteredSchema = record registered {
      references = registered.references ++ reference ∷ [];
    } in
    record {
      in_range = λ r k h.
          let h' = rw (lookup-insert r reference key registry.schema_reference_map) at h in
          rw (length-append registry.refs (component_ref (join_parts key) ∷ []))
            (ground (arith, linked.in_range r k, nat_eq_iff reference r));
      held = λ r k h.
          let h' = rw (lookup-insert r reference key registry.schema_reference_map) at h in
          rw (lookup-insert k key added registry.schema_key_map) (
            ground (
              arith,
              linked.held r k,
              list_eq_iff key k,
              contains-append r registered.references (reference ∷ []),
            ));
      owned = λ r k h.
          let h' = rw (lookup-insert k key added registry.schema_key_map) at h in
          rw (lookup-insert r reference key registry.schema_reference_map) (
            ground (
              arith,
              linked.owned r k,
              linked.in_range r k,
              list_eq_iff key k,
              nat_eq_iff reference r,
              contains-append r registered.references (reference ∷ []),
            ));
      grouped = λ k h. linked.grouped k (
          let h' = rw (has_key-insert k key added registry.schema_key_map) at h in
          ground (arith, list_eq_iff key k));
    }

pub has_key-some :
    (key : SchemaKey) (registry : Registry) {registered : RegisteredSchema}
    → lookup key registry.schema_key_map ≡ some registered
    → has_key key registry.schema_key_map ≡ true
has_key-some key registry found = elim (Bool-cases (has_key key registry.schema_key_map)) [
  | inl known ↦ known
  | inr unknown ↦ let e = has_key-false key registry.schema_key_map unknown in cc
]

-- What `SchemaRegistry` keeps holds after any calls of its two methods.
pub Made-IsLinked : (registry : Registry) → Made registry → IsLinked registry
unfolding get_schema_for_field_definition get_reference_for_field_definition
Made-IsLinked _ made_new = new_registry-IsLinked
Made-IsLinked _ (made_schema field registry made) =
    let key = get_normalized_schema_key field in
    let linked = Made-IsLinked registry made in
    elim (Bool-cases (has_key key registry.schema_key_map)) [
      | inl known ↦
          elim (Bool-cases (is_type field.type (lookup key registry.component_type_map))) [
            | inl same ↦ rw (known, same) linked
            | inr other ↦ rw (known, other) linked
          ]
      | inr unknown ↦ rw unknown (
          register_schema-IsLinked key field.type registry
            (has_key-false key registry.schema_key_map unknown) linked)
    ]
Made-IsLinked _ (made_reference field registry made) =
    let key = get_normalized_schema_key field in
    let linked = Made-IsLinked registry made in
    elim (Option-cases (lookup key registry.schema_key_map)) [
      | inl unknown ↦ rw unknown linked
      | inr (registered, found) ↦
          elim (Bool-cases (is_type field.type (lookup key registry.component_type_map))) [
            | inl same ↦
                rw (found, same)
                  (add_reference-IsLinked key registered registry found
                    (has_key-some key registry found) linked)
            | inr other ↦ rw (found, other) linked
          ]
    ]
