-- ===== src/SchemaRegistry.antt =====
-- _openapi/datastructures.py: the registry of the schemas of an OpenAPI document. References are
-- mutable objects that the document holds, so they stand in a list and are known by their index; a
-- registered schema is known by its key. A type is known by a number.
pub mod Keys
pub mod Prefix
pub mod Names
pub mod References
pub mod Keeping
mod Tests
use starlite.Prelude.{
  ℕ, zero, suc, ◌+◌, Bool, true, false, not, ◌&&◌, ◌||◌, Option, none, some, List, [], ◌∷◌, ◌++◌,
  map, Result, ok, raise, key_error, improperly_configured, length, contains, set, drop, is_nil,
  leb, nat_eq, if◌then◌else◌, ◌==◌, nat_Eq, list_Eq,
}
use starlite.Prelude.Dict.{Dict, lookup, insert, has_key, keys}
use starlite.Prelude.Text.{Text, codes, split_on, starts_with}
use starlite.Prelude.Sorting.{sorted}
pub use Keys.{SchemaKey, FieldDefinition}
unfoldable pub use Keys.{get_normalized_schema_key}

pub record RegisteredSchema : Type 0 where
  pub schema : ℕ
  pub references : List ℕ

-- `refs` holds the `ref` of each reference; `schemas` counts the schemas made.
pub record Registry : Type 0 where
  pub schema_key_map : Dict SchemaKey RegisteredSchema
  pub schema_reference_map : Dict ℕ SchemaKey
  pub model_name_groups : Dict Text (List SchemaKey)
  pub component_type_map : Dict SchemaKey ℕ
  pub refs : List Text
  pub schemas : ℕ

abbrev pub new_registry : Registry
new_registry = record {
  schema_key_map = [];
  schema_reference_map = [];
  model_name_groups = [];
  component_type_map = [];
  refs = [];
  schemas = 0;
}

-- `key[-1]`
abbrev pub last_part : SchemaKey → Text
last_part [] = []
last_part (part ∷ []) = part
last_part (part ∷ next ∷ parts) = last_part (next ∷ parts)

abbrev pub group_or_empty : Option (List SchemaKey) → List SchemaKey
group_or_empty none = []
group_or_empty (some group) = group

-- the branch for a key that is not registered yet
unfoldable pub register_schema : SchemaKey → ℕ → Registry → Registry
register_schema key type registry = record registry {
  schema_key_map =
      insert key (record { schema = registry.schemas; references = [] }) registry.schema_key_map;
  model_name_groups =
      insert (last_part key)
        (group_or_empty (lookup (last_part key) registry.model_name_groups) ++ key ∷ [])
        registry.model_name_groups;
  component_type_map = insert key type registry.component_type_map;
  schemas = suc registry.schemas;
}

abbrev pub is_type : ℕ → Option ℕ → Bool
is_type type none = false
is_type type (some existing) = nat_eq existing type

abbrev pub schema_or_raise : Option RegisteredSchema → Result ℕ
schema_or_raise none = raise key_error
schema_or_raise (some registered) = ok registered.schema

unfoldable pub get_schema_for_field_definition : FieldDefinition → Registry → Result ℕ × Registry
unfolding get_normalized_schema_key register_schema
get_schema_for_field_definition field registry =
    let key = get_normalized_schema_key field in
    let new = register_schema key field.type registry in
    if has_key key registry.schema_key_map
    then (if is_type field.type (lookup key registry.component_type_map)
        then (schema_or_raise (lookup key registry.schema_key_map), registry)
        else (raise improperly_configured, registry))
    else (schema_or_raise (lookup key new.schema_key_map), new)

-- `"_".join(key)`
abbrev pub join_parts : SchemaKey → Text
join_parts [] = []
join_parts (part ∷ []) = part
join_parts (part ∷ next ∷ parts) = part ++ b'_' ∷ join_parts (next ∷ parts)

abbrev pub component_ref : Text → Text
component_ref name = codes "#/components/schemas/" ++ name

-- the end of `get_reference_for_field_definition`, for a registered key of the same type
unfoldable pub add_reference : SchemaKey → RegisteredSchema → Registry → Registry
add_reference key registered registry =
    let reference = length registry.refs in
    record registry {
      refs = registry.refs ++ component_ref (join_parts key) ∷ [];
      schema_key_map =
          insert key (record registered { references = registered.references ++ reference ∷ [] })
            registry.schema_key_map;
      schema_reference_map = insert reference key registry.schema_reference_map;
    }

abbrev pub referred :
    SchemaKey → ℕ → Registry → Option RegisteredSchema → Result (Option ℕ) × Registry
referred key type registry none = (ok none, registry)
referred key type registry (some registered) =
    if is_type type (lookup key registry.component_type_map)
    then (ok (some (length registry.refs)), add_reference key registered registry)
    else (raise improperly_configured, registry)

unfoldable pub get_reference_for_field_definition :
    FieldDefinition → Registry → Result (Option ℕ) × Registry
unfolding get_normalized_schema_key add_reference
get_reference_for_field_definition field registry =
    let key = get_normalized_schema_key field in
    referred key field.type registry (lookup key registry.schema_key_map)

abbrev pub found_or_raise : Option RegisteredSchema → Result RegisteredSchema
found_or_raise none = raise key_error
found_or_raise (some registered) = ok registered

abbrev pub registered_or_raise : Option SchemaKey → Registry → Result RegisteredSchema
registered_or_raise none registry = raise key_error
registered_or_raise (some key) registry = found_or_raise (lookup key registry.schema_key_map)

unfoldable pub from_reference : ℕ → Registry → Result RegisteredSchema
from_reference reference registry =
    registered_or_raise (lookup reference registry.schema_reference_map) registry

-- one round of the comparison in `_longest_common_prefix`
unfoldable pub shorten : SchemaKey → SchemaKey → SchemaKey
shorten [] key = []
shorten (part ∷ prefix) [] = []
shorten (part ∷ prefix) (other ∷ key) =
    let rest = shorten prefix key in if part == other then part ∷ rest else []

unfoldable pub shorten_all : SchemaKey → List SchemaKey → SchemaKey
unfolding shorten
shorten_all prefix [] = prefix
shorten_all prefix (key ∷ keys') = shorten_all (shorten prefix key) keys'

unfoldable pub longest_common_prefix : List SchemaKey → SchemaKey
unfolding shorten_all
longest_common_prefix [] = []
longest_common_prefix (key ∷ keys') = shorten_all key (key ∷ keys')

unfoldable pub remove_common_prefix : List SchemaKey → List SchemaKey
unfolding longest_common_prefix
remove_common_prefix group = map (drop (length (longest_common_prefix group))) group

abbrev pub zip : List Text → List SchemaKey → List (Text × SchemaKey)
zip [] keys' = []
zip (name ∷ names) [] = []
zip (name ∷ names) (key ∷ keys') = (name, key) ∷ zip names keys'

-- the names of the components of one group, with the keys that they are for
unfoldable pub named_group : Text → List SchemaKey → List (Text × SchemaKey)
unfolding remove_common_prefix
named_group name [] = []
named_group name (key ∷ []) = (name, key) ∷ []
named_group name (key ∷ next ∷ group) =
    zip (map join_parts (remove_common_prefix (key ∷ next ∷ group))) (key ∷ next ∷ group)

unfoldable pub named_components : Dict Text (List SchemaKey) → List (Text × SchemaKey)
unfolding named_group
named_components [] = []
named_components ((name, group) ∷ groups) = named_group name group ++ named_components groups

unfoldable pub set_reference_paths : Text → List ℕ → List Text → List Text
set_reference_paths name [] refs = refs
set_reference_paths name (reference ∷ references) refs =
    set_reference_paths name references (set refs reference (component_ref name))

abbrev pub references_of : Option RegisteredSchema → List ℕ
references_of none = []
references_of (some registered) = registered.references

abbrev pub schema_of : Option RegisteredSchema → ℕ
schema_of none = 0
schema_of (some registered) = registered.schema

-- the loops of `generate_components_schemas`, on the components that the groups make
unfoldable pub name_components :
    List (Text × SchemaKey) → Registry → Dict Text ℕ → Registry × Dict Text ℕ
unfolding set_reference_paths
name_components [] registry components = (registry, components)
name_components ((name, key) ∷ named) registry components =
    let registered = lookup key registry.schema_key_map in
    name_components named
      (record registry { refs = set_reference_paths name (references_of registered) registry.refs })
      (insert name (schema_of registered) components)

abbrev pub schema_or_zero : Option ℕ → ℕ
schema_or_zero none = 0
schema_or_zero (some schema) = schema

-- `{name: components[name] for name in names}`
abbrev pub in_order : List Text → Dict Text ℕ → Dict Text ℕ
in_order [] components = []
in_order (name ∷ names) components =
    (name, schema_or_zero (lookup name components)) ∷ in_order names components

unfoldable pub generate_components_schemas : Registry → Registry × Dict Text ℕ
unfolding named_components name_components
generate_components_schemas registry =
    let (registry', components) =
      name_components (named_components registry.model_name_groups) registry [] in
    (registry', in_order (sorted (keys components)) components)
