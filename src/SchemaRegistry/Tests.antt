-- ===== src/SchemaRegistry/Tests.antt =====
-- The registry at concrete fields.
use starlite.Prelude.{
  ◌≡◌, refl, none, some, [], ◌∷◌, ok, raise, improperly_configured, get_elem?, nat_Eq, list_Eq,
}
use starlite.Prelude.Dict.{lookup}
use starlite.Prelude.Text.{Text, codes}
use starlite.SchemaRegistry.{
  SchemaKey, FieldDefinition, RegisteredSchema, Registry, new_registry, component_ref,
  named_components, get_normalized_schema_key, get_schema_for_field_definition,
  get_reference_for_field_definition, longest_common_prefix, generate_components_schemas,
  from_reference,
}
use starlite.SchemaRegistry.Keeping.{Made, made_new, made_schema, made_reference}
use starlite.SchemaRegistry.Prefix.{
  drop-longest_common_prefix, longest_common_prefix-Prefixes, PrefixesAll,
}
use starlite.SchemaRegistry.Names.{generate_components_schemas-get_reference}

-- Two models of one name.
abbrev old_user : FieldDefinition
old_user = record {
  component_key = none;
  module_name = codes "app.old";
  name = codes "User";
  type = 0;
}

abbrev new_user : FieldDefinition
new_user = record {
  component_key = none;
  module_name = codes "app.new";
  name = codes "User";
  type = 1;
}

-- A model within a function, with an argument.
abbrev local_page : FieldDefinition
local_page = record {
  component_key = none;
  module_name = codes "app";
  name = codes "f.<locals>.Page[[int]]";
  type = 2;
}

-- A model that overrides the key by the one of another.
abbrev impostor : FieldDefinition
impostor = record {
  component_key = some (codes "User");
  module_name = [];
  name = codes "Fake";
  type = 3;
}

abbrev users : Registry
users =
    (get_reference_for_field_definition new_user
      (get_schema_for_field_definition new_user
        (get_schema_for_field_definition old_user new_registry).1).1).1

users-Made : Made users
users-Made = made_reference _ _ (made_schema _ _ (made_schema _ _ made_new))

local_key : get_normalized_schema_key local_page ≡ codes "app" ∷ codes "f.Page_int_" ∷ []
unfolding get_normalized_schema_key
local_key = refl

impostor_key : get_normalized_schema_key impostor ≡ codes "User" ∷ []
unfolding get_normalized_schema_key
impostor_key = refl

impostor_reference :
    (get_reference_for_field_definition
      (record impostor { type = 4 })
      (get_schema_for_field_definition impostor new_registry).1).0
    ≡ raise improperly_configured
unfolding get_schema_for_field_definition get_reference_for_field_definition
impostor_reference = refl

abbrev user_key : Text → SchemaKey
user_key version = codes "app" ∷ version ∷ codes "User" ∷ []

generate_components_schemas-get_reference_example :
    (name : Text) × (registered : RegisteredSchema) × (get_elem?
        (generate_components_schemas users).0.refs
        0
      ≡ some (component_ref name))
    × (from_reference 0 users ≡ ok registered)
    × (lookup name (generate_components_schemas users).1 ≡ some registered.schema)
unfolding get_schema_for_field_definition get_reference_for_field_definition named_components
generate_components_schemas-get_reference_example =
    generate_components_schemas-get_reference users 0 (user_key (codes "new")) users-Made
      (refl, (refl, tt)) refl

users_refs : (generate_components_schemas users).0.refs ≡ component_ref (codes "new_User") ∷ []
unfolding get_schema_for_field_definition get_reference_for_field_definition
    generate_components_schemas
users_refs = refl

drop-longest_common_prefix_example : user_key (codes "old") ≡ user_key (codes "old")
unfolding longest_common_prefix
drop-longest_common_prefix_example =
    drop-longest_common_prefix (user_key (codes "old")) (user_key (codes "new") ∷ [])
      (user_key (codes "old")) (user_key (codes "old")) refl refl refl

longest_common_prefix-Prefixes_example :
    PrefixesAll (codes "app" ∷ []) (user_key (codes "old") ∷ user_key (codes "new") ∷ [])
unfolding longest_common_prefix
longest_common_prefix-Prefixes_example =
    (longest_common_prefix-Prefixes (codes "app" ∷ []) (user_key (codes "old"))
        (user_key (codes "new") ∷ [])).0
      (refl, tt)
