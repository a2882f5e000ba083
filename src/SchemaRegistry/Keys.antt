-- ===== src/SchemaRegistry/Keys.antt =====
-- `_get_normalized_schema_key` of _openapi/datastructures.py: the key of a field's type.
use starlite.Prelude.{
  ℕ, zero, suc, Bool, true, false, ◌&&◌, ◌||◌, Option, none, some, List, [], ◌∷◌, ◌++◌, length,
  drop, is_nil, leb, nat_eq, if◌then◌else◌, nat_Eq, list_Eq,
}
use starlite.Prelude.Text.{Text, codes, split_on, starts_with}

-- `("path", "to", "type", "TypeName")`
abbrev pub SchemaKey : Type 0
SchemaKey = List Text

-- What the key of a field is made of: the `schema_component_key` of its definition, the module of
-- its annotation, and the annotation's name without it. `type` is the field for `==`.
pub record FieldDefinition : Type 0 where
  pub component_key : Option Text
  pub module_name : Text
  pub name : Text
  pub type : ℕ

unfoldable pub is_key_character : ℕ → Bool
is_key_character c =
    (leb b'a' c && leb c b'z')
    || (leb b'A' c && leb c b'Z')
    || (leb b'0' c && leb c b'9')
    || nat_eq c b'.'
    || nat_eq c b'_'
    || nat_eq c b'-'

-- `re.sub(INVALID_KEY_CHARACTER_PATTERN, "_", name)`: one underscore for each run of invalid
-- characters; the flag says that a run is being passed over.
unfoldable pub replace_invalid : Bool → Text → Text
unfolding is_key_character
replace_invalid in_run [] = []
replace_invalid in_run (c ∷ cs) =
    let valid = c ∷ replace_invalid false cs in
    let rest = replace_invalid true cs in
    if is_key_character c then valid else if in_run then rest else b'_' ∷ rest

-- `name.replace(".<locals>.", ".")`, on fuel: the length of the name is enough
unfoldable pub replace_locals : ℕ → Text → Text
replace_locals zero name = name
replace_locals (suc fuel) [] = []
replace_locals (suc fuel) (c ∷ cs) =
    let after = b'.' ∷ replace_locals fuel (drop 10 (c ∷ cs)) in
    let next = c ∷ replace_locals fuel cs in
    if starts_with (c ∷ cs) (codes ".<locals>.") then after else next

abbrev pub override_or : Option Text → SchemaKey → SchemaKey
override_or none key = key
override_or (some override) key = if is_nil override then key else override ∷ []

abbrev pub parts_of : Text × List Text → List Text
parts_of (part, parts) = part ∷ parts

unfoldable pub get_normalized_schema_key : FieldDefinition → SchemaKey
unfolding replace_invalid replace_locals split_on
get_normalized_schema_key field = override_or field.component_key (
    parts_of (split_on b'.' field.module_name)
    ++ replace_invalid false (replace_locals (length field.name) field.name) ∷ [])
