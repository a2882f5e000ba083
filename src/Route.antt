-- ===== src/Route.antt =====
-- routes/base.py: the path of a route, parsed into its components. A parser of a parameter is
-- known by the type that it parses; what it does with a value is a parameter of the traversal.
pub mod Parsing
pub mod Format
pub mod Errors
mod Tests
use starlite.Prelude.{
  List, [], ◌∷◌, ◌++◌, not, Option, none, some, Result, ok, raise, ◌>>=◌, ◌>>◌, require,
  improperly_configured, nat_Eq, list_Eq, nat_eq, is_nil, if◌then◌else◌,
}
use starlite.Prelude.Dict.{Dict, insert, has_key, lookup}
use starlite.Prelude.Text.{Text, codes, split_on, strip}
use starlite.UrlPath.{normalize_path, components, join_paths}

-- The types of `param_type_map`, by the keys that name them.
pub data ParamType : Type 0 where
  str int float uuid decimal date datetime time timedelta path : ParamType

abbrev pub param_type_map : Dict Text ParamType
param_type_map =
    (codes "str", ParamType.str)
    ∷ (codes "int", ParamType.int)
    ∷ (codes "float", ParamType.float)
    ∷ (codes "uuid", ParamType.uuid)
    ∷ (codes "decimal", ParamType.decimal)
    ∷ (codes "date", ParamType.date)
    ∷ (codes "datetime", ParamType.datetime)
    ∷ (codes "time", ParamType.time)
    ∷ (codes "timedelta", ParamType.timedelta)
    ∷ (codes "path", ParamType.path)
    ∷ []

-- `parsers_map[type_class] if type_class not in {str, Path} else None`
unfoldable pub parser_of : ParamType → Option ParamType
parser_of str = none
parser_of path = none
parser_of type = some type

pub record PathParameterDefinition : Type 0 where
  pub name : Text
  pub type : ParamType
  pub full : Text
  pub parser : Option ParamType

pub data PathComponent : Type 0 where
  literal : Text → PathComponent
  parameter : PathParameterDefinition → PathComponent

-- What `_parse_path` returns, and the lists that its loop fills.
pub record ParsedPath : Type 0 where
  pub path : Text
  pub path_format : Text
  pub path_components : List PathComponent
  pub path_parameters : Dict Text PathParameterDefinition

pub record Parts : Type 0 where
  pub parsed_components : List PathComponent
  pub path_format_components : List Text
  pub path_parameters : Dict Text PathParameterDefinition

-- the text before a closing brace that ends it; `.` does not match a line feed
unfoldable pub before_brace : Text → Option Text
before_brace [] = none
before_brace (c ∷ []) = if nat_eq c b'}' then some [] else none
before_brace (c ∷ d ∷ cs) =
    if nat_eq c 10
    then none
    else elim (before_brace (d ∷ cs)) [ none ↦ none | some inner ↦ some (c ∷ inner) ]

-- `param_match_regex.fullmatch(component)`, its group 1
unfoldable pub match_param : Text → Option Text
unfolding before_brace
match_param [] = none
match_param (c ∷ cs) = if nat_eq c b'{' then before_brace cs else none

-- `param_type_map[param_type]`
unfoldable pub type_named : Text → Option ParamType
type_named param_type = lookup param_type param_type_map

abbrev pub found_type : Text → Option ParamType → Result (Text × ParamType)
found_type param_name none = raise improperly_configured
found_type param_name (some type) = ok (param_name, type)

-- `_validate_path_parameter` and the name and the type, of the parts of `param.split(":")`
unfoldable pub split_fields : Text × List Text → Result (Text × ParamType)
split_fields (first, []) = raise improperly_configured
split_fields (first, second ∷ _ ∷ _) = raise improperly_configured
split_fields (first, second ∷ []) =
    if is_nil (strip first)
    then raise improperly_configured
    else found_type (strip first) (type_named (strip second))

unfoldable pub split_parameter : Text → Result (Text × ParamType)
unfolding split_fields split_on strip type_named
split_parameter param = split_fields (split_on b':' param)

abbrev pub braced : Text → Text
braced name = b'{' ∷ name ++ b'}' ∷ []

-- the branch of the loop of `_parse_path` for a component that is no parameter
unfoldable pub add_literal : Parts → Text → Parts
add_literal parts component = record {
  parsed_components = parts.parsed_components ++ literal component ∷ [];
  path_format_components = parts.path_format_components ++ component ∷ [];
  path_parameters = parts.path_parameters;
}

abbrev pub define : Text → Text → ParamType → PathParameterDefinition
define param param_name param_type = record {
  name = param_name;
  type = param_type;
  full = param;
  parser = parser_of param_type;
}

-- the branch for a parameter that is valid
unfoldable pub add_parameter : Parts → Text → Text × ParamType → Result Parts
unfolding parser_of
add_parameter parts param (param_name, param_type) =
    if has_key param_name parts.path_parameters
    then raise improperly_configured
    else ok (record {
      parsed_components =
          parts.parsed_components ++ parameter (define param param_name param_type) ∷ [];
      path_format_components = parts.path_format_components ++ braced param_name ∷ [];
      path_parameters =
          insert param_name (define param param_name param_type) parts.path_parameters;
    })

-- one round of the loop
unfoldable pub parse_component : Parts → Text → Result Parts
unfolding match_param split_parameter add_literal add_parameter
parse_component parts component = elim (match_param component) [
  | none ↦ ok (add_literal parts component)
  | some param ↦ split_parameter param >>= add_parameter parts param
]

unfoldable pub parse_components : Parts → List Text → Result Parts
unfolding parse_component
parse_components parts [] = ok parts
parse_components parts (component ∷ rest) = do
  parts' ← parse_component parts component
  parse_components parts' rest

unfoldable pub parse_path : Text → Result ParsedPath
unfolding parse_components normalize_path components join_paths
parse_path raw = do
  let path = normalize_path raw
  parts ←
      parse_components
        (record { parsed_components = []; path_format_components = []; path_parameters = [] })
        (components path)
  ok (record {
    path = path;
    path_format = join_paths parts.path_format_components;
    path_components = parts.parsed_components;
    path_parameters = parts.path_parameters;
  })
