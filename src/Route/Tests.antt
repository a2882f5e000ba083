-- ===== src/Route/Tests.antt =====
-- Runs of `parse_path`, and the theorems at concrete paths.
use starlite.Prelude.{
  nat_Eq, list_Eq, [], ◌∷◌, map, ◌≡◌, refl, ok, raise, improperly_configured, All,
}
use starlite.Prelude.Text.{codes}
use starlite.UrlPath.{join, slash, is_slash}
use starlite.Route
use starlite.Route.{literal, parameter, define, ParsedPath, parse_path, ParamType}
use starlite.Route.Parsing.{source, IsDeclared}
use starlite.Route.Format.{parse_path-sources}

abbrev user_id : Route.PathParameterDefinition
user_id = define (codes " id : int") (codes "id") ParamType.int

abbrev users : ParsedPath
users = record {
  path = codes "/users/{ id : int}";
  path_format = codes "/users/{id}";
  path_components = literal (codes "users") ∷ parameter user_id ∷ [];
  path_parameters = (codes "id", user_id) ∷ [];
}

parse_users : parse_path (codes "users//{ id : int}/") ≡ ok users
unfolding parse_path is_slash
parse_users = refl

parse_duplicate : parse_path (codes "/{a:int}/{a:str}") ≡ raise improperly_configured
unfolding parse_path is_slash
parse_duplicate = refl

parse_untyped : parse_path (codes "/{a}") ≡ raise improperly_configured
unfolding parse_path is_slash
parse_untyped = refl

parse_path-sources_example :
    (users.path ≡ slash ∷ join (map source users.path_components))
    × All IsDeclared users.path_components
parse_path-sources_example = parse_path-sources (codes "users//{ id : int}/") users parse_users
