-- ===== src/Trie/Tests.antt =====
-- Runs of the trie, and the theorems at concrete routes.
use starlite.Prelude.Dict.{has_key}
use starlite.Prelude.Text.{Text, codes}
use starlite.Prelude.{
  [], ◌∷◌, ◌++◌, ◌≡◌, ◌⊎◌, ◌↔◌, refl, true, false, key_error, some, none, ok, raise, Result,
  Exception, value_error, not_found, method_not_allowed, string_Eq, nat_Eq, list_Eq, contains, ℕ,
  length, improperly_configured,
}
use starlite.UrlPath.{is_slash, components}
use starlite.Route.{literal, parameter, define, ParamType, PathParameterDefinition, parser_of}
use starlite.Trie.{
  Route, RouteHandler, AppConfig, Trie, empty_trie, http, asgi, root, create_node, plain, node_at,
  component, key_Eq, definition_discrete,
}
use starlite.Trie.Stack.{
  csrf_layer, exception_layer, layers, layers-build_route_middleware_stack,
  build_route_middleware_stack, has_middleware, custom_layers, configured_layers,
  with_exception_layer, endpoint,
}
use starlite.Trie.Mapping.{add_route_to_trie, add_routes, configure_node}
use starlite.Trie.Traversal.{parse_path_to_route, resolve, traverse_route_map, match_mount}
use starlite.Trie.WellFormed.{WellFormed, empty-WellFormed}
use starlite.Trie.Invariant.{Placed}
use starlite.Trie.Adding.{add_route_to_trie-WellFormed, add_routes-WellFormed}
use starlite.Trie.Walking.{Walk, has_handlers, traverse_route_map_iff}
use starlite.Trie.Registered.{Matches, done, same, value, add_route_to_trie-Walk}
use starlite.Trie.Resolving.{IsParserError, Answered, parse_path_to_route_error}
use starlite.Trie.Plain.{add_route_to_trie-plain}
use starlite.Trie.Validation.{validate_node}
use starlite.Trie.Valid.{Reaches, IsValid, validate_node_iff}
use starlite.Trie.Asgi.{asgi_route_not_allowed}

abbrev config : AppConfig
config = record { csrf_config = true; compression_config = false; allowed_hosts = true }

abbrev handler : RouteHandler
handler = record {
  number = 1;
  is_mount = false;
  is_static = false;
  cache = false;
  middleware = plain 7 ∷ plain 8 ∷ [];
}

abbrev user_id : PathParameterDefinition
user_id = define (codes "id:int") (codes "id") ParamType.int

abbrev users : Route
users = record {
  number = 1;
  path = codes "/users/{id:int}";
  path_format = codes "/users/{id}";
  path_components = literal (codes "users") ∷ parameter user_id ∷ [];
  path_parameters = (codes "id", user_id) ∷ [];
  kind = http (("GET", handler) ∷ []) (handler ∷ []);
}

abbrev home : Route
home = record {
  number = 2;
  path = codes "/home";
  path_format = codes "/home";
  path_components = literal (codes "home") ∷ [];
  path_parameters = [];
  kind = http (("GET", handler) ∷ ("POST", handler) ∷ []) (handler ∷ []);
}

abbrev sockets : Route
sockets = record {
  number = 3;
  path = codes "/raw/{id:int}";
  path_format = codes "/raw/{id}";
  path_components = literal (codes "raw") ∷ parameter user_id ∷ [];
  path_parameters = (codes "id", user_id) ∷ [];
  kind = asgi handler;
}

-- A parser that takes no text.
abbrev refuse : ParamType → Text → Result Text
refuse type text = raise value_error

abbrev keep_raw : Text → Text
keep_raw text = text

tries : Unit {0}
unfolding add_routes traverse_route_map parse_path_to_route definition_discrete is_slash node_at
    parser_of
tries = tt

abbrev later : Trie
later = add_routes config (add_route_to_trie config empty_trie users).0 (home ∷ [])

found_user :
    traverse_route_map later.nodes (codes "/users/5")
    ≡ ok (record { node = 2; path_params = codes "5" ∷ [] })
unfolding tries
found_user = refl

refused_user :
    parse_path_to_route keep_raw refuse (some "GET") [] (codes "/users/5") later ≡ raise not_found
unfolding tries
refused_user = refl

wrong_method :
    parse_path_to_route keep_raw refuse (some "PUT") [] (codes "/home") later
    ≡ raise method_not_allowed
unfolding tries
wrong_method = refl

missing_user : traverse_route_map later.nodes (codes "/users") ≡ raise not_found
unfolding tries
missing_user = refl

empty_trie-WellFormed : WellFormed empty_trie.nodes
empty_trie-WellFormed = empty-WellFormed

-- A stack of CSRF alone.
csrf_only :
    layers (
      build_route_middleware_stack
        (record config { allowed_hosts = false })
        home
        (record handler { middleware = [] }))
    ≡ csrf_layer ∷ exception_layer ∷ []
unfolding build_route_middleware_stack has_middleware
csrf_only = refl

layers-build_route_middleware_stack_example :
    (layers (build_route_middleware_stack config home handler)
      ≡ with_exception_layer (custom_layers handler.middleware ++ configured_layers config home))
    × (endpoint (build_route_middleware_stack config home handler) ≡ 2)
layers-build_route_middleware_stack_example =
    layers-build_route_middleware_stack config home handler

add_route_to_trie-WellFormed_example :
    Placed
      (add_route_to_trie config empty_trie users).0.nodes
      (add_route_to_trie config empty_trie users).1
add_route_to_trie-WellFormed_example =
    add_route_to_trie-WellFormed config empty_trie users empty_trie-WellFormed

add_routes-WellFormed_example : WellFormed (add_routes config empty_trie (users ∷ home ∷ [])).nodes
add_routes-WellFormed_example =
    add_routes-WellFormed config empty_trie (users ∷ home ∷ []) empty_trie-WellFormed

user-Matches :
    Matches later.nodes root users.path_components (codes "users" ∷ codes "5" ∷ []) (codes "5" ∷ [])
unfolding tries
user-Matches = same (λ j e.
    let read : some 1 ≡ some j = e in
    let there : ◌≡◌ 1 j = cc in
    rw (← there) (
      value refl (λ k f. let leaf : some 2 ≡ some k = f in let at : ◌≡◌ 2 k = cc in rw (← at) refl)
        (λ k f. done)))

add_route_to_trie-Walk_example :
    Walk later.nodes root
      (codes "users" ∷ codes "5" ∷ [])
      (add_route_to_trie config empty_trie users).1
      (codes "5" ∷ [])
add_route_to_trie-Walk_example =
    add_route_to_trie-Walk config empty_trie users (home ∷ []) (codes "users" ∷ codes "5" ∷ [])
      (codes "5" ∷ []) empty_trie-WellFormed refl refl (refl, tt) user-Matches

traverse_route_map_iff_example :
    (traverse_route_map later.nodes (codes "/users/5")
      ≡ ok (record { node = 2; path_params = codes "5" ∷ [] }))
    ↔ (Walk later.nodes root (components (codes "/users/5")) 2 (codes "5" ∷ [])
        × (has_handlers later.nodes 2 ≡ true))
traverse_route_map_iff_example =
    traverse_route_map_iff later.nodes (codes "/users/5")
      (record { node = 2; path_params = codes "5" ∷ [] })

parse_path_to_route_error_example :
    (d : Exception) × ((resolve keep_raw refuse (some "GET") [] (codes "/users/5") later ≡ raise d)
      × (((d ≡ key_error) ⊎ ((d ≡ not_found) ⊎ IsParserError refuse d)) × Answered d not_found))
parse_path_to_route_error_example =
    parse_path_to_route_error keep_raw refuse (some "GET") [] (codes "/users/5") later not_found
      refused_user

abbrev raw_trie : Trie
raw_trie = (add_route_to_trie config empty_trie sockets).0

found_raw :
    traverse_route_map raw_trie.nodes (codes "/raw/5")
    ≡ ok (record { node = 2; path_params = codes "5" ∷ [] })
unfolding tries
found_raw = refl

configured_raw : node_at raw_trie.nodes 2 ≡ configure_node config sockets create_node
unfolding tries
configured_raw = refl

not_plain_raw : contains (codes "/raw/5") raw_trie.plain_routes ≡ false
unfolding tries
not_plain_raw = refl

unmatched_raw : match_mount (codes "/files" ∷ []) (codes "/raw/5") ≡ none
unfolding tries
unmatched_raw = refl

asgi_route_not_allowed_example :
    parse_path_to_route keep_raw refuse (some "GET") (codes "/files" ∷ []) (codes "/raw/5") raw_trie
    ≡ raise method_not_allowed
asgi_route_not_allowed_example =
    asgi_route_not_allowed keep_raw refuse config sockets handler create_node "GET"
      (codes "/files" ∷ []) (codes "/raw/5") raw_trie
      (record { node = 2; path_params = codes "5" ∷ [] }) refl refl configured_raw refl refl
      not_plain_raw unmatched_raw found_raw

new_home : has_key (component home.path) (node_at empty_trie.nodes root).children ≡ false
unfolding tries
new_home = refl

add_route_to_trie-plain_example :
    parse_path_to_route keep_raw refuse
      (some "POST")
      (codes "/" ∷ [])
      home.path
      (add_route_to_trie config empty_trie home).0
    ≡ ok (record {
      asgi_app = build_route_middleware_stack config home handler;
      handler = handler;
      path = home.path;
      path_params = [];
      path_template = home.path;
    })
add_route_to_trie-plain_example =
    add_route_to_trie-plain config home empty_trie empty_trie-WellFormed new_home
      (("GET", handler) ∷ ("POST", handler) ∷ []) (handler ∷ []) refl refl "POST" handler
      (refl, (refl, tt)) refl refl keep_raw refuse (codes "/" ∷ [])

validate_node_iff_example :
    ((validate_node (length later.nodes) later.nodes root ≡ some (ok tt))
      ↔ ((j : ℕ) → Reaches later.nodes root j → IsValid later.nodes (node_at later.nodes j)))
    × ((validate_node (length later.nodes) later.nodes root ≡ some (ok tt))
        ⊎ (validate_node (length later.nodes) later.nodes root
            ≡ some (raise improperly_configured)))
unfolding add_routes
validate_node_iff_example =
    validate_node_iff later.nodes
      (add_routes-WellFormed config empty_trie (users ∷ home ∷ []) empty_trie-WellFormed)
