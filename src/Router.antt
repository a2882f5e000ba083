-- ===== src/Router.antt =====
-- _asgi/asgi_router.py: the router that owns the trie. A route is known by its number, as routes
-- are compared by identity; the names of handlers are parameters.
pub mod Mounts
pub mod Constructing
mod Tests
use starlite.Prelude.{
  ℕ, Bool, true, false, not, ◌&&◌, Option, none, some, List, [], ◌∷◌, ◌++◌, Result, ok, raise,
  Exception, improperly_configured, other, String, length, contains, keep, is_nil, drop, nat_eq,
  ltb, if◌then◌else◌, ◌==◌, nat_Eq, list_Eq, string_Eq, set_add,
}
use starlite.Prelude.Dict.{Dict, lookup, insert, has_key, keys}
use starlite.Prelude.Text.{Text, starts_with}
use starlite.Prelude.Sorting.{sorted}
use starlite.UrlPath.{normalize_path}
use starlite.Trie.{RouteHandler, RouteKind, http, websocket, asgi, Route, AppConfig, Trie, root}
use starlite.Trie.Mapping.{add_route_to_trie}
use starlite.Trie.Traversal.{Resolved, parse_path_to_route}
use starlite.Trie.Validation.{validate_node}
use starlite.Route.{ParamType}

-- `mount_paths` are the alternatives of the regular expression, and none if there is none.
pub record Router : Type 0 where
  pub trie : Trie
  pub mount_paths : List Text
  pub registered_routes : List ℕ
  pub route_handler_index : Dict String RouteHandler
  pub route_mapping : Dict String (List ℕ)

abbrev pub get_route_handlers : RouteKind → List RouteHandler
get_route_handlers (http _ handlers) = handlers
get_route_handlers (websocket handler) = handler ∷ []
get_route_handlers (asgi handler) = handler ∷ []

abbrev pub routes_or_none : Option (List ℕ) → List ℕ
routes_or_none none = []
routes_or_none (some routes) = routes

-- `path.split(root_path, maxsplit=1)[-1]`, for a root path that is not empty
unfoldable pub after_first : Text → Text → Option Text
after_first root_path [] = none
after_first root_path (c ∷ cs) =
    let later = after_first root_path cs in
    if starts_with (c ∷ cs) root_path then some (drop (length root_path) (c ∷ cs)) else later

abbrev pub after_or_all : Text → Option Text → Text
after_or_all path none = path
after_or_all path (some rest) = rest

-- the path that `__call__` routes by
unfoldable pub routed_path : Text → Text → Text
unfolding after_first normalize_path
routed_path root_path path =
    normalize_path
      (if is_nil root_path then path else after_or_all path (after_first root_path path))

-- `self._registered_routes.add(route)`, and the routes after it
abbrev pub registered :
    ℕ
    → (Router → Result (Unit {0}) × Router)
    → Result (Unit {0}) × Router
    → Result (Unit {0}) × Router
registered number next (raise e, router) = (raise e, router)
registered number next (ok _, router) =
    next (record router { registered_routes = set_add number router.registered_routes })

-- The nodes are at most as deep as there are, so the fuel does not run out.
abbrev pub validated : Option (Result (Unit {0})) → Result (Unit {0})
validated none = raise (other 0)
validated (some result) = result

abbrev pub with_mounts : Router → Result (Unit {0}) → Result (Unit {0}) × Router
with_mounts router (raise e) = (raise e, router)
with_mounts router (ok _) = (
  ok tt,
  record router {
    mount_paths =
        if is_nil router.trie.mount_routes
        then router.mount_paths
        else sorted (keys router.trie.mount_routes);
  },
)

abbrev pub finished : Result (Unit {0}) × Router → Result (Unit {0}) × Router
finished (raise e, router) = (raise e, router)
finished (ok _, router) =
    with_mounts router (validated (validate_node (length router.trie.nodes) router.trie.nodes root))

abbrev pub new_routes : List Route → Router → List Route
new_routes routes router =
    keep (λ route. not (contains route.number router.registered_routes)) routes

module _ (name : RouteHandler → Option String) (str : RouteHandler → String) where
  abbrev pub identifier_or : Option String → String → String
  identifier_or none text = text
  identifier_or (some given) text = if given == "" then text else given

  abbrev pub is_same : Option RouteHandler → RouteHandler → Bool
  is_same none handler = true
  is_same (some held) handler = str held == str handler

  -- whether a name is free for a handler, or is the handler's own
  abbrev pub is_unique : Option String → RouteHandler → Dict String RouteHandler → Bool
  is_unique none handler index = true
  is_unique (some given) handler index = is_same (lookup given index) handler

  -- the loop of `_store_handler_to_route_mapping`
  unfoldable pub store_handlers : ℕ → List RouteHandler → Router → Result (Unit {0}) × Router
  store_handlers number [] router = (ok tt, router)
  store_handlers number (handler ∷ handlers) router =
      let identifier = identifier_or (name handler) (str handler) in
      let stored = record router {
        route_mapping =
            insert identifier
              (routes_or_none (lookup identifier router.route_mapping) ++ number ∷ [])
              router.route_mapping;
        route_handler_index = insert identifier handler router.route_handler_index;
      } in
      let rest = store_handlers number handlers stored in
      if is_unique (name handler) handler router.route_handler_index
      then rest
      else (raise improperly_configured, router)

  -- the loop of `construct_routing_trie`
  unfoldable pub add_new_routes : AppConfig → List Route → Router → Result (Unit {0}) × Router
  unfolding add_route_to_trie store_handlers
  add_new_routes config [] router = (ok tt, router)
  add_new_routes config (route ∷ routes) router =
      registered route.number (add_new_routes config routes) (
        store_handlers route.number (get_route_handlers route.kind)
          (record router { trie = (add_route_to_trie config router.trie route).0 }))

  unfoldable pub construct_routing_trie :
      AppConfig → List Route → Router → Result (Unit {0}) × Router
  unfolding add_new_routes validate_node
  construct_routing_trie config routes router =
      finished (add_new_routes config (new_routes routes router) router)

-- `__call__` up to the call of the application
module _ {Value : Type 0} (raw : Text → Value) (parser : ParamType → Text → Result Value) where
  unfoldable pub handle_routing : Option String → Text → Text → Router → Result (Resolved Value)
  unfolding parse_path_to_route routed_path
  handle_routing method root_path path router =
      parse_path_to_route raw parser method router.mount_paths (routed_path root_path path)
        router.trie
