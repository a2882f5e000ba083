-- ===== src/Registration.antt =====
-- router.py and routes/http.py: the registration of handlers on a router, and the map from methods to
-- handlers of an HTTP route. A handler is known by a number: that of the copy which registering it
-- makes. What `unique` returns is in the order of first occurrence, which the source leaves open.
pub mod HttpRoute
pub mod Constructed
pub mod Fresh
pub mod Replaced
pub mod Options
pub mod Methods
mod Tests
use starlite.Prelude.{
  ℕ, zero, suc, ◌+◌, Bool, true, false, ◌||◌, Option, none, some, List, [], ◌∷◌, ◌++◌, map, Result,
  ok, raise, improperly_configured, ◌>>=◌, contains, set, is_nil, if◌then◌else◌, ◌==◌, nat_Eq,
  list_Eq,
}
use starlite.Prelude.Dict.{Dict, lookup, insert, has_key, values}
use starlite.Prelude.Text.{Text, codes}
use starlite.UrlPath.{join_paths}
use starlite.Route.{parse_path}
pub use HttpRoute.{HttpRouteHandler}
unfoldable pub use HttpRoute.{
  options, options_handler, methods_of, route_handlers_of, map_methods, create_handler_map,
}

pub data Route : Type 0 where
  http_route : Text → List HttpRouteHandler → Route
  websocket_route : Text → ℕ → Route
  asgi_route : Text → ℕ → Route

-- The values of a `RouteHandlerMapItem`
pub data RouteHandler : Type 0 where
  http_handler : HttpRouteHandler → RouteHandler
  websocket_handler : ℕ → RouteHandler
  asgi_handler : ℕ → RouteHandler

pub record Router : Type 0 where
  pub path : Text
  pub routes : List Route

-- What is registered: a handler with its paths, or a router.
pub data Registered : Type 0 where
  http_value : List Text → HttpRouteHandler → Registered
  websocket_value : List Text → ℕ → Registered
  asgi_value : List Text → ℕ → Registered
  router_value : Router → Registered

abbrev pub RouteHandlerMapItem : Type 0
RouteHandlerMapItem = Dict Text RouteHandler

abbrev pub item_or_empty : Option RouteHandlerMapItem → RouteHandlerMapItem
item_or_empty none = []
item_or_empty (some item) = item

-- `route_map[path][key] = handler`
abbrev pub add_handler :
    Text → Text → RouteHandler → Dict Text RouteHandlerMapItem → Dict Text RouteHandlerMapItem
add_handler path key handler route_map =
    insert path (insert key handler (item_or_empty (lookup path route_map))) route_map

abbrev pub add_methods :
    Text
    → HttpRouteHandler
    → List Text
    → Dict Text RouteHandlerMapItem
    → Dict Text RouteHandlerMapItem
add_methods path handler [] route_map = route_map
add_methods path handler (method ∷ methods) route_map =
    add_methods path handler methods (add_handler path method (http_handler handler) route_map)

abbrev pub add_handlers :
    Text → List HttpRouteHandler → Dict Text RouteHandlerMapItem → Dict Text RouteHandlerMapItem
add_handlers path [] route_map = route_map
add_handlers path (handler ∷ handlers) route_map =
    add_handlers path handlers (add_methods path handler handler.http_methods route_map)

abbrev pub websocket : Text
websocket = codes "websocket"

abbrev pub asgi : Text
asgi = codes "asgi"

abbrev pub add_routes : List Route → Dict Text RouteHandlerMapItem → Dict Text RouteHandlerMapItem
add_routes [] route_map = route_map
add_routes (http_route path handlers ∷ routes) route_map =
    add_routes routes (add_handlers path handlers route_map)
add_routes (websocket_route path id ∷ routes) route_map =
    add_routes routes (add_handler path websocket (websocket_handler id) route_map)
add_routes (asgi_route path id ∷ routes) route_map =
    add_routes routes (add_handler path asgi (asgi_handler id) route_map)

unfoldable pub route_handler_method_map : List Route → Dict Text RouteHandlerMapItem
route_handler_method_map routes = add_routes routes []

-- `{path: item for path in value.paths}`
abbrev pub for_paths : RouteHandlerMapItem → List Text → Dict Text RouteHandlerMapItem
for_paths item [] = []
for_paths item (path ∷ paths) = (path, item) ∷ for_paths item paths

abbrev pub for_methods : HttpRouteHandler → List Text → RouteHandlerMapItem
for_methods handler [] = []
for_methods handler (method ∷ methods) =
    (method, http_handler handler) ∷ for_methods handler methods

unfoldable pub get_route_handler_map : Registered → Dict Text RouteHandlerMapItem
unfolding route_handler_method_map
get_route_handler_map (http_value paths handler) =
    for_paths (for_methods handler handler.http_methods) paths
get_route_handler_map (websocket_value paths id) =
    for_paths ((websocket, websocket_handler id) ∷ []) paths
get_route_handler_map (asgi_value paths id) = for_paths ((asgi, asgi_handler id) ∷ []) paths
get_route_handler_map (router_value router) = route_handler_method_map router.routes

-- `[handler for handler in … if isinstance(handler, HTTPRouteHandler)]`
abbrev pub http_handlers : List RouteHandler → List HttpRouteHandler
http_handlers [] = []
http_handlers (http_handler handler ∷ handlers) = handler ∷ http_handlers handlers
http_handlers (websocket_handler id ∷ handlers) = http_handlers handlers
http_handlers (asgi_handler id ∷ handlers) = http_handlers handlers

abbrev pub same_id : Option ℕ → Option ℕ → Bool
same_id none none = true
same_id none (some j) = false
same_id (some i) none = false
same_id (some i) (some j) = i == j

abbrev pub remove_id : Option ℕ → List HttpRouteHandler → List HttpRouteHandler
remove_id id [] = []
remove_id id (handler ∷ handlers) =
    let rest = remove_id id handlers in
    if same_id handler.handler_id id then rest else handler ∷ rest

abbrev pub unique : List HttpRouteHandler → List HttpRouteHandler
unique [] = []
unique (handler ∷ handlers) = handler ∷ remove_id handler.handler_id (unique handlers)

abbrev pub path_of : Route → Text
path_of (http_route path handlers) = path
path_of (websocket_route path id) = path
path_of (asgi_route path id) = path

abbrev pub suc_or_none : Option ℕ → Option ℕ
suc_or_none none = none
suc_or_none (some i) = some (suc i)

-- `find_index(self.routes, lambda x: x.path == path)`, where `none` is -1
unfoldable pub find_index : Text → List Route → Option ℕ
find_index path [] = none
find_index path (route ∷ routes) =
    let next = suc_or_none (find_index path routes) in
    if path_of route == path then some 0 else next

abbrev pub index_or_raise : Option ℕ → Result ℕ
index_or_raise none = raise improperly_configured
index_or_raise (some i) = ok i

-- The routes that a call adds or changes, and the routes of the router after it.
abbrev pub Changed : Type 0
Changed = List Route × List Route

-- The constructors of the routes, which parse the path and raise where it is not valid.
unfoldable pub make_http_route : Text → List HttpRouteHandler → Result Route
unfolding route_handlers_of parse_path
make_http_route path handlers =
    parse_path path >>= λ parsed. ok (http_route parsed.path (route_handlers_of handlers))

unfoldable pub make_websocket_route : Text → ℕ → Result Route
unfolding parse_path
make_websocket_route path id = parse_path path >>= λ parsed. ok (websocket_route parsed.path id)

unfoldable pub make_asgi_route : Text → ℕ → Result Route
unfolding parse_path
make_asgi_route path id = parse_path path >>= λ parsed. ok (asgi_route parsed.path id)

-- `self.routes.append(route)` and `routes.append(route)`
abbrev pub append_route : Changed → Result Route → Result Changed
append_route (new, routes) made = made >>= λ route. ok (new ++ route ∷ [], routes ++ route ∷ [])

-- the branch for HTTP handlers in `register`
unfoldable pub register_http :
    Text → List HttpRouteHandler → List HttpRouteHandler → Changed → Result Changed
unfolding make_http_route find_index
register_http path [] existing (new, routes) = ok (new, routes)
register_http path (handler ∷ handlers) [] (new, routes) =
    append_route (new, routes) (make_http_route path (handler ∷ handlers))
register_http path (handler ∷ handlers) (other ∷ others) (new, routes) =
    index_or_raise (find_index path routes) >>= λ i.
    make_http_route path ((handler ∷ handlers) ++ other ∷ others) >>= λ route.
    ok (new ++ route ∷ [], set routes i route)

abbrev pub register_other : Option RouteHandler → Text → Changed → Result Changed
unfolding make_websocket_route make_asgi_route
register_other none path changed = ok changed
register_other (some (http_handler handler)) path changed = ok changed
register_other (some (websocket_handler id)) path changed =
    append_route changed (make_websocket_route path id)
register_other (some (asgi_handler id)) path changed =
    append_route changed (make_asgi_route path id)

abbrev pub existing_handlers : Text → List Route → List HttpRouteHandler
unfolding route_handler_method_map
existing_handlers path routes =
    unique (http_handlers (values (item_or_empty (lookup path (route_handler_method_map routes)))))

-- one round of the loop of `register`
unfoldable pub register_path : Text → RouteHandlerMapItem → Changed → Result Changed
unfolding register_http existing_handlers register_other
register_path path item (new, routes) =
    register_http path (unique (http_handlers (values item))) (existing_handlers path routes)
      (new, routes)
    >>= register_other (lookup websocket item) path
    >>= register_other (lookup asgi item) path

abbrev pub register_paths : Text → Dict Text RouteHandlerMapItem → Changed → Result Changed
unfolding register_path join_paths
register_paths prefix [] changed = ok changed
register_paths prefix ((route_path, item) ∷ items) changed =
    register_path (join_paths (prefix ∷ route_path ∷ [])) item changed
    >>= register_paths prefix items

-- `Router.register`: the routes that it returns, and the router
unfoldable pub register : Registered → Router → Result (List Route × Router)
unfolding register_paths get_route_handler_map
register value router =
    register_paths router.path (get_route_handler_map value) ([], router.routes)
    >>= λ (new, routes). ok (new, record router { routes = routes })

abbrev pub create_maps : List Route → Result (Unit {0})
unfolding create_handler_map
create_maps [] = ok tt
create_maps (http_route path handlers ∷ routes) =
    create_handler_map handlers [] >>= λ _. create_maps routes
create_maps (websocket_route path id ∷ routes) = create_maps routes
create_maps (asgi_route path id ∷ routes) = create_maps routes

-- `Litestar.register` before the trie is constructed
unfoldable pub register_on_app : Registered → Router → Result Router
unfolding register create_maps
register_on_app value app = register value app >>= λ (new, app'). create_maps new >>= λ _. ok app'
