-- ===== src/Registration/Tests.antt =====
-- Routers with concrete handlers.
use starlite.Prelude.{
  ◌≡◌, refl, List, some, [], ◌∷◌, ok, raise, improperly_configured, ◌>>=◌, nat_Eq, list_Eq,
}
use starlite.Prelude.Dict.{Dict}
use starlite.Prelude.Text.{Text, codes}
use starlite.Registration.{
  HttpRouteHandler, http_route, websocket_route, asgi_route, Router, http_value, options,
  options_handler, route_handlers_of, find_index, existing_handlers, register, register_on_app,
}
use starlite.UrlPath.{is_slash, join_paths}
use starlite.Route.{ParsedPath, parse_path}
use starlite.Registration.Options.{handler_of, register_on_app-options}
use starlite.Registration.Replaced.{register_websocket_replaced}

abbrev root : Text
root = codes "/"

abbrev get : HttpRouteHandler
get = record { handler_id = some 2; http_methods = codes "GET" ∷ [] }

abbrev post : HttpRouteHandler
post = record { handler_id = some 3; http_methods = codes "POST" ∷ [] }

abbrev custom_options : HttpRouteHandler
custom_options = record { handler_id = some 4; http_methods = options ∷ [] }

abbrev new_router : Router
new_router = record { path = root; routes = [] }

abbrev with_get : Router
with_get = record { path = root; routes = http_route root (get ∷ options_handler ∷ []) ∷ [] }

abbrev with_websocket : Router
with_websocket = record {
  path = root;
  routes =
      asgi_route (codes "/other") 6
      ∷ websocket_route root 1
      ∷ http_route root (get ∷ options_handler ∷ [])
      ∷ [];
}

-- The other order is accepted.
options_first :
    (register_on_app (http_value (root ∷ []) custom_options) new_router
      >>= register_on_app (http_value (root ∷ []) get))
    ≡ ok (record new_router { routes = http_route root (get ∷ custom_options ∷ []) ∷ [] })
unfolding is_slash register_on_app
options_first = refl

-- Another handler of GET.
abbrev twice : List HttpRouteHandler
twice = get ∷ record get { handler_id = some 5 } ∷ []

register_on_app-options_example :
    register_on_app (http_value (root ∷ []) (handler_of 4 options [])) with_get
    ≡ raise improperly_configured
unfolding existing_handlers is_slash join_paths
register_on_app-options_example = register_on_app-options 4 options [] root with_get refl refl

abbrev parsed_root : ParsedPath
parsed_root = record { path = root; path_format = root; path_components = []; path_parameters = [] }

register_untyped :
    register_on_app (http_value (codes "{a}" ∷ []) get) new_router ≡ raise improperly_configured
unfolding is_slash register_on_app
register_untyped = refl

register_websocket_replaced_example :
    register (http_value (root ∷ []) (handler_of 3 (codes "POST") [])) with_websocket
    ≡ ok (
      http_route root (post ∷ get ∷ options_handler ∷ []) ∷ [],
      record with_websocket {
        routes =
            asgi_route (codes "/other") 6
            ∷ http_route root (post ∷ get ∷ options_handler ∷ [])
            ∷ http_route root (get ∷ options_handler ∷ [])
            ∷ [];
      },
    )
unfolding existing_handlers is_slash join_paths route_handlers_of parse_path find_index
register_websocket_replaced_example =
    register_websocket_replaced 3 (codes "POST") [] root with_websocket parsed_root 1
      (asgi_route (codes "/other") 6 ∷ []) (http_route root (get ∷ options_handler ∷ []) ∷ []) get
      (options_handler ∷ []) refl refl refl refl
