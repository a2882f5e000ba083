-- ===== src/Registration/HttpRoute.antt =====
-- routes/http.py: the handlers of an HTTP route, and the map from methods to handlers.
use starlite.Prelude.{
  ℕ, Option, none, List, [], ◌∷◌, ◌++◌, Result, ok, raise, improperly_configured, ◌>>=◌, contains,
  if◌then◌else◌, nat_Eq, list_Eq,
}
use starlite.Prelude.Dict.{Dict, insert, has_key}
use starlite.Prelude.Text.{Text, codes}

-- `HTTPRouteHandler`; the handler that a route makes for OPTIONS has no number.
pub record HttpRouteHandler : Type 0 where
  pub handler_id : Option ℕ
  pub http_methods : List Text

abbrev pub options : Text
options = codes "OPTIONS"

-- `create_options_handler`
abbrev pub options_handler : HttpRouteHandler
options_handler = record { handler_id = none; http_methods = options ∷ [] }

abbrev pub methods_of : List HttpRouteHandler → List Text
methods_of [] = []
methods_of (handler ∷ handlers) = handler.http_methods ++ methods_of handlers

-- `HTTPRoute.__init__`
unfoldable pub route_handlers_of : List HttpRouteHandler → List HttpRouteHandler
route_handlers_of handlers =
    if contains options (methods_of handlers) then handlers else handlers ++ options_handler ∷ []

-- `HTTPRoute.create_handler_map`, from the map so far
abbrev pub map_methods :
    HttpRouteHandler → List Text → Dict Text HttpRouteHandler → Result (Dict Text HttpRouteHandler)
map_methods handler [] handler_map = ok handler_map
map_methods handler (method ∷ methods) handler_map =
    let rest = map_methods handler methods (insert method handler handler_map) in
    if has_key method handler_map then raise improperly_configured else rest

unfoldable pub create_handler_map :
    List HttpRouteHandler → Dict Text HttpRouteHandler → Result (Dict Text HttpRouteHandler)
create_handler_map [] handler_map = ok handler_map
create_handler_map (handler ∷ handlers) handler_map =
    map_methods handler handler.http_methods handler_map >>= create_handler_map handlers
