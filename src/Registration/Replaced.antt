-- ===== src/Registration/Replaced.antt =====
-- Registering an HTTP handler on a path whose first route is of a websocket handler.
use starlite.Prelude.{
  ℕ, suc, ◌≡◌, refl, ap, ◌∙◌, true, none, some, set, List, [], ◌∷◌, ◌++◌, ok, ◌==◌, nat_Eq, list_Eq,
  beq_refl,
}
use starlite.Prelude.Text.{Text}
use starlite.UrlPath.{join_paths}
use starlite.Route.{ParsedPath, parse_path}
use starlite.Registration.{
  HttpRouteHandler, Route, http_route, websocket_route, Router, http_value, route_handlers_of,
  path_of, find_index, register_http, existing_handlers, register,
}
use starlite.Registration.Constructed.{make_http_route-join_paths}
use starlite.Registration.Options.{handler_of, register-http_value}
use starlite.Registration.Fresh.{find_index_cons}

-- The route of a path after a handler was registered that joins those that are there.
abbrev pub joined_route : Text → HttpRouteHandler → List HttpRouteHandler → Route
joined_route path handler existing = http_route path (route_handlers_of (handler ∷ existing))

-- The first route of the path is behind those that are of other paths.
find_index-append :
    (path : Text) (route : Route) (before after : List Route)
    → find_index path before ≡ none
    → (path_of route == path) ≡ true
    → (i : ℕ) × (find_index path (before ++ route ∷ after) ≡ some i)
      × ((new : Route) → set (before ++ route ∷ after) i new ≡ before ++ new ∷ after)
unfolding find_index
find_index-append path route [] after none_before same = (0, rw same refl, λ new. refl)
find_index-append path route (first ∷ before) after none_before same =
    let (other, none_later) = find_index_cons path first before none_before in
    let (i, found, replaced) = find_index-append path route before after none_later same in
    (suc i, rw (other, found) refl, λ new. ap (λ rest. first ∷ rest) (replaced new))

-- Where the first route of a path that can be parsed, wherever it is among the routes of the router,
-- is that of a websocket handler, and the path has HTTP handlers too, registering an HTTP handler on
-- the path puts the new route of the HTTP handlers in the place of the websocket handler's route, and
-- leaves all other routes as they are, the old route of the HTTP handlers too.
pub register_websocket_replaced :
    (id : ℕ) (method : Text) (methods : List Text) (path : Text) (router : Router)
    (parsed : ParsedPath) (websocket_id : ℕ) (before after : List Route)
    (existing : HttpRouteHandler) (others : List HttpRouteHandler)
    → parse_path (join_paths (router.path ∷ path ∷ [])) ≡ ok parsed
    → router.routes
      ≡ before ++ websocket_route (join_paths (router.path ∷ path ∷ [])) websocket_id ∷ after
    → find_index (join_paths (router.path ∷ path ∷ [])) before ≡ none
    → existing_handlers (join_paths (router.path ∷ path ∷ [])) router.routes ≡ existing ∷ others
    → register (http_value (path ∷ []) (handler_of id method methods)) router
      ≡ ok (
        joined_route
              (join_paths (router.path ∷ path ∷ []))
              (handler_of id method methods)
              (existing ∷ others)
            ∷ [],
        record router {
          routes =
              before
              ++ joined_route
                  (join_paths (router.path ∷ path ∷ []))
                  (handler_of id method methods)
                  (existing ∷ others)
                ∷ after;
        },
      )
unfolding register_http
register_websocket_replaced id method methods path router parsed websocket_id before after existing
      others accepted split first there =
    let whole = join_paths (router.path ∷ path ∷ []) in
    let (i, found, replaced) =
      find_index-append whole (websocket_route whole websocket_id) before after first
        (beq_refl whole) in
    let handlers = handler_of id method methods ∷ existing ∷ others in
    register-http_value id method methods path router
    ∙ rw
        (
          there,
          split,
          found,
          make_http_route-join_paths (router.path ∷ path ∷ []) parsed handlers accepted,
          replaced _,
        )
        refl
