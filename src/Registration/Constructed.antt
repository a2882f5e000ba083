-- ===== src/Registration/Constructed.antt =====
-- The route that `Router.register` constructs for a path, which it has joined, and so normalized.
use starlite.Prelude.{List, ◌≡◌, refl, ◌∙◌, ok}
use starlite.Prelude.Text.{Text}
use starlite.UrlPath.{join_paths}
use starlite.UrlPath.Normal.{normalize_path_idempotent}
use starlite.Route.{ParsedPath, parse_path}
use starlite.Route.Format.{parse_path-path}
use starlite.Registration.{HttpRouteHandler, http_route, route_handlers_of, make_http_route}

parse_path-join_paths :
    (paths : List Text) (parsed : ParsedPath)
    → parse_path (join_paths paths) ≡ ok parsed
    → parsed.path ≡ join_paths paths
unfolding join_paths
parse_path-join_paths paths parsed h =
    parse_path-path (join_paths paths) parsed h ∙ normalize_path_idempotent _

pub make_http_route-join_paths :
    (paths : List Text) (parsed : ParsedPath) (handlers : List HttpRouteHandler)
    → parse_path (join_paths paths) ≡ ok parsed
    → make_http_route (join_paths paths) handlers
      ≡ ok (http_route (join_paths paths) (route_handlers_of handlers))
unfolding make_http_route
make_http_route-join_paths paths parsed handlers h =
    rw (h, parse_path-join_paths paths parsed h) refl
