-- ===== src/Router/Tests.antt =====
-- Runs of the router, and its theorems for a route and two mounts.
use starlite.Prelude.{
  ◌≡◌, refl, true, false, Option, none, List, [], ◌∷◌, Result, ok, String, list_Eq, nat_Eq,
  if◌then◌else◌,
}
use starlite.Prelude.Text.{Text, codes}
use starlite.Route.{literal, ParamType}
use starlite.Trie.{Route, RouteHandler, AppConfig, asgi, http, empty_trie}
use starlite.UrlPath.{is_slash}
use starlite.Router.{Router, routed_path, construct_routing_trie}
use starlite.Router.Constructing.{construct_routing_trie_again}

abbrev config : AppConfig
config = record { csrf_config = false; compression_config = false; allowed_hosts = false }

abbrev mount : RouteHandler
mount = record { number = 1; is_mount = true; is_static = false; cache = false; middleware = [] }

abbrev handler : RouteHandler
handler = record mount { number = 2; is_mount = false }

abbrev files : Route
files = record {
  number = 1;
  path = codes "/files";
  path_format = codes "/files";
  path_components = literal (codes "files") ∷ [];
  path_parameters = [];
  kind = asgi mount;
}

abbrev home : Route
home = record {
  number = 2;
  path = codes "/home";
  path_format = codes "/home";
  path_components = literal (codes "home") ∷ [];
  path_parameters = [];
  kind = http (("GET", handler) ∷ []) (handler ∷ []);
}

abbrev routes : List Route
routes = files ∷ home ∷ []

abbrev new_router : Router
new_router = record {
  trie = empty_trie;
  mount_paths = [];
  registered_routes = [];
  route_handler_index = [];
  route_mapping = [];
}

abbrev name : RouteHandler → Option String
name _ = none

abbrev str : RouteHandler → String
str h = if h.is_mount then "files" else "home"

abbrev router : Router
unfolding construct_routing_trie
router = (construct_routing_trie name str config routes new_router).1

router_run :
    (router.mount_paths ≡ codes "/files" ∷ [])
    × (router.registered_routes ≡ 1 ∷ 2 ∷ [])
    × (router.trie.plain_routes ≡ codes "/home" ∷ [])
unfolding construct_routing_trie
router_run = (refl, refl, refl)

routed_path_run : routed_path (codes "/api") (codes "/api/home/") ≡ codes "/home"
unfolding routed_path is_slash
routed_path_run = refl

construct_routing_trie_again_example :
    construct_routing_trie name str config routes router ≡ (ok tt, router)
unfolding construct_routing_trie
construct_routing_trie_again_example =
    construct_routing_trie_again name str config routes new_router router refl

-- Two mounts, of which the path of one starts with the path of the other.
abbrev old_files : Route
old_files = record files {
  number = 3;
  path = codes "/files-old";
  path_format = codes "/files-old";
  path_components = literal (codes "files-old") ∷ [];
  kind = asgi (record mount { number = 3 });
}

abbrev both_mounts : Router
unfolding construct_routing_trie
both_mounts = (construct_routing_trie name str config (old_files ∷ files ∷ []) new_router).1

abbrev no_values : ParamType → Text → Result Text
no_values type value = ok value
