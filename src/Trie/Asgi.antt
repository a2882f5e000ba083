-- ===== src/Trie/Asgi.antt =====
-- Requests that reach the node of an ASGI route.
use starlite.Prelude.Dict.{lookup, lookup-insert}
use starlite.Route.{ParamType}
use starlite.Trie.{
  Trie, RouteTrieNode, RouteHandler, Route, AppConfig, AsgiHandlerTuple, node_at, asgi,
}
use starlite.Prelude.Text.{Text}
use starlite.Trie.Mapping.{configure_node, configure_kind, set_handler, handler_tuple}
use starlite.Trie.Traversal.{traverse_route_map, Found, match_mount, parse_path_to_route}
use starlite.Prelude.{
  ◌≡◌, Result, List, String, true, false, ok, raise, contains, some, none, [], ◌==◌,
  method_not_allowed, string_Eq, list_Eq, nat_Eq, refl, ap, ◌∙◌,
}

module _ (config : AppConfig) (route : Route) (handler : RouteHandler)
    (is_asgi_route : route.kind ≡ asgi handler) (node : RouteTrieNode) where
  abbrev after : RouteTrieNode
  after =
      record (set_handler config route "asgi" handler
        (record node { path_template = route.path_format })) { is_asgi = true }

  configured : configure_node config route node ≡ after
  unfolding configure_node configure_kind
  configured =
      ap (λ k. configure_kind config route k (record node { path_template = route.path_format }))
        is_asgi_route

module _ {Value : Type 0} (raw : Text → Value) (parser : ParamType → Text → Result Value) where
  missing_parameters :
      (method : String) (mounts : List Text) (path : Text) (trie : Trie) (f : Found)
      (handlers : AsgiHandlerTuple)
      → (method == "") ≡ false
      → contains path trie.plain_routes ≡ false
      → match_mount mounts path ≡ none
      → traverse_route_map trie.nodes path ≡ ok f
      → (node_at trie.nodes f.node).is_asgi ≡ true
      → lookup "asgi" (node_at trie.nodes f.node).asgi_handlers ≡ some handlers
      → lookup method (node_at trie.nodes f.node).path_parameters ≡ none
      → parse_path_to_route raw parser (some method) mounts path trie ≡ raise method_not_allowed
  unfolding parse_path_to_route
  missing_parameters method mounts path trie f handlers named fresh unmatched found flagged present
        missing =
      rw fresh (rw unmatched (rw found (rw flagged (rw present (rw named (rw missing))))))

  -- Where an ASGI route was configured at a node that had no parameters of handlers, a request that
  -- walks to the node is answered by 405, though an ASGI handler takes every method, if the request
  -- has a method, other than `asgi`, and its path is no plain route and matches no mount: the
  -- definitions of parameters are looked up under the method, and stand under `asgi`.
  pub asgi_route_not_allowed :
      (config : AppConfig) (route : Route) (handler : RouteHandler) (node : RouteTrieNode)
      (method : String) (mounts : List Text) (path : Text) (trie : Trie) (f : Found)
      → route.kind ≡ asgi handler
      → node.path_parameters ≡ []
      → node_at trie.nodes f.node ≡ configure_node config route node
      → (method == "") ≡ false
      → ("asgi" == method) ≡ false
      → contains path trie.plain_routes ≡ false
      → match_mount mounts path ≡ none
      → traverse_route_map trie.nodes path ≡ ok f
      → parse_path_to_route raw parser (some method) mounts path trie ≡ raise method_not_allowed
  asgi_route_not_allowed config route handler node method mounts path trie f kind bare here named
        other fresh unmatched found =
      let there : node_at trie.nodes f.node ≡ after config route handler kind node =
        here ∙ configured config route handler kind node in
      missing_parameters method mounts path trie f (handler_tuple config route handler) named fresh
        unmatched found (ap (λ n. n.is_asgi) there)
        (ap (λ n. lookup "asgi" n.asgi_handlers) there
          ∙ (lookup-insert "asgi" "asgi" (handler_tuple config route handler) node.asgi_handlers
              ∙ refl))
        (ap (λ n. lookup method n.path_parameters) there ∙ rw bare (rw other))
