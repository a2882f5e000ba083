-- ===== src/Trie/Mapping.antt =====
-- _asgi/routing_trie/mapping.py: adding a route to the trie.
use starlite.Prelude.Dict.{has_key, insert, keys, lookup, Dict, values}
use starlite.Prelude.{
  ℕ, String, List, [], ◌∷◌, ◌++◌, Bool, true, Option, none, some, length, set, set_add,
  if◌then◌else◌, ◌==◌, nat_Eq, list_Eq, string_Eq, is_nil,
}
use starlite.Prelude.Text.{Text, codes}
use starlite.Route.{ParamType, PathComponent, literal, parameter}
use starlite.Trie.{
  Key, key_Eq, RouteHandler, RouteKind, Route, RouteTrieNode, create_node, Nodes, node_at, Trie,
  root, component, definition, sentinel, asgi, AppConfig, http, AsgiHandlerTuple, websocket,
}
use starlite.Trie.Stack.{build_route_middleware_stack}

-- An assignment to a field of an object.
abbrev pub update : Nodes → ℕ → (RouteTrieNode → RouteTrieNode) → Nodes
update nodes i f = set nodes i (f (node_at nodes i))

-- `node.children[key] = child`
abbrev pub set_child : Key → ℕ → RouteTrieNode → RouteTrieNode
set_child key child node = record node { children = insert key child node.children }

-- `if key not in node.children: node.children[key] = create_node()`
unfoldable pub ensure_child : Nodes → ℕ → Key → Nodes
ensure_child nodes i key =
    if has_key key (node_at nodes i).children
    then nodes
    else update (nodes ++ create_node ∷ []) i (set_child key (length nodes))

abbrev pub child_or : ℕ → Option ℕ → ℕ
child_or i none = i
child_or i (some j) = j

-- `node.children[key]`, after `ensure_child`
unfoldable pub child_at : Nodes → ℕ → Key → ℕ
child_at nodes i key = child_or i (lookup key (node_at nodes i).children)

-- the key of a component of a mount route, and of another route with parameters
abbrev pub mount_key : PathComponent → Key
mount_key (literal text) = component text
mount_key (parameter d) = definition d

abbrev pub next_node_key : PathComponent → Key
next_node_key (literal text) = component text
next_node_key (parameter d) = sentinel

-- the loop of `add_mount_route`
unfoldable pub add_mount_components : Nodes → ℕ → List PathComponent → Nodes × ℕ
unfolding ensure_child child_at
add_mount_components nodes i [] = (nodes, i)
add_mount_components nodes i (c ∷ cs) =
    let nodes' = ensure_child nodes i (mount_key c) in
    add_mount_components nodes' (child_at nodes' i (mount_key c)) cs

abbrev pub slash_path : Text
slash_path = codes "/"

abbrev pub set_mount : Bool → RouteTrieNode → RouteTrieNode
set_mount is_static node = record node { is_mount = true; is_static = is_static }

-- the first part of `add_mount_route`: the node to mount at, which is the root itself if the whole
-- path is a key of the root already
unfoldable pub mount_place : Trie → Route → Nodes × ℕ
unfolding add_mount_components
mount_place trie route =
    if has_key (component route.path) (node_at trie.nodes root).children
    then (trie.nodes, root)
    else add_mount_components trie.nodes root route.path_components

-- `add_mount_route` at the root, where its only caller calls it: in the source `root_node` and
-- `current_node` are then one object
unfoldable pub add_mount_route : Trie → Route → RouteHandler → Trie × ℕ
add_mount_route trie route handler =
    let (nodes, current) = mount_place trie route in
    let nodes' = update nodes current (set_mount handler.is_static) in
    (
      record trie {
        nodes =
            if route.path == slash_path
            then nodes'
            else update nodes' root (set_child (component route.path) current);
        mount_routes = insert route.path current trie.mount_routes;
      },
      current,
    )

abbrev pub set_param_node : PathComponent → RouteTrieNode → RouteTrieNode
set_param_node (literal _) node = node
set_param_node (parameter _) node = record node { is_path_param_node = true }

abbrev pub set_child_keys : RouteTrieNode → RouteTrieNode
set_child_keys node = record node { child_keys = keys node.children }

abbrev pub set_path_type : PathComponent → RouteTrieNode → RouteTrieNode
set_path_type (literal _) node = node
set_path_type (parameter d) node = elim d.type [
  | ParamType.path ↦ record node { is_path_type = true }
  | _ ↦ node
]

-- one round of the loop of `add_route_to_trie`: the nodes, and the child that it goes on with
unfoldable pub add_component : Nodes → ℕ → PathComponent → Nodes × ℕ
unfolding ensure_child child_at
add_component nodes i c =
    let key = next_node_key c in
    let flagged = update nodes i (set_param_node c) in
    let grown = update (ensure_child flagged i key) i set_child_keys in
    let next = child_at grown i key in (update grown next (set_path_type c), next)

unfoldable pub add_components : Nodes → ℕ → List PathComponent → Nodes × ℕ
unfolding add_component
add_components nodes i [] = (nodes, i)
add_components nodes i (c ∷ cs) =
    let (nodes', next) = add_component nodes i c in add_components nodes' next cs

abbrev pub handler_tuple : AppConfig → Route → RouteHandler → AsgiHandlerTuple
handler_tuple config route handler = record {
  asgi_app = build_route_middleware_stack config route handler;
  handler = handler;
}

-- the two assignments of `configure_node` for one handler
abbrev pub set_handler : AppConfig → Route → String → RouteHandler → RouteTrieNode → RouteTrieNode
set_handler config route key handler node = record node {
  asgi_handlers = insert key (handler_tuple config route handler) node.asgi_handlers;
  path_parameters = insert key (values route.path_parameters) node.path_parameters;
}

unfoldable pub set_handlers :
    AppConfig → Route → Dict String RouteHandler → RouteTrieNode → RouteTrieNode
set_handlers config route [] node = node
set_handlers config route ((method, handler) ∷ rest) node =
    set_handlers config route rest (set_handler config route method handler node)

unfoldable pub configure_kind : AppConfig → Route → RouteKind → RouteTrieNode → RouteTrieNode
unfolding set_handlers
configure_kind config route (http map _) node = set_handlers config route map node
configure_kind config route (websocket handler) node =
    set_handler config route "websocket" handler node
configure_kind config route (asgi handler) node =
    record (set_handler config route "asgi" handler node) { is_asgi = true }

unfoldable pub configure_node : AppConfig → Route → RouteTrieNode → RouteTrieNode
unfolding configure_kind
configure_node config route node =
    configure_kind config route route.kind (record node { path_template = route.path_format })

-- `route.route_handler` if that is a mount; only an ASGI route handler has the attribute
abbrev pub mount_handler : RouteKind → Option RouteHandler
mount_handler (asgi handler) = if handler.is_mount then some handler else none
mount_handler _ = none

-- the second branch of `add_route_to_trie`: a route without parameters
unfoldable pub add_plain_route : Trie → Route → Trie × ℕ
unfolding ensure_child child_at
add_plain_route trie route =
    let nodes = ensure_child trie.nodes root (component route.path) in
    (
      record trie { nodes = nodes; plain_routes = set_add route.path trie.plain_routes },
      child_at nodes root (component route.path),
    )

-- the third branch: a route with parameters
unfoldable pub add_param_route : Trie → Route → Trie × ℕ
unfolding add_components
add_param_route trie route =
    let (nodes, current) = add_components trie.nodes root route.path_components in
    (record trie { nodes = nodes }, current)

unfoldable pub place_route : Trie → Route → Trie × ℕ
unfolding add_mount_route mount_place add_plain_route add_param_route
place_route trie route = elim (mount_handler route.kind) [
  | some handler ↦ add_mount_route trie route handler
  | none ↦
      if is_nil route.path_parameters
      then add_plain_route trie route
      else add_param_route trie route
]

unfoldable pub add_route_to_trie : AppConfig → Trie → Route → Trie × ℕ
unfolding place_route configure_node
add_route_to_trie config trie route =
    let (placed, current) = place_route trie route in
    (record placed { nodes = update placed.nodes current (configure_node config route) }, current)

unfoldable pub add_routes : AppConfig → Trie → List Route → Trie
unfolding add_route_to_trie
add_routes config trie [] = trie
add_routes config trie (route ∷ routes) =
    add_routes config (add_route_to_trie config trie route).0 routes
