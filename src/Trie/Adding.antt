-- ===== src/Trie/Adding.antt =====
-- Adding a route, whichever of its three branches is taken, keeps the invariant of the trie.
use starlite.Trie.Components.{add_components-Placed}
use starlite.Trie.Nodes.{length-update}
use starlite.Prelude.Dict.{has_key}
use starlite.Trie.Invariant.{
  Placed, SameShape, child_at-Placed, SameShape-Placed, configure_node-SameShape,
  ensure_child-Placed, add_mount_components-Placed,
}
use starlite.Trie.{
  Nodes, Trie, AppConfig, Key, RouteTrieNode, root, Route, RouteHandler, component, node_at, key_Eq,
}
use starlite.Prelude.{
  ℕ, arith, Bool, List, Option-cases, Bool-cases, ◌∷◌, refl, [], ◌==◌, inl, is_nil, inr, length,
  string_Eq, nat_Eq, list_Eq,
}
use starlite.Trie.Mapping.{
  update, add_routes, add_plain_route, add_mount_route, place_route, mount_place, add_route_to_trie,
  set_mount, set_child, mount_handler, configure_node, slash_path, add_param_route,
}
use starlite.Trie.WellFormed.{WellFormed, update-WellFormed, set_child-NodeOk, has_key-ensure_child}

pub root_of : {nodes : Nodes} → WellFormed nodes → Placed nodes root
root_of w = record { well_formed = w; in_range = w.has_root }

set_mount-SameShape :
    (is_static : Bool) (node : RouteTrieNode) → SameShape node (set_mount is_static node)
set_mount-SameShape is_static node = record { children = refl; child_keys = refl; flag = refl }

-- A child of the root is any object.
alias-Placed :
    (nodes : Nodes) (i : ℕ) (k : Key)
    → Placed nodes i
    → Placed (update nodes root (set_child k i)) i
alias-Placed nodes i k p = record {
  well_formed = update-WellFormed nodes root (set_child k i) p.well_formed p.well_formed.has_root (
      set_child-NodeOk (length nodes) root k i (node_at nodes root) p.in_range (omega arith)
        (p.well_formed.at root));
  in_range = rw length-update p.in_range;
}

mount_place-Placed :
    (trie : Trie) (route : Route)
    → WellFormed trie.nodes
    → Placed (mount_place trie route).0 (mount_place trie route).1
unfolding mount_place
mount_place-Placed trie route w =
    elim (Bool-cases (has_key (component route.path) (node_at trie.nodes root).children)) [
      | inl e ↦ rw e (root_of w)
      | inr e ↦ rw e (add_mount_components-Placed trie.nodes root route.path_components (root_of w))
    ]

add_mount_route-Placed :
    (trie : Trie) (route : Route) (handler : RouteHandler)
    → WellFormed trie.nodes
    → Placed (add_mount_route trie route handler).0.nodes (add_mount_route trie route handler).1
unfolding add_mount_route
add_mount_route-Placed trie route handler w =
    let marked =
      SameShape-Placed (set_mount handler.is_static) (set_mount-SameShape handler.is_static)
        (mount_place-Placed trie route w) in
    elim (Bool-cases (route.path == slash_path)) [
      | inl e ↦ rw e marked
      | inr e ↦ rw e (alias-Placed _ _ (component route.path) marked)
    ]

add_plain_route-Placed :
    (trie : Trie) (route : Route)
    → WellFormed trie.nodes
    → Placed (add_plain_route trie route).0.nodes (add_plain_route trie route).1
unfolding add_plain_route
add_plain_route-Placed trie route w =
    child_at-Placed (component route.path) (ensure_child-Placed (component route.path) (root_of w))
      (has_key-ensure_child trie.nodes root (component route.path) w w.has_root)

pub place_route-Placed :
    (trie : Trie) (route : Route)
    → WellFormed trie.nodes
    → Placed (place_route trie route).0.nodes (place_route trie route).1
unfolding place_route
place_route-Placed trie route w = elim (Option-cases (mount_handler route.kind)) [
  | inl e ↦
      rw (e, place_route)
        (elim (Bool-cases (is_nil route.path_parameters)) [
          | inl n ↦ rw n (add_plain_route-Placed trie route w)
          | inr n ↦ rw n (
              unfold add_param_route in
              add_components-Placed trie.nodes root route.path_components (root_of w))
        ])
  | inr (handler, e) ↦ rw (e, place_route) (add_mount_route-Placed trie route handler w)
]

-- Adding a route keeps the invariant, and the node that it returns is an object of the trie.
pub add_route_to_trie-WellFormed :
    (config : AppConfig) (trie : Trie) (route : Route)
    → WellFormed trie.nodes
    → Placed (add_route_to_trie config trie route).0.nodes (add_route_to_trie config trie route).1
unfolding add_route_to_trie
add_route_to_trie-WellFormed config trie route w =
    SameShape-Placed (configure_node config route) (configure_node-SameShape config route)
      (place_route-Placed trie route w)

-- Adding any routes, in any order, to a trie that keeps the invariant gives one that keeps it.
pub add_routes-WellFormed :
    (config : AppConfig) (trie : Trie) (routes : List Route)
    → WellFormed trie.nodes
    → WellFormed (add_routes config trie routes).nodes
unfolding add_routes
add_routes-WellFormed config trie [] w = w
add_routes-WellFormed config trie (route ∷ routes) w =
    add_routes-WellFormed config (add_route_to_trie config trie route).0 routes
      (add_route_to_trie-WellFormed config trie route w).well_formed
