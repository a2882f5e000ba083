-- ===== src/Trie/Invariant.antt =====
-- Every way of adding a route keeps the invariant of the trie.
use starlite.Trie.Nodes.{length-update}
use starlite.Prelude.Dict.{has_key, Dict}
use starlite.Trie.{
  RouteTrieNode, Nodes, node_at, Key, AppConfig, Route, RouteKind, http, websocket, RouteHandler,
  asgi, key_Eq,
}
use starlite.Route.{PathComponent, literal, parameter}
use starlite.Prelude.{
  ℕ, ◌<◌, ◌≡◌, arith, length, List, ◌∷◌, true, String, [], nat_Eq, refl, list_Eq, string_Eq,
}
use starlite.Trie.Mapping.{
  update, add_mount_components, configure_kind, set_handlers, configure_node, set_path_type,
  ensure_child, mount_key, child_at, set_handler,
}
use starlite.Trie.WellFormed.{
  WellFormed, NodeOk, update-WellFormed, ensure_child-WellFormed, has_key-ensure_child,
  length-le-ensure_child, child_at-range,
}

-- A node that keeps its children, its listed keys and its flag for a parameter.
pub record SameShape (old new : RouteTrieNode) : Type 0 where
  pub children : new.children ≡ old.children
  pub child_keys : new.child_keys ≡ old.child_keys
  pub flag : new.is_path_param_node ≡ old.is_path_param_node

SameShape-NodeOk :
    {n i : ℕ} {old new : RouteTrieNode} → SameShape old new → NodeOk n i old → NodeOk n i new
SameShape-NodeOk s o = record {
  children = rw s.children o.children;
  listed = λ k h. rw s.children (o.listed k (rw s.child_keys at h));
  flagged = λ h. rw s.children (o.flagged (rw s.flag at h));
}

set_handlers-SameShape :
    (config : AppConfig) (route : Route) (map : Dict String RouteHandler) (node : RouteTrieNode)
    → SameShape node (set_handlers config route map node)
unfolding set_handlers
set_handlers-SameShape config route [] node = record {
  children = refl;
  child_keys = refl;
  flag = refl;
}
set_handlers-SameShape config route ((m, h) ∷ map) node =
    let s = set_handlers-SameShape config route map (set_handler config route m h node) in
    record { children = s.children; child_keys = s.child_keys; flag = s.flag }

configure_kind-SameShape :
    (config : AppConfig) (route : Route) (kind : RouteKind) (node : RouteTrieNode)
    → SameShape node (configure_kind config route kind node)
unfolding configure_kind
configure_kind-SameShape config route (http map _) node =
    set_handlers-SameShape config route map node
configure_kind-SameShape config route (websocket h) node = record {
  children = refl;
  child_keys = refl;
  flag = refl;
}
configure_kind-SameShape config route (asgi h) node = record {
  children = refl;
  child_keys = refl;
  flag = refl;
}

pub configure_node-SameShape :
    (config : AppConfig) (route : Route) (node : RouteTrieNode)
    → SameShape node (configure_node config route node)
unfolding configure_node
configure_node-SameShape config route node =
    let s =
      configure_kind-SameShape config route route.kind
        (record node { path_template = route.path_format }) in
    record { children = s.children; child_keys = s.child_keys; flag = s.flag }

pub set_path_type-SameShape :
    (c : PathComponent) (node : RouteTrieNode) → SameShape node (set_path_type c node)
set_path_type-SameShape (literal _) node = record {
  children = refl;
  child_keys = refl;
  flag = refl;
}
set_path_type-SameShape (parameter d) node = record {
  children = ground arith;
  child_keys = ground arith;
  flag = ground arith;
}

-- A trie and a node of it.
pub record Placed (nodes : Nodes) (i : ℕ) : Type 0 where
  pub well_formed : WellFormed nodes
  pub in_range : i < length nodes

pub update-Placed :
    {nodes : Nodes} {i : ℕ} (f : RouteTrieNode → RouteTrieNode)
    → Placed nodes i
    → NodeOk (length nodes) i (f (node_at nodes i))
    → Placed (update nodes i f) i
update-Placed {nodes} {i} f p o = record {
  well_formed = update-WellFormed nodes i f p.well_formed p.in_range o;
  in_range = rw length-update p.in_range;
}

pub SameShape-Placed :
    {nodes : Nodes} {i : ℕ} (f : RouteTrieNode → RouteTrieNode)
    → ((node : RouteTrieNode) → SameShape node (f node))
    → Placed nodes i
    → Placed (update nodes i f) i
SameShape-Placed {nodes} {i} f same p =
    update-Placed f p (SameShape-NodeOk (same (node_at nodes i)) (p.well_formed.at i))

pub ensure_child-Placed :
    {nodes : Nodes} {i : ℕ} (k : Key) → Placed nodes i → Placed (ensure_child nodes i k) i
ensure_child-Placed {nodes} {i} k p = record {
  well_formed = ensure_child-WellFormed nodes i k p.well_formed p.in_range;
  in_range = omega (arith, p.in_range, length-le-ensure_child nodes i k p.well_formed p.in_range);
}

pub child_at-Placed :
    {nodes : Nodes} {i : ℕ} (k : Key)
    → Placed nodes i
    → has_key k (node_at nodes i).children ≡ true
    → Placed nodes (child_at nodes i k)
child_at-Placed {nodes} {i} k p h = record {
  well_formed = p.well_formed;
  in_range = (child_at-range nodes i k p.well_formed h).0;
}

pub add_mount_components-Placed :
    (nodes : Nodes) (i : ℕ) (cs : List PathComponent)
    → Placed nodes i
    → Placed (add_mount_components nodes i cs).0 (add_mount_components nodes i cs).1
unfolding add_mount_components
add_mount_components-Placed nodes i [] p = p
add_mount_components-Placed nodes i (c ∷ cs) p =
    let grown = ensure_child nodes i (mount_key c) in
    add_mount_components-Placed grown (child_at grown i (mount_key c)) cs (
      child_at-Placed (mount_key c) (ensure_child-Placed (mount_key c) p)
        (has_key-ensure_child nodes i (mount_key c) p.well_formed p.in_range))
