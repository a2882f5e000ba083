-- ===== src/Trie/Registered.antt =====
-- A route with parameters stays reachable: a request that matches its components, with no value
-- that a listed component shadows, ends at the route's node, whatever is registered later.
use starlite.Trie.Nodes.{node_at-update_self}
use starlite.Trie.Adding.{place_route-Placed, add_route_to_trie-WellFormed, root_of}
use starlite.UrlPath.{normalize_path, join}
use starlite.Trie.Walking.{Walk, enter, bind, bind_rest}
use starlite.Trie.Components.{
  grown, add_component-Placed, next_of, next-Placed, add_component_lem, has_key-grown,
  node_at-grown, add_components-Placed,
}
use starlite.Prelude.Text.{Text}
use starlite.Prelude.Dict.{lookup, contains-keys}
use starlite.Trie.Invariant.{Placed}
use starlite.Trie.Growth.{
  Grows, add_components-Grows, update-Grows, set_path_type-NodeGrows, Grows-refl, Grows-trans,
  ensure_child-Grows, configure_node-NodeGrows,
}
use starlite.Route.{PathComponent, literal, parameter, PathParameterDefinition, ParamType}
use starlite.Trie.{
  Nodes, RouteTrieNode, node_at, component, key_Eq, sentinel, AppConfig, Trie, Route, root,
}
use starlite.Prelude.{
  ℕ, ◌≡◌, arith, Bool, List, [], ◌∷◌, false, true, some, refl, contains, nat_Eq, string_Eq, list_Eq,
  All, none, Bool-cases, is_nil, ◌∙◌, inl, ◌∙◌, inr,
}
use starlite.Trie.Mapping.{
  add_components, add_component, next_node_key, set_path_type, set_param_node, add_routes,
  add_route_to_trie, place_route, mount_handler, configure_node, add_param_route, add_plain_route,
}
use starlite.Trie.WellFormed.{WellFormed, child_at_lem}

abbrev is_parameter : PathComponent → Bool
is_parameter (literal _) = false
is_parameter (parameter _) = true

abbrev is_path_parameter : PathComponent → Bool
is_path_parameter (literal _) = false
is_path_parameter (parameter d) = elim d.type [ ParamType.path ↦ true | _ ↦ false ]

-- What one round of the loop leaves at the node `i` and its child `j`.
record Link (nodes : Nodes) (i j : ℕ) (c : PathComponent) : Type 0 where
  child : lookup (next_node_key c) (node_at nodes i).children ≡ some j
  listed : contains (next_node_key c) (node_at nodes i).child_keys ≡ true
  flagged : is_parameter c ≡ true → (node_at nodes i).is_path_param_node ≡ true
  typed : is_path_parameter c ≡ true → (node_at nodes j).is_path_type ≡ true

Link-mono :
    {old new : Nodes} {i j : ℕ} {c : PathComponent}
    → Grows old new
    → Link old i j c
    → Link new i j c
Link-mono {i} {j} {c} g l = record {
  child = (g.at i).child (next_node_key c) j l.child;
  listed = (g.at i).listed (next_node_key c) l.listed;
  flagged = λ h. (g.at i).flagged (l.flagged h);
  typed = λ h. (g.at j).typed (l.typed h);
}

-- The nodes from `i` to `k` that the components of a route name.
data Trail (nodes : Nodes) : ℕ → List PathComponent → ℕ → Type 0 where
  stop : {i : ℕ} → Trail nodes i [] i
  step :
      {i k : ℕ} {c : PathComponent} {cs : List PathComponent} (j : ℕ)
      → Link nodes i j c
      → Trail nodes j cs k
      → Trail nodes i (c ∷ cs) k

Trail-mono :
    {old new : Nodes} {i k : ℕ} {cs : List PathComponent}
    → Grows old new
    → Trail old i cs k
    → Trail new i cs k
Trail-mono g stop = stop
Trail-mono g (step j l t) = step j (Link-mono g l) (Trail-mono g t)

module _ (nodes : Nodes) (i : ℕ) (c : PathComponent) (p : Placed nodes i) where
  set_path_type-typed :
      (node : RouteTrieNode)
      → is_path_parameter c ≡ true
      → (set_path_type c node).is_path_type ≡ true
  set_path_type-typed node h = set_typed c node h
    where
      set_typed :
          (d : PathComponent) (n : RouteTrieNode)
          → is_path_parameter d ≡ true
          → (set_path_type d n).is_path_type ≡ true
      set_typed (literal _) n e = cc
      set_typed (parameter d) n e = ground arith

  set_param_node-flagged :
      (node : RouteTrieNode)
      → is_parameter c ≡ true
      → (set_param_node c node).is_path_param_node ≡ true
  set_param_node-flagged node h = set_flagged c node h
    where
      set_flagged :
          (d : PathComponent) (n : RouteTrieNode)
          → is_parameter d ≡ true
          → (set_param_node d n).is_path_param_node ≡ true
      set_flagged (literal _) n e = cc
      set_flagged (parameter d) n e = refl

  add_component-Link : Link (add_component nodes i c).0 i (add_component nodes i c).1 c
  add_component-Link =
      let made = grown nodes i c p in
      let next = next_of nodes i c p in
      let g =
        update-Grows made next (set_path_type c) (next-Placed nodes i c p).in_range
          (set_path_type-NodeGrows c _) in
      rw (add_component_lem nodes i c p) (record {
        child =
            (g.at i).child (next_node_key c) next
              (child_at_lem made i (next_node_key c) (has_key-grown nodes i c p));
        listed = (g.at i).listed (next_node_key c) (
            rw (node_at-grown nodes i c p) (
              contains-keys (next_node_key c) _
              ∙ (rw (node_at-grown nodes i c p) at (has_key-grown nodes i c p))));
        flagged =
            λ h. (g.at i).flagged (rw (node_at-grown nodes i c p) (set_param_node-flagged _ h));
        typed = λ h.
            rw (node_at-update_self made next (set_path_type c) (next-Placed nodes i c p).in_range)
              (set_path_type-typed _ h);
      })

add_components-Trail :
    (nodes : Nodes) (i : ℕ) (cs : List PathComponent)
    → Placed nodes i
    → Trail (add_components nodes i cs).0 i cs (add_components nodes i cs).1
unfolding add_components
add_components-Trail nodes i [] p = stop
add_components-Trail nodes i (c ∷ cs) p =
    let q = add_component-Placed nodes i c p in
    step (add_component nodes i c).1
      (Link-mono (add_components-Grows (add_component nodes i c).0 (add_component nodes i c).1 cs q)
        (add_component-Link nodes i c p))
      (add_components-Trail (add_component nodes i c).0 (add_component nodes i c).1 cs q)

-- A request matches the components of a route from node `i` on, with these parameter values: a
-- literal is met by itself, a parameter by a component that the node does not list, and a
-- parameter of the type `path`, which is the last one, by all that is left.
pub data Matches (nodes : Nodes) : ℕ → List PathComponent → List Text → List Text → Type 0 where
  done : {i : ℕ} → Matches nodes i [] [] []
  same :
      {i : ℕ} {t : Text} {cs : List PathComponent} {rs vs : List Text}
      → ((j : ℕ)
          → lookup (component t) (node_at nodes i).children ≡ some j
          → Matches nodes j cs rs vs)
      → Matches nodes i (literal t ∷ cs) (t ∷ rs) vs
  value :
      {i : ℕ} {d : PathParameterDefinition} {cs : List PathComponent} {r : Text} {rs vs : List Text}
      → contains (component r) (node_at nodes i).child_keys ≡ false
      → ((j : ℕ)
          → lookup sentinel (node_at nodes i).children ≡ some j
          → (node_at nodes j).is_path_type ≡ false)
      → ((j : ℕ) → lookup sentinel (node_at nodes i).children ≡ some j → Matches nodes j cs rs vs)
      → Matches nodes i (parameter d ∷ cs) (r ∷ rs) (r ∷ vs)
  rest :
      {i : ℕ} {d : PathParameterDefinition} {r : Text} {rs : List Text}
      → contains (component r) (node_at nodes i).child_keys ≡ false
      → d.type ≡ ParamType.path
      → Matches nodes i (parameter d ∷ []) (r ∷ rs) (normalize_path (join (r ∷ rs)) ∷ [])

Trail-Walk :
    (nodes : Nodes) {i k : ℕ} {cs : List PathComponent} {rs vs : List Text}
    → Trail nodes i cs k
    → Matches nodes i cs rs vs
    → Walk nodes i rs k vs
Trail-Walk nodes stop done = Walk.stop
Trail-Walk nodes (step j l t) (same f) = enter j l.listed l.child (Trail-Walk nodes t (f j l.child))
Trail-Walk nodes (step j l t) (value fresh untyped f) =
    bind j fresh (l.flagged refl) l.child (untyped j l.child) (Trail-Walk nodes t (f j l.child))
Trail-Walk nodes (step j l stop) (rest fresh typed) =
    bind_rest j fresh (l.flagged refl) l.child (l.typed (rw typed))

place_route-Grows :
    (trie : Trie) (route : Route)
    → WellFormed trie.nodes
    → mount_handler route.kind ≡ none
    → Grows trie.nodes (place_route trie route).0.nodes
unfolding place_route
place_route-Grows trie route w e =
    rw (e, place_route)
      (elim (Bool-cases (is_nil route.path_parameters)) [
        | inl n ↦ rw n (
            unfold add_plain_route in
            ensure_child-Grows trie.nodes root (component route.path) w.has_root)
        | inr n ↦ rw n (
            unfold add_param_route in
            add_components-Grows trie.nodes root route.path_components (root_of w))
      ])

add_route_to_trie-Grows :
    (config : AppConfig) (trie : Trie) (route : Route)
    → WellFormed trie.nodes
    → mount_handler route.kind ≡ none
    → Grows trie.nodes (add_route_to_trie config trie route).0.nodes
unfolding add_route_to_trie
add_route_to_trie-Grows config trie route w e =
    let placed = place_route-Placed trie route w in
    Grows-trans (place_route-Grows trie route w e) (
      update-Grows _ _ (configure_node config route) placed.in_range
        (configure_node-NodeGrows config route _))

add_routes-Grows :
    (config : AppConfig) (trie : Trie) (routes : List Route)
    → WellFormed trie.nodes
    → All (λ route. mount_handler route.kind ≡ none) routes
    → Grows trie.nodes (add_routes config trie routes).nodes
unfolding add_routes
add_routes-Grows config trie [] w h = Grows-refl trie.nodes
add_routes-Grows config trie (route ∷ routes) w (e, h) =
    Grows-trans (add_route_to_trie-Grows config trie route w e) (
      add_routes-Grows config (add_route_to_trie config trie route).0 routes
        (add_route_to_trie-WellFormed config trie route w).well_formed h)

add_route_to_trie-Trail :
    (config : AppConfig) (trie : Trie) (route : Route)
    → WellFormed trie.nodes
    → mount_handler route.kind ≡ none
    → is_nil route.path_parameters ≡ false
    → Trail
        (add_route_to_trie config trie route).0.nodes
        root
        route.path_components
        (add_route_to_trie config trie route).1
unfolding add_route_to_trie place_route
add_route_to_trie-Trail config trie route w e n =
    rw (e, place_route)
      (rw n (
        unfold add_param_route in
        let placed = add_components-Placed trie.nodes root route.path_components (root_of w) in
        Trail-mono
          (update-Grows _ _ (configure_node config route) placed.in_range
            (configure_node-NodeGrows config route _))
          (add_components-Trail trie.nodes root route.path_components (root_of w))))

-- A route that has parameters and is no mount is added to a trie that keeps the invariant, and any
-- routes but mounts after it. A request that still matches the components of the route in the final
-- trie walks there to the node that adding the route returned, and the walk collects the values of
-- the parameters. To match, a request has, at each node on the way, the literal component itself,
-- or, for a parameter, a component that the node does not list as a child, while the child for
-- parameters does not take the whole rest of the path; a parameter of the type `path` takes all
-- that is left.
pub add_route_to_trie-Walk :
    (config : AppConfig) (trie : Trie) (route : Route) (later : List Route) (rs vs : List Text)
    → WellFormed trie.nodes
    → mount_handler route.kind ≡ none
    → is_nil route.path_parameters ≡ false
    → All (λ r. mount_handler r.kind ≡ none) later
    → Matches
        (add_routes config (add_route_to_trie config trie route).0 later).nodes
        root
        route.path_components
        rs
        vs
    → Walk
        (add_routes config (add_route_to_trie config trie route).0 later).nodes
        root
        rs
        (add_route_to_trie config trie route).1
        vs
add_route_to_trie-Walk config trie route later rs vs w e n h m =
    Trail-Walk (add_routes config (add_route_to_trie config trie route).0 later).nodes
      (Trail-mono
        (add_routes-Grows config (add_route_to_trie config trie route).0 later
          (add_route_to_trie-WellFormed config trie route w).well_formed h)
        (add_route_to_trie-Trail config trie route w e n))
      m
