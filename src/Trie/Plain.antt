-- ===== src/Trie/Plain.antt =====
-- A plain route that was added answers for its path and each of its methods.
use starlite.Trie.Stack.{build_route_middleware_stack}
use starlite.Route.{ParamType}
use starlite.Prelude.Text.{Text}
use starlite.Trie.Traversal.{parse_path_to_route, parse_node_handlers, resolve, resolve_plain}
use starlite.Trie.Nodes.{node_at-update_self, node_at-update_ne, node_at-append_new, node_at_past}
use text.Mathlib.TextEquality.{eq_iff}
use starlite.Prelude.Dict.{Dict, has_key, NodupKeys, lookup, lookup-insert}
use starlite.Trie.{
  AppConfig, Route, RouteHandler, RouteTrieNode, Trie, component, node_at, root, create_node,
  key_Eq, http, Nodes,
}
use starlite.Prelude.{
  ◌<◌, ◌≡◌, arith, String, false, some, [], ◌∷◌, Bool-cases, ◌==◌, refl, inl, nat_Eq, list_Eq,
  string_Eq, ◌∙◌, length, ◌∙◌, ap, inr, ◌++◌, ◌++◌, length-append, beq_refl, List, is_nil, true,
  length-set, set_add, ok, Result, contains-set_add,
}
use starlite.Trie.Mapping.{
  update, set_handlers, handler_tuple, set_handler, ensure_child, set_child, configure_node,
  add_route_to_trie, place_route, configure_kind, add_plain_route, child_at,
}
use starlite.Trie.WellFormed.{WellFormed}

module _ (config : AppConfig) (route : Route) where
  handlers-set_handlers_absent :
      (m : String) (map : Dict String RouteHandler) (node : RouteTrieNode)
      → has_key m map ≡ false
      → lookup m (set_handlers config route map node).asgi_handlers ≡ lookup m node.asgi_handlers
  unfolding set_handlers
  handlers-set_handlers_absent m [] node h = refl
  handlers-set_handlers_absent m ((k, handler) ∷ map) node h = ground (
    arith,
    handlers-set_handlers_absent m map (set_handler config route k handler node),
    lookup-insert m k (handler_tuple config route handler) node.asgi_handlers,
  )

  -- Each method of the route has the route's handler for it, in the route's stack.
  handlers-set_handlers :
      (m : String) (handler : RouteHandler) (map : Dict String RouteHandler) (node : RouteTrieNode)
      → NodupKeys map
      → lookup m map ≡ some handler
      → lookup m (set_handlers config route map node).asgi_handlers
        ≡ some (handler_tuple config route handler)
  unfolding set_handlers
  handlers-set_handlers m handler [] node u h = cc
  handlers-set_handlers m handler ((k, other) ∷ map) node (fresh, u) h =
      elim (Bool-cases (k == m)) [
        | inl e ↦
            let same : other ≡ handler = ground arith in
            let key : k ≡ m = (eq_iff k m).0 e in
            handlers-set_handlers_absent m map (set_handler config route k other node)
              (rw key at fresh)
            ∙ (lookup-insert m k (handler_tuple config route other) node.asgi_handlers
                ∙ rw e (ap (λ x. some (handler_tuple config route x)) same))
        | inr e ↦
            handlers-set_handlers m handler map (set_handler config route k other node) u
              (ground arith)
      ]

  is_asgi-set_handlers :
      (map : Dict String RouteHandler) (node : RouteTrieNode)
      → (set_handlers config route map node).is_asgi ≡ node.is_asgi
  unfolding set_handlers
  is_asgi-set_handlers [] node = refl
  is_asgi-set_handlers ((k, handler) ∷ map) node =
      is_asgi-set_handlers map (set_handler config route k handler node)

  -- The node that a new plain route gets.
  module _ (trie : Trie) (w : WellFormed trie.nodes)
      (new : has_key (component route.path) (node_at trie.nodes root).children ≡ false) where
    plain_child :
        lookup
          (component route.path)
          (node_at (ensure_child trie.nodes root (component route.path)) root).children
        ≡ some (length trie.nodes)
    unfolding ensure_child
    plain_child = rw new (
        rw
          (node_at-update_self (trie.nodes ++ create_node ∷ []) root
            (set_child (component route.path) (length trie.nodes))
            (rw length-append (omega (arith, w.has_root))))
          (lookup-insert (component route.path) (component route.path) (length trie.nodes)
              ((node_at (trie.nodes ++ create_node ∷ []) root).children)
            ∙ rw (beq_refl (component route.path))))

    plain_node :
        node_at (ensure_child trie.nodes root (component route.path)) (length trie.nodes)
        ≡ create_node
    unfolding ensure_child
    plain_node = rw new (
        node_at-update_ne (trie.nodes ++ create_node ∷ []) root (length trie.nodes)
          (set_child (component route.path) (length trie.nodes)) (omega (arith, w.has_root))
        ∙ (node_at-append_new trie.nodes (length trie.nodes)
            ∙ node_at_past trie.nodes (length trie.nodes) (omega arith)))

    module _ (map : Dict String RouteHandler) (handlers : List RouteHandler)
        (is_http : route.kind ≡ http map handlers)
        (plain : is_nil route.path_parameters ≡ true) where
      abbrev plain_nodes : Nodes
      plain_nodes =
          update (ensure_child trie.nodes root (component route.path)) (length trie.nodes)
            (configure_node config route)

      plain_trie : (add_route_to_trie config trie route).0 ≡ record {
        nodes = plain_nodes;
        mount_routes = trie.mount_routes;
        plain_routes = set_add route.path trie.plain_routes;
      }
      unfolding add_route_to_trie place_route
      plain_trie = rw is_http (rw plain (unfold add_plain_route child_at in rw plain_child))

      root_reads :
          lookup (component route.path) (node_at plain_nodes root).children
          ≡ some (length trie.nodes)
      root_reads =
          rw
            (node_at-update_ne (ensure_child trie.nodes root (component route.path))
              (length trie.nodes) root (configure_node config route) (omega (arith, w.has_root)))
            plain_child

      node_reads : node_at plain_nodes (length trie.nodes) ≡ configure_node config route create_node
      node_reads =
          node_at-update_self (ensure_child trie.nodes root (component route.path))
            (length trie.nodes) (configure_node config route) (child_in_range)
          ∙ ap (configure_node config route) plain_node
        where
          child_in_range :
              length trie.nodes < length (ensure_child trie.nodes root (component route.path))
          child_in_range =
              unfold ensure_child in rw new (rw length-set (rw length-append (omega arith)))

      configured :
          configure_node config route create_node
          ≡ set_handlers config route map (record create_node { path_template = route.path_format })
      unfolding configure_node configure_kind
      configured =
          ap
            (λ k.
              configure_kind config route k
                (record create_node { path_template = route.path_format }))
            is_http

      module _ (m : String) (handler : RouteHandler) (distinct : NodupKeys map)
          (handled : lookup m map ≡ some handler) (named : (m == "") ≡ false) where
        node_handles :
            parse_node_handlers (node_at plain_nodes (length trie.nodes)) (some m)
            ≡ ok (handler_tuple config route handler)
        unfolding parse_node_handlers
        node_handles = rw (node_reads ∙ configured) (
            rw (is_asgi-set_handlers map (record create_node { path_template = route.path_format }))
              (rw named (
                rw (
                  handlers-set_handlers m handler map
                    (record create_node { path_template = route.path_format }) distinct handled))))

        -- A route without parameters that is added at a new path, to a trie that keeps the
        -- invariant, answers a request for its path and one of its methods: by the handler of that
        -- method, in the route's middleware stack, with no parameters, whatever mounts there are.
        pub add_route_to_trie-plain :
            {Value : Type 0} (raw : Text → Value) (parser : ParamType → Text → Result Value)
            (mounts : List Text)
            → parse_path_to_route raw parser
                (some m)
                mounts
                route.path
                (add_route_to_trie config trie route).0
              ≡ ok (record {
                asgi_app = build_route_middleware_stack config route handler;
                handler = handler;
                path = route.path;
                path_params = [];
                path_template = route.path;
              })
        unfolding parse_path_to_route resolve resolve_plain
        add_route_to_trie-plain raw parser mounts = rw plain_trie (
            rw (contains-set_add route.path route.path trie.plain_routes)
              (rw (beq_refl route.path) (rw root_reads (rw node_handles))))
