-- ===== src/Trie/Traversal.antt =====
-- _asgi/routing_trie/traversal.py: resolving the path of a request.
use starlite.Prelude.Dict.{Dict, insert, lookup, keys}
use starlite.Prelude.{
  ℕ, String, List, [], ◌∷◌, ◌++◌, Bool, false, Option, none, some, Result, ok, raise, ◌>>=◌, length,
  if◌then◌else◌, ◌==◌, nat_Eq, list_Eq, string_Eq, Eq, is_nil, Exception, drop, rescue, contains,
  any, ◌||◌, ◌||◌, method_not_allowed, not_found, key_error, value_error, improperly_configured,
}
use starlite.Prelude.Text.{Text, starts_with}
use starlite.UrlPath.{normalize_path, components, join, slash}
use starlite.Route.{ParamType, PathParameterDefinition}
use starlite.Trie.{
  Key, key_Eq, RouteHandler, AsgiApp, AsgiHandlerTuple, RouteTrieNode, Nodes, node_at, Trie, root,
  component, definition, sentinel,
}

-- What the loop of `traverse_route_map` has found: a node, and the values of the parameters.
pub record Found : Type 0 where
  pub node : ℕ
  pub path_params : List Text

abbrev pub with_param : Text → Found → Found
with_param value found = record found { path_params = value ∷ found.path_params }

-- `d[key]`
abbrev pub item_or_raise {ℓ} : {V : Type ℓ} → Option V → Result V
item_or_raise none = raise key_error
item_or_raise (some v) = ok v

abbrev pub item {ℓ κ} : {K : Type ℓ} {V : Type κ} ⦃e : Eq K⦄ → K → Dict K V → Result V
item k d = item_or_raise (lookup k d)

-- a component that is the value of a parameter, where `rest` walks on from the child `j`
unfoldable pub take_param : Nodes → Text → List Text → ℕ → Result Found → Result Found
unfolding normalize_path join
take_param nodes c cs j rest =
    if (node_at nodes j).is_path_type
    then ok (record { node = j; path_params = normalize_path (join (c ∷ cs)) ∷ [] })
    else rest >>= λ found. ok (with_param c found)

-- the loop of `traverse_route_map`, on the components that are left
unfoldable pub walk : Nodes → ℕ → List Text → Result Found
unfolding take_param
walk nodes i [] = ok (record { node = i; path_params = [] })
walk nodes i (c ∷ cs) =
    let entered = item (component c) (node_at nodes i).children >>= λ j. walk nodes j cs in
    let bound =
      item sentinel (node_at nodes i).children >>= λ j. take_param nodes c cs j (walk nodes j cs) in
    if contains (component c) (node_at nodes i).child_keys
    then entered
    else if (node_at nodes i).is_path_param_node
    then bound
    else raise not_found

unfoldable pub traverse_route_map : Nodes → Text → Result Found
unfolding walk components
traverse_route_map nodes path = do
  found ← walk nodes root (components path)
  if is_nil (node_at nodes found.node).asgi_handlers then raise not_found else ok found

-- `if method`: an empty method is none.
abbrev pub method_key : Option String → Option String
method_key none = none
method_key (some method) = if method == "" then none else some method

abbrev pub or_key : Option String → String → String
or_key none key = key
or_key (some method) key = method

unfoldable pub parse_node_handlers : RouteTrieNode → Option String → Result AsgiHandlerTuple
parse_node_handlers node method =
    if node.is_asgi
    then item "asgi" node.asgi_handlers
    else item (or_key (method_key method) "websocket") node.asgi_handlers

-- What the router stores in the scope for the request.
pub record Resolved (Value : Type 0) : Type 0 where
  pub asgi_app : AsgiApp
  pub handler : RouteHandler
  pub path : Text
  pub path_params : Dict Text Value
  pub path_template : Text

-- The first of the alternatives of `mount_paths_regex` that the path starts with. The paths of
-- mounts are taken to hold no character that is special in a regular expression.
unfoldable pub match_mount : List Text → Text → Option Text
match_mount [] path = none
match_mount (mount ∷ mounts) path =
    if starts_with path mount then some mount else match_mount mounts path

-- the paths of the handlers under a mount, as `parse_path_to_route` compares them
unfoldable pub sub_routes : Text → List Key → List Text
unfolding normalize_path
sub_routes mount [] = []
sub_routes mount (component sub ∷ ks) =
    let rest = sub_routes mount ks in if sub == mount then rest else normalize_path sub ∷ rest
sub_routes mount (sentinel ∷ ks) = sub_routes mount ks
sub_routes mount (definition _ ∷ ks) = sub_routes mount ks

abbrev pub is_below : Text → Text → Bool
is_below remaining sub = starts_with remaining (sub ++ slash ∷ [])

abbrev pub ends_with_slash : Text → Bool
ends_with_slash [] = false
ends_with_slash (c ∷ []) = c == slash
ends_with_slash (c ∷ d ∷ cs) = ends_with_slash (d ∷ cs)

-- the path that a mounted application gets
unfoldable pub mounted_path : Bool → Text → Text
mounted_path is_static remaining =
    let path = if is_nil remaining then slash ∷ [] else remaining in
    if is_static || ends_with_slash path then path else path ++ slash ∷ []

-- The `except` clauses of `parse_path_to_route`; `NotFoundException` and
-- `ImproperlyConfiguredException` are subclasses of `ValueError`.
unfoldable pub routing_error : Exception → Exception
routing_error key_error = method_not_allowed
routing_error value_error = not_found
routing_error improperly_configured = not_found
routing_error e = e

-- A parser takes the text of a parameter to a value, or raises; without one the text is kept.
module _ {Value : Type 0} (raw : Text → Value) (parser : ParamType → Text → Result Value) where
  abbrev pub parse_value : PathParameterDefinition → Text → Result Value
  parse_value d value = elim d.parser [ none ↦ ok (raw value) | some type ↦ parser type value ]

  -- `zip` ends with the shorter list
  unfoldable pub parse_path_params :
      Dict Text Value → List PathParameterDefinition → List Text → Result (Dict Text Value)
  parse_path_params parsed [] values = ok parsed
  parse_path_params parsed (d ∷ ds) [] = ok parsed
  parse_path_params parsed (d ∷ ds) (value ∷ values) = do
    v ← parse_value d value
    parse_path_params (insert d.name v parsed) ds values

  -- the branch for a plain route
  unfoldable pub resolve_plain : Option String → Text → Trie → Result (Resolved Value)
  unfolding parse_node_handlers
  resolve_plain method path trie = do
    i ← item (component path) (node_at trie.nodes root).children
    handlers ← parse_node_handlers (node_at trie.nodes i) method
    ok (record {
      asgi_app = handlers.asgi_app;
      handler = handlers.handler;
      path = path;
      path_params = [];
      path_template = path;
    })

  -- the branch for a mount that no handler under it preempts
  unfoldable pub resolve_mount :
      Option String → RouteTrieNode → Text → Text → Result (Resolved Value)
  unfolding parse_node_handlers mounted_path
  resolve_mount method node remaining template = do
    handlers ← parse_node_handlers node method
    ok (record {
      asgi_app = handlers.asgi_app;
      handler = handlers.handler;
      path = mounted_path node.is_static remaining;
      path_params = [];
      path_template = template;
    })

  abbrev pub params_key : RouteTrieNode → Option String → String
  params_key node method = or_key (method_key method) (if node.is_asgi then "asgi" else "websocket")

  -- the branch that walks the trie
  unfoldable pub resolve_walk : Option String → Text → Trie → Result (Resolved Value)
  unfolding traverse_route_map parse_node_handlers parse_path_params
  resolve_walk method path trie = do
    found ← traverse_route_map trie.nodes path
    let node = node_at trie.nodes found.node
    handlers ← parse_node_handlers node method
    definitions ← item (params_key node method) node.path_parameters
    params ← parse_path_params [] definitions found.path_params
    ok (record {
      asgi_app = handlers.asgi_app;
      handler = handlers.handler;
      path = path;
      path_params = params;
      path_template = node.path_template;
    })

  -- the branches behind a matched mount
  unfoldable pub resolve_matched : Option String → Text → Trie → Text → Result (Resolved Value)
  unfolding resolve_mount resolve_walk sub_routes
  resolve_matched method path trie mount = do
    i ← item mount trie.mount_routes
    let node = node_at trie.nodes i
    let remaining = drop (length mount) path
    if any (is_below remaining) (sub_routes mount (keys node.children))
        then resolve_walk method path trie
        else resolve_mount method node remaining (node_at trie.nodes root).path_template

  -- the `try` block of `parse_path_to_route`
  unfoldable pub resolve : Option String → List Text → Text → Trie → Result (Resolved Value)
  unfolding match_mount resolve_plain resolve_matched resolve_walk
  resolve method mounts path trie =
      if contains path trie.plain_routes
      then resolve_plain method path trie
      else elim (match_mount mounts path) [
        | some mount ↦ resolve_matched method path trie mount
        | none ↦ resolve_walk method path trie
      ]

  unfoldable pub parse_path_to_route :
      Option String → List Text → Text → Trie → Result (Resolved Value)
  unfolding resolve routing_error
  parse_path_to_route method mounts path trie =
      rescue routing_error (resolve method mounts path trie)
