-- ===== src/Trie.antt =====
-- _asgi/routing_trie/types.py, and the objects that the trie holds. The nodes are mutable and one
-- node can be the child of another under two keys, so they stand in a list and are known by their
-- index: index 0 is the root, and a child is an index. An application, a handler and a middleware
-- are known by numbers.
pub mod Stack
pub mod Mapping
pub mod Traversal
pub mod Validation
mod Nodes
pub mod WellFormed
pub mod Invariant
mod Components
pub mod Adding
pub mod Walking
mod Growth
pub mod Registered
pub mod Resolving
pub mod Plain
pub mod Asgi
pub mod Valid
mod Tests
use starlite.Prelude.Dict.{Dict}
use native.Mathlib.Decide.{ℕ_discrete}
use mathlib.Core.Bool.{decide, decide_iff}
use starlite.Prelude.{
  [], ◌∷◌, ◌≡◌, refl, Bool, true, Eq, ◌↔◌, Option, false, ◌==◌, arith, ◌==◌, ℕ, List, list_Eq,
  nat_Eq, String, get_elem?, string_Eq, list_eq_iff, some, none,
}
use starlite.Prelude.Text.{Text}
use starlite.Route.{PathParameterDefinition, PathComponent}

-- The keys of `children`. `sentinel` is the class `PathParameterSentinel`; a mount route uses the
-- definition of a parameter itself as a key.
pub data Key : Type 0 where
  component : Text → Key
  sentinel : Key
  definition : PathParameterDefinition → Key

unfoldable pub definition_discrete : Discrete PathParameterDefinition
definition_discrete = hlevel ℕ_discrete

abbrev pub key_eq : Key → Key → Bool
key_eq (component a) (component b) = a == b
key_eq sentinel sentinel = true
key_eq (definition a) (definition b) = decide (definition_discrete a b)
key_eq _ _ = false

pub key_eq_iff : (a b : Key) → (key_eq a b ≡ true) ↔ (a ≡ b)
key_eq_iff (component a) (component b) = ground (arith, list_eq_iff a b)
key_eq_iff sentinel sentinel = ground arith
key_eq_iff (definition a) (definition b) = ground (arith, decide_iff (definition_discrete a b))
key_eq_iff _ _ = ground arith

instance abbrev pub key_Eq : Eq Key
key_Eq = record { beq = key_eq; beq_iff = key_eq_iff }

-- An entry of a middleware list: a class or factory, or a pair of one and keyword arguments.
pub data Middleware : Type 0 where
  plain : ℕ → Middleware
  with_kwargs : ℕ → ℕ → Middleware

-- The applications that `build_route_middleware_stack` composes: `route.handle` of a route, and
-- the wrappers around an application.
pub data AsgiApp : Type 0 where
  route_handle : ℕ → AsgiApp
  exception_handler csrf compression response_cache allowed_hosts : AsgiApp → AsgiApp
  wrapped : Middleware → AsgiApp → AsgiApp

-- What the trie reads of a route handler.
pub record RouteHandler : Type 0 where
  pub number : ℕ
  pub is_mount : Bool
  pub is_static : Bool
  pub cache : Bool
  pub middleware : List Middleware

-- The three classes of routes, with their handlers.
pub data RouteKind : Type 0 where
  http : Dict String RouteHandler → List RouteHandler → RouteKind
  websocket asgi : RouteHandler → RouteKind

pub record Route : Type 0 where
  pub number : ℕ
  pub path : Text
  pub path_format : Text
  pub path_components : List PathComponent
  pub path_parameters : Dict Text PathParameterDefinition
  pub kind : RouteKind

-- Whether the app has the optional configurations that add a middleware.
pub record AppConfig : Type 0 where
  pub csrf_config : Bool
  pub compression_config : Bool
  pub allowed_hosts : Bool

pub record AsgiHandlerTuple : Type 0 where
  pub asgi_app : AsgiApp
  pub handler : RouteHandler

pub record RouteTrieNode : Type 0 where
  pub asgi_handlers : Dict String AsgiHandlerTuple
  pub child_keys : List Key
  pub children : Dict Key ℕ
  pub is_path_param_node : Bool
  pub is_path_type : Bool
  pub is_asgi : Bool
  pub is_mount : Bool
  pub is_static : Bool
  pub path_parameters : Dict String (List PathParameterDefinition)
  pub path_template : Text

abbrev pub create_node : RouteTrieNode
create_node = record {
  asgi_handlers = [];
  child_keys = [];
  children = [];
  is_path_param_node = false;
  is_path_type = false;
  is_asgi = false;
  is_mount = false;
  is_static = false;
  path_parameters = [];
  path_template = [];
}

abbrev pub Nodes : Type 0
Nodes = List RouteTrieNode

-- The object of an index. An index that no object has reads as a new node; the indices that the
-- operations make are all in range.
abbrev pub node_or_new : Option RouteTrieNode → RouteTrieNode
node_or_new none = create_node
node_or_new (some node) = node

unfoldable pub node_at : Nodes → ℕ → RouteTrieNode
node_at nodes i = node_or_new (get_elem? nodes i)

-- The trie with the mappings that the router keeps beside it.
pub record Trie : Type 0 where
  pub nodes : Nodes
  pub mount_routes : Dict Text ℕ
  pub plain_routes : List Text

abbrev pub root : ℕ
root = 0

abbrev pub empty_trie : Trie
empty_trie = record { nodes = create_node ∷ []; mount_routes = []; plain_routes = [] }
