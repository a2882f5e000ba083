-- ===== src/Trie/Validation.antt =====
-- _asgi/routing_trie/validate.py. The recursion follows the children of a node, which in general
-- objects may go in a circle, so it takes fuel: `none` means that the fuel ran out.
use starlite.Prelude.Dict.{values, keys}
use starlite.Prelude.{
  ℕ, zero, suc, List, [], ◌∷◌, Bool, not, ◌&&◌, Option, none, some, any, Result, ◌==◌, is_nil,
  raise, ok, if◌then◌else◌, if◌then◌else◌, string_Eq, list_Eq, nat_Eq, ◌>>◌, require,
  improperly_configured,
}
use starlite.Trie.{RouteTrieNode, Nodes, node_at}

-- `set(node.asgi_handlers).difference({"asgi"})`
abbrev pub has_other_handlers : RouteTrieNode → Bool
has_other_handlers node = any (λ key. not (key == "asgi")) (keys node.asgi_handlers)

-- a child with a path parameter for one of its handlers
abbrev pub has_parameters : RouteTrieNode → Bool
has_parameters node = any (λ ds. not (is_nil ds)) (values node.path_parameters)

-- the two tests at one node
unfoldable pub check_node : Nodes → RouteTrieNode → Result (Unit {0})
unfolding node_at
check_node nodes node = do
  require (not (node.is_asgi && has_other_handlers node)) improperly_configured
  require
      (not (node.is_mount && any (λ j. has_parameters (node_at nodes j)) (values node.children)))
      improperly_configured

-- Python's evaluation of one statement after another, on fuel
abbrev pub and_then :
    Option (Result (Unit {0})) → Option (Result (Unit {0})) → Option (Result (Unit {0}))
and_then none next = none
and_then (some (raise e)) next = some (raise e)
and_then (some (ok _)) next = next

-- the loop over the children, where `validate` validates one
unfoldable pub validate_children :
    (ℕ → Option (Result (Unit {0}))) → ℕ → List ℕ → Option (Result (Unit {0}))
validate_children validate i [] = some (ok tt)
validate_children validate i (j ∷ js) =
    let rest = validate_children validate i js in
    if j == i then rest else and_then (validate j) rest

unfoldable pub validate_node : ℕ → Nodes → ℕ → Option (Result (Unit {0}))
unfolding check_node validate_children node_at
validate_node zero nodes i = none
validate_node (suc fuel) nodes i =
    let rest = validate_children (validate_node fuel nodes) i (values (node_at nodes i).children) in
    and_then (some (check_node nodes (node_at nodes i))) rest
