-- ===== src/Trie/Nodes.antt =====
-- Reading the nodes after an assignment or a new object.
use starlite.Prelude.{
  ℕ, zero, suc, ◌<◌, [], ◌∷◌, ◌++◌, ◌≡◌, ◌≢◌, refl, ap, arith, get_elem?-set_ne, length, get_elem?,
  length-set, ◌≤◌, ◌≤◌, get_elem?-set_self, set-append, set-set,
}
use starlite.Trie.{RouteTrieNode, create_node, Nodes, node_or_new, node_at}
use starlite.Trie.Mapping.{update}

-- An object that was assigned to reads as it was written, and every other one as before.
pub node_at-update_self :
    (nodes : Nodes) (i : ℕ) (f : RouteTrieNode → RouteTrieNode)
    → i < length nodes
    → node_at (update nodes i f) i ≡ f (node_at nodes i)
unfolding node_at
node_at-update_self nodes i f h =
    ap node_or_new (get_elem?-set_self nodes i (f (node_or_new (get_elem? nodes i))) h)

pub node_at-update_ne :
    (nodes : Nodes) (i j : ℕ) (f : RouteTrieNode → RouteTrieNode)
    → i ≢ j
    → node_at (update nodes i f) j ≡ node_at nodes j
unfolding node_at
node_at-update_ne nodes i j f h =
    ap node_or_new (get_elem?-set_ne nodes i j (f (node_or_new (get_elem? nodes i))) h)

pub length-update :
    (nodes : Nodes) (i : ℕ) (f : RouteTrieNode → RouteTrieNode)
    → length (update nodes i f) ≡ length nodes
length-update nodes i f = length-set nodes i (f (node_at nodes i))

get_elem?_append_new :
    (nodes : Nodes) (j : ℕ)
    → node_or_new (get_elem? (nodes ++ create_node ∷ []) j) ≡ node_or_new (get_elem? nodes j)
get_elem?_append_new [] zero = refl
get_elem?_append_new [] (suc j) = refl
get_elem?_append_new (n ∷ nodes) zero = refl
get_elem?_append_new (n ∷ nodes) (suc j) = get_elem?_append_new nodes j

-- A new object changes no reading.
pub node_at-append_new :
    (nodes : Nodes) (j : ℕ) → node_at (nodes ++ create_node ∷ []) j ≡ node_at nodes j
unfolding node_at
node_at-append_new nodes j = get_elem?_append_new nodes j

node_or_new_past :
    (nodes : Nodes) (i : ℕ) → length nodes ≤ i → node_or_new (get_elem? nodes i) ≡ create_node
node_or_new_past [] i h = refl
node_or_new_past (n ∷ nodes) zero h = absurd (omega arith)
node_or_new_past (n ∷ nodes) (suc i) h = node_or_new_past nodes i (omega arith)

pub node_at_past : (nodes : Nodes) (i : ℕ) → length nodes ≤ i → node_at nodes i ≡ create_node
unfolding node_at
node_at_past nodes i h = node_or_new_past nodes i h

module _ (nodes : Nodes) (i : ℕ) (h : i < length nodes) where
  pub update-update :
      (f g : RouteTrieNode → RouteTrieNode)
      → update (update nodes i f) i g ≡ update nodes i (λ node. g (f node))
  update-update f g = rw (node_at-update_self nodes i f h) (set-set nodes i (f (node_at nodes i)) _)

  pub update-append_new :
      (f : RouteTrieNode → RouteTrieNode)
      → update (nodes ++ create_node ∷ []) i f ≡ update nodes i f ++ create_node ∷ []
  update-append_new f =
      rw (node_at-append_new nodes i)
        (set-append nodes (create_node ∷ []) i (f (node_at nodes i)) h)
