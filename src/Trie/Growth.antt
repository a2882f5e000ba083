-- ===== src/Trie/Growth.antt =====
-- What adding a route leaves in place: children stay where they are, listed keys stay listed, and
-- flags stay set.
use starlite.Trie.Nodes.{node_at-update_self, node_at-append_new, node_at-update_ne}
use starlite.Trie.Components.{
  grown, ensured-Placed, add_component-Placed, add_component_lem, next_of, set_param_node-NodeOk,
  next-Placed, has_key-ensured,
}
use native.Mathlib.Decide.{ℕ_discrete}
use starlite.Trie.Invariant.{Placed, configure_node-SameShape, update-Placed}
use starlite.Prelude.Dict.{lookup, Dict, contains-keys, has_key, lookup-insert, has_key-false}
use starlite.Route.{PathComponent, literal, parameter}
use starlite.Trie.{
  Key, RouteTrieNode, AppConfig, Nodes, node_at, Route, RouteKind, create_node, http, RouteHandler,
  websocket, key_Eq, key_eq_iff, asgi,
}
use starlite.Prelude.{
  ℕ, ◌<◌, ◌≡◌, arith, ◌++◌, List, length, ◌++◌, Bool-cases, none, some, ◌∷◌, [], ◌∙◌, ◌∙◌, String,
  contains, true, inl, list_Eq, inr, nat_Eq, string_Eq, length-append, refl,
}
use starlite.Trie.Mapping.{
  update, ensure_child, configure_kind, set_handlers, add_components, set_path_type, set_param_node,
  set_child_keys, add_component, configure_node, set_child, set_handler, next_node_key,
}
use starlite.Trie.WellFormed.{NodeOk}

pub record NodeGrows (old new : RouteTrieNode) : Type 0 where
  pub child : (k : Key) (j : ℕ) → lookup k old.children ≡ some j → lookup k new.children ≡ some j
  pub listed : (k : Key) → contains k old.child_keys ≡ true → contains k new.child_keys ≡ true
  pub flagged : old.is_path_param_node ≡ true → new.is_path_param_node ≡ true
  pub typed : old.is_path_type ≡ true → new.is_path_type ≡ true

pub record Grows (old new : Nodes) : Type 0 where
  pub at : (i : ℕ) → NodeGrows (node_at old i) (node_at new i)

NodeGrows-refl : (node : RouteTrieNode) → NodeGrows node node
NodeGrows-refl node = record {
  child = λ k j h. h;
  listed = λ k h. h;
  flagged = λ h. h;
  typed = λ h. h;
}

pub Grows-refl : (nodes : Nodes) → Grows nodes nodes
Grows-refl nodes = record { at = λ i. NodeGrows-refl (node_at nodes i) }

pub Grows-trans : {a b c : Nodes} → Grows a b → Grows b c → Grows a c
Grows-trans g h = record {
  at = λ i. record {
    child = λ k j e. (h.at i).child k j ((g.at i).child k j e);
    listed = λ k e. (h.at i).listed k ((g.at i).listed k e);
    flagged = λ e. (h.at i).flagged ((g.at i).flagged e);
    typed = λ e. (h.at i).typed ((g.at i).typed e);
  };
}

pub update-Grows :
    (nodes : Nodes) (i : ℕ) (f : RouteTrieNode → RouteTrieNode)
    → i < length nodes
    → NodeGrows (node_at nodes i) (f (node_at nodes i))
    → Grows nodes (update nodes i f)
update-Grows nodes i f h g = record {
  at = λ j. elim (ℕ_discrete i j) [
    | yes e ↦ rw (← e) (rw (node_at-update_self nodes i f h) g)
    | no ne ↦ rw (node_at-update_ne nodes i j f ne) (NodeGrows-refl (node_at nodes j))
  ];
}

append_new-Grows : (nodes : Nodes) → Grows nodes (nodes ++ create_node ∷ [])
append_new-Grows nodes = record {
  at = λ i. rw (node_at-append_new nodes i) (NodeGrows-refl (node_at nodes i));
}

set_child-NodeGrows :
    (k : Key) (j : ℕ) (node : RouteTrieNode)
    → lookup k node.children ≡ none
    → NodeGrows node (set_child k j node)
set_child-NodeGrows k j node fresh = record {
  child = λ l w h. ground (arith, lookup-insert l k j node.children, key_eq_iff k l);
  listed = λ l h. h;
  flagged = λ h. h;
  typed = λ h. h;
}

pub ensure_child-Grows :
    (nodes : Nodes) (i : ℕ) (k : Key) → i < length nodes → Grows nodes (ensure_child nodes i k)
unfolding ensure_child
ensure_child-Grows nodes i k h = elim (Bool-cases (has_key k (node_at nodes i).children)) [
  | inl e ↦ rw e (Grows-refl nodes)
  | inr e ↦ rw e (
      Grows-trans (append_new-Grows nodes) (
        update-Grows (nodes ++ create_node ∷ []) i (set_child k (length nodes))
          (rw length-append (omega (arith, h)))
          (rw (node_at-append_new nodes i) (
            set_child-NodeGrows k (length nodes) (node_at nodes i)
              (has_key-false k (node_at nodes i).children e)))))
]

set_param_node-NodeGrows :
    (c : PathComponent) (node : RouteTrieNode) → NodeGrows node (set_param_node c node)
set_param_node-NodeGrows (literal _) node = NodeGrows-refl node
set_param_node-NodeGrows (parameter _) node = record {
  child = λ k j h. h;
  listed = λ k h. h;
  flagged = λ _. refl;
  typed = λ h. h;
}

set_child_keys-NodeGrows :
    (n i : ℕ) (node : RouteTrieNode) → NodeOk n i node → NodeGrows node (set_child_keys node)
set_child_keys-NodeGrows n i node o = record {
  child = λ k j h. h;
  listed = λ k h. contains-keys k node.children ∙ o.listed k h;
  flagged = λ h. h;
  typed = λ h. h;
}

pub set_path_type-NodeGrows :
    (c : PathComponent) (node : RouteTrieNode) → NodeGrows node (set_path_type c node)
set_path_type-NodeGrows (literal _) node = NodeGrows-refl node
set_path_type-NodeGrows (parameter d) node = record {
  child = λ k j h. ground arith;
  listed = λ k h. ground arith;
  flagged = λ h. ground arith;
  typed = λ h. ground arith;
}

is_path_type-set_handlers :
    (config : AppConfig) (route : Route) (map : Dict String RouteHandler) (node : RouteTrieNode)
    → (set_handlers config route map node).is_path_type ≡ node.is_path_type
unfolding set_handlers
is_path_type-set_handlers config route [] node = refl
is_path_type-set_handlers config route ((m, h) ∷ map) node =
    is_path_type-set_handlers config route map (set_handler config route m h node)

is_path_type-configure_kind :
    (config : AppConfig) (route : Route) (kind : RouteKind) (node : RouteTrieNode)
    → (configure_kind config route kind node).is_path_type ≡ node.is_path_type
unfolding configure_kind
is_path_type-configure_kind config route (http map _) node =
    is_path_type-set_handlers config route map node
is_path_type-configure_kind config route (websocket _) node = refl
is_path_type-configure_kind config route (asgi _) node = refl

pub configure_node-NodeGrows :
    (config : AppConfig) (route : Route) (node : RouteTrieNode)
    → NodeGrows node (configure_node config route node)
configure_node-NodeGrows config route node =
    let s = configure_node-SameShape config route node in
    record {
      child = λ k j h. rw s.children h;
      listed = λ k h. rw s.child_keys h;
      flagged = λ h. rw s.flag h;
      typed = λ h.
          unfold configure_node in
          is_path_type-configure_kind config route route.kind
            (record node { path_template = route.path_format })
          ∙ h;
    }

module _ (nodes : Nodes) (i : ℕ) (c : PathComponent) (p : Placed nodes i) where
  grown-Grows : Grows nodes (grown nodes i c p)
  grown-Grows =
      let q = ensured-Placed nodes i c p in
      let flagged =
        update-Placed (set_param_node c) q
          (set_param_node-NodeOk _ i c _ (has_key-ensured nodes i c p) (q.well_formed.at i)) in
      Grows-trans (ensure_child-Grows nodes i (next_node_key c) p.in_range) (
        Grows-trans (update-Grows _ i (set_param_node c) q.in_range (set_param_node-NodeGrows c _))
          (update-Grows _ i set_child_keys flagged.in_range
            (set_child_keys-NodeGrows _ i _ (flagged.well_formed.at i))))

  pub add_component-Grows : Grows nodes (add_component nodes i c).0
  add_component-Grows = rw (add_component_lem nodes i c p) (
      Grows-trans grown-Grows (
        update-Grows (grown nodes i c p) (next_of nodes i c p) (set_path_type c)
          (next-Placed nodes i c p).in_range (set_path_type-NodeGrows c _)))

pub add_components-Grows :
    (nodes : Nodes) (i : ℕ) (cs : List PathComponent)
    → Placed nodes i
    → Grows nodes (add_components nodes i cs).0
unfolding add_components
add_components-Grows nodes i [] p = Grows-refl nodes
add_components-Grows nodes i (c ∷ cs) p = Grows-trans (add_component-Grows nodes i c p) (
    add_components-Grows (add_component nodes i c).0 (add_component nodes i c).1 cs
      (add_component-Placed nodes i c p))
