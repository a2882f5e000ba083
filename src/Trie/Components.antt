-- ===== src/Trie/Components.antt =====
-- One round of the loop that adds a route with parameters, in the order in which it keeps the
-- invariant: the source flags a node before it makes the child that the flag promises.
use starlite.Trie.Invariant.{
  Placed, update-Placed, ensure_child-Placed, child_at-Placed, SameShape-Placed,
  set_path_type-SameShape,
}
use starlite.Trie.Nodes.{node_at-update_self, length-update, update-append_new, update-update}
use starlite.Prelude.Dict.{has_key, contains-keys}
use starlite.Trie.{Nodes, RouteTrieNode, Key, node_at, key_Eq, create_node}
use starlite.Route.{PathComponent, literal, parameter}
use mathlib.Core.Path.{fun_ext}
use starlite.Prelude.{
  ℕ, ◌<◌, ◌≡◌, arith, length, Bool-cases, inl, list_Eq, nat_Eq, inr, refl, string_Eq, ◌++◌, ◌++◌,
  ◌∷◌, [], length-append, ◌∙◌, ap, sym, true, List,
}
use starlite.Trie.Mapping.{
  update, set_param_node, set_child, ensure_child, next_node_key, set_child_keys, add_component,
  child_at, add_components, set_path_type,
}
use starlite.Trie.WellFormed.{NodeOk, has_key-ensure_child}

set_param_node_comm :
    (c : PathComponent) (k : Key) (j : ℕ) (node : RouteTrieNode)
    → set_child k j (set_param_node c node) ≡ set_param_node c (set_child k j node)
set_param_node_comm (literal _) k j node = refl
set_param_node_comm (parameter _) k j node = refl

children-set_param_node :
    (c : PathComponent) (node : RouteTrieNode) → (set_param_node c node).children ≡ node.children
children-set_param_node (literal _) node = refl
children-set_param_node (parameter _) node = refl

module _ (nodes : Nodes) (i : ℕ) (c : PathComponent) (h : i < length nodes) where
  has_key_flagged :
      (k : Key)
      → has_key k (node_at (update nodes i (set_param_node c)) i).children
        ≡ has_key k (node_at nodes i).children
  has_key_flagged k =
      rw (node_at-update_self nodes i (set_param_node c) h)
        (rw (children-set_param_node c (node_at nodes i)))

  flagged_new :
      (k : Key)
      → update
          (update nodes i (set_param_node c) ++ create_node ∷ [])
          i
          (set_child k (length (update nodes i (set_param_node c))))
        ≡ update
            (update (nodes ++ create_node ∷ []) i (set_child k (length nodes)))
            i
            (set_param_node c)
  flagged_new k =
      let in_range : i < length (nodes ++ create_node ∷ []) = rw length-append (omega (arith, h)) in
      rw (length-update nodes i (set_param_node c)) (
        rw (← update-append_new nodes i h (set_param_node c)) (
          update-update (nodes ++ create_node ∷ []) i in_range (set_param_node c)
            (set_child k (length nodes))
          ∙ (ap (update (nodes ++ create_node ∷ []) i)
                (fun_ext (set_param_node_comm c k (length nodes)))
              ∙ sym (
                  update-update (nodes ++ create_node ∷ []) i in_range (set_child k (length nodes))
                    (set_param_node c)))))

  -- Flagging a node and then making its child comes to the same as the other order.
  pub ensure_child-flag :
      (k : Key)
      → ensure_child (update nodes i (set_param_node c)) i k
        ≡ update (ensure_child nodes i k) i (set_param_node c)
  unfolding ensure_child
  ensure_child-flag k = elim (Bool-cases (has_key k (node_at nodes i).children)) [
    | inl e ↦ rw (has_key_flagged k) (rw e)
    | inr e ↦ rw (has_key_flagged k) (rw e (flagged_new k))
  ]

pub set_param_node-NodeOk :
    (n i : ℕ) (c : PathComponent) (node : RouteTrieNode)
    → has_key (next_node_key c) node.children ≡ true
    → NodeOk n i node
    → NodeOk n i (set_param_node c node)
set_param_node-NodeOk n i (literal _) node h o = o
set_param_node-NodeOk n i (parameter _) node h o = record {
  children = o.children;
  listed = o.listed;
  flagged = λ _. h;
}

set_child_keys-NodeOk :
    (n i : ℕ) (node : RouteTrieNode) → NodeOk n i node → NodeOk n i (set_child_keys node)
set_child_keys-NodeOk n i node o = record {
  children = o.children;
  listed = λ k h. rw contains-keys at h;
  flagged = o.flagged;
}

module _ (nodes : Nodes) (i : ℕ) (c : PathComponent) (p : Placed nodes i) where
  -- the nodes of a round before it goes on to the child
  abbrev pub grown : Nodes
  grown =
      update (update (ensure_child nodes i (next_node_key c)) i (set_param_node c)) i set_child_keys

  pub has_key-ensured :
      has_key (next_node_key c) (node_at (ensure_child nodes i (next_node_key c)) i).children ≡ true
  has_key-ensured = has_key-ensure_child nodes i (next_node_key c) p.well_formed p.in_range

  pub ensured-Placed : Placed (ensure_child nodes i (next_node_key c)) i
  ensured-Placed = ensure_child-Placed (next_node_key c) p

  pub node_at-grown :
      node_at grown i
      ≡ set_child_keys (set_param_node c (node_at (ensure_child nodes i (next_node_key c)) i))
  node_at-grown =
      node_at-update_self (update (ensure_child nodes i (next_node_key c)) i (set_param_node c)) i
        set_child_keys (rw length-update ensured-Placed.in_range)
      ∙ ap set_child_keys (
          node_at-update_self (ensure_child nodes i (next_node_key c)) i (set_param_node c)
            ensured-Placed.in_range)

  pub grown-Placed : Placed grown i
  grown-Placed =
      let q = ensured-Placed in
      let flagged =
        update-Placed (set_param_node c) q
          (set_param_node-NodeOk _ i c _ has_key-ensured (q.well_formed.at i)) in
      update-Placed set_child_keys flagged (set_child_keys-NodeOk _ i _ (flagged.well_formed.at i))

  pub has_key-grown : has_key (next_node_key c) (node_at grown i).children ≡ true
  has_key-grown = rw node_at-grown (
      rw (children-set_param_node c (node_at (ensure_child nodes i (next_node_key c)) i))
        has_key-ensured)

  abbrev pub next_of : ℕ
  next_of = child_at grown i (next_node_key c)

  pub next-Placed : Placed grown next_of
  next-Placed = child_at-Placed (next_node_key c) grown-Placed has_key-grown

  -- One round, with the steps in the order in which each keeps the invariant.
  pub add_component_lem :
      add_component nodes i c ≡ (update grown next_of (set_path_type c), next_of)
  unfolding add_component
  add_component_lem = rw (ensure_child-flag nodes i c p.in_range (next_node_key c))

pub add_component-Placed :
    (nodes : Nodes) (i : ℕ) (c : PathComponent)
    → Placed nodes i
    → Placed (add_component nodes i c).0 (add_component nodes i c).1
add_component-Placed nodes i c p =
    rw (add_component_lem nodes i c p)
      (SameShape-Placed (set_path_type c) (set_path_type-SameShape c) (next-Placed nodes i c p))

pub add_components-Placed :
    (nodes : Nodes) (i : ℕ) (cs : List PathComponent)
    → Placed nodes i
    → Placed (add_components nodes i cs).0 (add_components nodes i cs).1
unfolding add_components
add_components-Placed nodes i [] p = p
add_components-Placed nodes i (c ∷ cs) p =
    add_components-Placed (add_component nodes i c).0 (add_component nodes i c).1 cs
      (add_component-Placed nodes i c p)
