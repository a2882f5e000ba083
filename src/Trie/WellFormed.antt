-- ===== src/Trie/WellFormed.antt =====
-- The invariant of the trie: a child is an object with an index not below its parent's, a key that
-- is listed is the key of a child, and a node that is flagged for a parameter has that child.
use native.Mathlib.Decide.{ℕ_discrete}
use starlite.Trie.Nodes.{length-update, node_at-update_ne, node_at-update_self, node_at-append_new}
use starlite.Prelude.Dict.{Dict, insert, has_key, lookup, has_key-insert, has_key-true}
use starlite.Prelude.{
  ℕ, zero, suc, ◌+◌, ◌<◌, ◌≤◌, [], ◌∷◌, ◌++◌, ◌≡◌, arith, true, contains, length, some, Bool-cases,
  ◌==◌, inl, inr, length-append, length-set, beq_refl,
}
use starlite.Trie.{Key, sentinel, RouteTrieNode, create_node, Nodes, node_at, key_Eq}
use starlite.Trie.Mapping.{update, ensure_child, child_at, set_child}

-- The children are objects, at or after their parent.
abbrev pub ChildrenOk : ℕ → ℕ → Dict Key ℕ → Type 0
ChildrenOk n i [] = Unit
ChildrenOk n i ((k, j) ∷ d) = ((j < n) × (i ≤ j)) × ChildrenOk n i d

pub record NodeOk (n i : ℕ) (node : RouteTrieNode) : Type 0 where
  pub children : ChildrenOk n i node.children
  pub listed : (k : Key) → contains k node.child_keys ≡ true → has_key k node.children ≡ true
  pub flagged : node.is_path_param_node ≡ true → has_key sentinel node.children ≡ true

pub record WellFormed (nodes : Nodes) : Type 0 where
  pub has_root : 0 < length nodes
  pub at : (i : ℕ) → NodeOk (length nodes) i (node_at nodes i)

ChildrenOk-mono : (n m i : ℕ) (d : Dict Key ℕ) → n ≤ m → ChildrenOk n i d → ChildrenOk m i d
ChildrenOk-mono n m i [] h c = tt
ChildrenOk-mono n m i ((k, j) ∷ d) h ((a, b), c) = ((omega arith, b), ChildrenOk-mono n m i d h c)

ChildrenOk-insert :
    (n i : ℕ) (k : Key) (j : ℕ) (d : Dict Key ℕ)
    → j < n
    → i ≤ j
    → ChildrenOk n i d
    → ChildrenOk n i (insert k j d)
ChildrenOk-insert n i k j [] a b c = ((a, b), tt)
ChildrenOk-insert n i k j ((l, w) ∷ d) a b ((p, q), c) = elim (Bool-cases (l == k)) [
  | inl e ↦ rw e ((a, b), c)
  | inr e ↦ rw e ((p, q), ChildrenOk-insert n i k j d a b c)
]

pub ChildrenOk-lookup :
    (n i : ℕ) (k : Key) (j : ℕ) (d : Dict Key ℕ)
    → ChildrenOk n i d
    → lookup k d ≡ some j
    → (j < n) × (i ≤ j)
ChildrenOk-lookup n i k j [] c h = cc
ChildrenOk-lookup n i k j ((l, w) ∷ d) ((a, b), c) h = elim (Bool-cases (l == k)) [
  | inl e ↦ let same : w ≡ j = ground arith in rw (← same) (a, b)
  | inr e ↦ ChildrenOk-lookup n i k j d c (ground arith)
]

NodeOk-mono : (n m i : ℕ) (node : RouteTrieNode) → n ≤ m → NodeOk n i node → NodeOk m i node
NodeOk-mono n m i node h ok_node = record {
  children = ChildrenOk-mono n m i node.children h ok_node.children;
  listed = ok_node.listed;
  flagged = ok_node.flagged;
}

-- One assignment keeps the invariant if what it writes does.
pub update-WellFormed :
    (nodes : Nodes) (i : ℕ) (f : RouteTrieNode → RouteTrieNode)
    → WellFormed nodes
    → i < length nodes
    → NodeOk (length nodes) i (f (node_at nodes i))
    → WellFormed (update nodes i f)
update-WellFormed nodes i f w h ok_node = record {
  has_root = rw length-update w.has_root;
  at = λ j. rw length-update (elim (ℕ_discrete i j) [
    | yes e ↦ rw (← e) (rw (node_at-update_self nodes i f h) ok_node)
    | no ne ↦ rw (node_at-update_ne nodes i j f ne) (w.at j)
  ]);
}

pub append_new-WellFormed :
    (nodes : Nodes) → WellFormed nodes → WellFormed (nodes ++ create_node ∷ [])
append_new-WellFormed nodes w = record {
  has_root = rw length-append (omega (arith, w.has_root));
  at = λ i.
      rw (length-append, node_at-append_new)
        (NodeOk-mono (length nodes) (length nodes + 1) i (node_at nodes i) (omega arith) (w.at i));
}

pub empty-WellFormed : WellFormed (create_node ∷ [])
unfolding node_at
empty-WellFormed = record { has_root = omega arith; at = λ i. empty_at i }
  where
    new_at : (i : ℕ) → NodeOk 1 i create_node
    new_at i = record { children = tt; listed = λ k h. cc; flagged = λ h. cc }

    empty_at : (i : ℕ) → NodeOk 1 i (node_at (create_node ∷ []) i)
    empty_at zero = new_at 0
    empty_at (suc i) = new_at (suc i)

-- `node.children[key]`, where the key is there.
pub child_at_lem :
    (nodes : Nodes) (i : ℕ) (k : Key)
    → has_key k (node_at nodes i).children ≡ true
    → lookup k (node_at nodes i).children ≡ some (child_at nodes i k)
unfolding child_at
child_at_lem nodes i k h = let (j, e) = has_key-true k (node_at nodes i).children h in rw e

pub child_at-range :
    (nodes : Nodes) (i : ℕ) (k : Key)
    → WellFormed nodes
    → has_key k (node_at nodes i).children ≡ true
    → (child_at nodes i k < length nodes) × (i ≤ child_at nodes i k)
child_at-range nodes i k w h =
    ChildrenOk-lookup (length nodes) i k (child_at nodes i k) (node_at nodes i).children
      (w.at i).children (child_at_lem nodes i k h)

pub set_child-NodeOk :
    (n i : ℕ) (k : Key) (j : ℕ) (node : RouteTrieNode)
    → j < n
    → i ≤ j
    → NodeOk n i node
    → NodeOk n i (set_child k j node)
set_child-NodeOk n i k j node a b ok_node = record {
  children = ChildrenOk-insert n i k j node.children a b ok_node.children;
  listed = λ l h. ground (arith, has_key-insert l k j node.children, ok_node.listed l h);
  flagged = λ h. ground (arith, has_key-insert sentinel k j node.children, ok_node.flagged h);
}

module _ (nodes : Nodes) (i : ℕ) (k : Key) (w : WellFormed nodes) (h : i < length nodes) where
  pub ensure_child-WellFormed : WellFormed (ensure_child nodes i k)
  unfolding ensure_child
  ensure_child-WellFormed = elim (Bool-cases (has_key k (node_at nodes i).children)) [
    | inl e ↦ rw e w
    | inr e ↦ rw e (
        update-WellFormed (nodes ++ create_node ∷ []) i (set_child k (length nodes))
          (append_new-WellFormed nodes w) (rw length-append (omega (arith, h)))
          (set_child-NodeOk _ i k (length nodes) _ (rw length-append (omega arith))
            (omega (arith, h)) ((append_new-WellFormed nodes w).at i)))
  ]

  pub length-le-ensure_child : length nodes ≤ length (ensure_child nodes i k)
  unfolding ensure_child
  length-le-ensure_child = elim (Bool-cases (has_key k (node_at nodes i).children)) [
    | inl e ↦ rw e (omega arith)
    | inr e ↦ rw e (rw length-set (rw length-append (omega arith)))
  ]

  pub has_key-ensure_child : has_key k (node_at (ensure_child nodes i k) i).children ≡ true
  unfolding ensure_child
  has_key-ensure_child = elim (Bool-cases (has_key k (node_at nodes i).children)) [
    | inl e ↦ rw e e
    | inr e ↦ rw e (
        rw
          (node_at-update_self (nodes ++ create_node ∷ []) i (set_child k (length nodes))
            (rw length-append (omega (arith, h))))
          (rw has_key-insert (rw (beq_refl k))))
  ]
