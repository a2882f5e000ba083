-- ===== src/Trie/Valid.antt =====
-- `validate_node` checks every node below the root, and ends.
use mathlib.Core.List.{Memᴰ}
use native.Mathlib.Decide.{ℕ_discrete}
use starlite.Prelude.{
  ◌∙◌, ℕ, zero, suc, ◌+◌, ◌<◌, ◌≤◌, ◌≡◌, ◌≢◌, ◌↔◌, refl, ap, true, false, Option, none, some,
  Result, ok, raise, List, [], ◌∷◌, ◌⊎◌, inl, inr, arith, length, any, Bool-cases, nat_Eq,
  nat_eq_iff, ◌==◌, improperly_configured, Exception, string_Eq, list_Eq,
}
use starlite.Prelude.Dict.{Dict, values}
use starlite.Trie.{Nodes, RouteTrieNode, node_at, root, Key}
use starlite.Trie.WellFormed.{WellFormed, ChildrenOk}
use starlite.Trie.Validation.{
  validate_node, validate_children, and_then, check_node, has_other_handlers, has_parameters,
}

-- What the validation asks of a node: an ASGI node has no handler but that one, and no child of a
-- mount has path parameters.
abbrev pub IsValid : Nodes → RouteTrieNode → Type 0
IsValid nodes node =
    (node.is_asgi ≡ true → has_other_handlers node ≡ false)
    × (node.is_mount ≡ true
        → any (λ j. has_parameters (node_at nodes j)) (values node.children) ≡ false)

check_node_iff :
    (nodes : Nodes) (node : RouteTrieNode) → (check_node nodes node ≡ ok tt) ↔ IsValid nodes node
unfolding check_node
check_node_iff nodes node = ground arith

check_node_error :
    (nodes : Nodes) (node : RouteTrieNode) (e : Exception)
    → check_node nodes node ≡ raise e
    → e ≡ improperly_configured
unfolding check_node
check_node_error nodes node e h = ground arith

-- The node `j` is reached from `i` through children.
pub data Reaches (nodes : Nodes) (i : ℕ) : ℕ → Type 0 where
  here : Reaches nodes i i
  child :
      {j k : ℕ} → Reaches nodes i j → Memᴰ k (values (node_at nodes j).children) → Reaches nodes i k

Reaches-trans :
    {nodes : Nodes} {i j k : ℕ} → Reaches nodes i j → Reaches nodes j k → Reaches nodes i k
Reaches-trans r here = r
Reaches-trans r (child s m) = child (Reaches-trans r s) m

ChildrenOk-mem :
    (n i : ℕ) {j : ℕ} (d : Dict Key ℕ) → ChildrenOk n i d → Memᴰ j (values d) → (j < n) × (i ≤ j)
ChildrenOk-mem n i [] c m = elim m [ ]
ChildrenOk-mem n i ((k, l) ∷ d) (at, c) (Memᴰ.head e) = rw e at
ChildrenOk-mem n i ((k, l) ∷ d) (at, c) (Memᴰ.tail m) = ChildrenOk-mem n i d c m

module _ (validate : ℕ → Option (Result (Unit {0}))) (i : ℕ) where
  and_then-ok :
      (a b : Option (Result (Unit {0})))
      → (and_then a b ≡ some (ok tt)) ↔ ((a ≡ some (ok tt)) × (b ≡ some (ok tt)))
  and_then-ok none b = ground arith
  and_then-ok (some (ok tt)) b = ground arith
  and_then-ok (some (raise e)) b = ground arith

  validate_children-ok :
      (js : List ℕ)
      → ((j : ℕ) → Memᴰ j js → j ≢ i → validate j ≡ some (ok tt))
      → validate_children validate i js ≡ some (ok tt)
  unfolding validate_children
  validate_children-ok [] h = refl
  validate_children-ok (j ∷ js) h =
      let rest = validate_children-ok js (λ k m. h k (Memᴰ.tail m)) in
      elim (Bool-cases (j == i)) [
        | inl e ↦ rw e rest
        | inr e ↦ rw e (
            (and_then-ok (validate j) (validate_children validate i js)).1
              (h j (Memᴰ.head refl) (λ s. ground (arith, nat_eq_iff j i)), rest))
      ]

  child-ok :
      (js : List ℕ) {j : ℕ}
      → validate_children validate i js ≡ some (ok tt)
      → Memᴰ j js
      → j ≢ i
      → validate j ≡ some (ok tt)
  unfolding validate_children
  child-ok [] h m ne = elim m [ ]
  child-ok (k ∷ js) {j} h (Memᴰ.head e) ne = elim (Bool-cases (k == i)) [
    | inl s ↦ absurd (ne (e ∙ (nat_eq_iff k i).0 s))
    | inr s ↦ rw e ((and_then-ok (validate k) (validate_children validate i js)).0 (rw s at h)).0
  ]
  child-ok (k ∷ js) {j} h (Memᴰ.tail m) ne = elim (Bool-cases (k == i)) [
    | inl s ↦ child-ok js (rw s at h) m ne
    | inr s ↦
        child-ok js ((and_then-ok (validate k) (validate_children validate i js)).0 (rw s at h)).1 m
          ne
  ]

-- The two answers of the validation.
abbrev IsAnswer : Option (Result (Unit {0})) → Type 0
IsAnswer r = (r ≡ some (ok tt)) ⊎ (r ≡ some (raise improperly_configured))

and_then-IsAnswer :
    (a b : Option (Result (Unit {0}))) → IsAnswer a → IsAnswer b → IsAnswer (and_then a b)
and_then-IsAnswer a b (inl p) k = rw p k
and_then-IsAnswer a b (inr p) k = rw p (inr refl)

validate_children-IsAnswer :
    (validate : ℕ → Option (Result (Unit {0}))) (i : ℕ) (js : List ℕ)
    → ((j : ℕ) → Memᴰ j js → j ≢ i → IsAnswer (validate j))
    → IsAnswer (validate_children validate i js)
unfolding validate_children
validate_children-IsAnswer validate i [] h = inl refl
validate_children-IsAnswer validate i (j ∷ js) h =
    let rest = validate_children-IsAnswer validate i js (λ k m. h k (Memᴰ.tail m)) in
    elim (Bool-cases (j == i)) [
      | inl e ↦ rw e rest
      | inr e ↦
          rw e (
            and_then-IsAnswer _ _ (h j (Memᴰ.head refl) (λ s. ground (arith, nat_eq_iff j i))) rest)
    ]

check_node-IsAnswer :
    (nodes : Nodes) (node : RouteTrieNode) → IsAnswer (some (check_node nodes node))
unfolding check_node
check_node-IsAnswer nodes node = ground arith

module _ (nodes : Nodes) (w : WellFormed nodes) where
  below :
      (fuel i j : ℕ)
      → length nodes ≤ suc fuel + i
      → Memᴰ j (values (node_at nodes i).children)
      → j ≢ i
      → (j < length nodes) × (length nodes ≤ fuel + j)
  below fuel i j bound m ne =
      let (range, order) =
        ChildrenOk-mem (length nodes) i (node_at nodes i).children (w.at i).children m in
      (range, omega arith)

  validate_node-IsAnswer :
      (fuel i : ℕ)
      → i < length nodes
      → length nodes ≤ fuel + i
      → IsAnswer (validate_node fuel nodes i)
  unfolding validate_node
  validate_node-IsAnswer zero i range bound = absurd (omega arith)
  validate_node-IsAnswer (suc fuel) i range bound =
      and_then-IsAnswer _ _ (check_node-IsAnswer nodes (node_at nodes i)) (
        validate_children-IsAnswer (validate_node fuel nodes) i _
          (λ j m ne. let (r, b) = below fuel i j bound m ne in validate_node-IsAnswer fuel j r b))

  validate_node_complete :
      (fuel i : ℕ)
      → i < length nodes
      → length nodes ≤ fuel + i
      → ((j : ℕ) → Reaches nodes i j → IsValid nodes (node_at nodes j))
      → validate_node fuel nodes i ≡ some (ok tt)
  unfolding validate_node
  validate_node_complete zero i range bound h = absurd (omega arith)
  validate_node_complete (suc fuel) i range bound h =
      (and_then-ok (validate_node fuel nodes) i _ _).1 (
        ap some ((check_node_iff nodes (node_at nodes i)).1 (h i here)),
        validate_children-ok (validate_node fuel nodes) i _ (λ j m ne.
            let (r, b) = below fuel i j bound m ne in
            validate_node_complete fuel j r b (λ k s. h k (Reaches-trans (child here m) s))),
      )

-- A node that was validated, with some fuel.
abbrev IsValidated : Nodes → ℕ → Type 0
IsValidated nodes i = (fuel : ℕ) × (validate_node fuel nodes i ≡ some (ok tt))

some-ok : (r : Result (Unit {0})) → some r ≡ some (ok tt) → r ≡ ok tt
some-ok r h = cc

child-IsValidated :
    (nodes : Nodes) (i j : ℕ)
    → IsValidated nodes i
    → Memᴰ j (values (node_at nodes i).children)
    → IsValidated nodes j
unfolding validate_node
child-IsValidated nodes i j (zero, h) m = cc
child-IsValidated nodes i j (suc fuel, h) m = elim (ℕ_discrete j i) [
  | yes e ↦ rw e (suc fuel, h)
  | no ne ↦ (
    fuel,
    child-ok (validate_node fuel nodes) i _
        ((and_then-ok (validate_node fuel nodes) i (some (check_node nodes (node_at nodes i))) _).0
          h).1
        m ne,
  )
]

IsValid-of_IsValidated :
    (nodes : Nodes) (i : ℕ) → IsValidated nodes i → IsValid nodes (node_at nodes i)
unfolding validate_node
IsValid-of_IsValidated nodes i (zero, h) = cc
IsValid-of_IsValidated nodes i (suc fuel, h) = (check_node_iff nodes (node_at nodes i)).0 (
    some-ok _
      ((and_then-ok (validate_node fuel nodes) i (some (check_node nodes (node_at nodes i))) _).0
        h).0)

Reaches-IsValidated :
    (nodes : Nodes) {i j : ℕ} → IsValidated nodes i → Reaches nodes i j → IsValidated nodes j
Reaches-IsValidated nodes v here = v
Reaches-IsValidated nodes v (child {j} {k} r m) =
    child-IsValidated nodes j k (Reaches-IsValidated nodes v r) m

-- Validating a trie that keeps the invariant ends, with as much fuel as there are nodes: it passes
-- exactly when every node that is reached from the root is valid, and otherwise raises
-- `ImproperlyConfiguredException`.
pub validate_node_iff :
    (nodes : Nodes)
    → WellFormed nodes
    → ((validate_node (length nodes) nodes root ≡ some (ok tt))
        ↔ ((j : ℕ) → Reaches nodes root j → IsValid nodes (node_at nodes j)))
      × ((validate_node (length nodes) nodes root ≡ some (ok tt))
          ⊎ (validate_node (length nodes) nodes root ≡ some (raise improperly_configured)))
validate_node_iff nodes w = (
  (
    λ h j r. IsValid-of_IsValidated nodes j (Reaches-IsValidated nodes (length nodes, h) r),
    validate_node_complete nodes w (length nodes) root w.has_root (omega arith),
  ),
  validate_node-IsAnswer nodes w (length nodes) root w.has_root (omega arith),
)
