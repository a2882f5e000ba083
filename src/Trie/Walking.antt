-- ===== src/Trie/Walking.antt =====
-- The loop of `traverse_route_map` decides an inductive relation, and fails only by not finding.
use starlite.Trie.Mapping.{child_at}
use starlite.Prelude.Dict.{lookup, has_key}
use starlite.Trie.WellFormed.{WellFormed, child_at_lem}
use starlite.Prelude.Text.{Text}
use starlite.Prelude.{
  ℕ, List, [], ◌∷◌, ◌≡◌, refl, arith, ok, raise, not_found, true, false, Exception, contains,
  Bool-cases, inl, inr, some, string_Eq, nat_Eq, list_Eq, Option, ◌>>=◌, ◌>>=◌, >>=-eq-ok, none,
  Bool, ◌↔◌, Result, Result-cases, not, is_nil,
}
use starlite.UrlPath.{normalize_path, join, components}
use starlite.Trie.{Key, component, sentinel, Nodes, node_at, key_Eq, root}
use starlite.Trie.Traversal.{
  Found, walk, traverse_route_map, item, take_param, item_or_raise, with_param,
}

-- The walk from node `i` over the components ends at node `k` with these parameters. At each node
-- a listed component wins over the parameter, and a parameter of the type `path` takes the rest.
pub data Walk (nodes : Nodes) : ℕ → List Text → ℕ → List Text → Type 0 where
  stop : {i : ℕ} → Walk nodes i [] i []
  enter :
      {i k : ℕ} {c : Text} {cs ps : List Text} (j : ℕ)
      → contains (component c) (node_at nodes i).child_keys ≡ true
      → lookup (component c) (node_at nodes i).children ≡ some j
      → Walk nodes j cs k ps
      → Walk nodes i (c ∷ cs) k ps
  bind :
      {i k : ℕ} {c : Text} {cs ps : List Text} (j : ℕ)
      → contains (component c) (node_at nodes i).child_keys ≡ false
      → (node_at nodes i).is_path_param_node ≡ true
      → lookup sentinel (node_at nodes i).children ≡ some j
      → (node_at nodes j).is_path_type ≡ false
      → Walk nodes j cs k ps
      → Walk nodes i (c ∷ cs) k (c ∷ ps)
  bind_rest :
      {i : ℕ} {c : Text} {cs : List Text} (j : ℕ)
      → contains (component c) (node_at nodes i).child_keys ≡ false
      → (node_at nodes i).is_path_param_node ≡ true
      → lookup sentinel (node_at nodes i).children ≡ some j
      → (node_at nodes j).is_path_type ≡ true
      → Walk nodes i (c ∷ cs) j (normalize_path (join (c ∷ cs)) ∷ [])

abbrev found_at : ℕ → List Text → Found
found_at k ps = record { node = k; path_params = ps }

pub walk_complete :
    (nodes : Nodes) (i k : ℕ) (cs ps : List Text)
    → Walk nodes i cs k ps
    → walk nodes i cs ≡ ok (found_at k ps)
unfolding walk take_param
walk_complete nodes i k cs ps stop = refl
walk_complete nodes i k cs ps (enter {cs = cs'} j listed child w) =
    rw listed (rw child (walk_complete nodes j k cs' ps w))
walk_complete nodes i k cs ps (bind {cs = cs'} {ps = ps'} j listed flagged child typed w) =
    rw listed (rw flagged (rw child (rw typed (rw (walk_complete nodes j k cs' ps' w)))))
walk_complete nodes i k cs ps (bind_rest j listed flagged child typed) =
    rw listed (rw flagged (rw child (rw typed)))

item-eq-ok {ℓ} : {V : Type ℓ} (o : Option V) (v : V) → item_or_raise o ≡ ok v → o ≡ some v
item-eq-ok none v h = cc
item-eq-ok (some w) v h = ground arith

module _ (nodes : Nodes) (i : ℕ) (c : Text) (cs : List Text) (f : Found) where
  enter_sound :
      ((j : ℕ) → walk nodes j cs ≡ ok f → Walk nodes j cs f.node f.path_params)
      → contains (component c) (node_at nodes i).child_keys ≡ true
      → (item (component c) (node_at nodes i).children >>= λ j. walk nodes j cs) ≡ ok f
      → Walk nodes i (c ∷ cs) f.node f.path_params
  enter_sound ih listed h =
      let (j, child, rest) = >>=-eq-ok (item (component c) (node_at nodes i).children) _ h in
      enter j listed (item-eq-ok _ j child) (ih j rest)

  bind_sound :
      ((j : ℕ) (g : Found) → walk nodes j cs ≡ ok g → Walk nodes j cs g.node g.path_params)
      → contains (component c) (node_at nodes i).child_keys ≡ false
      → (node_at nodes i).is_path_param_node ≡ true
      → (item sentinel (node_at nodes i).children >>= λ j.
          take_param nodes c cs j (walk nodes j cs))
        ≡ ok f
      → Walk nodes i (c ∷ cs) f.node f.path_params
  bind_sound ih listed flagged h =
      let (j, found, rest) = >>=-eq-ok (item sentinel (node_at nodes i).children) _ h in
      let child = item-eq-ok _ j found in
      elim (Bool-cases (node_at nodes j).is_path_type) [
        | inl typed ↦
            let same : record { node = j; path_params = normalize_path (join (c ∷ cs)) ∷ [] } ≡ f =
              unfold take_param in ground arith in
            rw (← same) (bind_rest j listed flagged child typed)
        | inr typed ↦
            let bound : (walk nodes j cs >>= λ g. ok (with_param c g)) ≡ ok f =
              unfold take_param in (rw typed at rest) in
            let (g, walked, last) = >>=-eq-ok (walk nodes j cs) _ bound in
            let same : with_param c g ≡ f = ground arith in
            rw (← same) (bind j listed flagged child typed (ih j g walked))
      ]

pub walk_sound :
    (nodes : Nodes) (i : ℕ) (cs : List Text) (f : Found)
    → walk nodes i cs ≡ ok f
    → Walk nodes i cs f.node f.path_params
unfolding walk
walk_sound nodes i [] f h = let same : found_at i [] ≡ f = ground arith in rw (← same) stop
walk_sound nodes i (c ∷ cs) f h =
    elim (Bool-cases (contains (component c) (node_at nodes i).child_keys)) [
      | inl listed ↦
          enter_sound nodes i c cs f (λ j. walk_sound nodes j cs f) listed (rw listed at h)
      | inr listed ↦ elim (Bool-cases (node_at nodes i).is_path_param_node) [
        | inl flagged ↦
            bind_sound nodes i c cs f (λ j. walk_sound nodes j cs) listed flagged
              (rw (listed, flagged) at h)
        | inr flagged ↦
            let bad : ◌≡◌ {A = Result Found} (raise not_found) (ok f) = rw (listed, flagged) at h in
            cc
      ]
    ]

abbrev pub has_handlers : Nodes → ℕ → Bool
has_handlers nodes i = not (is_nil (node_at nodes i).asgi_handlers)

-- `traverse_route_map` returns exactly what the walk over the components of the path reaches, if
-- the node there has a handler.
pub traverse_route_map_iff :
    (nodes : Nodes) (path : Text) (f : Found)
    → (traverse_route_map nodes path ≡ ok f) ↔ (
        Walk nodes root (components path) f.node f.path_params × (has_handlers nodes f.node ≡ true))
unfolding traverse_route_map
traverse_route_map_iff nodes path f = (to, from)
  where
    to :
        traverse_route_map nodes path ≡ ok f
        → Walk nodes root (components path) f.node f.path_params
          × (has_handlers nodes f.node ≡ true)
    to h =
        let (g, walked, rest) = >>=-eq-ok (walk nodes root (components path)) _ h in
        let same : g ≡ f = ground arith in
        rw (← same) (walk_sound nodes root (components path) g walked, ground arith)

    from :
        Walk nodes root (components path) f.node f.path_params × (has_handlers nodes f.node ≡ true)
        → traverse_route_map nodes path ≡ ok f
    from (w, some_handler) =
        rw (walk_complete nodes root f.node (components path) f.path_params w) (ground arith)

item_present :
    (nodes : Nodes) (i : ℕ) (k : Key)
    → has_key k (node_at nodes i).children ≡ true
    → item k (node_at nodes i).children ≡ ok (child_at nodes i k)
item_present nodes i k h = rw (child_at_lem nodes i k h)

take_param_error :
    (nodes : Nodes) (c : Text) (cs : List Text) (j : ℕ) (rest : Result Found) (e : Exception)
    → take_param nodes c cs j rest ≡ raise e
    → rest ≡ raise e
unfolding take_param
take_param_error nodes c cs j (ok g) e h = ground arith
take_param_error nodes c cs j (raise d) e h = ground arith

-- In a trie that keeps the invariant, whatever the request, a walk that fails has not found a
-- node: no key is looked up that is not there.
pub walk_error :
    (nodes : Nodes) (i : ℕ) (cs : List Text) (e : Exception)
    → WellFormed nodes
    → walk nodes i cs ≡ raise e
    → e ≡ not_found
unfolding walk
walk_error nodes i [] e w h = cc
walk_error nodes i (c ∷ cs) e w h =
    elim (Bool-cases (contains (component c) (node_at nodes i).child_keys)) [
      | inl listed ↦
          let present = item_present nodes i (component c) ((w.at i).listed (component c) listed) in
          walk_error nodes (child_at nodes i (component c)) cs e w (rw (listed, present) at h)
      | inr listed ↦ elim (Bool-cases (node_at nodes i).is_path_param_node) [
        | inl flagged ↦
            let present = item_present nodes i sentinel ((w.at i).flagged flagged) in
            walk_error nodes (child_at nodes i sentinel) cs e w (
              take_param_error nodes c cs (child_at nodes i sentinel) _ e
                (rw (listed, flagged, present) at h))
        | inr flagged ↦
            let bad : ◌≡◌ {A = Result Found} (raise not_found) (raise e) =
              rw (listed, flagged) at h in
            ground arith
      ]
    ]

-- So `traverse_route_map` raises nothing but `NotFoundException` then.
pub traverse_route_map_error :
    (nodes : Nodes) (path : Text) (e : Exception)
    → WellFormed nodes
    → traverse_route_map nodes path ≡ raise e
    → e ≡ not_found
unfolding traverse_route_map
traverse_route_map_error nodes path e w h =
    elim (Result-cases (walk nodes root (components path))) [
      | inl (f, found) ↦ let last = rw (found, traverse_route_map) at h in ground arith
      | inr (d, failed) ↦
          let same : d ≡ e = let last = rw (failed, traverse_route_map) at h in ground arith in
          rw (← same) (walk_error nodes root (components path) d w failed)
    ]
