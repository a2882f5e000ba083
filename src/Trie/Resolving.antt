-- ===== src/Trie/Resolving.antt =====
-- How `parse_path_to_route` fails: which exceptions leave it.
use mathlib.Core.Path.{subst}
use starlite.Prelude.Dict.{Dict, insert, keys}
use starlite.UrlPath.{components}
use starlite.Route.{ParamType, PathParameterDefinition}
use starlite.Trie.{Nodes, RouteTrieNode, root, Trie, node_at, component, sentinel, key_Eq}
use starlite.Prelude.Text.{Text}
use starlite.Trie.Traversal.{
  walk, traverse_route_map, parse_node_handlers, take_param, item_or_raise, parse_path_params,
  Found, parse_value, resolve_walk, item, params_key, resolve, parse_path_to_route, resolve_plain,
  resolve_matched, routing_error, match_mount, resolve_mount, is_below, sub_routes,
}
use starlite.Prelude.{
  ℕ, ◌≡◌, Exception, Option, Bool, Result, key_error, value_error, runtime_error,
  improperly_configured, too_many_requests, channels_exception, other, ◌≢◌, ◌>>=◌, if◌then◌else◌,
  ok, ◌⊎◌, inl, List, true, raise, String, false, ◌∷◌, not_found, none, is_nil, contains, [], refl,
  inr, nat_Eq, string_Eq, list_Eq, rescue, method_not_allowed, any, drop, length, some,
}

-- A parser of parameters raises the exception for some text.
abbrev pub IsParserError {ℓ} :
    {Value : Type ℓ} → (ParamType → Text → Result Value) → Exception → Type ℓ
IsParserError parser e = (type : ParamType) × (value : Text) × (parser type value ≡ raise e)

module _ (P : Exception → Type 0) where
  -- The two exceptions that the lookups raise, and others of which `P` holds.
  abbrev IsHandled : Exception → Type 0
  IsHandled e = (e ≡ key_error) ⊎ ((e ≡ not_found) ⊎ P e)

  -- A computation that raises only such exceptions.
  abbrev IsSafe {ℓ} : {A : Type ℓ} → Result A → Type 0
  IsSafe (ok a) = Unit
  IsSafe (raise e) = IsHandled e

  IsSafe-bind {ℓ κ} :
      {A : Type ℓ} {B : Type κ} (m : Result A) (f : A → Result B)
      → IsSafe m
      → ((a : A) → IsSafe (f a))
      → IsSafe (m >>= f)
  IsSafe-bind (ok a) f h k = k a
  IsSafe-bind (raise e) f h k = h

  IsSafe-item {ℓ} : {V : Type ℓ} (o : Option V) → IsSafe (item_or_raise o)
  IsSafe-item none = inl refl
  IsSafe-item (some v) = tt

  IsSafe-if {ℓ} :
      {A : Type ℓ} (b : Bool) (m n : Result A) → IsSafe m → IsSafe n → IsSafe (if b then m else n)
  IsSafe-if true m n h k = h
  IsSafe-if false m n h k = k

  take_param-IsSafe :
      (nodes : Nodes) (c : Text) (cs : List Text) (j : ℕ) (m : Result Found)
      → IsSafe m
      → IsSafe (take_param nodes c cs j m)
  unfolding take_param
  take_param-IsSafe nodes c cs j m h =
      IsSafe-if (node_at nodes j).is_path_type _ _ tt (IsSafe-bind m _ h (λ _. tt))

  walk-IsSafe : (nodes : Nodes) (i : ℕ) (cs : List Text) → IsSafe (walk nodes i cs)
  unfolding walk
  walk-IsSafe nodes i [] = tt
  walk-IsSafe nodes i (c ∷ cs) =
      IsSafe-if (contains (component c) (node_at nodes i).child_keys) _ _
        (IsSafe-bind (item (component c) (node_at nodes i).children) _ (IsSafe-item _)
          (λ j. walk-IsSafe nodes j cs))
        (IsSafe-if (node_at nodes i).is_path_param_node _ _
          (IsSafe-bind (item sentinel (node_at nodes i).children) _ (IsSafe-item _)
            (λ j. take_param-IsSafe nodes c cs j _ (walk-IsSafe nodes j cs)))
          (inr (inl refl)))

  traverse-IsSafe : (nodes : Nodes) (path : Text) → IsSafe (traverse_route_map nodes path)
  unfolding traverse_route_map
  traverse-IsSafe nodes path =
      IsSafe-bind (walk nodes root (components path)) _ (walk-IsSafe nodes root (components path))
        (λ f. IsSafe-if (is_nil (node_at nodes f.node).asgi_handlers) _ _ (inr (inl refl)) tt)

  handlers-IsSafe :
      (node : RouteTrieNode) (method : Option String) → IsSafe (parse_node_handlers node method)
  unfolding parse_node_handlers
  handlers-IsSafe node method = IsSafe-if node.is_asgi _ _ (IsSafe-item _) (IsSafe-item _)

module _ {Value : Type 0} (raw : Text → Value) (parser : ParamType → Text → Result Value) where
  abbrev Fails : Exception → Type 0
  Fails = IsParserError parser

  parser-IsSafe :
      (type : ParamType) (value : Text) (m : Result Value) → parser type value ≡ m → IsSafe Fails m
  parser-IsSafe type value (ok v) h = tt
  parser-IsSafe type value (raise e) h = inr (inr (type, value, h))

  parse_value-IsSafe :
      (d : PathParameterDefinition) (value : Text) → IsSafe Fails (parse_value raw parser d value)
  parse_value-IsSafe d value = go d.parser
    where
      go :
          (o : Option ParamType)
          → IsSafe Fails (elim o [ none ↦ ok (raw value) | some type ↦ parser type value ])
      go none = tt
      go (some type) = parser-IsSafe type value (parser type value) refl

  params-IsSafe :
      (parsed : Dict Text Value) (ds : List PathParameterDefinition) (values : List Text)
      → IsSafe Fails (parse_path_params raw parser parsed ds values)
  unfolding parse_path_params
  params-IsSafe parsed [] values = tt
  params-IsSafe parsed (d ∷ ds) [] = tt
  params-IsSafe parsed (d ∷ ds) (value ∷ values) =
      IsSafe-bind Fails (parse_value raw parser d value) _ (parse_value-IsSafe d value)
        (λ v. params-IsSafe (insert d.name v parsed) ds values)

  module _ (method : Option String) (path : Text) (trie : Trie) where
    walk_branch : IsSafe Fails (resolve_walk raw parser method path trie)
    unfolding resolve_walk
    walk_branch =
        IsSafe-bind Fails (traverse_route_map trie.nodes path) _
          (traverse-IsSafe Fails trie.nodes path)
          λ f.
            IsSafe-bind Fails (parse_node_handlers (node_at trie.nodes f.node) method) _
              (handlers-IsSafe Fails (node_at trie.nodes f.node) method)
              λ _.
                IsSafe-bind Fails
                  (item (params_key raw parser (node_at trie.nodes f.node) method)
                    (node_at trie.nodes f.node).path_parameters)
                  _ (IsSafe-item Fails _)
                  λ ds.
                    IsSafe-bind Fails (parse_path_params raw parser [] ds f.path_params) _
                      (params-IsSafe [] ds f.path_params) λ _. tt

    plain_branch : IsSafe Fails (resolve_plain raw parser method path trie)
    unfolding resolve_plain
    plain_branch =
        IsSafe-bind Fails (item (component path) (node_at trie.nodes root).children) _
          (IsSafe-item Fails _)
          λ i.
            IsSafe-bind Fails (parse_node_handlers (node_at trie.nodes i) method) _
              (handlers-IsSafe Fails (node_at trie.nodes i) method) λ _. tt

    matched_branch :
        (mount : Text) → IsSafe Fails (resolve_matched raw parser method path trie mount)
    unfolding resolve_matched resolve_mount
    matched_branch mount =
        IsSafe-bind Fails (item mount trie.mount_routes) _ (IsSafe-item Fails _) λ i.
          IsSafe-if Fails
            (any (is_below (drop (length mount) path))
              (sub_routes mount (keys (node_at trie.nodes i).children)))
            _ _ walk_branch
            (IsSafe-bind Fails (parse_node_handlers (node_at trie.nodes i) method) _
              (handlers-IsSafe Fails (node_at trie.nodes i) method) λ _. tt)

    resolve-IsSafe :
        (mounts : List Text) → IsSafe Fails (resolve raw parser method mounts path trie)
    unfolding resolve
    resolve-IsSafe mounts =
        IsSafe-if Fails (contains path trie.plain_routes) _ _ plain_branch
          (go (match_mount mounts path))
      where
        go :
            (o : Option Text)
            → IsSafe Fails (elim o [
              | some mount ↦ resolve_matched raw parser method path trie mount
              | none ↦ resolve_walk raw parser method path trie
            ])
        go (some mount) = matched_branch mount
        go none = walk_branch

-- What `parse_path_to_route` answers for an exception that was raised on the way: 405 for a
-- `KeyError`, 404 for a `ValueError`, of which `NotFoundException` and
-- `ImproperlyConfiguredException` are classes, and any other exception is passed on.
pub data Answered : Exception → Exception → Type 0 where
  no_key : Answered key_error method_not_allowed
  no_value : Answered value_error not_found
  no_node : Answered not_found not_found
  bad_value : Answered improperly_configured not_found
  passed_on :
      {e : Exception}
      → e ≢ key_error
      → e ≢ value_error
      → e ≢ not_found
      → e ≢ improperly_configured
      → Answered e e

routing_error-Answered : (d : Exception) → Answered d (routing_error d)
unfolding routing_error
routing_error-Answered key_error = no_key
routing_error-Answered value_error = no_value
routing_error-Answered not_found = no_node
routing_error-Answered improperly_configured = bad_value
routing_error-Answered runtime_error = passed_on (cc) (cc) (cc) (cc)
routing_error-Answered method_not_allowed = passed_on (cc) (cc) (cc) (cc)
routing_error-Answered too_many_requests = passed_on (cc) (cc) (cc) (cc)
routing_error-Answered channels_exception = passed_on (cc) (cc) (cc) (cc)
routing_error-Answered (other n) = passed_on (cc) (cc) (cc) (cc)

rescued :
    (P : Exception → Type 0) {A : Type 0} (m : Result A) (e : Exception)
    → IsSafe P m
    → rescue routing_error m ≡ raise e
    → (d : Exception) × ((m ≡ raise d) × (IsHandled P d × Answered d e))
rescued P (ok a) e safe h = cc
rescued P (raise d) e safe h =
    let same : routing_error d ≡ e = cc in
    (d, (refl, (safe, subst (Answered d) same (routing_error-Answered d))))

-- Where a request is not resolved, whatever the trie, its mounts, the path and the method, one of three
-- exceptions was raised on the way: a `KeyError`, `NotFoundException`, or what the parser of a path
-- parameter raised. A `KeyError` is answered by 405, a `ValueError`, which `NotFoundException` and
-- `ImproperlyConfiguredException` are, by 404, and any other exception is passed on.
pub parse_path_to_route_error :
    {Value : Type 0} (raw : Text → Value) (parser : ParamType → Text → Result Value)
    (method : Option String) (mounts : List Text) (path : Text) (trie : Trie) (e : Exception)
    → parse_path_to_route raw parser method mounts path trie ≡ raise e
    → (d : Exception) × ((resolve raw parser method mounts path trie ≡ raise d)
        × (((d ≡ key_error) ⊎ ((d ≡ not_found) ⊎ IsParserError parser d)) × Answered d e))
unfolding parse_path_to_route
parse_path_to_route_error raw parser method mounts path trie e h =
    rescued (IsParserError parser) (resolve raw parser method mounts path trie) e
      (resolve-IsSafe raw parser method path trie mounts) h
