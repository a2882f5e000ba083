-- ===== src/Layers/Tests.antt =====
-- A handler with one owner.
use starlite.Prelude.{
  ℕ, ◌≡◌, refl, none, some, List, [], ◌∷◌, raise, improperly_configured, Distinct, nat_Eq, list_Eq,
}
use starlite.Prelude.Dict.{Dict, lookup, values}
use starlite.Prelude.Text.{Text, codes}
use starlite.Layers.{
  Layer, ownership_layers, merged, resolve_exception_handlers, resolve_type_encoders, resolve_opts,
  resolve_layered_parameters, resolve_guards, resolve_middleware, resolve_dependencies,
}
use starlite.Layers.Nearest.{resolve_nearest}
use starlite.Layers.Ordering.{resolve_order}
use starlite.Layers.Providing.{resolve_dependencies_inv}

abbrev app : Layer
app = record {
  guards = 1 ∷ 2 ∷ [];
  middleware = 11 ∷ 12 ∷ [];
  type_decoders = [];
  exception_handlers = (404, 21) ∷ (500, 22) ∷ [];
  type_encoders = [];
  opt = (codes "a", 31) ∷ [];
  parameters = [];
  dependencies = (codes "db", 41) ∷ [];
}

abbrev handler : Layer
handler = record app {
  guards = 3 ∷ [];
  middleware = 13 ∷ [];
  exception_handlers = (404, 23) ∷ [];
  opt = [];
  dependencies = (codes "user", 42) ∷ [];
}

abbrev chain : List Layer
chain = handler ∷ app ∷ []

resolve_nearest_example :
    (lookup 404 (resolve_exception_handlers (ownership_layers chain)) ≡ some 23)
    × (lookup 404 (resolve_type_encoders (ownership_layers chain)) ≡ none)
    × (lookup (codes "a") (resolve_opts (ownership_layers chain)) ≡ some 31)
    × (lookup (codes "a") (resolve_layered_parameters (ownership_layers chain)) ≡ none)
resolve_nearest_example =
    resolve_nearest chain 404 (codes "a") (
      ((refl, tt), ((refl, (refl, tt)), tt)),
      (tt, (tt, tt)),
      (tt, ((refl, tt), tt)),
      (tt, (tt, tt)),
    )

resolve_order_example :
    (resolve_guards (ownership_layers chain) ≡ 1 ∷ 2 ∷ 3 ∷ [])
    × (resolve_middleware (ownership_layers chain) ≡ 13 ∷ 12 ∷ 11 ∷ [])
resolve_order_example = resolve_order chain

abbrev given : Dict Text ℕ
given = (codes "db", 41) ∷ (codes "user", 42) ∷ []

resolve_dependencies_inv_example :
    (given ≡ merged (λ layer. layer.dependencies) [] (ownership_layers chain))
    × Distinct (values given)
unfolding resolve_dependencies ownership_layers
resolve_dependencies_inv_example = resolve_dependencies_inv (ownership_layers chain) given refl

-- A provider that a layer gives again under the key that it has.
provided_again :
    resolve_dependencies (ownership_layers (app ∷ app ∷ [])) ≡ raise improperly_configured
unfolding resolve_dependencies ownership_layers
provided_again = refl
