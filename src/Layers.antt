-- ===== src/Layers.antt =====
-- handlers/base.py: what a route handler resolves from its ownership layers, which are the handler
-- itself and its owners up to the application. A layer is what they have in common; functions and
-- classes are known by numbers, and equal providers by equal numbers.
pub mod Nearest
pub mod Ordering
pub mod Providing
mod Tests
use starlite.Prelude.{
  ℕ, Bool, true, false, Option, none, some, List, [], ◌∷◌, ◌++◌, Result, ok, raise,
  improperly_configured, ◌>>=◌, contains, if◌then◌else◌, Eq, ◌==◌, nat_Eq, list_Eq,
}
use starlite.Prelude.Dict.{Dict, lookup, insert, keys, values}
use starlite.Prelude.Text.{Text}

pub record Layer : Type 0 where
  pub guards : List ℕ
  pub middleware : List ℕ
  pub type_decoders : List ℕ
  pub exception_handlers : Dict ℕ ℕ
  pub type_encoders : Dict ℕ ℕ
  pub opt : Dict Text ℕ
  pub parameters : Dict Text ℕ
  pub dependencies : Dict Text ℕ

module _ {ℓ} {A : Type ℓ} where
  abbrev pub reversed : List A → List A
  reversed [] = []
  reversed (x ∷ xs) = reversed xs ++ x ∷ []

-- `ownership_layers`, from a handler and its owners, the nearest first
unfoldable pub ownership_layers : List Layer → List Layer
ownership_layers chain = reversed chain

-- `d.update(e)`
module _ {K V : Type 0} ⦃e : Eq K⦄ where
  abbrev pub update : Dict K V → Dict K V → Dict K V
  update d [] = d
  update d ((k, v) ∷ rest) = update (insert k v d) rest

  -- The loop that the resolution of a dictionary is: `field` is what it reads of a layer.
  unfoldable pub merged : (Layer → Dict K V) → Dict K V → List Layer → Dict K V
  merged field d [] = d
  merged field d (layer ∷ layers) = merged field (update d (field layer)) layers

unfoldable pub extended : (Layer → List ℕ) → List Layer → List ℕ
extended field [] = []
extended field (layer ∷ layers) = field layer ++ extended field layers

unfoldable pub resolve_type_encoders : List Layer → Dict ℕ ℕ
unfolding merged
resolve_type_encoders layers = merged (λ layer. layer.type_encoders) [] layers

unfoldable pub resolve_type_decoders : List Layer → List ℕ
unfolding extended
resolve_type_decoders layers = extended (λ layer. layer.type_decoders) layers

unfoldable pub resolve_layered_parameters : List Layer → Dict Text ℕ
unfolding merged
resolve_layered_parameters layers = merged (λ layer. layer.parameters) [] layers

unfoldable pub resolve_guards : List Layer → List ℕ
unfolding extended
resolve_guards layers = extended (λ layer. layer.guards) layers

unfoldable pub resolve_middleware : List Layer → List ℕ
unfolding extended
resolve_middleware layers = reversed (extended (λ layer. layer.middleware) layers)

unfoldable pub resolve_exception_handlers : List Layer → Dict ℕ ℕ
unfolding merged
resolve_exception_handlers layers = merged (λ layer. layer.exception_handlers) [] layers

unfoldable pub resolve_opts : List Layer → Dict Text ℕ
unfolding merged
resolve_opts layers = merged (λ layer. layer.opt) [] layers

-- `_resolve_dependency`, where providers are parsed elsewhere: the check by
-- `_validate_dependency_is_unique`
abbrev pub provide : Text → ℕ → Dict Text ℕ → Result (Dict Text ℕ)
provide key provider resolved =
    if contains provider (values resolved)
    then raise improperly_configured
    else ok (insert key provider resolved)

abbrev pub provide_all : Dict Text ℕ → Dict Text ℕ → Result (Dict Text ℕ)
provide_all [] resolved = ok resolved
provide_all ((key, provider) ∷ rest) resolved = provide key provider resolved >>= provide_all rest

abbrev pub provide_layers : List Layer → Dict Text ℕ → Result (Dict Text ℕ)
provide_layers [] resolved = ok resolved
provide_layers (layer ∷ layers) resolved =
    provide_all layer.dependencies resolved >>= provide_layers layers

unfoldable pub resolve_dependencies : List Layer → Result (Dict Text ℕ)
resolve_dependencies layers = provide_layers layers []
