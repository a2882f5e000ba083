-- ===== src/Route/Errors.antt =====
-- The exception that parsing a path raises.
use mathlib.Core.Path.{subst}
use starlite.Prelude.{
  List, [], ◌∷◌, ◌≡◌, refl, Option, none, some, Result, ok, raise, Exception, improperly_configured,
  ◌>>=◌, if◌then◌else◌, Bool, true, false, is_nil, nat_Eq, list_Eq,
}
use starlite.Prelude.Dict.{has_key}
use starlite.Prelude.Text.{Text, strip, split_on}
use starlite.UrlPath.{normalize_path, components}
use starlite.Route.{
  Parts, ParamType, match_param, type_named, found_type, split_fields, split_parameter,
  add_parameter, add_literal, parse_component, parse_components, parse_path,
}

-- The computation raises no other exception than `ImproperlyConfiguredException`.
abbrev OnlyRefuses {ℓ} : {A : Type ℓ} → Result A → Type 0
OnlyRefuses (ok a) = Unit
OnlyRefuses (raise e) = e ≡ improperly_configured

OnlyRefuses-bind {ℓ κ} :
    {A : Type ℓ} {B : Type κ} (m : Result A) (f : A → Result B)
    → OnlyRefuses m
    → ((a : A) → OnlyRefuses (f a))
    → OnlyRefuses (m >>= f)
OnlyRefuses-bind (ok a) f h k = k a
OnlyRefuses-bind (raise e) f h k = h

OnlyRefuses-if {ℓ} :
    {A : Type ℓ} (b : Bool) (m n : Result A)
    → OnlyRefuses m
    → OnlyRefuses n
    → OnlyRefuses (if b then m else n)
OnlyRefuses-if true m n h k = h
OnlyRefuses-if false m n h k = k

split_fields-OnlyRefuses : (fields : Text × List Text) → OnlyRefuses (split_fields fields)
unfolding split_fields
split_fields-OnlyRefuses (first, []) = refl
split_fields-OnlyRefuses (first, second ∷ third ∷ rest) = refl
split_fields-OnlyRefuses (first, second ∷ []) =
    OnlyRefuses-if (is_nil (strip first)) _ _ refl (named (type_named (strip second)))
  where
    named : (type : Option ParamType) → OnlyRefuses (found_type (strip first) type)
    named none = refl
    named (some type) = tt

parse_component-OnlyRefuses :
    (parts : Parts) (component : Text) → OnlyRefuses (parse_component parts component)
unfolding parse_component split_parameter add_parameter
parse_component-OnlyRefuses parts component = matched (match_param component)
  where
    matched :
        (param : Option Text)
        → OnlyRefuses (elim param [
          | none ↦ ok (add_literal parts component)
          | some param ↦ split_parameter param >>= add_parameter parts param
        ])
    matched none = tt
    matched (some param) =
        OnlyRefuses-bind (split_parameter param) (add_parameter parts param)
          (split_fields-OnlyRefuses (split_on b':' param))
          (λ (name, type). OnlyRefuses-if (has_key name parts.path_parameters) _ _ refl tt)

parse_components-OnlyRefuses :
    (parts : Parts) (components : List Text) → OnlyRefuses (parse_components parts components)
unfolding parse_components
parse_components-OnlyRefuses parts [] = tt
parse_components-OnlyRefuses parts (component ∷ rest) =
    OnlyRefuses-bind (parse_component parts component) _
      (parse_component-OnlyRefuses parts component)
      (λ parts'. parse_components-OnlyRefuses parts' rest)

parse_path-OnlyRefuses : (raw : Text) → OnlyRefuses (parse_path raw)
unfolding parse_path
parse_path-OnlyRefuses raw =
    OnlyRefuses-bind (parse_components _ (components (normalize_path raw))) _
      (parse_components-OnlyRefuses _ (components (normalize_path raw))) (λ parts. tt)

-- A path that is not accepted is refused with `ImproperlyConfiguredException`.
pub parse_path_error :
    (raw : Text) (e : Exception) → parse_path raw ≡ raise e → e ≡ improperly_configured
parse_path_error raw e h = subst OnlyRefuses h (parse_path-OnlyRefuses raw)
