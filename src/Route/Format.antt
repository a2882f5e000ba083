-- ===== src/Route/Format.antt =====
-- A parsed path and its format, as the texts of the components behind slashes.
use starlite.Prelude.{
  ℕ, List, [], ◌∷◌, ◌++◌, map, ◌≡◌, refl, sym, ap, ◌∙◌, ◌&&◌, ok, >>=-eq-ok, Bool-cases, inl, inr,
  nat_eq, is_nil, All, arith, list_Eq, nat_Eq,
}
use starlite.Prelude.Dict.{NodupKeys}
use starlite.Prelude.Text.{Text, split_on, strip, strip_left, strip_right, is_space}
use starlite.UrlPath.{normalize_path, components, join, join_paths, slash, is_slash}
use starlite.UrlPath.Normal.{
  normalize_path-eq-join, components-IsComponent, components-normalize_path, components_self,
  IsComponent, NoSlash, join_paths-eq-join, all_components,
}
use starlite.Route.{
  PathComponent, literal, parameter, ParsedPath, Parts, ParamType, split_fields, split_parameter,
  parse_components, parse_path,
}
use starlite.Route.Parsing.{
  source, shown, parameters_of, IsDeclared, parse_components-Extends, parse_components-NodupKeys,
}

abbrev start : Parts
start = record { parsed_components = []; path_format_components = []; path_parameters = [] }

-- What a path that was accepted says of its parts.
record Accepted (raw : Text) (p : ParsedPath) : Type 0 where
  parts : Parts
  looped : parse_components start (components raw) ≡ ok parts
  path : p.path ≡ normalize_path raw
  format : p.path_format ≡ join_paths parts.path_format_components
  parsed : p.path_components ≡ parts.parsed_components
  parameters : p.path_parameters ≡ parts.path_parameters

parse_path-Accepted : (raw : Text) (p : ParsedPath) → parse_path raw ≡ ok p → Accepted raw p
unfolding parse_path
parse_path-Accepted raw p h =
    let (parts, looped, e) =
      >>=-eq-ok (parse_components start (components (normalize_path raw))) _ h in
    record {
      parts = parts;
      looped = rw components-normalize_path at looped;
      path = cc;
      format = cc;
      parsed = cc;
      parameters = cc;
    }

pub parse_path-path :
    (raw : Text) (p : ParsedPath) → parse_path raw ≡ ok p → p.path ≡ normalize_path raw
parse_path-path raw p h = (parse_path-Accepted raw p h).path

-- The path of a route is the texts that its components were parsed from, behind slashes, and
-- each component has what its text declares.
pub parse_path-sources :
    (raw : Text) (p : ParsedPath)
    → parse_path raw ≡ ok p
    → (p.path ≡ slash ∷ join (map source p.path_components)) × All IsDeclared p.path_components
parse_path-sources raw p h =
    let a = parse_path-Accepted raw p h in
    let e = parse_components-Extends start a.parts (components raw) a.looped in
    let same : p.path_components ≡ e.new = a.parsed ∙ e.parsed in
    (
      a.path
          ∙ (normalize_path-eq-join raw
              ∙ ap (λ l. slash ∷ join l) (sym (ap (map source) same ∙ e.sources))),
      rw same e.declared,
    )

-- The parameters of a route are those among its components, in order, and their names differ.
pub parse_path-parameters :
    (raw : Text) (p : ParsedPath)
    → parse_path raw ≡ ok p
    → (p.path_parameters ≡ parameters_of p.path_components) × NodupKeys p.path_parameters
parse_path-parameters raw p h =
    let a = parse_path-Accepted raw p h in
    let e = parse_components-Extends start a.parts (components raw) a.looped in
    (
      a.parameters ∙ (e.parameters ∙ ap parameters_of (sym (a.parsed ∙ e.parsed))),
      rw a.parameters (parse_components-NodupKeys start a.parts (components raw) tt a.looped),
    )

NoSlash-strip_left : (s : Text) → NoSlash s → NoSlash (strip_left s)
unfolding strip_left
NoSlash-strip_left [] h = tt
NoSlash-strip_left (c ∷ cs) (p, h) = elim (Bool-cases (is_space c)) [
  | inl e ↦ rw e (NoSlash-strip_left cs h)
  | inr e ↦ rw e (p, h)
]

NoSlash-strip_right : (s : Text) → NoSlash s → NoSlash (strip_right s)
unfolding strip_right
NoSlash-strip_right [] h = tt
NoSlash-strip_right (c ∷ cs) (p, h) = elim (Bool-cases (is_space c && is_nil (strip_right cs))) [
  | inl e ↦ rw e tt
  | inr e ↦ rw e (p, NoSlash-strip_right cs h)
]

NoSlash-split_on : (sep : ℕ) (s : Text) → NoSlash s → NoSlash (split_on sep s).0
unfolding split_on
NoSlash-split_on sep [] h = tt
NoSlash-split_on sep (c ∷ cs) (p, h) = elim (Bool-cases (nat_eq c sep)) [
  | inl e ↦ rw e tt
  | inr e ↦ rw e (p, NoSlash-split_on sep cs h)
]

-- The name of a parameter is the stripped first part of its text.
split_fields-name :
    (first name : Text) (others : List Text) (type : ParamType)
    → split_fields (first, others) ≡ ok (name, type)
    → name ≡ strip first
unfolding split_fields
split_fields-name first name [] type h = cc
split_fields-name first name (second ∷ []) type h = ground arith
split_fields-name first name (second ∷ _ ∷ _) type h = cc

split_parameter-name :
    (full name : Text) (type : ParamType)
    → split_parameter full ≡ ok (name, type)
    → name ≡ strip (split_on b':' full).0
split_parameter-name full name type h =
    split_fields-name (split_on b':' full).0 name (split_on b':' full).1 type
      (unfold split_parameter in h)

NoSlash-before : (s t : Text) → NoSlash (s ++ t) → NoSlash s
NoSlash-before [] t h = tt
NoSlash-before (c ∷ cs) t (p, h) = (p, NoSlash-before cs t h)

NoSlash-append : (s t : Text) → NoSlash s → NoSlash t → NoSlash (s ++ t)
NoSlash-append [] t h k = k
NoSlash-append (c ∷ cs) t (p, h) k = (p, NoSlash-append cs t h k)

shown-IsComponent :
    (c : PathComponent) → IsDeclared c → IsComponent (source c) → IsComponent (shown c)
shown-IsComponent (literal text) h k = k
shown-IsComponent (parameter d) (declared, _) ((open_brace, inner), _) =
    let name : NoSlash d.name = rw (split_parameter-name d.full d.name d.type declared) (
      unfold strip in
      NoSlash-strip_right _
        (NoSlash-strip_left _ (NoSlash-split_on b':' d.full (NoSlash-before d.full _ inner)))) in
    ((unfold is_slash in refl, NoSlash-append d.name _ name (unfold is_slash in (refl, tt))), refl)

all_components-shown :
    (cs : List PathComponent)
    → All IsDeclared cs
    → All IsComponent (map source cs)
    → all_components (map shown cs) ≡ map shown cs
all_components-shown [] h k = refl
all_components-shown (c ∷ cs) (d, h) (i, k) =
    rw (components_self (shown c) (shown-IsComponent c d i))
      (ap (λ l. shown c ∷ l) (all_components-shown cs h k))

-- The format of a route's path is the path with each parameter reduced to its name in braces.
pub parse_path-format :
    (raw : Text) (p : ParsedPath)
    → parse_path raw ≡ ok p
    → p.path_format ≡ slash ∷ join (map shown p.path_components)
parse_path-format raw p h =
    let a = parse_path-Accepted raw p h in
    let e = parse_components-Extends start a.parts (components raw) a.looped in
    let same : p.path_components ≡ e.new = a.parsed ∙ e.parsed in
    a.format
    ∙ (ap join_paths e.format
        ∙ (join_paths-eq-join (map shown e.new)
            ∙ (ap (λ l. slash ∷ join l)
                  (all_components-shown e.new e.declared
                    (rw e.sources (components-IsComponent raw)))
                ∙ ap (λ l. slash ∷ join (map shown l)) (sym same))))
