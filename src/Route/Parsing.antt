-- ===== src/Route/Parsing.antt =====
-- What a parsed path holds: every component of the path, in order.
use mathlib.Core.List.{append-nil, append_assoc, map-append}
use starlite.Prelude.{
  List, [], ◌∷◌, ◌++◌, map, ◌≡◌, refl, sym, ap, ◌∙◌, false, none, some, ok, >>=-eq-ok, Option-cases,
  inl, inr, nat_eq_iff, All, arith, list_Eq, nat_Eq,
}
use starlite.Prelude.Dict.{Dict, NodupKeys, insert-NodupKeys, insert_fresh, has_key}
use starlite.Prelude.Text.{Text}
use starlite.Route.{
  PathParameterDefinition, PathComponent, literal, parameter, Parts, before_brace, define,
  ParamType, add_literal, add_parameter, match_param, split_parameter, parser_of, braced,
  parse_component, parse_components,
}

-- The text that a component was parsed from.
abbrev pub source : PathComponent → Text
source (literal text) = text
source (parameter d) = braced d.full

-- The text that stands for a component in the format of the path.
abbrev pub shown : PathComponent → Text
shown (literal text) = text
shown (parameter d) = braced d.name

-- The definitions among the components, under their names.
abbrev pub parameters_of : List PathComponent → Dict Text PathParameterDefinition
parameters_of [] = []
parameters_of (literal _ ∷ cs) = parameters_of cs
parameters_of (parameter d ∷ cs) = (d.name, d) ∷ parameters_of cs

-- A definition has the name, the type and the parser that its text declares.
abbrev pub IsDeclared : PathComponent → Type 0
IsDeclared (literal text) = match_param text ≡ none
IsDeclared (parameter d) =
    (split_parameter d.full ≡ ok (d.name, d.type)) × (d.parser ≡ parser_of d.type)

before_brace_lem : (s inner : Text) → before_brace s ≡ some inner → s ≡ inner ++ b'}' ∷ []
unfolding before_brace
before_brace_lem [] inner h = cc
before_brace_lem (c ∷ []) inner h = ground (arith, nat_eq_iff c b'}')
before_brace_lem (c ∷ d ∷ cs) inner h = elim (Option-cases (before_brace (d ∷ cs))) [
  | inl e ↦ ground arith
  | inr (rest, e) ↦ ground (arith, before_brace_lem (d ∷ cs) rest e)
]

match_param_lem : (s inner : Text) → match_param s ≡ some inner → s ≡ braced inner
unfolding match_param
match_param_lem [] inner h = cc
match_param_lem (c ∷ cs) inner h = ground (arith, nat_eq_iff c b'{', before_brace_lem cs inner)

-- The loop has read `cs`, and has appended what it made of it.
pub record Extends (parts : Parts) (cs : List Text) (parts' : Parts) : Type 0 where
  pub new : List PathComponent
  pub parsed : parts'.parsed_components ≡ parts.parsed_components ++ new
  pub format : parts'.path_format_components ≡ parts.path_format_components ++ map shown new
  pub sources : map source new ≡ cs
  pub parameters : parts'.path_parameters ≡ parts.path_parameters ++ parameters_of new
  pub declared : All IsDeclared new

parameters_of-append :
    (xs ys : List PathComponent) → parameters_of (xs ++ ys) ≡ parameters_of xs ++ parameters_of ys
parameters_of-append [] ys = refl
parameters_of-append (literal _ ∷ xs) ys = parameters_of-append xs ys
parameters_of-append (parameter d ∷ xs) ys = ap (λ l. (d.name, d) ∷ l) (parameters_of-append xs ys)

All-append {ℓ κ} :
    {A : Type ℓ} (P : A → Type κ) (xs ys : List A) → All P xs → All P ys → All P (xs ++ ys)
All-append P [] ys h k = k
All-append P (x ∷ xs) ys (p, h) k = (p, All-append P xs ys h k)

Extends-refl : (parts : Parts) → Extends parts [] parts
Extends-refl parts = record {
  new = [];
  parsed = sym (append-nil _);
  format = sym (append-nil _);
  sources = refl;
  parameters = sym (append-nil _);
  declared = tt;
}

Extends-trans :
    {p q r : Parts} {cs ds : List Text} → Extends p cs q → Extends q ds r → Extends p (cs ++ ds) r
Extends-trans {p} {q} {r} e f = record {
  new = e.new ++ f.new;
  parsed = f.parsed ∙ rw e.parsed (append_assoc p.parsed_components e.new f.new);
  format = f.format ∙ rw (e.format) (simp (map-append, append_assoc));
  sources = map-append source e.new f.new ∙ rw (e.sources, f.sources) refl;
  parameters = f.parameters ∙ rw e.parameters (simp (parameters_of-append, append_assoc));
  declared = All-append IsDeclared e.new f.new e.declared f.declared;
}

add_literal-Extends :
    (parts : Parts) (c : Text) → match_param c ≡ none → Extends parts (c ∷ []) (add_literal parts c)
unfolding add_literal
add_literal-Extends parts c e = record {
  new = literal c ∷ [];
  parsed = refl;
  format = refl;
  sources = refl;
  parameters = sym (append-nil _);
  declared = (e, tt);
}

add_parameter-Extends :
    (parts parts' : Parts) (c inner name : Text) (type : ParamType)
    → c ≡ braced inner
    → split_parameter inner ≡ ok (name, type)
    → add_parameter parts inner (name, type) ≡ ok parts'
    → Extends parts (c ∷ []) parts'
unfolding add_parameter
add_parameter-Extends parts parts' c inner name type same e h =
    let d = define inner name type in
    let fresh : has_key name parts.path_parameters ≡ false = ground arith in
    record {
      new = parameter d ∷ [];
      parsed = ground arith;
      format = ground arith;
      sources = ap (λ s. s ∷ []) (sym same);
      parameters = ground (arith, insert_fresh name d parts.path_parameters);
      declared = ((e, refl), tt);
    }

parse_component-Extends :
    (parts parts' : Parts) (c : Text)
    → parse_component parts c ≡ ok parts'
    → Extends parts (c ∷ []) parts'
unfolding parse_component
parse_component-Extends parts parts' c h = elim (Option-cases (match_param c)) [
  | inl e ↦
      let same : add_literal parts c ≡ parts' = ground arith in
      rw (← same) (add_literal-Extends parts c e)
  | inr (inner, e) ↦
      let ((name, type), valid, added) =
        >>=-eq-ok (split_parameter inner) (add_parameter parts inner)
          (rw (e, parse_component) at h) in
      add_parameter-Extends parts parts' c inner name type (match_param_lem c inner e) valid added
]

pub parse_components-Extends :
    (parts parts' : Parts) (cs : List Text)
    → parse_components parts cs ≡ ok parts'
    → Extends parts cs parts'
unfolding parse_components
parse_components-Extends parts parts' [] h =
    let same : parts ≡ parts' = ground arith in rw (← same) (Extends-refl parts)
parse_components-Extends parts parts' (c ∷ cs) h =
    let (next, first, rest) = >>=-eq-ok (parse_component parts c) _ h in
    Extends-trans (parse_component-Extends parts next c first)
      (parse_components-Extends next parts' cs rest)

-- The names that the loop has met are distinct.
add_parameter-NodupKeys :
    (parts parts' : Parts) (inner : Text) (p : Text × ParamType)
    → NodupKeys parts.path_parameters
    → add_parameter parts inner p ≡ ok parts'
    → NodupKeys parts'.path_parameters
unfolding add_parameter
add_parameter-NodupKeys parts parts' inner (name, type) distinct h =
    ground (arith, insert-NodupKeys name (define inner name type) parts.path_parameters distinct)

parse_component-NodupKeys :
    (parts parts' : Parts) (c : Text)
    → NodupKeys parts.path_parameters
    → parse_component parts c ≡ ok parts'
    → NodupKeys parts'.path_parameters
unfolding parse_component add_literal
parse_component-NodupKeys parts parts' c distinct h = elim (Option-cases (match_param c)) [
  | inl e ↦ ground arith
  | inr (inner, e) ↦
      let (p, valid, added) =
        >>=-eq-ok (split_parameter inner) (add_parameter parts inner)
          (rw (e, parse_component) at h) in
      add_parameter-NodupKeys parts parts' inner p distinct added
]

pub parse_components-NodupKeys :
    (parts parts' : Parts) (cs : List Text)
    → NodupKeys parts.path_parameters
    → parse_components parts cs ≡ ok parts'
    → NodupKeys parts'.path_parameters
unfolding parse_components
parse_components-NodupKeys parts parts' [] distinct h = ground arith
parse_components-NodupKeys parts parts' (c ∷ cs) distinct h =
    let (next, first, rest) = >>=-eq-ok (parse_component parts c) _ h in
    parse_components-NodupKeys next parts' cs
      (parse_component-NodupKeys parts next c distinct first) rest
