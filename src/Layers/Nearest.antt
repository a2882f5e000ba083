-- ===== src/Layers/Nearest.antt =====
-- Of the layers that define a key, the one nearest to the handler has the value.
use starlite.Prelude.{
  ℕ, ◌≡◌, refl, sym, ap, ◌∙◌, inl, inr, Option, none, some, List, [], ◌∷◌, ◌++◌, Eq, ◌==◌, nat_Eq,
  list_Eq, Bool-cases,
}
use starlite.Prelude.Dict.{Dict, lookup, insert, NodupKeys, has_key-false, lookup-insert}
use starlite.Prelude.Text.{Text}
use starlite.Layers.{
  Layer, reversed, ownership_layers, update, merged, resolve_exception_handlers,
  resolve_type_encoders, resolve_opts, resolve_layered_parameters,
}

abbrev pub or_else : {A : Type 0} → Option A → Option A → Option A
or_else none other = other
or_else (some a) other = some a

or_else_assoc : {A : Type 0} (a b c : Option A) → or_else (or_else a b) c ≡ or_else a (or_else b c)
or_else_assoc none b c = refl
or_else_assoc (some a) b c = refl

-- Each layer has each key once.
module _ {K V : Type 0} ⦃e : Eq K⦄ (field : Layer → Dict K V) where
  abbrev pub EachOnce : List Layer → Type 0
  EachOnce [] = Unit
  EachOnce (layer ∷ owners) = NodupKeys (field layer) × EachOnce owners

module _ {K V : Type 0} ⦃e : Eq K⦄ (field : Layer → Dict K V) (key : K) where
  -- The value of the first layer that has one, from the handler to the application.
  abbrev pub nearest : List Layer → Option V
  nearest [] = none
  nearest (layer ∷ owners) = or_else (lookup key (field layer)) (nearest owners)

  lookup-update :
      (d new : Dict K V)
      → NodupKeys new
      → lookup key (update d new) ≡ or_else (lookup key new) (lookup key d)
  lookup-update d [] once = refl
  lookup-update d ((k, v) ∷ new) (fresh, once) =
      lookup-update (insert k v d) new once
      ∙ rw (lookup-insert key k v d) (elim (Bool-cases (k == key)) [
        | inr other ↦ rw other refl
        | inl same ↦
            let unknown : lookup key new ≡ none =
              rw (← (e.beq_iff k key).0 same) (has_key-false k new fresh) in
            rw (same, unknown) refl
      ])

  merged-append :
      (layers : List Layer) (layer : Layer) (d : Dict K V)
      → merged field d (layers ++ layer ∷ []) ≡ update (merged field d layers) (field layer)
  unfolding merged
  merged-append [] layer d = refl
  merged-append (l ∷ layers) layer d = merged-append layers layer (update d (field l))

  lookup-merged :
      (chain : List Layer) (d : Dict K V)
      → EachOnce field chain
      → lookup key (merged field d (reversed chain)) ≡ or_else (nearest chain) (lookup key d)
  unfolding merged
  lookup-merged [] d once = refl
  lookup-merged (layer ∷ owners) d (once, others) =
      ap (lookup key) (merged-append (reversed owners) layer d)
      ∙ lookup-update (merged field d (reversed owners)) (field layer) once
      ∙ ap (or_else (lookup key (field layer))) (lookup-merged owners d others)
      ∙ sym (or_else_assoc (lookup key (field layer)) (nearest owners) (lookup key d))

  lookup-merged_empty :
      (chain : List Layer)
      → EachOnce field chain
      → lookup key (merged field [] (ownership_layers chain)) ≡ nearest chain
  unfolding ownership_layers
  lookup-merged_empty chain once = lookup-merged chain [] once ∙ or_else_none (nearest chain)
    where
      or_else_none : (found : Option V) → or_else found none ≡ found
      or_else_none none = refl
      or_else_none (some v) = refl

-- The dictionaries of each layer have each key once, as dictionaries do.
abbrev pub AreDicts : List Layer → Type 0
AreDicts chain =
    EachOnce (λ layer. layer.exception_handlers) chain
    × EachOnce (λ layer. layer.type_encoders) chain
    × EachOnce (λ layer. layer.opt) chain
    × EachOnce (λ layer. layer.parameters) chain

-- Where the dictionaries of each layer have each key once: what a handler resolves for a key, as
-- exception handler, type encoder, option or parameter, is the value of the layer nearest to the
-- handler that has the key, and nothing if none has it.
pub resolve_nearest :
    (chain : List Layer) (number : ℕ) (name : Text)
    → AreDicts chain
    → (lookup number (resolve_exception_handlers (ownership_layers chain))
        ≡ nearest (λ layer. layer.exception_handlers) number chain)
      × (lookup number (resolve_type_encoders (ownership_layers chain))
          ≡ nearest (λ layer. layer.type_encoders) number chain)
      × (lookup name (resolve_opts (ownership_layers chain))
          ≡ nearest (λ layer. layer.opt) name chain)
      × (lookup name (resolve_layered_parameters (ownership_layers chain))
          ≡ nearest (λ layer. layer.parameters) name chain)
unfolding resolve_exception_handlers resolve_type_encoders resolve_opts resolve_layered_parameters
resolve_nearest chain number name (handlers, encoders, opts, parameters) = (
  lookup-merged_empty (λ layer. layer.exception_handlers) number chain handlers,
  lookup-merged_empty (λ layer. layer.type_encoders) number chain encoders,
  lookup-merged_empty (λ layer. layer.opt) name chain opts,
  lookup-merged_empty (λ layer. layer.parameters) name chain parameters,
)
