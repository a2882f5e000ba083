-- ===== src/Layers/Ordering.antt =====
-- The order of the guards and of the middlewares of a handler.
use mathlib.Core.List.{append-nil, append_assoc}
use starlite.Prelude.{ℕ, ◌≡◌, refl, sym, ap, ◌∙◌, List, [], ◌∷◌, ◌++◌}
use starlite.Layers.{
  Layer, reversed, ownership_layers, extended, resolve_guards, resolve_middleware,
}

reversed-append : (xs ys : List ℕ) → reversed (xs ++ ys) ≡ reversed ys ++ reversed xs
reversed-append [] ys = sym (append-nil (reversed ys))
reversed-append (x ∷ xs) ys =
    ap (λ l. l ++ x ∷ []) (reversed-append xs ys)
    ∙ append_assoc (reversed ys) (reversed xs) (x ∷ [])

extended-append :
    (field : Layer → List ℕ) (layers : List Layer) (layer : Layer)
    → extended field (layers ++ layer ∷ []) ≡ extended field layers ++ field layer
unfolding extended
extended-append field [] layer = append-nil (field layer)
extended-append field (l ∷ layers) layer =
    ap (λ xs. field l ++ xs) (extended-append field layers layer)
    ∙ sym (append_assoc (field l) (extended field layers) (field layer))

-- From the application to the handler, each layer in its order.
abbrev pub outside_in : List Layer → List ℕ
outside_in [] = []
outside_in (layer ∷ owners) = outside_in owners ++ layer.guards

-- From the handler to the application, each layer from its end.
abbrev pub inside_out : List Layer → List ℕ
inside_out [] = []
inside_out (layer ∷ owners) = reversed layer.middleware ++ inside_out owners

guards-outside_in :
    (chain : List Layer) → extended (λ layer. layer.guards) (reversed chain) ≡ outside_in chain
unfolding extended
guards-outside_in [] = refl
guards-outside_in (layer ∷ owners) =
    extended-append (λ l. l.guards) (reversed owners) layer
    ∙ ap (λ xs. xs ++ layer.guards) (guards-outside_in owners)

middleware-inside_out :
    (chain : List Layer)
    → reversed (extended (λ layer. layer.middleware) (reversed chain)) ≡ inside_out chain
unfolding extended
middleware-inside_out [] = refl
middleware-inside_out (layer ∷ owners) =
    ap reversed (extended-append (λ l. l.middleware) (reversed owners) layer)
    ∙ reversed-append (extended (λ l. l.middleware) (reversed owners)) layer.middleware
    ∙ ap (λ xs. reversed layer.middleware ++ xs) (middleware-inside_out owners)

-- The guards are those of the application first and of the handler last, each layer's in its order;
-- the middlewares are those of the handler first and of the application last, each layer's from its
-- end, so that, wrapped one around the other in this order, the first one of the application is
-- outermost.
pub resolve_order :
    (chain : List Layer)
    → (resolve_guards (ownership_layers chain) ≡ outside_in chain)
      × (resolve_middleware (ownership_layers chain) ≡ inside_out chain)
unfolding resolve_guards resolve_middleware ownership_layers
resolve_order chain = (guards-outside_in chain, middleware-inside_out chain)
