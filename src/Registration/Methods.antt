-- ===== src/Registration/Methods.antt =====
-- `HTTPRoute.create_handler_map`: when it succeeds, and what it maps a method to.
use starlite.Prelude.{
  true-false, ◌≡◌, refl, sym, ap, ◌∙◌, inl, inr, Bool, true, false, Option, none, some, List, [],
  ◌∷◌, ◌++◌, Result, ok, raise, improperly_configured, Exception, ◌>>=◌, contains, Distinct,
  if◌then◌else◌, ◌==◌, nat_Eq, list_Eq, list_eq_iff, beq_refl, Bool-cases, Result-cases, arith,
}
use starlite.Prelude.Dict.{
  Dict, lookup, insert, has_key, keys, lookup-insert, has_key-insert, has_key-false, contains-keys,
}
use starlite.Prelude.Text.{Text}
use starlite.Registration.{HttpRouteHandler, methods_of, map_methods, create_handler_map}

-- The methods of the handlers, each with its handler.
abbrev pub entries_of : HttpRouteHandler → List Text → Dict Text HttpRouteHandler
entries_of handler [] = []
entries_of handler (method ∷ methods) = (method, handler) ∷ entries_of handler methods

abbrev pub entries : List HttpRouteHandler → Dict Text HttpRouteHandler
entries [] = []
entries (handler ∷ handlers) = entries_of handler handler.http_methods ++ entries handlers

abbrev insert_all :
    Dict Text HttpRouteHandler → Dict Text HttpRouteHandler → Result (Dict Text HttpRouteHandler)
insert_all [] map = ok map
insert_all ((method, handler) ∷ rest) map =
    let next = insert_all rest (insert method handler map) in
    if has_key method map then raise improperly_configured else next

insert_all-append :
    (new more map : Dict Text HttpRouteHandler)
    → insert_all (new ++ more) map ≡ (insert_all new map >>= insert_all more)
insert_all-append [] more map = refl
insert_all-append ((method, handler) ∷ new) more map = elim (Bool-cases (has_key method map)) [
  | inl taken ↦ rw taken refl
  | inr free ↦ rw free (insert_all-append new more (insert method handler map))
]

map_methods-insert_all :
    (handler : HttpRouteHandler) (methods : List Text) (map : Dict Text HttpRouteHandler)
    → map_methods handler methods map ≡ insert_all (entries_of handler methods) map
map_methods-insert_all handler [] map = refl
map_methods-insert_all handler (method ∷ methods) map =
    rw (map_methods-insert_all handler methods (insert method handler map)) refl

create_handler_map-insert_all :
    (handlers : List HttpRouteHandler) (map : Dict Text HttpRouteHandler)
    → create_handler_map handlers map ≡ insert_all (entries handlers) map
unfolding create_handler_map
create_handler_map-insert_all [] map = refl
create_handler_map-insert_all (handler ∷ handlers) map =
    rw
      (
        map_methods-insert_all handler handler.http_methods map,
        insert_all-append (entries_of handler handler.http_methods) (entries handlers) map,
      )
      (λ i. insert_all (entries_of handler handler.http_methods) map >>= λ m.
        create_handler_map-insert_all handlers m i)

keys-append : (new more : Dict Text HttpRouteHandler) → keys (new ++ more) ≡ keys new ++ keys more
keys-append [] more = refl
keys-append ((method, handler) ∷ new) more = ap (λ ms. method ∷ ms) (keys-append new more)

keys-entries_of :
    (handler : HttpRouteHandler) (methods : List Text) → keys (entries_of handler methods) ≡ methods
keys-entries_of handler [] = refl
keys-entries_of handler (method ∷ methods) =
    ap (λ ms. method ∷ ms) (keys-entries_of handler methods)

keys-entries : (handlers : List HttpRouteHandler) → keys (entries handlers) ≡ methods_of handlers
keys-entries [] = refl
keys-entries (handler ∷ handlers) =
    keys-append (entries_of handler handler.http_methods) (entries handlers)
    ∙ rw (keys-entries_of handler handler.http_methods, keys-entries handlers) refl

-- None of the keys is in the map.
abbrev Apart : Dict Text HttpRouteHandler → Dict Text HttpRouteHandler → Type 0
Apart new map = (method : Text) → contains method (keys new) ≡ true → has_key method map ≡ false

abbrev or_else : Option HttpRouteHandler → Option HttpRouteHandler → Option HttpRouteHandler
or_else none other = other
or_else (some handler) other = some handler

or_else_added :
    (m method : Text) (handler : HttpRouteHandler) (new map : Dict Text HttpRouteHandler)
    → contains m (keys new) ≡ false
    → or_else (lookup method new) (lookup method (insert m handler map))
      ≡ or_else (if m == method then some handler else lookup method new) (lookup method map)
or_else_added m method handler new map fresh = elim (Bool-cases (m == method)) [
  | inr other ↦ rw (lookup-insert method m handler map, other) refl
  | inl same ↦
      let unknown : lookup method new ≡ none =
        rw (← (list_eq_iff m method).0 same)
          (has_key-false m new (sym (contains-keys m new) ∙ fresh)) in
      rw (lookup-insert method m handler map, same, unknown) refl
]

insert_all_ok :
    (new map : Dict Text HttpRouteHandler)
    → Distinct (keys new)
    → Apart new map
    → (map' : Dict Text HttpRouteHandler) × (insert_all new map ≡ ok map')
      × ((method : Text) → lookup method map' ≡ or_else (lookup method new) (lookup method map))
insert_all_ok [] map distinct apart = (map, refl, λ method. refl)
insert_all_ok ((m, handler) ∷ new) map (fresh, distinct) apart =
    let free = apart m (rw (beq_refl m) refl) in
    let (map', done, holds) = insert_all_ok new (insert m handler map) distinct (λ method there.
      rw (has_key-insert method m handler map)
        (ground (arith, apart method, list_eq_iff m method))) in
    (map', rw free done, λ method. holds method ∙ or_else_added m method handler new map fresh)

insert_all_inv :
    (new map map' : Dict Text HttpRouteHandler)
    → insert_all new map ≡ ok map'
    → Distinct (keys new) × Apart new map
insert_all_inv [] map map' h = (tt, λ method there. cc)
insert_all_inv ((m, handler) ∷ new) map map' h = elim (Bool-cases (has_key m map)) [
  | inl taken ↦ let h' = rw taken at h in absurd (raise_ok map' h')
  | inr free ↦
      let h' = rw free at h in
      let (distinct, apart) = insert_all_inv new (insert m handler map) map' h' in
      let inserted = λ (method : Text). has_key-insert method m handler map in
      (
        (
          elim (Bool-cases (contains m (keys new))) [
            | inr fresh ↦ fresh
            | inl there ↦ let e = apart m there in let k = inserted m in ground (arith, beq_refl m)
          ],
          distinct,
        ),
        λ method there. elim (Bool-cases (m == method)) [
          | inl same ↦ rw (← (list_eq_iff m method).0 same) free
          | inr other ↦
              let e = apart method (ground arith) in let k = inserted method in ground arith
        ],
      )
]
  where
    raise_ok : (map : Dict Text HttpRouteHandler) → ¬ (raise improperly_configured ≡ ok map)
    raise_ok map h = let e : ◌≡◌ {A = Bool} true false = cc in absurd (true-false refl e)

insert_all_raise :
    (new map : Dict Text HttpRouteHandler) (e : Exception)
    → insert_all new map ≡ raise e
    → insert_all new map ≡ raise improperly_configured
insert_all_raise [] map e h = absurd (ok_raise map e h)
  where
    ok_raise : (map : Dict Text HttpRouteHandler) (e : Exception) → ¬ (ok map ≡ raise e)
    ok_raise map e h = let f : ◌≡◌ {A = Bool} true false = cc in absurd (true-false refl f)
insert_all_raise ((m, handler) ∷ new) map e h = elim (Bool-cases (has_key m map)) [
  | inl taken ↦ rw taken refl
  | inr free ↦ rw free (insert_all_raise new (insert m handler map) e (rw free at h))
]

-- Handlers that share a method are refused.
pub create_handler_map_shared :
    (handlers : List HttpRouteHandler)
    → (¬ Distinct (methods_of handlers))
    → create_handler_map handlers [] ≡ raise improperly_configured
create_handler_map_shared handlers shared =
    create_handler_map-insert_all handlers []
    ∙ elim (Result-cases (insert_all (entries handlers) [])) [
      | inl (map, done) ↦
          absurd (
            shared (rw (← keys-entries handlers) (insert_all_inv (entries handlers) [] map done).0))
      | inr (e, raised) ↦ insert_all_raise (entries handlers) [] e raised
    ]

pub create_handler_map-Distinct :
    (handlers : List HttpRouteHandler)
    → Distinct (methods_of handlers)
    → (map : Dict Text HttpRouteHandler) × (create_handler_map handlers [] ≡ ok map)
      × ((method : Text) → lookup method map ≡ lookup method (entries handlers))
create_handler_map-Distinct handlers distinct =
    let (map, done, holds) =
      insert_all_ok (entries handlers) [] (rw (keys-entries handlers) distinct)
        (λ method there. refl) in
    (
      map,
      create_handler_map-insert_all handlers [] ∙ done,
      λ method. holds method ∙ or_else_none (lookup method (entries handlers)),
    )
  where
    or_else_none : (found : Option HttpRouteHandler) → or_else found none ≡ found
    or_else_none none = refl
    or_else_none (some handler) = refl
