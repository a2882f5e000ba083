-- ===== src/Registration/Options.antt =====
-- Registering an HTTP handler on an application: on a path that has no route yet, and on a path whose
-- route answers OPTIONS.
use starlite.Prelude.{
  true-false, ℕ, ◌≡◌, refl, sym, ap, ◌∙◌, ◌⊎◌, inl, inr, true, false, Option, none, some, List, [],
  ◌∷◌, ◌++◌, Result, ok, raise, improperly_configured, ◌>>=◌, contains, contains-append, Distinct,
  ◌==◌, nat_Eq, list_Eq, list_eq_iff, beq_refl, Bool-cases, Option-cases, Result-cases, arith,
}
use starlite.Prelude.Dict.{lookup, values}
use starlite.Prelude.Text.{Text}
use starlite.UrlPath.{join_paths}
use starlite.Route.{parse_path}
use starlite.Route.Errors.{parse_path_error}
use starlite.Registration.{
  HttpRouteHandler, Route, Router, http_value, options, methods_of, route_handlers_of, websocket,
  asgi, for_methods, http_handlers, same_id, unique, find_index, Changed, register_http,
  register_other, existing_handlers, register_paths, register, create_maps, register_on_app,
}
use mathlib.Core.List.{append_assoc}
use starlite.Registration.Methods.{create_handler_map_shared}

same_id_refl : (id : Option ℕ) → same_id id id ≡ true
same_id_refl none = refl
same_id_refl (some i) = beq_refl i

-- A handler for several methods is one handler.
unique-for_methods :
    (handler : HttpRouteHandler) (methods : List Text)
    → (unique (http_handlers (values (for_methods handler methods))) ≡ [])
      ⊎ (unique (http_handlers (values (for_methods handler methods))) ≡ handler ∷ [])
unique-for_methods handler [] = inl refl
unique-for_methods handler (method ∷ methods) = elim (unique-for_methods handler methods) [
  | inl e ↦ inr (rw e refl)
  | inr e ↦ inr (rw (e, same_id_refl handler.handler_id) refl)
]

unique-for_methods_some :
    (handler : HttpRouteHandler) (method : Text) (methods : List Text)
    → unique (http_handlers (values (for_methods handler (method ∷ methods)))) ≡ handler ∷ []
unique-for_methods_some handler method methods = elim (unique-for_methods handler methods) [
  | inl e ↦ rw e refl
  | inr e ↦ rw (e, same_id_refl handler.handler_id) refl
]

register_other-for_methods :
    (key path : Text) (handler : HttpRouteHandler) (methods : List Text) (changed : Changed)
    → register_other (lookup key (for_methods handler methods)) path changed ≡ ok changed
unfolding register_other
register_other-for_methods key path handler [] changed = refl
register_other-for_methods key path handler (method ∷ methods) changed =
    elim (Bool-cases (method == key)) [
      | inl same ↦ rw same refl
      | inr other ↦ rw other (register_other-for_methods key path handler methods changed)
    ]

-- The handler's id and methods, of which there is one at least.
abbrev pub handler_of : ℕ → Text → List Text → HttpRouteHandler
handler_of id method methods = record { handler_id = some id; http_methods = method ∷ methods }

abbrev pub finished : Router → Result Changed → Result (List Route × Router)
finished app (raise e) = raise e
finished app (ok (new, routes)) = ok (new, record app { routes = routes })

-- What `register` does after the branch for HTTP handlers.
register_rest :
    (handler : HttpRouteHandler) (path : Text) (app : Router) (done : Result Changed)
    → ((done
          >>= register_other (lookup websocket (for_methods handler handler.http_methods)) path
          >>= register_other (lookup asgi (for_methods handler handler.http_methods)) path
          >>= register_paths app.path [])
        >>= λ (new, routes). ok (new, record app { routes = routes }))
      ≡ finished app done
unfolding register_paths
register_rest handler path app (raise e) = refl
register_rest handler path app (ok (new, routes)) =
    rw
      (
        register_other-for_methods websocket path handler handler.http_methods (new, routes),
        register_other-for_methods asgi path handler handler.http_methods (new, routes),
      )
      refl

pub register-http_value :
    (id : ℕ) (method : Text) (methods : List Text) (path : Text) (app : Router)
    → register (http_value (path ∷ []) (handler_of id method methods)) app
      ≡ finished app (
          register_http
            (join_paths (app.path ∷ path ∷ []))
            (handler_of id method methods ∷ [])
            (existing_handlers (join_paths (app.path ∷ path ∷ [])) app.routes)
            ([], app.routes))
unfolding register
register-http_value id method methods path app =
    let handler = handler_of id method methods in
    let whole = join_paths (app.path ∷ path ∷ []) in
    rw (unique-for_methods_some handler method methods) (
      register_rest handler whole app
        (register_http whole (handler ∷ []) (existing_handlers whole app.routes) ([], app.routes)))

route_handlers_of-options :
    (handlers : List HttpRouteHandler)
    → contains options (methods_of handlers) ≡ true
    → route_handlers_of handlers ≡ handlers
unfolding route_handlers_of
route_handlers_of-options handlers h = rw h refl

pub methods_of-append :
    (handlers more : List HttpRouteHandler)
    → methods_of (handlers ++ more) ≡ methods_of handlers ++ methods_of more
methods_of-append [] more = refl
methods_of-append (handler ∷ handlers) more =
    ap (λ ms. handler.http_methods ++ ms) (methods_of-append handlers more)
    ∙ sym (append_assoc handler.http_methods (methods_of handlers) (methods_of more))

-- A method that is in both parts is there twice.
shared-Distinct :
    (method : Text) (left right : List Text)
    → contains method left ≡ true
    → contains method right ≡ true
    → ¬ Distinct (left ++ right)
shared-Distinct method [] right h k distinct = absurd (true-false refl (sym h))
shared-Distinct method (m ∷ left) right h k (fresh, distinct) = elim (Bool-cases (m == method)) [
  | inl same ↦
      let e : contains method (left ++ right) ≡ false =
        rw (← (list_eq_iff m method).0 same) fresh in
      let both = contains-append method left right in true-false refl (ground arith)
  | inr other ↦ shared-Distinct method left right (ground arith) k distinct
]

-- What `Litestar.register` does with the routes of `Router.register`.
abbrev pub mapped : Result (List Route × Router) → Result Router
unfolding create_maps
mapped done = done >>= λ (new, app'). create_maps new >>= λ _. ok app'

refused :
    (handler : HttpRouteHandler) (path : Text) (app : Router) (existing : List HttpRouteHandler)
    → contains options handler.http_methods ≡ true
    → contains options (methods_of existing) ≡ true
    → mapped (finished app (register_http path (handler ∷ []) existing ([], app.routes)))
      ≡ raise improperly_configured
unfolding mapped register_http
refused handler path app [] new there = cc
refused handler path app (other ∷ others) new there =
    let handlers = handler ∷ other ∷ others in
    let shared : ¬ Distinct (methods_of handlers) =
      shared-Distinct options handler.http_methods (methods_of (other ∷ others)) new there in
    let answers : contains options (methods_of handlers) ≡ true =
      contains-append options handler.http_methods (methods_of (other ∷ others)) ∙ rw new refl in
    elim (Option-cases (find_index path app.routes)) [
      | inl e ↦ rw e refl
      | inr (i, e) ↦ elim (Result-cases (parse_path path)) [
        | inr (failed, f) ↦ rw (e, f) (rw (← parse_path_error path failed f) refl)
        | inl (parsed, f) ↦
            rw
              (
                e,
                f,
                route_handlers_of-options handlers answers,
                create_handler_map_shared handlers shared,
              )
              refl
      ]
    ]

-- Registering an HTTP handler that has OPTIONS among its methods raises
-- `ImproperlyConfiguredException` where one of the handlers of the path has OPTIONS already.
pub register_on_app-options :
    (id : ℕ) (method : Text) (methods : List Text) (path : Text) (app : Router)
    → contains options (method ∷ methods) ≡ true
    → contains options
        (methods_of (existing_handlers (join_paths (app.path ∷ path ∷ [])) app.routes))
      ≡ true
    → register_on_app (http_value (path ∷ []) (handler_of id method methods)) app
      ≡ raise improperly_configured
unfolding register_on_app register_http existing_handlers
register_on_app-options id method methods path app new there =
    let whole = join_paths (app.path ∷ path ∷ []) in
    rw (register-http_value id method methods path app) (
      refused (handler_of id method methods) whole app (existing_handlers whole app.routes) new
        there)
