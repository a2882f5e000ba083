-- ===== src/Trie/Stack.antt =====
-- `build_route_middleware_stack` of _asgi/routing_trie/mapping.py, and what it composes.
use mathlib.Core.List.{append_assoc}
use starlite.Prelude.{
  ℕ, List, [], ◌∷◌, ◌++◌, Bool, false, not, ◌||◌, ◌&&◌, any, is_nil, if◌then◌else◌, ◌≡◌, ◌∙◌, ◌∙◌,
  Bool-cases, arith, sym, inl, ap, inr, refl,
}
use starlite.Trie.{
  Middleware, AsgiApp, route_handle, exception_handler, csrf, compression, response_cache,
  allowed_hosts, wrapped, RouteHandler, RouteKind, http, Route, AppConfig,
}

-- `isinstance(route, HTTPRoute) and any(r.cache for r in route.route_handlers)`
abbrev pub has_cached_route : RouteKind → Bool
has_cached_route (http _ handlers) = any (λ h. h.cache) handlers
has_cached_route _ = false

abbrev wrap_if : Bool → (AsgiApp → AsgiApp) → AsgiApp → AsgiApp
wrap_if test wrap app = if test then wrap app else app

-- `for middleware in handler_middleware`
unfoldable pub wrap_all : List Middleware → AsgiApp → AsgiApp
wrap_all [] app = app
wrap_all (m ∷ ms) app = wrap_all ms (wrapped m app)

unfoldable pub has_middleware : AppConfig → Route → RouteHandler → Bool
has_middleware config route handler =
    config.csrf_config
    || config.compression_config
    || has_cached_route route.kind
    || config.allowed_hosts
    || not (is_nil handler.middleware)

unfoldable pub build_route_middleware_stack : AppConfig → Route → RouteHandler → AsgiApp
unfolding wrap_all
build_route_middleware_stack config route handler =
    let inner = exception_handler (route_handle route.number) in
    let protected = wrap_if config.csrf_config csrf inner in
    let compressed = wrap_if config.compression_config compression protected in
    let cached = wrap_if (has_cached_route route.kind) response_cache compressed in
    let checked = wrap_if config.allowed_hosts allowed_hosts cached in
    if has_middleware config route handler
    then wrap_all handler.middleware checked
    else route_handle route.number

-- The layers of an application, the outermost first.
pub data Layer : Type 0 where
  exception_layer csrf_layer compression_layer cache_layer hosts_layer : Layer
  custom : Middleware → Layer

abbrev pub layers : AsgiApp → List Layer
layers (route_handle _) = []
layers (exception_handler app) = exception_layer ∷ layers app
layers (csrf app) = csrf_layer ∷ layers app
layers (compression app) = compression_layer ∷ layers app
layers (response_cache app) = cache_layer ∷ layers app
layers (allowed_hosts app) = hosts_layer ∷ layers app
layers (wrapped m app) = custom m ∷ layers app

abbrev pub listed : Bool → Layer → List Layer
listed test layer = if test then layer ∷ [] else []

abbrev pub custom_layers : List Middleware → List Layer
custom_layers [] = []
custom_layers (m ∷ ms) = custom_layers ms ++ custom m ∷ []

abbrev pub endpoint : AsgiApp → ℕ
endpoint (route_handle n) = n
endpoint (exception_handler app) = endpoint app
endpoint (csrf app) = endpoint app
endpoint (compression app) = endpoint app
endpoint (response_cache app) = endpoint app
endpoint (allowed_hosts app) = endpoint app
endpoint (wrapped m app) = endpoint app

layers-wrap_all :
    (ms : List Middleware) (app : AsgiApp)
    → layers (wrap_all ms app) ≡ custom_layers ms ++ layers app
unfolding wrap_all
layers-wrap_all [] app = refl
layers-wrap_all (m ∷ ms) app =
    layers-wrap_all ms (wrapped m app)
    ∙ sym (append_assoc (custom_layers ms) (custom m ∷ []) (layers app))

endpoint-wrap_all :
    (ms : List Middleware) (app : AsgiApp) → endpoint (wrap_all ms app) ≡ endpoint app
unfolding wrap_all
endpoint-wrap_all [] app = refl
endpoint-wrap_all (m ∷ ms) app = endpoint-wrap_all ms (wrapped m app)

-- The layers that the application's configuration and the route's cache ask for, each at its place.
abbrev pub configured_layers : AppConfig → Route → List Layer
configured_layers config route =
    listed config.allowed_hosts hosts_layer
    ++ listed (has_cached_route route.kind) cache_layer
    ++ listed config.compression_config compression_layer
    ++ listed config.csrf_config csrf_layer

-- Innermost of any layers is one that handles exceptions.
abbrev pub with_exception_layer : List Layer → List Layer
with_exception_layer asked = if is_nil asked then [] else asked ++ exception_layer ∷ []

layers-wrap_if :
    (a b c d : Bool) (app : AsgiApp)
    → layers (
        wrap_if a allowed_hosts
          (wrap_if b response_cache (wrap_if c compression (wrap_if d csrf app))))
      ≡ (listed a hosts_layer
          ++ listed b cache_layer
          ++ listed c compression_layer
          ++ listed d csrf_layer)
        ++ layers app
layers-wrap_if a b c d app = ground arith

endpoint-wrap_if :
    (a b c d : Bool) (app : AsgiApp)
    → endpoint (
        wrap_if a allowed_hosts
          (wrap_if b response_cache (wrap_if c compression (wrap_if d csrf app))))
      ≡ endpoint app
endpoint-wrap_if a b c d app = ground arith

is_nil-append : (ls more : List Layer) → is_nil (ls ++ more) ≡ is_nil ls && is_nil more
is_nil-append [] more = refl
is_nil-append (l ∷ ls) more = refl

is_nil-custom_layers : (ms : List Middleware) → is_nil (custom_layers ms) ≡ is_nil ms
is_nil-custom_layers [] = refl
is_nil-custom_layers (m ∷ ms) = is_nil-append (custom_layers ms) (custom m ∷ []) ∙ ground arith

-- A stack is made exactly where there is anything to put on it.
is_nil-asked :
    (config : AppConfig) (route : Route) (handler : RouteHandler)
    → is_nil (custom_layers handler.middleware ++ configured_layers config route)
      ≡ not (has_middleware config route handler)
unfolding has_middleware
is_nil-asked config route handler =
    is_nil-append (custom_layers handler.middleware) (configured_layers config route)
    ∙ rw (is_nil-custom_layers handler.middleware) (
        by_flags config.csrf_config config.compression_config (has_cached_route route.kind)
          config.allowed_hosts (is_nil handler.middleware))
  where
    by_flags :
        (d c b a e : Bool)
        → (e
            && is_nil (
                listed a hosts_layer
                ++ listed b cache_layer
                ++ listed c compression_layer
                ++ listed d csrf_layer))
          ≡ not (d || c || b || a || not e)
    by_flags d c b a e = ground arith

-- The application that is built for a route and its handler has the layers that are asked for: the
-- handler's own middlewares, the last in the list outermost, then those of allowed hosts, of the cache,
-- of compression and of CSRF, each exactly where the configuration, and for the cache a handler of the
-- route, asks for it, and, where there is any of these, innermost one that handles exceptions. It ends
-- in the route's own `handle`.
pub layers-build_route_middleware_stack :
    (config : AppConfig) (route : Route) (handler : RouteHandler)
    → (layers (build_route_middleware_stack config route handler)
        ≡ with_exception_layer (custom_layers handler.middleware ++ configured_layers config route))
      × (endpoint (build_route_middleware_stack config route handler) ≡ route.number)
unfolding build_route_middleware_stack
layers-build_route_middleware_stack config route handler =
    elim (Bool-cases (has_middleware config route handler)) [
      | inl e ↦
          rw (is_nil-asked config route handler, e)
            (
              layers-wrap_all handler.middleware _
                  ∙ (ap (λ l. custom_layers handler.middleware ++ l)
                        (layers-wrap_if config.allowed_hosts (has_cached_route route.kind)
                          config.compression_config config.csrf_config _)
                      ∙ sym (
                          append_assoc (custom_layers handler.middleware)
                            (configured_layers config route) (exception_layer ∷ []))),
              endpoint-wrap_all handler.middleware _
                  ∙ endpoint-wrap_if config.allowed_hosts (has_cached_route route.kind)
                      config.compression_config config.csrf_config _,
            )
      | inr e ↦ rw (is_nil-asked config route handler, e) (refl, refl)
    ]
