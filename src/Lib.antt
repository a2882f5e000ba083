-- ===== src/Lib.antt =====
-- Litestar, an ASGI web framework: a model of the parts of the package `litestar` that decide where
-- a request goes, and of the components with a state of their own that answer it.
--
-- The program. Handlers are registered on routers and on the application (litestar/router.py),
-- which makes routes of them, and a handler resolves its options from the layers that own it
-- (litestar/handlers/base.py). A route has a path, parsed once into components
-- (litestar/routes/base.py, with litestar/utils/path.py). The router
-- (litestar/_asgi/asgi_router.py) keeps a trie of the routes of the app:
-- litestar/_asgi/routing_trie/mapping.py adds a route to it and composes the stack of middlewares
-- of each handler, validate.py checks the whole trie, and traversal.py resolves the path and
-- method of a request to an application, its handler and the values of the path parameters. The
-- dependencies of the handler are resolved in the batches of litestar/_kwargs/dependencies.py. The
-- rate limit middleware (litestar/middleware/rate_limit.py) keeps the times of a client's requests
-- in a store (litestar/stores/memory.py). The session middleware (litestar/middleware/session)
-- keeps sessions in such a store or in the cookies of the client, the CSRF middleware
-- (litestar/middleware/csrf.py) checks tokens before a request reaches the application, and an
-- exception that leaves it is answered by litestar/middleware/_internal/exceptions. A websocket
-- handler talks through litestar/connection/websocket.py. The schemas of the OpenAPI document are
-- collected in the registry of litestar/_openapi/datastructures.py. Channels (litestar/channels)
-- carry published events to subscribers: the plugin owns the members of each channel, a backend
-- the channels that are subscribed to and their histories, and a subscriber its queue.
--
-- The files.
--   Prelude: shared names, lists, dictionaries (association lists in insertion order), texts (lists
--     of code points), sorting and exceptions as values.
--   UrlPath: normalize_path, join_paths and the splitting at slashes; the laws are in
--     UrlPath/Normal, on UrlPath/Split.
--   Route: BaseRoute._parse_path; Route/Parsing and Route/Format say what it returns, and
--     Route/Errors what it raises.
--   Trie: the nodes. They are mutable and shared in the source, so they stand in a list and a child
--     is an index. Trie/Stack is build_route_middleware_stack, Trie/Mapping is mapping.py,
--     Trie/Traversal is traversal.py and Trie/Validation is validate.py. The proofs: WellFormed,
--     Invariant, Components and Adding (the invariant of the trie), Growth and Registered (what a
--     later route leaves in place), Walking (the walk as a relation), Resolving and Asgi (errors),
--     Plain (routes without parameters), Valid (validation).
--   Registration: Router.register (litestar/router.py), the handlers of an HTTP route
--     (litestar/routes/http.py) and the checks of Litestar.register (litestar/app.py).
--     Registration/HttpRoute holds those of a route; Registration/Methods is about the map of the
--     methods, Registration/Constructed about the route that is made for a path, and Options, Fresh
--     and Replaced about what a registration comes to.
--   Layers: what a route handler resolves from its owners (litestar/handlers/base.py). Layers/Nearest
--     is about keyed values, Layers/Ordering about guards and middlewares, Layers/Providing about
--     dependencies.
--   Router: ASGIRouter, which constructs the trie. Router/Mounts is about the mount of a request,
--     Router/Constructing about constructing again.
--   Dependencies: create_dependency_batches and map_dependencies_recursively. A dependency is known
--     by its key. The proofs: Mapping and Occurring (what is mapped), Removing (one round of the
--     loop), Batches (the rounds, as a relation), Schedule (the order), Graph (dependencies made of
--     one graph) and Resolving.
--   Store: MemoryStore and StorageObject; the time, in microseconds, is an argument of each
--     operation. Store/Contents views a store as what each key holds at a time.
--   RateLimit: RateLimitMiddleware over a memory store; the encoding of cached objects is a
--     parameter, and the readings of the clock during a request are arguments. The proofs: Window
--     (which entries are dropped), Bound (the fixed window, a specification), Limit (the middleware
--     against it) and Isolation (what is kept of other clients).
--   ErrorHandling: ExceptionHandlerMiddleware and get_exception_handler
--     (litestar/middleware/_internal/exceptions/middleware.py). ErrorHandling/Choosing is about which
--     handler an exception gets, ErrorHandling/Sending about the responses that are started.
--   Session: ClientSideSessionBackend (litestar/middleware/session/client_side.py), which keeps the
--     session in the cookies of the client; encryption and encoding are parameters. Session/Keys is
--     about the names of the cookies, Session/Loading about loading what was stored.
--   ServerSession: ServerSideSessionBackend (litestar/middleware/session/server_side.py) under
--     SessionMiddleware (session/base.py), over the memory store of Store; ids, the encoding and the
--     readings of the clock are arguments. ServerSession/Keeping is about what a request leaves in
--     place, ServerSession/Visits about clients that come back.
--   WebSocket: the connection of litestar/connection/websocket.py over a list of the events that the
--     server has. WebSocket/Order, WebSocket/Direct (the socket's own receive and send) and
--     WebSocket/Handshake are about the order of what it sends,
--     WebSocket/Closed about a connection that is disconnected, WebSocket/Iterating about iter_data.
--   Csrf: CSRFMiddleware (litestar/middleware/csrf.py) and should_bypass_middleware
--     (litestar/middleware/_utils.py); the HMAC and the random tokens are parameters. Csrf/Tokens is
--     about matching tokens, Csrf/Matching about what reaches the application, Csrf/Issuing about the
--     tokens that are given out.
--   SchemaRegistry: SchemaRegistry of litestar/_openapi/datastructures.py. References are mutable
--     objects, so they are indices of a list. SchemaRegistry/Keys makes the keys. The proofs: Keeping
--     (the invariant), Prefix (the common prefix of keys), References and Names (where references
--     point).
--   Channels: Subscriber (asyncio.Queue and AsyncDeque with a count of unfinished tasks), Backend
--     (MemoryChannelsBackend) and Plugin (ChannelsPlugin; a coroutine that waits for others has the
--     outcome `waiting`). The proofs: Last and Backlog (what a queue holds), Stopping (whether `stop`
--     returns), Members, Joining, Unserved and Leaving (which channels the backend is subscribed to),
--     Delivery (whom an event reaches) and History.
--
-- Fuel. validate_node recurs through objects that could in general form a circle, so it takes
-- fuel; as many units as there are nodes are enough in every trie that the operations build. The
-- loop of create_dependency_batches takes as many as there are dependencies. iter_data takes a
-- unit for each event. The chunks of a session are at most as many as it has characters, and a
-- number has at most as many digits as its value.
--
-- Not modelled: the parsers of parameter values, which are a parameter of the traversal; characters
-- of mount paths that are special in a regular expression; the caches around pure functions; the
-- interleaving of coroutines, where each operation is one step; all input and output; and the
-- components that the manifest lists as not modelled.
pub mod Prelude
pub mod Channels
pub mod Csrf
pub mod Dependencies
pub mod ErrorHandling
pub mod Layers
pub mod RateLimit
pub mod Registration
pub mod Route
pub mod Router
pub mod SchemaRegistry
pub mod ServerSession
pub mod Session
pub mod Store
pub mod Trie
pub mod UrlPath
pub mod WebSocket
