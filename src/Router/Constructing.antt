-- ===== src/Router/Constructing.antt =====
-- What `construct_routing_trie` does when it is called again.
use starlite.Prelude.{
  ℕ, ◌≡◌, refl, sym, ap, ◌∙◌, true, Option, List, [], ◌∷◌, Result, ok, raise, String, length,
  contains, contains-set_add, is_nil, set_add, if◌then◌else◌, nat_Eq, list_Eq, arith, Bool-cases,
  inl, inr,
}
use starlite.Prelude.Dict.{keys}
use starlite.Trie.{RouteHandler, Route, AppConfig, root}
use starlite.Trie.Mapping.{add_route_to_trie}
use starlite.Trie.Validation.{validate_node}
use starlite.Router.{
  Router, sorted, get_route_handlers, store_handlers, is_unique, registered, add_new_routes,
  validated, with_mounts, finished, new_routes, construct_routing_trie,
}

-- Every route is registered.
abbrev AreRegistered : List Route → Router → Type 0
AreRegistered [] router = Unit
AreRegistered (route ∷ routes) router =
    (contains route.number router.registered_routes ≡ true) × AreRegistered routes router

abbrev Extends : Router → Router → Type 0
Extends before after =
    (number : ℕ)
    → contains number before.registered_routes ≡ true
    → contains number after.registered_routes ≡ true

-- A loop that returned had registered the route before it went on.
registered-ok :
    (number : ℕ) (next : Router → Result (Unit {0}) × Router) (result : Result (Unit {0}) × Router)
    → (registered number next result).0 ≡ ok tt
    → registered number next result
      ≡ next (record result.1 { registered_routes = set_add number result.1.registered_routes })
registered-ok number next (raise e, router) h = cc
registered-ok number next (ok tt, router) h = refl

AreRegistered-Extends :
    (routes : List Route) (before after : Router)
    → AreRegistered routes before
    → Extends before after
    → AreRegistered routes after
AreRegistered-Extends [] before after h f = tt
AreRegistered-Extends (route ∷ routes) before after (here, h) f =
    (f route.number here, AreRegistered-Extends routes before after h f)

module _ (name : RouteHandler → Option String) (str : RouteHandler → String) where
  store_handlers-registered :
      (number : ℕ) (handlers : List RouteHandler) (router : Router)
      → (store_handlers name str number handlers router).1.registered_routes
        ≡ router.registered_routes
  unfolding store_handlers
  store_handlers-registered number [] router = refl
  store_handlers-registered number (handler ∷ handlers) router =
      elim (Bool-cases (is_unique name str (name handler) handler router.route_handler_index)) [
        | inl unique ↦ rw unique (store_handlers-registered number handlers _)
        | inr taken ↦ rw taken refl
      ]

  add_new_routes-AreRegistered :
      (config : AppConfig) (routes : List Route) (router : Router)
      → (add_new_routes name str config routes router).0 ≡ ok tt
      → AreRegistered routes (add_new_routes name str config routes router).1
        × Extends router (add_new_routes name str config routes router).1
  unfolding add_new_routes
  add_new_routes-AreRegistered config [] router h = (tt, λ number m. m)
  add_new_routes-AreRegistered config (route ∷ routes) router h =
      let stored =
        store_handlers name str route.number (get_route_handlers route.kind)
          (record router { trie = (add_route_to_trie config router.trie route).0 }) in
      let kept : stored.1.registered_routes ≡ router.registered_routes =
        store_handlers-registered route.number (get_route_handlers route.kind) _ in
      let next = record stored.1 {
        registered_routes = set_add route.number stored.1.registered_routes;
      } in
      let same = registered-ok route.number (add_new_routes name str config routes) stored h in
      let (later, grows) = add_new_routes-AreRegistered config routes next (rw same at h) in
      let more : Extends router next = λ number m.
        ground (arith, kept, contains-set_add number route.number stored.1.registered_routes) in
      let last : contains route.number next.registered_routes ≡ true =
        ground (arith, contains-set_add route.number route.number stored.1.registered_routes) in
      rw same ((grows route.number last, later), λ number m. grows number (more number m))

abbrev mounted : Router → Router
mounted router = record router {
  mount_paths =
      if is_nil router.trie.mount_routes
      then router.mount_paths
      else sorted (keys router.trie.mount_routes);
}

abbrev validation : Router → Result (Unit {0})
validation router = validated (validate_node (length router.trie.nodes) router.trie.nodes root)

with_mounts-ok :
    (router : Router) (result : Result (Unit {0}))
    → (with_mounts router result).0 ≡ ok tt
    → (result ≡ ok tt) × (with_mounts router result ≡ (ok tt, mounted router))
with_mounts-ok router (raise e) h = cc
with_mounts-ok router (ok tt) h = (refl, refl)

finished-ok :
    (result : Result (Unit {0}) × Router)
    → (finished result).0 ≡ ok tt
    → (result ≡ (ok tt, result.1))
      × (validation result.1 ≡ ok tt)
      × (finished result ≡ (ok tt, mounted result.1))
finished-ok (raise e, router) h = cc
finished-ok (ok tt, router) h =
    let (valid, same) = with_mounts-ok router (validation router) h in (refl, valid, same)

new_routes-registered :
    (routes : List Route) (before after : Router)
    → AreRegistered (new_routes routes before) after
    → Extends before after
    → AreRegistered routes after
new_routes-registered [] before after h f = tt
new_routes-registered (route ∷ routes) before after h f =
    elim (Bool-cases (contains route.number before.registered_routes)) [
      | inl old ↦ (f route.number old, new_routes-registered routes before after (rw old at h) f)
      | inr new ↦
          let (here, later) = rw new at h in
          (here, new_routes-registered routes before after later f)
    ]

new_routes-nil :
    (routes : List Route) (router : Router)
    → AreRegistered routes router
    → new_routes routes router ≡ []
new_routes-nil [] router h = refl
new_routes-nil (route ∷ routes) router (here, h) = rw here (new_routes-nil routes router h)

mounted_again : (router : Router) → mounted (mounted router) ≡ mounted router
mounted_again router = elim (Bool-cases (is_nil router.trie.mount_routes)) [
  | inl none_mounted ↦ rw none_mounted
  | inr some_mounted ↦ rw some_mounted
]

finished_again :
    (router : Router)
    → validation router ≡ ok tt
    → finished (ok tt, mounted router) ≡ (ok tt, mounted router)
finished_again router valid = rw valid (ap (λ r. (ok tt, r)) (mounted_again router))

module _ (name : RouteHandler → Option String) (str : RouteHandler → String) where
  -- Where `construct_routing_trie` returned, another call with the same routes returns and changes
  -- nothing.
  pub construct_routing_trie_again :
      (config : AppConfig) (routes : List Route) (router after : Router)
      → construct_routing_trie name str config routes router ≡ (ok tt, after)
      → construct_routing_trie name str config routes after ≡ (ok tt, after)
  unfolding construct_routing_trie add_new_routes
  construct_routing_trie_again config routes router after h =
      let added = add_new_routes name str config (new_routes routes router) router in
      let (returned, valid, same) = finished-ok added (ap (λ r. r.0) h) in
      let its : mounted added.1 ≡ after = ap (λ r. r.1) (sym same ∙ h) in
      let (later, grows) =
        add_new_routes-AreRegistered name str config (new_routes routes router) router
          (ap (λ r. r.0) returned) in
      let all_registered =
        AreRegistered-Extends routes added.1 (mounted added.1)
          (new_routes-registered routes router added.1 later grows) (λ number m. m) in
      rw (← its)
        (rw (new_routes-nil routes (mounted added.1) all_registered) (finished_again added.1 valid))
