-- ===== src/Channels/Delivery.antt =====
-- Which subscribers an event that was published reaches.
use starlite.Prelude.{
  Distinct, ℕ, zero, suc, ◌≡◌, refl, Bool, true, false, ◌<◌, ◌≢◌, Option, none, some, List, [], ◌∷◌,
  ok, contains, is_nil, arith, Bool-cases, get_elem?, get_elem?-set_self, get_elem?-set_ne,
  Option-cases, inl, inr, ◌==◌, if◌then◌else◌, list_Eq, nat_Eq, nat_eq, nat_eq_iff, ◌>>=◌, length,
}
use starlite.Prelude.Dict.{lookup}
use starlite.Prelude.Text.{Text}
use starlite.Channels.Subscriber.{Subscriber, Event, put_nowait}
use starlite.Channels.Backend
use starlite.Channels.Backend.{Backend, next_event, enqueue, record_history}
use starlite.Channels.Members.{IsServed}
use starlite.Channels.Plugin.{ChannelsPlugin, members_of, deliver, offer, sub_round, wait_published}

-- The subscriber at an index after an event was put to it.
abbrev pub with_event : Event → Option Subscriber → Option Subscriber
with_event event none = none
with_event event (some s) = some (put_nowait (some event) s).1

get_elem?_lt :
    (subscribers : List Subscriber) (i : ℕ) (s : Subscriber)
    → get_elem? subscribers i ≡ some s
    → i < length subscribers
get_elem?_lt [] i s h = cc
get_elem?_lt (t ∷ subscribers) zero s h = omega arith
get_elem?_lt (t ∷ subscribers) (suc i) s h = omega (arith, get_elem?_lt subscribers i s h)

offer_self :
    (event : Event) (subscribers : List Subscriber) (i : ℕ)
    → get_elem? (offer event subscribers i (get_elem? subscribers i)) i
      ≡ with_event event (get_elem? subscribers i)
offer_self event subscribers i = elim (Option-cases (get_elem? subscribers i)) [
  | inl e ↦ rw e e
  | inr (s, e) ↦ rw e (
      get_elem?-set_self subscribers i (put_nowait (some event) s).1
        (get_elem?_lt subscribers i s e))
]

offer_ne :
    (event : Event) (subscribers : List Subscriber) (i j : ℕ)
    → i ≢ j
    → get_elem? (offer event subscribers i (get_elem? subscribers i)) j ≡ get_elem? subscribers j
offer_ne event subscribers i j h = elim (Option-cases (get_elem? subscribers i)) [
  | inl e ↦ rw e refl
  | inr (s, e) ↦ rw e (get_elem?-set_ne subscribers i j (put_nowait (some event) s).1 h)
]

-- The event is put once to each member, and no other subscriber changes.
pub get_elem?-deliver :
    (event : Event) (members : List ℕ) (subscribers : List Subscriber) (j : ℕ)
    → Distinct members
    → get_elem? (deliver event members subscribers) j ≡ (
        if contains j members
        then with_event event (get_elem? subscribers j)
        else get_elem? subscribers j)
unfolding deliver
get_elem?-deliver event [] subscribers j distinct = refl
get_elem?-deliver event (i ∷ members) subscribers j (fresh, distinct) = elim (Bool-cases (i == j)) [
  | inl same ↦
      let e : i ≡ j = ground (arith, nat_eq_iff i j) in
      rw same (
        rw
          (get_elem?-deliver event members (offer event subscribers i (get_elem? subscribers i)) j
            distinct)
          (rw (← e) (rw fresh (offer_self event subscribers i))))
  | inr other ↦
      let apart : i ≢ j = ground (arith, nat_eq_iff i j) in
      rw other (
        rw
          (get_elem?-deliver event members (offer event subscribers i (get_elem? subscribers i)) j
            distinct)
          (rw (offer_ne event subscribers i j apart)))
]

-- The plugin after a round of `_sub_worker` on what was published to one channel.
abbrev after_round : Event → Text → Bool → ChannelsPlugin → ChannelsPlugin
after_round event channel subscribed plugin =
    let history = plugin.backend.history in
    record plugin {
      backend = record plugin.backend {
        queue = some [];
        history =
            if nat_eq plugin.backend.max_history_length 0
            then history
            else record_history plugin.backend.max_history_length event (channel ∷ []) history;
      };
      subscribers =
          if subscribed
          then deliver event (members_of (lookup channel plugin.channels)) plugin.subscribers
          else plugin.subscribers;
    }

next_event_one :
    (subscribed : List Text) (channel : Text) (event : Event)
    → next_event subscribed (enqueue subscribed event (channel ∷ []) [])
      ≡ (if contains channel subscribed then (some (channel, event), []) else (none, []))
unfolding enqueue next_event
next_event_one subscribed channel event = elim (Bool-cases (contains channel subscribed)) [
  | inl h ↦ rw h (rw (h, next_event) refl)
  | inr h ↦ rw h
]

publish-sub_round :
    (event : Event) (channel : Text) (plugin : ChannelsPlugin)
    → plugin.backend.queue ≡ some []
    → (wait_published event (channel ∷ []) plugin >>= sub_round)
      ≡ ok (after_round event channel (contains channel plugin.backend.channels) plugin)
unfolding wait_published sub_round Backend.publish
publish-sub_round event channel plugin empty = rw empty (
    rw (next_event_one plugin.backend.channels channel event)
      (elim (Bool-cases (contains channel plugin.backend.channels)) [
        | inl h ↦ rw h
        | inr h ↦ rw h
      ]))

deliver_nobody :
    (event : Event) (members : List ℕ) (subscribers : List Subscriber) (j : ℕ) (b : Bool)
    → is_nil members ≡ true
    → get_elem? (if b then deliver event members subscribers else subscribers) j ≡ (
        if contains j members
        then with_event event (get_elem? subscribers j)
        else get_elem? subscribers j)
unfolding deliver
deliver_nobody event [] subscribers j true h = refl
deliver_nobody event [] subscribers j false h = refl
deliver_nobody event (i ∷ members) subscribers j b h = cc

-- Where every channel with a member is subscribed to at the backend and nothing is queued there,
-- an event that is published to a channel whose members are distinct is put once to each of them
-- by the next round of the worker, which returns, and no other subscriber changes.
pub publish-delivers :
    (event : Event) (channel : Text) (plugin : ChannelsPlugin)
    → IsServed plugin
    → plugin.backend.queue ≡ some []
    → Distinct (members_of (lookup channel plugin.channels))
    → (after : ChannelsPlugin) × ((wait_published event (channel ∷ []) plugin >>= sub_round)
        ≡ ok after)
      × ((j : ℕ)
          → get_elem? after.subscribers j ≡ (
              if contains j (members_of (lookup channel plugin.channels))
              then with_event event (get_elem? plugin.subscribers j)
              else get_elem? plugin.subscribers j))
publish-delivers event channel plugin served empty distinct = (
  after_round event channel (contains channel plugin.backend.channels) plugin,
  publish-sub_round event channel plugin empty,
  λ j. elim (Bool-cases (is_nil (members_of (lookup channel plugin.channels)))) [
    | inr some_member ↦ rw (served.at channel some_member) (
        get_elem?-deliver event (members_of (lookup channel plugin.channels)) plugin.subscribers j
          distinct)
    | inl nobody ↦
        deliver_nobody event (members_of (lookup channel plugin.channels)) plugin.subscribers j
          (contains channel plugin.backend.channels) nobody
  ],
)
