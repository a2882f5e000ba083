-- ===== src/Channels/Plugin.antt =====
-- channels/plugin.py over the memory backend. A subscriber is known by its index among those that
-- the plugin has made; the registration of route handlers and the encoding of data are left out.
use starlite.Prelude.{
  ℕ, zero, suc, Bool, false, not, ◌||◌, Option, none, some, List, [], ◌∷◌, ◌++◌, Result, ok, raise,
  Exception, key_error, runtime_error, channels_exception, length, get_elem?, set, contains,
  set_add, discard, is_nil, all, list_Eq, nat_Eq, if◌then◌else◌,
}
use starlite.Prelude.Dict.{Dict, lookup, insert, has_key, keys, values}
use starlite.Prelude.Text.{Text}
use starlite.Channels.Subscriber.{
  Event, Subscriber, BacklogStrategy, new_subscriber, put, put_nowait,
}
use starlite.Channels.Backend
use starlite.Channels.Backend.{Backend, get_history, next_event}

pub record ChannelsPlugin : Type 0 where
  pub arbitrary_channels_allowed : Bool
  pub max_backlog : Option ℕ
  pub backlog_strategy : BacklogStrategy
  pub channels : Dict Text (List ℕ)
  pub subscribers : List Subscriber
  pub backend : Backend
  pub pub_queue : Option (List (Event × List Text))

-- A coroutine returns, raises, or waits for something that only others can do.
pub data Outcome (A : Type 0) : Type 0 where
  done : A → Outcome A
  failed : Exception → Outcome A
  waiting : Outcome A

abbrev pub members_of : Option (List ℕ) → List ℕ
members_of none = []
members_of (some members) = members

abbrev pub subscriber_or : Option Subscriber → (Subscriber → Option Subscriber) → Option Subscriber
subscriber_or none f = none
subscriber_or (some s) f = f s

-- `await subscriber.put(item)`, on all subscribers
unfoldable pub put_to : ℕ → Option Event → List Subscriber → Option (List Subscriber)
put_to i item subscribers = elim (subscriber_or (get_elem? subscribers i) (put item)) [
  | none ↦ none
  | some s ↦ some (set subscribers i s)
]

unfoldable pub put_entries : ℕ → List Event → List Subscriber → Option (List Subscriber)
unfolding put_to
put_entries i [] subscribers = some subscribers
put_entries i (entry ∷ entries) subscribers = elim (put_to i (some entry) subscribers) [
  | none ↦ none
  | some subscribers' ↦ put_entries i entries subscribers'
]

unfoldable pub put_subscriber_history :
    ℕ → List Text → Option ℕ → Backend → List Subscriber → Option (Backend × List Subscriber)
unfolding put_entries get_history
put_subscriber_history i [] limit backend subscribers = some (backend, subscribers)
put_subscriber_history i (channel ∷ channels) limit backend subscribers =
    let (entries, backend') = get_history channel limit backend in
    elim (put_entries i entries subscribers) [
      | none ↦ none
      | some subscribers' ↦ put_subscriber_history i channels limit backend' subscribers'
    ]

-- The loop of `subscribe`: the channels to subscribe to at the backend, and the members of the
-- channels, which keep what was written before an unknown channel raises.
unfoldable pub join_channels :
    Bool → ℕ → List Text → List Text → Dict Text (List ℕ) → Result (List Text) × Dict Text (List ℕ)
join_channels arbitrary i [] todo channels = (ok todo, channels)
join_channels arbitrary i (channel ∷ rest) todo channels =
    let members = members_of (lookup channel channels) in
    let next =
      join_channels arbitrary i rest (if is_nil members then set_add channel todo else todo)
        (insert channel (set_add i members) channels) in
    if has_key channel channels || arbitrary then next else (raise channels_exception, channels)

abbrev pub subscribe_backend : List Text → Backend → Backend
subscribe_backend todo backend = if is_nil todo then backend else Backend.subscribe todo backend

-- `if history: await self.put_subscriber_history(…)`
abbrev pub with_history :
    ℕ
    → List Text
    → ℕ
    → ChannelsPlugin
    → Option (Backend × List Subscriber)
    → Outcome ℕ × ChannelsPlugin
with_history i channels history plugin none = (waiting, plugin)
with_history i channels history plugin (some (backend, subscribers)) =
    (done i, record plugin { backend = backend; subscribers = subscribers })

abbrev pub finish_subscribe : ℕ → List Text → Option ℕ → ChannelsPlugin → Outcome ℕ × ChannelsPlugin
finish_subscribe i channels none plugin = (done i, plugin)
finish_subscribe i channels (some zero) plugin = (done i, plugin)
finish_subscribe i channels (some (suc n)) plugin =
    with_history i channels (suc n) plugin
      (put_subscriber_history i channels (some (suc n)) plugin.backend plugin.subscribers)

abbrev pub joined :
    ℕ
    → List Text
    → Option ℕ
    → ChannelsPlugin
    → Result (List Text) × Dict Text (List ℕ)
    → Outcome ℕ × ChannelsPlugin
joined i channels history plugin (raise e, members) =
    (failed e, record plugin { channels = members })
joined i channels history plugin (ok todo, members) =
    finish_subscribe i channels history
      (record plugin { channels = members; backend = subscribe_backend todo plugin.backend })

unfoldable pub subscribe : List Text → Option ℕ → ChannelsPlugin → Outcome ℕ × ChannelsPlugin
unfolding join_channels put_subscriber_history
subscribe channels history plugin =
    let i = length plugin.subscribers in
    let made = record plugin {
      subscribers =
          plugin.subscribers ++ new_subscriber plugin.max_backlog plugin.backlog_strategy ∷ [];
    } in
    joined i channels history made
      (join_channels plugin.arbitrary_channels_allowed i channels [] plugin.channels)

-- The loop of `unsubscribe`: the channels that have lost their last member, and the members.
unfoldable pub leave_channels :
    ℕ → List Text → List Text → Dict Text (List ℕ) → Result (List Text) × Dict Text (List ℕ)
leave_channels i [] todo channels = (ok todo, channels)
leave_channels i (channel ∷ rest) todo channels =
    let members = members_of (lookup channel channels) in
    let left = discard i members in
    let skipped = leave_channels i rest todo channels in
    let next =
      leave_channels i rest (if is_nil left then set_add channel todo else todo)
        (insert channel left channels) in
    if has_key channel channels
    then (if contains i members then next else skipped)
    else (raise key_error, channels)

-- `if subscriber.is_running: await subscriber.stop()`
abbrev pub stopped : Subscriber → Subscriber
stopped s = record s { is_running = false }

abbrev pub stop_at : ℕ → List Subscriber → Option Subscriber → List Subscriber
stop_at i subscribers none = subscribers
stop_at i subscribers (some s) = set subscribers i (stopped s)

abbrev pub unsubscribe_backend : List Text → Backend → Backend
unsubscribe_backend todo backend = if is_nil todo then backend else Backend.unsubscribe todo backend

abbrev pub ended :
    ℕ → List Text → ChannelsPlugin → Option (List Subscriber) → Outcome (Unit {0}) × ChannelsPlugin
ended i todo plugin none = (waiting, plugin)
ended i todo plugin (some subscribers) = (
  done tt,
  record plugin {
    subscribers = stop_at i subscribers (get_elem? subscribers i);
    backend = unsubscribe_backend todo plugin.backend;
  },
)

-- Nobody is subscribed under this index.
abbrev pub is_gone : ℕ → Dict Text (List ℕ) → Bool
is_gone i channels = all (λ members. not (contains i members)) (values channels)

abbrev pub left :
    ℕ
    → ChannelsPlugin
    → Result (List Text) × Dict Text (List ℕ)
    → Outcome (Unit {0}) × ChannelsPlugin
left i plugin (raise e, members) = (failed e, record plugin { channels = members })
left i plugin (ok todo, members) =
    let kept = record plugin { channels = members } in
    if is_gone i members
    then ended i todo kept (put_to i none plugin.subscribers)
    else (done tt, record kept { backend = unsubscribe_backend todo plugin.backend })

abbrev pub channels_or_all : Option (List Text) → Dict Text (List ℕ) → List Text
channels_or_all none channels = keys channels
channels_or_all (some given) channels = given

unfoldable pub unsubscribe :
    ℕ → Option (List Text) → ChannelsPlugin → Outcome (Unit {0}) × ChannelsPlugin
unfolding leave_channels put_to
unsubscribe i channels plugin =
    left i plugin (leave_channels i (channels_or_all channels plugin.channels) [] plugin.channels)

abbrev pub scheduled :
    Event → List Text → ChannelsPlugin → Option (List (Event × List Text)) → Result ChannelsPlugin
scheduled event channels plugin none = raise runtime_error
scheduled event channels plugin (some queue) =
    ok (record plugin { pub_queue = some (queue ++ (event, channels) ∷ []) })

unfoldable pub publish : Event → List Text → ChannelsPlugin → Result ChannelsPlugin
publish event channels plugin = scheduled event channels plugin plugin.pub_queue

abbrev pub published : ChannelsPlugin → Result Backend → Result ChannelsPlugin
published plugin (raise e) = raise e
published plugin (ok backend) = ok (record plugin { backend = backend })

unfoldable pub wait_published : Event → List Text → ChannelsPlugin → Result ChannelsPlugin
wait_published event channels plugin =
    published plugin (Backend.publish event channels plugin.backend)

-- One round of `_pub_worker`.
abbrev pub pub_round : ChannelsPlugin → Option (List (Event × List Text)) → Result ChannelsPlugin
pub_round plugin none = ok plugin
pub_round plugin (some []) = ok plugin
pub_round plugin (some ((event, channels) ∷ queue)) =
    wait_published event channels (record plugin { pub_queue = some queue })

-- The inner loop of `_sub_worker`: an event goes to each member of its channel.
abbrev pub offer : Event → List Subscriber → ℕ → Option Subscriber → List Subscriber
offer event subscribers i none = subscribers
offer event subscribers i (some s) = set subscribers i (put_nowait (some event) s).1

unfoldable pub deliver : Event → List ℕ → List Subscriber → List Subscriber
deliver event [] subscribers = subscribers
deliver event (i ∷ members) subscribers =
    deliver event members (offer event subscribers i (get_elem? subscribers i))

abbrev pub received : ChannelsPlugin → Option (Text × Event) × List (Text × Event) → ChannelsPlugin
received plugin (none, queue) = record plugin {
  backend = record plugin.backend { queue = some queue };
}
received plugin (some (channel, event), queue) = record plugin {
  backend = record plugin.backend { queue = some queue };
  subscribers = deliver event (members_of (lookup channel plugin.channels)) plugin.subscribers;
}

abbrev pub sub_round_on : ChannelsPlugin → Option (List (Text × Event)) → Result ChannelsPlugin
sub_round_on plugin none = raise runtime_error
sub_round_on plugin (some queue) = ok (received plugin (next_event plugin.backend.channels queue))

-- One round of `_sub_worker`.
unfoldable pub sub_round : ChannelsPlugin → Result ChannelsPlugin
unfolding deliver next_event
sub_round plugin = sub_round_on plugin plugin.backend.queue

unfoldable pub on_startup : ChannelsPlugin → ChannelsPlugin
on_startup plugin = record plugin {
  pub_queue = some [];
  backend = subscribe_backend (keys plugin.channels) (Backend.on_startup plugin.backend);
}
