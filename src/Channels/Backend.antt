-- ===== src/Channels/Backend.antt =====
-- channels/backends/memory.py. The queue of published events is `none` before `on_startup`.
use starlite.Prelude.{
  ℕ, zero, suc, ◌-◌, Option, none, some, List, [], ◌∷◌, ◌++◌, Result, ok, raise, runtime_error,
  length, drop, contains, set_add, discard, nat_eq, list_Eq, nat_Eq, if◌then◌else◌,
}
use starlite.Prelude.Dict.{Dict, lookup, insert, erase, has_key}
use starlite.Prelude.Text.{Text}
use starlite.Channels.Subscriber.{Event}

pub record Backend : Type 0 where
  pub max_history_length : ℕ
  pub channels : List Text
  pub queue : Option (List (Text × Event))
  pub history : Dict Text (List Event)

abbrev pub new_backend : ℕ → Backend
new_backend history = record {
  max_history_length = history;
  channels = [];
  queue = none;
  history = [];
}

abbrev pub on_startup : Backend → Backend
on_startup backend = record backend { queue = some [] }

abbrev pub on_shutdown : Backend → Backend
on_shutdown backend = record backend { queue = none }

-- the loop of `publish` that fills the queue
unfoldable pub enqueue : List Text → Event → List Text → List (Text × Event) → List (Text × Event)
enqueue subscribed event [] queue = queue
enqueue subscribed event (channel ∷ channels) queue =
    enqueue subscribed event channels
      (if contains channel subscribed then queue ++ (channel, event) ∷ [] else queue)

-- `history[channel]` of the `defaultdict`
abbrev pub entries_of : Option (List Event) → List Event
entries_of none = []
entries_of (some entries) = entries

-- `append` of a deque of bounded length
abbrev pub append_bounded : ℕ → List Event → Event → List Event
append_bounded maxlen entries event =
    let longer = entries ++ event ∷ [] in drop (length longer - maxlen) longer

-- the loop of `publish` that records the history
unfoldable pub record_history :
    ℕ → Event → List Text → Dict Text (List Event) → Dict Text (List Event)
record_history maxlen event [] history = history
record_history maxlen event (channel ∷ channels) history =
    record_history maxlen event channels
      (insert channel (append_bounded maxlen (entries_of (lookup channel history)) event) history)

abbrev pub publish_to : Event → List Text → Backend → Option (List (Text × Event)) → Result Backend
publish_to event channels backend none = raise runtime_error
publish_to event channels backend (some queue) = ok (record backend {
  queue = some (enqueue backend.channels event channels queue);
  history =
      if nat_eq backend.max_history_length 0
      then backend.history
      else record_history backend.max_history_length event channels backend.history;
})

unfoldable pub publish : Event → List Text → Backend → Result Backend
unfolding enqueue record_history
publish event channels backend = publish_to event channels backend backend.queue

abbrev pub add_all : List Text → List Text → List Text
add_all [] set = set
add_all (channel ∷ channels) set = add_all channels (set_add channel set)

unfoldable pub subscribe : List Text → Backend → Backend
subscribe channels backend = record backend { channels = add_all channels backend.channels }

abbrev pub remove_all : List Text → List Text → List Text
remove_all [] set = set
remove_all (channel ∷ channels) set = remove_all channels (discard channel set)

-- the loop of `unsubscribe`, which the first channel without a history ends
unfoldable pub delete_histories : List Text → Dict Text (List Event) → Dict Text (List Event)
delete_histories [] history = history
delete_histories (channel ∷ channels) history =
    let rest = delete_histories channels (erase channel history) in
    if has_key channel history then rest else history

unfoldable pub unsubscribe : List Text → Backend → Backend
unfolding delete_histories
unsubscribe channels backend = record backend {
  channels = remove_all channels backend.channels;
  history = delete_histories channels backend.history;
}

-- The loop of `stream_events` up to its next event: events of channels that were unsubscribed in
-- the meantime are passed over.
unfoldable pub next_event :
    List Text → List (Text × Event) → Option (Text × Event) × List (Text × Event)
next_event subscribed [] = (none, [])
next_event subscribed ((channel, event) ∷ queue) =
    let rest = next_event subscribed queue in
    if contains channel subscribed then (some (channel, event), queue) else rest

-- `history[-limit:]` where the limit is not zero
abbrev pub newest : Option ℕ → List Event → List Event
newest none entries = entries
newest (some zero) entries = entries
newest (some (suc n)) entries = drop (length entries - suc n) entries

abbrev pub default_entry :
    Option (List Event) → Text → Dict Text (List Event) → Dict Text (List Event)
default_entry none channel history = insert channel [] history
default_entry (some _) channel history = history

-- reading the `defaultdict` makes an entry
unfoldable pub get_history : Text → Option ℕ → Backend → List Event × Backend
get_history channel limit backend = (
  newest limit (entries_of (lookup channel backend.history)),
  record backend {
    history = default_entry (lookup channel backend.history) channel backend.history;
  },
)
