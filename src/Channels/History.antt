-- ===== src/Channels/History.antt =====
-- The histories that the memory backend keeps of what was published to its channels.
use mathlib.Core.List.{append-nil}
use starlite.Prelude.{
  Distinct, ℕ, suc, ◌≤◌, ◌≡◌, refl, ap, ◌∙◌, false, Option, none, some, List, [], ◌∷◌, ◌++◌, Result,
  ok, contains, arith, if◌then◌else◌, list_Eq, nat_Eq, nat_eq, list_eq_iff, beq_refl, length, ◌>>=◌,
}
use starlite.Prelude.Dict.{
  Dict, lookup, insert, erase, has_key, lookup-insert, lookup-erase, has_key-erase,
}
use starlite.Prelude.Text.{Text}
use starlite.Channels.Subscriber.{Event}
use starlite.Channels.Last.{last, last_all, last-append, length-last}
use starlite.Channels.Backend
use starlite.Channels.Backend.{
  Backend, enqueue, entries_of, newest, record_history, delete_histories, get_history, unsubscribe,
}

-- Publishing events to one channel, one after another.
unfoldable pub publish_all : List Event → Text → Backend → Result Backend
unfolding Backend.publish
publish_all [] channel backend = ok backend
publish_all (event ∷ events) channel backend =
    Backend.publish event (channel ∷ []) backend >>= publish_all events channel

-- The backend after an event was published to one channel.
abbrev recorded : Event → Text → ℕ → List (Text × Event) → Backend → Backend
recorded event channel n queue backend = record backend {
  queue = some (enqueue backend.channels event (channel ∷ []) queue);
  history =
      insert channel (last (suc n) (entries_of (lookup channel backend.history) ++ event ∷ []))
        backend.history;
}

publish_one :
    (event : Event) (channel : Text) (backend : Backend) (n : ℕ) (queue : List (Text × Event))
    → backend.max_history_length ≡ suc n
    → backend.queue ≡ some queue
    → Backend.publish event (channel ∷ []) backend ≡ ok (recorded event channel n queue backend)
unfolding Backend.publish record_history
publish_one event channel backend n queue bound started =
    let kept : nat_eq (suc n) 0 ≡ false = ground arith in rw started (rw bound (rw kept))

lookup-recorded :
    (event : Event) (channel : Text) (backend : Backend) (n : ℕ) (queue : List (Text × Event))
    → entries_of (lookup channel (recorded event channel n queue backend).history)
      ≡ last (suc n) (entries_of (lookup channel backend.history) ++ event ∷ [])
lookup-recorded event channel backend n queue =
    rw
      (lookup-insert channel channel
        (last (suc n) (entries_of (lookup channel backend.history) ++ event ∷ [])) backend.history)
      (rw (beq_refl channel))

-- After events were published to a channel, its history is the newest ones of the old history
-- and the events, as many as the backend keeps, and `get_history` returns the newest of these, as
-- many as its limit says.
pub publish_all-get_history :
    (events : List Event) (channel : Text) (backend : Backend) (n : ℕ) (queue : List (Text × Event))
    (limit : Option ℕ)
    → backend.max_history_length ≡ suc n
    → backend.queue ≡ some queue
    → length (entries_of (lookup channel backend.history)) ≤ suc n
    → (after : Backend) × (publish_all events channel backend ≡ ok after)
      × ((get_history channel limit after).0
          ≡ newest limit (last (suc n) (entries_of (lookup channel backend.history) ++ events)))
unfolding publish_all get_history
publish_all-get_history [] channel backend n queue limit bound started short = (
  backend,
  refl,
  rw (append-nil (entries_of (lookup channel backend.history)))
      (rw (last_all (suc n) (entries_of (lookup channel backend.history)) short)),
)
publish_all-get_history (event ∷ events) channel backend n queue limit bound started short =
    let entries = entries_of (lookup channel backend.history) in
    let b = recorded event channel n queue backend in
    let stored = lookup-recorded event channel backend n queue in
    let (after, returns, newest_kept) =
      publish_all-get_history events channel b n
        (enqueue backend.channels event (channel ∷ []) queue) limit bound refl
        (rw stored (length-last (suc n) (entries ++ event ∷ []))) in
    (
      after,
      rw (publish_one event channel backend n queue bound started) returns,
      newest_kept
          ∙ (ap (λ l. newest limit (last (suc n) (l ++ events))) stored
              ∙ ap (newest limit) (last-append n entries events event short)),
    )

-- The channels up to the first one without a history.
abbrev known_prefix : Dict Text (List Event) → List Text → List Text
known_prefix history [] = []
known_prefix history (channel ∷ channels) =
    let rest = known_prefix history channels in
    if has_key channel history then channel ∷ rest else []

known_prefix-erase :
    (channel : Text) (history : Dict Text (List Event)) (channels : List Text)
    → contains channel channels ≡ false
    → known_prefix (erase channel history) channels ≡ known_prefix history channels
known_prefix-erase channel history [] h = refl
known_prefix-erase channel history (c ∷ channels) h = ground (
  arith,
  known_prefix-erase channel history channels,
  has_key-erase c channel history,
  list_eq_iff channel c,
  list_eq_iff c channel,
)

-- The `unsubscribe` of the backend, for distinct channels in an order, deletes the histories of the
-- channels up to the first one that has none, and keeps those of all other channels.
pub lookup-unsubscribe :
    (channels : List Text) (c : Text) (backend : Backend)
    → Distinct channels
    → lookup c (unsubscribe channels backend).history ≡ (
        if contains c (known_prefix backend.history channels)
        then none
        else lookup c backend.history)
unfolding unsubscribe delete_histories
lookup-unsubscribe channels c backend distinct = go channels backend.history distinct
  where
    go :
        (channels : List Text) (history : Dict Text (List Event))
        → Distinct channels
        → lookup c (delete_histories channels history)
          ≡ (if contains c (known_prefix history channels) then none else lookup c history)
    go [] history d = refl
    go (channel ∷ channels) history (fresh, d) = ground (
      arith,
      go channels (erase channel history) d,
      lookup-erase c channel history,
      known_prefix-erase channel history channels fresh,
      list_eq_iff channel c,
    )
