-- ===== src/Channels/Tests.antt =====
-- Runs of the channels plugin, and its theorems for a few channels and subscribers.
use starlite.Prelude.{
  ℕ, ◌≡◌, refl, true, false, none, some, List, [], ◌∷◌, map, ok, channels_exception, list_Eq,
  nat_Eq, contains, get_elem?, if◌then◌else◌, ◌>>=◌,
}
use starlite.Prelude.Dict.{lookup}
use starlite.Prelude.Text.{Text, codes}
use starlite.Channels.Subscriber.{Event, backoff, new_subscriber, start_in_background, stop}
use starlite.Channels.Backlog.{sliding, put_all}
use starlite.Channels.Stopping.{stop-dropleft}
use starlite.Channels.Backend
use starlite.Channels.Backend.{Backend, new_backend, entries_of, get_history}
use starlite.Channels.Plugin
use starlite.Channels.Plugin.{
  ChannelsPlugin, Outcome, done, failed, waiting, members_of, sub_round, wait_published,
}
use starlite.Channels.Members.{IsServed, HasMember, on_startup-IsServed}
use starlite.Channels.Joining.{subscribe-IsServed}
use starlite.Channels.Unserved.{subscribe_unserved}
use starlite.Channels.Leaving.{unsubscribe-IsServed}
use starlite.Channels.History.{lookup-unsubscribe}
use starlite.Channels.Delivery.{with_event, publish-delivers}

abbrev first : Event
first = codes "first"

abbrev second : Event
second = codes "second"

abbrev third : Event
third = codes "third"

abbrev news : Text
news = codes "news"

abbrev chat : Text
chat = codes "chat"

abbrev events : List Event
events = first ∷ second ∷ third ∷ []

stop-dropleft_example : stop true (put_all (map some events) (sliding 1 [] 0 true)) ≡ none
unfolding new_subscriber start_in_background
stop-dropleft_example = stop-dropleft 1 events (sliding 1 [] 0 true) refl

-- Two channels over a backend that keeps two events of each.
abbrev made : ChannelsPlugin
made = record {
  arbitrary_channels_allowed = false;
  max_backlog = some 2;
  backlog_strategy = backoff;
  channels = (news, []) ∷ (chat, []) ∷ [];
  subscribers = [];
  backend = new_backend 2;
  pub_queue = none;
}

abbrev started : ChannelsPlugin
started = record made {
  backend = record (new_backend 2) { channels = news ∷ chat ∷ []; queue = some [] };
  pub_queue = some [];
}

on_startup_run : Plugin.on_startup made ≡ started
unfolding Plugin.on_startup Backend.subscribe
on_startup_run = refl

started-IsServed : IsServed started
unfolding Plugin.on_startup Backend.subscribe
started-IsServed = on_startup-IsServed made

subscribe-IsServed_example : IsServed (Plugin.subscribe (news ∷ []) none started).1
unfolding Plugin.subscribe Plugin.join_channels Backend.subscribe
subscribe-IsServed_example = subscribe-IsServed (news ∷ []) none started started-IsServed refl

-- After one subscriber joined one channel.
abbrev joined_news : ChannelsPlugin
joined_news = record started {
  channels = (news, 0 ∷ []) ∷ (chat, []) ∷ [];
  subscribers = new_subscriber (some 2) backoff ∷ [];
}

subscribe_run : Plugin.subscribe (news ∷ []) none started ≡ (done 0, joined_news)
unfolding Plugin.subscribe Plugin.join_channels Backend.subscribe
subscribe_run = refl

joined_news-IsServed : IsServed joined_news
unfolding Plugin.subscribe Plugin.join_channels Backend.subscribe
joined_news-IsServed = subscribe-IsServed_example

unsubscribe-IsServed_example : IsServed (Plugin.unsubscribe 0 none joined_news).1
unsubscribe-IsServed_example = unsubscribe-IsServed 0 none joined_news joined_news-IsServed

-- The last member of a channel has left, so the backend was unsubscribed from it.
abbrev deserted : ChannelsPlugin
deserted = record started {
  backend = record started.backend { channels = chat ∷ [] };
  subscribers = new_subscriber (some 2) backoff ∷ [];
}

subscribe_unserved_example :
    let (outcome, after) = Plugin.subscribe (news ∷ codes "none" ∷ []) none deserted in
    let (outcome', after') = Plugin.subscribe (news ∷ []) none after in
    (outcome ≡ failed channels_exception)
    × (outcome' ≡ done 2)
    × HasMember after'.channels news
    × (contains news after'.backend.channels ≡ false)
subscribe_unserved_example = subscribe_unserved deserted news (codes "none") refl refl refl refl

publish-delivers_example :
    (after : ChannelsPlugin) × ((wait_published first (news ∷ []) joined_news >>= sub_round)
      ≡ ok after)
    × ((j : ℕ)
        → get_elem? after.subscribers j ≡ (
            if contains j (0 ∷ [])
            then with_event first (get_elem? joined_news.subscribers j)
            else get_elem? joined_news.subscribers j))
publish-delivers_example =
    publish-delivers first news joined_news joined_news-IsServed refl (refl, tt)

-- Only the second of two channels has a history, and it is not deleted.
lookup-unsubscribe_example :
    lookup chat
      (Backend.unsubscribe
        (news ∷ chat ∷ [])
        (record (new_backend 2) { history = (chat, first ∷ []) ∷ [] })).history
    ≡ some (first ∷ [])
lookup-unsubscribe_example =
    lookup-unsubscribe (news ∷ chat ∷ []) chat
      (record (new_backend 2) { history = (chat, first ∷ []) ∷ [] }) (refl, (refl, tt))
