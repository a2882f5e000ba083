-- ===== src/Channels/Leaving.antt =====
-- What `unsubscribe` leaves: the members of the channels and the channels of the backend.
use starlite.Prelude.{
  ℕ, ◌≡◌, refl, false, Option, none, List, [], ◌∷◌, Result, ok, raise, contains, set_add, discard,
  contains-set_add, contains-discard, is_nil, arith, Bool-cases, Option-cases, inl, inr,
  if◌then◌else◌, list_Eq, nat_Eq, list_eq_iff,
}
use starlite.Prelude.Dict.{Dict, lookup, insert, lookup-insert, has_key}
use starlite.Prelude.Text.{Text}
use starlite.Channels.Subscriber.{Subscriber}
use starlite.Channels.Backend
use starlite.Channels.Backend.{Backend, add_all, remove_all, get_history}
use starlite.Channels.Plugin.{
  ChannelsPlugin, members_of, leave_channels, unsubscribe, unsubscribe_backend, left, put_to,
  channels_or_all, is_gone,
}
use starlite.Channels.Members.{HasMember, IsServed, HasMember-insert}

-- What the loop of `unsubscribe` leaves: no channel has a member that it had not before, and no
-- channel that is to be unsubscribed from has one.
record Leaves (before : Dict Text (List ℕ)) (todo : List Text) (after : Dict Text (List ℕ))
    (result : Result (List Text)) : Type 0 where
  shrunk : (c : Text) → HasMember after c → HasMember before c
  empty :
      (todo' : List Text)
      → result ≡ ok todo'
      → (c : Text) → HasMember after c
      → contains c todo ≡ false
      → contains c todo' ≡ false

is_nil-discard :
    (i : ℕ) (members : List ℕ) → is_nil (discard i members) ≡ false → is_nil members ≡ false
is_nil-discard i [] h = h
is_nil-discard i (j ∷ members) h = refl

HasMember-discard :
    (channels : Dict Text (List ℕ)) (i : ℕ) (channel c : Text)
    → HasMember (insert channel (discard i (members_of (lookup channel channels))) channels) c
    → HasMember channels c
HasMember-discard channels i channel c h = elim (HasMember-insert channels channel c _ h) [
  | inl (e, p) ↦ rw (← e) (is_nil-discard i _ p)
  | inr p ↦ p
]

contains-todo :
    (channels : Dict Text (List ℕ)) (channel c : Text) (members : List ℕ) (todo : List Text)
    → HasMember (insert channel members channels) c
    → contains c todo ≡ false
    → contains c (if is_nil members then set_add channel todo else todo) ≡ false
contains-todo channels channel c members todo h absent = ground (
  arith,
  contains-set_add c channel todo,
  lookup-insert c channel members channels,
  list_eq_iff channel c,
)

leave_channels-Leaves :
    (i : ℕ) (rest todo : List Text) (channels : Dict Text (List ℕ))
    → Leaves channels todo
        (leave_channels i rest todo channels).1
        (leave_channels i rest todo channels).0
unfolding leave_channels
leave_channels-Leaves i [] todo channels = record {
  shrunk = λ c h. h;
  empty = λ todo' e c h absent. let same : todo ≡ todo' = ground arith in rw (← same) absent;
}
leave_channels-Leaves i (channel ∷ rest) todo channels =
    elim (Bool-cases (has_key channel channels)) [
      | inr unknown ↦ rw unknown (record { shrunk = λ c h. h; empty = λ todo' e c h absent. cc })
      | inl known ↦
          rw known (elim (Bool-cases (contains i (members_of (lookup channel channels)))) [
            | inr absent ↦ rw absent (leave_channels-Leaves i rest todo channels)
            | inl present ↦ rw present (
                let members = discard i (members_of (lookup channel channels)) in
                let next =
                  leave_channels-Leaves i rest
                    (if is_nil members then set_add channel todo else todo)
                    (insert channel members channels) in
                record {
                  shrunk = λ c h. HasMember-discard channels i channel c (next.shrunk c h);
                  empty = λ todo' e c h absent.
                      next.empty todo' e c h
                        (contains-todo channels channel c members todo (next.shrunk c h) absent);
                })
          ])
    ]

contains-remove_all :
    (c : Text) (todo set : List Text)
    → contains c (remove_all todo set) ≡ (if contains c todo then false else contains c set)
contains-remove_all c [] set = refl
contains-remove_all c (t ∷ todo) set =
    ground (arith, contains-remove_all c todo (discard t set), contains-discard c t set)

contains-unsubscribe_backend :
    (c : Text) (todo : List Text) (backend : Backend)
    → contains c (unsubscribe_backend todo backend).channels
      ≡ (if contains c todo then false else contains c backend.channels)
contains-unsubscribe_backend c [] backend = refl
contains-unsubscribe_backend c (t ∷ todo) backend =
    unfold Backend.unsubscribe in contains-remove_all c (t ∷ todo) backend.channels

-- After the backend was unsubscribed from the channels without a member.
IsServed-after :
    (plugin : ChannelsPlugin) (todo : List Text) (members : Dict Text (List ℕ))
    (subscribers : List Subscriber)
    → Leaves plugin.channels [] members (ok todo)
    → IsServed plugin
    → IsServed (record plugin {
      channels = members;
      subscribers = subscribers;
      backend = unsubscribe_backend todo plugin.backend;
    })
IsServed-after plugin todo members subscribers leaves served = record {
  at = λ c h.
      rw (contains-unsubscribe_backend c todo plugin.backend)
        (rw (leaves.empty todo refl c h refl) (served.at c (leaves.shrunk c h)));
}

left-IsServed :
    (i : ℕ) (plugin : ChannelsPlugin) (result : Result (List Text) × Dict Text (List ℕ))
    → Leaves plugin.channels [] result.1 result.0
    → IsServed plugin
    → IsServed (left i plugin result).1
left-IsServed i plugin (raise e, members) leaves served = record {
  at = λ c h. served.at c (leaves.shrunk c h);
}
left-IsServed i plugin (ok todo, members) leaves served = elim (Bool-cases (is_gone i members)) [
  | inr stays ↦ rw stays (IsServed-after plugin todo members plugin.subscribers leaves served)
  | inl gone ↦ rw gone (elim (Option-cases (put_to i none plugin.subscribers)) [
    | inl e ↦ rw e (record { at = λ c h. served.at c (leaves.shrunk c h) })
    | inr (subscribers, e) ↦ rw e (IsServed-after plugin todo members _ leaves served)
  ])
]

-- `unsubscribe` keeps every channel that has a member subscribed to at the backend, also where it
-- raises or waits for a place in the subscriber's queue.
pub unsubscribe-IsServed :
    (i : ℕ) (channels : Option (List Text)) (plugin : ChannelsPlugin)
    → IsServed plugin
    → IsServed (unsubscribe i channels plugin).1
unfolding unsubscribe
unsubscribe-IsServed i channels plugin served =
    left-IsServed i plugin _
      (leave_channels-Leaves i (channels_or_all channels plugin.channels) [] plugin.channels) served
