-- ===== src/Channels/Unserved.antt =====
-- What a subscription to an unknown channel leaves behind.
use starlite.Prelude.{
  ℕ, suc, ◌≡◌, refl, ap, true, false, none, List, [], ◌∷◌, ok, raise, channels_exception, contains,
  set_add, is_nil, arith, Bool-cases, inl, inr, list_Eq, nat_Eq, list_eq_iff, beq_refl, ◌++◌,
  length, length-append,
}
use starlite.Prelude.Dict.{
  Dict, lookup, insert, lookup-insert, has_key, has_key-insert, has_key-false,
}
use starlite.Prelude.Text.{Text}
use starlite.Channels.Subscriber.{new_subscriber}
use starlite.Channels.Plugin.{ChannelsPlugin, done, failed, members_of, join_channels, subscribe}
use starlite.Channels.Members.{HasMember}

join_unknown :
    (i : ℕ) (channel unknown : Text) (channels : Dict Text (List ℕ))
    → has_key channel channels ≡ true
    → has_key unknown channels ≡ false
    → join_channels false i (channel ∷ unknown ∷ []) [] channels ≡ (
      raise channels_exception,
      insert channel (set_add i (members_of (lookup channel channels))) channels,
    )
unfolding join_channels
join_unknown i channel unknown channels known fresh =
    let still : has_key unknown
          (insert channel (set_add i (members_of (lookup channel channels))) channels)
        ≡ false =
      ground (
        arith,
        has_key-insert unknown channel (set_add i (members_of (lookup channel channels))) channels,
        list_eq_iff channel unknown,
      ) in
    rw known (rw still)

join_member :
    (i : ℕ) (channel : Text) (channels : Dict Text (List ℕ))
    → HasMember channels channel
    → join_channels false i (channel ∷ []) [] channels
      ≡ (ok [], insert channel (set_add i (members_of (lookup channel channels))) channels)
unfolding join_channels
join_member i channel channels h = elim (Bool-cases (has_key channel channels)) [
  | inl known ↦ rw known (rw h)
  | inr unknown ↦ ground (arith, has_key-false channel channels unknown)
]

-- The plugin with one more subscriber and other members.
abbrev with_new : Dict Text (List ℕ) → ChannelsPlugin → ChannelsPlugin
with_new channels plugin = record plugin {
  channels = channels;
  subscribers =
      plugin.subscribers ++ new_subscriber plugin.max_backlog plugin.backlog_strategy ∷ [];
}

subscribe_unknown :
    (plugin : ChannelsPlugin) (channel unknown : Text)
    → plugin.arbitrary_channels_allowed ≡ false
    → has_key channel plugin.channels ≡ true
    → has_key unknown plugin.channels ≡ false
    → subscribe (channel ∷ unknown ∷ []) none plugin ≡ (
      failed channels_exception,
      with_new
          (insert channel
            (set_add (length plugin.subscribers) (members_of (lookup channel plugin.channels)))
            plugin.channels)
          plugin,
    )
unfolding subscribe
subscribe_unknown plugin channel unknown strict known fresh =
    rw strict
      (rw (join_unknown (length plugin.subscribers) channel unknown plugin.channels known fresh))

subscribe_member :
    (plugin : ChannelsPlugin) (channel : Text)
    → plugin.arbitrary_channels_allowed ≡ false
    → HasMember plugin.channels channel
    → subscribe (channel ∷ []) none plugin ≡ (
      done (length plugin.subscribers),
      with_new
          (insert channel
            (set_add (length plugin.subscribers) (members_of (lookup channel plugin.channels)))
            plugin.channels)
          plugin,
    )
unfolding subscribe
subscribe_member plugin channel strict h =
    rw strict (rw (join_member (length plugin.subscribers) channel plugin.channels h))

is_nil-set_add : (i : ℕ) (members : List ℕ) → is_nil (set_add i members) ≡ false
is_nil-set_add i [] = refl
is_nil-set_add i (j ∷ members) = ground arith

HasMember-set_add :
    (channel : Text) (i : ℕ) (members : List ℕ) (channels : Dict Text (List ℕ))
    → HasMember (insert channel (set_add i members) channels) channel
HasMember-set_add channel i members channels =
    rw (lookup-insert channel channel (set_add i members) channels)
      (rw (beq_refl channel) (is_nil-set_add i members))

-- Where the second of two channels is unknown and arbitrary channels are not allowed, `subscribe`
-- raises, and a first channel that is not subscribed to at the backend keeps the new member; the
-- next subscription to that channel returns, and does not subscribe to it at the backend either.
pub subscribe_unserved :
    (plugin : ChannelsPlugin) (channel unknown : Text)
    → plugin.arbitrary_channels_allowed ≡ false
    → has_key channel plugin.channels ≡ true
    → has_key unknown plugin.channels ≡ false
    → contains channel plugin.backend.channels ≡ false
    → let (outcome, after) = subscribe (channel ∷ unknown ∷ []) none plugin in
      let (outcome', after') = subscribe (channel ∷ []) none after in
      (outcome ≡ failed channels_exception)
      × (outcome' ≡ done (suc (length plugin.subscribers)))
      × HasMember after'.channels channel
      × (contains channel after'.backend.channels ≡ false)
subscribe_unserved plugin channel unknown strict known fresh unserved =
    let members =
      insert channel
        (set_add (length plugin.subscribers) (members_of (lookup channel plugin.channels)))
        plugin.channels in
    let one_more : length (with_new members plugin).subscribers ≡ suc (length plugin.subscribers) =
      rw
        (length-append plugin.subscribers
          (new_subscriber plugin.max_backlog plugin.backlog_strategy ∷ []))
        (omega arith) in
    rw (subscribe_unknown plugin channel unknown strict known fresh) (
      rw
        (subscribe_member (with_new members plugin) channel strict (
          HasMember-set_add channel (length plugin.subscribers)
            (members_of (lookup channel plugin.channels)) plugin.channels))
        (
          refl,
          ap done one_more,
          HasMember-set_add channel (length (with_new members plugin).subscribers)
              (members_of (lookup channel members)) members,
          unserved,
        ))
