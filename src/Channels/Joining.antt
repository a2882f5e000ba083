-- ===== src/Channels/Joining.antt =====
-- What `subscribe` leaves: the members of the channels and the channels of the backend.
use starlite.Prelude.{
  ℕ, zero, suc, ◌≡◌, refl, Bool, true, false, ◌||◌, ◌⊎◌, Option, none, some, List, [], ◌∷◌, Result,
  ok, raise, contains, set_add, contains-set_add, is_nil, arith, Bool-cases, Option-cases, inl, inr,
  if◌then◌else◌, list_Eq, nat_Eq, beq_refl, ◌++◌, length,
}
use starlite.Prelude.Dict.{Dict, lookup, insert, has_key}
use starlite.Prelude.Text.{Text}
use starlite.Channels.Subscriber.{Subscriber, new_subscriber}
use starlite.Channels.Backend.{Backend, get_history}
use starlite.Channels.Plugin.{
  ChannelsPlugin, Outcome, done, failed, waiting, members_of, join_channels, subscribe,
  put_subscriber_history, put_entries, subscribe_backend, joined, finish_subscribe,
}
use starlite.Channels.Members.{HasMember, IsServed, HasMember-insert, contains-subscribe_backend}

-- What the loop of `subscribe` leaves: a channel with a member had one before, or is to be
-- subscribed to.
record Joins (before : Dict Text (List ℕ)) (todo : List Text) (after : Dict Text (List ℕ))
    (todo' : List Text) : Type 0 where
  new : (c : Text) → HasMember after c → HasMember before c ⊎ (contains c todo' ≡ true)
  kept : (c : Text) → contains c todo ≡ true → contains c todo' ≡ true

join_step :
    (channels : Dict Text (List ℕ)) (i : ℕ) (channel : Text) (todo : List Text)
    → Joins channels todo
        (insert channel (set_add i (members_of (lookup channel channels))) channels)
        (if is_nil (members_of (lookup channel channels)) then set_add channel todo else todo)
join_step channels i channel todo = record {
  new = λ c h. go c (HasMember-insert channels channel c _ h);
  kept = λ c h. ground (arith, contains-set_add c channel todo);
}
  where
    go :
        (c : Text)
        → ((channel ≡ c) × (is_nil (set_add i (members_of (lookup channel channels))) ≡ false))
          ⊎ HasMember channels c
        → HasMember channels c
          ⊎ (contains c (
                if is_nil (members_of (lookup channel channels))
                then set_add channel todo
                else todo)
              ≡ true)
    go c (inr h) = inl h
    go c (inl (e, h)) = elim (Bool-cases (is_nil (members_of (lookup channel channels)))) [
      | inl empty ↦ inr (rw empty (rw (contains-set_add c channel todo) (rw e (rw (beq_refl c)))))
      | inr full ↦ inl (rw (← e) full)
    ]

Joins-trans :
    {a b c : Dict Text (List ℕ)} {s t u : List Text} → Joins a s b t → Joins b t c u → Joins a s c u
Joins-trans {a} {b} {c} {s} {t} {u} f g = record {
  new = λ k h. go k (g.new k h);
  kept = λ k h. g.kept k (f.kept k h);
}
  where
    go : (k : Text) → HasMember b k ⊎ (contains k u ≡ true) → HasMember a k ⊎ (contains k u ≡ true)
    go k (inr h) = inr h
    go k (inl h) = elim (f.new k h) [ inl p ↦ inl p | inr p ↦ inr (g.kept k p) ]

join_channels-Joins :
    (arbitrary : Bool) (i : ℕ) (rest todo : List Text) (channels : Dict Text (List ℕ))
    (todo' : List Text)
    → (join_channels arbitrary i rest todo channels).0 ≡ ok todo'
    → Joins channels todo (join_channels arbitrary i rest todo channels).1 todo'
unfolding join_channels
join_channels-Joins arbitrary i [] todo channels todo' h =
    let same : todo ≡ todo' = ground arith in
    rw (← same) (record { new = λ c p. inl p; kept = λ c p. p })
join_channels-Joins arbitrary i (channel ∷ rest) todo channels todo' h =
    elim (Bool-cases (has_key channel channels || arbitrary)) [
      | inl allowed ↦ rw allowed (
          Joins-trans (join_step channels i channel todo)
            (join_channels-Joins arbitrary i rest _ _ todo' (rw allowed at h)))
      | inr unknown ↦
          let bad : ◌≡◌ {A = Result (List Text)} (raise _) (ok todo') = rw unknown at h in cc
    ]

-- Reading histories leaves the subscribed channels alone.
put_history-channels :
    (i : ℕ) (channels : List Text) (limit : Option ℕ) (backend backend' : Backend)
    (subscribers subscribers' : List Subscriber)
    → put_subscriber_history i channels limit backend subscribers ≡ some (backend', subscribers')
    → backend'.channels ≡ backend.channels
unfolding put_subscriber_history get_history
put_history-channels i [] limit backend backend' subscribers subscribers' h = ground arith
put_history-channels i (channel ∷ channels) limit backend backend' subscribers subscribers' h =
    elim (Option-cases (put_entries i (get_history channel limit backend).0 subscribers)) [
      | inr (subscribers₁, e) ↦
          put_history-channels i channels limit (get_history channel limit backend).1 backend'
            subscribers₁ subscribers' (rw (e, put_subscriber_history) at h)
      | inl e ↦
          let bad : ◌≡◌ {A = Option (Backend × List Subscriber)} none
              (some (backend', subscribers')) =
            rw (e, put_subscriber_history) at h in
          cc
    ]

finish_subscribe-IsServed :
    (i : ℕ) (channels : List Text) (history : Option ℕ) (plugin : ChannelsPlugin)
    → IsServed plugin
    → IsServed (finish_subscribe i channels history plugin).1
finish_subscribe-IsServed i channels none plugin served = served
finish_subscribe-IsServed i channels (some zero) plugin served = served
finish_subscribe-IsServed i channels (some (suc n)) plugin served =
    elim (Option-cases
      (put_subscriber_history i channels (some (suc n)) plugin.backend plugin.subscribers)) [
        | inr ((backend, subscribers), e) ↦ rw e (record {
          at = λ c h.
              rw
                (put_history-channels i channels (some (suc n)) plugin.backend backend
                  plugin.subscribers subscribers e)
                (served.at c h);
        })
        | inl e ↦ rw e served
      ]

abbrev pub is_failed : {A : Type 0} → Outcome A → Bool
is_failed (done a) = false
is_failed (failed e) = true
is_failed waiting = false

joined-IsServed :
    (i : ℕ) (channels : List Text) (history : Option ℕ) (plugin : ChannelsPlugin)
    (result : Result (List Text) × Dict Text (List ℕ))
    → ((todo : List Text) → result.0 ≡ ok todo → Joins plugin.channels [] result.1 todo)
    → IsServed plugin
    → is_failed (joined i channels history plugin result).0 ≡ false
    → IsServed (joined i channels history plugin result).1
joined-IsServed i channels history plugin (raise e, members) joins served h = cc
joined-IsServed i channels history plugin (ok todo, members) joins served h =
    finish_subscribe-IsServed i channels history _
      (record { at = λ c p. go c ((joins todo refl).new c p) })
  where
    go :
        (c : Text)
        → HasMember plugin.channels c ⊎ (contains c todo ≡ true)
        → contains c (subscribe_backend todo plugin.backend).channels ≡ true
    go c m =
        rw (contains-subscribe_backend c todo plugin.backend)
          (elim m [ inl q ↦ let here = served.at c q in ground arith | inr q ↦ ground arith ])

-- Unless it raises, `subscribe` keeps every channel that has a member subscribed to at the
-- backend, also where it waits for a place in the new subscriber's queue.
pub subscribe-IsServed :
    (channels : List Text) (history : Option ℕ) (plugin : ChannelsPlugin)
    → IsServed plugin
    → is_failed (subscribe channels history plugin).0 ≡ false
    → IsServed (subscribe channels history plugin).1
unfolding subscribe
subscribe-IsServed channels history plugin served h =
    joined-IsServed (length plugin.subscribers) channels history
      (record plugin {
        subscribers =
            plugin.subscribers ++ new_subscriber plugin.max_backlog plugin.backlog_strategy ∷ [];
      })
      (join_channels plugin.arbitrary_channels_allowed (length plugin.subscribers) channels []
        plugin.channels)
      (λ todo e.
        join_channels-Joins plugin.arbitrary_channels_allowed (length plugin.subscribers) channels
          [] plugin.channels todo e)
      (record { at = served.at }) h
