-- ===== src/Channels/Members.antt =====
-- Every channel that has a member is subscribed to at the backend.
use starlite.Prelude.{
  ℕ, ◌≡◌, refl, true, false, ◌||◌, ◌⊎◌, List, [], ◌∷◌, contains, set_add, contains-set_add, is_nil,
  arith, Bool-cases, inl, inr, list_Eq, nat_Eq, list_eq_iff,
}
use starlite.Prelude.Dict.{
  Dict, lookup, insert, lookup-insert, has_key, keys, contains-keys, has_key-false,
}
use starlite.Prelude.Text.{Text}
use starlite.Channels.Backend
use starlite.Channels.Backend.{Backend, add_all, remove_all, get_history}
use starlite.Channels.Plugin.{ChannelsPlugin, members_of, subscribe_backend, on_startup}

abbrev pub HasMember : Dict Text (List ℕ) → Text → Type 0
HasMember channels c = is_nil (members_of (lookup c channels)) ≡ false

pub record IsServed (plugin : ChannelsPlugin) : Type 0 where
  pub at : (c : Text) → HasMember plugin.channels c → contains c plugin.backend.channels ≡ true

pub HasMember-insert :
    (channels : Dict Text (List ℕ)) (channel c : Text) (members : List ℕ)
    → HasMember (insert channel members channels) c
    → ((channel ≡ c) × (is_nil members ≡ false)) ⊎ HasMember channels c
HasMember-insert channels channel c members h =
    ground (arith, lookup-insert c channel members channels, list_eq_iff channel c)

HasMember-keys :
    (channels : Dict Text (List ℕ)) (c : Text)
    → HasMember channels c
    → contains c (keys channels) ≡ true
HasMember-keys channels c h =
    rw (contains-keys c channels) (elim (Bool-cases (has_key c channels)) [
      | inl known ↦ known
      | inr unknown ↦ ground (arith, has_key-false c channels unknown)
    ])

pub contains-add_all :
    (c : Text) (todo set : List Text)
    → contains c (add_all todo set) ≡ contains c todo || contains c set
contains-add_all c [] set = refl
contains-add_all c (t ∷ todo) set =
    ground (arith, contains-add_all c todo (set_add t set), contains-set_add c t set)

pub contains-subscribe_backend :
    (c : Text) (todo : List Text) (backend : Backend)
    → contains c (subscribe_backend todo backend).channels
      ≡ contains c todo || contains c backend.channels
contains-subscribe_backend c [] backend = refl
contains-subscribe_backend c (t ∷ todo) backend =
    unfold Backend.subscribe in contains-add_all c (t ∷ todo) backend.channels

-- After the start-up, whatever members there were before it, every channel that has a member is
-- subscribed to at the backend.
pub on_startup-IsServed : (plugin : ChannelsPlugin) → IsServed (on_startup plugin)
unfolding on_startup
on_startup-IsServed plugin = record {
  at = λ c h.
      rw (contains-subscribe_backend c (keys plugin.channels) (Backend.on_startup plugin.backend))
        (rw (HasMember-keys plugin.channels c h));
}
