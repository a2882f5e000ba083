-- ===== src/Session.antt =====
-- middleware/session/client_side.py: a session in the cookies of the client. The encryption and the
-- encoding are a parameter, and so is their inverse.
pub mod Keys
pub mod Loading
mod Tests
use Prim.Native.Nat.{◌/◌, ◌%◌}
use starlite.Prelude.{
  ℕ, zero, suc, ◌+◌, ◌-◌, Bool, true, false, not, ◌&&◌, ◌||◌, Option, none, some, List, [], ◌∷◌,
  ◌++◌, length, contains, keep, all, is_nil, take, drop, leb, nat_eq, if◌then◌else◌, ◌==◌, nat_Eq,
  list_Eq,
}
use starlite.Prelude.Dict.{Dict, lookup, keys}
use starlite.Prelude.Text.{Text, starts_with}
use starlite.Prelude.Sorting.{sorted}

abbrev pub chunk_size : ℕ
chunk_size = 4032

-- `[encoded[i : i + size] for i in range(0, len(encoded), size)]`, on fuel: the length is enough
unfoldable pub chunks : ℕ → ℕ → Text → List Text
chunks fuel size [] = []
chunks zero size (c ∷ cs) = []
chunks (suc fuel) size (c ∷ cs) = take size (c ∷ cs) ∷ chunks fuel size (drop size (c ∷ cs))

-- `str(i)`, on fuel, which the number itself is enough of
unfoldable pub decimal : ℕ → ℕ → Text
decimal zero i = (48 + i % 10) ∷ []
decimal (suc fuel) i =
    let high = decimal fuel (i / 10) in
    if leb i 9 then (48 + i) ∷ [] else high ++ (48 + i % 10) ∷ []

abbrev pub numbered : Text → ℕ → Text
numbered key i = key ++ b'-' ∷ decimal i i

unfoldable pub numbered_cookies : Text → ℕ → List Text → Dict Text Text
unfolding decimal
numbered_cookies key i [] = []
numbered_cookies key i (datum ∷ data') =
    (numbered key i, datum) ∷ numbered_cookies key (suc i) data'

unfoldable pub create_session_cookies : Text → List Text → Dict Text Text
unfolding numbered_cookies
create_session_cookies key (datum ∷ []) = (key, datum) ∷ []
create_session_cookies key data' = numbered_cookies key 0 data'

abbrev pub is_digit : ℕ → Bool
is_digit c = leb 48 c && leb c 57

-- `(?:-\d+)?` to the end of the name; digits beyond ASCII, which are none of the names of cookies,
-- are left out
abbrev pub is_suffix : Text → Bool
is_suffix [] = true
is_suffix (c ∷ cs) = nat_eq c b'-' && (not (is_nil cs) && all is_digit cs)

-- `cookie_re.fullmatch(name)`, where the key has no character that is special in the expression
unfoldable pub matches : Text → Text → Bool
matches key name = starts_with name key && is_suffix (drop (length key) name)

unfoldable pub get_cookie_keys : Text → Dict Text Text → List Text
unfolding matches
get_cookie_keys key cookies = sorted (keep (matches key) (keys cookies))

abbrev pub value_of : Option Text → Text
value_of none = []
value_of (some value) = value

-- `b"".join(data)` of the cookies of some keys
unfoldable pub joined : Dict Text Text → List Text → Text
joined cookies [] = []
joined cookies (key ∷ rest) = value_of (lookup key cookies) ++ joined cookies rest

module _ {Data : Type 0} (encode : Data → Text) (decode : Text → Option Data) where
  abbrev pub dump_data : Data → List Text
  dump_data data' = let encoded = encode data' in chunks (length encoded) chunk_size encoded

  -- The cookies that a response sets, where `none` clears one; an empty session is `none`.
  unfoldable pub store_in_message : Text → Option Data → Dict Text Text → Dict Text Text × List Text
  unfolding chunks create_session_cookies matches
  store_in_message key none cookies = ([], keep (matches key) (keys cookies))
  store_in_message key (some data') cookies =
      let set_cookies = create_session_cookies key (dump_data data') in
      (
        set_cookies,
        keep (λ name. not (contains name (keys set_cookies))) (keep (matches key) (keys cookies)),
      )

  -- `none` is the empty session; a failure of `load_data` makes one, too.
  unfoldable pub load_from_connection : Text → Dict Text Text → Option Data
  unfolding get_cookie_keys joined
  load_from_connection key cookies =
      let cookie_keys = get_cookie_keys key cookies in
      if is_nil cookie_keys then none else decode (joined cookies cookie_keys)
