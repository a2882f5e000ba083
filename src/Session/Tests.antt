-- ===== src/Session/Tests.antt =====
-- Runs of the session cookies, and the theorem for a small session.
use starlite.Prelude.{◌≡◌, refl, Option, some, List, [], ◌∷◌, arith}
use starlite.Prelude.Text.{Text, codes}
use starlite.Session.{
  create_session_cookies, get_cookie_keys, joined, store_in_message, load_from_connection,
}
use starlite.Session.Loading.{load_from_connection-store_in_message}

abbrev key : Text
key = codes "session"

abbrev decoded : Text → Option Text
decoded text = some text

abbrev same : Text → Text
same text = text

load_from_connection-store_in_message_example :
    load_from_connection same decoded key (
      (codes "theme", codes "dark")
      ∷ (store_in_message same decoded key (some (codes "data")) []).0)
    ≡ some (codes "data")
unfolding load_from_connection
load_from_connection-store_in_message_example =
    load_from_connection-store_in_message same decoded key (codes "data") []
      ((codes "theme", codes "dark") ∷ []) refl (omega arith) (omega arith) refl

abbrev eleven : List Text
eleven =
    codes "a"
    ∷ codes "b"
    ∷ codes "c"
    ∷ codes "d"
    ∷ codes "e"
    ∷ codes "f"
    ∷ codes "g"
    ∷ codes "h"
    ∷ codes "i"
    ∷ codes "j"
    ∷ codes "k"
    ∷ []

-- Eleven cookies are joined in the wrong order: the last one sorts before the third.
eleven_run :
    joined
      (create_session_cookies key eleven)
      (get_cookie_keys key (create_session_cookies key eleven))
    ≡ codes "abkcdefghij"
unfolding joined create_session_cookies get_cookie_keys
eleven_run = refl

cleared_run :
    store_in_message same decoded key
      (some (codes "data"))
      ((codes "session-0", codes "x") ∷ (codes "sessions", codes "y") ∷ [])
    ≡ ((codes "session", codes "data") ∷ [], codes "session-0" ∷ [])
unfolding store_in_message
cleared_run = refl
