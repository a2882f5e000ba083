-- ===== src/Csrf/Tests.antt =====
-- The middleware with a toy digest.
use starlite.Prelude.{◌≡◌, ◌↔◌, refl, false, Option, none, some, [], ◌∷◌, ◌++◌, arith}
use starlite.Prelude.Text.{Text, codes}
use starlite.Csrf.{
  Config, Request, existing_csrf_token, should_bypass_middleware, permission_denied, handle,
}
use starlite.Csrf.Matching.{Reaches, handle_iff}
use starlite.Csrf.Tokens.{HashesAreAscii, IsValid}
use starlite.Csrf.Issuing.{cookie_set-Reaches}

-- A digest of one digit.
abbrev toy_digest : Text → Text → Text
toy_digest token secret = b'7' ∷ []

abbrev toy : Config
toy = record {
  generate_csrf_hash = toy_digest;
  secret = codes "s";
  safe_methods = codes "GET" ∷ codes "HEAD" ∷ codes "OPTIONS" ∷ [];
  exclude = none;
  exclude_from_csrf_key = some (codes "exclude_from_csrf");
}

toy-HashesAreAscii : HashesAreAscii toy
toy-HashesAreAscii token secret = refl

abbrev random : Text
random = codes "0123456789abcdef0123456789abcdef0123456789abcdef0123456789abcdef"

abbrev visit : Text → Option Text → Option Text → Request
visit method cookie token = record {
  scope = record {
    scope_type = codes "http";
    method = method;
    path = codes "/";
    raw_path = codes "/";
    is_mount = false;
    opt = [];
  };
  content_type = codes "application/json";
  csrf_cookie = cookie;
  header_token = token;
  form_token = none;
}

abbrev issued : Text
issued = random ++ b'7' ∷ []

handle_iff_example :
    Reaches toy toy-HashesAreAscii
      (handle toy random (visit (codes "POST") (some issued) (some random)))
    ↔ ((token : Text) × (existing_csrf_token (visit (codes "POST") (some issued) (some random))
          ≡ some token)
        × (some issued ≡ some token)
        × IsValid toy toy-HashesAreAscii token)
unfolding should_bypass_middleware
handle_iff_example =
    handle_iff toy toy-HashesAreAscii random (visit (codes "POST") (some issued) (some random))
      (refl, refl)

cookie_set-Reaches_example :
    Reaches toy toy-HashesAreAscii
      (handle toy random (visit (codes "POST") (some issued) (some issued)))
unfolding handle existing_csrf_token
cookie_set-Reaches_example =
    cookie_set-Reaches toy toy-HashesAreAscii (λ t s. omega arith) random random issued
      (visit (codes "GET") none none) (visit (codes "POST") (some issued) (some issued))
      (refl, refl) refl refl refl

forged : handle toy random (visit (codes "POST") (some issued) (some random)) ≡ permission_denied
unfolding handle existing_csrf_token
forged = refl
