-- ===== src/Csrf.antt =====
-- middleware/csrf.py, and `should_bypass_middleware` of middleware/_utils.py. The HMAC and the random
-- tokens are parameters.
pub mod Issuing
pub mod Matching
pub mod Tokens
mod Tests
use starlite.Prelude.{
  ℕ, zero, suc, ◌+◌, Bool, true, false, not, ◌&&◌, ◌||◌, Option, none, some, List, [], ◌∷◌, ◌++◌,
  length, contains, all, is_nil, take, drop, ltb, if◌then◌else◌, ◌==◌, nat_Eq, list_Eq,
}
use starlite.Prelude.Dict.{Dict, lookup}
use starlite.Prelude.Text.{Text, codes}

abbrev pub csrf_secret_length : ℕ
csrf_secret_length = 64

-- What `should_bypass_middleware` reads of a scope; an option of the handler is known by its truth.
pub record Scope : Type 0 where
  pub scope_type : Text
  pub method : Text
  pub path : Text
  pub raw_path : Text
  pub is_mount : Bool
  pub opt : Dict Text Bool

-- Whether the `findall` of a pattern finds anything in a path
abbrev pub Pattern : Type 0
Pattern = Text → Bool

abbrev pub is_true : Option Bool → Bool
is_true none = false
is_true (some b) = b

abbrev pub has_opt : Option Text → Dict Text Bool → Bool
has_opt none opt = false
has_opt (some key) opt = if is_nil key then false else is_true (lookup key opt)

abbrev pub is_excluded_method : Option (List Text) → Text → Bool
is_excluded_method none method = false
is_excluded_method (some methods) method = contains method methods

abbrev pub matches_path : Option Pattern → Text → Bool
matches_path none path = false
matches_path (some pattern) path = pattern path

unfoldable pub should_bypass_middleware :
    Option (List Text) → Option Text → Option Pattern → List Text → Scope → Bool
should_bypass_middleware exclude_http_methods exclude_opt_key exclude_path_pattern scopes scope =
    not (contains scope.scope_type scopes)
    || has_opt exclude_opt_key scope.opt
    || is_excluded_method exclude_http_methods scope.method
    || matches_path exclude_path_pattern (if scope.is_mount then scope.raw_path else scope.path)

-- `generate_csrf_hash` is the HMAC of a token under a secret, in hexadecimal digits.
pub record Config : Type 0 where
  pub generate_csrf_hash : Text → Text → Text
  pub secret : Text
  pub safe_methods : List Text
  pub exclude : Option Pattern
  pub exclude_from_csrf_key : Option Text

-- `form_token` is the field `_csrf_token` of the form, where the body is one.
pub record Request : Type 0 where
  pub scope : Scope
  pub content_type : Text
  pub csrf_cookie : Option Text
  pub header_token : Option Text
  pub form_token : Option Text

abbrev pub http : Text
http = codes "http"

abbrev pub is_ascii : Text → Bool
is_ascii text = all (λ c. ltb c 128) text

-- `compare_digest` raises a TypeError for texts that are not ASCII.
pub data Comparison (A : Type 0) : Type 0 where
  compared : A → Comparison A
  type_error : Comparison A

abbrev pub compare_digest : Text → Text → Comparison Bool
compare_digest a b = if is_ascii a && is_ascii b then compared (a == b) else type_error

unfoldable pub generate_csrf_token : Config → Text → Text
generate_csrf_token config token = token ++ config.generate_csrf_hash token config.secret

abbrev pub token_if : Text → Comparison Bool → Comparison (Option Text)
token_if token type_error = type_error
token_if token (compared b) = compared (if b then some token else none)

unfoldable pub decode_csrf_token : Config → Text → Comparison (Option Text)
decode_csrf_token config token =
    let token_secret = take csrf_secret_length token in
    if ltb (length token) (csrf_secret_length + 1)
    then compared none
    else token_if token_secret (
        compare_digest (drop csrf_secret_length token)
          (config.generate_csrf_hash token_secret config.secret))

abbrev pub both_match : Option Text → Option Text → Comparison Bool
both_match none cookie = compared false
both_match (some request) none = compared false
both_match (some request) (some cookie) = compare_digest request cookie

abbrev pub after_request : Comparison (Option Text) → Comparison (Option Text) → Comparison Bool
after_request type_error cookie = type_error
after_request (compared request) type_error = type_error
after_request (compared request) (compared cookie) = both_match request cookie

unfoldable pub csrf_tokens_match : Config → Text → Text → Comparison Bool
unfolding decode_csrf_token
csrf_tokens_match config request_csrf_token cookie_csrf_token =
    after_request (decode_csrf_token config request_csrf_token)
      (decode_csrf_token config cookie_csrf_token)

abbrev pub is_form : Text → Bool
is_form content_type =
    content_type == codes "application/x-www-form-urlencoded"
    || content_type == codes "multipart/form-data"

abbrev pub is_falsy : Option Text → Bool
is_falsy none = true
is_falsy (some text) = is_nil text

unfoldable pub existing_csrf_token : Request → Option Text
existing_csrf_token request =
    if is_falsy request.header_token && is_form request.content_type
    then request.form_token
    else request.header_token

-- What comes of a request: it reaches the application, with the token in the state of its connection
-- and the token of the cookie that `create_send_wrapper` adds to the response, or an exception is
-- raised.
pub data Answer : Type 0 where
  passed : Option Text → Option Text → Answer
  permission_denied : Answer
  failed : Answer

abbrev pub answer_match : Text → Comparison Bool → Answer
answer_match token type_error = failed
answer_match token (compared b) = if b then passed (some token) none else permission_denied

abbrev pub answer_unsafe : Config → Option Text → Option Text → Answer
unfolding csrf_tokens_match
answer_unsafe config none cookie = permission_denied
answer_unsafe config (some token) none = permission_denied
answer_unsafe config (some token) (some cookie) =
    answer_match token (csrf_tokens_match config token cookie)

-- `csrf_cookie or generate_csrf_token(...)`; the cookie is added only where there is none.
abbrev pub answer_safe : Config → Text → Option Text → Answer
unfolding generate_csrf_token
answer_safe config random none =
    passed (some (generate_csrf_token config random)) (some (generate_csrf_token config random))
answer_safe config random (some cookie) =
    passed (some (if is_nil cookie then generate_csrf_token config random else cookie)) none

-- `CSRFMiddleware.__call__`; `random` is what `secrets.token_hex` returns if it is called.
unfoldable pub handle : Config → Text → Request → Answer
unfolding answer_safe answer_unsafe existing_csrf_token should_bypass_middleware
handle config random request =
    if not (request.scope.scope_type == http)
      || should_bypass_middleware none config.exclude_from_csrf_key config.exclude (http ∷ [])
          request.scope
    then passed none none
    else if contains request.scope.method config.safe_methods
    then answer_safe config random request.csrf_cookie
    else answer_unsafe config (existing_csrf_token request) request.csrf_cookie
