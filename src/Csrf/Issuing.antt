-- ===== src/Csrf/Issuing.antt =====
-- The tokens that the middleware issues are those that it accepts.
use starlite.Prelude.{
  ◌<◌, ◌≡◌, refl, sym, ap, ◌∙◌, inl, inr, Bool, true, false, not, ◌||◌, Option, none, some, [], ◌∷◌,
  ◌++◌, length, length-append, contains, take, drop, if◌then◌else◌, ◌==◌, nat_Eq, list_Eq,
  Bool-cases, arith,
}
use starlite.Prelude.Text.{Text}
use mathlib.Core.Path.{subst}
use starlite.Csrf
use starlite.Csrf.{
  csrf_secret_length, Config, Request, http, is_ascii, generate_csrf_token, existing_csrf_token,
  should_bypass_middleware, Answer, passed, permission_denied, failed, answer_safe, answer_unsafe,
  answer_match, csrf_tokens_match, handle,
}
use starlite.Csrf.Matching.{Reaches, handle_iff}
use starlite.Csrf.Tokens.{HashesAreAscii, IsValid, is_ascii-append}

take-append : (a b : Text) → take (length a) (a ++ b) ≡ a
take-append [] b = refl
take-append (c ∷ a) b = ap (λ t. c ∷ t) (take-append a b)

drop-append : (a b : Text) → drop (length a) (a ++ b) ≡ b
drop-append [] b = refl
drop-append (c ∷ a) b = drop-append a b

-- What `secrets.token_hex` returns.
abbrev pub IsHex : Text → Type 0
IsHex random = (length random ≡ csrf_secret_length) × (is_ascii random ≡ true)

module _ (config : Config) (hashes : HashesAreAscii config)
    (long : (token secret : Text) → 0 < length (config.generate_csrf_hash token secret)) where
  generate_csrf_token-IsValid :
      (random : Text) → IsHex random → IsValid config hashes (generate_csrf_token config random)
  unfolding generate_csrf_token
  generate_csrf_token-IsValid random (size, ascii) =
      let hash = config.generate_csrf_hash random config.secret in
      let taken : take csrf_secret_length (random ++ hash) ≡ random =
        rw (← size) (take-append random hash) in
      let left : drop csrf_secret_length (random ++ hash) ≡ hash =
        rw (← size) (drop-append random hash) in
      (
        (
          omega (arith, length-append random hash, long random config.secret, size),
          left ∙ ap (λ t. config.generate_csrf_hash t config.secret) (sym taken),
        ),
        is_ascii-append random hash ∙ rw (ascii, hashes random config.secret) refl,
      )

-- The cookie that is added to the response.
abbrev pub cookie_set : Answer → Option Text
cookie_set (passed token cookie) = cookie
cookie_set permission_denied = none
cookie_set failed = none

cookie_set-answer_unsafe :
    (config : Config) (existing cookie : Option Text)
    → cookie_set (answer_unsafe config existing cookie) ≡ none
unfolding answer_unsafe
cookie_set-answer_unsafe config none cookie = refl
cookie_set-answer_unsafe config (some token) none = refl
cookie_set-answer_unsafe config (some token) (some cookie) =
    elim (csrf_tokens_match config token cookie)
      as (λ m. cookie_set (answer_match token m) ≡ none) [
        | Csrf.type_error ↦ refl
        | Csrf.compared b ↦ denied_or_passed b
      ]
  where
    denied_or_passed :
        (b : Bool) → cookie_set (if b then passed (some token) none else permission_denied) ≡ none
    denied_or_passed true = refl
    denied_or_passed false = refl

cookie_set-answer_safe :
    (config : Config) (random : Text) (held : Option Text) (cookie : Text)
    → cookie_set (answer_safe config random held) ≡ some cookie
    → cookie ≡ generate_csrf_token config random
unfolding answer_safe
cookie_set-answer_safe config random none cookie h = cc
cookie_set-answer_safe config random (some held) cookie h = cc

-- A cookie is set only to the token that is generated for the request.
cookie_set-handle :
    (config : Config) (random : Text) (request : Request) (cookie : Text)
    → cookie_set (handle config random request) ≡ some cookie
    → cookie ≡ generate_csrf_token config random
unfolding handle
cookie_set-handle config random request cookie h =
    elim (Bool-cases (
      not (request.scope.scope_type == http)
      || should_bypass_middleware none config.exclude_from_csrf_key config.exclude (http ∷ [])
          request.scope)) [
            | inl bypassed ↦ let h' = rw bypassed at h in cc
            | inr checked ↦ elim (Bool-cases (contains request.scope.method config.safe_methods)) [
              | inl safe ↦
                  cookie_set-answer_safe config random request.csrf_cookie cookie
                    (rw (checked, safe) at h)
              | inr unsafe ↦
                  let h' = rw (checked, unsafe) at h in
                  let none_set =
                    cookie_set-answer_unsafe config (existing_csrf_token request)
                      request.csrf_cookie in
                  let e : ◌≡◌ {A = Option Text} none (some cookie) = sym none_set ∙ h' in cc
            ]
          ]

-- Where random tokens are hexadecimal and digests are ASCII and not empty: a client that sends the
-- cookie which it was given, as its cookie and also in the header or the form, reaches the application with every
-- method.
pub cookie_set-Reaches :
    (config : Config) (hashes : HashesAreAscii config)
    → ((token secret : Text) → 0 < length (config.generate_csrf_hash token secret))
    → (random random' cookie : Text) (first second : Request) → IsHex random
    → cookie_set (handle config random first) ≡ some cookie
    → second.csrf_cookie ≡ some cookie
    → existing_csrf_token second ≡ some cookie
    → Reaches config hashes (handle config random' second)
unfolding handle
cookie_set-Reaches config hashes long random random' cookie first second hex given held sent =
    elim (Bool-cases (
      not (second.scope.scope_type == http)
      || should_bypass_middleware none config.exclude_from_csrf_key config.exclude (http ∷ [])
          second.scope)) [
            | inl bypassed ↦ rw bypassed tt
            | inr checked ↦ elim (Bool-cases (contains second.scope.method config.safe_methods)) [
              | inl safe ↦ rw (checked, safe, held) tt
              | inr unsafe ↦
                  let e = cookie_set-handle config random first cookie given in
                  (handle_iff config hashes random' second (checked, unsafe)).1 (
                    cookie,
                    sent,
                    held,
                    subst (IsValid config hashes) (sym e)
                        (generate_csrf_token-IsValid config hashes long random hex),
                  )
            ]
          ]
