-- ===== src/Csrf/Matching.antt =====
-- What reaches the application.
use starlite.Prelude.{
  true-false, ◌≡◌, ◌↔◌, refl, sym, ap, ◌∙◌, Bool, true, false, not, ◌||◌, Option, none, some, [],
  ◌∷◌, contains, ◌==◌, nat_Eq, list_Eq,
}
use starlite.Prelude.Text.{Text}
use mathlib.Core.Path.{subst}
use starlite.Csrf.{
  Config, Request, http, Comparison, compared, type_error, csrf_tokens_match, existing_csrf_token,
  should_bypass_middleware, Answer, passed, permission_denied, failed, answer_match, answer_unsafe,
  handle,
}
use starlite.Csrf.Tokens.{
  HashesAreAscii, IsValid, csrf_tokens_match_iff, apart_error, compared_injective, none-some,
  some_injective,
}

module _ (config : Config) (hashes : HashesAreAscii config) where
  -- A request that the middleware does not pass over, with a method that is not safe.
  abbrev pub IsChecked : Request → Type 0
  unfolding should_bypass_middleware
  IsChecked request =
      (not (request.scope.scope_type == http)
          || should_bypass_middleware none config.exclude_from_csrf_key config.exclude (http ∷ [])
              request.scope
        ≡ false)
      × (contains request.scope.method config.safe_methods ≡ false)

  abbrev pub Reaches : Answer → Type 0
  Reaches (passed token cookie) = Unit
  Reaches permission_denied = ⊥
  Reaches failed = ⊥

  answer_match_iff :
      (token : Text) (matched : Comparison Bool)
      → Reaches (answer_match token matched) ↔ (matched ≡ compared true)
  answer_match_iff token type_error = (λ h. absurd h, λ h. absurd (apart_error true h))
  answer_match_iff token (compared true) = (λ h. refl, λ h. tt)
  answer_match_iff token (compared false) =
      (λ h. absurd h, λ h. true-false refl (sym (compared_injective false true h)))

  answer_unsafe_iff :
      (existing cookie : Option Text)
      → Reaches (answer_unsafe config existing cookie) ↔ (
          (token : Text) × (existing ≡ some token)
          × (cookie ≡ some token)
          × IsValid config hashes token)
  unfolding answer_unsafe
  answer_unsafe_iff none cookie = (λ h. absurd h, λ h. absurd (none-some h.0 h.1))
  answer_unsafe_iff (some token) none = (λ h. absurd h, λ h. absurd (none-some h.0 h.2))
  answer_unsafe_iff (some token) (some cookie) =
      let matched = answer_match_iff token (csrf_tokens_match config token cookie) in
      let both = csrf_tokens_match_iff config hashes token cookie in
      (
        λ h. let (same, valid) = both.0 (matched.0 h) in (cookie, ap some same, refl, valid),
        λ h. matched.1 (
            both.1 (
              some_injective token h.0 h.1 ∙ sym (some_injective cookie h.0 h.2),
              subst (IsValid config hashes) (sym (some_injective cookie h.0 h.2)) h.3,
            )),
      )

  -- Where hexadecimal digests are ASCII, a request with a method that is not safe and that the
  -- middleware does not pass over reaches the application exactly when it sends, in the header or the
  -- form, the same token as in its cookie, and that token is ASCII and signed by the secret.
  pub handle_iff :
      (random : Text) (request : Request)
      → IsChecked request
      → Reaches (handle config random request) ↔ (
          (token : Text) × (existing_csrf_token request ≡ some token)
          × (request.csrf_cookie ≡ some token)
          × IsValid config hashes token)
  unfolding handle
  handle_iff random request (checked, unsafe) =
      rw (checked, unsafe) (answer_unsafe_iff (existing_csrf_token request) request.csrf_cookie)
