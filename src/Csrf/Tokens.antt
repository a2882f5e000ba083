-- ===== src/Csrf/Tokens.antt =====
-- When the two tokens of a request match.
use starlite.Prelude.{
  true-false, ℕ, ◌+◌, ◌<◌, ◌≡◌, ◌↔◌, refl, sym, ap, ◌∙◌, ◌⊎◌, inl, inr, Bool, true, false, ◌&&◌,
  Option, none, some, [], ◌∷◌, ◌++◌, length, take, drop, take-drop, ltb, ◌==◌, nat_Eq, list_Eq,
  list_eq_iff, beq_refl, Bool-cases, arith,
}
use starlite.Prelude.Text.{Text}
use mathlib.Core.Path.{subst}
use starlite.Csrf.{
  csrf_secret_length, Config, is_ascii, Comparison, compared, type_error, compare_digest,
  decode_csrf_token, after_request, csrf_tokens_match,
}

-- A token that is signed by the secret.
abbrev pub IsSigned : Config → Text → Type 0
IsSigned config token =
    (csrf_secret_length < length token)
    × (drop csrf_secret_length token
        ≡ config.generate_csrf_hash (take csrf_secret_length token) config.secret)

-- A hexadecimal digest is ASCII.
abbrev pub HashesAreAscii : Config → Type 0
HashesAreAscii config =
    (token secret : Text) → is_ascii (config.generate_csrf_hash token secret) ≡ true

long-ltb : (a n : ℕ) → ltb n (a + 1) ≡ false → a < n
long-ltb a n h = ground arith

short-ltb : (a n : ℕ) → ltb n (a + 1) ≡ true → ¬ (a < n)
short-ltb a n h k = ground arith

pub is_ascii-append : (a b : Text) → is_ascii (a ++ b) ≡ is_ascii a && is_ascii b
is_ascii-append [] b = refl
is_ascii-append (c ∷ a) b = ground (arith, is_ascii-append a b)

and_true : (b : Bool) → (b && true) ≡ b
and_true true = refl
and_true false = refl

and_left : (a b : Bool) → (a && b) ≡ true → a ≡ true
and_left true b h = refl
and_left false b h = cc

pub compared_injective : (a b : Bool) → compared a ≡ compared b → a ≡ b
compared_injective a b h = cc

pub apart_error : {A : Type 0} (a : A) → ¬ (type_error ≡ compared a)
apart_error a h = let e : ◌≡◌ {A = Bool} true false = cc in true-false refl e

pub none-some : (a : Text) → ¬ (none ≡ some a)
none-some a h = let e : ◌≡◌ {A = Bool} true false = cc in true-false refl e

pub some_injective : (a b : Text) → some a ≡ some b → a ≡ b
some_injective a b h = cc

unmatched :
    (cookie : Comparison (Option Text)) → ¬ (after_request (compared none) cookie ≡ compared true)
unmatched type_error h = apart_error true h
unmatched (compared cookie) h = true-false refl (sym (compared_injective false true h))

compare_digest_refl : (a : Text) → is_ascii a ≡ true → compare_digest a a ≡ compared true
compare_digest_refl a h = rw (h, beq_refl a) refl

module _ (config : Config) (hashes : HashesAreAscii config) where
  -- What decoding a token comes to: the secret part if it is signed.
  decode_csrf_token-cases :
      (token : Text)
      → ((decode_csrf_token config token ≡ compared (some (take csrf_secret_length token)))
          × IsSigned config token)
        ⊎ (((decode_csrf_token config token ≡ compared none)
              ⊎ (decode_csrf_token config token ≡ type_error))
            × (¬ IsSigned config token))
  unfolding decode_csrf_token
  decode_csrf_token-cases token =
      let hash = config.generate_csrf_hash (take csrf_secret_length token) config.secret in
      let rest = drop csrf_secret_length token in
      elim (Bool-cases (ltb (length token) (csrf_secret_length + 1))) [
        | inl short ↦ inr (
          inl (rw short refl),
          λ signed. short-ltb csrf_secret_length (length token) short signed.0,
        )
        | inr long ↦ elim (Bool-cases (is_ascii rest)) [
          | inr foreign ↦ inr (
            inr (rw (long, foreign) refl),
            λ signed.
                true-false
                  (ap is_ascii signed.1 ∙ hashes (take csrf_secret_length token) config.secret)
                  foreign,
          )
          | inl ascii ↦ elim (Bool-cases (rest == hash)) [
            | inl same ↦ inl (
              rw (long, ascii, hashes (take csrf_secret_length token) config.secret, same) refl,
              (long-ltb csrf_secret_length (length token) long, (list_eq_iff rest hash).0 same),
            )
            | inr other ↦ inr (
              inl (
                  rw (long, ascii, hashes (take csrf_secret_length token) config.secret, other)
                    refl),
              λ signed. true-false ((list_eq_iff rest hash).1 signed.1) other,
            )
          ]
        ]
      ]

  signed-is_ascii :
      (token : Text)
      → IsSigned config token
      → is_ascii token ≡ is_ascii (take csrf_secret_length token)
  signed-is_ascii token signed =
      let part = take csrf_secret_length token in
      let e : drop csrf_secret_length token ≡ config.generate_csrf_hash part config.secret =
        signed.1 in
      ap is_ascii (sym (take-drop csrf_secret_length token))
      ∙ is_ascii-append part (drop csrf_secret_length token)
      ∙ rw (e, hashes part config.secret) (and_true (is_ascii part))

  -- Signed tokens are equal if their secret parts are.
  signed_eq :
      (a b : Text)
      → IsSigned config a
      → IsSigned config b
      → take csrf_secret_length a ≡ take csrf_secret_length b
      → a ≡ b
  signed_eq a b (_, h) (_, k) same =
      sym (take-drop csrf_secret_length a)
      ∙ ap (λ t. take csrf_secret_length a ++ t) h
      ∙ ap (λ t. t ++ config.generate_csrf_hash t config.secret) same
      ∙ ap (λ t. take csrf_secret_length b ++ t) (sym k)
      ∙ take-drop csrf_secret_length b

  -- A signed token in ASCII.
  abbrev pub IsValid : Text → Type 0
  IsValid token = IsSigned config token × (is_ascii token ≡ true)

  compare_digest-true :
      (a b : Text) → compare_digest a b ≡ compared true → (a ≡ b) × (is_ascii a ≡ true)
  compare_digest-true a b h = elim (Bool-cases (is_ascii a && is_ascii b)) [
    | inl ascii ↦
        let h' = rw ascii at h in
        let same : (a == b) ≡ true = compared_injective (a == b) true h' in
        ((list_eq_iff a b).0 same, and_left (is_ascii a) (is_ascii b) ascii)
    | inr foreign ↦ let h' = rw foreign at h in absurd (apart_error true h')
  ]

  csrf_tokens_match_self :
      (token : Text) → IsValid token → csrf_tokens_match config token token ≡ compared true
  unfolding csrf_tokens_match
  csrf_tokens_match_self token (signed, ascii) = elim (decode_csrf_token-cases token) [
    | inr (_, unsigned) ↦ absurd (unsigned signed)
    | inl (e, _) ↦ rw e (
        compare_digest_refl (take csrf_secret_length token)
          (sym (signed-is_ascii token signed) ∙ ascii))
  ]

  -- The tokens of a request and of its cookie match exactly when they are equal, signed and ASCII.
  pub csrf_tokens_match_iff :
      (request cookie : Text)
      → (csrf_tokens_match config request cookie ≡ compared true)
        ↔ ((request ≡ cookie) × IsValid cookie)
  unfolding csrf_tokens_match
  csrf_tokens_match_iff request cookie = (
    λ h. elim (decode_csrf_token-cases request) [
      | inr (inl e, _) ↦
          let h' = rw e at h in absurd (unmatched (decode_csrf_token config cookie) h')
      | inr (inr e, _) ↦ let h' = rw e at h in absurd (apart_error true h')
      | inl (e, signed) ↦ elim (decode_csrf_token-cases cookie) [
        | inr (inl e', _) ↦
            let h' = rw (e, e') at h in
            absurd (true-false refl (sym (compared_injective false true h')))
        | inr (inr e', _) ↦ let h' = rw (e, e') at h in absurd (apart_error true h')
        | inl (e', signed') ↦
            let h' = rw (e, e') at h in
            let (same, ascii) =
              compare_digest-true (take csrf_secret_length request) (take csrf_secret_length cookie)
                h' in
            (
              signed_eq request cookie signed signed' same,
              (signed', signed-is_ascii cookie signed' ∙ ap is_ascii (sym same) ∙ ascii),
            )
      ]
    ],
    λ h.
        subst (λ r. csrf_tokens_match config r cookie ≡ compared true) (sym h.0)
          (csrf_tokens_match_self cookie h.1),
  )
