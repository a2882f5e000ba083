-- ===== src/RateLimit/Bound.antt =====
-- How many requests a fixed window lets through in any period as long as it.
use starlite.Prelude.{
  ℕ, ◌+◌, ◌*◌, ◌≤◌, ◌<◌, ◌≡◌, refl, Bool, true, false, Option, none, some, List, [], ◌∷◌, length,
  leb, ltb, ◌&&◌, All, arith, Bool-cases, inl, inr, if◌then◌else◌,
}
use starlite.RateLimit.Window.{Span, limit_step}

-- The decisions of the window on requests at these times.
unfoldable pub limiter : ℕ → ℕ → List ℕ → Option Span → List Bool
limiter max_requests duration [] state = []
limiter max_requests duration (now ∷ times) state =
    let (passes, state') = limit_step max_requests duration now state in
    passes ∷ limiter max_requests duration times state'

abbrev one_if : Bool → ℕ
one_if true = 1
one_if false = 0

-- How many requests were let through at a time from `from` on and before `until`.
unfoldable pub passed : ℕ → ℕ → List ℕ → List Bool → ℕ
passed from until [] decisions = 0
passed from until (time ∷ times) [] = 0
passed from until (time ∷ times) (passes ∷ decisions) =
    one_if (passes && (leb from time && ltb time until)) + passed from until times decisions

-- The times are in order, from `last` on.
abbrev pub IsOrdered : ℕ → List ℕ → Type 0
IsOrdered last [] = Unit
IsOrdered last (time ∷ times) = (last ≤ time) × IsOrdered time times

passed_after :
    (from until last : ℕ) (times : List ℕ) (decisions : List Bool)
    → until ≤ last
    → IsOrdered last times
    → passed from until times decisions ≡ 0
unfolding passed
passed_after from until last [] decisions h o = refl
passed_after from until last (time ∷ times) [] h o = refl
passed_after from until last (time ∷ times) (passes ∷ decisions) h (p, o) =
    ground (arith, passed_after from until time times decisions)

module _ (max_requests duration from : ℕ) where
  count_from : List ℕ → ℕ
  count_from [] = 0
  count_from (time ∷ times) = one_if (leb from time) + count_from times

  count_from-le-length : (times : List ℕ) → count_from times ≤ length times
  unfolding count_from
  count_from-le-length [] = omega arith
  count_from-le-length (time ∷ times) = ground (arith, count_from-le-length times)

  count_from_none :
      (last : ℕ) (times : List ℕ) → last < from → All (λ t. t ≤ last) times → count_from times ≡ 0
  unfolding count_from
  count_from_none last [] h k = refl
  count_from_none last (time ∷ times) h (p, k) = ground (arith, count_from_none last times h k)

  -- How much of twice the maximum is used up.
  abbrev spent : Option Span → ℕ
  spent none = 0
  spent (some span) =
      if ltb span.start from then count_from span.times else max_requests + length span.times

  abbrev IsValid : ℕ → Option Span → Type 0
  IsValid last none = Unit
  IsValid last (some span) = (length span.times ≤ max_requests) × All (λ t. t ≤ last) span.times

  spent_bound :
      (last : ℕ) (state : Option Span) → IsValid last state → spent state ≤ 2 * max_requests
  spent_bound last none v = omega arith
  spent_bound last (some span) (v, _) = ground (arith, count_from-le-length span.times)

  All-le :
      (last now : ℕ) (times : List ℕ)
      → last ≤ now
      → All (λ t. t ≤ last) times
      → All (λ t. t ≤ now) times
  All-le last now [] h k = tt
  All-le last now (t ∷ times) h (p, k) = (omega arith, All-le last now times h k)

  IsValid-step :
      (last now : ℕ) (state : Option Span)
      → last ≤ now
      → IsValid last state
      → IsValid now (limit_step max_requests duration now state).1
  IsValid-step last now none o v = ground arith
  IsValid-step last now (some span) o (v, k) = ground (arith, All-le last now span.times o k)

  -- A request in the period that is let through uses up one more.
  spent_step :
      (last now : ℕ) (state : Option Span)
      → last ≤ now
      → now < from + duration
      → IsValid last state
      → one_if (
            (limit_step max_requests duration now state).0
            && (leb from now && ltb now (from + duration)))
          + spent state
        ≤ spent (limit_step max_requests duration now state).1
  unfolding count_from
  spent_step last now none o h v = ground arith
  spent_step last now (some span) o h (v, k) = ground (
    arith,
    count_from-le-length span.times,
    λ (early : now < from). count_from_none last span.times (omega arith) k,
  )

  limiter_bound :
      (times : List ℕ) (last : ℕ) (state : Option Span)
      → IsOrdered last times
      → IsValid last state
      → passed from (from + duration) times (limiter max_requests duration times state)
          + spent state
        ≤ 2 * max_requests
  unfolding passed limiter
  limiter_bound [] last state o v = omega (arith, spent_bound last state v)
  limiter_bound (now ∷ times) last state (p, o) v = elim (Bool-cases (ltb now (from + duration))) [
    | inl within ↦ omega (
      arith,
      spent_step last now state p (ground arith) v,
      limiter_bound times now (limit_step max_requests duration now state).1 o
          (IsValid-step last now state p v),
    )
    | inr past ↦ omega (
      arith,
      spent_bound last state v,
      passed_after from (from + duration) now (now ∷ times)
          (limiter max_requests duration (now ∷ times) state) (ground arith) (omega arith, o),
    )
  ]

-- From no window on, a fixed window lets at most twice the maximum through in any period as long
-- as it.
pub passed-limiter :
    (max_requests duration from last : ℕ) (times : List ℕ)
    → IsOrdered last times
    → passed from (from + duration) times (limiter max_requests duration times none)
      ≤ 2 * max_requests
passed-limiter max_requests duration from last times o =
    omega (arith, limiter_bound max_requests duration from times last none o tt)
