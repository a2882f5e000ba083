-- ===== src/Prelude/Exceptions.antt =====
-- The exceptions that the modelled code raises or lets pass, and computations that may raise.
use Prim.Native.Nat.{ℕ}
use mathlib.Core.Path.{◌≡◌, refl}
use mathlib.Core.Logic.{◌⊎◌, inl, inr}
use mathlib.Core.Bool.{Bool, true, false}

-- `other` stands for an exception of code that is not modelled, by its number.
pub data Exception : Type 0 where
  key_error value_error runtime_error : Exception
  not_found method_not_allowed improperly_configured : Exception
  too_many_requests channels_exception : Exception
  other : ℕ → Exception

pub data Result {ℓ} (A : Type ℓ) : Type ℓ where
  ok : A → Result A
  raise : Exception → Result A

-- `if not test: raise e`
abbrev pub require : Bool → Exception → Result (Unit {0})
require false e = raise e
require true e = ok tt

-- `try: m; except …: handler`, where the handler returns what it raises in turn
abbrev pub rescue {ℓ} : {A : Type ℓ} → (Exception → Exception) → Result A → Result A
rescue handler (ok a) = ok a
rescue handler (raise e) = raise (handler e)

pub Result-cases {ℓ} :
    {A : Type ℓ} (m : Result A) → ((a : A) × (m ≡ ok a)) ⊎ ((e : Exception) × (m ≡ raise e))
Result-cases (ok a) = inl (a, refl)
Result-cases (raise e) = inr (e, refl)

module _ {ℓ κ} {A : Type ℓ} {B : Type κ} where
  infixl 5 ◌>>=◌
  -- One statement after another; an exception leaves the rest undone.
  abbrev pub ◌>>=◌ : Result A → (A → Result B) → Result B
  raise e >>= next = raise e
  ok a >>= next = next a

  -- Inversion of a bind that returned.
  pub >>=-eq-ok :
      {b : B} (m : Result A) (next : A → Result B)
      → (m >>= next) ≡ ok b
      → (a : A) × (m ≡ ok a) × (next a ≡ ok b)
  >>=-eq-ok (raise e) f h = cc
  >>=-eq-ok (ok a) f h = (a, refl, h)

infixl 5 ◌>>◌
abbrev pub ◌>>◌ {ℓ} : {B : Type ℓ} → Result (Unit {0}) → Result B → Result B
m >> k = m >>= λ _. k
