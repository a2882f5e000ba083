-- ===== src/ErrorHandling/Choosing.antt =====
-- Which handler an exception gets.
use starlite.Prelude.{ℕ, ◌≡◌, Option, none, some, List, [], ◌∷◌, ◌++◌, Option-cases, inl, inr}
use starlite.Prelude.Dict.{lookup}
use starlite.ErrorHandling.{
  status, class, handler_key_Eq, ExceptionHandlersMap, Raised, first_handler, get_exception_handler,
}

-- No class of the list has a handler.
abbrev pub AreUnhandled : ExceptionHandlersMap → List ℕ → Type 0
AreUnhandled handlers [] = Unit
AreUnhandled handlers (c ∷ classes) =
    (lookup (class c) handlers ≡ none) × AreUnhandled handlers classes

-- The status code that is looked up first or, for an exception without one, last.
abbrev pub own_status : Raised → ℕ
own_status exc = elim exc.status_code [ none ↦ 500 | some code ↦ code ]

first_handler_found :
    (handlers : ExceptionHandlersMap) (default : Option ℕ) (before after : List ℕ) (c h : ℕ)
    → AreUnhandled handlers before
    → lookup (class c) handlers ≡ some h
    → first_handler handlers default (before ++ c ∷ after) ≡ some h
unfolding first_handler
first_handler_found handlers default [] after c h unhandled e = rw (e, first_handler)
first_handler_found handlers default (b ∷ before) after c h (here, unhandled) e =
    rw (here, first_handler) (first_handler_found handlers default before after c h unhandled e)

-- Where no handler is registered for the status code of the exception, it gets the handler of the
-- first of its classes, in the method resolution order, that has one, also if there is one for
-- the status code 500.
pub get_exception_handler_class :
    (handlers : ExceptionHandlersMap) (exc : Raised) (before after : List ℕ) (c h : ℕ)
    → exc.classes ≡ before ++ c ∷ after
    → AreUnhandled handlers before
    → lookup (class c) handlers ≡ some h
    → ((code : ℕ) → exc.status_code ≡ some code → lookup (status code) handlers ≡ none)
    → get_exception_handler handlers exc ≡ some h
unfolding get_exception_handler
get_exception_handler_class [] exc before after c h order unhandled e none_by_status = cc
get_exception_handler_class (entry ∷ handlers) exc before after c h order unhandled e
      none_by_status =
    elim (Option-cases exc.status_code) [
      | inl no_code ↦
          rw no_code
            (rw order (first_handler_found (entry ∷ handlers) _ before after c h unhandled e))
      | inr (code, with_code) ↦ rw with_code (
          rw (none_by_status code with_code)
            (rw order (first_handler_found (entry ∷ handlers) none before after c h unhandled e)))
    ]
