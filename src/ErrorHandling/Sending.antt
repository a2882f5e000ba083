-- ===== src/ErrorHandling/Sending.antt =====
-- How many responses are started.
use starlite.Prelude.{
  ℕ, ◌+◌, ◌≤◌, ◌≡◌, refl, Bool, true, false, Option, none, some, List, [], ◌∷◌, ◌++◌, if◌then◌else◌,
  any, arith, Bool-cases, inl, inr,
}
use starlite.ErrorHandling.{
  ExceptionHandlersMap, Raised, Message, Responder, is_start, handle, handle_websocket_exception,
  handle_request_exception,
}

unfoldable pub starts : List Message → ℕ
starts [] = 0
starts (m ∷ messages) = (if is_start m then 1 else 0) + starts messages

starts-append : (xs ys : List Message) → starts (xs ++ ys) ≡ starts xs + starts ys
unfolding starts
starts-append [] ys = omega arith
starts-append (m ∷ xs) ys = omega (arith, starts-append xs ys)

not_started : (sent : List Message) → any is_start sent ≡ false → starts sent ≡ 0
unfolding starts
not_started [] h = refl
not_started (m ∷ sent) h = ground (arith, not_started sent)

started_by_close : (exc : Raised) → starts (handle_websocket_exception exc ∷ []) ≤ 1
unfolding starts
started_by_close exc = ground arith

module _ (respond : Responder → Raised → List Message) where
  -- Where the application starts at most one response and so does the response of every handler,
  -- at most one response is started in all, whether the application raises or not.
  pub starts-handle :
      (is_http debug : Bool) (handlers : ExceptionHandlersMap) (sent : List Message)
      (error : Option Raised)
      → ((responder : Responder) (exc : Raised) → starts (respond responder exc) ≤ 1)
      → starts sent ≤ 1
      → starts (handle respond is_http debug handlers sent error).1 ≤ 1
  unfolding handle handle_request_exception
  starts-handle is_http debug handlers sent none once few = few
  starts-handle is_http debug handlers sent (some exc) once few =
      elim (Bool-cases (any is_start sent)) [
        | inl started ↦ rw started few
        | inr quiet ↦ rw quiet (
            rw (starts-append sent _)
              (rw (not_started sent quiet) (let one = answer is_http in omega arith)))
      ]
    where
      answer :
          (is_http : Bool)
          → starts (
              if is_http
              then handle_request_exception respond debug handlers exc
              else handle_websocket_exception exc ∷ [])
            ≤ 1
      answer true = once _ exc
      answer false = started_by_close exc
