-- ===== src/ErrorHandling/Tests.antt =====
-- Runs of the exception middleware, and its theorems for two classes of exceptions.
use starlite.Prelude.{◌≤◌, ◌≡◌, refl, true, false, none, some, List, [], ◌∷◌, arith}
use starlite.Prelude.Text.{codes}
use starlite.ErrorHandling.{
  status, class, ExceptionHandlersMap, Raised, Message, Responder, response_start, message,
  websocket_close, handle, returned,
}
use starlite.ErrorHandling.Sending.{starts, starts-handle}

abbrev handlers : ExceptionHandlersMap
handlers = (status 500, 1) ∷ (class 8, 2) ∷ []

-- An exception of the class 7, a subclass of the class 8.
abbrev exc : Raised
exc = record { status_code = none; classes = 7 ∷ 8 ∷ []; code = none; detail = none }

abbrev respond : Responder → Raised → List Message
respond responder e = response_start 500 ∷ message 1 ∷ []

starts-handle_example :
    starts (handle respond true false handlers (message 3 ∷ []) (some exc)).1 ≤ 1
unfolding starts
starts-handle_example =
    starts-handle respond true false handlers (message 3 ∷ []) (some exc)
      (λ responder e. omega arith) (omega arith)

websocket_run :
    handle respond false false handlers [] (some exc)
    ≡ (returned, websocket_close 4500 (codes "Internal Server Error") ∷ [])
unfolding handle
websocket_run = refl
