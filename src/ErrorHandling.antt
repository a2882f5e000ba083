-- ===== src/ErrorHandling.antt =====
-- middleware/_internal/exceptions/middleware.py: the middleware around an application that handles
-- its exceptions. Classes of exceptions and the handlers are known by numbers. Logging, the
-- debugger and the requests and responses that handlers get and make are left out: the messages
-- that a response sends are a parameter.
pub mod Choosing
pub mod Sending
mod Tests
use starlite.Prelude.{
  ℕ, ◌+◌, Bool, true, false, ◌&&◌, Option, none, some, List, [], ◌∷◌, ◌++◌, Eq, ◌↔◌, ◌≡◌, refl,
  nat_Eq, nat_eq, nat_eq_iff, ◌==◌, if◌then◌else◌, any, is_nil, arith,
}
use starlite.Prelude.Dict.{Dict, lookup}
use starlite.Prelude.Text.{Text, codes}

-- A key of an exception handler mapping: a status code or a class.
pub data HandlerKey : Type 0 where
  status class : ℕ → HandlerKey

abbrev pub handler_key_eq : HandlerKey → HandlerKey → Bool
handler_key_eq (status a) (status b) = nat_eq a b
handler_key_eq (class a) (class b) = nat_eq a b
handler_key_eq _ _ = false

pub handler_key_eq_iff : (a b : HandlerKey) → (handler_key_eq a b ≡ true) ↔ (a ≡ b)
handler_key_eq_iff (status a) (status b) = ground (arith, nat_eq_iff a b)
handler_key_eq_iff (class a) (class b) = ground (arith, nat_eq_iff a b)
handler_key_eq_iff _ _ = ground arith

instance abbrev pub handler_key_Eq : Eq HandlerKey
handler_key_Eq = record { beq = handler_key_eq; beq_iff = handler_key_eq_iff }

abbrev pub ExceptionHandlersMap : Type 0
ExceptionHandlersMap = Dict HandlerKey ℕ

-- What the middleware reads of an exception: the status code of an HTTPException, the classes of
-- its method resolution order, the code of a WebSocketException and the detail of a
-- LitestarException, which a WebSocketException is, too.
pub record Raised : Type 0 where
  pub status_code : Option ℕ
  pub classes : List ℕ
  pub code : Option ℕ
  pub detail : Option Text

-- the first class with a handler
unfoldable pub first_handler : ExceptionHandlersMap → Option ℕ → List ℕ → Option ℕ
first_handler handlers default [] = default
first_handler handlers default (c ∷ classes) = elim (lookup (class c) handlers) [
  | none ↦ first_handler handlers default classes
  | some handler ↦ some handler
]

abbrev pub by_status : ExceptionHandlersMap → List ℕ → Option ℕ → Option ℕ
by_status handlers classes none = first_handler handlers none classes
by_status handlers classes (some handler) = some handler

unfoldable pub get_exception_handler : ExceptionHandlersMap → Raised → Option ℕ
unfolding first_handler
get_exception_handler handlers exc = if is_nil handlers then none else elim exc.status_code [
  | none ↦ first_handler handlers (lookup (status 500) handlers) exc.classes
  | some code ↦ by_status handlers exc.classes (lookup (status code) handlers)
]

pub data Message : Type 0 where
  response_start : ℕ → Message
  websocket_close : ℕ → Text → Message
  message : ℕ → Message

-- Which handler makes the response.
pub data Responder : Type 0 where
  handler : ℕ → Responder
  debug_response exception_response : Responder

-- `default_http_exception_handler`
abbrev pub status_or_500 : Option ℕ → ℕ
status_or_500 none = 500
status_or_500 (some code) = code

unfoldable pub default_http_exception_handler : Bool → Raised → Responder
default_http_exception_handler debug exc =
    if nat_eq (status_or_500 exc.status_code) 500 && debug
    then debug_response
    else exception_response

abbrev pub handler_or : Responder → Option ℕ → Responder
handler_or default none = default
handler_or default (some h) = handler h

unfoldable pub handle_websocket_exception : Raised → Message
handle_websocket_exception exc = elim exc.code [
  | some code ↦ websocket_close code (elim exc.detail [ none ↦ [] | some detail ↦ detail ])
  | none ↦
      websocket_close 4500
        (elim exc.detail [ none ↦ codes "Internal Server Error" | some detail ↦ detail ])
]

abbrev pub is_start : Message → Bool
is_start (response_start _) = true
is_start _ = false

-- How the call ended: it returned, or raised after a response was started.
pub data Ended : Type 0 where
  returned exception_after_start : Ended

-- `respond` are the messages of the response of a handler.
module _ (respond : Responder → Raised → List Message) where
  unfoldable pub handle_request_exception : Bool → ExceptionHandlersMap → Raised → List Message
  unfolding get_exception_handler default_http_exception_handler
  handle_request_exception debug handlers exc =
      respond
        (handler_or (default_http_exception_handler debug exc) (get_exception_handler handlers exc))
        exc

  -- `__call__`, where the application sent some messages and then returned or raised; the result
  -- is what was sent in all
  unfoldable pub handle :
      Bool → Bool → ExceptionHandlersMap → List Message → Option Raised → Ended × List Message
  unfolding handle_request_exception handle_websocket_exception
  handle is_http debug handlers sent none = (returned, sent)
  handle is_http debug handlers sent (some exc) =
      if any is_start sent then (exception_after_start, sent) else (
        returned,
        sent
            ++ (if is_http
                then handle_request_exception debug handlers exc
                else handle_websocket_exception exc ∷ []),
      )
