-- ===== src/WebSocket/Iterating.antt =====
-- `iter_data` against what the client sends.
use starlite.Prelude.{ℕ, zero, suc, ◌<◌, ◌≡◌, refl, ap, List, [], ◌∷◌, length, none, arith}
use starlite.Prelude.Text.{Text}
use starlite.WebSocket.{
  connect, receive, disconnect, ReceiveMessage, connect_event, receive_event, disconnect_event,
  other_event, Message, accept_event, Outcome, returned, waiting, WebSocket, new_websocket, Codec,
  WebSocketMode, data_of, iter_data,
}
use starlite.WebSocket.Closed.{socket}

-- The data of the events up to the one that disconnects; an event of another type than the protocol's
-- has no data and is the last one.
abbrev pub messages : WebSocketMode → List ReceiveMessage → List Text
messages mode [] = []
messages mode (connect_event ∷ events) = [] ∷ messages mode events
messages mode (receive_event t b ∷ events) = data_of mode (receive_event t b) ∷ messages mode events
messages mode (disconnect_event code ∷ events) = []
messages mode (other_event ∷ events) = [] ∷ []

-- The generator waits for ever where nothing disconnects.
abbrev pub ended : List ReceiveMessage → Outcome (Unit {0})
ended [] = waiting
ended (connect_event ∷ events) = ended events
ended (receive_event t b ∷ events) = ended events
ended (disconnect_event code ∷ events) = returned tt
ended (other_event ∷ events) = returned tt

abbrev pub Iterates :
    Codec → ℕ → WebSocketMode → WebSocket → List Text → Outcome (Unit {0}) → List Message → Type 0
Iterates codec fuel mode w ts outcome sent =
    ((iter_data codec fuel mode w).0 ≡ ts)
    × ((iter_data codec fuel mode w).1 ≡ outcome)
    × ((iter_data codec fuel mode w).2.sent ≡ sent)

disconnected-Iterates :
    (codec : Codec) (fuel : ℕ) (mode : WebSocketMode) (events : List ReceiveMessage)
    (sent : List Message)
    → 0 < fuel
    → Iterates codec fuel mode (socket disconnect events sent) [] (returned tt) sent
unfolding iter_data
disconnected-Iterates codec zero mode events sent h = absurd (omega arith)
disconnected-Iterates codec (suc fuel) mode events sent h = (refl, refl, refl)

mutual
  unfolding iter_data

  connect-Iterates :
      (codec : Codec) (mode : WebSocketMode) (events : List ReceiveMessage) (fuel : ℕ)
      (sent : List Message)
      → length events < fuel
      → Iterates codec fuel mode
          (socket connect events sent)
          (messages mode events)
          (ended events)
          sent
  connect-Iterates codec mode events zero sent h = absurd (omega arith)
  connect-Iterates codec mode [] (suc fuel) sent h = (refl, refl, refl)
  connect-Iterates codec mode (connect_event ∷ events) (suc fuel) sent h =
      let ih = connect-Iterates codec mode events fuel sent (omega arith) in
      (ap (λ ts. [] ∷ ts) ih.0, ih.1, ih.2)
  connect-Iterates codec mode (receive_event t b ∷ events) (suc fuel) sent h =
      let ih = receive-Iterates codec mode events fuel sent (omega arith) in
      (ap (λ ts. data_of mode (receive_event t b) ∷ ts) ih.0, ih.1, ih.2)
  connect-Iterates codec mode (disconnect_event code ∷ events) (suc fuel) sent h =
      (refl, refl, refl)
  connect-Iterates codec mode (other_event ∷ events) (suc fuel) sent h =
      let ih = disconnected-Iterates codec fuel mode events sent (omega arith) in
      (ap (λ ts. [] ∷ ts) ih.0, ih.1, ih.2)

  receive-Iterates :
      (codec : Codec) (mode : WebSocketMode) (events : List ReceiveMessage) (fuel : ℕ)
      (sent : List Message)
      → length events < fuel
      → Iterates codec fuel mode
          (socket receive events sent)
          (messages mode events)
          (ended events)
          sent
  receive-Iterates codec mode events zero sent h = absurd (omega arith)
  receive-Iterates codec mode [] (suc fuel) sent h = (refl, refl, refl)
  receive-Iterates codec mode (connect_event ∷ events) (suc fuel) sent h =
      let ih = connect-Iterates codec mode events fuel sent (omega arith) in
      (ap (λ ts. [] ∷ ts) ih.0, ih.1, ih.2)
  receive-Iterates codec mode (receive_event t b ∷ events) (suc fuel) sent h =
      let ih = receive-Iterates codec mode events fuel sent (omega arith) in
      (ap (λ ts. data_of mode (receive_event t b) ∷ ts) ih.0, ih.1, ih.2)
  receive-Iterates codec mode (disconnect_event code ∷ events) (suc fuel) sent h =
      (refl, refl, refl)
  receive-Iterates codec mode (other_event ∷ events) (suc fuel) sent h =
      let ih = disconnected-Iterates codec fuel mode events sent (omega arith) in
      (ap (λ ts. [] ∷ ts) ih.0, ih.1, ih.2)

-- On a new connection whose client connects, `iter_data` accepts the connection, once, then yields
-- the data of the events that follow, in their order, up to the one that disconnects, and ends there
-- without an exception; where none disconnects it waits. Fuel for one event more than there are is
-- enough.
pub iter_data-messages :
    (codec : Codec) (mode : WebSocketMode) (events : List ReceiveMessage) (fuel : ℕ)
    → length events < fuel
    → Iterates codec fuel mode
        (new_websocket (connect_event ∷ events))
        (messages mode events)
        (ended events)
        (accept_event none [] ∷ [])
unfolding iter_data
iter_data-messages codec mode events zero h = absurd (omega arith)
iter_data-messages codec mode events (suc fuel) h =
    connect-Iterates codec mode events (suc fuel) (accept_event none [] ∷ []) h
