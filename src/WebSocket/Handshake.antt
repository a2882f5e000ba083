-- ===== src/WebSocket/Handshake.antt =====
-- The order in which a socket sends its events.
use starlite.Prelude.{
  ℕ, zero, suc, ◌≡◌, ◌≢◌, refl, ◌⊎◌, inl, inr, true, false, Option, none, some, List, [], ◌∷◌, ◌++◌,
  Option-cases,
}
use starlite.Prelude.Text.{Text}
use starlite.WebSocket.{
  ConnectionState, init, connect, receive, disconnect, ReceiveMessage, connect_event, receive_event,
  disconnect_event, other_event, Message, accept_event, send_event, Outcome, returned, disconnected,
  unicode_error, waiting, WebSocket, new_websocket, Codec, AcceptHeaders, WebSocketMode, Data,
  raw_headers, accept, receive_data, send_made, send_event_of, send_data, iter_data, text_or_empty,
  yield_then, text, binary, str, bytes, Method, accepts, closes, receives, iterates, sends,
  receives_event, sends_message, perform, perform_all,
}
use starlite.WebSocket.Order.{in_order, InOrder, after_accept, after_close}
use starlite.WebSocket.Closed.{socket}
use starlite.WebSocket.Direct.{
  IsAllowed, AreAllowed, sending, receives_event-InOrder, sends_message-InOrder,
}

accept-InOrder :
    (codec : Codec) (subprotocols : Option Text) (headers : AcceptHeaders) (state : ConnectionState)
    (events : List ReceiveMessage) (sent : List Message)
    → InOrder (socket state events sent)
    → InOrder (accept codec subprotocols headers (socket state events sent)).1
unfolding accept
accept-InOrder codec s h init [] sent ordered = ordered
accept-InOrder codec s h init (connect_event ∷ events) sent (ordered, fresh) =
    after_accept sent ordered s (raw_headers codec h) fresh
accept-InOrder codec s h init (receive_event t b ∷ events) sent (ordered, fresh) =
    after_accept sent ordered s (raw_headers codec h) fresh
accept-InOrder codec s h init (disconnect_event c ∷ events) sent (ordered, fresh) = (ordered, tt)
accept-InOrder codec s h init (other_event ∷ events) sent (ordered, fresh) = (ordered, tt)
accept-InOrder codec s h connect events sent ordered = ordered
accept-InOrder codec s h receive events sent ordered = ordered
accept-InOrder codec s h disconnect events sent ordered = ordered

receive_data-InOrder :
    (codec : Codec) (mode : WebSocketMode) (state : ConnectionState) (events : List ReceiveMessage)
    (sent : List Message)
    → InOrder (socket state events sent)
    → InOrder (receive_data codec mode (socket state events sent)).1
unfolding receive_data
receive_data-InOrder codec mode init [] sent ordered = ordered
receive_data-InOrder codec mode init (connect_event ∷ events) sent (ordered, fresh) =
    receive_data-InOrder codec mode connect events (sent ++ accept_event none [] ∷ [])
      (after_accept sent ordered none [] fresh)
receive_data-InOrder codec mode init (receive_event t b ∷ events) sent (ordered, fresh) =
    receive_data-InOrder codec mode receive events (sent ++ accept_event none [] ∷ [])
      (after_accept sent ordered none [] fresh)
receive_data-InOrder codec mode init (disconnect_event c ∷ events) sent (ordered, fresh) =
    (ordered, tt)
receive_data-InOrder codec mode init (other_event ∷ events) sent (ordered, fresh) = (ordered, tt)
receive_data-InOrder codec mode connect [] sent ordered = ordered
receive_data-InOrder codec mode connect (connect_event ∷ events) sent ordered = ordered
receive_data-InOrder codec mode connect (receive_event t b ∷ events) sent ordered = ordered
receive_data-InOrder codec mode connect (disconnect_event c ∷ events) sent (ordered, _) =
    (ordered, tt)
receive_data-InOrder codec mode connect (other_event ∷ events) sent (ordered, _) = (ordered, tt)
receive_data-InOrder codec mode receive [] sent ordered = ordered
receive_data-InOrder codec mode receive (connect_event ∷ events) sent ordered = ordered
receive_data-InOrder codec mode receive (receive_event t b ∷ events) sent ordered = ordered
receive_data-InOrder codec mode receive (disconnect_event c ∷ events) sent (ordered, _) =
    (ordered, tt)
receive_data-InOrder codec mode receive (other_event ∷ events) sent (ordered, _) = (ordered, tt)
receive_data-InOrder codec mode disconnect events sent ordered = ordered

send_event_of-cases :
    (codec : Codec) (mode : WebSocketMode) (value : Data)
    → ((t b : Option Text) × (send_event_of codec mode value ≡ returned (send_event t b)))
      ⊎ (send_event_of codec mode value ≡ unicode_error)
send_event_of-cases codec text (str t) = inl (some t, none, refl)
send_event_of-cases codec binary (bytes b) = inl (none, some b, refl)
send_event_of-cases codec text (bytes b) = elim (Option-cases (codec.decode b)) [
  | inl e ↦ inr (rw e refl)
  | inr (t, e) ↦ inl (some t, none, rw e refl)
]
send_event_of-cases codec binary (str t) = elim (Option-cases (codec.encode t)) [
  | inl e ↦ inr (rw e refl)
  | inr (b, e) ↦ inl (none, some b, rw e refl)
]

send_made-InOrder :
    (codec : Codec) (mode : WebSocketMode) (value : Data) (state : ConnectionState)
    (events : List ReceiveMessage) (sent : List Message)
    → state ≢ init
    → InOrder (socket state events sent)
    → InOrder (send_made (send_event_of codec mode value) (socket state events sent)).1
unfolding send_data
send_made-InOrder codec mode value state events sent started ordered =
    elim (send_event_of-cases codec mode value) [
      | inr e ↦ rw e ordered
      | inl (t, b, e) ↦ rw e (sending sent t b state events started ordered)
    ]

send_data-InOrder :
    (codec : Codec) (value : Data) (mode : WebSocketMode) (state : ConnectionState)
    (events : List ReceiveMessage) (sent : List Message)
    → InOrder (socket state events sent)
    → InOrder (send_data codec value mode (socket state events sent)).1
unfolding send_data
send_data-InOrder codec value mode init [] sent ordered = ordered
send_data-InOrder codec value mode init (connect_event ∷ events) sent (ordered, fresh) =
    send_made-InOrder codec mode value connect events (sent ++ accept_event none [] ∷ []) (cc)
      (after_accept sent ordered none [] fresh)
send_data-InOrder codec value mode init (receive_event t b ∷ events) sent (ordered, fresh) =
    send_made-InOrder codec mode value receive events (sent ++ accept_event none [] ∷ []) (cc)
      (after_accept sent ordered none [] fresh)
send_data-InOrder codec value mode init (disconnect_event c ∷ events) sent (ordered, fresh) =
    (ordered, tt)
send_data-InOrder codec value mode init (other_event ∷ events) sent (ordered, fresh) = (ordered, tt)
send_data-InOrder codec value mode connect events sent ordered =
    send_made-InOrder codec mode value connect events sent (cc) ordered
send_data-InOrder codec value mode receive events sent ordered =
    send_made-InOrder codec mode value receive events sent (cc) ordered
send_data-InOrder codec value mode disconnect events sent ordered =
    send_made-InOrder codec mode value disconnect events sent (cc) ordered

yield_then-InOrder :
    (rest : WebSocket → List Text × Outcome (Unit {0}) × WebSocket)
    → ((w : WebSocket) → InOrder w → InOrder (rest w).2)
    → (p : Outcome Text × WebSocket) → InOrder p.1
    → InOrder (yield_then rest p).2
yield_then-InOrder rest keeps (returned t, w) ordered = keeps w ordered
yield_then-InOrder rest keeps (disconnected code, w) ordered = ordered
yield_then-InOrder rest keeps (unicode_error, w) ordered = ordered
yield_then-InOrder rest keeps (waiting, w) ordered = ordered

iter_data-InOrder :
    (codec : Codec) (fuel : ℕ) (mode : WebSocketMode) (w : WebSocket)
    → InOrder w
    → InOrder (iter_data codec fuel mode w).2
unfolding iter_data
iter_data-InOrder codec zero mode w ordered = ordered
iter_data-InOrder codec (suc fuel) mode w ordered =
    yield_then-InOrder (iter_data codec fuel mode) (iter_data-InOrder codec fuel mode)
      (receive_data codec mode w)
      (receive_data-InOrder codec mode w.connection_state w.incoming w.sent ordered)

perform-InOrder :
    (codec : Codec) (method : Method) (w : WebSocket)
    → IsAllowed method w
    → InOrder w
    → InOrder (perform codec method w)
unfolding perform
perform-InOrder codec (accepts s h) w _ ordered =
    accept-InOrder codec s h w.connection_state w.incoming w.sent ordered
perform-InOrder codec (closes code reason) w _ (ordered, accepted) =
    after_close w.sent ordered code (text_or_empty reason) w.connection_state w.incoming accepted
perform-InOrder codec (receives mode) w _ ordered =
    receive_data-InOrder codec mode w.connection_state w.incoming w.sent ordered
perform-InOrder codec (iterates fuel mode) w _ ordered = iter_data-InOrder codec fuel mode w ordered
perform-InOrder codec (sends value mode) w _ ordered =
    send_data-InOrder codec value mode w.connection_state w.incoming w.sent ordered
perform-InOrder codec receives_event w allowed ordered =
    receives_event-InOrder codec w allowed ordered
perform-InOrder codec (sends_message message) w allowed ordered =
    sends_message-InOrder codec message w allowed ordered

perform_all-InOrder :
    (codec : Codec) (methods : List Method) (w : WebSocket)
    → AreAllowed codec methods w
    → InOrder w
    → InOrder (perform_all codec methods w)
unfolding perform_all
perform_all-InOrder codec [] w allowed ordered = ordered
perform_all-InOrder codec (method ∷ methods) w (allowed, later) ordered =
    perform_all-InOrder codec methods (perform codec method w) later
      (perform-InOrder codec method w allowed ordered)

-- On a new connection, whatever the server has to receive, and whatever the application calls, in
-- whatever order, of `accept`, `close`, `receive_data`, `send_data`, `iter_data` and the socket's own
-- `receive` and `send`: the socket sends `accept` at most once, and it sends data only after it. The
-- condition is that `receive` is called, and data is given to `send` itself, only once the connection
-- has left its first state, and that `send` is not given an `accept`.
pub in_order-perform_all :
    (codec : Codec) (methods : List Method) (events : List ReceiveMessage)
    → AreAllowed codec methods (new_websocket events)
    → in_order false (perform_all codec methods (new_websocket events)).sent ≡ true
in_order-perform_all codec methods events allowed =
    (perform_all-InOrder codec methods (new_websocket events) allowed (refl, refl)).0
