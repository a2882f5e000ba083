-- ===== src/WebSocket/Closed.antt =====
-- A connection that is disconnected.
use starlite.Prelude.{ℕ, zero, suc, ◌≡◌, refl, sym, none, List, [], ◌∷◌, ◌++◌}
use mathlib.Core.Path.{subst}
use starlite.WebSocket.{
  ConnectionState, init, connect, receive, disconnect, ReceiveMessage, connect_event, receive_event,
  disconnect_event, other_event, Message, accept_event, Outcome, returned, disconnected,
  unicode_error, waiting, send_made, send_event_of, WebSocket, Codec, WebSocketMode, wrapped_send,
  receive_data, Method, accepts, closes, receives, iterates, sends, receives_event, sends_message,
  perform, perform_all,
}

-- A socket that is disconnected, in which no method changes anything.
abbrev pub Silent : Codec → WebSocket → Type 0
Silent codec w = (methods : List Method) → perform_all codec methods w ≡ w

abbrev pub socket : ConnectionState → List ReceiveMessage → List Message → WebSocket
socket state events sent = record { connection_state = state; incoming = events; sent = sent }

send_made_disconnected :
    (event : Outcome Message) (events : List ReceiveMessage) (sent : List Message)
    → (send_made event (socket disconnect events sent)).1 ≡ socket disconnect events sent
unfolding wrapped_send
send_made_disconnected (returned m) events sent = refl
send_made_disconnected (disconnected code) events sent = refl
send_made_disconnected unicode_error events sent = refl
send_made_disconnected waiting events sent = refl

perform_disconnected :
    (codec : Codec) (method : Method) (events : List ReceiveMessage) (sent : List Message)
    → perform codec method (socket disconnect events sent) ≡ socket disconnect events sent
unfolding perform
perform_disconnected codec (accepts s h) events sent = refl
perform_disconnected codec (closes c r) events sent = refl
perform_disconnected codec (receives mode) events sent = refl
perform_disconnected codec (iterates zero mode) events sent = refl
perform_disconnected codec (iterates (suc fuel) mode) events sent = refl
perform_disconnected codec (sends value mode) events sent =
    send_made_disconnected (send_event_of codec mode value) events sent
perform_disconnected codec receives_event events sent = refl
perform_disconnected codec (sends_message message) events sent = refl

pub perform_all_disconnected :
    (codec : Codec) (methods : List Method) (w : WebSocket)
    → w.connection_state ≡ disconnect
    → perform_all codec methods w ≡ w
unfolding perform_all
perform_all_disconnected codec [] w e = refl
perform_all_disconnected codec (method ∷ methods) w e =
    let same : perform codec method w ≡ w =
      subst (λ s. perform codec method (socket s w.incoming w.sent) ≡ socket s w.incoming w.sent)
        (sym e) (perform_disconnected codec method w.incoming w.sent) in
    rw same (perform_all_disconnected codec methods w e)

received-disconnect :
    (codec : Codec) (mode : WebSocketMode) (state : ConnectionState) (events : List ReceiveMessage)
    (sent : List Message) (code : ℕ)
    → (receive_data codec mode (socket state events sent)).0 ≡ disconnected code
    → (receive_data codec mode (socket state events sent)).1.connection_state ≡ disconnect
unfolding receive_data
received-disconnect codec mode init [] sent code h = cc
received-disconnect codec mode init (connect_event ∷ events) sent code h =
    received-disconnect codec mode connect events (sent ++ accept_event none [] ∷ []) code h
received-disconnect codec mode init (receive_event t b ∷ events) sent code h =
    received-disconnect codec mode receive events (sent ++ accept_event none [] ∷ []) code h
received-disconnect codec mode init (disconnect_event c ∷ events) sent code h = refl
received-disconnect codec mode init (other_event ∷ events) sent code h = refl
received-disconnect codec mode connect [] sent code h = cc
received-disconnect codec mode connect (connect_event ∷ events) sent code h = cc
received-disconnect codec mode connect (receive_event t b ∷ events) sent code h = cc
received-disconnect codec mode connect (disconnect_event c ∷ events) sent code h = refl
received-disconnect codec mode connect (other_event ∷ events) sent code h = cc
received-disconnect codec mode receive [] sent code h = cc
received-disconnect codec mode receive (connect_event ∷ events) sent code h = cc
received-disconnect codec mode receive (receive_event t b ∷ events) sent code h = cc
received-disconnect codec mode receive (disconnect_event c ∷ events) sent code h = refl
received-disconnect codec mode receive (other_event ∷ events) sent code h = cc
received-disconnect codec mode disconnect events sent code h = refl

-- Once receiving data has raised `WebSocketDisconnect`, no method of the socket takes an event from
-- the server or sends it anything.
pub receive_data-Silent :
    (codec : Codec) (mode : WebSocketMode) (w : WebSocket) (code : ℕ)
    → (receive_data codec mode w).0 ≡ disconnected code
    → Silent codec (receive_data codec mode w).1
receive_data-Silent codec mode w code h methods =
    perform_all_disconnected codec methods (receive_data codec mode w).1
      (received-disconnect codec mode w.connection_state w.incoming w.sent code h)
