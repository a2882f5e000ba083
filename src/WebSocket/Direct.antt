-- ===== src/WebSocket/Direct.antt =====
-- What an application has to keep to when it calls the `receive` and the `send` that the socket has from
-- its wrappers, and the order of the events that they leave.
use starlite.Prelude.{◌≢◌, refl, Option, List, [], ◌∷◌}
use starlite.Prelude.Text.{Text}
use starlite.WebSocket.{
  ConnectionState, init, connect, receive, disconnect, ReceiveMessage, connect_event, receive_event,
  disconnect_event, other_event, Message, accept_event, send_event, close_event, WebSocket, Codec,
  wrapped_receive, wrapped_send, close, Method, accepts, closes, receives, iterates, sends,
  receives_event, sends_message, perform,
}
use starlite.WebSocket.Order.{InOrder, after_send, after_close}
use starlite.WebSocket.Closed.{socket}

-- `receive` is called, and data is given to `send`, only once the connection has left its first state,
-- and `send` is not given an `accept`; there is no condition on the other methods.
abbrev pub IsAllowed : Method → WebSocket → Type 0
IsAllowed receives_event w = w.connection_state ≢ init
IsAllowed (sends_message (send_event t b)) w = w.connection_state ≢ init
IsAllowed (sends_message (accept_event subprotocol _)) w = ⊥
IsAllowed (sends_message (close_event code reason)) w = Unit
IsAllowed (accepts subprotocols _) w = Unit
IsAllowed (closes code reason) w = Unit
IsAllowed (receives mode) w = Unit
IsAllowed (iterates fuel mode) w = Unit
IsAllowed (sends value mode) w = Unit

-- Each of the methods is called where that is allowed.
abbrev pub AreAllowed : Codec → List Method → WebSocket → Type 0
AreAllowed codec [] w = Unit
AreAllowed codec (method ∷ methods) w =
    IsAllowed method w × AreAllowed codec methods (perform codec method w)

module _ (sent : List Message) where
  pub sending :
      (t b : Option Text) (state : ConnectionState) (events : List ReceiveMessage)
      → state ≢ init
      → InOrder (socket state events sent)
      → InOrder (wrapped_send (send_event t b) (socket state events sent)).1
  unfolding wrapped_send
  sending t b init events started ordered = absurd (started refl)
  sending t b connect events started (ordered, accepted) = after_send sent ordered t b accepted
  sending t b receive events started (ordered, accepted) = after_send sent ordered t b accepted
  sending t b disconnect events started ordered = ordered

  wrapped_receive-InOrder :
      (state : ConnectionState) (events : List ReceiveMessage)
      → state ≢ init
      → InOrder (socket state events sent)
      → InOrder (wrapped_receive (socket state events sent)).1
  unfolding wrapped_receive
  wrapped_receive-InOrder init events started ordered = absurd (started refl)
  wrapped_receive-InOrder disconnect events started ordered = ordered
  wrapped_receive-InOrder connect [] started ordered = ordered
  wrapped_receive-InOrder connect (connect_event ∷ events) started ordered = ordered
  wrapped_receive-InOrder connect (receive_event t b ∷ events) started ordered = ordered
  wrapped_receive-InOrder connect (disconnect_event c ∷ events) started (ordered, _) = (ordered, tt)
  wrapped_receive-InOrder connect (other_event ∷ events) started (ordered, _) = (ordered, tt)
  wrapped_receive-InOrder receive [] started ordered = ordered
  wrapped_receive-InOrder receive (connect_event ∷ events) started ordered = ordered
  wrapped_receive-InOrder receive (receive_event t b ∷ events) started ordered = ordered
  wrapped_receive-InOrder receive (disconnect_event c ∷ events) started (ordered, _) = (ordered, tt)
  wrapped_receive-InOrder receive (other_event ∷ events) started (ordered, _) = (ordered, tt)

pub receives_event-InOrder :
    (codec : Codec) (w : WebSocket)
    → IsAllowed receives_event w
    → InOrder w
    → InOrder (perform codec receives_event w)
unfolding perform
receives_event-InOrder codec w allowed ordered =
    wrapped_receive-InOrder w.sent w.connection_state w.incoming allowed ordered

pub sends_message-InOrder :
    (codec : Codec) (message : Message) (w : WebSocket)
    → IsAllowed (sends_message message) w
    → InOrder w
    → InOrder (perform codec (sends_message message) w)
unfolding perform close
sends_message-InOrder codec (accept_event s h) w allowed ordered = absurd allowed
sends_message-InOrder codec (send_event t b) w allowed ordered =
    sending w.sent t b w.connection_state w.incoming allowed ordered
sends_message-InOrder codec (close_event code reason) w allowed (ordered, accepted) =
    after_close w.sent ordered code reason w.connection_state w.incoming accepted
