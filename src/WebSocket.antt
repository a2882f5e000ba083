-- ===== src/WebSocket.antt =====
-- connection/websocket.py: the states of a WebSocket connection, and what its methods take from the
-- server and give to it. `incoming` holds the events that the server still has for `receive`, in
-- order, and `sent` what `send` was given; where `receive` has to wait for ever, the outcome is
-- `waiting`.
pub mod Closed
pub mod Direct
pub mod Handshake
pub mod Iterating
pub mod Order
mod Tests
use starlite.Prelude.{
  ℕ, zero, suc, Bool, true, false, Option, none, some, List, [], ◌∷◌, ◌++◌, if◌then◌else◌,
}
use starlite.Prelude.Text.{Text}

pub data ConnectionState : Type 0 where
  init connect receive disconnect : ConnectionState

-- What `receive` returns. `other_event` is of any other type.
pub data ReceiveMessage : Type 0 where
  connect_event : ReceiveMessage
  receive_event : Option Text → Option Text → ReceiveMessage
  disconnect_event : ℕ → ReceiveMessage
  other_event : ReceiveMessage

pub data Message : Type 0 where
  accept_event : Option Text → List (Text × Text) → Message
  send_event : Option Text → Option Text → Message
  close_event : ℕ → Text → Message

-- What a coroutine comes to: `disconnected` raises `WebSocketDisconnect`, with its code, and
-- `unicode_error` is raised by an encoding.
pub data Outcome (A : Type 0) : Type 0 where
  returned : A → Outcome A
  disconnected : ℕ → Outcome A
  unicode_error : Outcome A
  waiting : Outcome A

pub record WebSocket : Type 0 where
  pub connection_state : ConnectionState
  pub incoming : List ReceiveMessage
  pub sent : List Message

abbrev pub new_websocket : List ReceiveMessage → WebSocket
new_websocket events = record { connection_state = init; incoming = events; sent = [] }

abbrev pub M : Type 0 → Type 0
M A = WebSocket → Outcome A × WebSocket

abbrev pub pass_on : {A B : Type 0} → (A → M B) → Outcome A × WebSocket → Outcome B × WebSocket
pass_on next (returned a, w) = next a w
pass_on next (disconnected code, w) = (disconnected code, w)
pass_on next (unicode_error, w) = (unicode_error, w)
pass_on next (waiting, w) = (waiting, w)

infixl 5 ◌>>=◌ ◌>>◌
abbrev pub ◌>>=◌ : {A B : Type 0} → M A → (A → M B) → M B
(m >>= next) w = pass_on next (m w)

abbrev pub ◌>>◌ : {B : Type 0} → M (Unit {0}) → M B → M B
m >> next = m >>= λ _. next

abbrev pub give : {A : Type 0} → A → M A
give a w = (returned a, w)

abbrev pub ws_1000_normal_closure : ℕ
ws_1000_normal_closure = 1000

abbrev pub state_after : ReceiveMessage → ConnectionState
state_after connect_event = connect
state_after (receive_event text bytes) = receive
state_after (disconnect_event code) = disconnect
state_after other_event = disconnect

abbrev pub take_event : List ReceiveMessage → M ReceiveMessage
take_event [] w = (waiting, w)
take_event (message ∷ rest) w =
    (returned message, record w { connection_state = state_after message; incoming = rest })

-- `wrapped_receive`
abbrev pub receive_in : ConnectionState → M ReceiveMessage
receive_in disconnect w = (disconnected ws_1000_normal_closure, w)
receive_in init w = take_event w.incoming w
receive_in connect w = take_event w.incoming w
receive_in receive w = take_event w.incoming w

unfoldable pub wrapped_receive : M ReceiveMessage
wrapped_receive w = receive_in w.connection_state w

-- `wrapped_send`
abbrev pub send_in : ConnectionState → Message → M (Unit {0})
send_in disconnect message w = (disconnected ws_1000_normal_closure, w)
send_in init message w = (returned tt, record w { sent = w.sent ++ message ∷ [] })
send_in connect message w = (returned tt, record w { sent = w.sent ++ message ∷ [] })
send_in receive message w = (returned tt, record w { sent = w.sent ++ message ∷ [] })

unfoldable pub wrapped_send : Message → M (Unit {0})
wrapped_send message w = send_in w.connection_state message w

-- The `headers` of `accept`: absent, a header list, or a dictionary or `Headers` object
pub data AcceptHeaders : Type 0 where
  no_headers : AcceptHeaders
  header_list : List (Text × Text) → AcceptHeaders
  header_mapping : List (Text × Text) → AcceptHeaders

pub data Data : Type 0 where
  str bytes : Text → Data

pub data WebSocketMode : Type 0 where
  text binary : WebSocketMode

-- `Headers(...).to_header_list()`, `str.encode` and `bytes.decode`
pub record Codec : Type 0 where
  pub to_header_list : List (Text × Text) → List (Text × Text)
  pub encode : Text → Option Text
  pub decode : Text → Option Text

abbrev pub raw_headers : Codec → AcceptHeaders → List (Text × Text)
raw_headers codec no_headers = []
raw_headers codec (header_list headers) = headers
raw_headers codec (header_mapping headers) = codec.to_header_list headers

abbrev pub accept_in : ConnectionState → Message → M (Unit {0})
unfolding wrapped_receive wrapped_send
accept_in init event = wrapped_receive >>= λ _. wrapped_send event
accept_in connect event = give tt
accept_in receive event = give tt
accept_in disconnect event = give tt

unfoldable pub accept : Codec → Option Text → AcceptHeaders → M (Unit {0})
unfolding wrapped_receive wrapped_send
accept codec subprotocols headers w =
    accept_in w.connection_state (accept_event subprotocols (raw_headers codec headers)) w

abbrev pub text_or_empty : Option Text → Text
text_or_empty none = []
text_or_empty (some t) = t

unfoldable pub close : ℕ → Option Text → M (Unit {0})
unfolding wrapped_send
close code reason = wrapped_send (close_event code (text_or_empty reason))

-- `if self.connection_state == "init": await self.accept()`
unfoldable pub accept_if_init : Codec → M (Unit {0})
unfolding accept
accept_if_init codec w = accept codec none no_headers w

-- `event.get("text") or ""`, and the same of the bytes
abbrev pub data_of : WebSocketMode → ReceiveMessage → Text
data_of mode connect_event = []
data_of text (receive_event t b) = text_or_empty t
data_of binary (receive_event t b) = text_or_empty b
data_of mode (disconnect_event code) = []
data_of mode other_event = []

abbrev pub data_or_raise : WebSocketMode → ReceiveMessage → M Text
data_or_raise mode (disconnect_event code) w = (disconnected code, w)
data_or_raise mode connect_event w = (returned (data_of mode connect_event), w)
data_or_raise mode (receive_event t b) w = (returned (data_of mode (receive_event t b)), w)
data_or_raise mode other_event w = (returned (data_of mode other_event), w)

unfoldable pub receive_data : Codec → WebSocketMode → M Text
unfolding accept_if_init wrapped_receive
receive_data codec mode = accept_if_init codec >> wrapped_receive >>= data_or_raise mode

abbrev pub encoded_as : (Text → Message) → Option Text → Outcome Message
encoded_as event none = unicode_error
encoded_as event (some t) = returned (event t)

abbrev pub send_event_of : Codec → WebSocketMode → Data → Outcome Message
send_event_of codec binary (bytes b) = returned (send_event none (some b))
send_event_of codec binary (str t) = encoded_as (λ b. send_event none (some b)) (codec.encode t)
send_event_of codec text (str t) = returned (send_event (some t) none)
send_event_of codec text (bytes b) = encoded_as (λ t. send_event (some t) none) (codec.decode b)

abbrev pub send_made : Outcome Message → M (Unit {0})
unfolding wrapped_send
send_made event w = pass_on wrapped_send (event, w)

unfoldable pub send_data : Codec → Data → WebSocketMode → M (Unit {0})
unfolding accept_if_init wrapped_send
send_data codec value mode = accept_if_init codec >> send_made (send_event_of codec mode value)

-- The data that `iter_data` yields, what it comes to, and the socket after it. `WebSocketDisconnect`
-- ends the generator. It takes one event for each step; the fuel is for the events.
abbrev pub yield_then :
    (WebSocket → List Text × Outcome (Unit {0}) × WebSocket)
    → Outcome Text × WebSocket
    → List Text × Outcome (Unit {0}) × WebSocket
yield_then rest (returned t, w) = let (ts, outcome, w') = rest w in (t ∷ ts, outcome, w')
yield_then rest (disconnected code, w) = ([], returned tt, w)
yield_then rest (unicode_error, w) = ([], unicode_error, w)
yield_then rest (waiting, w) = ([], waiting, w)

unfoldable pub iter_data :
    Codec → ℕ → WebSocketMode → WebSocket → List Text × Outcome (Unit {0}) × WebSocket
unfolding receive_data
iter_data codec zero mode w = ([], waiting, w)
iter_data codec (suc fuel) mode w =
    yield_then (iter_data codec fuel mode) (receive_data codec mode w)

unfoldable pub receive_text : Codec → M Text
unfolding receive_data
receive_text codec = receive_data codec text

unfoldable pub receive_bytes : Codec → M Text
unfolding receive_data
receive_bytes codec = receive_data codec binary

unfoldable pub send_text : Codec → Data → M (Unit {0})
unfolding send_data
send_text codec value = send_data codec value text

unfoldable pub send_bytes : Codec → Data → M (Unit {0})
unfolding send_data
send_bytes codec value = send_data codec value binary

-- The methods that an application calls; the last two are the socket's `receive` and `send`.
pub data Method : Type 0 where
  accepts : Option Text → AcceptHeaders → Method
  closes : ℕ → Option Text → Method
  receives : WebSocketMode → Method
  iterates : ℕ → WebSocketMode → Method
  sends : Data → WebSocketMode → Method
  receives_event : Method
  sends_message : Message → Method

unfoldable pub perform : Codec → Method → WebSocket → WebSocket
unfolding accept close receive_data send_data iter_data wrapped_receive wrapped_send
perform codec (accepts subprotocols headers) w = (accept codec subprotocols headers w).1
perform codec (closes code reason) w = (close code reason w).1
perform codec (receives mode) w = (receive_data codec mode w).1
perform codec (iterates fuel mode) w = (iter_data codec fuel mode w).2
perform codec (sends value mode) w = (send_data codec value mode w).1
perform codec receives_event w = (wrapped_receive w).1
perform codec (sends_message message) w = (wrapped_send message w).1

unfoldable pub perform_all : Codec → List Method → WebSocket → WebSocket
unfolding perform
perform_all codec [] w = w
perform_all codec (method ∷ methods) w = perform_all codec methods (perform codec method w)
