-- ===== src/WebSocket/Tests.antt =====
-- A socket at concrete events.
use starlite.Prelude.{◌≡◌, refl, true, false, none, some, List, [], ◌∷◌, arith}
use starlite.Prelude.Text.{codes}
use starlite.WebSocket.{
  ReceiveMessage, connect_event, receive_event, disconnect_event, accept_event, send_event,
  returned, WebSocket, new_websocket, Codec, no_headers, text, binary, str, bytes, receive_data,
  Method, accepts, closes, iterates, sends, receives_event, sends_message, perform, perform_all,
}
use starlite.WebSocket.Order.{in_order}
use starlite.WebSocket.Handshake.{in_order-perform_all}
use starlite.WebSocket.Closed.{Silent, receive_data-Silent}
use starlite.WebSocket.Iterating.{Iterates, iter_data-messages}

-- ASCII text only
abbrev ascii : Codec
ascii = record { to_header_list = λ headers. headers; encode = λ t. some t; decode = λ t. some t }

abbrev chat : List ReceiveMessage
chat =
    connect_event
    ∷ receive_event (some (codes "hi")) none
    ∷ receive_event none (some (codes "b"))
    ∷ disconnect_event 1001
    ∷ []

abbrev greeting : List Method
greeting =
    sends (str (codes "welcome")) text
    ∷ accepts (some (codes "v2")) no_headers
    ∷ receives_event
    ∷ sends_message (send_event none (some (codes "raw")))
    ∷ iterates 9 text
    ∷ closes 1000 none
    ∷ sends (bytes (codes "late")) binary
    ∷ []

greeting_sent :
    (perform_all ascii greeting (new_websocket chat)).sent
    ≡ accept_event none []
      ∷ send_event (some (codes "welcome")) none
      ∷ send_event none (some (codes "raw"))
      ∷ []
unfolding perform_all
greeting_sent = refl

in_order-perform_all_example :
    in_order false (perform_all ascii greeting (new_websocket chat)).sent ≡ true
unfolding perform
in_order-perform_all_example =
    in_order-perform_all ascii greeting chat (tt, (tt, ((cc), ((cc), (tt, (tt, (tt, tt)))))))

-- Receiving an event without `accept` leaves the first state, and data is sent without one.
unaccepted :
    (perform_all ascii
      (receives_event ∷ sends (str (codes "hi")) text ∷ [])
      (new_websocket chat)).sent
    ≡ send_event (some (codes "hi")) none ∷ []
unfolding perform_all
unaccepted = refl

abbrev hung_up : WebSocket
hung_up = new_websocket (connect_event ∷ disconnect_event 1001 ∷ [])

receive_data-Silent_example : Silent ascii (receive_data ascii text hung_up).1
unfolding receive_data
receive_data-Silent_example = receive_data-Silent ascii text hung_up 1001 refl

iter_data-messages_example :
    Iterates ascii 4 text
      (new_websocket chat)
      (codes "hi" ∷ [] ∷ [])
      (returned tt)
      (accept_event none [] ∷ [])
iter_data-messages_example =
    iter_data-messages ascii text
      (receive_event (some (codes "hi")) none
        ∷ receive_event none (some (codes "b"))
        ∷ disconnect_event 1001
        ∷ [])
      4 (omega arith)
