-- ===== src/WebSocket/Order.antt =====
-- What the order of the events that a socket sent has to be, with one event more.
use starlite.Prelude.{
  ℕ, ◌≡◌, refl, Bool, true, false, not, ◌&&◌, ◌||◌, Option, some, List, [], ◌∷◌, ◌++◌, arith,
}
use starlite.Prelude.Text.{Text}
use starlite.WebSocket.{
  ConnectionState, init, connect, receive, disconnect, ReceiveMessage, Message, accept_event,
  send_event, close_event, WebSocket, close,
}
use starlite.WebSocket.Closed.{socket}

-- An `accept` at most once, and data only after it; the flag says that there was one before.
abbrev pub in_order : Bool → List Message → Bool
in_order accepted [] = true
in_order accepted (accept_event subprotocol headers ∷ messages) =
    not accepted && in_order true messages
in_order accepted (send_event t b ∷ messages) = accepted && in_order accepted messages
in_order accepted (close_event code reason ∷ messages) = in_order accepted messages

abbrev pub has_accepted : List Message → Bool
has_accepted [] = false
has_accepted (accept_event subprotocol headers ∷ messages) = true
has_accepted (send_event t b ∷ messages) = has_accepted messages
has_accepted (close_event code reason ∷ messages) = has_accepted messages

in_order-append :
    (accepted : Bool) (messages more : List Message)
    → in_order accepted (messages ++ more)
      ≡ in_order accepted messages && in_order (accepted || has_accepted messages) more
in_order-append true [] more = refl
in_order-append false [] more = refl
in_order-append a (accept_event s h ∷ messages) more =
    ground (arith, in_order-append true messages more)
in_order-append a (send_event t b ∷ messages) more = ground (arith, in_order-append a messages more)
in_order-append a (close_event c r ∷ messages) more =
    ground (arith, in_order-append a messages more)

has_accepted-append :
    (messages more : List Message)
    → has_accepted (messages ++ more) ≡ has_accepted messages || has_accepted more
has_accepted-append [] more = refl
has_accepted-append (accept_event s h ∷ messages) more = refl
has_accepted-append (send_event t b ∷ messages) more = has_accepted-append messages more
has_accepted-append (close_event c r ∷ messages) more = has_accepted-append messages more

-- The state says whether an `accept` was sent.
abbrev pub HasAccepted : ConnectionState → List Message → Type 0
HasAccepted init sent = has_accepted sent ≡ false
HasAccepted connect sent = has_accepted sent ≡ true
HasAccepted receive sent = has_accepted sent ≡ true
HasAccepted disconnect sent = Unit

abbrev pub InOrder : WebSocket → Type 0
InOrder w = (in_order false w.sent ≡ true) × HasAccepted w.connection_state w.sent

module _ (sent : List Message) (ordered : in_order false sent ≡ true) where
  pub after_accept :
      (subprotocol : Option Text) (headers : List (Text × Text))
      → has_accepted sent ≡ false
      → (in_order false (sent ++ accept_event subprotocol headers ∷ []) ≡ true)
        × (has_accepted (sent ++ accept_event subprotocol headers ∷ []) ≡ true)
  after_accept subprotocol headers fresh = ground (
    arith,
    in_order-append false sent (accept_event subprotocol headers ∷ []),
    has_accepted-append sent (accept_event subprotocol headers ∷ []),
  )

  pub after_send :
      (t b : Option Text)
      → has_accepted sent ≡ true
      → (in_order false (sent ++ send_event t b ∷ []) ≡ true)
        × (has_accepted (sent ++ send_event t b ∷ []) ≡ true)
  after_send t b accepted = ground (
    arith,
    in_order-append false sent (send_event t b ∷ []),
    has_accepted-append sent (send_event t b ∷ []),
  )

  pub after_close :
      (code : ℕ) (reason : Text) (state : ConnectionState) (events : List ReceiveMessage)
      → HasAccepted state sent
      → InOrder (close code (some reason) (socket state events sent)).1
  unfolding close
  after_close code reason init events h = ground (
    arith,
    in_order-append false sent (close_event code reason ∷ []),
    has_accepted-append sent (close_event code reason ∷ []),
  )
  after_close code reason connect events h = ground (
    arith,
    in_order-append false sent (close_event code reason ∷ []),
    has_accepted-append sent (close_event code reason ∷ []),
  )
  after_close code reason receive events h = ground (
    arith,
    in_order-append false sent (close_event code reason ∷ []),
    has_accepted-append sent (close_event code reason ∷ []),
  )
  after_close code reason disconnect events h = (ordered, tt)
