-- ===== src/Network/Bus.antt =====
-- A message bus as the agents of a scenario use it: what dispatcher/dispatcher.py and
-- up_client_socket/python/socket_transport.py promise together, without sockets, chunks and dicts.
use up_tck.Base.{
  ℕ, ◌≡◌, true, false, Option, none, some, List, [], ◌∷◌, ◌++◌, map, contains, remove, nat_eq,
  bytes_eq, ◌==◌, if◌then◌else◌,
}
use up_tck.Base.Exec.{Exception}
use up_tck.Transport.{Bytes, Uprotocol, Message}
use up_tck.Transport.Subscriptions.{replaced}
use up_tck.Transport.Loop.Delivery.{listener_uri}

-- A client joins on a new socket or leaves, it registers or unregisters a listener for a URI, or it
-- sends a message.
pub data Operation {Uri Uuid Payload : Type 0} (u : Uprotocol Uri Uuid Payload) : Type 0 where
  join leave : ℕ → Operation u
  subscribe unsubscribe : ℕ → Uri → ℕ → Operation u
  transmit : ℕ → Message u → Operation u

-- The clients, by their sockets, those that have left, the listeners of each client for each URI, and
-- what the listeners of each client have heard.
pub record Bus {Uri Uuid Payload : Type 0} (u : Uprotocol Uri Uuid Payload) : Type 0 where
  pub clients : List ℕ
  pub gone : List ℕ
  pub subscribers : ℕ → Bytes → List ℕ
  pub heard : ℕ → List (ℕ × Message u)

abbrev pub updated {ℓ} : {A : Type ℓ} → ℕ → A → (ℕ → A) → ℕ → A
updated s a f t = if t == s then a else f t

module _ {Uri Uuid Payload : Type 0} (u : Uprotocol Uri Uuid Payload)
    (on_receive : ℕ → Message u → Option Exception) where
  abbrev pub empty : Bus u
  empty = record { clients = []; gone = []; subscribers = λ t uri. []; heard = λ t. [] }

  -- The listeners among these that a message reaches: those of its URI.
  abbrev pub recipients : Option Bytes → (Bytes → List ℕ) → List ℕ
  recipients none subscribers = []
  recipients (some uri) subscribers = subscribers uri

  -- A message goes to all clients, the sender too, and there to the listeners of its URI in the order of
  -- their registration.
  unfoldable pub step : Operation u → Bus u → Bus u
  unfolding remove contains
  step (join s) bus = record {
    clients = bus.clients ++ s ∷ [];
    gone = bus.gone;
    subscribers = updated s (λ uri. []) bus.subscribers;
    heard = updated s [] bus.heard;
  }
  step (leave s) bus = record bus { clients = remove s bus.clients; gone = s ∷ bus.gone }
  step (subscribe s topic l) bus =
      let uri = u.uri_bytes topic in
      record bus {
        subscribers =
            updated s
              (λ other.
                replaced (u.validate topic) uri (bus.subscribers s uri ++ l ∷ []) other
                  (bus.subscribers s other))
              bus.subscribers;
      }
  step (unsubscribe s topic l) bus =
      let uri = u.uri_bytes topic in
      record bus {
        subscribers =
            updated s
              (λ other.
                replaced (u.validate topic) uri (remove l (bus.subscribers s uri)) other
                  (bus.subscribers s other))
              bus.subscribers;
      }
  step (transmit s msg) bus = record bus {
    heard = λ t.
        if contains t bus.clients
        then bus.heard t
          ++ map (λ l. (l, msg))
              (recipients (listener_uri u on_receive msg msg.kind) (bus.subscribers t))
        else bus.heard t;
  }

  unfoldable pub replay : List (Operation u) → Bus u → Bus u
  unfolding step
  replay [] bus = bus
  replay (op ∷ ops) bus = replay ops (step op bus)

  -- A client that joins comes on a new socket, one that leaves or sends is there, and a message is a
  -- publish message or a request whose bytes are one chunk that parses to it.
  abbrev pub IsPossible : Operation u → Bus u → Type 0
  IsPossible (join s) bus = (contains s bus.clients ≡ false) × (contains s bus.gone ≡ false)
  IsPossible (leave s) bus = contains s bus.clients ≡ true
  IsPossible (subscribe s topic l) bus = Unit
  IsPossible (unsubscribe s topic l) bus = Unit
  IsPossible (transmit s msg) bus =
      (contains s bus.clients ≡ true)
      × ((uri : Bytes) × (listener_uri u on_receive msg msg.kind ≡ some uri))
      × ((b : ℕ) × (bs : Bytes) × (u.message_bytes msg ≡ b ∷ bs) × (u.parse (b ∷ bs) ≡ some msg))

  unfoldable pub ArePossible : List (Operation u) → Bus u → Type 0
  ArePossible [] bus = Unit
  ArePossible (op ∷ ops) bus = IsPossible op bus × ArePossible ops (step op bus)
