-- ===== src/Network/System/Transmit.antt =====
-- dispatcher/dispatcher.py and up_client_socket/python/socket_transport.py: a message that a client sends, at the
-- transports of all clients and on a message bus.
use up_tck.Base.{
  ℕ, ◌≡◌, refl, ap, ◌∙◌, true, Option, none, some, List, [], ◌∷◌, ◌++◌, map, arith, contains,
  IsSetList, IsSetList-Perm, contains-Perm, nat_eq, bytes_eq, if◌then◌else◌, Bool-cases, inl, inr,
}
use up_tck.Base.Exec.{Exception, ok}
use up_tck.Dispatcher.{World, receive_from_up_client}
use up_tck.Dispatcher.Flood.{copies, delivered, receive_from_up_client-delivers}
use up_tck.Transport.{Bytes, Uprotocol, Transport, Message, send}
use up_tck.Transport.Loop.Delivery.{listener_uri}
use up_tck.Network.Bus.{transmit, Bus, updated, step}
use up_tck.Network.System.{System, deliver, forward, perform}
use up_tck.Network.System.Forward.{Agrees, deliver-copies, send-Agrees, receive_chunk-Agrees}
use up_tck.Network.System.Step.{IsCalm, Refines, StepRefines}

module _ {Uri Uuid Payload : Type 0} (u : Uprotocol Uri Uuid Payload)
    (on_receive : ℕ → Message u → Option Exception) (w : World) (calm : IsCalm w) (sys : System u)
    (bus : Bus u) (r : Refines u sys bus) where
  module _ (quiet : (l : ℕ) (msg : Message u) → on_receive l msg ≡ none) (s : ℕ)
      (msg : Message u) where
    -- The transports when the sender's has sent the message.
    abbrev sending : ℕ → Transport (Message u)
    sending = updated s (send u msg none (sys.transports s)).1 sys.transports

    sending-Agrees : (t : ℕ) → Agrees (bus.subscribers t) (bus.heard t) (sending t)
    sending-Agrees t =
        let there =
          send-Agrees u on_receive (bus.subscribers s) (bus.heard s) msg (sys.transports s)
            (r.agrees s) in
        ground (arith, there, r.agrees t)

    module _ (there : contains s bus.clients ≡ true) (uri : Bytes)
        (named : listener_uri u on_receive msg msg.kind ≡ some uri) (b : ℕ) (bs : Bytes)
        (serialized : u.message_bytes msg ≡ b ∷ bs) (parsed : u.parse (b ∷ bs) ≡ some msg) where
      arrived-Agrees :
          (order : List ℕ) (t : ℕ)
          → IsSetList order
          → contains t order ≡ contains t bus.clients
          → Agrees
              (bus.subscribers t)
              (if contains t bus.clients
                then bus.heard t ++ map (λ l. (l, msg)) (bus.subscribers t uri)
                else bus.heard t)
              (deliver u on_receive (copies (b ∷ bs) order) sending t)
      arrived-Agrees order t distinct same =
          let reaches =
            receive_chunk-Agrees u on_receive (bus.subscribers t) (bus.heard t) msg (sending t) b bs
              uri (λ l. quiet l msg) parsed named (sending-Agrees t) in
          rw (deliver-copies u on_receive (b ∷ bs) order sending t distinct) (
            rw same (elim (Bool-cases (contains t bus.clients)) [
              | inl client ↦ rw client reaches
              | inr absent ↦ rw absent (sending-Agrees t)
            ]))

      forwarded : List ℕ → System u
      forwarded order = record {
        dispatcher = record sys.dispatcher { sent = [] };
        transports = deliver u on_receive (copies (b ∷ bs) order) sending;
      }

      transmitted :
          (order : List ℕ)
          → receive_from_up_client w s (ok (b ∷ bs)) sys.dispatcher
            ≡ (ok tt, delivered sys.dispatcher (b ∷ bs) order)
          → perform u on_receive w (transmit s msg) sys ≡ forwarded order
      unfolding perform forward forwarded
      transmitted order flooded =
          ap
            (λ chunk. forward u on_receive (record {
              dispatcher = (receive_from_up_client w s (ok chunk) sys.dispatcher).1;
              transports = sending;
            }))
            serialized
          ∙ ap (λ p. forward u on_receive (record { dispatcher = p.1; transports = sending }))
              flooded
          ∙ ap
              (λ xs. record {
                dispatcher = record sys.dispatcher { sent = [] };
                transports = deliver u on_receive (xs ++ copies (b ∷ bs) order) sending;
              })
              r.idle

      pub transmit-Refines : StepRefines u on_receive w calm sys bus r (transmit s msg)
      unfolding step forwarded
      transmit-Refines =
          let d = sys.dispatcher in
          let (order, perm, flooded) =
            receive_from_up_client-delivers w s b bs d r.valid (ap (contains s) r.clients ∙ there)
              (λ t m. calm.takes t) in
          rw (transmitted order flooded) (record {
            valid = record {
              watched = r.valid.watched;
              distinct = r.valid.distinct;
              live = r.valid.live;
            };
            clients = r.clients;
            gone = r.gone;
            idle = refl;
            agrees = λ t. rw named (
                arrived-Agrees order t (IsSetList-Perm perm r.valid.distinct)
                  (contains-Perm perm t ∙ ap (contains t) r.clients));
          })
