-- ===== src/Network/System/Forward.antt =====
-- dispatcher/dispatcher.py and up_client_socket/python/socket_transport.py: a message at every transport once the
-- dispatcher has sent it to all of them.
use up_tck.Base.{
  ℕ, ◌≡◌, refl, sym, ap, subst, ◌∙◌, true, Option, none, some, List, [], ◌∷◌, ◌++◌, map, arith,
  contains, IsSetList, nat_eq, bytes_eq, if◌then◌else◌,
}
use up_tck.Base.Exec.{Exception, ok}
use up_tck.Dispatcher.Flood.{copies}
use up_tck.Transport.{Bytes, Uprotocol, Transport, Message, listeners_of, send}
use up_tck.Transport.Loop.{listen_round}
use up_tck.Transport.Loop.Delivery.{listener_uri, Accept, listen_round-delivers}
use up_tck.Network.Bus.{updated}
use up_tck.Network.System.{receive_chunk, deliver}

-- A transport with these listeners under each URI, after these calls, whose thread reads.
pub record Agrees {M : Type 0} (subscribers : Bytes → List ℕ) (heard : List (ℕ × M))
    (t : Transport M) : Type 0 where
  pub subscribed : (uri : Bytes) → listeners_of uri t ≡ subscribers uri
  pub called : t.delivered ≡ heard
  pub is_open : t.socket_open ≡ true

module _ {Uri Uuid Payload : Type 0} (u : Uprotocol Uri Uuid Payload)
    (on_receive : ℕ → Message u → Option Exception) where
  -- A chunk for each of some different sockets reaches the transport of each once.
  pub deliver-copies :
      (chunk : Bytes) (order : List ℕ) (ts : ℕ → Transport (Message u)) (t : ℕ)
      → IsSetList order
      → deliver u on_receive (copies chunk order) ts t
        ≡ (if contains t order then receive_chunk u on_receive chunk (ts t) else ts t)
  unfolding deliver contains
  deliver-copies chunk [] ts t h = refl
  deliver-copies chunk (s ∷ order) ts t (h, hs) = ground (
    arith,
    deliver-copies chunk order (updated s (receive_chunk u on_receive chunk (ts s)) ts) t hs,
  )

  pub send-Agrees :
      (subscribers : Bytes → List ℕ) (heard : List (ℕ × Message u)) (msg : Message u)
      (t : Transport (Message u))
      → Agrees subscribers heard t
      → Agrees subscribers heard (send u msg none t).1
  unfolding send listeners_of
  send-Agrees subscribers heard msg t a = record {
    subscribed = a.subscribed;
    called = a.called;
    is_open = a.is_open;
  }

  Accept-all :
      (msg : Message u) (ls : List ℕ)
      → ((l : ℕ) → on_receive l msg ≡ none)
      → Accept u on_receive msg ls
  Accept-all msg [] takes = tt
  Accept-all msg (l ∷ ls) takes = (takes l, Accept-all msg ls takes)

  receive_chunk-open :
      (chunk : Bytes) (t : Transport (Message u))
      → t.socket_open ≡ true
      → receive_chunk u on_receive chunk t ≡ (listen_round u on_receive (ok chunk) t).1
  unfolding receive_chunk
  receive_chunk-open chunk t h = ground (arith, h)

  -- A message at a transport: its URI's listeners are called, and all is as it was otherwise.
  pub receive_chunk-Agrees :
      (subscribers : Bytes → List ℕ) (heard : List (ℕ × Message u)) (msg : Message u)
      (t : Transport (Message u)) (b : ℕ) (bs uri : Bytes)
      → ((l : ℕ) → on_receive l msg ≡ none)
      → u.parse (b ∷ bs) ≡ some msg
      → listener_uri u on_receive msg msg.kind ≡ some uri
      → Agrees subscribers heard t
      → Agrees subscribers
          (heard ++ map (λ l. (l, msg)) (subscribers uri))
          (receive_chunk u on_receive (b ∷ bs) t)
  unfolding listeners_of
  receive_chunk-Agrees subscribers heard msg t b bs uri takes parsed named a =
      let ls = listeners_of uri t in
      let called =
        receive_chunk-open (b ∷ bs) t a.is_open
        ∙ ap (λ p. p.1)
            (listen_round-delivers u on_receive msg t b bs parsed uri named
              (Accept-all msg ls takes)) in
      subst (Agrees subscribers (heard ++ map (λ l. (l, msg)) (subscribers uri))) (sym called)
        (record {
          subscribed = a.subscribed;
          called = rw a.called (ap (λ xs. heard ++ map (λ l. (l, msg)) xs) (a.subscribed uri));
          is_open = a.is_open;
        })
