-- ===== src/Network/System/Step.antt =====
-- dispatcher/dispatcher.py and up_client_socket/python/socket_transport.py: each operation does to the dispatcher and
-- the transports of its clients what it does to a message bus.
use up_tck.Base.{
  ℕ, ◌≡◌, refl, ap, ◌∙◌, true, Option, none, List, [], ◌∷◌, ◌++◌, arith, contains, remove, nat_eq,
  bytes_eq,
}
use up_tck.Base.Dict.{lookup}
use up_tck.Base.Exec.{Exception, ok}
use up_tck.Dispatcher.{
  World, Dispatcher, accept_client_conn, recv, handle_data, receive_from_up_client,
}
use up_tck.Dispatcher.Invariant.{
  IsValid, IsNew, dropped, accept_client_conn-IsValid, receive_from_up_client-IsValid,
}
use up_tck.Dispatcher.Flood.{close_connected_socket-drops}
use up_tck.Transport as SocketTransport
use up_tck.Transport.{
  Bytes, Uprotocol, Transport, Message, listeners_of, register_listener, unregister_listener, send,
}
use up_tck.Transport.Subscriptions.{
  IsSame, register_listener-replaced, register_listener-IsSame, unregister_listener-replaced,
  unregister_listener-IsSame,
}
use up_tck.Network.Bus.{
  Operation, join, leave, subscribe, unsubscribe, Bus, updated, step, IsPossible,
}
use up_tck.Network.System.{System, perform}
use up_tck.Network.System.Forward.{Agrees}

-- Every send succeeds and every peer is there.
pub record IsCalm (w : World) : Type 0 where
  pub takes : (s : ℕ) → w.send_error s ≡ none
  pub has_peer : (s : ℕ) → w.has_peer s ≡ true

module _ {Uri Uuid Payload : Type 0} (u : Uprotocol Uri Uuid Payload) where
  -- The dispatcher has the clients of the bus and nothing left to forward, and the transport of each
  -- socket has the listeners of the bus and has called what the bus says they heard.
  pub record Refines (sys : System u) (bus : Bus u) : Type 0 where
    pub valid : IsValid sys.dispatcher
    pub clients : sys.dispatcher.connected_sockets ≡ bus.clients
    pub gone : sys.dispatcher.closed ≡ bus.gone
    pub idle : sys.dispatcher.sent ≡ []
    pub agrees : (t : ℕ) → Agrees (bus.subscribers t) (bus.heard t) (sys.transports t)

  -- What holds of one place and of all others holds after an update there.
  updated-Agrees :
      (s : ℕ) (a : Transport (Message u)) (ts : ℕ → Transport (Message u)) (new : Bytes → List ℕ)
      (subs : ℕ → Bytes → List ℕ) (new_heard : List (ℕ × Message u))
      (heard : ℕ → List (ℕ × Message u))
      → Agrees new new_heard a
      → ((t : ℕ) → Agrees (subs t) (heard t) (ts t))
      → (t : ℕ) → Agrees (updated s new subs t) (updated s new_heard heard t) (updated s a ts t)
  updated-Agrees s a ts new subs new_heard heard there others t = ground (arith, there, others t)

module _ (w : World) (calm : IsCalm w) (s : ℕ) (d : Dispatcher) (v : IsValid d) where
  joined :
      IsNew s d
      → accept_client_conn w s d ≡ (
        ok tt,
        record d {
          connected_sockets = d.connected_sockets ++ s ∷ [];
          registered = d.registered ++ s ∷ [];
        },
      )
  unfolding accept_client_conn
  joined new = ground (arith, new.0, new.1, v.watched, calm.has_peer s)

  left :
      contains s d.connected_sockets ≡ true
      → receive_from_up_client w s (ok []) d ≡ (ok tt, dropped d s)
  unfolding receive_from_up_client recv handle_data
  left h = rw (v.live s h) (rw (close_connected_socket-drops w s d v h (calm.has_peer s)) refl)

module _ {Uri Uuid Payload : Type 0} (u : Uprotocol Uri Uuid Payload)
    (on_receive : ℕ → Message u → Option Exception) (w : World) (calm : IsCalm w) (sys : System u)
    (bus : Bus u) (r : Refines u sys bus) where
  -- An operation, on both sides.
  abbrev pub StepRefines : Operation u → Type 0
  StepRefines op = Refines u (perform u on_receive w op sys) (step u on_receive op bus)

  pub join-Refines : (s : ℕ) → IsPossible u on_receive (join s) bus → StepRefines (join s)
  unfolding perform step listeners_of lookup
  join-Refines s (new, fresh) =
      let is_new : IsNew s sys.dispatcher = (rw r.clients new, rw r.gone fresh) in
      let valid = accept_client_conn-IsValid w s sys.dispatcher r.valid is_new in
      rw (joined w calm s sys.dispatcher r.valid is_new) (record {
        valid = rw (joined w calm s sys.dispatcher r.valid is_new) at valid;
        clients = rw r.clients refl;
        gone = r.gone;
        idle = r.idle;
        agrees =
            updated-Agrees u s SocketTransport.init sys.transports (λ uri. []) bus.subscribers []
              bus.heard (record { subscribed = λ uri. refl; called = refl; is_open = refl })
              r.agrees;
      })

  pub leave-Refines : (s : ℕ) → IsPossible u on_receive (leave s) bus → StepRefines (leave s)
  unfolding perform step
  leave-Refines s there =
      let connected = ap (contains s) r.clients ∙ there in
      let valid = receive_from_up_client-IsValid w s (ok []) sys.dispatcher r.valid in
      rw (left w calm s sys.dispatcher r.valid connected) (record {
        valid = rw (left w calm s sys.dispatcher r.valid connected) at valid;
        clients = ap (remove s) r.clients;
        gone = ap (λ xs. s ∷ xs) r.gone;
        idle = r.idle;
        agrees = r.agrees;
      })

  -- One transport changes its listeners and calls none.
  changed-Agrees :
      (s : ℕ) (after : Transport (Message u)) (new : Bytes → List ℕ)
      → IsSame (sys.transports s) after
      → ((uri : Bytes) → listeners_of uri after ≡ new uri)
      → (t : ℕ)
      → Agrees (updated s new bus.subscribers t) (bus.heard t) (updated s after sys.transports t)
  changed-Agrees s after new same listeners t =
      let there : Agrees new (bus.heard s) after = record {
        subscribed = listeners;
        called = same.delivered ∙ (r.agrees s).called;
        is_open = same.socket_open ∙ (r.agrees s).is_open;
      } in
      ground (arith, there, r.agrees t)

  -- An operation that leaves the dispatcher alone.
  changed-Refines :
      (s : ℕ) (after : Transport (Message u)) (new : Bytes → List ℕ)
      → IsSame (sys.transports s) after
      → ((uri : Bytes) → listeners_of uri after ≡ new uri)
      → Refines u
          (record sys { transports = updated s after sys.transports })
          (record bus { subscribers = updated s new bus.subscribers })
  changed-Refines s after new same listeners = record {
    valid = r.valid;
    clients = r.clients;
    gone = r.gone;
    idle = r.idle;
    agrees = changed-Agrees s after new same listeners;
  }

  pub subscribe-Refines : (s : ℕ) (topic : Uri) (l : ℕ) → StepRefines (subscribe s topic l)
  unfolding perform step
  subscribe-Refines s topic l =
      let t = sys.transports s in
      changed-Refines s (register_listener u topic l t).1 _ (register_listener-IsSame u t topic l)
        (λ uri.
          register_listener-replaced u t topic l uri
          ∙ rw ((r.agrees s).subscribed (u.uri_bytes topic), (r.agrees s).subscribed uri) refl)

  pub unsubscribe-Refines : (s : ℕ) (topic : Uri) (l : ℕ) → StepRefines (unsubscribe s topic l)
  unfolding perform step
  unsubscribe-Refines s topic l =
      let t = sys.transports s in
      changed-Refines s (unregister_listener u topic l t).1 _
        (unregister_listener-IsSame u t topic l)
        (λ uri.
          unregister_listener-replaced u t topic l uri
          ∙ rw ((r.agrees s).subscribed (u.uri_bytes topic), (r.agrees s).subscribed uri) refl)
