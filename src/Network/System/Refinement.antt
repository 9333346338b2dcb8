-- ===== src/Network/System/Refinement.antt =====
-- dispatcher/dispatcher.py and up_client_socket/python/socket_transport.py: the dispatcher and the transports of its
-- clients are a message bus.
use up_tck.Base.{ℕ, ◌≡◌, refl, Option, none, List, [], ◌∷◌}
use up_tck.Base.Dict.{lookup}
use up_tck.Base.Exec.{Exception}
use up_tck.Dispatcher.{World}
use up_tck.Dispatcher.Invariant.{init-IsValid}
use up_tck.Transport.{Uprotocol, Message, listeners_of}
use up_tck.Network.Bus.{
  Operation, join, leave, subscribe, unsubscribe, transmit, Bus, empty, step, replay, IsPossible,
  ArePossible,
}
use up_tck.Network.System.{System, init, perform, run}
use up_tck.Network.System.Step.{
  IsCalm, Refines, join-Refines, leave-Refines, subscribe-Refines, unsubscribe-Refines,
}
use up_tck.Network.System.Transmit.{transmit-Refines}

module _ {Uri Uuid Payload : Type 0} (u : Uprotocol Uri Uuid Payload)
    (on_receive : ℕ → Message u → Option Exception) (w : World) (calm : IsCalm w)
    (quiet : (l : ℕ) (msg : Message u) → on_receive l msg ≡ none) where
  init-Refines : Refines u (init u on_receive w) (empty u on_receive)
  unfolding listeners_of lookup
  init-Refines = record {
    valid = init-IsValid;
    clients = refl;
    gone = refl;
    idle = refl;
    agrees = λ t. record { subscribed = λ uri. refl; called = refl; is_open = refl };
  }

  perform-Refines :
      (op : Operation u) (sys : System u) (bus : Bus u)
      → Refines u sys bus
      → IsPossible u on_receive op bus
      → Refines u (perform u on_receive w op sys) (step u on_receive op bus)
  perform-Refines (join s) sys bus r p = join-Refines u on_receive w calm sys bus r s p
  perform-Refines (leave s) sys bus r p = leave-Refines u on_receive w calm sys bus r s p
  perform-Refines (subscribe s topic l) sys bus r p =
      subscribe-Refines u on_receive w calm sys bus r s topic l
  perform-Refines (unsubscribe s topic l) sys bus r p =
      unsubscribe-Refines u on_receive w calm sys bus r s topic l
  perform-Refines (transmit s msg) sys bus r (there, (uri, named), (b, bs, serialized, parsed)) =
      transmit-Refines u on_receive w calm sys bus r quiet s msg there uri named b bs serialized
        parsed

  run-from :
      (ops : List (Operation u)) (sys : System u) (bus : Bus u)
      → Refines u sys bus
      → ArePossible u on_receive ops bus
      → Refines u (run u on_receive w ops sys) (replay u on_receive ops bus)
  unfolding run replay ArePossible
  run-from [] sys bus r p = r
  run-from (op ∷ ops) sys bus r (p, ps) =
      run-from ops (perform u on_receive w op sys) (step u on_receive op bus)
        (perform-Refines op sys bus r p) ps

  -- Any sequence of operations of the clients, from the start, where every send succeeds, every peer is there
  -- and no listener raises: clients join on new sockets and leave, they register and unregister
  -- listeners, and they send publish messages and requests, each in one chunk that parses to it. The
  -- dispatcher and the transports end as the message bus that replays the operations: the dispatcher
  -- is valid and has the clients of the bus, and the transport of each has the listeners and has
  -- made the calls of listeners that the bus has for it, in their order.
  pub run-Refines :
      (ops : List (Operation u))
      → ArePossible u on_receive ops (empty u on_receive)
      → Refines u
          (run u on_receive w ops (init u on_receive w))
          (replay u on_receive ops (empty u on_receive))
  run-Refines ops p = run-from ops (init u on_receive w) (empty u on_receive) init-Refines p
