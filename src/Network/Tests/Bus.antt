-- ===== src/Network/Tests/Bus.antt =====
-- The clients and the dispatcher as a message bus, at a small input.
use up_tck.Base.{
  nat_eq, ◌≡◌, refl, none, List, remove, [], ◌∷◌, string_eq, bytes_eq, contains, ℕ_discrete,
}
use up_tck.Base.Dict.{lookup, insert, erase}
use up_tck.Dispatcher as DispatcherModule
use up_tck.Dispatcher.{World, Dispatcher, receive_from_up_client}
use up_tck.Transport.{dispatch, init, listeners_of}
use up_tck.Transport.Loop.Delivery.{listener_uri}
use up_tck.Network.Bus.{
  Operation, join, leave, subscribe, unsubscribe, transmit, ArePossible, step, replay, empty,
}
use up_tck.Network.System
use up_tck.Network.System.{run}
use up_tck.Network.System.Step.{Refines}
use up_tck.Network.System.Refinement.{run-Refines}
use up_tck.Network.Tests.{message, uprotocol, calm}

-- Two clients: one hears what the other sends while its listener is registered.
abbrev operations : List (Operation uprotocol)
operations =
    join 1
    ∷ join 2
    ∷ subscribe 2 "door" 3
    ∷ transmit 1 (message "opened")
    ∷ unsubscribe 2 "door" 3
    ∷ transmit 1 (message "opened")
    ∷ leave 2
    ∷ []

run-Refines_example :
    Refines uprotocol
      (run uprotocol (λ s m. none) calm operations (System.init uprotocol (λ s m. none) calm))
      (replay uprotocol (λ s m. none) operations (empty uprotocol (λ s m. none)))
unfolding ArePossible step contains ℕ_discrete remove listener_uri
run-Refines_example =
    run-Refines uprotocol (λ s m. none) calm (record { takes = λ s. refl; has_peer = λ s. refl })
      (λ l m. refl) operations
      (
        (refl, refl),
        (
          (refl, refl),
          (
            tt,
            (
              (refl, (7 ∷ [], refl), (1, [], refl, refl)),
              (tt, ((refl, (7 ∷ [], refl), (1, [], refl, refl)), (refl, tt))),
            ),
          ),
        ),
      )

-- What the second client's listener heard.
heard_run :
    (run uprotocol
        (λ s m. none)
        calm
        operations
        (System.init uprotocol (λ s m. none) calm)).transports
      2
    ≡ record init { delivered = (3, message "opened") ∷ [] }
unfolding run insert erase remove contains lookup ℕ_discrete listeners_of System.perform
    receive_from_up_client DispatcherModule.accept_client_conn dispatch bytes_eq
heard_run = refl
