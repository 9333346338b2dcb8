-- ===== src/Network/System.antt =====
-- The dispatcher of dispatcher/dispatcher.py and behind each of its sockets the transport of
-- up_client_socket/python/socket_transport.py. A chunk that the dispatcher sends reaches its transport whole, before the
-- next operation.
pub mod Forward
pub mod Step
pub mod Transmit
pub mod Refinement
use up_tck.Base.{ℕ, ◌≡◌, Bool, true, Option, none, some, List, [], ◌∷◌, nat_eq, ◌==◌, if◌then◌else◌}
use up_tck.Base.Exec.{Exception, ok}
use up_tck.Dispatcher as DispatcherModule
use up_tck.Dispatcher.{World, Dispatcher, receive_from_up_client}
use up_tck.Transport as SocketTransport
use up_tck.Transport.{Bytes, Uprotocol, Transport, Message, register_listener, unregister_listener}
use up_tck.Transport.Loop.{listen_round}
use up_tck.Network.Bus.{Operation, join, leave, subscribe, unsubscribe, transmit, updated}

pub record System {Uri Uuid Payload : Type 0} (u : Uprotocol Uri Uuid Payload) : Type 0 where
  pub dispatcher : Dispatcher
  pub transports : ℕ → Transport (Message u)

module _ {Uri Uuid Payload : Type 0} (u : Uprotocol Uri Uuid Payload)
    (on_receive : ℕ → Message u → Option Exception) where
  -- A chunk at a transport, whose thread reads until its socket is closed.
  unfoldable pub receive_chunk : Bytes → Transport (Message u) → Transport (Message u)
  unfolding listen_round
  receive_chunk chunk t = if t.socket_open then (listen_round u on_receive (ok chunk) t).1 else t

  unfoldable pub deliver :
      List (ℕ × Bytes) → (ℕ → Transport (Message u)) → ℕ → Transport (Message u)
  unfolding receive_chunk
  deliver [] ts = ts
  deliver ((s, chunk) ∷ rest) ts = deliver rest (updated s (receive_chunk chunk (ts s)) ts)

  -- What the dispatcher has sent arrives.
  unfoldable pub forward : System u → System u
  unfolding deliver
  forward sys = record {
    dispatcher = record sys.dispatcher { sent = [] };
    transports = deliver sys.dispatcher.sent sys.transports;
  }

  module _ (w : World) where
    abbrev pub init : System u
    init = record { dispatcher = DispatcherModule.init; transports = λ t. SocketTransport.init }

    unfoldable pub perform : Operation u → System u → System u
    unfolding DispatcherModule.accept_client_conn receive_from_up_client register_listener
        unregister_listener SocketTransport.send forward
    perform (join s) sys = record {
      dispatcher = (DispatcherModule.accept_client_conn w s sys.dispatcher).1;
      transports = updated s SocketTransport.init sys.transports;
    }
    perform (leave s) sys = record sys {
      dispatcher = (receive_from_up_client w s (ok []) sys.dispatcher).1;
    }
    perform (subscribe s topic l) sys = record sys {
      transports = updated s (register_listener u topic l (sys.transports s)).1 sys.transports;
    }
    perform (unsubscribe s topic l) sys = record sys {
      transports = updated s (unregister_listener u topic l (sys.transports s)).1 sys.transports;
    }
    perform (transmit s msg) sys = forward (record {
      dispatcher = (receive_from_up_client w s (ok (u.message_bytes msg)) sys.dispatcher).1;
      transports = updated s (SocketTransport.send u msg none (sys.transports s)).1 sys.transports;
    })

    unfoldable pub run : List (Operation u) → System u → System u
    unfolding perform
    run [] sys = sys
    run (op ∷ ops) sys = run ops (perform op sys)
