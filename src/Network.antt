-- ===== src/Network.antt =====
-- The parts together: test agents with the transport of up_client_socket/python/socket_transport.py, joined by the
-- dispatcher. `Bridge` says how the messages of the uProtocol library, which the agent builds, look to the
-- transport.
pub mod Agents
pub mod Publish
pub mod Rpc
pub mod Bus
pub mod System
mod Tests
use up_tck.Base.{ℕ, String, Option, none, some, List, [], ◌∷◌}
use up_tck.Base.Exec.{Exec, Result, ok, raise, pure, ◌>>=◌}
use up_tck.Agent.{UTransport}
use up_tck.Transport as SocketTransport
use up_tck.Transport.{Uprotocol, Transport, Message, UStatus}

-- `call_of` is the request that the library builds of a method and a payload.
pub record Bridge {Uri Uuid Payload : Type 0} (u : Uprotocol Uri Uuid Payload) (M : Type 0)
    : Type 0 where
  pub uri_of : M → Uri
  pub message_of : M → Message u
  pub call_of : M → M → Message u
  pub of_status : UStatus → M

module _ {Uri Uuid Payload : Type 0} {u : Uprotocol Uri Uuid Payload} {M : Type 0} (b : Bridge u M)
    (send_error : Option String) (listener : ℕ) where
  abbrev with_status : Exec (Transport (Message u)) UStatus → Exec (Transport (Message u)) M
  with_status m = m >>= λ status. pure (b.of_status status)

  -- `transport = SocketUTransport()`, with the agent's `listener`.
  unfoldable pub socket_transport : UTransport (Transport (Message u)) M
  socket_transport = record {
    send = λ m. with_status (SocketTransport.send u (b.message_of m) send_error);
    register_listener =
        λ uri. with_status (SocketTransport.register_listener u (b.uri_of uri) listener);
    unregister_listener =
        λ uri. with_status (SocketTransport.unregister_listener u (b.uri_of uri) listener);
    invoke_method =
        λ uri payload. SocketTransport.invoke_method u (b.call_of uri payload) send_error;
  }
