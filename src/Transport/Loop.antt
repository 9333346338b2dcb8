-- ===== src/Transport/Loop.antt =====
-- up_client_socket/python/socket_transport.py: `__listen`, the loop of the thread that reads from the
-- dispatcher.
pub mod Delivery
use up_tck.Base.{ℕ, Bool, true, false, Option, none, some, List, [], ◌∷◌, if◌then◌else◌}
use up_tck.Base.Exec.{
  Exec, Exception, os_error, connection_aborted_error, decode_error, Result, ok, raise, ◌>>=◌, ◌>>◌,
}
use up_tck.Transport.{Bytes, Uprotocol, Transport, Message, dispatch}

-- `except socket.error`: OSError and its subclass.
unfoldable pub is_socket_error : Exception → Bool
is_socket_error os_error = true
is_socket_error connection_aborted_error = true
is_socket_error _ = false

module _ {Uri Uuid Payload : Type 0} (u : Uprotocol Uri Uuid Payload)
    (on_receive : ℕ → Message u → Option Exception) where
  unfoldable pub handle_parsed : Option (Message u) → Exec (Transport (Message u)) Unit
  handle_parsed none t = (raise decode_error, t)
  handle_parsed (some msg) t = dispatch u on_receive msg.kind msg t

  unfoldable pub close_socket : Transport (Message u) → Transport (Message u)
  close_socket t = record t { socket_open = false }

  -- The handlers of the `try`: whether the loop goes on, and the state.
  unfoldable pub after_try :
      Result (Unit {0}) → Transport (Message u) → Bool × Transport (Message u)
  unfolding is_socket_error close_socket
  after_try (ok a) t = (true, t)
  after_try (raise e) t = if is_socket_error e then (false, close_socket t) else (true, t)

  -- One round of the loop, with what `recv` gives or raises.
  unfoldable pub listen_round : Result Bytes → Transport (Message u) → Bool × Transport (Message u)
  unfolding after_try handle_parsed
  listen_round (raise e) t = after_try (raise e) t
  listen_round (ok []) t = (false, close_socket t)
  listen_round (ok (b ∷ bs)) t = let (r, t') = handle_parsed (u.parse (b ∷ bs)) t in after_try r t'

  abbrev next_round :
      Bool × Transport (Message u)
      → (Transport (Message u) → Transport (Message u))
      → Transport (Message u)
  next_round (goes_on, t) rest = if goes_on then rest t else t

  -- `__listen`, for what the calls of `recv` give.
  unfoldable pub listen : List (Result Bytes) → Transport (Message u) → Transport (Message u)
  unfolding listen_round
  listen [] t = t
  listen (received ∷ more) t = next_round (listen_round received t) (listen more)
