-- ===== src/Dispatcher.antt =====
-- dispatcher/dispatcher.py: the server that floods each message to all connected up-clients.
-- A socket is a number, its identity. What the operating system answers while a callback runs is
-- a `World`: which sends fail and how, which peers `getpeername` still finds, and the order in which
-- CPython walks the set of connected sockets. The log calls matter only through `getpeername`.
pub mod Server
pub mod Flood
pub mod Bounds
pub mod Invariant
pub mod Shutdown
mod Tests
use mathlib.Core.List.{Perm}
use up_tck.Base.{
  ℕ, Bool, true, false, not, ◌&&◌, Option, none, some, List, [], ◌∷◌, ◌++◌, length, contains,
  remove, eqb, if◌then◌else◌, nat_eq,
}
use up_tck.Base.Exec.{
  Exec, Exception, runtime_error, os_error, key_error, connection_aborted_error, Result, ok, raise,
  try_except, ◌>>=◌, ◌>>◌,
}

abbrev pub Bytes : Type 0
Bytes = List ℕ

pub record World : Type 0 where
  -- `none`: `sendall` succeeds; else what it raises.
  pub send_error : ℕ → Option Exception
  -- Whether `getpeername` finds the peer of an open socket (it does not after a reset).
  pub has_peer : ℕ → Bool
  -- The order in which an iteration over the set goes.
  pub iteration : List ℕ → List ℕ
  pub iteration-perm : (xs : List ℕ) → Perm (iteration xs) xs

-- `sent` and `closed` record what the sockets saw; the rest are the object's fields and the keys
-- of its selector.
pub record Dispatcher : Type 0 where
  pub connected_sockets : List ℕ
  pub registered : List ℕ
  pub server_registered : Bool
  pub server_open : Bool
  pub selector_open : Bool
  pub dispatcher_exit : Bool
  pub closed : List ℕ
  pub sent : List (ℕ × Bytes)

abbrev pub init : Dispatcher
init = record {
  connected_sockets = [];
  registered = [];
  server_registered = true;
  server_open = true;
  selector_open = true;
  dispatcher_exit = false;
  closed = [];
  sent = [];
}

-- `socket.getpeername()`, which raises on a closed socket and where the peer is gone.
unfoldable pub getpeername : World → ℕ → Exec Dispatcher Unit
getpeername w s d =
    if not (contains s d.closed) && w.has_peer s then (ok tt, d) else (raise os_error, d)

-- `self.connected_sockets.add(s)`
unfoldable pub add_connected : ℕ → Exec Dispatcher Unit
add_connected s d =
    if contains s d.connected_sockets
    then (ok tt, d)
    else (ok tt, record d { connected_sockets = d.connected_sockets ++ s ∷ [] })

-- `self.connected_sockets.remove(s)`
unfoldable pub remove_connected : ℕ → Exec Dispatcher Unit
remove_connected s d =
    if contains s d.connected_sockets
    then (ok tt, record d { connected_sockets = remove s d.connected_sockets })
    else (raise key_error, d)

-- `self.selector.register(s, …)` and `self.selector.unregister(s)`
unfoldable pub register : ℕ → Exec Dispatcher Unit
register s d =
    if contains s d.registered
    then (raise key_error, d)
    else (ok tt, record d { registered = d.registered ++ s ∷ [] })

unfoldable pub unregister : ℕ → Exec Dispatcher Unit
unregister s d =
    if contains s d.registered
    then (ok tt, record d { registered = remove s d.registered })
    else (raise key_error, d)

-- `s.close()`, which may be repeated.
unfoldable pub close_socket : ℕ → Exec Dispatcher Unit
close_socket s d = (ok tt, record d { closed = s ∷ d.closed })

-- `_close_connected_socket`
unfoldable pub close_connected_socket : World → ℕ → Exec Dispatcher Unit
unfolding getpeername remove_connected unregister close_socket
close_connected_socket w s = do getpeername w s; remove_connected s; unregister s; close_socket s

-- `_accept_client_conn` for the socket that `accept` returns.
unfoldable pub accept_client_conn : World → ℕ → Exec Dispatcher Unit
unfolding getpeername add_connected register
accept_client_conn w s = do getpeername w s; add_connected s; register s

-- The set iterator looks at the set's size before each step, the last one included.
unfoldable pub check_size : ℕ → Exec Dispatcher Unit
check_size used d =
    if eqb (length d.connected_sockets) used then (ok tt, d) else (raise runtime_error, d)

-- One send of the loop, with its `except ConnectionAbortedError`.
unfoldable pub send_or_close : World → Bytes → ℕ → Option Exception → Exec Dispatcher Unit
unfolding close_connected_socket
send_or_close w msg s none d = (ok tt, record d { sent = d.sent ++ (s, msg) ∷ [] })
send_or_close w msg s (some connection_aborted_error) d =
    (getpeername w s >> close_connected_socket w s) d
send_or_close w msg s (some e) d = (raise e, d)

unfoldable pub flood_from : World → Bytes → ℕ → List ℕ → Exec Dispatcher Unit
unfolding check_size send_or_close
flood_from w msg used [] = check_size used
flood_from w msg used (s ∷ rest) =
    check_size used >> (send_or_close w msg s (w.send_error s) >> flood_from w msg used rest)

-- `_flood_to_sockets`
unfoldable pub flood_to_sockets : World → Bytes → Exec Dispatcher Unit
unfolding flood_from
flood_to_sockets w msg d =
    flood_from w msg (length d.connected_sockets) (w.iteration d.connected_sockets) d

-- What `recv` gives: bytes, none of them at the end of the stream, or an exception. A socket that
-- an earlier callback of the same batch has closed raises.
unfoldable pub recv : ℕ → Result Bytes → Exec Dispatcher Bytes
recv s received d = if contains s d.closed then (raise os_error, d) else (received, d)

unfoldable pub handle_data : World → ℕ → Bytes → Exec Dispatcher Unit
unfolding close_connected_socket flood_to_sockets
handle_data w s [] = close_connected_socket w s
handle_data w s (b ∷ bs) = flood_to_sockets w (b ∷ bs)

-- `_receive_from_up_client`
unfoldable pub receive_from_up_client : World → ℕ → Result Bytes → Exec Dispatcher Unit
unfolding recv handle_data close_connected_socket
receive_from_up_client w s received =
    try_except (recv s received >>= handle_data w s) (close_connected_socket w s)
