-- ===== src/Dispatcher/Server.antt =====
-- dispatcher/dispatcher.py: the event loop `listen_for_client_connections`, and `close`.
use up_tck.Base.{ℕ, true, false, List, [], ◌∷◌, if◌then◌else◌}
use up_tck.Base.Exec.{
  Exec, key_error, Result, ok, raise, pure, gets, modify, try_except, ◌>>=◌, ◌>>◌,
}
use up_tck.Dispatcher.{
  Bytes, World, Dispatcher, accept_client_conn, receive_from_up_client, close_connected_socket,
}

-- A ready key of the selector: the server with the socket that `accept` returns, or a client
-- with what its `recv` gives.
pub data Event : Type 0 where
  accept : ℕ → Event
  receive : ℕ → Result Bytes → Event

-- `callback(key.fileobj)`
unfoldable pub callback : World → Event → Exec Dispatcher Unit
unfolding accept_client_conn receive_from_up_client
callback w (accept s) = accept_client_conn w s
callback w (receive s received) = receive_from_up_client w s received

-- `for key, _ in events`
unfoldable pub run_callbacks : List (World × Event) → Exec Dispatcher Unit
unfolding callback
run_callbacks [] = pure tt
run_callbacks ((w, event) ∷ events) = callback w event >> run_callbacks events

-- `listen_for_client_connections`, for the batches that `select` returns. An exception that a
-- callback lets out ends it.
unfoldable pub listen_for_client_connections : List (List (World × Event)) → Exec Dispatcher Unit
unfolding run_callbacks
listen_for_client_connections [] = pure tt
listen_for_client_connections (events ∷ batches) = do
  stop ← gets (λ d. d.dispatcher_exit)
  if stop then pure tt else (run_callbacks events >> listen_for_client_connections batches)

-- The loop of `close` over a copy of the set.
unfoldable pub close_all : World → List ℕ → Exec Dispatcher Unit
unfolding close_connected_socket
close_all w [] = pure tt
close_all w (s ∷ rest) = close_connected_socket w s >> close_all w rest

-- `self.selector.unregister(self.server)`, and the `try` around it.
unfoldable pub close_server : Exec Dispatcher Unit
close_server d =
    if d.server_registered
    then (ok tt, record d { server_registered = false; server_open = false })
    else (raise key_error, d)

-- `close`
unfoldable pub close : World → Exec Dispatcher Unit
unfolding close_all close_server
close w = do
  modify (λ d. record d { dispatcher_exit = true })
  sockets ← gets (λ d. w.iteration d.connected_sockets)
  close_all w sockets
  try_except close_server (pure tt)
  modify (λ d. record d { selector_open = false })
