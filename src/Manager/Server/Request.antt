-- ===== src/Manager/Server/Request.antt =====
-- test_manager/testmanager.py, class TestManager: the listener thread, and the calls of the thread
-- that runs the tests. A call that waits polls a queue while the listener goes on: its `schedule`
-- holds, for each poll that fails, the events that the listener handles before the next one.
pub mod Waiting
pub mod Sends
pub mod Arrival
pub mod Return
pub mod Ended
pub mod Undisturbed
pub mod Sequence
pub mod Onreceive
use up_tck.Base.{
  ℕ, String, Bool, true, false, not, ◌&&◌, Option, none, some, List, [], ◌∷◌, ◌++◌, if◌then◌else◌,
}
use up_tck.Base.Exec.{
  Exec, Exception, Result, ok, raise, pure, throw, lift, gets, modify, ◌>>=◌, ◌>>◌,
}
use up_tck.Json.{Json, str, dict, Fields, field, end, put}
use up_tck.Manager.Database
use up_tck.Manager.Database.{Address}
use up_tck.Manager.Queue
use up_tck.Manager.Server.{
  Bytes, Manager, on_database, on_queues, normalize, accept_client_conn, receive_from_test_agent,
}

-- A ready key of the selector: the server with the socket that `accept` returns, or a test agent
-- with what its `recv` gives.
pub data Event : Type 0 where
  accept : ℕ → Event
  receive : ℕ → Result Bytes → Event

-- `request_json`
unfoldable pub request_json : String → Json → Option Json → String → Fields
request_json action payload none test_id =
    field "data" payload (field "action" (str action) (field "test_id" (str test_id) end))
request_json action payload (some extra) test_id =
    field "data" payload
      (field "action" (str action) (field "test_id" (str test_id) (field "payload" extra end)))

-- `send_socket_data`, where `sendall` may raise.
unfoldable pub send_socket_data : ℕ → Fields → Option Exception → Exec Manager Unit
send_socket_data s msg none m = (ok tt, record m { sent = m.sent ++ (s, msg) ∷ [] })
send_socket_data s msg (some e) m = (raise e, m)

-- `close`. Closing the selector drops what is registered.
unfoldable pub close : Exec Manager Unit
close m = (
  ok tt,
  record m { exit_manager = true; registered = []; selector_open = false; server_open = false },
)

module _ (peername : ℕ → Option Address) (loads : Bytes → Option Json) where
  -- `callback(key.fileobj)`
  unfoldable pub callback : Event → Exec Manager Unit
  callback (accept s) = accept_client_conn peername loads s
  callback (receive s received) = receive_from_test_agent peername loads s received

  unfoldable pub run_callbacks : List Event → Exec Manager Unit
  unfolding callback
  run_callbacks [] = pure tt
  run_callbacks (event ∷ events) = callback event >> run_callbacks events

  abbrev outcome : Result (Unit {0}) × Manager → Manager
  outcome (ok a, m) = m
  outcome (raise e, m) = record m { listening = false }

  -- A round of `listen_for_incoming_events`. An exception that a callback lets out ends the thread.
  unfoldable pub listen : List Event → Manager → Manager
  unfolding run_callbacks
  listen events m =
      if m.listening && not m.exit_manager then outcome (run_callbacks events m) else m

  -- `while not …contains(key, inner_key, value): pass`: true when the test holds at last, false when
  -- it never does in this schedule.
  unfoldable pub wait_for : String → String → String → List (List Event) → Exec Manager Bool
  unfolding listen
  wait_for key inner value [] = on_queues (Queue.contains key inner value)
  wait_for key inner value (events ∷ schedule) = do
    seen ← on_queues (Queue.contains key inner value)
    if seen then pure true else (modify (listen events) >> wait_for key inner value schedule)

  -- `none`: the call has not returned by the end of the schedule.
  unfoldable pub take_response : String → Bool → Exec Manager (Option Fields)
  take_response key false = pure none
  take_response key true = do response ← on_queues (Queue.popleft key); pure (some response)

  -- The part of `request` behind the send.
  unfoldable pub await_response :
      String → String → String → List (List Event) → Exec Manager (Option Fields)
  unfolding wait_for take_response
  await_response key inner value schedule = do
    seen ← wait_for key inner value schedule
    take_response key seen

  -- `request`, for the `test_id` that `uuid4` gives.
  unfoldable pub request :
      String
      → String
      → Json
      → Option Json
      → String
      → Option Exception
      → List (List Event)
      → Exec Manager (Option Fields)
  unfolding await_response request_json send_socket_data
  request name action payload extra test_id send_error schedule = do
    s ← on_database (Database.get_by_name (normalize name))
    send_socket_data s (request_json action payload extra test_id) send_error
    await_response action "test_id" test_id schedule

  -- `get_onreceive`
  unfoldable pub get_onreceive : String → List (List Event) → Exec Manager (Option Fields)
  unfolding await_response
  get_onreceive name schedule = await_response "onreceive" "ue" name schedule
