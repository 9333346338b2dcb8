-- ===== src/Manager/Server/Request/Sends.antt =====
-- test_manager/testmanager.py: what the manager sends. Only `request` sends, the listener never does.
use mathlib.Core.List.{append-nil}
use up_tck.Base.{
  ℕ, String, ◌≡◌, refl, Bool, true, false, Option, none, some, List, [], ◌∷◌, ◌++◌, arith, inl, inr,
  string_eq, nat_eq,
}
use up_tck.Base.Exec.{
  Result, Result-cases, ok, raise, Preserves, bind-Preserves, if-Preserves, lift, modify,
}
use up_tck.Json.{Json, null, boolean, int, str, list, dict, Fields, get, is_str}
use up_tck.Manager.Database
use up_tck.Manager.Database.{Address, found, peer}
use up_tck.Manager.Queue
use up_tck.Manager.Server.{
  Bytes, Manager, on_queues, register, unregister, normalize, strip_id, sdk_name, append_response,
  accept_client_conn, close_by_socket, initialize, process_action, process_receive_message,
  receive_json, receive_bytes, receive_from_test_agent,
}
use up_tck.Manager.Server.Request.{
  Event, accept, receive, request_json, send_socket_data, callback, run_callbacks, outcome, listen,
  wait_for, take_response, await_response, request,
}

-- Nothing has been sent but `xs`.
abbrev HasSent : List (ℕ × Fields) → Manager → Type 0
HasSent xs m = m.sent ≡ xs

-- A message to a socket that was found.
abbrev pub addressed : Result ℕ → Fields → List (ℕ × Fields)
addressed (ok s) msg = (s, msg) ∷ []
addressed (raise e) msg = []

module _ (peername : ℕ → Option Address) (loads : Bytes → Option Json)
    (xs : List (ℕ × Fields)) where
  register-HasSent : (s : ℕ) → Preserves (HasSent xs) (register s)
  unfolding register
  register-HasSent s m h = ground arith

  unregister-HasSent : (s : ℕ) → Preserves (HasSent xs) (unregister s)
  unfolding unregister
  unregister-HasSent s m h = ground arith

  close_by_socket-HasSent : (s : ℕ) → Preserves (HasSent xs) (close_by_socket peername loads s)
  unfolding close_by_socket
  close_by_socket-HasSent s =
      bind-Preserves (HasSent xs) (unregister s) _ (unregister-HasSent s) (λ a m h. h)

  append_response-HasSent :
      (action : Json) (msg : Fields) → Preserves (HasSent xs) (append_response action msg)
  unfolding append_response
  append_response-HasSent (str s) msg m h = h
  append_response-HasSent null msg m h = h
  append_response-HasSent (boolean b) msg m h = h
  append_response-HasSent (int n) msg m h = h
  append_response-HasSent (list items) msg m h = h
  append_response-HasSent (dict d) msg m h = h

  initialize-HasSent :
      (msg : Fields) (s : ℕ) → Preserves (HasSent xs) (initialize peername loads msg s)
  unfolding initialize
  initialize-HasSent msg s =
      bind-Preserves (HasSent xs) (lift (found (get "data" msg))) _ (λ m h. h)
        λ payload. bind-Preserves (HasSent xs) (lift (sdk_name payload)) _ (λ m h. h) λ name m h. h

  receive_json-HasSent :
      (s : ℕ) (o : Option Json) → Preserves (HasSent xs) (receive_json peername loads s o)
  unfolding receive_json process_receive_message process_action
  receive_json-HasSent s none = λ m h. h
  receive_json-HasSent s (some (dict msg)) =
      bind-Preserves (HasSent xs) (lift (strip_id msg (get "test_id" msg))) _ (λ m h. h)
        λ stripped.
          bind-Preserves (HasSent xs) (lift (found (get "action" stripped))) _ (λ m h. h)
            λ action.
              if-Preserves (HasSent xs) (is_str "initialize" action) _ _
                (initialize-HasSent stripped s) (append_response-HasSent action stripped)
  receive_json-HasSent s (some null) = λ m h. h
  receive_json-HasSent s (some (boolean b)) = λ m h. h
  receive_json-HasSent s (some (int n)) = λ m h. h
  receive_json-HasSent s (some (str t)) = λ m h. h
  receive_json-HasSent s (some (list items)) = λ m h. h

  receive_bytes-HasSent :
      (s : ℕ) (bs : Bytes) → Preserves (HasSent xs) (receive_bytes peername loads s bs)
  unfolding receive_bytes
  receive_bytes-HasSent s [] = close_by_socket-HasSent s
  receive_bytes-HasSent s (b ∷ bs) = receive_json-HasSent s (loads (b ∷ bs))

  callback-HasSent : (event : Event) → Preserves (HasSent xs) (callback peername loads event)
  unfolding callback accept_client_conn receive_from_test_agent
  callback-HasSent (accept s) =
      bind-Preserves (HasSent xs) (lift (peer (peername s))) _ (λ m h. h) λ a. register-HasSent s
  callback-HasSent (receive s received) =
      bind-Preserves (HasSent xs) (lift received) _ (λ m h. h) (receive_bytes-HasSent s)

  run_callbacks-HasSent :
      (events : List Event) → Preserves (HasSent xs) (run_callbacks peername loads events)
  unfolding run_callbacks
  run_callbacks-HasSent [] = λ m h. h
  run_callbacks-HasSent (event ∷ events) =
      bind-Preserves (HasSent xs) (callback peername loads event) _ (callback-HasSent event)
        λ a. run_callbacks-HasSent events

  outcome-HasSent :
      (r : Result {0} Unit) (m : Manager)
      → HasSent xs m
      → HasSent xs (outcome peername loads (r, m))
  outcome-HasSent (ok a) m h = h
  outcome-HasSent (raise e) m h = h

  listen-HasSent :
      (events : List Event) (m : Manager)
      → HasSent xs m
      → HasSent xs (listen peername loads events m)
  unfolding listen
  listen-HasSent events m h =
      let (r, m') = run_callbacks peername loads events m in
      let after = outcome-HasSent r m' (run_callbacks-HasSent events m h) in
      ground (arith, h, after)

  wait_for-HasSent :
      (key inner value : String) (schedule : List (List Event))
      → Preserves (HasSent xs) (wait_for peername loads key inner value schedule)
  unfolding wait_for
  wait_for-HasSent key inner value [] = λ m h. h
  wait_for-HasSent key inner value (events ∷ schedule) =
      bind-Preserves (HasSent xs) (on_queues (Queue.contains key inner value)) _ (λ m h. h)
        λ seen.
          if-Preserves (HasSent xs) seen _ _ (λ m h. h)
            (bind-Preserves (HasSent xs) (modify (listen peername loads events))
              (λ a. wait_for peername loads key inner value schedule) (listen-HasSent events)
              λ a. wait_for-HasSent key inner value schedule)

  pub await_response-HasSent :
      (key inner value : String) (schedule : List (List Event))
      → Preserves (HasSent xs) (await_response peername loads key inner value schedule)
  unfolding await_response take_response
  await_response-HasSent key inner value schedule =
      bind-Preserves (HasSent xs) (wait_for peername loads key inner value schedule) _
        (wait_for-HasSent key inner value schedule) take
    where
      take : (seen : Bool) → Preserves (HasSent xs) (take_response peername loads key seen)
      take false = λ m h. h
      take true =
          bind-Preserves (HasSent xs) (on_queues (Queue.popleft key)) _ (λ m h. h) λ r m h. h

-- A request to a known agent sends one message, whatever the listener does while the request waits:
-- the request's data, action and test id, to the socket of the agent. A request to an agent that is
-- not known sends none.
pub request-sends :
    (peername : ℕ → Option Address) (loads : Bytes → Option Json) (name action test_id : String)
    (payload : Json) (extra : Option Json) (schedule : List (List Event)) (m : Manager)
    → (request peername loads name action payload extra test_id none schedule m).1.sent
      ≡ m.sent
        ++ addressed
            (Database.get_by_name (normalize name) m.database).0
            (request_json action payload extra test_id)
unfolding request send_socket_data
request-sends peername loads name action test_id payload extra schedule m =
    elim (Result-cases (Database.get_by_name (normalize name) m.database).0) [
      | inl (s, known) ↦ rw known (
          await_response-HasSent peername loads
            (m.sent ++ (s, request_json action payload extra test_id) ∷ []) action "test_id" test_id
            schedule _ refl)
      | inr (e, unknown) ↦ rw unknown (rw append-nil refl)
    ]
