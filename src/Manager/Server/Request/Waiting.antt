-- ===== src/Manager/Server/Request/Waiting.antt =====
-- test_manager/testmanager.py: what a waiting call may see. The listener only adds to the queues, so
-- a response that nobody waits for stays first and holds up the calls behind it.
use mathlib.Core.List.{append_assoc}
use up_tck.Base.{
  ℕ, String, ◌≡◌, ◌∙◌, false, not, ◌&&◌, Option, none, some, List, [], ◌∷◌, ◌++◌, arith, string_eq,
  Bool-cases, inl, inr, dec_eq,
}
use up_tck.Base.Exec.{
  Exec, Exception, Preserves, bind-Preserves, if-Preserves, Result, ok, raise, lift,
}
use up_tck.Json.{Json, str, list, dict, Fields, get, is_str}
use up_tck.Manager.Database
use up_tck.Manager.Database.{Address, Database, found, peer}
use up_tck.Manager.Queue
use up_tck.Manager.Queue.{head_has}
use up_tck.Manager.Queue.Fifo.{waiting, waiting-append, contains-eq}
use up_tck.Manager.Server.{
  Bytes, Manager, normalize, on_queues, strip_id, append_response, accept_client_conn,
  close_by_socket, initialize, process_action, process_receive_message, receive_json, receive_bytes,
  receive_from_test_agent,
}
use up_tck.Manager.Server.Request.{
  Event, accept, receive, send_socket_data, callback, run_callbacks, outcome, listen, wait_for,
  await_response, request, get_onreceive,
}

-- The messages of `base` wait first under the key.
abbrev pub StartsWith : String → List Fields → Manager → Type 0
StartsWith key base m = (more : List Fields) × (waiting m.queues key ≡ base ++ more)

module _ (key : String) (base : List Fields) where
  abbrev Keeps : {A : Type 0} → Exec Manager A → Type 0
  Keeps m = Preserves (StartsWith key base) m

  append-Keeps : (other : String) (msg : Fields) → Keeps (on_queues (Queue.append other msg))
  append-Keeps other msg m (more, h) = elim (dec_eq key other) [
    | yes e ↦ (
      more ++ msg ∷ [],
      ground (arith, waiting-append other key msg m.queues, append_assoc base more (msg ∷ [])),
    )
    | no ne ↦ (more, ground (arith, waiting-append other key msg m.queues))
  ]

  append_response-Keeps : (action : Json) (msg : Fields) → Keeps (append_response action msg)
  unfolding append_response
  append_response-Keeps (str action) msg m h = append-Keeps action msg m h
  append_response-Keeps (list items) msg m h = h
  append_response-Keeps _ msg m h = h

  module _ (peername : ℕ → Option Address) (loads : Bytes → Option Json) where
    close_by_socket-Keeps : (s : ℕ) → Keeps (close_by_socket peername loads s)
    unfolding close_by_socket
    close_by_socket-Keeps s m h = ground arith

    accept_client_conn-Keeps : (s : ℕ) → Keeps (accept_client_conn peername loads s)
    unfolding accept_client_conn
    accept_client_conn-Keeps s m h = ground arith

    initialize-Keeps : (msg : Fields) (s : ℕ) → Keeps (initialize peername loads msg s)
    unfolding initialize
    initialize-Keeps msg s m h = ground arith

    process_receive_message-Keeps :
        (msg : Fields) (s : ℕ) → Keeps (process_receive_message peername loads msg s)
    unfolding process_receive_message process_action
    process_receive_message-Keeps msg s =
        bind-Preserves (StartsWith key base) (lift (found (get "action" msg))) _ (λ m h. h)
          (λ action.
            if-Preserves (StartsWith key base) (is_str "initialize" action) _ _
              (initialize-Keeps msg s) (append_response-Keeps action msg))

    receive_json-Keeps : (s : ℕ) (j : Option Json) → Keeps (receive_json peername loads s j)
    unfolding receive_json
    receive_json-Keeps s none m h = h
    receive_json-Keeps s (some (dict msg)) m h =
        bind-Preserves (StartsWith key base) (lift (strip_id msg (get "test_id" msg))) _ (λ m h. h)
          (λ stripped. process_receive_message-Keeps stripped s) m h
    receive_json-Keeps s (some _) m h = h

    receive_bytes-Keeps : (s : ℕ) (bs : Bytes) → Keeps (receive_bytes peername loads s bs)
    unfolding receive_bytes
    receive_bytes-Keeps s [] = close_by_socket-Keeps s
    receive_bytes-Keeps s (b ∷ bs) = receive_json-Keeps s (loads (b ∷ bs))

    callback-Keeps : (event : Event) → Keeps (callback peername loads event)
    unfolding callback receive_from_test_agent
    callback-Keeps (accept s) = accept_client_conn-Keeps s
    callback-Keeps (receive s received) =
        bind-Preserves (StartsWith key base) (lift received) _ (λ m h. h) (receive_bytes-Keeps s)

    run_callbacks-Keeps : (events : List Event) → Keeps (run_callbacks peername loads events)
    unfolding run_callbacks
    run_callbacks-Keeps [] m h = h
    run_callbacks-Keeps (event ∷ events) m h =
        bind-Preserves (StartsWith key base) (callback peername loads event) _
          (callback-Keeps event) (λ _. run_callbacks-Keeps events) m h

    outcome-StartsWith :
        (r : Result Unit × Manager)
        → StartsWith key base r.1
        → StartsWith key base (outcome peername loads r)
    outcome-StartsWith (ok a, m) h = h
    outcome-StartsWith (raise e, m) h = h

    -- Whatever the listener handles, the messages that wait first stay first.
    pub listen-StartsWith :
        (events : List Event) (m : Manager)
        → StartsWith key base m
        → StartsWith key base (listen peername loads events m)
    unfolding listen
    listen-StartsWith events m h = elim (Bool-cases (m.listening && not m.exit_manager)) [
      | inl runs ↦ rw runs (
          outcome-StartsWith (run_callbacks peername loads events m)
            (run_callbacks-Keeps events m h))
      | inr ended ↦ rw ended h
    ]

module _ (key inner value : String) (msg : Fields) (v : Json) (has : get inner msg ≡ some v)
    (differs : is_str value v ≡ false) where
  head_has-false : (queue : List Fields) → head_has inner value (msg ∷ queue) ≡ ok false
  unfolding head_has
  head_has-false queue = rw (has, head_has) (rw differs)

  contains-false :
      (m : Manager)
      → StartsWith key (msg ∷ []) m
      → (Queue.contains key inner value m.queues).0 ≡ ok false
  contains-false m (more, h) =
      (contains-eq key inner value m.queues).0 ∙ (rw h (head_has-false more))

  on_contains-StartsWith :
      (m : Manager)
      → StartsWith key (msg ∷ []) m
      → StartsWith key (msg ∷ []) (on_queues (Queue.contains key inner value) m).1
  on_contains-StartsWith m (more, h) = (more, (contains-eq key inner value m.queues).1 key ∙ h)

  module _ (peername : ℕ → Option Address) (loads : Bytes → Option Json) where
    wait_for-false :
        (schedule : List (List Event)) (m : Manager)
        → StartsWith key (msg ∷ []) m
        → (wait_for peername loads key inner value schedule m).0 ≡ ok false
    unfolding wait_for
    wait_for-false [] m h = contains-false m h
    wait_for-false (events ∷ schedule) m h = rw (contains-false m h) (
        wait_for-false schedule _
          (listen-StartsWith key (msg ∷ []) peername loads events _ (on_contains-StartsWith m h)))

    await_response-none :
        (schedule : List (List Event)) (m : Manager)
        → StartsWith key (msg ∷ []) m
        → (await_response peername loads key inner value schedule m).0 ≡ ok none
    unfolding await_response
    await_response-none schedule m h = rw (wait_for-false schedule m h)

-- The agent is known under the name, and the request to it is sent.
abbrev pub Sent : String → Option Exception → Manager → Type 0
Sent name send_error m =
    ((s : ℕ) × ((Database.get_by_name (normalize name) m.database).0 ≡ ok s)) × (send_error ≡ none)

-- A response of another test that waits first for the action holds up a request for ever: whatever
-- the listener receives, the response to this very request included, the call does not return.
pub request-held_up :
    (peername : ℕ → Option Address) (loads : Bytes → Option Json) (m : Manager)
    (name action test_id : String) (payload : Json) (extra : Option Json)
    (send_error : Option Exception) (msg : Fields) (queue : List Fields) (id : Json)
    (schedule : List (List Event))
    → Sent name send_error m
    → waiting m.queues action ≡ msg ∷ queue
    → get "test_id" msg ≡ some id
    → is_str test_id id ≡ false
    → (request peername loads name action payload extra test_id send_error schedule m).0 ≡ ok none
unfolding request
request-held_up peername loads m name action test_id payload extra send_error msg queue id schedule
      ((s, known), sends) first has differs =
    rw known (
      rw (sends, send_socket_data)
        (await_response-none action "test_id" test_id msg id has differs peername loads schedule _
          (queue, first)))

-- So does an onreceive message of another agent that waits first: the call does not return.
pub get_onreceive-held_up :
    (peername : ℕ → Option Address) (loads : Bytes → Option Json) (m : Manager) (name : String)
    (msg : Fields) (queue : List Fields) (ue : Json) (schedule : List (List Event))
    → waiting m.queues "onreceive" ≡ msg ∷ queue
    → get "ue" msg ≡ some ue
    → is_str name ue ≡ false
    → (get_onreceive peername loads name schedule m).0 ≡ ok none
unfolding get_onreceive
get_onreceive-held_up peername loads m name msg queue ue schedule first has differs =
    await_response-none "onreceive" "ue" name msg ue has differs peername loads schedule m
      (queue, first)
