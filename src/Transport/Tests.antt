-- ===== src/Transport/Tests.antt =====
-- up_client_socket/python/socket_transport.py: runs on small inputs, and the theorems at them.
use up_tck.Base.{
  ℕ, ◌≡◌, refl, Option, none, some, [], ◌∷◌, arith, bytes_eq, nat_eq, ℕ_discrete, if◌then◌else◌,
  contains, remove, eqb,
}
use up_tck.Base.Dict.{insert, lookup, erase}
use up_tck.Base.Exec.{Exception, os_error, invalid_state_error, ok, raise}
use up_tck.Transport.{
  Bytes, publish, response, UMessage, Uprotocol, timed_out, result, Transport, init, ok_status,
  not_found_status, register_listener, unregister_listener, invoke_method, timeout_counter,
  set_future, handle_response_message, listeners_of,
}
use up_tck.Transport.Listeners.{unregister-register_listener}
use up_tck.Transport.Calls.{called, handle_response_message-timeout}
use up_tck.Transport.Calls.Advances.{IsFresh}
use up_tck.Transport.Calls.Settled.{here, next, receive, expire, Run-settled}
use up_tck.Transport.Calls.Timers.{writes, IsSettled, invoke_method-IsSettled}
use up_tck.Transport.{is_done}
use up_tck.Transport.Loop.{listen_round}
use up_tck.Transport.Loop.Delivery.{listener_uri}

-- URIs, ids and payloads are numbers, the empty URI 0 is not valid, and the bytes of a message are
-- its kind, its source and its payload: 1 for publish, 2 for a response to the call with id 5.
abbrev message : ℕ → UMessage ℕ ℕ ℕ
message b = record {
  kind = if eqb b 1 then publish else response;
  source = 7;
  sink = 8;
  id = 5;
  reqid = 5;
  payload = b;
}

abbrev library : Uprotocol ℕ ℕ ℕ
library = record {
  validate = λ uri. if eqb uri 0 then some not_found_status else none;
  uri_bytes = λ uri. uri ∷ [];
  uuid_bytes = λ id. id ∷ [];
  message_bytes = λ msg. msg.payload ∷ [];
  parse = λ bytes. elim bytes [ [] ↦ none | b ∷ bs ↦ some (message b) ];
}

-- Listener 9 raises an OSError.
abbrev on_receive : ℕ → UMessage ℕ ℕ ℕ → Option Exception
on_receive l msg = if eqb l 9 then some os_error else none

abbrev listening : Transport (UMessage ℕ ℕ ℕ)
listening = record init { uri_to_listener = (7 ∷ [], 1 ∷ 2 ∷ []) ∷ [] }

program : Unit {0}
unfolding lookup insert erase bytes_eq ℕ_discrete contains remove register_listener
    unregister_listener invoke_method timeout_counter set_future handle_response_message
    listeners_of listener_uri listen_round
program = tt

unregister-register_listener_example :
    ((unregister_listener library 7 3 (register_listener library 7 3 listening).1).0 ≡ ok ok_status)
    × ((uri : Bytes)
        → listeners_of uri
            (unregister_listener library 7 3 (register_listener library 7 3 listening).1).1
          ≡ listeners_of uri listening)
unfolding program
unregister-register_listener_example = unregister-register_listener library listening 7 3 refl refl

abbrev late_state : Transport (UMessage ℕ ℕ ℕ)
late_state = (timeout_counter library 0 (called library on_receive listening (message 1) none)).1

handle_response_message-timeout_example :
    (lookup 0 late_state.futures ≡ some timed_out)
    × (lookup (5 ∷ []) late_state.reqid_to_future ≡ some 0)
    × ((handle_response_message library on_receive (message 2) late_state).0
        ≡ raise invalid_state_error)
    × (lookup 0 (handle_response_message library on_receive (message 2) late_state).1.futures
        ≡ some timed_out)
    × (lookup
          (5 ∷ [])
          (handle_response_message library on_receive (message 2) late_state).1.reqid_to_future
        ≡ none)
handle_response_message-timeout_example =
    handle_response_message-timeout library on_receive listening (message 1) none (message 2) refl

-- A call has its response; then the test of its timeout, made before, takes effect.
abbrev resolved : Transport (UMessage ℕ ℕ ℕ)
resolved = record init { futures = (0, result (message 2)) ∷ []; next_future = 1 }

resolved-IsFresh : IsFresh resolved
unfolding program
resolved-IsFresh f le = ground arith

Run-settled_example :
    lookup 0 (set_future library 0 timed_out resolved).1.futures ≡ some (result (message 2))
unfolding program
Run-settled_example =
    Run-settled library on_receive resolved-IsFresh (next here (expire resolved 0 (omega arith))) 0
      (result (message 2)) refl (λ e. cc)

-- The response to a call arrives between the test and the write of its timer.
abbrev calling : Transport (UMessage ℕ ℕ ℕ)
calling = (invoke_method library (message 1) none init).1

invoke_method-IsSettled_example :
    IsSettled library on_receive 0
      (set_future library 0 timed_out (listen_round library on_receive (ok (2 ∷ [])) calling).1).1
unfolding program is_done
invoke_method-IsSettled_example =
    invoke_method-IsSettled library on_receive (message 1) none init (λ f le. refl) here
      (writes refl (next here (receive calling (ok (2 ∷ []))))) here
