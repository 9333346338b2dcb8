-- ===== src/Transport/Calls.antt =====
-- up_client_socket/python/socket_transport.py: method calls, their responses and their timeouts.
pub mod Advances
pub mod Settled
pub mod Timers
use up_tck.Base.{
  ℕ, suc, ◌+◌, ◌≡◌, ◌≢◌, refl, sym, ap, ◌∙◌, Bool, true, false, Option, none, some, List, [], ◌∷◌,
  ◌++◌, arith, nat_eq, bytes_eq, ◌==◌, if◌then◌else◌, String,
}
use up_tck.Base.Dict.{
  Dict, lookup, insert, erase, lookup-insert, lookup-erase, lookup-insert_self, lookup-insert_ne,
  lookup-erase_self, lookup-erase_ne,
}
use up_tck.Base.Exec.{Exec, Exception, invalid_state_error, Result, ok, raise, pure}
use up_tck.Transport.{
  Bytes, UMessage, Uprotocol, Future, pending, timed_out, result, Transport, Message, send,
  complete, set_future, is_done, timeout_counter, invoke_method, resolve, handle_response_message,
}

module _ {Uri Uuid Payload : Type 0} (u : Uprotocol Uri Uuid Payload)
    (on_receive : ℕ → Message u → Option Exception) (t : Transport (Message u)) (call : Message u)
    (send_error : Option String) where
  -- The future of the call, and the state when the call is under way.
  abbrev pub future : ℕ
  future = t.next_future

  abbrev pub called : Transport (Message u)
  called = (invoke_method u call send_error t).1

  send-futures :
      (s : Transport (Message u))
      → ((send u call send_error s).1.futures ≡ s.futures)
        × ((send u call send_error s).1.reqid_to_future ≡ s.reqid_to_future)
  unfolding send
  send-futures s = ground arith

  called-future : lookup future called.futures ≡ some pending
  unfolding invoke_method
  called-future = rw (send-futures _).0 (lookup-insert_self future pending t.futures)

  called-id : lookup (u.uuid_bytes call.id) called.reqid_to_future ≡ some future
  unfolding invoke_method
  called-id =
      rw (send-futures _).1 (lookup-insert_self (u.uuid_bytes call.id) future t.reqid_to_future)

module _ {Uri Uuid Payload : Type 0} (u : Uprotocol Uri Uuid Payload)
    (on_receive : ℕ → Message u → Option Exception) (t : Transport (Message u)) (answer : Message u)
    (f : ℕ) (asked : lookup (u.uuid_bytes answer.reqid) t.reqid_to_future ≡ some f) where
  abbrev forgotten : Transport (Message u)
  forgotten = record t { reqid_to_future = erase (u.uuid_bytes answer.reqid) t.reqid_to_future }

  handle_response_message-asked :
      handle_response_message u on_receive answer t ≡ set_future u f (result answer) forgotten
  unfolding handle_response_message
  handle_response_message-asked = rw asked

  handle_response_message-pending :
      lookup f t.futures ≡ some pending
      → handle_response_message u on_receive answer t
        ≡ (ok tt, record forgotten { futures = insert f (result answer) t.futures })
  unfolding set_future
  handle_response_message-pending e = handle_response_message-asked ∙ rw e

  handle_response_message-late :
      lookup f t.futures ≡ some timed_out
      → handle_response_message u on_receive answer t ≡ (raise invalid_state_error, forgotten)
  unfolding set_future
  handle_response_message-late e = handle_response_message-asked ∙ rw e

timeout_counter-pending :
    {Uri Uuid Payload : Type 0} (u : Uprotocol Uri Uuid Payload) (f : ℕ) (t : Transport (Message u))
    → lookup f t.futures ≡ some pending
    → timeout_counter u f t ≡ (ok tt, record t { futures = insert f timed_out t.futures })
unfolding timeout_counter
timeout_counter-pending u f t e = rw (e, is_done)

handle_response_message-unasked :
    {Uri Uuid Payload : Type 0} (u : Uprotocol Uri Uuid Payload)
    (on_receive : ℕ → Message u → Option Exception) (t : Transport (Message u)) (answer : Message u)
    → lookup (u.uuid_bytes answer.reqid) t.reqid_to_future ≡ none
    → handle_response_message u on_receive answer t
      ≡ (ok tt, record t { reqid_to_future = erase (u.uuid_bytes answer.reqid) t.reqid_to_future })
unfolding handle_response_message
handle_response_message-unasked u on_receive t answer e = rw e

module _ {Uri Uuid Payload : Type 0} (u : Uprotocol Uri Uuid Payload)
    (on_receive : ℕ → Message u → Option Exception) (t : Transport (Message u)) (call : Message u)
    (send_error : Option String) (answer : Message u)
    (matches : u.uuid_bytes answer.reqid ≡ u.uuid_bytes call.id) where
  abbrev answered : Transport (Message u)
  answered = (handle_response_message u on_receive answer (called u on_receive t call send_error)).1

  asked_for :
      lookup (u.uuid_bytes answer.reqid) (called u on_receive t call send_error).reqid_to_future
      ≡ some t.next_future
  asked_for = rw matches (called-id u on_receive t call send_error)

  abbrev completed : Transport (Message u)
  completed = record (called u on_receive t call send_error) {
    reqid_to_future =
        erase (u.uuid_bytes answer.reqid) (called u on_receive t call send_error).reqid_to_future;
    futures = insert t.next_future (result answer) (called u on_receive t call send_error).futures;
  }

  answered-eq : answered ≡ completed
  answered-eq =
      ap (λ (r : Result Unit × Transport (Message u)). r.1)
        (handle_response_message-pending u on_receive (called u on_receive t call send_error) answer
          t.next_future asked_for (called-future u on_receive t call send_error))

  -- The response to a call completes the call's future with the response and no other future; a
  -- second response to the call changes no future.
  pub handle_response_message-completes :
      (second : Message u)
      → u.uuid_bytes second.reqid ≡ u.uuid_bytes call.id
      → (lookup t.next_future answered.futures ≡ some (result answer))
        × ((f : ℕ)
            → f ≢ t.next_future
            → lookup f answered.futures ≡ lookup f (called u on_receive t call send_error).futures)
        × ((handle_response_message u on_receive second answered).0 ≡ ok tt)
        × ((handle_response_message u on_receive second answered).1.futures ≡ answered.futures)
  handle_response_message-completes second again = rw answered-eq (
    lookup-insert_self t.next_future (result answer) _,
    λ f ne. lookup-insert_ne f t.next_future (result answer) _ ne,
    rw (handle_response_message-unasked u on_receive completed second gone),
    rw (handle_response_message-unasked u on_receive completed second gone),
  )
    where
      gone :
          lookup (u.uuid_bytes second.reqid) (
            erase
              (u.uuid_bytes answer.reqid)
              (called u on_receive t call send_error).reqid_to_future)
          ≡ none
      gone = rw (again ∙ sym matches) (lookup-erase_self (u.uuid_bytes answer.reqid) _)

  abbrev pub expired : Transport (Message u)
  expired = (timeout_counter u t.next_future (called u on_receive t call send_error)).1

  abbrev over : Transport (Message u)
  over = record (called u on_receive t call send_error) {
    futures = insert t.next_future timed_out (called u on_receive t call send_error).futures;
  }

  expired-eq : expired ≡ over
  expired-eq =
      ap (λ (r : Result Unit × Transport (Message u)). r.1)
        (timeout_counter-pending u t.next_future (called u on_receive t call send_error)
          (called-future u on_receive t call send_error))

  late : handle_response_message u on_receive answer over ≡ (
    raise invalid_state_error,
    record over { reqid_to_future = erase (u.uuid_bytes answer.reqid) over.reqid_to_future },
  )
  late =
      handle_response_message-late u on_receive over answer t.next_future asked_for
        (lookup-insert_self t.next_future timed_out _)

  -- A call that runs out of time keeps its entry, and its future says so; the response that comes
  -- after that raises, leaves the future as it is and takes the entry away.
  pub handle_response_message-timeout :
      (lookup t.next_future expired.futures ≡ some timed_out)
      × (lookup (u.uuid_bytes call.id) expired.reqid_to_future ≡ some t.next_future)
      × ((handle_response_message u on_receive answer expired).0 ≡ raise invalid_state_error)
      × (lookup t.next_future (handle_response_message u on_receive answer expired).1.futures
          ≡ some timed_out)
      × (lookup
            (u.uuid_bytes call.id)
            (handle_response_message u on_receive answer expired).1.reqid_to_future
          ≡ none)
  handle_response_message-timeout = rw expired-eq (
    lookup-insert_self t.next_future timed_out _,
    called-id u on_receive t call send_error,
    rw late,
    rw late (lookup-insert_self t.next_future timed_out _),
    rw late (rw matches (lookup-erase_self (u.uuid_bytes call.id) _)),
  )
