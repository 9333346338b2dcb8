-- ===== src/Transport.antt =====
-- up_client_socket/python/socket_transport.py: the transport that each up-client opens to the
-- dispatcher. The message types and their serializers are the uProtocol library's: their types and
-- functions are parameters, gathered in `Uprotocol`. A listener, like a future, is a number, its
-- identity. The traces `delivered` and `sent` record the calls of listeners and what was sent.
pub mod Listeners
pub mod Subscriptions
pub mod Calls
pub mod Loop
mod Tests
use up_tck.Base.{
  ℕ, suc, ◌+◌, String, Bool, true, false, Option, none, some, List, [], ◌∷◌, ◌++◌, contains, remove,
  nat_eq, bytes_eq, if◌then◌else◌,
}
use up_tck.Base.Dict.{Dict, lookup, insert, erase}
use up_tck.Base.Text.{append}
use up_tck.Base.Exec.{
  Exec, Exception, invalid_state_error, Result, ok, raise, pure, throw, gets, modify, ◌>>=◌, ◌>>◌,
}

abbrev pub Bytes : Type 0
Bytes = List ℕ

-- `UMessageType`: the three types that the transport tells apart, and the others.
pub data MessageType : Type 0 where
  publish request response : MessageType
  other : ℕ → MessageType

-- `UCode`: the codes that the transport itself gives, and the others.
pub data UCode : Type 0 where
  success internal not_found : UCode
  other : ℕ → UCode

pub record UStatus : Type 0 where
  pub code : UCode
  pub message : String

-- The fields of a `UMessage` and of its `UAttributes` that the program reads.
pub record UMessage (Uri Uuid Payload : Type 0) : Type 0 where
  pub kind : MessageType
  pub source : Uri
  pub sink : Uri
  pub id : Uuid
  pub reqid : Uuid
  pub payload : Payload

-- `validate` is `UriValidator.validate`: `none` for success, else what `to_status()` gives.
-- `parse` is `UMessage.ParseFromString`: `none` where it raises.
pub record Uprotocol (Uri Uuid Payload : Type 0) : Type 0 where
  pub validate : Uri → Option UStatus
  pub uri_bytes : Uri → Bytes
  pub uuid_bytes : Uuid → Bytes
  pub message_bytes : UMessage Uri Uuid Payload → Bytes
  pub parse : Bytes → Option (UMessage Uri Uuid Payload)

-- `concurrent.futures.Future`.
pub data Future (M : Type 0) : Type 0 where
  pending timed_out : Future M
  result : M → Future M

pub record Transport (M : Type 0) : Type 0 where
  pub uri_to_listener : Dict Bytes (List ℕ)
  pub reqid_to_future : Dict Bytes ℕ
  pub futures : Dict ℕ (Future M)
  pub next_future : ℕ
  pub delivered : List (ℕ × M)
  pub sent : List Bytes
  pub socket_open : Bool

abbrev pub init : {M : Type 0} → Transport M
init = record {
  uri_to_listener = [];
  reqid_to_future = [];
  futures = [];
  next_future = 0;
  delivered = [];
  sent = [];
  socket_open = true;
}

abbrev pub ok_status : UStatus
ok_status = record { code = success; message = "OK" }

abbrev pub not_found_status : UStatus
not_found_status = record { code = not_found; message = "Listener not found for the given UUri" }

-- `self.uri_to_listener.get(uri, [])`
abbrev pub or_empty : Option (List ℕ) → List ℕ
or_empty none = []
or_empty (some listeners) = listeners

unfoldable pub listeners_of : {M : Type 0} → Bytes → Transport M → List ℕ
listeners_of uri t = or_empty (lookup uri t.uri_to_listener)

-- What `unregister_listener` leaves under the URI: the key goes with its last listener.
unfoldable pub keep_listeners : Bytes → List ℕ → Dict Bytes (List ℕ) → Dict Bytes (List ℕ)
keep_listeners uri [] d = erase uri d
keep_listeners uri (l ∷ ls) d = insert uri (l ∷ ls) d

module _ {Uri Uuid Payload : Type 0} (u : Uprotocol Uri Uuid Payload) where
  abbrev pub Message : Type 0
  Message = UMessage Uri Uuid Payload

  -- `register_listener`
  unfoldable pub register_listener : Uri → ℕ → Exec (Transport Message) UStatus
  unfolding listeners_of
  register_listener topic listener t = elim (u.validate topic) [
    | some status ↦ (ok status, t)
    | none ↦
        let uri = u.uri_bytes topic in
        (
          ok ok_status,
          record t {
            uri_to_listener = insert uri (listeners_of uri t ++ listener ∷ []) t.uri_to_listener;
          },
        )
  ]

  unfoldable pub unregister_at : Bytes → ℕ → Exec (Transport Message) UStatus
  unfolding listeners_of keep_listeners
  unregister_at uri listener t =
      if contains listener (listeners_of uri t)
      then (
        ok ok_status,
        record t {
          uri_to_listener =
              keep_listeners uri (remove listener (listeners_of uri t)) t.uri_to_listener;
        },
      )
      else (ok not_found_status, t)

  -- `unregister_listener`
  unfoldable pub unregister_listener : Uri → ℕ → Exec (Transport Message) UStatus
  unfolding unregister_at
  unregister_listener topic listener t = elim (u.validate topic) [
    | some status ↦ (ok status, t)
    | none ↦ unregister_at (u.uri_bytes topic) listener t
  ]

  -- `send`, where `sendall` succeeds or raises an OSError with this text.
  unfoldable pub send : Message → Option String → Exec (Transport Message) UStatus
  send msg none t = (ok ok_status, record t { sent = t.sent ++ u.message_bytes msg ∷ [] })
  send msg (some text) t =
      (ok (record { code = internal; message = append "INTERNAL ERROR: " text }), t)

  -- `response.set_result(umsg)`, `response.done()` and `response.set_exception(TimeoutError(…))`.
  unfoldable pub complete :
      ℕ → Future Message → Option (Future Message) → Exec (Transport Message) Unit
  complete f value (some pending) t = (ok tt, record t { futures = insert f value t.futures })
  complete f value (some timed_out) t = (raise invalid_state_error, t)
  complete f value (some (result m)) t = (raise invalid_state_error, t)
  complete f value none t = (raise invalid_state_error, t)

  unfoldable pub set_future : ℕ → Future Message → Exec (Transport Message) Unit
  unfolding complete
  set_future f value t = complete f value (lookup f t.futures) t

  -- `timeout_counter`, behind its sleep. Its test and its write are two steps: the listener thread may
  -- complete the future between them.
  unfoldable pub is_done : ℕ → Transport Message → Bool
  is_done f t = elim (lookup f t.futures) [
    | some pending ↦ false
    | some timed_out ↦ true
    | some (result m) ↦ true
    | none ↦ true
  ]

  unfoldable pub timeout_counter : ℕ → Exec (Transport Message) Unit
  unfolding is_done set_future
  timeout_counter f t = if is_done f t then (ok tt, t) else set_future f timed_out t

  -- `invoke_method`, for the message that the library builds of the method, the payload and a new
  -- id. The future is its result; the status of the send is not looked at.
  unfoldable pub invoke_method : Message → Option String → Exec (Transport Message) ℕ
  unfolding send
  invoke_method msg send_error t =
      let f : ℕ = t.next_future in
      let waiting : Transport Message = record t {
        futures = insert f pending t.futures;
        reqid_to_future = insert (u.uuid_bytes msg.id) f t.reqid_to_future;
        next_future = suc f;
      } in
      (ok f, (send msg send_error waiting).1)

  -- The listeners' `on_receive`, one after the other. One that raises keeps the rest from their call.
  unfoldable pub call_listeners :
      (ℕ → Message → Option Exception) → Message → List ℕ → Exec (Transport Message) Unit
  call_listeners on_receive msg [] t = (ok tt, t)
  call_listeners on_receive msg (l ∷ ls) t =
      let called : Transport Message = record t { delivered = t.delivered ++ (l, msg) ∷ [] } in
      let rest = call_listeners on_receive msg ls called in
      elim (on_receive l msg) [ none ↦ rest | some e ↦ (raise e, called) ]

  module _ (on_receive : ℕ → Message → Option Exception) where
    -- `_notify_listeners`
    unfoldable pub notify_listeners : Bytes → Message → Exec (Transport Message) Unit
    unfolding call_listeners listeners_of
    notify_listeners uri msg t = call_listeners on_receive msg (listeners_of uri t) t

    -- `_handle_publish_message`, `_handle_request_message`
    unfoldable pub handle_publish_message : Message → Exec (Transport Message) Unit
    unfolding notify_listeners
    handle_publish_message msg = notify_listeners (u.uri_bytes msg.source) msg

    unfoldable pub handle_request_message : Message → Exec (Transport Message) Unit
    unfolding notify_listeners
    handle_request_message msg = notify_listeners (u.uri_bytes msg.sink) msg

    unfoldable pub resolve : Message → Option ℕ → Exec (Transport Message) Unit
    unfolding set_future
    resolve msg none = pure tt
    resolve msg (some f) = set_future f (result msg)

    -- `_handle_response_message`
    unfoldable pub handle_response_message : Message → Exec (Transport Message) Unit
    unfolding resolve
    handle_response_message msg t =
        let id = u.uuid_bytes msg.reqid in
        resolve msg (lookup id t.reqid_to_future)
          (record t { reqid_to_future = erase id t.reqid_to_future })

    unfoldable pub dispatch : MessageType → Message → Exec (Transport Message) Unit
    unfolding handle_publish_message handle_request_message handle_response_message
    dispatch publish msg = handle_publish_message msg
    dispatch request msg = handle_request_message msg
    dispatch response msg = handle_response_message msg
    dispatch (other n) msg = pure tt
