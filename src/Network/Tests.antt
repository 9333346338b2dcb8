-- ===== src/Network/Tests.antt =====
-- A published message on its way between two agents, at a small network.
mod Bus
use mathlib.Core.List.{Mem, mem-cons_self, mem-cons_of_mem}
use mathlib.Core.List.Perm
use up_tck.Agent.Receive.{Builder, on_receive}
use up_tck.Network.Rpc.{invoke_method-answered}
use up_tck.Base.{
  ◌++◌, nat_eq, ℕ, String, ◌≡◌, refl, true, none, some, List, remove, [], ◌∷◌, string_eq, bytes_eq,
  contains, ℕ_discrete,
}
use up_tck.Base.Text.{append, contains_text}
use up_tck.Base.Dict.{lookup, insert, erase}
use up_tck.Base.Exec.{ok}
use up_tck.Json.{put, Json, str, dict, field, end, subscript, get}
use up_tck.Agent.{reply, Agent}
use up_tck.Agent.Codec.{
  message_to_dict, Reflection, other_type, done, shown, scalar, json, bytes, unmark, convert,
}
use up_tck.Agent.Validation.{flag}
use up_tck.Agent.Validation.Checks.{Validators}
use up_tck.Agent.Handlers.{process_message, handle_response, Library, data_to_proto}
use up_tck.Dispatcher as DispatcherModule
use up_tck.Dispatcher.{World, Dispatcher, receive_from_up_client}
use up_tck.Dispatcher.Invariant.{IsValid, start, after, Reachable-IsValid}
use up_tck.Dispatcher.Server.{accept, callback}
use up_tck.Transport.{
  dispatch, response, result, publish, UMessage, Uprotocol, Transport, init, listeners_of,
}
use up_tck.Transport.Loop.{listen_round}
use up_tck.Transport.Loop.Delivery.{reached, listener_uri}
use up_tck.Network.{socket_transport, Bridge}
use up_tck.Network.Bus.{
  Operation, join, leave, subscribe, unsubscribe, transmit, ArePossible, step, replay, empty,
}
use up_tck.Network.System
use up_tck.Network.System.{run}
use up_tck.Network.System.Step.{Refines}
use up_tck.Network.System.Refinement.{run-Refines}
use up_tck.Network.Publish.{handled, publish-reaches}

-- A message is the text of its one field, "name".
abbrev reflection : Reflection String
reflection = record {
  has_attr = λ m name. true;
  get_attr = λ m name. m;
  with_attr = λ m name sub. sub;
  set_attr = λ m name v. elim v [ json j ↦ elim j [ str s ↦ ok s | _ ↦ ok m ] | bytes s ↦ ok s ];
  type_of = λ m name. other_type;
  to_int = λ v. ok v;
  to_float = λ v. ok v;
}

abbrev validators : Validators String
validators = record {
  u_uri = "";
  u_attributes = "";
  check_uri = λ check m. ok (flag true);
  make_uuid = λ kind. "id";
  check_uuid = λ check m. ok (flag true);
  uprotocol_id = "id";
  uuidv6_id = "id";
  sink_name = λ m. m;
  copy_sink = λ sink m. m;
  copy_id = λ id m. m;
  copy_reqid = λ id m. m;
  find_validator = λ m. ok "validator";
  check_attributes = λ validator check m. ok (flag true);
}

abbrev library : Library String
library = record {
  u_message = "";
  u_uri = "";
  u_payload = "";
  u_uuid = "";
  create_id = "id";
  copy_message_id = λ id m. m;
  view = λ m. shown "name" (scalar (str m)) done;
  long_serialize_uri = λ m. ok (append "/" m);
  long_deserialize_uri = λ j. ok "uri";
  long_serialize_uuid = λ m. ok m;
  long_deserialize_uuid = λ j. ok "id";
  micro_serialize_uri = λ m. ok m;
  micro_deserialize_uri = λ j. ok "uri";
}

-- There is one URI, and the bytes of a message tell its payload by their number only.
abbrev pub message : String → UMessage String ℕ String
message payload = record {
  kind = publish;
  source = "door";
  sink = "";
  id = 5;
  reqid = 5;
  payload = payload;
}

abbrev pub uprotocol : Uprotocol String ℕ String
uprotocol = record {
  validate = λ uri. none;
  uri_bytes = λ uri. 7 ∷ [];
  uuid_bytes = λ id. id ∷ [];
  message_bytes = λ msg. 1 ∷ [];
  parse = λ chunk. some (message "opened");
}

abbrev bridge : Bridge uprotocol String
bridge = record {
  uri_of = λ m. m;
  message_of = message;
  call_of = λ uri payload. message payload;
  of_status = λ status. status.message;
}

abbrev agent : Agent (Transport (UMessage String ℕ String))
agent = record { transport = init; sent = []; callbacks = [] }

abbrev registration : Json
registration = dict (
    field "data" (dict (field "name" (str "door") end))
      (field "action" (str "registerlistener") (field "test_id" (str "1") end)))

abbrev request : Json
request = dict (
    field "data" (dict (field "name" (str "opened") end))
      (field "action" (str "send") (field "test_id" (str "2") end)))

-- All is well.
abbrev pub calm : World
calm = record {
  send_error = λ s. none;
  has_peer = λ s. true;
  iteration = λ xs. xs;
  iteration-perm = λ xs. Perm.refl xs;
}

abbrev connected : Dispatcher
connected = record DispatcherModule.init { connected_sockets = 1 ∷ 2 ∷ []; registered = 1 ∷ 2 ∷ [] }

connected-IsValid : IsValid connected
unfolding callback DispatcherModule.accept_client_conn contains ℕ_discrete
connected-IsValid =
    Reachable-IsValid
      (after calm (accept 2) (after calm (accept 1) start (refl, refl)) (refl, refl))

publish-reaches_example :
    let transport = handled uprotocol reflection validators library bridge 3 (λ m. none) in
    ((transport request agent).sent ≡ (1 ∷ []) ∷ [])
    × Mem (2, 1 ∷ []) (receive_from_up_client calm 1 (ok (1 ∷ [])) connected).1.sent
    × (listen_round uprotocol (λ s m. none) (ok (1 ∷ [])) (transport registration agent) ≡ (
      true,
      reached uprotocol (λ s m. none) (message "opened") (3 ∷ []) (transport registration agent),
    ))
unfolding data_to_proto subscript get string_eq convert unmark contains_text listeners_of lookup
    contains ℕ_discrete
publish-reaches_example =
    publish-reaches uprotocol reflection validators library bridge 3 (λ m. none) registration
      request "door" "opened" agent agent calm connected 1 2 1 [] (λ s m. none) refl refl refl refl
      refl refl refl refl refl connected-IsValid refl (mem-cons_of_mem 1 mem-cons_self)
      (λ t m. refl) (refl, tt)

-- The same network where what arrives is the response to a call.
abbrev responding : Uprotocol String ℕ String
responding = record uprotocol {
  parse = λ chunk. some (record (message "SuccessRPCResponse") { kind = response });
}

abbrev call_bridge : Bridge responding String
call_bridge = record {
  uri_of = λ m. m;
  message_of = λ m. record (message m) { kind = response };
  call_of = λ uri payload. message payload;
  of_status = λ status. status.message;
}

abbrev builder : Builder String
builder = record {
  is_request = λ m. true;
  build_response = λ sink source id. id;
  pack = λ s. s;
  u_message = λ attributes payload. payload;
}

abbrev invocation : Json
invocation = dict (
    field "data"
      (dict
        (field "payload" (dict (field "name" (str "hello") end)) (field "name" (str "door") end)))
      (field "action" (str "invokemethod") (field "test_id" (str "3") end)))

abbrev success : Json
success = dict (field "name" (str "SuccessRPCResponse") end)

invoke_method-answered_example :
    let t = socket_transport call_bridge none 3 in
    let asked = process_message reflection validators library t (λ m. none) invocation agent in
    let answering = on_receive reflection validators library t (λ m. none) builder "call" agent in
    let reported =
      handle_response reflection validators library t
        (λ m. none)
        invocation
        "SuccessRPCResponse"
        asked.1 in
    (asked.0 ≡ ok tt)
    × (asked.1.callbacks ≡ (0, invocation) ∷ [])
    × (answering.1.transport.sent ≡ (1 ∷ []) ∷ [])
    × (lookup 0 (listen_round responding (λ s m. none) (ok (1 ∷ [])) asked.1.transport).1.futures
        ≡ some (result (record (message "SuccessRPCResponse") { kind = response })))
    × (reported.1.sent ≡ asked.1.sent ++ reply success "invokemethod" (str "3") ∷ [])
unfolding data_to_proto subscript get string_eq convert unmark contains_text message_to_dict put
invoke_method-answered_example =
    invoke_method-answered responding reflection validators library builder call_bridge 3
      (λ m. none) invocation (str "3") "door" "hello" "call"
      (field "name" (str "SuccessRPCResponse") end) agent agent 1 [] (λ s m. none) refl refl refl
      refl refl refl refl refl refl refl refl
