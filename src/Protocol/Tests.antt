-- ===== src/Protocol/Tests.antt =====
-- test_manager and test_agent/python: a step that asks an agent, at a small input.
mod Verdicts
use up_tck.Base.{
  String, ◌≡◌, ◌↔◌, All, refl, false, none, some, List, [], ◌∷◌, string_eq, ◌==◌, if◌then◌else◌,
  nat_eq,
}
use up_tck.Base.Text.{strip, append, contains_text, split, is_space, lower}
use up_tck.Base.Dict.{lookup}
use up_tck.Base.Exec.{ok, raise, Result, assertion_error}
use up_tck.Json.{Json, str, dict, Fields, field, end, get, put, subscript}
use up_tck.Agent.{serialize_uri, find_command, reply}
use up_tck.Agent.Handlers.{process_message, handle_long_serialize_uuri}
use up_tck.Agent.Codec.{convert, unmark}
use up_tck.Agent.Tests as AgentTests
use up_tck.Manager.Database.{get_by_name}
use up_tck.Manager.Queue.Fifo.{waiting}
use up_tck.Manager.Server.{normalize}
use up_tck.Manager.Server.Request.{receive, request_json}
use up_tck.Manager.Server.Request.Arrival.{quiet}
use up_tck.Steps.{unflatten_dict, access_nested_dict}
use up_tck.Steps.Cast.{second}
use up_tck.Steps.Context.{Context}
use up_tck.Steps.Sending.{Call, send_command_request}
use up_tck.Steps.Tests as StepsTests
use up_tck.Agent.Receive.{Builder, on_receive}
use up_tck.Manager.Server.Request.Undisturbed.{IsUndisturbed}
use up_tck.Steps.Payloads.{receive_value_as_bytes}
use up_tck.Base.Substrings.{split_on}
use up_tck.Protocol.Onreceive.{receive_value_as_bytes-on_receive}
use up_tck.Agent.Validation.{verdict, validate, uri_check}
use up_tck.Agent.Validation.Checks.{run_uri_check}
use up_tck.Steps.Cast.{Casted, json}
use up_tck.Steps.Context.{Library}
use up_tck.Steps.Received.{
  serialized_uri_received, receive_validation_result, receive_validation_message,
}
use up_tck.Protocol.Verdict.Uri.{
  serialized_uri_received-process_message, receive_validation_result-process_message,
}
use up_tck.Agent.Codec.{message_to_dict}
use up_tck.Steps.Leaves.{IsTidy}
use up_tck.Steps.Properties.{Row, verify_uri_received_properties}
use up_tck.Steps.Properties.Uri.{Accepts}
use up_tck.Steps.Sending.{send_serialized_command}
use up_tck.Steps.Tests.{text-ne}
use up_tck.Steps.Tests.Comparisons.{asserting, Asserted, asserting-ComparesAll}
use up_tck.Protocol.Verdict.Deserialized.{verify_uri_received_properties-process_message}
use up_tck.Protocol.Scenario.{send_command_request-process_message}

program : Unit {0}
unfolding process_message string_eq reply append subscript get put handle_long_serialize_uuri
    convert unmark contains_text find_command request_json strip is_space lower split lookup
    normalize quiet get_by_name waiting unflatten_dict
program = tt

abbrev keys : Fields
keys = field "name" (str "body.access") end

abbrev asking : Context
asking = record StepsTests.started { json_dict = some keys; ue = some "python" }

send_command_request-process_message_example :
    let request = request_json "uri_serialize" (dict keys) none "7" in
    let call : Call = record {
      test_id = "7";
      send_error = none;
      schedule = quiet 1 ((receive 9 (ok (1 ∷ [])) ∷ []) ∷ []);
    } in
    let out =
      send_command_request StepsTests.library StepsTests.peername
        (λ chunk. some (dict AgentTests.sent_reply))
        call
        "uri_serialize"
        asking in
    (response : Json) × (out.0 ≡ ok (some tt))
    × (out.1.response_data ≡ some response)
    × (out.1.tm.sent ≡ (9, request) ∷ [])
    × ((process_message AgentTests.reflection AgentTests.validators AgentTests.library
          AgentTests.transport
          (λ m. none)
          (dict request)
          AgentTests.agent).1.sent
        ≡ reply response "uri_serialize" (str "7") ∷ [])
unfolding program
send_command_request-process_message_example =
    send_command_request-process_message StepsTests.peername
      (λ chunk. some (dict AgentTests.sent_reply)) StepsTests.library AgentTests.reflection
      AgentTests.validators AgentTests.library AgentTests.transport (λ m. none) 9 9 1 [] keys keys
      "python" "uri_serialize" "7" serialize_uri 1 [] AgentTests.agent asking refl refl refl refl
      refl refl (λ e. cc e) refl (λ msg e. cc e) refl (refl, refl)

abbrev builder : Builder String
builder = record {
  is_request = λ m. false;
  build_response = λ sink source id. sink;
  pack = λ s. s;
  u_message = λ attributes payload. payload;
}

-- What the agent heard.
abbrev heard : String
heard = "type.googleapis.com/String"

abbrev waiting_context : Context
waiting_context = record StepsTests.started { rust_sender = some false }

receive_value_as_bytes-on_receive_example :
    let msg = reply (dict (field "name" (str heard) end)) "onreceive" (str "") in
    let out =
      receive_value_as_bytes StepsTests.peername
        (λ chunk. some (dict msg))
        (quiet 2 ((receive 9 (ok (1 ∷ [])) ∷ []) ∷ []))
        "python"
        "name"
        " type.googleapis.com/Int "
        waiting_context in
    ((on_receive AgentTests.reflection AgentTests.validators AgentTests.library AgentTests.transport
        (λ m. none)
        builder
        heard
        AgentTests.agent).1.sent
      ≡ msg ∷ [])
    × (out.0 ≡ raise assertion_error)
    × IsUndisturbed waiting_context.tm out.1.tm
unfolding program split_on access_nested_dict second
receive_value_as_bytes-on_receive_example =
    receive_value_as_bytes-on_receive AgentTests.reflection AgentTests.validators AgentTests.library
      AgentTests.transport (λ m. none) StepsTests.peername
      (λ chunk. some (dict (reply (dict (field "name" (str heard) end)) "onreceive" (str ""))))
      builder heard (field "name" (str heard) end) AgentTests.agent 9 1 [] "name"
      " type.googleapis.com/Int " heard "String" "Int" 2 [] waiting_context refl refl refl refl refl
      refl refl refl refl (refl, refl)
