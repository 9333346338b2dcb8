-- ===== src/Protocol/Tests/Verdicts.antt =====
-- test_manager and test_agent/python: the verdicts of scenarios, at small inputs.
use up_tck.Base.{
  contains, String, ◌≡◌, ◌↔◌, All, refl, none, some, List, [], ◌∷◌, string_eq, ◌==◌, if◌then◌else◌,
  nat_eq,
}
use up_tck.Base.Text.{split}
use up_tck.Base.Exec.{ok, raise, Result, assertion_error}
use up_tck.Json.{str, dict, Fields, field, end, get}
use up_tck.Agent.{reply}
use up_tck.Agent.Handlers.{process_message}
use up_tck.Agent.Tests as AgentTests
use up_tck.Manager.Server.Request.{receive, request_json}
use up_tck.Manager.Server.Request.Arrival.{quiet}
use up_tck.Steps.Context.{Context}
use up_tck.Steps.Sending.{Call, send_command_request}
use up_tck.Steps.Tests as StepsTests
use up_tck.Agent.Validation.{verdict, validate, uri_check}
use up_tck.Agent.Validation.Checks.{run_uri_check}
use up_tck.Steps.Cast.{Casted, json}
use up_tck.Steps.Context.{Library}
use up_tck.Steps.Received.{
  serialized_uri_received, receive_validation_result, receive_validation_message,
}
use up_tck.Protocol.Verdict.Uri.{
  serialized_uri_received-process_message, receive_validation_result-process_message,
}
use up_tck.Agent.Codec.{message_to_dict}
use up_tck.Steps.Leaves.{IsTidy}
use up_tck.Steps.Properties.{Row, verify_uri_received_properties}
use up_tck.Steps.Properties.Uri.{Accepts}
use up_tck.Steps.Sending.{send_serialized_command}
use up_tck.Steps.Tests.{text-ne}
use up_tck.Steps.Tests.Comparisons.{asserting, Asserted, asserting-ComparesAll}
use up_tck.Protocol.Verdict.Deserialized.{verify_uri_received_properties-process_message}
use up_tck.Protocol.Tests.{keys, asking, program}

-- The library of the steps, where texts are compared.
abbrev compare_texts : Casted (Unit {0}) → Casted (Unit {0}) → Result {0} (Unit {0})
compare_texts (json (str a)) (json (str b)) = if a == b then ok tt else raise assertion_error
compare_texts a b = ok tt

abbrev comparing : Library (Unit {0})
comparing = record StepsTests.library { assert_equal = compare_texts }

abbrev call : String → Call
call id = record {
  test_id = id;
  send_error = none;
  schedule = quiet 1 ((receive 9 (ok (1 ∷ [])) ∷ []) ∷ []);
}

serialized_uri_received-process_message_example :
    let request = request_json "uri_serialize" (dict keys) none "7" in
    let out =
      send_command_request comparing StepsTests.peername
        (λ chunk. some (dict AgentTests.sent_reply))
        (call "7")
        "uri_serialize"
        asking in
    (out.1.tm.sent ≡ (9, request) ∷ [])
    × (process_message AgentTests.reflection AgentTests.validators AgentTests.library
          AgentTests.transport
          (λ m. none)
          (dict request)
          AgentTests.agent
        ≡ (ok tt, record AgentTests.agent { sent = AgentTests.sent_reply ∷ [] }))
    × (out.0 ≡ ok (some tt))
    × ((serialized_uri_received comparing "/body.lock" out.1).0 ≡ raise assertion_error)
unfolding program
serialized_uri_received-process_message_example =
    serialized_uri_received-process_message StepsTests.peername
      (λ chunk. some (dict AgentTests.sent_reply)) comparing (λ a b. refl) AgentTests.reflection
      AgentTests.validators AgentTests.library AgentTests.transport (λ m. none) 9 9 1 [] keys keys
      "python" "7" "/body.access" "/body.lock" "body.access" 1 [] AgentTests.agent asking refl refl
      refl refl refl refl refl refl refl refl (refl, refl)

-- A request to validate a URI.
abbrev flat_question : Fields
flat_question = field "uuri.name" (str "body") (field "validation_type" (str "uri") end)

abbrev question : Fields
question =
    field "uuri" (dict (field "name" (str "body") end)) (field "validation_type" (str "uri") end)

abbrev validating : Context
validating = record asking { json_dict = some flat_question }

abbrev yes_reply : Fields
yes_reply = reply (verdict "True" "") "uri_validate" (str "8")

receive_validation_result-process_message_example :
    let request = request_json "uri_validate" (dict question) none "8" in
    let out =
      send_command_request comparing StepsTests.peername
        (λ chunk. some (dict yes_reply))
        (call "8")
        "uri_validate"
        validating in
    (out.1.tm.sent ≡ (9, request) ∷ [])
    × (process_message AgentTests.reflection AgentTests.validators AgentTests.library
          AgentTests.transport
          (λ m. none)
          (dict request)
          AgentTests.agent
        ≡ (ok tt, record AgentTests.agent { sent = yes_reply ∷ [] }))
    × (out.0 ≡ ok (some tt))
    × ((receive_validation_result comparing " True" out.1).0 ≡ ok tt)
    × ((receive_validation_message comparing "" out.1).0 ≡ ok tt)
unfolding program uri_check run_uri_check
receive_validation_result-process_message_example =
    receive_validation_result-process_message StepsTests.peername (λ chunk. some (dict yes_reply))
      comparing (λ a b. refl) AgentTests.reflection AgentTests.validators AgentTests.library
      AgentTests.transport (λ m. none) 9 9 1 [] flat_question question
      (dict (field "name" (str "body") end)) "python" "8" "uri" "True" "" " True" "" "body" validate
      1 [] AgentTests.agent validating refl refl refl refl refl refl refl refl refl refl refl refl
      refl (refl, refl)

-- A request to deserialize a URI, and the row that its name is to agree with.
abbrev uri_fields : Fields
uri_fields = field "name" (str "uri") end

uri_fields-IsTidy : IsTidy uri_fields
unfolding IsTidy split get string_eq
uri_fields-IsTidy = (text-ne _ _ refl, refl, refl, tt, tt)

abbrev name_row : List Row
name_row = record { row_field = "name"; row_value = "uri" } ∷ []

abbrev deserializing : Context
deserializing = record asking { action = some "uri_deserialize" }

abbrev fields_reply : Fields
fields_reply = reply (dict uri_fields) "uri_deserialize" (str "9")

verify_uri_received_properties-process_message_example :
    let request = request_json "uri_deserialize" (str "/uri") none "9" in
    let out =
      send_serialized_command asserting StepsTests.peername
        (λ chunk. some (dict fields_reply))
        (call "9")
        "uri_deserialize"
        "/uri"
        deserializing in
    (out.1.tm.sent ≡ (9, request) ∷ [])
    × (process_message AgentTests.reflection AgentTests.validators AgentTests.library
          AgentTests.transport
          (λ m. none)
          (dict request)
          AgentTests.agent
        ≡ (ok tt, record AgentTests.agent { sent = fields_reply ∷ [] }))
    × (out.0 ≡ ok (some tt))
    × (((verify_uri_received_properties asserting name_row out.1).0 ≡ ok tt)
        ↔ All (Accepts asserting Asserted uri_fields) name_row)
unfolding program message_to_dict contains
verify_uri_received_properties-process_message_example =
    verify_uri_received_properties-process_message StepsTests.peername
      (λ chunk. some (dict fields_reply)) asserting Asserted asserting-ComparesAll
      AgentTests.reflection AgentTests.validators AgentTests.library AgentTests.transport
      (λ m. none) 9 9 1 [] "python" "uri_deserialize" "/uri" "9" "uri" uri_fields name_row 1 []
      AgentTests.agent deserializing refl refl refl refl refl refl refl refl refl (refl, refl)
      uri_fields-IsTidy (text-ne _ _ refl, tt) (refl, tt)
