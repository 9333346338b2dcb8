-- ===== src/Protocol/Verdict/Uri.antt =====
-- test_manager/features/steps/tck_step_implementations.py and test_agent/python/testagent.py: the verdicts of the
-- scenarios that serialize and that validate a URI.
use up_tck.Base.{
  ℕ, ◌≡◌, refl, String, Option, none, some, List, [], ◌∷◌, ◌++◌, string_eq, ◌==◌, if◌then◌else◌,
}
use up_tck.Base.Text.{strip, is_quote, is_space}
use up_tck.Base.Exec.{Exception, ok}
use up_tck.Json.{Json, str, dict, Fields, get, subscript}
use up_tck.Agent.{serialize_uri, validate_uri, find_command, UTransport, Agent, reply}
use up_tck.Agent.Codec.{Reflection, dict_to_proto}
use up_tck.Agent.Validation.{verdict, UriCheck, uri_check}
use up_tck.Agent.Validation.Checks.{Validators, run_uri_check}
use up_tck.Agent.Handlers
use up_tck.Agent.Handlers.{process_message}
use up_tck.Manager.Database
use up_tck.Manager.Database.{Address}
use up_tck.Manager.Queue.Fifo.{waiting}
use up_tck.Manager.Server.{Bytes, normalize}
use up_tck.Manager.Server.Request.{Event, receive, request_json}
use up_tck.Manager.Server.Request.Arrival.{quiet, IsListening}
use up_tck.Steps.{unflatten_dict}
use up_tck.Steps.Context.{Context, Library}
use up_tck.Steps.Received.{
  serialized_uri_received, receive_validation_result, receive_validation_message,
}
use up_tck.Steps.Sending.{Call, send_command_request}
use up_tck.Protocol.Scenario.{send_command_request-answered}
use up_tck.Protocol.Verdict.{
  ComparesTexts, compared, serialized_uri_received-lem, receive_stripped-lem,
  receive_validation_result-lem, process_message-serialize_uri, process_message-validate_uri,
}

module _ (peername : ℕ → Option Address) (loads : Bytes → Option Json) {Float : Type 0}
    (library : Library Float) (compares : ComparesTexts library) {T M : Type 0} (r : Reflection M)
    (v : Validators M) (l : Handlers.Library M) (t : UTransport T M)
    (sendall : Fields → Option Exception) where
  -- The scenario that serializes a URI: the keys that are set unflatten to a dict that the known agent
  -- reads as a URI and serializes to a text, and its reply arrives in one chunk after any number of polls,
  -- when no other response waits. The step that asks returns, and the step behind it ends without an
  -- exception if the text is the expected one and with AssertionError otherwise. The listener thread runs,
  -- and the test id has no quotes around it.
  pub serialized_uri_received-process_message :
      (socket s b : ℕ) (bs : Bytes) (flat nested : Fields) (name id text expected : String)
      (uri : M) (n : ℕ) (rest : List (List Event)) (agent : Agent T) (c : Context)
      → c.json_dict ≡ some flat
      → unflatten_dict flat ≡ ok nested
      → c.ue ≡ some name
      → (Database.get_by_name (normalize name) c.tm.database).0 ≡ ok socket
      → strip is_quote id ≡ id
      → dict_to_proto r (dict nested) l.u_uri ≡ ok uri
      → l.long_serialize_uri uri ≡ ok text
      → sendall (reply (str text) "uri_serialize" (str id)) ≡ none
      → loads (b ∷ bs) ≡ some (dict (reply (str text) "uri_serialize" (str id)))
      → waiting c.tm.queues "uri_serialize" ≡ []
      → IsListening c.tm
      → let request = request_json "uri_serialize" (dict nested) none id in
        let call : Call = record {
          test_id = id;
          send_error = none;
          schedule = quiet n ((receive s (ok (b ∷ bs)) ∷ []) ∷ rest);
        } in
        let out = send_command_request library peername loads call "uri_serialize" c in
        (out.1.tm.sent ≡ c.tm.sent ++ (socket, request) ∷ [])
        × (process_message r v l t sendall (dict request) agent ≡ (
          ok tt,
          record agent { sent = agent.sent ++ reply (str text) "uri_serialize" (str id) ∷ [] },
        ))
        × (out.0 ≡ ok (some tt))
        × ((serialized_uri_received library expected out.1).0 ≡ compared expected text)
  unfolding find_command string_eq
  serialized_uri_received-process_message socket s b bs flat nested name id text expected uri n rest
        agent c set ran chosen known unquoted decoded serialized sends loaded empty runs =
      let (returned, kept, sent) =
        send_command_request-answered peername loads library socket s b bs flat nested name
          "uri_serialize" id serialize_uri (str text) n rest c set ran chosen known unquoted refl
          loaded empty runs in
      (
        sent,
        process_message-serialize_uri r v l t sendall nested uri text id agent decoded serialized
            sends,
        returned,
        serialized_uri_received-lem library compares expected text _ kept,
      )

  -- The scenario that validates a URI: the keys that are set unflatten to a dict with the URI and the name of
  -- a validator, the known agent asks that validator, and its reply arrives in one chunk after any
  -- number of polls, when no other response waits. The step that asks returns; the steps behind it
  -- compare the result and the message of the validator with the expected texts without the spaces
  -- around them, where "none" as the expected result is no question: each ends without an exception if
  -- the texts agree and with AssertionError otherwise. The listener thread runs, and the test id has no
  -- quotes around it.
  pub receive_validation_result-process_message :
      (socket s b : ℕ) (bs : Bytes) (flat nested : Fields) (uuri_data : Json)
      (name id kind result message expected_result expected_message : String) (uri : M)
      (check : UriCheck) (n : ℕ) (rest : List (List Event)) (agent : Agent T) (c : Context)
      → c.json_dict ≡ some flat
      → unflatten_dict flat ≡ ok nested
      → c.ue ≡ some name
      → (Database.get_by_name (normalize name) c.tm.database).0 ≡ ok socket
      → strip is_quote id ≡ id
      → get "validation_type" nested ≡ some (str kind)
      → get "uuri" nested ≡ some uuri_data
      → dict_to_proto r uuri_data v.u_uri ≡ ok uri
      → uri_check kind ≡ some check
      → run_uri_check r v uri (some check) ≡ ok (verdict result message)
      → sendall (reply (verdict result message) "uri_validate" (str id)) ≡ none
      → loads (b ∷ bs) ≡ some (dict (reply (verdict result message) "uri_validate" (str id)))
      → waiting c.tm.queues "uri_validate" ≡ []
      → IsListening c.tm
      → let request = request_json "uri_validate" (dict nested) none id in
        let call : Call = record {
          test_id = id;
          send_error = none;
          schedule = quiet n ((receive s (ok (b ∷ bs)) ∷ []) ∷ rest);
        } in
        let out = send_command_request library peername loads call "uri_validate" c in
        (out.1.tm.sent ≡ c.tm.sent ++ (socket, request) ∷ [])
        × (process_message r v l t sendall (dict request) agent ≡ (
          ok tt,
          record agent {
            sent = agent.sent ++ reply (verdict result message) "uri_validate" (str id) ∷ [];
          },
        ))
        × (out.0 ≡ ok (some tt))
        × ((receive_validation_result library expected_result out.1).0 ≡ (
            if expected_result == "none"
            then ok tt
            else compared (strip is_space expected_result) result))
        × ((receive_validation_message library expected_message out.1).0
            ≡ compared (strip is_space expected_message) message)
  unfolding find_command string_eq receive_validation_message verdict subscript get
  receive_validation_result-process_message socket s b bs flat nested uuri_data name id kind result
        message expected_result expected_message uri check n rest agent c set ran chosen known
        unquoted named has decoded kinds says sends loaded empty runs =
      let (returned, kept, sent) =
        send_command_request-answered peername loads library socket s b bs flat nested name
          "uri_validate" id validate_uri (verdict result message) n rest c set ran chosen known
          unquoted refl loaded empty runs in
      (
        sent,
        process_message-validate_uri r v l t sendall nested uuri_data uri kind result message id
            check agent named has decoded kinds says sends,
        returned,
        receive_validation_result-lem library compares expected_result result
            (verdict result message) _ kept refl,
        receive_stripped-lem library compares "message" expected_message message
            (verdict result message) _ kept refl,
      )
