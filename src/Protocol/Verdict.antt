-- ===== src/Protocol/Verdict.antt =====
-- test_manager/features/steps/tck_step_implementations.py, test_manager/testmanager.py and
-- test_agent/python/testagent.py: the verdict of a scenario, from the request of one step to the comparison of the
-- next ones.
pub mod Uri
pub mod Deserialized
use up_tck.Base.{
  ℕ, ◌≡◌, ◌≢◌, refl, ap, subst, sym, ◌∙◌, String, Bool, true, false, Option, none, some, List, [],
  ◌∷◌, ◌++◌, string_eq, ◌==◌, if◌then◌else◌, Bool-cases, inl, inr,
}
use up_tck.Base.Text.{strip, is_quote, is_space}
use up_tck.Base.Exec.{Exception, assertion_error, Result, ok, raise, pure, Exec, lift, ◌>>=◌}
use up_tck.Json.{Json, str, dict, Fields, get, subscript}
use up_tck.Agent.{
  Command, serialize_uri, validate_uri, find_command, commands, action_of, UTransport, Agent,
  record_sent, send_to_test_manager, send_reply, reply,
}
use up_tck.Agent.Codec.{Reflection, dict_to_proto}
use up_tck.Agent.Validation.{verdict, UriCheck, uri_check, look_up, uri_result}
use up_tck.Agent.Validation.Checks.{Validators, run_uri_check, validate_uri_data}
use up_tck.Agent.Handlers
use up_tck.Agent.Handlers.{
  data_to_proto, reply_text, reply_json, handle_long_serialize_uuri, handle_uri_validate, handler,
  report, run_command, process_action, process_message,
}
use up_tck.Manager.Database
use up_tck.Manager.Database.{Address}
use up_tck.Manager.Queue.Fifo.{waiting}
use up_tck.Manager.Server.{Bytes, normalize}
use up_tck.Manager.Server.Request.{Event, receive, request_json}
use up_tck.Manager.Server.Request.Arrival.{quiet, IsListening}
use up_tck.Steps.{unflatten_dict}
use up_tck.Steps.Cast.{Casted, json}
use up_tck.Steps.Context.{Context, Library, attribute, attribute-set, checked, reraise}
use up_tck.Steps.Received.{
  assert_json, serialized_uri_received, receive_stripped, receive_validation_result,
  receive_validation_message,
}
use up_tck.Steps.Sending.{Call, send_command_request}
use up_tck.Protocol.Scenario.{send_command_request-answered}

-- `assert_that(a, equal_to(b))` on two texts.
abbrev pub ComparesTexts : {Float : Type 0} → Library Float → Type 0
ComparesTexts l =
    (a b : String)
    → l.assert_equal (json (str a)) (json (str b))
      ≡ (if a == b then ok tt else raise assertion_error)

-- How a step ends that compares what it expects with a text.
abbrev pub compared : String → String → Result {0} Unit
compared expected actual = if expected == actual then ok tt else raise assertion_error

checked-if :
    (same : Bool) (c : Context) (m : Exec Context Unit)
    → m c ≡ (if same then ok tt else raise assertion_error, c)
    → checked m c ≡ (if same then ok tt else raise assertion_error, c)
unfolding checked reraise
checked-if true c m h = rw h refl
checked-if false c m h = rw h refl

module _ {Float : Type 0} (l : Library Float) (compares : ComparesTexts l) where
  serialized_uri_received-lem :
      (expected actual : String) (c : Context)
      → c.response_data ≡ some (str actual)
      → (serialized_uri_received l expected c).0 ≡ compared expected actual
  unfolding serialized_uri_received assert_json
  serialized_uri_received-lem expected actual c h =
      ap (λ p. p.0)
        (checked-if (expected == actual) c
          (attribute (λ c. c.response_data) >>= λ actual.
            lift (assert_json l (str expected) actual))
          (rw (attribute-set (λ c. c.response_data) c (str actual) h)
            (rw (compares expected actual) refl)))

  receive_stripped-lem :
      (key expected actual : String) (response : Json) (c : Context)
      → c.response_data ≡ some response
      → subscript response key ≡ ok (str actual)
      → (receive_stripped l key expected c).0 ≡ compared (strip is_space expected) actual
  unfolding receive_stripped assert_json
  receive_stripped-lem key expected actual response c h has =
      ap (λ p. p.0)
        (checked-if (strip is_space expected == actual) c
          (attribute (λ c. c.response_data) >>= λ response.
            lift (subscript response key) >>= λ actual.
            lift (assert_json l (str (strip is_space expected)) actual))
          (rw (attribute-set (λ c. c.response_data) c response h)
            (rw has (rw (compares (strip is_space expected) actual) refl))))

  receive_validation_result-lem :
      (expected actual : String) (response : Json) (c : Context)
      → c.response_data ≡ some response
      → subscript response "result" ≡ ok (str actual)
      → (receive_validation_result l expected c).0
        ≡ (if expected == "none" then ok tt else compared (strip is_space expected) actual)
  unfolding receive_validation_result
  receive_validation_result-lem expected actual response c h has =
      elim (Bool-cases (expected == "none")) [
        | inl silent ↦ rw silent refl
        | inr asked ↦ rw asked (receive_stripped-lem "result" expected actual response c h has)
      ]

module _ {T M : Type 0} (r : Reflection M) (v : Validators M) (l : Handlers.Library M)
    (t : UTransport T M) (sendall : Fields → Option Exception) where
  request_json-data :
      (action id : String) (payload : Json)
      → subscript (dict (request_json action payload none id)) "data" ≡ ok payload
  unfolding request_json subscript get string_eq
  request_json-data action id payload = refl

  -- A request to serialize a URI is answered with its text.
  process_message-serialize_uri :
      (nested : Fields) (uri : M) (text id : String) (agent : Agent T)
      → dict_to_proto r (dict nested) l.u_uri ≡ ok uri
      → l.long_serialize_uri uri ≡ ok text
      → sendall (reply (str text) "uri_serialize" (str id)) ≡ none
      → process_message r v l t sendall
          (dict (request_json "uri_serialize" (dict nested) none id))
          agent
        ≡ (
          ok tt,
          record agent { sent = agent.sent ++ reply (str text) "uri_serialize" (str id) ∷ [] },
        )
  unfolding process_message process_action find_command run_command handler
      handle_long_serialize_uuri data_to_proto reply_text report send_reply send_to_test_manager
      record_sent request_json subscript get string_eq action_of
  process_message-serialize_uri nested uri text id agent decoded serialized sends =
      rw decoded (rw serialized (rw sends refl))

  -- What the validator says that a request names.
  validate_uri_data-lem :
      (nested : Fields) (uuri_data : Json) (uri : M) (kind result message action id : String)
      (check : UriCheck)
      → get "validation_type" nested ≡ some (str kind)
      → get "uuri" nested ≡ some uuri_data
      → dict_to_proto r uuri_data v.u_uri ≡ ok uri
      → uri_check kind ≡ some check
      → run_uri_check r v uri (some check) ≡ ok (verdict result message)
      → validate_uri_data r v (dict (request_json action (dict nested) none id))
        ≡ ok (verdict result message)
  unfolding validate_uri_data subscript look_up
  validate_uri_data-lem nested uuri_data uri kind result message action id check named has decoded
        known says =
      rw (request_json-data action id (dict nested))
        (rw (named, subscript) (rw (has, subscript) (rw decoded (rw known says))))

  -- A request to validate a URI is answered with what the validator that it names says.
  process_message-validate_uri :
      (nested : Fields) (uuri_data : Json) (uri : M) (kind result message id : String)
      (check : UriCheck) (agent : Agent T)
      → get "validation_type" nested ≡ some (str kind)
      → get "uuri" nested ≡ some uuri_data
      → dict_to_proto r uuri_data v.u_uri ≡ ok uri
      → uri_check kind ≡ some check
      → run_uri_check r v uri (some check) ≡ ok (verdict result message)
      → sendall (reply (verdict result message) "uri_validate" (str id)) ≡ none
      → process_message r v l t sendall
          (dict (request_json "uri_validate" (dict nested) none id))
          agent
        ≡ (
          ok tt,
          record agent {
            sent = agent.sent ++ reply (verdict result message) "uri_validate" (str id) ∷ [];
          },
        )
  unfolding process_message process_action find_command run_command handler handle_uri_validate
      reply_json report send_reply send_to_test_manager record_sent request_json subscript get
      string_eq action_of
  process_message-validate_uri nested uuri_data uri kind result message id check agent named has
        decoded known says sends =
      rw
        (validate_uri_data-lem nested uuri_data uri kind result message "uri_validate" id check
          named has decoded known says)
        (rw sends refl)
