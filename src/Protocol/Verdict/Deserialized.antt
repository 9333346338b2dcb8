-- ===== src/Protocol/Verdict/Deserialized.antt =====
-- test_manager/features/steps/tck_step_implementations.py and test_agent/python/testagent.py: the verdict of the
-- scenario that deserializes a URI.
use up_tck.Base.{
  ℕ, ◌≡◌, ◌≢◌, ◌↔◌, refl, ap, ◌∙◌, String, Option, none, some, List, [], ◌∷◌, ◌++◌, All, IsSetList,
  map, string_eq,
}
use up_tck.Base.Text.{strip, is_quote}
use up_tck.Base.Exec.{Exception, ok}
use up_tck.Json.{Json, str, dict, Fields, get, subscript}
use up_tck.Agent.{
  deserialize_uri, find_command, action_of, UTransport, Agent, record_sent, send_to_test_manager,
  send_message, reply,
}
use up_tck.Agent.Codec.{Reflection, message_to_dict}
use up_tck.Agent.Validation.Checks.{Validators}
use up_tck.Agent.Handlers
use up_tck.Agent.Handlers.{
  reply_message, handle_long_deserialize_uri, handler, report, run_command, process_action,
  process_message,
}
use up_tck.Manager.Database
use up_tck.Manager.Database.{Address, found}
use up_tck.Manager.Queue.Fifo.{waiting}
use up_tck.Manager.Server.{Bytes, normalize}
use up_tck.Manager.Server.Request.{Event, receive, request_json, request}
use up_tck.Manager.Server.Request.Arrival.{quiet, IsListening}
use up_tck.Manager.Server.Request.Return.{request-returns}
use up_tck.Manager.Server.Request.Sends.{addressed, request-sends}
use up_tck.Steps.Cast.{Casted}
use up_tck.Steps.Context.{Context, Library, attribute-set}
use up_tck.Steps.Leaves.{IsTidy}
use up_tck.Steps.Properties.{Row, verify_uri_received_properties}
use up_tck.Steps.Properties.Uri.{ComparesAll, Accepts, verify_uri_received_properties-Accepts}
use up_tck.Steps.Sending.{Call, keep_present, tm_request, send_serialized_command}
use up_tck.Protocol.{reply-action, reply-test_id, ne_initialize}
use up_tck.Protocol.Scenario.{kept_data}

module _ (peername : ℕ → Option Address) (loads : Bytes → Option Json) {Float : Type 0}
    (library : Library Float) where
  send_serialized_command-eq :
      (call : Call) (response : Fields) (name action command serialized : String) (v : Json)
      (c : Context)
      → c.ue ≡ some name
      → c.action ≡ some action
      → (request peername loads name action
          (str serialized)
          none
          call.test_id
          call.send_error
          call.schedule
          c.tm).0
        ≡ ok (some response)
      → get "data" response ≡ some v
      → send_serialized_command library peername loads call command serialized c ≡ (
        ok (some tt),
        record c {
          response_data = some v;
          tm =
              (request peername loads name action
                (str serialized)
                none
                call.test_id
                call.send_error
                call.schedule
                c.tm).1;
        },
      )
  unfolding send_serialized_command tm_request
  send_serialized_command-eq call response name action command serialized v c chosen set returned
        kept =
      rw (attribute-set (λ c. c.ue) c name chosen) (
        rw (attribute-set (λ c. c.action) c action set)
          (rw returned (rw (kept, keep_present) refl)))

module _ {T M : Type 0} (r : Reflection M) (v : Validators M) (l : Handlers.Library M)
    (t : UTransport T M) (sendall : Fields → Option Exception) where
  -- A request to deserialize a URI is answered with the fields of the message.
  process_message-deserialize_uri :
      (serialized id : String) (uri : M) (d : Fields) (agent : Agent T)
      → l.long_deserialize_uri (str serialized) ≡ ok uri
      → message_to_dict (l.view uri) ≡ ok d
      → sendall (reply (dict d) "uri_deserialize" (str id)) ≡ none
      → process_message r v l t sendall
          (dict (request_json "uri_deserialize" (str serialized) none id))
          agent
        ≡ (
          ok tt,
          record agent { sent = agent.sent ++ reply (dict d) "uri_deserialize" (str id) ∷ [] },
        )
  unfolding process_message process_action find_command run_command handler
      handle_long_deserialize_uri reply_message report send_message send_to_test_manager record_sent
      request_json subscript get string_eq action_of
  process_message-deserialize_uri serialized id uri d agent decoded shown sends =
      rw decoded (rw shown (rw sends refl))

module _ (peername : ℕ → Option Address) (loads : Bytes → Option Json) {Float : Type 0}
    (library : Library Float) (same : Casted Float → Casted Float → Type 0)
    (compares : ComparesAll library same) {T M : Type 0} (r : Reflection M) (v : Validators M)
    (l : Handlers.Library M) (t : UTransport T M) (sendall : Fields → Option Exception) where
  -- The scenario that deserializes a URI: the known agent reads the text as a URI, whose fields it sends
  -- back, and this reply arrives in one chunk after any number of polls, when no other response
  -- waits. The keys of the fields are not empty, have no dot and are distinct, and the rows of the table
  -- name different fields, none of them empty. The step that asks returns, and the step behind it ends without an exception
  -- exactly if it accepts the fields in every row. The listener thread runs, and the test id has no
  -- quotes around it.
  pub verify_uri_received_properties-process_message :
      (socket s b : ℕ) (bs : Bytes) (name command serialized id : String) (uri : M) (d : Fields)
      (rows : List Row) (n : ℕ) (rest : List (List Event)) (agent : Agent T) (c : Context)
      → c.ue ≡ some name
      → c.action ≡ some "uri_deserialize"
      → (Database.get_by_name (normalize name) c.tm.database).0 ≡ ok socket
      → strip is_quote id ≡ id
      → l.long_deserialize_uri (str serialized) ≡ ok uri
      → message_to_dict (l.view uri) ≡ ok d
      → sendall (reply (dict d) "uri_deserialize" (str id)) ≡ none
      → loads (b ∷ bs) ≡ some (dict (reply (dict d) "uri_deserialize" (str id)))
      → waiting c.tm.queues "uri_deserialize" ≡ []
      → IsListening c.tm
      → IsTidy d
      → All (λ row. row.row_field ≢ "") rows
      → IsSetList (map (λ row. row.row_field) rows)
      → let request = request_json "uri_deserialize" (str serialized) none id in
        let call : Call = record {
          test_id = id;
          send_error = none;
          schedule = quiet n ((receive s (ok (b ∷ bs)) ∷ []) ∷ rest);
        } in
        let out = send_serialized_command library peername loads call command serialized c in
        (out.1.tm.sent ≡ c.tm.sent ++ (socket, request) ∷ [])
        × (process_message r v l t sendall (dict request) agent ≡ (
          ok tt,
          record agent { sent = agent.sent ++ reply (dict d) "uri_deserialize" (str id) ∷ [] },
        ))
        × (out.0 ≡ ok (some tt))
        × (((verify_uri_received_properties library rows out.1).0 ≡ ok tt)
            ↔ All (Accepts library same d) rows)
  unfolding find_command string_eq
  verify_uri_received_properties-process_message socket s b bs name command serialized id uri d rows
        n rest agent c chosen set known unquoted decoded shown sends loaded empty runs tidy ne
        apart =
      let schedule = quiet n ((receive s (ok (b ∷ bs)) ∷ []) ∷ rest) in
      let call : Call = record { test_id = id; send_error = none; schedule = schedule } in
      let returned =
        request-returns peername loads s b bs (reply (dict d) "uri_deserialize" (str id)) name
          "uri_deserialize" id (str serialized) none none n rest c.tm loaded
          (reply-action (dict d) "uri_deserialize" (str id))
          (ne_initialize "uri_deserialize" deserialize_uri refl)
          (reply-test_id (dict d) "uri_deserialize" (str id)) ((socket, known), refl) empty runs in
      let e =
        send_serialized_command-eq peername loads library call _ name "uri_deserialize" command
          serialized (dict d) c chosen set (rw unquoted at returned)
          (kept_data (dict d) "uri_deserialize" id) in
      (
        ap (λ p. p.1.tm.sent) e
            ∙ request-sends peername loads name "uri_deserialize" id (str serialized) none schedule
                c.tm
            ∙ ap
                (λ r.
                  c.tm.sent
                  ++ addressed r (request_json "uri_deserialize" (str serialized) none id))
                known,
        process_message-deserialize_uri r v l t sendall serialized id uri d agent decoded shown
            sends,
        ap (λ p. p.0) e,
        verify_uri_received_properties-Accepts library same compares d tidy rows
            (send_serialized_command library peername loads call command serialized c).1 ne apart
            (ap (λ p. p.1.response_data) e),
      )
