-- ===== src/Protocol/Scenario.antt =====
-- test_manager/features/steps/tck_step_implementations.py, test_manager/testmanager.py and
-- test_agent/python/testagent.py: a step of a scenario from the keys that are set to the response that the agent
-- gave.
use up_tck.Base.{
  ℕ, ◌≡◌, ◌≢◌, refl, ap, ◌∙◌, String, Option, none, some, List, [], ◌∷◌, ◌++◌, string_eq,
}
use up_tck.Base.Text.{strip, is_quote}
use up_tck.Base.Exec.{Exception, ok}
use up_tck.Json.{Json, str, dict, Fields, get, put}
use up_tck.Agent.{Command, invoke_method, find_command, commands, UTransport, Agent, reply}
use up_tck.Agent.Codec.{Reflection}
use up_tck.Agent.Validation.Checks.{Validators}
use up_tck.Agent.Handlers
use up_tck.Agent.Handlers.{process_message}
use up_tck.Manager.Database
use up_tck.Manager.Database.{Address}
use up_tck.Manager.Queue.Fifo.{waiting}
use up_tck.Manager.Server.{Bytes, normalize}
use up_tck.Manager.Server.Request.{Event, receive, request_json}
use up_tck.Manager.Server.Request.Arrival.{quiet, IsListening}
use up_tck.Manager.Server.Request.Return.{request-returns}
use up_tck.Manager.Server.Request.Sends.{addressed, request-sends}
use up_tck.Steps.{unflatten_dict}
use up_tck.Steps.Context.{Context, Library}
use up_tck.Steps.Sending.{Call, send_command_request}
use up_tck.Steps.Sending.Requests.{send_command_request-eq}
use up_tck.Protocol.{reply-action, reply-test_id, ne_initialize, request-reply}

pub kept_data :
    (response : Json) (action id : String)
    → get "data" (put "test_id" (str id) (reply response action (str id))) ≡ some response
unfolding reply get put string_eq
kept_data response action id = refl

module _ (peername : ℕ → Option Address) (loads : Bytes → Option Json) {Float : Type 0}
    (library : Library Float) where
  -- A step whose request the agent has answered with this reply, from its call to its return.
  pub send_command_request-answered :
      (socket s b : ℕ) (bs : Bytes) (flat nested : Fields) (name command id : String)
      (cmd : Command) (response : Json) (n : ℕ) (rest : List (List Event)) (c : Context)
      → c.json_dict ≡ some flat
      → unflatten_dict flat ≡ ok nested
      → c.ue ≡ some name
      → (Database.get_by_name (normalize name) c.tm.database).0 ≡ ok socket
      → strip is_quote id ≡ id
      → find_command command commands ≡ some cmd
      → loads (b ∷ bs) ≡ some (dict (reply response command (str id)))
      → waiting c.tm.queues command ≡ []
      → IsListening c.tm
      → let call : Call = record {
        test_id = id;
        send_error = none;
        schedule = quiet n ((receive s (ok (b ∷ bs)) ∷ []) ∷ rest);
      } in
        let out = send_command_request library peername loads call command c in
        (out.0 ≡ ok (some tt))
        × (out.1.response_data ≡ some response)
        × (out.1.tm.sent ≡ c.tm.sent ++ (socket, request_json command (dict nested) none id) ∷ [])
  send_command_request-answered socket s b bs flat nested name command id cmd response n rest c set
        ran chosen known unquoted found loaded empty runs =
      let schedule = quiet n ((receive s (ok (b ∷ bs)) ∷ []) ∷ rest) in
      let call : Call = record { test_id = id; send_error = none; schedule = schedule } in
      let returned =
        request-returns peername loads s b bs (reply response command (str id)) name command id
          (dict nested) none none n rest c.tm loaded (reply-action response command (str id))
          (ne_initialize command cmd found) (reply-test_id response command (str id))
          ((socket, known), refl) empty runs in
      let e =
        send_command_request-eq peername loads library call flat nested _ name command response c
          set ran chosen (rw unquoted at returned) (kept_data response command id) in
      (
        ap (λ p. p.0) e,
        ap (λ p. p.1.response_data) e,
        ap (λ p. p.1.tm.sent) e
            ∙ request-sends peername loads name command id (dict nested) none schedule c.tm
            ∙ ap (λ r. c.tm.sent ++ addressed r (request_json command (dict nested) none id)) known,
      )

module _ (peername : ℕ → Option Address) (loads : Bytes → Option Json) {Float : Type 0}
    (library : Library Float) {T M : Type 0} (r : Reflection M) (v : Validators M)
    (l : Handlers.Library M) (t : UTransport T M) (sendall : Fields → Option Exception) where
  -- The keys of a step unflatten, the agent that it names is known and has a handler for the command
  -- that answers at once, and the agent handles the request that the manager sends without an
  -- exception. If what the agent then sends arrives in one chunk after any number of polls, and no
  -- other response waits for the command, the step returns; the manager has sent the one request and
  -- the agent the one reply, and the response of that is the data in the context. The listener thread
  -- runs, and the test id has no quotes around it.
  pub send_command_request-process_message :
      (socket s b : ℕ) (bs : Bytes) (flat nested : Fields) (name command id : String)
      (cmd : Command) (n : ℕ) (rest : List (List Event)) (agent : Agent T) (c : Context)
      → c.json_dict ≡ some flat
      → unflatten_dict flat ≡ ok nested
      → c.ue ≡ some name
      → (Database.get_by_name (normalize name) c.tm.database).0 ≡ ok socket
      → strip is_quote id ≡ id
      → find_command command commands ≡ some cmd
      → cmd ≢ invoke_method
      → (process_message r v l t sendall
          (dict (request_json command (dict nested) none id))
          agent).0
        ≡ ok tt
      → ((msg : Fields)
          → (process_message r v l t sendall
              (dict (request_json command (dict nested) none id))
              agent).1.sent
            ≡ agent.sent ++ msg ∷ []
          → loads (b ∷ bs) ≡ some (dict msg))
      → waiting c.tm.queues command ≡ []
      → IsListening c.tm
      → let request = request_json command (dict nested) none id in
        let call : Call = record {
          test_id = id;
          send_error = none;
          schedule = quiet n ((receive s (ok (b ∷ bs)) ∷ []) ∷ rest);
        } in
        let out = send_command_request library peername loads call command c in
        (response : Json) × (out.0 ≡ ok (some tt))
        × (out.1.response_data ≡ some response)
        × (out.1.tm.sent ≡ c.tm.sent ++ (socket, request) ∷ [])
        × ((process_message r v l t sendall (dict request) agent).1.sent
            ≡ agent.sent ++ reply response command (str id) ∷ [])
  send_command_request-process_message socket s b bs flat nested name command id cmd n rest agent c
        set ran chosen known unquoted found at_once handled decodes empty runs =
      let (response, replied, _) =
        request-reply r v l t sendall agent peername loads c.tm socket b bs command id (dict nested)
          none cmd decodes found at_once handled in
      let (returned, kept, sent) =
        send_command_request-answered peername loads library socket s b bs flat nested name command
          id cmd response n rest c set ran chosen known unquoted found (decodes _ replied) empty
          runs in
      (response, returned, kept, sent, replied)
