-- ===== src/Steps/Sending/Requests.antt =====
-- test_manager/features/steps/tck_step_implementations.py: a request of a scenario from the keys that
-- its steps have set to the data of its response.
use up_tck.Base.{
  ℕ, String, ◌≡◌, ◌≢◌, refl, ap, ◌∙◌, Option, none, some, List, [], ◌∷◌, ◌++◌, string_eq,
}
use up_tck.Base.Text.{strip, is_quote}
use up_tck.Base.Exec.{ok}
use up_tck.Json.{Json, str, dict, Fields, get, get-put_ne, data-ne-test_id}
use up_tck.Manager.Database
use up_tck.Manager.Database.{Address, found}
use up_tck.Manager.Queue.Fifo.{waiting}
use up_tck.Manager.Server.{Bytes, normalize}
use up_tck.Manager.Server.Request.{Event, receive, request_json, request}
use up_tck.Manager.Server.Request.Arrival.{quiet, IsListening}
use up_tck.Manager.Server.Request.Return.{request-returns}
use up_tck.Manager.Server.Request.Sends.{addressed, request-sends}
use up_tck.Steps.{unflatten_dict}
use up_tck.Steps.RoundTrip.{KeysApart, access_nested_dict-unflatten}
use up_tck.Steps.Context.{Context, Library, attribute-set}
use up_tck.Steps.Sending.{Call, keep_data, tm_request, send_command_request}

module _ (peername : ℕ → Option Address) (loads : Bytes → Option Json) {Float : Type 0}
    (l : Library Float) where
  pub send_command_request-eq :
      (call : Call) (flat nested response : Fields) (name command : String) (v : Json) (c : Context)
      → c.json_dict ≡ some flat
      → unflatten_dict flat ≡ ok nested
      → c.ue ≡ some name
      → (request peername loads name command
          (dict nested)
          none
          call.test_id
          call.send_error
          call.schedule
          c.tm).0
        ≡ ok (some response)
      → get "data" response ≡ some v
      → send_command_request l peername loads call command c ≡ (
        ok (some tt),
        record c {
          json_dict = some nested;
          response_data = some v;
          tm =
              (request peername loads name command
                (dict nested)
                none
                call.test_id
                call.send_error
                call.schedule
                c.tm).1;
        },
      )
  unfolding send_command_request tm_request
  send_command_request-eq call flat nested response name command v c set ran chosen returned kept =
      let c' : Context = record c { json_dict = some nested } in
      rw (attribute-set (λ c. c.json_dict) c flat set) (
        rw ran
          (rw (attribute-set (λ c. c.ue) c' name chosen) (rw returned (rw (kept, keep_data) refl))))

  -- `json_dict` holds a request whose keys' paths are apart, and the agent is known and answers under
  -- the request's test id after any number of polls, with no other response waiting: the step
  -- returns, has sent the agent one message with the nested dicts of the keys, and leaves the data
  -- of the response in the context.
  send_command_request-returns :
      (socket s b : ℕ) (bs : Bytes) (msg flat : Fields) (name command id : String) (v : Json)
      (n : ℕ) (rest : List (List Event)) (c : Context)
      → c.json_dict ≡ some flat
      → KeysApart flat
      → c.ue ≡ some name
      → (Database.get_by_name (normalize name) c.tm.database).0 ≡ ok socket
      → loads (b ∷ bs) ≡ some (dict msg)
      → get "action" msg ≡ some (str command)
      → command ≢ "initialize"
      → get "test_id" msg ≡ some (str id)
      → get "data" msg ≡ some v
      → waiting c.tm.queues command ≡ []
      → IsListening c.tm
      → let call : Call = record {
        test_id = strip is_quote id;
        send_error = none;
        schedule = quiet n ((receive s (ok (b ∷ bs)) ∷ []) ∷ rest);
      } in
        let out = send_command_request l peername loads call command c in
        (nested : Fields) × (unflatten_dict flat ≡ ok nested)
        × (out.0 ≡ ok (some tt))
        × (out.1.response_data ≡ some v)
        × (out.1.tm.sent
            ≡ c.tm.sent
              ++ (socket, request_json command (dict nested) none (strip is_quote id)) ∷ [])
  send_command_request-returns socket s b bs msg flat name command id v n rest c set apart chosen
        known loaded named other identified has_data empty runs =
      let test_id = strip is_quote id in
      let schedule = quiet n ((receive s (ok (b ∷ bs)) ∷ []) ∷ rest) in
      let call : Call = record { test_id = test_id; send_error = none; schedule = schedule } in
      let (nested, ran, _) = access_nested_dict-unflatten flat apart in
      let returned =
        request-returns peername loads s b bs msg name command id (dict nested) none none n rest
          c.tm loaded named other identified ((socket, known), refl) empty runs in
      let kept = get-put_ne "data" "test_id" (str test_id) msg data-ne-test_id ∙ has_data in
      let sent =
        request-sends peername loads name command test_id (dict nested) none schedule c.tm
        ∙ ap (λ r. c.tm.sent ++ addressed r (request_json command (dict nested) none test_id))
            known in
      let e =
        send_command_request-eq call flat nested _ name command v c set ran chosen returned kept in
      (nested, ran, ap (λ p. p.0) e, ap (λ p. p.1.response_data) e, ap (λ p. p.1.tm.sent) e ∙ sent)
