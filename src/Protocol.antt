-- ===== src/Protocol.antt =====
-- test_manager/testmanager.py and test_agent/python/testagent.py: a request of the manager, its
-- handling by an agent, and the reply on its way back.
pub mod Scenario
pub mod Onreceive
pub mod Verdict
mod Tests
use up_tck.Base.{
  ℕ, ◌≡◌, ◌≢◌, refl, sym, ap, ◌∙◌, String, Option, none, some, [], ◌∷◌, ◌++◌, string_eq,
}
use up_tck.Base.Text.{strip, is_quote}
use up_tck.Base.Exec.{ok-inj, Exception, ok}
use up_tck.Json.{Json, str, dict, Fields, get, put, subscript}
use up_tck.Agent.{Command, invoke_method, find_command, commands, UTransport, Agent, reply}
use up_tck.Agent.Codec.{Reflection}
use up_tck.Agent.Validation.Checks.{Validators}
use up_tck.Agent.Handlers.{Library, process_message}
use up_tck.Agent.Handlers.Replies.{silent, replied}
use up_tck.Agent.Handlers.Answers.{Unanswered, process_message-Replied}
use up_tck.Manager.Database.{Address}
use up_tck.Manager.Queue
use up_tck.Manager.Server.{Bytes, Manager, receive_from_test_agent}
use up_tck.Manager.Server.Handlers.{receive_from_test_agent-response}
use up_tck.Manager.Server.Request.{request_json}

-- Every request names its action and its test id.
request_json-action :
    (action : String) (payload : Json) (extra : Option Json) (id : String)
    → subscript (dict (request_json action payload extra id)) "action" ≡ ok (str action)
unfolding request_json subscript get string_eq
request_json-action action payload none id = refl
request_json-action action payload (some value) id = refl

request_json-test_id :
    (action : String) (payload : Json) (extra : Option Json) (id : String)
    → subscript (dict (request_json action payload extra id)) "test_id" ≡ ok (str id)
unfolding request_json subscript get string_eq
request_json-test_id action payload none id = refl
request_json-test_id action payload (some value) id = refl

pub reply-action :
    (response : Json) (action : String) (id : Json)
    → get "action" (reply response action id) ≡ some (str action)
unfolding reply get string_eq
reply-action response action id = refl

pub reply-test_id :
    (response : Json) (action : String) (id : Json)
    → get "test_id" (reply response action id) ≡ some id
unfolding reply get string_eq
reply-test_id response action id = refl

pub ne_initialize :
    (action : String) (c : Command) → find_command action commands ≡ some c → action ≢ "initialize"
unfolding find_command string_eq
ne_initialize action c found e = cc (sym found ∙ ap (λ a. find_command a commands) e)

-- A request whose handler answers at once, if the agent handles it without an exception, is answered
-- by one message. When the manager receives that in one chunk, it puts it on the queue of the request's action,
-- under the request's test id without quotes around it.
pub request-reply :
    {T M : Type 0} (r : Reflection M) (v : Validators M) (l : Library M) (t : UTransport T M)
    (sendall : Fields → Option Exception) (s : Agent T) (peername : ℕ → Option Address)
    (loads : Bytes → Option Json) (m : Manager) (socket b : ℕ) (bs : Bytes) (action id : String)
    (payload : Json) (extra : Option Json) (c : Command)
    → ((msg : Fields)
        → (process_message r v l t sendall (dict (request_json action payload extra id)) s).1.sent
          ≡ s.sent ++ msg ∷ []
        → loads (b ∷ bs) ≡ some (dict msg))
    → find_command action commands ≡ some c
    → c ≢ invoke_method
    → (process_message r v l t sendall (dict (request_json action payload extra id)) s).0 ≡ ok tt
    → (response : Json) × ((process_message r v l t sendall
          (dict (request_json action payload extra id))
          s).1.sent
        ≡ s.sent ++ reply response action (str id) ∷ [])
      × (let msg = reply response action (str id) in
          receive_from_test_agent peername loads socket (ok (b ∷ bs)) m ≡ (
            ok tt,
            record m {
              queues =
                  (Queue.append action (put "test_id" (str (strip is_quote id)) msg) m.queues).1;
            },
          ))
unfolding Unanswered
request-reply r v l t sendall s peername loads m socket b bs action id payload extra c decodes found
      at_once ran =
    elim (process_message-Replied r v l t sendall (dict (request_json action payload extra id)) s
      action (request_json-action action payload extra id)) [
        | silent same why ↦ absurd (at_once (why ran c found))
        | replied response test_id identified same ↦
            let is_id : ◌≡◌ {A = Json} test_id (str id) =
              ok-inj (sym identified ∙ request_json-test_id action payload extra id) in
            let sent' = same ∙ ap (λ i. s.sent ++ reply response action i ∷ []) is_id in
            (
              response,
              sent',
              receive_from_test_agent-response peername loads m socket b bs _ (decodes _ sent')
                  action id (reply-action response action (str id)) (ne_initialize action c found)
                  (reply-test_id response action (str id)),
            )
      ]
