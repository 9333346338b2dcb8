-- ===== src/Protocol/Onreceive.antt =====
-- test_agent/python/testagent.py, test_manager/testmanager.py and
-- test_manager/features/steps/tck_step_implementations.py: a message from the listener of an agent to the step that
-- waits for it.
use up_tck.Base.{ℕ, String, ◌≡◌, refl, false, Option, none, some, List, [], ◌∷◌, ◌++◌, string_eq}
use up_tck.Base.Text.{strip, is_space}
use up_tck.Base.Substrings.{split_on}
use up_tck.Base.Exec.{Exception, ok}
use up_tck.Json.{Json, str, dict, Fields, get}
use up_tck.Agent.{UTransport, Agent, record_sent, send_to_test_manager, reply}
use up_tck.Agent.Codec.{Reflection, message_to_dict}
use up_tck.Agent.Validation.Checks.{Validators}
use up_tck.Agent.Handlers.{Library}
use up_tck.Agent.Receive.{Builder, on_receive}
use up_tck.Manager.Database.{Address}
use up_tck.Manager.Queue.Fifo.{waiting}
use up_tck.Manager.Server.{Bytes}
use up_tck.Manager.Server.Request.{Event, receive}
use up_tck.Manager.Server.Request.Arrival.{quiet, IsListening}
use up_tck.Manager.Server.Request.Undisturbed.{IsUndisturbed}
use up_tck.Steps.{access_nested_dict}
use up_tck.Steps.Cast.{second}
use up_tck.Steps.Context.{Context}
use up_tck.Steps.Payloads.{receive_value_as_bytes}
use up_tck.Steps.Payloads.Returns.{verdict, receive_value_as_bytes-returns}
use up_tck.Protocol.{reply-action, reply-test_id}

reply-data :
    (response : Json) (action : String) (id : Json)
    → get "data" (reply response action id) ≡ some response
unfolding reply get string_eq
reply-data response action id = refl

reply-ue :
    (response : Json) (action : String) (id : Json)
    → get "ue" (reply response action id) ≡ some (str "python")
unfolding reply get string_eq
reply-ue response action id = refl

module _ {T M : Type 0} (r : Reflection M) (v : Validators M) (l : Library M) (t : UTransport T M)
    (sendall : Fields → Option Exception) where
  on_receive-sends :
      (builder : Builder M) (umsg : M) (d : Fields) (agent : Agent T)
      → builder.is_request umsg ≡ false
      → message_to_dict (l.view umsg) ≡ ok d
      → sendall (reply (dict d) "onreceive" (str "")) ≡ none
      → (on_receive r v l t sendall builder umsg agent).1.sent
        ≡ agent.sent ++ reply (dict d) "onreceive" (str "") ∷ []
  unfolding on_receive send_to_test_manager record_sent
  on_receive-sends builder umsg d agent heard shown sends = rw heard (rw shown (rw sends refl))

  -- The listener of the Python agent hears a message that is no request: it sends the message to the
  -- manager. If that arrives in one chunk after any number of polls and no other onreceive message
  -- waits, the step that waits for it compares the type in the field with the expected one, both texts
  -- that hold "googleapis.com/", where no message came from Rust: it returns if what follows is the same
  -- and raises AssertionError otherwise; the listener of the manager goes on, its agents are the same and so are the messages
  -- that wait.
  pub receive_value_as_bytes-on_receive :
      (peername : ℕ → Option Address) (loads : Bytes → Option Json) (builder : Builder M) (umsg : M)
      (d : Fields) (agent : Agent T) (s b : ℕ) (bs : Bytes)
      (field_name expected received a e : String) (n : ℕ) (rest : List (List Event)) (c : Context)
      → builder.is_request umsg ≡ false
      → message_to_dict (l.view umsg) ≡ ok d
      → sendall (reply (dict d) "onreceive" (str "")) ≡ none
      → loads (b ∷ bs) ≡ some (dict (reply (dict d) "onreceive" (str "")))
      → access_nested_dict (dict d) field_name ≡ ok (str received)
      → c.rust_sender ≡ some false
      → second (split_on "googleapis.com/" received) ≡ ok a
      → second (split_on "googleapis.com/" (strip is_space expected)) ≡ ok e
      → waiting c.tm.queues "onreceive" ≡ []
      → IsListening c.tm
      → let out =
          receive_value_as_bytes peername loads
            (quiet n ((receive s (ok (b ∷ bs)) ∷ []) ∷ rest))
            "python"
            field_name
            expected
            c in
        ((on_receive r v l t sendall builder umsg agent).1.sent
          ≡ agent.sent ++ reply (dict d) "onreceive" (str "") ∷ [])
        × (out.0 ≡ verdict a e)
        × IsUndisturbed c.tm out.1.tm
  unfolding string_eq
  receive_value_as_bytes-on_receive peername loads builder umsg d agent s b bs field_name expected
        received a e n rest c heard shown sends loaded finds flag got wanted empty runs =
      let msg = reply (dict d) "onreceive" (str "") in
      let (ended, after) =
        receive_value_as_bytes-returns peername loads s b bs msg (dict d) "python" "" field_name
          expected received a e n rest c loaded (reply-action (dict d) "onreceive" (str ""))
          (reply-test_id (dict d) "onreceive" (str "")) (reply-ue (dict d) "onreceive" (str ""))
          (reply-data (dict d) "onreceive" (str "")) refl finds flag got wanted empty runs in
      (on_receive-sends builder umsg d agent heard shown sends, ended, after)
