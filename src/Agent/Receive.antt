-- ===== src/Agent/Receive.antt =====
-- test_agent/python/testagent.py: the listener of the agent, and the thread that receives from the
-- manager. What `recv` and `json.loads` give is a parameter, as for the manager.
pub mod Order
use up_tck.Base.{ℕ, String, Bool, Option, none, some, List, [], ◌∷◌, if◌then◌else◌}
use up_tck.Base.Exec.{
  Exec, Exception, decode_error, Result, ok, raise, pure, throw, lift, ◌>>=◌, ◌>>◌,
}
use up_tck.Json.{Json, str, dict, Fields}
use up_tck.Agent.{UTransport, Agent, on_transport, send_to_test_manager}
use up_tck.Agent.Codec.{Reflection, View, message_to_dict}
use up_tck.Agent.Validation.Checks.{Validators}
use up_tck.Agent.Handlers.{Library, process_message}

abbrev pub Bytes : Type 0
Bytes = List ℕ

-- `build_response` is `UAttributesBuilder.response(…).build()` with the priority CS4, `pack` a text
-- in an `Any` as a payload.
pub record Builder (M : Type 0) : Type 0 where
  pub is_request : M → Bool
  pub build_response : M → M → M → M
  pub pack : String → M
  pub u_message : M → M → M

module _ {T M : Type 0} (r : Reflection M) (v : Validators M) (l : Library M) (t : UTransport T M)
    (sendall : Fields → Option Exception) where
  unfoldable pub respond : Builder M → M → Exec (Agent T) Unit
  respond b attributes = do
    status ← on_transport (
        t.send (
          b.u_message
            (b.build_response (r.get_attr attributes "sink") (r.get_attr attributes "source")
              (r.get_attr attributes "id"))
            (b.pack "SuccessRPCResponse")))
    pure tt

  -- `SocketUListener.on_receive`
  unfoldable pub on_receive : Builder M → M → Exec (Agent T) Unit
  unfolding respond message_to_dict send_to_test_manager
  on_receive b umsg =
      if b.is_request umsg
      then respond b (r.get_attr umsg "attributes")
      else (lift (message_to_dict (l.view umsg)) >>= λ response.
          send_to_test_manager sendall (dict response) "onreceive" (str ""))

  module _ (loads : Bytes → Option Json) where
    unfoldable pub process_json : Option Json → Exec (Agent T) Unit
    unfolding process_message
    process_json none = throw decode_error
    process_json (some json_data) = process_message r v l t sendall json_data

    -- `receive_from_tm`, for what `recv` gives one time after the other.
    unfoldable pub receive_from_tm : List (Result Bytes) → Exec (Agent T) Unit
    unfolding process_json
    receive_from_tm [] = pure tt
    receive_from_tm (raise e ∷ received) = throw e
    receive_from_tm (ok [] ∷ received) = pure tt
    receive_from_tm (ok (b ∷ bs) ∷ received) =
        process_json (loads (b ∷ bs)) >> receive_from_tm received
