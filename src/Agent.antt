-- ===== src/Agent.antt =====
-- test_agent/python/testagent.py, with constants/actioncommands.py: the test agent, which carries
-- out the manager's requests. The uProtocol library (`Library`) and the socket to the manager are
-- parameters; the transport is an interface (`UTransport`). `sent` records the messages to the
-- manager, `callbacks` the futures whose completion is to be reported, with their requests.
pub mod Codec
pub mod Validation
pub mod Handlers
pub mod Receive
pub mod Tests
use up_tck.Base.{
  ℕ, String, Bool, true, false, Option, none, some, List, [], ◌∷◌, ◌++◌, ◌==◌, string_eq,
  if◌then◌else◌,
}
use up_tck.Base.Exec.{Exec, Exception, Result, ok, raise, pure, lift, ◌>>=◌, ◌>>◌}
use up_tck.Json.{Json, str, dict, Fields, field, end, subscript}
use up_tck.Agent.Codec.{Reflection, View, message_to_dict}

-- The actions that the agent has handlers for.
pub data Command : Type 0 where
  send register_listener unregister_listener invoke_method : Command
  serialize_uri deserialize_uri serialize_uuid deserialize_uuid : Command
  validate_uri validate_uattributes : Command
  micro_serialize_uri micro_deserialize_uri validate_uuid : Command

unfoldable pub action_of : Command → String
action_of send = "send"
action_of register_listener = "registerlistener"
action_of unregister_listener = "unregisterlistener"
action_of invoke_method = "invokemethod"
action_of serialize_uri = "uri_serialize"
action_of deserialize_uri = "uri_deserialize"
action_of serialize_uuid = "uuid_serialize"
action_of deserialize_uuid = "uuid_deserialize"
action_of validate_uri = "uri_validate"
action_of validate_uattributes = "uattributes_validate"
action_of micro_serialize_uri = "micro_serialize_uri"
action_of micro_deserialize_uri = "micro_deserialize_uri"
action_of validate_uuid = "uuid_validate"

-- The keys of `action_handlers`, in its order.
abbrev pub commands : List Command
commands =
    send ∷ register_listener ∷ unregister_listener ∷ invoke_method ∷ serialize_uri ∷ deserialize_uri
    ∷ serialize_uuid ∷ deserialize_uuid ∷ validate_uri ∷ validate_uattributes ∷ micro_serialize_uri
    ∷ micro_deserialize_uri ∷ validate_uuid ∷ []

unfoldable pub find_command : String → List Command → Option Command
unfolding action_of
find_command action [] = none
find_command action (c ∷ cs) = if action == action_of c then some c else find_command action cs

-- `transport`, with the one listener of the agent; `invoke_method` gives the future.
pub record UTransport (T M : Type 0) : Type 0 where
  pub send : M → Exec T M
  pub register_listener : M → Exec T M
  pub unregister_listener : M → Exec T M
  pub invoke_method : M → M → Exec T ℕ

pub record Agent (T : Type 0) : Type 0 where
  pub transport : T
  pub sent : List Fields
  pub callbacks : List (ℕ × Json)

abbrev pub on_transport : {T A : Type 0} → Exec T A → Exec (Agent T) A
on_transport f s = let (r, t) = f s.transport in (r, record s { transport = t })

-- `response_dict`
unfoldable pub reply : Json → String → Json → Fields
reply response action test_id =
    field "data" response
      (field "action" (str action) (field "ue" (str "python") (field "test_id" test_id end)))

module _ {T : Type 0} (sendall : Fields → Option Exception) where
  unfoldable pub record_sent : Fields → Option Exception → Exec (Agent T) Unit
  record_sent msg none s = (ok tt, record s { sent = s.sent ++ msg ∷ [] })
  record_sent msg (some e) s = (raise e, s)

  -- `send_to_test_manager` for a response that is a dict or a text.
  unfoldable pub send_to_test_manager : Json → String → Json → Exec (Agent T) Unit
  unfolding record_sent reply
  send_to_test_manager response action test_id =
      let msg = reply response action test_id in record_sent msg (sendall msg)

  -- The calls in the handlers: the response and `json_msg["test_id"]`.
  unfoldable pub send_reply : Json → String → Json → Exec (Agent T) Unit
  unfolding send_to_test_manager
  send_reply json_msg action response = do
    test_id ← lift (subscript json_msg "test_id")
    send_to_test_manager response action test_id

  -- `send_to_test_manager` for a message, with what walking its fields shows.
  unfoldable pub send_message : Json → String → View → Exec (Agent T) Unit
  unfolding send_to_test_manager message_to_dict
  send_message json_msg action view = do
    test_id ← lift (subscript json_msg "test_id")
    response ← lift (message_to_dict view)
    send_to_test_manager (dict response) action test_id
