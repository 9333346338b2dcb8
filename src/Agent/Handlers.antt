-- ===== src/Agent/Handlers.antt =====
-- test_agent/python/testagent.py: the handlers, `process_message` and the thread that receives from
-- the manager. A handler gives the view of the status that it returns, or `none` for `None`.
pub mod Replies
pub mod Answers
use up_tck.Base.{
  ℕ, String, Bool, true, false, Option, none, some, List, [], ◌∷◌, ◌++◌, if◌then◌else◌, eqb,
}
use up_tck.Base.Dict.{Dict, lookup, erase}
use up_tck.Base.Exec.{
  Exec, Exception, type_error, decode_error, Result, ok, raise, pure, throw, lift, modify, ◌>>=◌,
  ◌>>=?◌, ◌>>◌,
}
use up_tck.Json.{Json, null, boolean, int, str, list, dict, Fields, subscript}
use up_tck.Agent.{
  Command, send, register_listener, unregister_listener, invoke_method, serialize_uri,
  deserialize_uri, serialize_uuid, deserialize_uuid, validate_uri, validate_uattributes,
  micro_serialize_uri, micro_deserialize_uri, validate_uuid, commands, find_command, action_of,
  UTransport, Agent, on_transport, send_reply, send_message, send_to_test_manager,
}
use up_tck.Agent.Codec.{Reflection, View, dict_to_proto}
use up_tck.Agent.Validation.Checks.{
  Validators, validate_uri_data, validate_uuid_data, validate_attributes_data,
}

-- Messages and serializers of the uProtocol library. `create_id` is the UUID that the factory
-- gives; the micro form is the text that its bytes stand for in ISO 8859-1, both ways.
pub record Library (M : Type 0) : Type 0 where
  pub u_message : M
  pub u_uri : M
  pub u_payload : M
  pub u_uuid : M
  pub create_id : M
  pub copy_message_id : M → M → M
  pub view : M → View
  pub long_serialize_uri : M → Result String
  pub long_deserialize_uri : Json → Result M
  pub long_serialize_uuid : M → Result String
  pub long_deserialize_uuid : Json → Result M
  pub micro_serialize_uri : M → Result String
  pub micro_deserialize_uri : Json → Result M

module _ {T M : Type 0} (r : Reflection M) (v : Validators M) (l : Library M) (t : UTransport T M)
    (sendall : Fields → Option Exception) where
  -- `dict_to_proto(json_msg["data"], message)`
  unfoldable pub data_to_proto : Json → M → Result M
  unfolding dict_to_proto
  data_to_proto json_msg empty =
      subscript json_msg "data" >>=? λ payload. dict_to_proto r payload empty

  -- `handle_send_command`
  unfoldable pub handle_send : Json → Exec (Agent T) (Option View)
  unfolding data_to_proto
  handle_send json_msg = do
    umsg ← lift (data_to_proto json_msg l.u_message)
    status ← on_transport (t.send (l.copy_message_id l.create_id umsg))
    pure (some (l.view status))

  -- `handle_register_listener_command`
  unfoldable pub handle_register_listener : Json → Exec (Agent T) (Option View)
  unfolding data_to_proto
  handle_register_listener json_msg = do
    uri ← lift (data_to_proto json_msg l.u_uri)
    status ← on_transport (t.register_listener uri)
    pure (some (l.view status))

  -- `handle_unregister_listener_command`
  unfoldable pub handle_unregister_listener : Json → Exec (Agent T) (Option View)
  unfolding data_to_proto
  handle_unregister_listener json_msg = do
    uri ← lift (data_to_proto json_msg l.u_uri)
    status ← on_transport (t.unregister_listener uri)
    pure (some (l.view status))

  unfoldable pub add_done_callback : ℕ → Json → Exec (Agent T) Unit
  add_done_callback future json_msg s =
      (ok tt, record s { callbacks = s.callbacks ++ (future, json_msg) ∷ [] })

  -- `handle_invoke_method_command`
  unfoldable pub handle_invoke_method : Json → Exec (Agent T) (Option View)
  unfolding data_to_proto add_done_callback
  handle_invoke_method json_msg = do
    uri ← lift (data_to_proto json_msg l.u_uri)
    payload ← lift (
        subscript json_msg "data" >>=? λ outer.
        subscript outer "payload" >>=? λ inner. dict_to_proto r inner l.u_payload)
    future ← on_transport (t.invoke_method uri payload)
    add_done_callback future json_msg
    pure none

  -- `handle_response`, for the message that the future gives.
  unfoldable pub handle_response : Json → M → Exec (Agent T) Unit
  unfolding send_message
  handle_response json_msg message =
      send_message sendall json_msg (action_of invoke_method) (l.view message)

  unfoldable pub reply_text : Json → Command → Result String → Exec (Agent T) (Option View)
  unfolding send_reply
  reply_text json_msg c serialized = do
    text ← lift serialized
    send_reply sendall json_msg (action_of c) (str text)
    pure none

  unfoldable pub reply_message : Json → Command → Result M → Exec (Agent T) (Option View)
  unfolding send_message
  reply_message json_msg c deserialized = do
    message ← lift deserialized
    send_message sendall json_msg (action_of c) (l.view message)
    pure none

  unfoldable pub reply_json : Json → Command → Result Json → Exec (Agent T) (Option View)
  unfolding send_reply
  reply_json json_msg c result = do
    response ← lift result
    send_reply sendall json_msg (action_of c) response
    pure none

  -- `handle_long_serialize_uuri`
  unfoldable pub handle_long_serialize_uuri : Json → Exec (Agent T) (Option View)
  unfolding data_to_proto reply_text
  handle_long_serialize_uuri json_msg =
      reply_text json_msg serialize_uri (data_to_proto json_msg l.u_uri >>=? l.long_serialize_uri)

  -- `handle_long_deserialize_uri`
  unfoldable pub handle_long_deserialize_uri : Json → Exec (Agent T) (Option View)
  unfolding reply_message
  handle_long_deserialize_uri json_msg =
      reply_message json_msg deserialize_uri (subscript json_msg "data" >>=? l.long_deserialize_uri)

  -- `handle_long_deserialize_uuid`
  unfoldable pub handle_long_deserialize_uuid : Json → Exec (Agent T) (Option View)
  unfolding reply_message
  handle_long_deserialize_uuid json_msg =
      reply_message json_msg deserialize_uuid
        (subscript json_msg "data" >>=? l.long_deserialize_uuid)

  -- `handle_long_serialize_uuid`
  unfoldable pub handle_long_serialize_uuid : Json → Exec (Agent T) (Option View)
  unfolding data_to_proto reply_text
  handle_long_serialize_uuid json_msg =
      reply_text json_msg serialize_uuid
        (data_to_proto json_msg l.u_uuid >>=? l.long_serialize_uuid)

  -- `handle_uri_validate_command`
  unfoldable pub handle_uri_validate : Json → Exec (Agent T) (Option View)
  unfolding reply_json validate_uri_data
  handle_uri_validate json_msg = reply_json json_msg validate_uri (validate_uri_data r v json_msg)

  -- `handle_micro_serialize_uri_command`
  unfoldable pub handle_micro_serialize_uri : Json → Exec (Agent T) (Option View)
  unfolding data_to_proto reply_text
  handle_micro_serialize_uri json_msg =
      reply_text json_msg micro_serialize_uri
        (data_to_proto json_msg l.u_uri >>=? l.micro_serialize_uri)

  -- `handle_micro_deserialize_uri_command`
  unfoldable pub handle_micro_deserialize_uri : Json → Exec (Agent T) (Option View)
  unfolding reply_message
  handle_micro_deserialize_uri json_msg =
      reply_message json_msg micro_deserialize_uri
        (subscript json_msg "data" >>=? l.micro_deserialize_uri)

  -- `handle_uuid_validate_command`
  unfoldable pub handle_uuid_validate : Json → Exec (Agent T) (Option View)
  unfolding reply_json validate_uuid_data
  handle_uuid_validate json_msg =
      reply_json json_msg validate_uuid (validate_uuid_data r v json_msg)

  -- `handle_uattributes_validate_command`
  unfoldable pub handle_uattributes_validate : Json → Exec (Agent T) (Option View)
  unfolding reply_json validate_attributes_data
  handle_uattributes_validate json_msg =
      reply_json json_msg validate_uattributes (validate_attributes_data r v json_msg)

  -- The values of `action_handlers`.
  unfoldable pub handler : Command → Json → Exec (Agent T) (Option View)
  handler send = handle_send
  handler register_listener = handle_register_listener
  handler unregister_listener = handle_unregister_listener
  handler invoke_method = handle_invoke_method
  handler serialize_uri = handle_long_serialize_uuri
  handler deserialize_uri = handle_long_deserialize_uri
  handler serialize_uuid = handle_long_serialize_uuid
  handler deserialize_uuid = handle_long_deserialize_uuid
  handler validate_uri = handle_uri_validate
  handler validate_uattributes = handle_uattributes_validate
  handler micro_serialize_uri = handle_micro_serialize_uri
  handler micro_deserialize_uri = handle_micro_deserialize_uri
  handler validate_uuid = handle_uuid_validate

  -- `if status is not None`
  unfoldable pub report : Json → String → Option View → Exec (Agent T) Unit
  unfolding send_message
  report json_msg action none = pure tt
  report json_msg action (some status) = send_message sendall json_msg action status

  unfoldable pub run_command : Json → String → Option Command → Exec (Agent T) Unit
  unfolding handler report
  run_command json_msg action none = pure tt
  run_command json_msg action (some c) = handler c json_msg >>= report json_msg action

  unfoldable pub process_action : Json → Json → Exec (Agent T) Unit
  unfolding find_command run_command
  process_action json_msg (str action) = run_command json_msg action (find_command action commands)
  process_action json_msg (list items) = throw type_error
  process_action json_msg (dict fields) = throw type_error
  process_action json_msg _ = pure tt

  -- `process_message`
  unfoldable pub process_message : Json → Exec (Agent T) Unit
  unfolding process_action
  process_message json_msg = lift (subscript json_msg "action") >>= process_action json_msg
