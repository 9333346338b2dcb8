-- ===== src/Agent/Handlers/Answers.antt =====
-- test_agent/python/testagent.py: `process_message` answers each request once.
use up_tck.Base.{◌≡◌, refl, String, Option, none, some, List, [], ◌∷◌, subst, sym, arith, string_eq}
use up_tck.Base.Exec.{Exec, Exception, Result, ok, raise, lift, pure, ◌>>=◌, ◌>>=?◌, ◌>>◌}
use up_tck.Json.{Json, str, Fields, subscript}
use up_tck.Agent.{
  Command, send, register_listener, unregister_listener, invoke_method, serialize_uri,
  deserialize_uri, serialize_uuid, deserialize_uuid, validate_uri, validate_uattributes,
  micro_serialize_uri, micro_deserialize_uri, validate_uuid, find_command, commands, action_of,
  UTransport, Agent, on_transport,
}
use up_tck.Agent.Codec.{Reflection, View, dict_to_proto}
use up_tck.Agent.Validation.Checks.{Validators}
use up_tck.Agent.Handlers.{
  Library, handler, handle_send, handle_register_listener, handle_unregister_listener,
  handle_invoke_method, add_done_callback, handle_long_serialize_uuri, handle_long_deserialize_uri,
  handle_long_deserialize_uuid, handle_long_serialize_uuid, handle_uri_validate,
  handle_micro_serialize_uri, handle_micro_deserialize_uri, handle_uuid_validate,
  handle_uattributes_validate, report, run_command, process_action, data_to_proto, reply_text,
  reply_message, reply_json, process_message,
}
use up_tck.Agent.Handlers.Replies.{
  Replied, silent, Replied-after, Replied-result, send_reply-Replied, send_message-Replied, Handled,
  quiet, answered, pure_none-Handled, lift-Handled, quiet-Handled,
}

-- `find_command` gives the command of that action.
find_command-action :
    (action : String) (cs : List Command) (c : Command)
    → find_command action cs ≡ some c
    → action ≡ action_of c
unfolding find_command
find_command-action action [] c e = ground arith
find_command-action action (d ∷ cs) c e = ground (arith, find_command-action action cs c)

module _ {T M : Type 0} (r : Reflection M) (v : Validators M) (l : Library M) (t : UTransport T M)
    (sendall : Fields → Option Exception) (json_msg : Json) (Q : Type 0) (s : Agent T) where
  reply_text-Handled :
      (c : Command) (x : Result String)
      → let out = reply_text r v l t sendall json_msg c x s in
        Handled json_msg (action_of c) Q s out.0 out.1
  unfolding reply_text
  reply_text-Handled c x = lift-Handled json_msg (action_of c) Q s x _ λ text.
      pure_none-Handled json_msg (action_of c) Q s _ _
        (send_reply-Replied json_msg (action_of c) Q sendall s (str text))

  reply_message-Handled :
      (c : Command) (x : Result M)
      → let out = reply_message r v l t sendall json_msg c x s in
        Handled json_msg (action_of c) Q s out.0 out.1
  unfolding reply_message
  reply_message-Handled c x = lift-Handled json_msg (action_of c) Q s x _ λ message.
      pure_none-Handled json_msg (action_of c) Q s _ _
        (send_message-Replied json_msg (action_of c) Q sendall s (l.view message))

  reply_json-Handled :
      (c : Command) (x : Result Json)
      → let out = reply_json r v l t sendall json_msg c x s in
        Handled json_msg (action_of c) Q s out.0 out.1
  unfolding reply_json
  reply_json-Handled c x = lift-Handled json_msg (action_of c) Q s x _ λ response.
      pure_none-Handled json_msg (action_of c) Q s _ _
        (send_reply-Replied json_msg (action_of c) Q sendall s response)

  status-Handled :
      (action : String) (x : Result M) (f : M → Exec T M)
      → let out =
          (lift x >>= λ a. on_transport (f a) >>= λ status. pure (some (l.view status))) s in
        Handled json_msg action Q s out.0 out.1
  status-Handled action (raise e) f = quiet refl (λ w. cc w)
  status-Handled action (ok a) f =
      let (x, transport) = f a s.transport in
      quiet-Handled json_msg action Q s x (record s { transport = transport })
        (λ status. pure (some (l.view status))) refl (λ status. refl) (λ status e. cc e)

  call-Handled :
      (action : String)
      → Q
      → (x y : Result M)
      → let out =
          (lift x >>= λ uri. lift y >>= λ payload.
          on_transport (t.invoke_method uri payload) >>= λ future.
          add_done_callback r v l t sendall future json_msg >> pure none)
            s in
        Handled json_msg action Q s out.0 out.1
  unfolding add_done_callback
  call-Handled action q (raise e) y = quiet refl (λ w. cc w)
  call-Handled action q (ok uri) (raise e) = quiet refl (λ w. cc w)
  call-Handled action q (ok uri) (ok payload) =
      let (x, transport) = t.invoke_method uri payload s.transport in
      quiet-Handled json_msg action Q s x (record s { transport = transport })
        (λ future. add_done_callback r v l t sendall future json_msg >> pure none) refl
        (λ future. refl) (λ future e. q)

  handler-Handled :
      (c : Command)
      → (c ≡ invoke_method → Q)
      → let out = handler r v l t sendall c json_msg s in
        Handled json_msg (action_of c) Q s out.0 out.1
  unfolding handler handle_send handle_register_listener handle_unregister_listener
      handle_invoke_method add_done_callback handle_long_serialize_uuri handle_long_deserialize_uri
      handle_long_deserialize_uuid handle_long_serialize_uuid handle_uri_validate
      handle_micro_serialize_uri handle_micro_deserialize_uri handle_uuid_validate
      handle_uattributes_validate
  handler-Handled send why =
      status-Handled (action_of send) (data_to_proto r v l t sendall json_msg l.u_message)
        λ umsg. t.send (l.copy_message_id l.create_id umsg)
  handler-Handled register_listener why =
      status-Handled (action_of register_listener) (data_to_proto r v l t sendall json_msg l.u_uri)
        t.register_listener
  handler-Handled unregister_listener why =
      status-Handled (action_of unregister_listener)
        (data_to_proto r v l t sendall json_msg l.u_uri) t.unregister_listener
  handler-Handled invoke_method why =
      call-Handled (action_of invoke_method) (why refl)
        (data_to_proto r v l t sendall json_msg l.u_uri)
        (subscript json_msg "data" >>=? λ outer.
          subscript outer "payload" >>=? λ inner. dict_to_proto r inner l.u_payload)
  handler-Handled serialize_uri why = reply_text-Handled serialize_uri _
  handler-Handled deserialize_uri why = reply_message-Handled deserialize_uri _
  handler-Handled serialize_uuid why = reply_text-Handled serialize_uuid _
  handler-Handled deserialize_uuid why = reply_message-Handled deserialize_uuid _
  handler-Handled validate_uri why = reply_json-Handled validate_uri _
  handler-Handled validate_uattributes why = reply_json-Handled validate_uattributes _
  handler-Handled micro_serialize_uri why = reply_text-Handled micro_serialize_uri _
  handler-Handled micro_deserialize_uri why = reply_message-Handled micro_deserialize_uri _
  handler-Handled validate_uuid why = reply_json-Handled validate_uuid _

  report-Replied :
      (action : String) (x : Result (Option View)) (s' : Agent T)
      → Handled json_msg action Q s x s'
      → let out = ((λ _. (x, s')) >>= report r v l t sendall json_msg action) s in
        Replied json_msg action Q s out.0 out.1
  unfolding report
  report-Replied action (raise e) s' (quiet same why) = silent same (λ w. cc w)
  report-Replied action (raise e) s' (answered r' h why _) =
      Replied-result json_msg action Q (λ w. cc w) h
  report-Replied action (ok none) s' (quiet same why) = silent same (λ w. why refl)
  report-Replied action (ok none) s' (answered r' h why _) =
      Replied-result json_msg action Q (λ w. why refl) h
  report-Replied action (ok (some view)) s' (quiet same why) =
      Replied-after json_msg action Q same (send_message-Replied json_msg action Q sendall s' view)
  report-Replied action (ok (some view)) s' (answered r' h why other) = absurd (other view refl)

-- The request calls a method, the one request whose handler answers later, or none has a handler.
unfoldable pub Unanswered : String → Type 0
Unanswered action = (c : Command) → find_command action commands ≡ some c → c ≡ invoke_method

module _ {T M : Type 0} (r : Reflection M) (v : Validators M) (l : Library M) (t : UTransport T M)
    (sendall : Fields → Option Exception) (json_msg : Json) (s : Agent T) where
  run_command-Replied :
      (action : String) (found : Option Command)
      → ((c : Command) → found ≡ some c → action ≡ action_of c)
      → let out = run_command r v l t sendall json_msg action found s in
        Replied json_msg action ((c : Command) → found ≡ some c → c ≡ invoke_method) s out.0 out.1
  unfolding run_command
  run_command-Replied action none named = silent refl (λ w c e. cc e)
  run_command-Replied action (some c) named =
      subst
        (λ a.
          let out = run_command r v l t sendall json_msg a (some c) s in
          Replied json_msg a ((d : Command) → some c ≡ some d → d ≡ invoke_method) s out.0 out.1)
        (sym (named c refl))
        (report-Replied r v l t sendall json_msg _ s (action_of c) _ _
          (handler-Handled r v l t sendall json_msg _ s c (λ e d same. cc (e, same))))

  -- For a request whose action is a text, `process_message` sends the manager at most one message,
  -- which carries the action and the test id of the request. If it returns and has sent none, the
  -- action has no handler or is "invokemethod".
  pub process_message-Replied :
      (action : String)
      → subscript json_msg "action" ≡ ok (str action)
      → let out = process_message r v l t sendall json_msg s in
        Replied json_msg action (Unanswered action) s out.0 out.1
  unfolding process_message process_action Unanswered
  process_message-Replied action named = rw named (
      run_command-Replied action (find_command action commands)
        (find_command-action action commands))
