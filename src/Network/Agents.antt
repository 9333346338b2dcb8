-- ===== src/Network/Agents.antt =====
-- test_agent/python/testagent.py: what the requests to send, to register a
-- listener and to invoke a method do to the transport.
use up_tck.Base.{ℕ, String, ◌≡◌, refl, Option, none, some, string_eq, [], ◌∷◌, ◌++◌}
use up_tck.Base.Exec.{
  Exception, Result, ok, raise, pure, lift, ◌>>=◌, ◌>>=?◌, Preserves, bind-Preserves,
}
use up_tck.Json.{Json, str, dict, Fields, subscript}
use up_tck.Agent.{
  find_command, UTransport, Agent, record_sent, send_to_test_manager, send_message, reply,
}
use up_tck.Agent.Codec.{dict_to_proto, Reflection, View, message_to_dict}
use up_tck.Agent.Validation.Checks.{Validators}
use up_tck.Agent.Handlers.{
  handle_invoke_method, add_done_callback, Library, data_to_proto, handle_send,
  handle_register_listener, handler, report, run_command, process_action, process_message,
}

-- The transport is this one.
abbrev HasTransport : {T : Type 0} → T → Agent T → Type 0
HasTransport t s = s.transport ≡ t

module _ {T : Type 0} (sendall : Fields → Option Exception) (t : T) where
  record_sent-HasTransport :
      (msg : Fields) (o : Option Exception) → Preserves (HasTransport t) (record_sent sendall msg o)
  unfolding record_sent
  record_sent-HasTransport msg none s h = h
  record_sent-HasTransport msg (some e) s h = h

  send_message-HasTransport :
      (json_msg : Json) (action : String) (view : View)
      → Preserves (HasTransport t) (send_message sendall json_msg action view)
  unfolding send_message send_to_test_manager
  send_message-HasTransport json_msg action view =
      bind-Preserves (HasTransport t) (lift (subscript json_msg "test_id")) _ (λ s h. h)
        λ test_id.
          bind-Preserves (HasTransport t) (lift (message_to_dict view)) _ (λ s h. h)
            λ response. record_sent-HasTransport (reply (dict response) action test_id) _

module _ {T M : Type 0} (r : Reflection M) (v : Validators M) (l : Library M) (t : UTransport T M)
    (sendall : Fields → Option Exception) (json_msg : Json) where
  -- What follows the call of the transport leaves it: the status goes to the manager.
  reported-HasTransport :
      (action : String) (status : Result M) (s : Agent T)
      → (((lift status >>= λ m. pure (some (l.view m))) >>= report r v l t sendall json_msg action)
          s).1.transport
        ≡ s.transport
  unfolding report
  reported-HasTransport action (ok m) s =
      send_message-HasTransport sendall s.transport json_msg action (l.view m) s refl
  reported-HasTransport action (raise e) s = refl

  pub register_listener-transport :
      (uri : M) (s : Agent T)
      → subscript json_msg "action" ≡ ok (str "registerlistener")
      → data_to_proto r v l t sendall json_msg l.u_uri ≡ ok uri
      → (process_message r v l t sendall json_msg s).1.transport
        ≡ (t.register_listener uri s.transport).1
  unfolding process_message process_action find_command string_eq run_command handler
      handle_register_listener
  register_listener-transport uri s named decoded =
      let (status, t') = t.register_listener uri s.transport in
      rw named
        (rw decoded (reported-HasTransport "registerlistener" status (record s { transport = t' })))

  pub send-transport :
      (umsg : M) (s : Agent T)
      → subscript json_msg "action" ≡ ok (str "send")
      → data_to_proto r v l t sendall json_msg l.u_message ≡ ok umsg
      → (process_message r v l t sendall json_msg s).1.transport
        ≡ (t.send (l.copy_message_id l.create_id umsg) s.transport).1
  unfolding process_message process_action find_command string_eq run_command handler handle_send
  send-transport umsg s named decoded =
      let (status, t') = t.send (l.copy_message_id l.create_id umsg) s.transport in
      rw named (rw decoded (reported-HasTransport "send" status (record s { transport = t' })))

  -- `json_msg["data"]["payload"]` as a payload.
  abbrev pub payload_of : Result M
  payload_of = subscript json_msg "data" >>=? λ outer.
      subscript outer "payload" >>=? λ inner. dict_to_proto r inner l.u_payload

  pub invoke_method-calls :
      (uri payload : M) (future : ℕ) (t' : T) (s : Agent T)
      → subscript json_msg "action" ≡ ok (str "invokemethod")
      → data_to_proto r v l t sendall json_msg l.u_uri ≡ ok uri
      → payload_of ≡ ok payload
      → t.invoke_method uri payload s.transport ≡ (ok future, t')
      → process_message r v l t sendall json_msg s
        ≡ (ok tt, record s { transport = t'; callbacks = s.callbacks ++ (future, json_msg) ∷ [] })
  unfolding process_message process_action find_command string_eq run_command handler
      handle_invoke_method add_done_callback report
  invoke_method-calls uri payload future t' s named decoded paid called =
      rw named (rw decoded (rw paid (rw called refl)))
