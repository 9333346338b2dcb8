-- ===== src/Network/Rpc.antt =====
-- test_agent/python/testagent.py and up_client_socket/python/socket_transport.py: a method call from the manager's
-- request to the manager's response.
use up_tck.Base.{
  ℕ, ◌≡◌, refl, ap, ◌∙◌, true, Option, none, some, [], ◌∷◌, ◌++◌, string_eq, Bool-cases, inl, inr,
  nat_eq, bytes_eq,
}
use up_tck.Base.Dict.{lookup}
use up_tck.Base.Exec.{Exception, Result, ok, raise}
use up_tck.Json.{Json, str, dict, Fields, subscript}
use up_tck.Agent.{Agent, action_of, reply, send_message, send_to_test_manager, record_sent}
use up_tck.Agent.Codec.{Reflection, message_to_dict}
use up_tck.Agent.Validation.Checks.{Validators}
use up_tck.Agent.Handlers.{Library, data_to_proto, process_message, handle_response}
use up_tck.Agent.Receive.{Builder, respond, on_receive}
use up_tck.Transport as SocketTransport
use up_tck.Transport.{
  Bytes, response, result, Uprotocol, Transport, Message, invoke_method, dispatch,
  handle_response_message,
}
use up_tck.Transport.Calls.{handle_response_message-completes}
use up_tck.Transport.Loop.{listen_round, handle_parsed, after_try, is_socket_error, close_socket}
use up_tck.Network.{Bridge, socket_transport}
use up_tck.Network.Agents.{payload_of, invoke_method-calls}

module _ {Uri Uuid Payload : Type 0} (u : Uprotocol Uri Uuid Payload) where
  invoke_method-future :
      (call : Message u) (t : Transport (Message u))
      → invoke_method u call none t ≡ (ok t.next_future, (invoke_method u call none t).1)
  unfolding invoke_method
  invoke_method-future call t = refl

  module _ (calls : ℕ → Message u → Option Exception) where
    after_try-futures :
        (x : Result {0} Unit) (t : Transport (Message u))
        → (after_try u calls x t).1.futures ≡ t.futures
    unfolding after_try close_socket
    after_try-futures (ok a) t = refl
    after_try-futures (raise e) t = elim (Bool-cases (is_socket_error e)) [
      | inl closes ↦ rw closes refl
      | inr goes_on ↦ rw goes_on refl
    ]

    -- A response that arrives settles the futures as its handler does.
    listen_round-response :
        (answer : Message u) (byte : ℕ) (bytes : Bytes) (t : Transport (Message u))
        → u.parse (byte ∷ bytes) ≡ some answer
        → answer.kind ≡ response
        → (listen_round u calls (ok (byte ∷ bytes)) t).1.futures
          ≡ (handle_response_message u calls answer t).1.futures
    unfolding listen_round handle_parsed dispatch
    listen_round-response answer byte bytes t parsed kind =
        let (x, t') = handle_response_message u calls answer t in
        rw parsed (
          ap
            (λ k.
              (after_try u calls (dispatch u calls k answer t).0
                (dispatch u calls k answer t).1).1.futures)
            kind
          ∙ after_try-futures x t')

module _ {Uri Uuid Payload : Type 0} (u : Uprotocol Uri Uuid Payload) {M : Type 0}
    (r : Reflection M) (v : Validators M) (l : Library M) (bl : Builder M) (b : Bridge u M)
    (listener : ℕ) (sendall : Fields → Option Exception) where
  -- The response that the listener of an agent builds for a request.
  abbrev pub response_to : M → M
  response_to umsg =
      let attributes = r.get_attr umsg "attributes" in
      bl.u_message
        (bl.build_response (r.get_attr attributes "sink") (r.get_attr attributes "source")
          (r.get_attr attributes "id"))
        (bl.pack "SuccessRPCResponse")

  on_receive-responds :
      (umsg : M) (s : Agent (Transport (Message u)))
      → bl.is_request umsg ≡ true
      → (on_receive r v l (socket_transport b none listener) sendall bl umsg s).1.transport.sent
        ≡ s.transport.sent ++ u.message_bytes (b.message_of (response_to umsg)) ∷ []
  unfolding on_receive respond socket_transport SocketTransport.send
  on_receive-responds umsg s is_request = rw is_request refl

  calls_method :
      (request : Json) (uri payload : M) (s : Agent (Transport (Message u)))
      → subscript request "action" ≡ ok (str "invokemethod")
      → data_to_proto r v l (socket_transport b none listener) sendall request l.u_uri ≡ ok uri
      → payload_of r v l (socket_transport b none listener) sendall request ≡ ok payload
      → process_message r v l (socket_transport b none listener) sendall request s ≡ (
        ok tt,
        record s {
          transport = (invoke_method u (b.call_of uri payload) none s.transport).1;
          callbacks = s.callbacks ++ (s.transport.next_future, request) ∷ [];
        },
      )
  unfolding socket_transport
  calls_method request uri payload s named decoded paid =
      invoke_method-calls r v l (socket_transport b none listener) sendall request uri payload
        s.transport.next_future (invoke_method u (b.call_of uri payload) none s.transport).1 s named
        decoded paid (invoke_method-future u (b.call_of uri payload) s.transport)

  reports :
      (request : Json) (id : Json) (umsg : M) (shown : Fields) (s : Agent (Transport (Message u)))
      → subscript request "test_id" ≡ ok id
      → message_to_dict (l.view umsg) ≡ ok shown
      → sendall (reply (dict shown) "invokemethod" id) ≡ none
      → (handle_response r v l (socket_transport b none listener) sendall request umsg s).1.sent
        ≡ s.sent ++ reply (dict shown) "invokemethod" id ∷ []
  unfolding handle_response send_message send_to_test_manager record_sent action_of
  reports request id umsg shown s identified seen takes = rw identified (rw seen (rw takes refl))

  -- One agent is asked to invoke a method and another one's listener hears the request. The first agent
  -- keeps the request with the call's future; the second sends one response; when that arrives,
  -- with the id of the call, the future has it as its result, and the callback of the future sends it to
  -- the manager under the test id of the request.
  pub invoke_method-answered :
      (request : Json) (id : Json) (uri payload heard : M) (shown : Fields)
      (caller responder : Agent (Transport (Message u))) (byte : ℕ) (bytes : Bytes)
      (calls : ℕ → Message u → Option Exception)
      → subscript request "action" ≡ ok (str "invokemethod")
      → subscript request "test_id" ≡ ok id
      → data_to_proto r v l (socket_transport b none listener) sendall request l.u_uri ≡ ok uri
      → payload_of r v l (socket_transport b none listener) sendall request ≡ ok payload
      → bl.is_request heard ≡ true
      → (b.message_of (response_to heard)).kind ≡ response
      → u.uuid_bytes (b.message_of (response_to heard)).reqid
        ≡ u.uuid_bytes (b.call_of uri payload).id
      → u.message_bytes (b.message_of (response_to heard)) ≡ byte ∷ bytes
      → u.parse (byte ∷ bytes) ≡ some (b.message_of (response_to heard))
      → message_to_dict (l.view (response_to heard)) ≡ ok shown
      → sendall (reply (dict shown) "invokemethod" id) ≡ none
      → let asked =
          process_message r v l (socket_transport b none listener) sendall request caller in
        let f = caller.transport.next_future in
        let answering =
          on_receive r v l (socket_transport b none listener) sendall bl heard responder in
        let reported =
          handle_response r v l
            (socket_transport b none listener)
            sendall
            request
            (response_to heard)
            asked.1 in
        (asked.0 ≡ ok tt)
        × (asked.1.callbacks ≡ caller.callbacks ++ (f, request) ∷ [])
        × (answering.1.transport.sent ≡ responder.transport.sent ++ (byte ∷ bytes) ∷ [])
        × (lookup f (listen_round u calls (ok (byte ∷ bytes)) asked.1.transport).1.futures
            ≡ some (result (b.message_of (response_to heard))))
        × (reported.1.sent ≡ asked.1.sent ++ reply (dict shown) "invokemethod" id ∷ [])
  invoke_method-answered request id uri payload heard shown caller responder byte bytes calls named
        identified decoded paid is_request kind matches serialized parsed seen takes =
      let answer = b.message_of (response_to heard) in
      let e = calls_method request uri payload caller named decoded paid in
      let (completes, _, _, _) =
        handle_response_message-completes u calls caller.transport (b.call_of uri payload) none
          answer matches answer matches in
      (
        ap (λ p. p.0) e,
        ap (λ p. p.1.callbacks) e,
        on_receive-responds heard responder is_request
            ∙ ap (λ bs. responder.transport.sent ++ bs ∷ []) serialized,
        ap
              (λ p.
                lookup caller.transport.next_future
                  (listen_round u calls (ok (byte ∷ bytes)) p.1.transport).1.futures)
              e
            ∙ ap (lookup caller.transport.next_future)
                (listen_round-response u calls answer byte bytes _ parsed kind)
            ∙ completes,
        reports request id (response_to heard) shown _ identified seen takes,
      )
