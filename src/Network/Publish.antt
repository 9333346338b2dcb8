-- ===== src/Network/Publish.antt =====
-- test_agent/python/testagent.py, up_client_socket/python/socket_transport.py and dispatcher/dispatcher.py: a
-- message on its way from one agent to the other and on to the manager.
use mathlib.Core.List.{Mem, mem-append_right, mem-map_of_mem}
use mathlib.Core.List.Perm
use up_tck.Base.{
  ℕ, ◌≡◌, refl, sym, ap, subst, ◌∙◌, true, Option, none, some, [], ◌∷◌, ◌++◌, contains, nat_eq,
  string_eq, bytes_eq,
}
use up_tck.Base.Dict.{lookup-insert_self}
use up_tck.Base.Exec.{bind-pure, Exception, ok}
use up_tck.Json.{Json, str, Fields, subscript}
use up_tck.Agent.{Agent}
use up_tck.Agent.Codec.{Reflection}
use up_tck.Agent.Validation.Checks.{Validators}
use up_tck.Agent.Handlers.{Library, data_to_proto, process_message}
use up_tck.Dispatcher.{World, Dispatcher, receive_from_up_client}
use up_tck.Dispatcher.Flood.{receive_from_up_client-delivers}
use up_tck.Dispatcher.Invariant.{IsValid}
use up_tck.Transport as SocketTransport
use up_tck.Transport.{
  Bytes, publish, UStatus, Uprotocol, Transport, Message, listeners_of, register_listener,
}
use up_tck.Transport.Loop.{listen_round}
use up_tck.Transport.Loop.Delivery.{Accept, reached, listener_uri, listen_round-delivers}
use up_tck.Network.{Bridge, socket_transport}
use up_tck.Network.Agents.{register_listener-transport, send-transport}

module _ {Uri Uuid Payload : Type 0} (u : Uprotocol Uri Uuid Payload) where
  -- A listener on a valid URI goes behind those that are there.
  register_listener-behind :
      (topic : Uri) (listener : ℕ) (t : Transport (Message u))
      → u.validate topic ≡ none
      → listeners_of (u.uri_bytes topic) (register_listener u topic listener t).1
        ≡ listeners_of (u.uri_bytes topic) t ++ listener ∷ []
  unfolding register_listener listeners_of
  register_listener-behind topic listener t valid =
      rw (valid, register_listener)
        (rw
          (lookup-insert_self (u.uri_bytes topic)
            (listeners_of (u.uri_bytes topic) t ++ listener ∷ []) t.uri_to_listener)
          refl)

  module _ {M : Type 0} (r : Reflection M) (v : Validators M) (l : Library M) (b : Bridge u M)
      (listener : ℕ) where
    registered :
        (sendall : Fields → Option Exception) (json_msg : Json) (uri : M)
        (s : Agent (Transport (Message u)))
        → subscript json_msg "action" ≡ ok (str "registerlistener")
        → data_to_proto r v l (socket_transport b none listener) sendall json_msg l.u_uri ≡ ok uri
        → u.validate (b.uri_of uri) ≡ none
        → listeners_of
            (u.uri_bytes (b.uri_of uri))
            (process_message r v l
              (socket_transport b none listener)
              sendall
              json_msg
              s).1.transport
          ≡ listeners_of (u.uri_bytes (b.uri_of uri)) s.transport ++ listener ∷ []
    unfolding socket_transport
    registered sendall json_msg uri s named decoded valid =
        ap (listeners_of (u.uri_bytes (b.uri_of uri))) (
          register_listener-transport r v l (socket_transport b none listener) sendall json_msg uri
            s named decoded)
        ∙ ap (listeners_of (u.uri_bytes (b.uri_of uri)))
            (bind-pure b.of_status (register_listener u (b.uri_of uri) listener) s.transport)
        ∙ register_listener-behind (b.uri_of uri) listener s.transport valid

    sent_bytes :
        (sendall : Fields → Option Exception) (json_msg : Json) (umsg : M)
        (s : Agent (Transport (Message u)))
        → subscript json_msg "action" ≡ ok (str "send")
        → data_to_proto r v l (socket_transport b none listener) sendall json_msg l.u_message
          ≡ ok umsg
        → (process_message r v l
            (socket_transport b none listener)
            sendall
            json_msg
            s).1.transport.sent
          ≡ s.transport.sent
            ++ u.message_bytes (b.message_of (l.copy_message_id l.create_id umsg)) ∷ []
    unfolding socket_transport SocketTransport.send
    sent_bytes sendall json_msg umsg s named decoded =
        ap (λ t. t.sent)
          (send-transport r v l (socket_transport b none listener) sendall json_msg umsg s named
            decoded)

    -- What the transport sends for a message of the agent, and the bytes of a URI.
    abbrev pub outgoing : M → Message u
    outgoing umsg = b.message_of (l.copy_message_id l.create_id umsg)

    abbrev pub topic : M → Bytes
    topic uri = u.uri_bytes (b.uri_of uri)

    -- An agent's transport after a request.
    abbrev pub handled :
        (Fields → Option Exception) → Json → Agent (Transport (Message u)) → Transport (Message u)
    handled sendall json_msg s =
        (process_message r v l (socket_transport b none listener) sendall json_msg s).1.transport

    -- One agent has registered its listener for a valid URI, another sends a publish message of this URI
    -- while the dispatcher is in a valid state and all its clients take a send: the message goes
    -- into the sender's connection once, the dispatcher sends it to the first agent's connection, and the
    -- transport there calls the listeners that it had for the URI and then the agent's, if none
    -- of them raises.
    pub publish-reaches :
        (sendall : Fields → Option Exception) (registration request : Json) (uri umsg : M)
        (receiver sender : Agent (Transport (Message u))) (w : World) (d : Dispatcher)
        (from to byte : ℕ) (bytes : Bytes) (calls : ℕ → Message u → Option Exception)
        → subscript registration "action" ≡ ok (str "registerlistener")
        → data_to_proto r v l (socket_transport b none listener) sendall registration l.u_uri
          ≡ ok uri
        → u.validate (b.uri_of uri) ≡ none
        → subscript request "action" ≡ ok (str "send")
        → data_to_proto r v l (socket_transport b none listener) sendall request l.u_message
          ≡ ok umsg
        → (outgoing umsg).kind ≡ publish
        → u.uri_bytes (outgoing umsg).source ≡ topic uri
        → u.message_bytes (outgoing umsg) ≡ byte ∷ bytes
        → u.parse (byte ∷ bytes) ≡ some (outgoing umsg)
        → IsValid d
        → contains from d.connected_sockets ≡ true
        → Mem to d.connected_sockets
        → ((t : ℕ) → Mem t d.connected_sockets → w.send_error t ≡ none)
        → Accept u calls
            (outgoing umsg)
            (listeners_of (topic uri) receiver.transport ++ listener ∷ [])
        → ((handled sendall request sender).sent ≡ sender.transport.sent ++ (byte ∷ bytes) ∷ [])
          × Mem (to, byte ∷ bytes) (receive_from_up_client w from (ok (byte ∷ bytes)) d).1.sent
          × (listen_round u calls (ok (byte ∷ bytes)) (handled sendall registration receiver) ≡ (
            true,
            reached u calls
                (outgoing umsg)
                (listeners_of (topic uri) receiver.transport ++ listener ∷ [])
                (handled sendall registration receiver),
          ))
    unfolding listener_uri
    publish-reaches sendall registration request uri umsg receiver sender w d from to byte bytes
          calls named decoded valid asked encoded kind source serialized parsed is_valid connected
          member takes accept =
        let listeners = listeners_of (topic uri) receiver.transport ++ listener ∷ [] in
        let there = registered sendall registration uri receiver named decoded valid in
        let (order, perm, flooded) =
          receive_from_up_client-delivers w from byte bytes d is_valid connected takes in
        let heard =
          listen_round-delivers u calls (outgoing umsg) (handled sendall registration receiver) byte
            bytes parsed (topic uri)
            (ap (listener_uri u calls (outgoing umsg)) kind ∙ ap some source)
            (subst (Accept u calls (outgoing umsg)) (sym there) accept) in
        (
          sent_bytes sendall request umsg sender asked encoded
              ∙ ap (λ bs. sender.transport.sent ++ bs ∷ []) serialized,
          subst (λ xs. Mem (to, byte ∷ bytes) xs) (sym (ap (λ p. p.1.sent) flooded))
              (mem-append_right d.sent (
                mem-map_of_mem (λ (s : ℕ). (s, byte ∷ bytes))
                  (Perm.subset (Perm.symm perm) to member))),
          heard
              ∙ ap
                  (λ ls. (
                    true,
                    reached u calls (outgoing umsg) ls (handled sendall registration receiver),
                  ))
                  there,
        )
