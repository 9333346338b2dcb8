-- ===== src/Transport/Loop/Delivery.antt =====
-- up_client_socket/python/socket_transport.py: which listeners a message from the dispatcher reaches.
use mathlib.Core.List.{append-nil, append_assoc, map-append}
use mathlib.Core.Option.{some-injective}
use up_tck.Base.{
  ℕ, ◌≡◌, sym, ap, ◌∙◌, true, false, Option, none, some, List, [], ◌∷◌, ◌++◌, All, map,
  if◌then◌else◌,
}
use up_tck.Base.Exec.{Exception, ok, raise}
use up_tck.Transport.{
  Bytes, MessageType, publish, request, response, other, Uprotocol, Transport, Message,
  listeners_of, call_listeners, dispatch,
}
use up_tck.Transport.Loop.{is_socket_error, handle_parsed, listen_round}

module _ {Uri Uuid Payload : Type 0} (u : Uprotocol Uri Uuid Payload)
    (on_receive : ℕ → Message u → Option Exception) (msg : Message u) where
  -- The state after these listeners were called with the message.
  abbrev pub reached : List ℕ → Transport (Message u) → Transport (Message u)
  reached ls t = record t { delivered = t.delivered ++ map (λ l. (l, msg)) ls }

  -- None of these listeners raises.
  abbrev pub Accept : List ℕ → Type 0
  Accept ls = All (λ l. on_receive l msg ≡ none) ls

  call_listeners-append :
      (ls rest : List ℕ) (t : Transport (Message u))
      → Accept ls
      → call_listeners u on_receive msg (ls ++ rest) t
        ≡ call_listeners u on_receive msg rest (reached ls t)
  unfolding call_listeners
  call_listeners-append [] rest t h = rw append-nil
  call_listeners-append (l ∷ ls) rest t (h, hs) =
      rw h (call_listeners-append ls rest (reached (l ∷ []) t) hs ∙ rw append_assoc)

  call_listeners-all :
      (ls : List ℕ) (t : Transport (Message u))
      → Accept ls
      → call_listeners u on_receive msg ls t ≡ (ok tt, reached ls t)
  unfolding call_listeners
  call_listeners-all ls t h =
      ap (λ (xs : List ℕ). call_listeners u on_receive msg xs t) (sym (append-nil ls))
      ∙ call_listeners-append ls [] t h

  call_listeners-raises :
      (ls rest : List ℕ) (l : ℕ) (e : Exception) (t : Transport (Message u))
      → Accept ls
      → on_receive l msg ≡ some e
      → call_listeners u on_receive msg (ls ++ l ∷ rest) t ≡ (raise e, reached (ls ++ l ∷ []) t)
  unfolding call_listeners
  call_listeners-raises ls rest l e t h f =
      call_listeners-append ls (l ∷ rest) t h
      ∙ rw (f, call_listeners) (rw (map-append, append_assoc))

  -- The URI under which the listeners for a message are looked up: a publish message's source, a
  -- request's sink. The other messages reach no listener.
  unfoldable pub listener_uri : MessageType → Option Bytes
  listener_uri publish = some (u.uri_bytes msg.source)
  listener_uri request = some (u.uri_bytes msg.sink)
  listener_uri _ = none

  module _ (t : Transport (Message u)) (b : ℕ) (bs : Bytes)
      (parsed : u.parse (b ∷ bs) ≡ some msg) where
    dispatch-notifies :
        (kind : MessageType) (uri : Bytes)
        → listener_uri kind ≡ some uri
        → dispatch u on_receive kind msg t ≡ call_listeners u on_receive msg (listeners_of uri t) t
    unfolding dispatch listener_uri
    dispatch-notifies publish uri e = rw (← (some-injective _ _ e))
    dispatch-notifies request uri e = rw (← (some-injective _ _ e))
    dispatch-notifies response uri e = cc
    dispatch-notifies (other n) uri e = cc

    handle_parsed-notifies :
        (uri : Bytes)
        → listener_uri msg.kind ≡ some uri
        → handle_parsed u on_receive (u.parse (b ∷ bs)) t
          ≡ call_listeners u on_receive msg (listeners_of uri t) t
    unfolding handle_parsed
    handle_parsed-notifies uri e = rw parsed (dispatch-notifies msg.kind uri e)

    -- A publish message or a request reaches the listeners of its URI, each as often as it was
    -- registered and in that order, changes nothing else, and the loop goes on.
    pub listen_round-delivers :
        (uri : Bytes)
        → listener_uri msg.kind ≡ some uri
        → Accept (listeners_of uri t)
        → listen_round u on_receive (ok (b ∷ bs)) t ≡ (true, reached (listeners_of uri t) t)
    unfolding listen_round
    listen_round-delivers uri e h =
        rw (handle_parsed-notifies uri e) (rw (call_listeners-all (listeners_of uri t) t h))

    -- A listener that raises keeps the message from those behind it. Where it raises an OSError, as
    -- on a failing connection of its own, the transport closes its socket and its loop ends.
    listen_round-raises :
        (uri : Bytes) (ls rest : List ℕ) (l : ℕ) (e : Exception)
        → listener_uri msg.kind ≡ some uri
        → listeners_of uri t ≡ ls ++ l ∷ rest
        → Accept ls
        → on_receive l msg ≡ some e
        → listen_round u on_receive (ok (b ∷ bs)) t ≡ (
            if is_socket_error e
            then (false, record (reached (ls ++ l ∷ []) t) { socket_open = false })
            else (true, reached (ls ++ l ∷ []) t))
    unfolding listen_round
    listen_round-raises uri ls rest l e k split h f =
        rw (handle_parsed-notifies uri k) (rw split (rw (call_listeners-raises ls rest l e t h f)))
