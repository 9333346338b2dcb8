-- ===== src/Transport/Calls/Settled.antt =====
-- up_client_socket/python/socket_transport.py: a future that is done stays as it is, whatever the
-- threads of the transport do, and in whatever order.
use up_tck.Base.{ℕ, ◌<◌, ◌≡◌, ◌≢◌, refl, Option, some, arith, nat_eq, bytes_eq, String}
use up_tck.Base.Dict.{lookup}
use up_tck.Base.Exec.{Exception, Result}
use up_tck.Transport.{
  Bytes, Uprotocol, Future, pending, timed_out, Transport, Message, init, register_listener,
  unregister_listener, send, set_future, invoke_method,
}
use up_tck.Transport.Loop.{listen_round}
use up_tck.Transport.Calls.Advances.{
  IsFresh, Advances, same_futures, set_future-Advances, invoke_method-Advances,
  listen_round-Advances,
}

module _ {Uri Uuid Payload : Type 0} (u : Uprotocol Uri Uuid Payload)
    (on_receive : ℕ → Message u → Option Exception) where
  -- The steps of the threads: the callers', the listener's for what `recv` gives, and the second step
  -- of `timeout_counter`, which may come long after its test.
  pub data Step : Transport (Message u) → Transport (Message u) → Type 0 where
    register :
        (t : Transport (Message u)) (topic : Uri) (listener : ℕ)
        → Step t (register_listener u topic listener t).1
    unregister :
        (t : Transport (Message u)) (topic : Uri) (listener : ℕ)
        → Step t (unregister_listener u topic listener t).1
    sends :
        (t : Transport (Message u)) (msg : Message u) (error : Option String)
        → Step t (send u msg error t).1
    invoke :
        (t : Transport (Message u)) (msg : Message u) (error : Option String)
        → Step t (invoke_method u msg error t).1
    receive :
        (t : Transport (Message u)) (received : Result Bytes)
        → Step t (listen_round u on_receive received t).1
    expire :
        (t : Transport (Message u)) (f : ℕ)
        → f < t.next_future
        → Step t (set_future u f timed_out t).1

  register_listener-futures :
      (topic : Uri) (listener : ℕ) (t : Transport (Message u))
      → ((register_listener u topic listener t).1.futures ≡ t.futures)
        × ((register_listener u topic listener t).1.next_future ≡ t.next_future)
  unfolding register_listener
  register_listener-futures topic listener t = ground arith

  unregister_listener-futures :
      (topic : Uri) (listener : ℕ) (t : Transport (Message u))
      → ((unregister_listener u topic listener t).1.futures ≡ t.futures)
        × ((unregister_listener u topic listener t).1.next_future ≡ t.next_future)
  unfolding unregister_listener
  unregister_listener-futures topic listener t = ground arith

  send-futures :
      (msg : Message u) (error : Option String) (t : Transport (Message u))
      → ((send u msg error t).1.futures ≡ t.futures)
        × ((send u msg error t).1.next_future ≡ t.next_future)
  unfolding send
  send-futures msg error t = ground arith

  Step-Advances :
      {t t' : Transport (Message u)} → Step t t' → IsFresh t → Advances u on_receive t t'
  Step-Advances (register t topic listener) fresh =
      let (e, n) = register_listener-futures topic listener t in
      same_futures u on_receive t _ fresh e n
  Step-Advances (unregister t topic listener) fresh =
      let (e, n) = unregister_listener-futures topic listener t in
      same_futures u on_receive t _ fresh e n
  Step-Advances (sends t msg error) fresh =
      let (e, n) = send-futures msg error t in same_futures u on_receive t _ fresh e n
  Step-Advances (invoke t msg error) fresh = invoke_method-Advances u on_receive msg error t fresh
  Step-Advances (receive t received) fresh = listen_round-Advances u on_receive received t fresh
  Step-Advances (expire t f _) fresh = set_future-Advances u on_receive f timed_out t fresh

  -- Any number of steps of the threads, in any order.
  pub data Run (t : Transport (Message u)) : Transport (Message u) → Type 0 where
    here : Run t t
    next : {t' t'' : Transport (Message u)} → Run t t' → Step t' t'' → Run t t''

  pub Run-Advances :
      {t t' : Transport (Message u)} → Run t t' → IsFresh t → Advances u on_receive t t'
  Run-Advances {t} here fresh = same_futures u on_receive t t fresh refl refl
  Run-Advances (next r s) fresh =
      let a = Run-Advances r fresh in
      let b = Step-Advances s a.fresh in
      record {
        stays = λ f v h ne. b.stays f v (a.stays f v h ne) ne;
        there = λ f v h. let (w, k) = a.there f v h in b.there f w k;
        fresh = b.fresh;
      }

  -- A future that holds a response or has timed out keeps what it holds, whatever responses and
  -- timeouts come later.
  pub Run-settled :
      {t t' : Transport (Message u)}
      → IsFresh t
      → Run t t'
      → (f : ℕ) (v : Future (Message u)) → lookup f t.futures ≡ some v
      → v ≢ pending
      → lookup f t'.futures ≡ some v
  Run-settled fresh r = (Run-Advances r fresh).stays

  -- Every state that the transport reaches uses identities below the next one only.
  pub Run-IsFresh : {t : Transport (Message u)} → Run init t → IsFresh t
  unfolding lookup
  Run-IsFresh r = (Run-Advances r (λ f le. refl)).fresh
