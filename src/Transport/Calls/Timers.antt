-- ===== src/Transport/Calls/Timers.antt =====
-- up_client_socket/python/socket_transport.py: `timeout_counter` of a call, beside the other threads.
use up_tck.Base.{ℕ, ◌≡◌, ◌≢◌, String, true, false, Option, none, some, nat_eq, bytes_eq}
use up_tck.Base.Dict.{lookup, lookup-insert_self}
use up_tck.Base.Exec.{Exception}
use up_tck.Transport.{
  Uprotocol, Future, pending, timed_out, result, Transport, Message, complete, set_future,
  invoke_method, send, is_done,
}
use up_tck.Transport.Calls.Advances.{IsFresh, invoke_method-Advances, set_future-Advances}
use up_tck.Transport.Calls.Settled.{Run, Run-Advances, Run-settled}

module _ {Uri Uuid Payload : Type 0} (u : Uprotocol Uri Uuid Payload)
    (on_receive : ℕ → Message u → Option Exception) where
  -- The timer of a call fires: its test finds the future done, or it does not, and the timer writes
  -- after any steps of the other threads.
  pub data Fires (f : ℕ) (t : Transport (Message u)) : Transport (Message u) → Type 0 where
    already : is_done u f t ≡ true → Fires f t t
    writes :
        {t' : Transport (Message u)}
        → is_done u f t ≡ false
        → Run u on_receive t t'
        → Fires f t (set_future u f timed_out t').1

  -- The future is there and done.
  pub record IsSettled (f : ℕ) (t : Transport (Message u)) : Type 0 where
    pub value : Future (Message u)
    pub done : value ≢ pending
    pub holds : lookup f t.futures ≡ some value

  is_done-IsSettled :
      (f : ℕ) (v : Future (Message u)) (t : Transport (Message u))
      → lookup f t.futures ≡ some v
      → is_done u f t ≡ true
      → IsSettled f t
  unfolding is_done
  is_done-IsSettled f pending t h d = cc (rw (h, is_done) at d)
  is_done-IsSettled f timed_out t h d = record { value = timed_out; done = λ e. cc e; holds = h }
  is_done-IsSettled f (result m) t h d = record { value = result m; done = λ e. cc e; holds = h }

  complete-IsSettled :
      (f : ℕ) (v : Future (Message u)) (t : Transport (Message u))
      → lookup f t.futures ≡ some v
      → IsSettled f (complete u f timed_out (some v) t).1
  unfolding complete
  complete-IsSettled f pending t h = record {
    value = timed_out;
    done = λ e. cc e;
    holds = lookup-insert_self f timed_out t.futures;
  }
  complete-IsSettled f timed_out t h = record { value = timed_out; done = λ e. cc e; holds = h }
  complete-IsSettled f (result m) t h = record { value = result m; done = λ e. cc e; holds = h }

  set_future-IsSettled :
      (f : ℕ) (v : Future (Message u)) (t : Transport (Message u))
      → lookup f t.futures ≡ some v
      → IsSettled f (set_future u f timed_out t).1
  unfolding set_future
  set_future-IsSettled f v t h = rw h (complete-IsSettled f v t h)

  fired-IsSettled :
      (f : ℕ) (v : Future (Message u)) {t t' : Transport (Message u)}
      → IsFresh t
      → lookup f t.futures ≡ some v
      → Fires f t t'
      → IsSettled f t' × IsFresh t'
  fired-IsSettled f v {t} fresh h (already d) = (is_done-IsSettled f v t h d, fresh)
  fired-IsSettled f v {t} fresh h (writes {t'} d run) =
      let a = Run-Advances u on_receive run fresh in
      let (w, k) = a.there f v h in
      (
        set_future-IsSettled f w t' k,
        (set_future-Advances u on_receive f timed_out t' a.fresh).fresh,
      )

  invoked :
      (msg : Message u) (error : Option String) (t : Transport (Message u))
      → lookup t.next_future (invoke_method u msg error t).1.futures ≡ some pending
  unfolding invoke_method send
  invoked msg none t = lookup-insert_self t.next_future pending t.futures
  invoked msg (some text) t = lookup-insert_self t.next_future pending t.futures

  -- Once the timer of a call has fired, whatever the threads did between the call and the timer's test,
  -- between the test and its write, and do afterwards: the future of the call holds a response or has
  -- timed out.
  pub invoke_method-IsSettled :
      (msg : Message u) (error : Option String) (t : Transport (Message u))
      → IsFresh t
      → {t1 t2 t3 : Transport (Message u)} → Run u on_receive (invoke_method u msg error t).1 t1
      → Fires t.next_future t1 t2
      → Run u on_receive t2 t3
      → IsSettled t.next_future t3
  invoke_method-IsSettled msg error t fresh before fires after =
      let called = invoke_method-Advances u on_receive msg error t fresh in
      let a = Run-Advances u on_receive before called.fresh in
      let (v, there) = a.there t.next_future pending (invoked msg error t) in
      let (settled, fresh') = fired-IsSettled t.next_future v a.fresh there fires in
      record {
        value = settled.value;
        done = settled.done;
        holds =
            Run-settled u on_receive fresh' after t.next_future settled.value settled.holds
              settled.done;
      }
