-- ===== src/Manager/Server/Reachable.antt =====
-- test_manager/testmanager.py, class TestManager: the states that its two threads reach.
use up_tck.Base.{
  ℕ, String, refl, ◌≡◌, Bool, true, false, Option, none, some, List, [], ◌∷◌, ◌++◌, string_eq,
  nat_eq, pair_eq, arith, Option-cases, Bool-cases, inl, inr, if◌then◌else◌,
}
use up_tck.Base
use up_tck.Base.Dict.{lookup, has_key-eq, has_key-ne}
use up_tck.Base.Exec.{Exception, Result, ok, raise}
use up_tck.Json.{Json, null, boolean, int, str, list, dict, Fields}
use up_tck.Manager.Database.{Address}
use up_tck.Manager.Database.Consistency.{init-IsConsistent}
use up_tck.Manager.Queue
use up_tck.Manager.Server.{
  Bytes, Manager, init, on_queues, accept_client_conn, receive_json, receive_bytes,
  receive_from_test_agent, close_by_name,
}
use up_tck.Manager.Database
use up_tck.Manager.Server.Closing.{Agrees}
use up_tck.Manager.Server.Agents.{IsServing}
use up_tck.Manager.Server.Serving.{
  lost_at, IsNewcomer, register-IsServing, close_by_socket-IsServing, receive_json-IsServing,
}
use up_tck.Manager.Server.Request.{send_socket_data, close}

-- The sockets lost after a chunk was read: an empty one closes the socket.
unfoldable pub lost_after : Result Bytes → Option Address → ℕ → List ℕ → List ℕ
unfolding lost_at
lost_after (ok []) o s lost = lost_at o s lost
lost_after (ok (b ∷ bs)) o s lost = lost
lost_after (raise e) o s lost = lost

-- The sockets lost after an agent was closed by its name.
unfoldable pub lost_by : (ℕ → Option Address) → Option ℕ → List ℕ → List ℕ
unfolding lost_at
lost_by peername none lost = lost
lost_by peername (some s) lost = lost_at (peername s) s lost

module _ (peername address_of : ℕ → Option Address) (agrees : Agrees peername address_of)
    (loads : Bytes → Option Json) (lost : List ℕ) where
  accept_client_conn-IsServing :
      (s : ℕ) (m : Manager)
      → IsServing address_of lost m
      → IsServing address_of lost (accept_client_conn peername loads s m).1
  unfolding accept_client_conn
  accept_client_conn-IsServing s m serving = elim (Option-cases (peername s)) [
    | inl gone ↦ rw gone serving
    | inr (address, at) ↦
        rw at (register-IsServing peername address_of agrees loads lost s m serving)
  ]

  decoded-IsServing :
      (s : ℕ) (o : Option Json) (m : Manager)
      → IsServing address_of lost m
      → Base.contains s m.registered ≡ true
      → ((msg : Fields)
          → o ≡ some (dict msg)
          → IsNewcomer peername address_of agrees loads lost s msg m)
      → IsServing address_of lost (receive_json peername loads s o m).1
  decoded-IsServing s (some (dict msg)) m serving there new =
      receive_json-IsServing peername address_of agrees loads lost s msg m serving there
        (new msg refl)
  decoded-IsServing s none m serving there new = unfold receive_json in serving
  decoded-IsServing s (some null) m serving there new = unfold receive_json in serving
  decoded-IsServing s (some (boolean b)) m serving there new = unfold receive_json in serving
  decoded-IsServing s (some (int n)) m serving there new = unfold receive_json in serving
  decoded-IsServing s (some (str t)) m serving there new = unfold receive_json in serving
  decoded-IsServing s (some (list items)) m serving there new = unfold receive_json in serving

  receive_from_test_agent-IsServing :
      (s : ℕ) (received : Result Bytes) (m : Manager)
      → IsServing address_of lost m
      → Base.contains s m.registered ≡ true
      → ((bs : Bytes) (msg : Fields)
          → received ≡ ok bs
          → loads bs ≡ some (dict msg)
          → IsNewcomer peername address_of agrees loads lost s msg m)
      → IsServing address_of
          (lost_after received (peername s) s lost)
          (receive_from_test_agent peername loads s received m).1
  unfolding receive_from_test_agent receive_bytes lost_after
  receive_from_test_agent-IsServing s (raise e) m serving there new = serving
  receive_from_test_agent-IsServing s (ok []) m serving there new =
      close_by_socket-IsServing peername address_of agrees loads lost s m serving
  receive_from_test_agent-IsServing s (ok (b ∷ bs)) m serving there new =
      decoded-IsServing s (loads (b ∷ bs)) m serving there λ msg e. new (b ∷ bs) msg refl e

  close_by_name-IsServing :
      (name : String) (o : Option ℕ) (m : Manager)
      → IsServing address_of lost m
      → lookup name m.database.name_to_address ≡ o
      → IsServing address_of (lost_by peername o lost) (close_by_name peername loads name m).1
  unfolding close_by_name Database.get_by_name Database.contains lost_by
  close_by_name-IsServing name none m serving known =
      rw (has_key-ne name m.database.name_to_address known) serving
  close_by_name-IsServing name (some s) m serving known =
      rw (has_key-eq name m.database.name_to_address known)
        (rw known (close_by_socket-IsServing peername address_of agrees loads lost s m serving))

module _ (address_of : ℕ → Option Address) (loads : Bytes → Option Json) where
  -- The states of the manager, with the sockets that the selector let go while the database may keep
  -- them: those whose close found no peer, and those that were watched when the selector was closed.
  -- The listener thread accepts a socket or reads from one that it watches, where an agent that
  -- introduces itself is a new one; the testing thread sends a request, looks for a response, takes
  -- one, or closes an agent or the server. In each step `getpeername` gives the address of a socket or
  -- raises.
  pub data Reachable : List ℕ → Manager → Type 0 where
    start : Reachable [] init
    accepts :
        {lost : List ℕ} {m : Manager} (peername : ℕ → Option Address) (s : ℕ)
        → Agrees peername address_of
        → Reachable lost m
        → Reachable lost (accept_client_conn peername loads s m).1
    reads :
        {lost : List ℕ} {m : Manager} (peername : ℕ → Option Address) (s : ℕ)
        (received : Result Bytes) (agrees : Agrees peername address_of)
        → Reachable lost m
        → Base.contains s m.registered ≡ true
        → ((bs : Bytes) (msg : Fields)
            → received ≡ ok bs
            → loads bs ≡ some (dict msg)
            → IsNewcomer peername address_of agrees loads lost s msg m)
        → Reachable
            (lost_after received (peername s) s lost)
            (receive_from_test_agent peername loads s received m).1
    sends :
        {lost : List ℕ} {m : Manager} (s : ℕ) (msg : Fields) (error : Option Exception)
        → Reachable lost m
        → Reachable lost (send_socket_data s msg error m).1
    looks :
        {lost : List ℕ} {m : Manager} (key inner value : String)
        → Reachable lost m
        → Reachable lost (on_queues (Queue.contains key inner value) m).1
    takes :
        {lost : List ℕ} {m : Manager} (key : String)
        → Reachable lost m
        → Reachable lost (on_queues (Queue.popleft key) m).1
    closes :
        {lost : List ℕ} {m : Manager} (peername : ℕ → Option Address) (name : String)
        → Agrees peername address_of
        → Reachable lost m
        → Reachable
            (lost_by peername (lookup name m.database.name_to_address) lost)
            (close_by_name peername loads name m).1
    ends :
        {lost : List ℕ} {m : Manager}
        → Reachable lost m
        → Reachable (m.registered ++ lost) (close m).1

  init-IsServing : IsServing address_of [] init
  unfolding lookup
  init-IsServing = record {
    consistent = init-IsConsistent address_of;
    watched = λ name s h kept. cc h;
  }

  -- Closing the selector loses what it watches.
  close-IsServing :
      (lost : List ℕ) (m : Manager)
      → IsServing address_of lost m
      → IsServing address_of (m.registered ++ lost) (close m).1
  unfolding close
  close-IsServing lost m serving = record {
    consistent = serving.consistent;
    watched = λ name s h kept.
        ground (arith, Base.contains-append s m.registered lost, kept, serving.watched name s h);
  }

  -- In every reachable state the two maps of the database agree, and the selector watches the socket
  -- of every agent that is known, but for the sockets that were lost.
  pub Reachable-IsServing :
      {lost : List ℕ} {m : Manager} → Reachable lost m → IsServing address_of lost m
  unfolding send_socket_data
  Reachable-IsServing start = init-IsServing
  Reachable-IsServing {lost} (accepts peername s agrees before) =
      accept_client_conn-IsServing peername address_of agrees loads _ s _
        (Reachable-IsServing before)
  Reachable-IsServing (reads peername s received agrees before there new) =
      receive_from_test_agent-IsServing peername address_of agrees loads _ s received _
        (Reachable-IsServing before) there new
  Reachable-IsServing (sends s msg none before) =
      let h = Reachable-IsServing before in
      record { consistent = h.consistent; watched = h.watched }
  Reachable-IsServing (sends s msg (some e) before) = Reachable-IsServing before
  Reachable-IsServing (looks key inner value before) =
      let h = Reachable-IsServing before in
      record { consistent = h.consistent; watched = h.watched }
  Reachable-IsServing (takes key before) =
      let h = Reachable-IsServing before in
      record { consistent = h.consistent; watched = h.watched }
  Reachable-IsServing (closes peername name agrees before) =
      close_by_name-IsServing peername address_of agrees loads _ name _ _
        (Reachable-IsServing before) refl
  Reachable-IsServing (ends before) = close-IsServing _ _ (Reachable-IsServing before)
