-- ===== src/Manager/Server/Request/Ended.antt =====
-- test_manager/testmanager.py: a chunk that is no JSON text, such as two messages of an agent that one `recv` gives,
-- and the requests behind it.
use up_tck.Base.{ℕ, String, ◌≡◌, refl, ◌∙◌, false, Option, none, List, [], ◌∷◌, string_eq}
use up_tck.Base.Exec.{ok}
use up_tck.Json.{Json}
use up_tck.Manager.Database.{Address}
use up_tck.Manager.Queue
use up_tck.Manager.Queue.{head_has}
use up_tck.Manager.Queue.Fifo.{waiting, contains-eq}
use up_tck.Manager.Server.{
  Bytes, Manager, on_queues, receive_from_test_agent, receive_bytes, receive_json,
}
use up_tck.Manager.Server.Request.{
  Event, receive, send_socket_data, callback, run_callbacks, listen, wait_for, await_response,
  request,
}
use up_tck.Manager.Server.Request.Arrival.{IsListening, listen-runs}
use up_tck.Manager.Server.Request.Waiting.{Sent}

module _ (peername : ℕ → Option Address) (loads : Bytes → Option Json) where
  listen-ended :
      (events : List Event) (m : Manager) → m.listening ≡ false → listen peername loads events m ≡ m
  unfolding listen
  listen-ended events m ended = rw ended refl

  listen-undecodable :
      (s b : ℕ) (bs : Bytes) (events : List Event) (m : Manager)
      → IsListening m
      → loads (b ∷ bs) ≡ none
      → listen peername loads (receive s (ok (b ∷ bs)) ∷ events) m ≡ record m { listening = false }
  unfolding run_callbacks callback receive_from_test_agent receive_bytes receive_json
  listen-undecodable s b bs events m runs broken =
      listen-runs peername loads (receive s (ok (b ∷ bs)) ∷ events) m runs ∙ rw broken refl

  module _ (key inner value : String) where
    on_contains-empty :
        (m : Manager)
        → waiting m.queues key ≡ []
        → ((Queue.contains key inner value m.queues).0 ≡ ok false)
          × (waiting (Queue.contains key inner value m.queues).1 key ≡ [])
    unfolding head_has
    on_contains-empty m empty = (
      (contains-eq key inner value m.queues).0 ∙ rw empty refl,
      (contains-eq key inner value m.queues).1 key ∙ empty,
    )

    wait_for-ended :
        (schedule : List (List Event)) (m : Manager)
        → m.listening ≡ false
        → waiting m.queues key ≡ []
        → (wait_for peername loads key inner value schedule m).0 ≡ ok false
    unfolding wait_for
    wait_for-ended [] m ended empty = (on_contains-empty m empty).0
    wait_for-ended (events ∷ schedule) m ended empty =
        let (unseen, still) = on_contains-empty m empty in
        rw unseen (
          rw (listen-ended events (on_queues (Queue.contains key inner value) m).1 ended)
            (wait_for-ended schedule _ ended still))

    await_response-ended :
        (schedule : List (List Event)) (m : Manager)
        → m.listening ≡ false
        → waiting m.queues key ≡ []
        → (await_response peername loads key inner value schedule m).0 ≡ ok none
    unfolding await_response
    await_response-ended schedule m ended empty = rw (wait_for-ended schedule m ended empty) refl

-- A chunk of an agent that does not decode ends the listener thread: a request to a known agent after
-- it, for an action that no response waits for, never returns, whatever the agents answer.
pub request-undecodable :
    (peername : ℕ → Option Address) (loads : Bytes → Option Json) (m : Manager) (s b : ℕ)
    (bs : Bytes) (events : List Event) (name action test_id : String) (payload : Json)
    (extra : Option Json) (schedule : List (List Event))
    → IsListening m
    → loads (b ∷ bs) ≡ none
    → Sent name none m
    → waiting m.queues action ≡ []
    → (request peername loads name action payload extra test_id none schedule
        (listen peername loads (receive s (ok (b ∷ bs)) ∷ events) m)).0
      ≡ ok none
unfolding request send_socket_data
request-undecodable peername loads m s b bs events name action test_id payload extra schedule runs
      broken ((socket, known), sends) empty =
    rw (listen-undecodable peername loads s b bs events m runs broken) (
      rw known (await_response-ended peername loads action "test_id" test_id schedule _ refl empty))
