-- ===== src/Manager/Server/Request/Undisturbed.antt =====
-- test_manager/testmanager.py: what a call that has waited leaves behind, for the calls after it.
use up_tck.Base.{
  ℕ, zero, suc, String, ◌≡◌, ◌≢◌, refl, ◌∙◌, Option, some, List, [], ◌∷◌, arith, string_eq,
}
use up_tck.Base.Text.{strip, is_quote}
use up_tck.Base.Exec.{ok}
use up_tck.Json.{Json, str, dict, Fields, get, get-put_ne, action-ne-test_id}
use up_tck.Manager.Database.{Address}
use up_tck.Manager.Queue
use up_tck.Manager.Queue.Fifo.{waiting, waiting-append, contains-eq, HasAction, popleft-cons}
use up_tck.Manager.Server.{Bytes, Manager}
use up_tck.Manager.Server.Request.{Event, take_response, await_response}
use up_tck.Manager.Server.Request.Arrival.{
  Answers, polled, wait_for-now, contains-answer, await_response-later, quiet, IsListening,
  listen-nil, listen-arrival, arrival, response,
}

-- The listener goes on, the agents are the same and the same messages wait under every key.
pub record IsUndisturbed (before after : Manager) : Type 0 where
  pub listening : IsListening after
  pub agents : after.database ≡ before.database
  pub queued : (key : String) → waiting after.queues key ≡ waiting before.queues key

module _ (peername : ℕ → Option Address) (loads : Bytes → Option Json)
    (key inner value : String) where
  -- A response that waits first when the call begins to wait is returned and taken away.
  await_response-takes :
      (schedule : List (List Event)) (m : Manager) (msg : Fields) (queue : List Fields)
      → waiting m.queues key ≡ msg ∷ queue
      → Answers inner value msg
      → HasAction msg
      → (await_response peername loads key inner value schedule m ≡ (
        ok (some msg),
        record m {
          queues = (Queue.popleft key (polled peername loads key inner value m).queues).1;
        },
      ))
  unfolding await_response take_response
  await_response-takes schedule m msg queue h answers named =
      rw
        (wait_for-now peername loads key inner value schedule m
          (contains-answer peername loads key inner value m msg queue h answers))
        (rw
          (popleft-cons key msg queue (polled peername loads key inner value m).queues
            ((contains-eq key inner value m.queues).1 key ∙ h) named).0
          refl)

module _ (peername : ℕ → Option Address) (loads : Bytes → Option Json) (s b : ℕ) (bs : Bytes)
    (msg : Fields) (loaded : loads (b ∷ bs) ≡ some (dict msg)) (action id : String)
    (named : get "action" msg ≡ some (str action)) (other : action ≢ "initialize")
    (identified : get "test_id" msg ≡ some (str id)) (inner value : String) where
  -- The response as the manager keeps it, and its arrival.
  abbrev kept : Fields
  kept = response peername loads s b bs msg loaded action id named other identified

  abbrev arrives : List Event
  arrives = arrival peername loads s b bs msg loaded action id named other identified

  abbrev polls : Manager → Manager
  polls = polled peername loads action inner value

  kept-HasAction : HasAction kept
  kept-HasAction = (
    str action,
    get-put_ne "action" "test_id" (str (strip is_quote id)) msg action-ne-test_id ∙ named,
  )

  -- The queues before the poll, before the arrival, and when the response is taken away again.
  queued-back :
      (m : Manager) (key : String)
      → waiting m.queues action ≡ []
      → waiting
          (Queue.popleft action
            (polls (record (polls m) {
              queues = (Queue.append action kept (polls m).queues).1;
            })).queues).1
          key
        ≡ waiting m.queues key
  queued-back m key empty =
      let arrived : Manager = record (polls m) {
        queues = (Queue.append action kept (polls m).queues).1;
      } in
      let first : waiting (polls arrived).queues action ≡ kept ∷ [] = ground (
        arith,
        empty,
        waiting-append action action kept (polls m).queues,
        (contains-eq action inner value m.queues).1 action,
        (contains-eq action inner value arrived.queues).1 action,
      ) in
      ground (
        arith,
        empty,
        (popleft-cons action kept [] (polls arrived).queues first kept-HasAction).1 key,
        waiting-append action key kept (polls m).queues,
        (contains-eq action inner value m.queues).1 key,
        (contains-eq action inner value arrived.queues).1 key,
      )

  -- The response arrives after any number of polls, with no other waiting: the call returns it, and
  -- leaves the manager as it was for the calls after it.
  pub await_response-IsUndisturbed :
      (n : ℕ) (rest : List (List Event)) (m : Manager)
      → Answers inner value kept
      → waiting m.queues action ≡ []
      → IsListening m
      → let out = await_response peername loads action inner value (quiet n (arrives ∷ rest)) m in
        (out.0 ≡ ok (some kept)) × IsUndisturbed m out.1
  unfolding quiet
  await_response-IsUndisturbed zero rest m answers empty runs =
      let arrived : Manager = record (polls m) {
        queues = (Queue.append action kept (polls m).queues).1;
      } in
      let first : waiting arrived.queues action ≡ kept ∷ [] = ground (
        arith,
        empty,
        waiting-append action action kept (polls m).queues,
        (contains-eq action inner value m.queues).1 action,
      ) in
      rw (await_response-later peername loads action inner value arrives rest m empty) (
        rw
          (listen-arrival peername loads s b bs msg loaded action id named other identified
            (polls m) runs)
          (rw
            (await_response-takes peername loads action inner value rest arrived kept [] first
              answers kept-HasAction)
            (
              refl,
              record { listening = runs; agents = refl; queued = λ key. queued-back m key empty },
            )))
  await_response-IsUndisturbed (suc n) rest m answers empty runs =
      let (returned, after) =
        await_response-IsUndisturbed n rest (polls m) answers
          ((contains-eq action inner value m.queues).1 action ∙ empty) runs in
      rw
        (await_response-later peername loads action inner value [] (quiet n (arrives ∷ rest)) m
          empty)
        (rw (listen-nil peername loads (polls m)) (
          returned,
          record {
            listening = after.listening;
            agents = after.agents;
            queued = λ key. after.queued key ∙ (contains-eq action inner value m.queues).1 key;
          },
        ))
