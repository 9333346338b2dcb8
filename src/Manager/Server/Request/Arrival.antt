-- ===== src/Manager/Server/Request/Arrival.antt =====
-- test_manager/testmanager.py: the response that a request returns, and when it returns.
use up_tck.Base.{
  ℕ, zero, suc, String, ◌≡◌, ◌≢◌, refl, sym, subst, ◌∙◌, Bool, true, false, Option, some, List, [],
  ◌∷◌, arith, string_eq, Option-cases, ◌⊎◌, inl, inr, eq_self,
}
use up_tck.Base.Text.{strip, is_quote}
use up_tck.Base.Exec.{Exception, Result, ok, raise}
use up_tck.Json.{
  Json, str, dict, Fields, get, put, is_str, get-put_ne, get-put_self, action-ne-test_id,
}
use up_tck.Manager.Database.{Address}
use up_tck.Manager.Queue
use up_tck.Manager.Queue.{head_has}
use up_tck.Manager.Queue.Fifo.{
  waiting, waiting-append, contains-eq, HasAction, popleft-cons, popleft-nameless,
}
use up_tck.Manager.Server.{Bytes, Manager, on_queues}
use up_tck.Manager.Server.Handlers.{receive_from_test_agent-response}
use up_tck.Manager.Server.Request.{
  Event, receive, callback, run_callbacks, outcome, listen, wait_for, take_response, await_response,
}

-- The message that waits first answers to this value.
abbrev pub Answers : String → String → Fields → Type 0
Answers inner value msg = (v : Json) × (get inner msg ≡ some v) × (is_str value v ≡ true)

head_has-true :
    (inner value : String) (queue : List Fields)
    → head_has inner value queue ≡ ok true
    → (msg : Fields) × (rest : List Fields) × (queue ≡ msg ∷ rest) × Answers inner value msg
unfolding head_has
head_has-true inner value [] h = cc
head_has-true inner value (msg ∷ rest) h = elim (Option-cases (get inner msg)) [
  | inl e ↦ cc (e, h)
  | inr (v, e) ↦ (msg, rest, refl, (v, e, ground (arith, e)))
]

poll_cases :
    (r : Result Bool) → (r ≡ ok true) ⊎ ((r ≡ ok false) ⊎ ((e : Exception) × (r ≡ raise e)))
poll_cases (ok true) = inl refl
poll_cases (ok false) = inr (inl refl)
poll_cases (raise e) = inr (inr (e, refl))

popleft-first :
    (key : String) (msg r : Fields) (queue : List Fields) (q : Queue.Queues)
    → waiting q key ≡ msg ∷ queue
    → (Queue.popleft key q).0 ≡ ok r
    → r ≡ msg
popleft-first key msg r queue q e h = elim (Option-cases (get "action" msg)) [
  | inl absent ↦ cc (h, (popleft-nameless key msg queue q e absent).0)
  | inr named ↦ cc (h, (popleft-cons key msg queue q e named).0)
]

module _ (peername : ℕ → Option Address) (loads : Bytes → Option Json)
    (key inner value : String) where
  abbrev pub polled : Manager → Manager
  polled m = (on_queues (Queue.contains key inner value) m).1

  polled-head :
      (m : Manager)
      → (Queue.contains key inner value m.queues).0 ≡ ok true
      → head_has inner value (waiting (polled m).queues key) ≡ ok true
  polled-head m h =
      rw ((contains-eq key inner value m.queues).1 key)
        (sym (contains-eq key inner value m.queues).0 ∙ h)

  wait_for-true :
      (schedule : List (List Event)) (m : Manager)
      → (wait_for peername loads key inner value schedule m).0 ≡ ok true
      → head_has inner value
          (waiting (wait_for peername loads key inner value schedule m).1.queues key)
        ≡ ok true
  unfolding wait_for
  wait_for-true [] m h = polled-head m h
  wait_for-true (events ∷ schedule) m h =
      elim (poll_cases (Queue.contains key inner value m.queues).0) [
        | inl seen ↦ rw seen (polled-head m seen)
        | inr (inl unseen) ↦ rw unseen (wait_for-true schedule _ (rw unseen at h))
        | inr (inr (e, raised)) ↦ cc (rw raised at h)
      ]

  take_response-some :
      (m : Manager) (r : Fields)
      → (take_response peername loads key true m).0 ≡ ok (some r)
      → (Queue.popleft key m.queues).0 ≡ ok r
  unfolding take_response
  take_response-some m r h = ground arith

  pub await_response-Answers :
      (schedule : List (List Event)) (m : Manager) (r : Fields)
      → (await_response peername loads key inner value schedule m).0 ≡ ok (some r)
      → Answers inner value r
  unfolding await_response
  await_response-Answers schedule m r h =
      elim (poll_cases (wait_for peername loads key inner value schedule m).0) [
        | inl seen ↦
            let (msg, rest, first, answers) =
              head_has-true inner value _ (wait_for-true schedule m seen) in
            subst (Answers inner value)
              (sym (popleft-first key msg r rest _ first (take_response-some _ r (rw seen at h))))
              answers
        | inr (inl unseen) ↦ cc (rw unseen at h)
        | inr (inr (e, raised)) ↦ cc (rw raised at h)
      ]

  contains-nil :
      (m : Manager)
      → waiting m.queues key ≡ []
      → (Queue.contains key inner value m.queues).0 ≡ ok false
  unfolding head_has
  contains-nil m h = (contains-eq key inner value m.queues).0 ∙ rw h

  pub contains-answer :
      (m : Manager) (msg : Fields) (queue : List Fields)
      → waiting m.queues key ≡ msg ∷ queue
      → Answers inner value msg
      → (Queue.contains key inner value m.queues).0 ≡ ok true
  unfolding head_has
  contains-answer m msg queue h (v, has, same) =
      (contains-eq key inner value m.queues).0 ∙ rw h (rw (has, head_has) (rw same))

  pub wait_for-now :
      (schedule : List (List Event)) (m : Manager)
      → (Queue.contains key inner value m.queues).0 ≡ ok true
      → wait_for peername loads key inner value schedule m ≡ (ok true, polled m)
  unfolding wait_for
  wait_for-now [] m h = rw h
  wait_for-now (events ∷ schedule) m h = rw h

  -- A response that waits first when the call begins to wait is returned.
  await_response-now :
      (schedule : List (List Event)) (m : Manager) (msg : Fields) (queue : List Fields)
      → waiting m.queues key ≡ msg ∷ queue
      → Answers inner value msg
      → HasAction msg
      → (await_response peername loads key inner value schedule m).0 ≡ ok (some msg)
  unfolding await_response
  await_response-now schedule m msg queue h answers named =
      rw (wait_for-now schedule m (contains-answer m msg queue h answers)) (
        rw (
          (popleft-cons key msg queue (polled m).queues
              ((contains-eq key inner value m.queues).1 key ∙ h) named).0,
          take_response,
        ))

  pub await_response-later :
      (events : List Event) (schedule : List (List Event)) (m : Manager)
      → waiting m.queues key ≡ []
      → await_response peername loads key inner value (events ∷ schedule) m
        ≡ await_response peername loads key inner value schedule
            (listen peername loads events (polled m))
  unfolding await_response
  await_response-later events schedule m h = rw (contains-nil m h, wait_for)

-- A number of polls between which nothing arrives.
unfoldable pub quiet : ℕ → List (List Event) → List (List Event)
quiet zero schedule = schedule
quiet (suc n) schedule = [] ∷ quiet n schedule

-- The listener thread handles events.
abbrev pub IsListening : Manager → Type 0
IsListening m = (m.listening ≡ true) × (m.exit_manager ≡ false)

pub listen-nil :
    (peername : ℕ → Option Address) (loads : Bytes → Option Json) (m : Manager)
    → listen peername loads [] m ≡ m
unfolding listen
listen-nil peername loads m = ground arith

pub listen-runs :
    (peername : ℕ → Option Address) (loads : Bytes → Option Json) (events : List Event)
    (m : Manager)
    → IsListening m
    → listen peername loads events m
      ≡ outcome peername loads (run_callbacks peername loads events m)
unfolding listen
listen-runs peername loads events m (runs, goes_on) = ground (arith, runs, goes_on)

module _ (peername : ℕ → Option Address) (loads : Bytes → Option Json) (s b : ℕ) (bs : Bytes)
    (msg : Fields) (loaded : loads (b ∷ bs) ≡ some (dict msg)) (action id : String)
    (named : get "action" msg ≡ some (str action)) (other : action ≢ "initialize")
    (identified : get "test_id" msg ≡ some (str id)) where
  abbrev pub test_id : String
  test_id = strip is_quote id

  -- The response as the caller sees it.
  abbrev pub response : Fields
  response = put "test_id" (str test_id) msg

  abbrev pub arrival : List Event
  arrival = receive s (ok (b ∷ bs)) ∷ []

  pub listen-arrival :
      (m : Manager)
      → IsListening m
      → listen peername loads arrival m
        ≡ record m { queues = (Queue.append action response m.queues).1 }
  unfolding callback run_callbacks
  listen-arrival m runs =
      listen-runs peername loads arrival m runs
      ∙ rw (
          receive_from_test_agent-response peername loads m s b bs msg loaded action id named other
            identified)

  waits :
      (m : Manager)
      → waiting m.queues action ≡ []
      → waiting
          (Queue.append action response (polled peername loads action "test_id" test_id m).queues).1
          action
        ≡ response ∷ []
  waits m empty = ground (
    arith,
    empty,
    waiting-append action action response (polled peername loads action "test_id" test_id m).queues,
    (contains-eq action "test_id" test_id m.queues).1 action,
  )

  pub await_response-arrival :
      (n : ℕ) (rest : List (List Event)) (m : Manager)
      → waiting m.queues action ≡ []
      → IsListening m
      → (await_response peername loads action "test_id" test_id (quiet n (arrival ∷ rest)) m).0
        ≡ ok (some response)
  unfolding quiet
  await_response-arrival zero rest m empty runs =
      rw (await_response-later peername loads action "test_id" test_id arrival rest m empty) (
        rw (listen-arrival (polled peername loads action "test_id" test_id m) runs) (
          await_response-now peername loads action "test_id" test_id rest _ response []
            (waits m empty) (str test_id, get-put_self "test_id" (str test_id) msg, eq_self test_id)
            (
              str action,
              get-put_ne "action" "test_id" (str test_id) msg action-ne-test_id ∙ named,
            )))
  await_response-arrival (suc n) rest m empty runs =
      rw
        (await_response-later peername loads action "test_id" test_id [] (quiet n (arrival ∷ rest))
          m empty)
        (rw listen-nil (
          await_response-arrival n rest _
            ((contains-eq action "test_id" test_id m.queues).1 action ∙ empty) runs))
