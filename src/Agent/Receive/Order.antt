-- ===== src/Agent/Receive/Order.antt =====
-- test_agent/python/testagent.py: what the receiving thread sends.
use mathlib.Core.List.{append-nil, append_assoc}
use up_tck.Base.{◌≡◌, refl, sym, ap, ◌∙◌, inl, inr, String, Option, none, some, List, [], ◌∷◌, ◌++◌}
use up_tck.Base.Exec.{Exception, Result, ok, raise, ◌>>◌, Result-cases}
use up_tck.Json.{Json, str, null, boolean, int, list, dict, Fields, subscript}
use up_tck.Agent.{UTransport, Agent, reply}
use up_tck.Agent.Codec.{Reflection}
use up_tck.Agent.Validation.Checks.{Validators}
use up_tck.Agent.Handlers.{Library, process_message, process_action}
use up_tck.Agent.Handlers.Replies.{silent, replied}
use up_tck.Agent.Handlers.Answers.{process_message-Replied}
use up_tck.Agent.Receive.{Bytes, process_json, receive_from_tm}

-- The replies to some of these requests, at most one to each, in the order of the requests.
pub data Replies (loads : Bytes → Option Json) : List (Result Bytes) → List Fields → Type 0 where
  stop : {received : List (Result Bytes)} → Replies loads received []
  skip :
      {chunk : Result Bytes} {received : List (Result Bytes)} {replies : List Fields}
      → Replies loads received replies
      → Replies loads (chunk ∷ received) replies
  answer :
      {chunk : Bytes} {received : List (Result Bytes)} {replies : List Fields}
      (request response test_id : Json) (action : String)
      → loads chunk ≡ some request
      → subscript request "action" ≡ ok (str action)
      → subscript request "test_id" ≡ ok test_id
      → Replies loads received replies
      → Replies loads (ok chunk ∷ received) (reply response action test_id ∷ replies)

module _ {T M : Type 0} (r : Reflection M) (v : Validators M) (l : Library M) (t : UTransport T M)
    (sendall : Fields → Option Exception) (loads : Bytes → Option Json) where
  -- One request: nothing is sent, or the reply to it.
  data Step (s : Agent T) (request : Json) (s' : Agent T) : Type 0 where
    nothing : s'.sent ≡ s.sent → Step s request s'
    one :
        (response test_id : Json) (action : String)
        → subscript request "action" ≡ ok (str action)
        → subscript request "test_id" ≡ ok test_id
        → s'.sent ≡ s.sent ++ reply response action test_id ∷ []
        → Step s request s'

  process_action-Step :
      (request action : Json) (s : Agent T)
      → subscript request "action" ≡ ok action
      → Step s request (process_message r v l t sendall request s).1
  unfolding process_message process_action
  process_action-Step request (str action) s e =
      elim (process_message-Replied r v l t sendall request s action e) [
        | silent same why ↦ nothing same
        | replied response test_id id same ↦ one response test_id action e id same
      ]
  process_action-Step request null s e = nothing (rw e refl)
  process_action-Step request (boolean b) s e = nothing (rw e refl)
  process_action-Step request (int n) s e = nothing (rw e refl)
  process_action-Step request (list items) s e = nothing (rw e refl)
  process_action-Step request (dict d) s e = nothing (rw e refl)

  request-Step :
      (request : Json) (s : Agent T) → Step s request (process_message r v l t sendall request s).1
  unfolding process_message
  request-Step request s = elim (Result-cases (subscript request "action")) [
    | inl (action, e) ↦ process_action-Step request action s e
    | inr (x, e) ↦ nothing (rw e refl)
  ]

  -- The thread goes on, or ends, from a state in which a chunk has been handled.
  module _ (received : List (Result Bytes))
      (rest : (s : Agent T)
        → (replies : List Fields) × Replies loads received replies
          × ((receive_from_tm r v l t sendall loads received s).1.sent ≡ s.sent ++ replies)) where
    go_on :
        (x : Result {0} Unit) (s s' : Agent T)
        → (replies : List Fields) × Replies loads received replies
          × (((λ _. (x, s')) >> receive_from_tm r v l t sendall loads received) s).1.sent
            ≡ s'.sent ++ replies
    go_on (ok a) s s' = rest s'
    go_on (raise e) s s' = ([], stop, sym (append-nil s'.sent))

    request_then :
        (chunk : Bytes) (request : Json) (s : Agent T)
        → loads chunk ≡ some request
        → (x : Result {0} Unit) (s' : Agent T) → Step s request s'
        → (replies : List Fields) × Replies loads (ok chunk ∷ received) replies
          × (((λ _. (x, s')) >> receive_from_tm r v l t sendall loads received) s).1.sent
            ≡ s.sent ++ replies
    request_then chunk request s loaded x s' (nothing same) =
        let (replies, are, e) = go_on x s s' in
        (replies, skip are, e ∙ ap (λ sent. sent ++ replies) same)
    request_then chunk request s loaded x s' (one response test_id action named id same) =
        let (replies, are, e) = go_on x s s' in
        (
          reply response action test_id ∷ replies,
          answer request response test_id action loaded named id are,
          e
              ∙ ap (λ sent. sent ++ replies) same
              ∙ append_assoc s.sent (reply response action test_id ∷ []) replies,
        )

    chunk_then :
        (chunk : Bytes) (s : Agent T) (o : Option Json)
        → loads chunk ≡ o
        → (replies : List Fields) × Replies loads (ok chunk ∷ received) replies
          × ((process_json r v l t sendall loads o
                >> receive_from_tm r v l t sendall loads received)
              s).1.sent
            ≡ s.sent ++ replies
    unfolding process_json
    chunk_then chunk s none loaded = ([], stop, sym (append-nil s.sent))
    chunk_then chunk s (some request) loaded =
        let (x, s') = process_message r v l t sendall request s in
        request_then chunk request s loaded x s' (request-Step request s)

  -- Whatever the manager sends and however the thread ends, what it sends back are replies to some of
  -- the requests, at most one to each and in their order, each under the action and the test id of its
  -- request.
  pub receive_from_tm-Replies :
      (received : List (Result Bytes)) (s : Agent T)
      → (replies : List Fields) × Replies loads received replies
        × ((receive_from_tm r v l t sendall loads received s).1.sent ≡ s.sent ++ replies)
  unfolding receive_from_tm
  receive_from_tm-Replies [] s = ([], stop, sym (append-nil s.sent))
  receive_from_tm-Replies (raise e ∷ received) s = ([], stop, sym (append-nil s.sent))
  receive_from_tm-Replies (ok [] ∷ received) s = ([], stop, sym (append-nil s.sent))
  receive_from_tm-Replies (ok (b ∷ bs) ∷ received) s =
      chunk_then received (receive_from_tm-Replies received) (b ∷ bs) s (loads (b ∷ bs)) refl
