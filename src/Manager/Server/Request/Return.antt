-- ===== src/Manager/Server/Request/Return.antt =====
-- test_manager/testmanager.py: `request` from its call to its return.
use up_tck.Base.{ℕ, String, ◌≡◌, ◌≢◌, Option, some, List, [], ◌∷◌, inl, inr, Option-cases}
use up_tck.Base.Text.{strip, is_quote}
use up_tck.Base.Dict.{lookup-insert_self}
use up_tck.Base.Exec.{Exception, Result-cases, ok}
use up_tck.Json.{Json, str, dict, Fields, get, put}
use up_tck.Manager.Database
use up_tck.Manager.Database.{Address, found}
use up_tck.Manager.Queue.Fifo.{waiting}
use up_tck.Manager.Server.{Bytes, Manager, normalize, receive_from_test_agent}
use up_tck.Manager.Server.Handlers.{receive_from_test_agent-initialize}
use up_tck.Manager.Server.Request.{Event, receive, send_socket_data, request}
use up_tck.Manager.Server.Request.Waiting.{Sent}
use up_tck.Manager.Server.Request.Arrival.{
  Answers, await_response-Answers, await_response-arrival, quiet, IsListening,
}

module _ (peername : ℕ → Option Address) (loads : Bytes → Option Json) where
  -- A request returns only a response with its own test id.
  pub request-Answers :
      (name action test_id : String) (payload : Json) (extra : Option Json)
      (send_error : Option Exception) (schedule : List (List Event)) (m : Manager) (r : Fields)
      → (request peername loads name action payload extra test_id send_error schedule m).0
        ≡ ok (some r)
      → Answers "test_id" test_id r
  unfolding request
  request-Answers name action test_id payload extra send_error schedule m r h =
      elim (Result-cases (Database.get_by_name (normalize name) m.database).0) [
        | inr (e, unknown) ↦ cc (rw unknown at h)
        | inl (s, known) ↦ elim (Option-cases send_error) [
          | inl sends ↦
              await_response-Answers peername loads action "test_id" test_id schedule _ r
                (rw (sends, send_socket_data) at (rw known at h))
          | inr (e, fails) ↦ cc (rw (fails, send_socket_data) at (rw known at h))
        ]
      ]

  -- The response to a request arrives after any number of polls: the request returns it, if no
  -- other response waited for the action, with the quotes around its test id taken off.
  pub request-returns :
      (s b : ℕ) (bs : Bytes) (msg : Fields) (name action id : String) (payload : Json)
      (extra : Option Json) (send_error : Option Exception) (n : ℕ) (rest : List (List Event))
      (m : Manager)
      → loads (b ∷ bs) ≡ some (dict msg)
      → get "action" msg ≡ some (str action)
      → action ≢ "initialize"
      → get "test_id" msg ≡ some (str id)
      → Sent name send_error m
      → waiting m.queues action ≡ []
      → IsListening m
      → (request peername loads name action payload extra
          (strip is_quote id)
          send_error
          (quiet n ((receive s (ok (b ∷ bs)) ∷ []) ∷ rest))
          m).0
        ≡ ok (some (put "test_id" (str (strip is_quote id)) msg))
  unfolding request
  request-returns s b bs msg name action id payload extra send_error n rest m loaded named other
        identified ((t, known), sends) empty runs =
      rw known (
        rw (sends, send_socket_data)
          (await_response-arrival peername loads s b bs msg loaded action id named other identified
            n rest _ empty runs))

  -- An agent that has introduced itself can be asked under any spelling of its name that agrees up
  -- to capital letters and spaces around it.
  Sent-initialize :
      (s b : ℕ) (bs : Bytes) (msg payload : Fields) (name id spelling : String) (address : Address)
      (m : Manager)
      → loads (b ∷ bs) ≡ some (dict msg)
      → get "action" msg ≡ some (str "initialize")
      → get "test_id" msg ≡ some (str id)
      → get "data" msg ≡ some (dict payload)
      → get "SDK_name" payload ≡ some (str name)
      → peername s ≡ some address
      → normalize spelling ≡ normalize name
      → (Database.get_by_name
          (normalize spelling)
          (receive_from_test_agent peername loads s (ok (b ∷ bs)) m).1.database).0
        ≡ ok s
  unfolding Database.get_by_name
  Sent-initialize s b bs msg payload name id spelling address m loaded named identified has_data
        has_name at same =
      rw
        (receive_from_test_agent-initialize peername loads m s b bs msg loaded address payload name
          id named identified has_data has_name at)
        (rw same (rw (lookup-insert_self (normalize name) s m.database.name_to_address)))
