-- ===== src/Manager/Server/Request/Sequence.antt =====
-- test_manager/testmanager.py: the requests of a scenario one after the other, and the messages that agents
-- receive.
use mathlib.Core.List.{append-nil, append_assoc}
use up_tck.Base.{
  ℕ, String, ◌≡◌, ◌≢◌, refl, sym, subst, ap, ◌∙◌, Option, none, some, List, [], ◌∷◌, ◌++◌, map, All,
  string_eq, eq_self,
}
use up_tck.Base.Text.{strip, is_quote}
use up_tck.Base.Exec.{Exec, ok, pure, ◌>>=◌}
use up_tck.Json.{Json, str, dict, Fields, get, put, get-put_self}
use up_tck.Manager.Database
use up_tck.Manager.Database.{Address, Database}
use up_tck.Manager.Queue.Fifo.{waiting}
use up_tck.Manager.Server.{Bytes, Manager, normalize}
use up_tck.Manager.Server.Request.{Event, receive, request_json, send_socket_data, request}
use up_tck.Manager.Server.Request.Arrival.{quiet, IsListening}
use up_tck.Manager.Server.Request.Sends.{addressed, request-sends}
use up_tck.Manager.Server.Request.Undisturbed.{IsUndisturbed, await_response-IsUndisturbed}

-- A request and the response that arrives for it after `polls` polls, at the socket `from`. `id` is
-- the test id as the agent sends it back, `agent` the socket of the agent that is asked.
pub record Exchange : Type 0 where
  pub name : String
  pub action : String
  pub id : String
  pub payload : Json
  pub extra : Option Json
  pub agent : ℕ
  pub polls : ℕ
  pub from : ℕ
  pub first_byte : ℕ
  pub bytes : Bytes
  pub response : Fields
  pub later : List (List Event)

abbrev pub test_id : Exchange → String
test_id e = strip is_quote e.id

abbrev pub answer : Exchange → Fields
answer e = put "test_id" (str (test_id e)) e.response

abbrev pub message : Exchange → ℕ × Fields
message e = (e.agent, request_json e.action e.payload e.extra (test_id e))

module _ (peername : ℕ → Option Address) (loads : Bytes → Option Json) where
  -- The agent is known, and its response decodes to one with the request's action and test id.
  pub record IsAnswered (db : Database) (e : Exchange) : Type 0 where
    pub known : (Database.get_by_name (normalize e.name) db).0 ≡ ok e.agent
    pub loaded : loads (e.first_byte ∷ e.bytes) ≡ some (dict e.response)
    pub named : get "action" e.response ≡ some (str e.action)
    pub other : e.action ≢ "initialize"
    pub identified : get "test_id" e.response ≡ some (str e.id)

  unfoldable pub ask : Exchange → Exec Manager (Option Fields)
  unfolding request
  ask e =
      request peername loads e.name e.action e.payload e.extra (test_id e) none
        (quiet e.polls ((receive e.from (ok (e.first_byte ∷ e.bytes)) ∷ []) ∷ e.later))

  unfoldable pub ask_all : List Exchange → Exec Manager (List (Option Fields))
  unfolding ask
  ask_all [] = pure []
  ask_all (e ∷ es) = do r ← ask e; rs ← ask_all es; pure (r ∷ rs)

  ask-IsUndisturbed :
      (e : Exchange) (m : Manager)
      → IsAnswered m.database e
      → waiting m.queues e.action ≡ []
      → IsListening m
      → ((ask e m).0 ≡ ok (some (answer e))) × IsUndisturbed m (ask e m).1
  unfolding ask send_socket_data Database.get_by_name
  ask-IsUndisturbed e m a empty runs = rw a.known (
      let (returned, after) =
        await_response-IsUndisturbed peername loads e.from e.first_byte e.bytes e.response a.loaded
          e.action e.id a.named a.other a.identified "test_id" (test_id e) e.polls e.later
          (record m { sent = m.sent ++ message e ∷ [] })
          (
            str (test_id e),
            get-put_self "test_id" (str (test_id e)) e.response,
            eq_self (test_id e),
          )
          empty runs in
      (
        returned,
        record { listening = after.listening; agents = after.agents; queued = after.queued },
      ))

  ask-sends :
      (e : Exchange) (m : Manager)
      → IsAnswered m.database e
      → (ask e m).1.sent ≡ m.sent ++ message e ∷ []
  unfolding ask
  ask-sends e m a =
      request-sends peername loads e.name e.action (test_id e) e.payload e.extra _ m
      ∙ ap (λ r. m.sent ++ addressed r (request_json e.action e.payload e.extra (test_id e)))
          a.known

  -- The agents are the same, so that what holds of them for the later requests holds after a request.
  All-IsAnswered :
      (es : List Exchange) (before after : Database)
      → after ≡ before
      → All (IsAnswered before) es
      → All (IsAnswered after) es
  All-IsAnswered es before after same = subst (λ db. All (IsAnswered db) es) (sym same)

  -- Requests one after the other, each of whose responses arrives after any number of polls, when no
  -- response waits: every request returns its own response, in order, each sends its own message, and
  -- at the end the listener goes on, the agents are the same and no response waits that did not.
  pub ask_all-returns :
      (es : List Exchange) (m : Manager)
      → All (IsAnswered m.database) es
      → ((key : String) → waiting m.queues key ≡ [])
      → IsListening m
      → ((ask_all es m).0 ≡ ok (map (λ e. some (answer e)) es))
        × ((ask_all es m).1.sent ≡ m.sent ++ map message es)
        × IsUndisturbed m (ask_all es m).1
  unfolding ask_all
  ask_all-returns [] m answered empty runs =
      (refl, sym (append-nil _), record { listening = runs; agents = refl; queued = λ key. refl })
  ask_all-returns (e ∷ es) m (a, answered) empty runs =
      let (returned, after) = ask-IsUndisturbed e m a (empty e.action) runs in
      let (rest, sends, at_end) =
        ask_all-returns es (ask e m).1
          (All-IsAnswered es m.database (ask e m).1.database after.agents answered)
          (λ key. after.queued key ∙ empty key) after.listening in
      rw returned (
        rw rest (
          refl,
          sends ∙ rw (ask-sends e m a) (append_assoc m.sent (message e ∷ []) (map message es)),
          record {
            listening = at_end.listening;
            agents = at_end.agents ∙ after.agents;
            queued = λ key. at_end.queued key ∙ after.queued key;
          },
        ))
