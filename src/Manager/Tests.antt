-- ===== src/Manager/Tests.antt =====
-- test_manager/testmanager.py: runs on small inputs, and the theorems at them.
mod Sequence
use text.Mathlib.TextEquality.{eq_iff}
use up_tck.Base.{
  ℕ, String, ◌≡◌, ◌≢◌, refl, true, false, Option, none, some, List, [], ◌∷◌, ◌++◌, arith, string_eq,
  nat_eq, pair_eq, ℕ_discrete, if◌then◌else◌, eqb, All, map, remove,
}
use up_tck.Base
use up_tck.Base.Text.{strip, is_space, lower}
use up_tck.Base.Dict.{has_key, insert, lookup, erase}
use up_tck.Base.Exec.{ok, raise, key_error, index_error}
use up_tck.Json.{Json, null, str, dict, Fields, end, field, get, put}
use up_tck.Manager.Database
use up_tck.Manager.Database.{Address, Database, add, close_by_socket, get_by_name, get_by_address}
use up_tck.Manager.Database.Faults.{close-twice_added}
use up_tck.Manager.Queue
use up_tck.Manager.Queue.{Queues, popleft}
use up_tck.Manager.Queue.Fifo.{waiting}
use up_tck.Manager.Queue.Serve.{
  Operation, push, look, pop, did, saw, popped, replay, serve, replay-serve,
}
use up_tck.Manager.Server
use up_tck.Manager.Server.{
  Bytes, Manager, normalize, accept_client_conn, receive_from_test_agent, close_by_name,
}
use up_tck.Manager.Server.Handlers.{receive_from_test_agent-initialize}
use up_tck.Manager.Server.Agents.{IsServing}
use up_tck.Manager.Server.Reachable.{
  Reachable, start, accepts, reads, closes, lost_after, lost_by, Reachable-IsServing,
}
use up_tck.Manager.Server.Serving.{lost_at}
use up_tck.Manager.Server.Request.{receive, request_json, request}
use up_tck.Manager.Server.Request.Sends.{request-sends}
use up_tck.Manager.Server.Request.Ended.{request-undecodable}
use up_tck.Manager.Server.Request.{listen}
use up_tck.Manager.Server.Request.Waiting.{request-held_up}
use up_tck.Manager.Server.Request.Arrival.{Answers, quiet}
use up_tck.Manager.Server.Request.Sequence.{Exchange, ask_all, ask_all-returns}
use up_tck.Manager.Server.Request.Undisturbed.{IsUndisturbed}
use up_tck.Manager.Server.Request.Return.{request-Answers, request-returns}

-- Socket n is at port n.
abbrev pub peername : ℕ → Option Address
peername n = some ("127.0.0.1", n)

abbrev at : ℕ → Address
at n = ("127.0.0.1", n)

pub program : Unit {0}
unfolding add close_by_socket get_by_name get_by_address lookup insert erase string_eq pair_eq
    ℕ_discrete normalize strip is_space lower get put popleft waiting receive_from_test_agent
    request quiet Queue.append Queue.contains Base.contains remove
program = tt

abbrev one : Database
one = record {
  address_to_name = (at 1, "python") ∷ [];
  name_to_address = ("python", 1) ∷ [];
  closed = [];
}

close-twice_added_example :
    ((get_by_name "python"
        (close_by_socket peername 1
          (add peername 2 "python" (add peername 1 "python" Database.init).1).1).1).0
      ≡ raise key_error)
    × ((close_by_socket peername 2
          (close_by_socket peername 1
            (add peername 2 "python" (add peername 1 "python" Database.init).1).1).1).0
        ≡ raise key_error)
    × ((close_by_socket peername 2
          (close_by_socket peername 1
            (add peername 2 "python" (add peername 1 "python" Database.init).1).1).1).1.closed
        ≡ 1 ∷ [])
close-twice_added_example =
    close-twice_added peername 1 2 (at 1) (at 2) "python" Database.init refl refl
      (λ e. omega (arith, Base.ap (λ (a : Address). a.1) e))

-- A response as an agent sends it.
abbrev pub response : String → String → Fields
response action id = field "action" (str action) (field "test_id" (str id) end)

-- Two responses to one action around one to another, and a message without an action.
abbrev operations : List Operation
operations =
    push "send" (response "send" "a")
    ∷ push "onreceive" (response "onreceive" "")
    ∷ push "send" end
    ∷ look "send" "test_id" "a"
    ∷ pop "send"
    ∷ pop "onreceive"
    ∷ pop "send"
    ∷ pop "send"
    ∷ []

replay-serve_example :
    ((replay operations []).0
      ≡ did (ok tt)
        ∷ did (ok tt)
        ∷ did (ok tt)
        ∷ saw (ok true)
        ∷ popped (ok (response "send" "a"))
        ∷ popped (ok (response "onreceive" ""))
        ∷ popped (raise key_error)
        ∷ popped (raise index_error)
        ∷ [])
    × ((key : String)
        → waiting (replay operations []).1 key ≡ (serve operations (waiting [])).1 key)
unfolding program lookup waiting serve
replay-serve_example = replay-serve operations []

pub send-ne-initialize : ◌≢◌ {A = String} "send" "initialize"
send-ne-initialize e = cc ((eq_iff "send" "initialize").1 e)

-- Byte 1 stands for the response, byte 2 for an agent's introduction.
abbrev introduction : Fields
introduction =
    field "action" (str "initialize")
      (field "test_id" (str "") (field "data" (dict (field "SDK_name" (str " Python") end)) end))

abbrev loads : Bytes → Option Json
loads [] = none
loads (b ∷ bs) =
    if eqb b 1 then some (dict (response "send" "\"id\"")) else some (dict introduction)

abbrev pub manager : Manager
manager = record Server.init { database = one; registered = 1 ∷ [] }

receive_from_test_agent-initialize_example :
    receive_from_test_agent peername loads 2
      (ok (2 ∷ []))
      (record manager { database = Database.init })
    ≡ (
      ok tt,
      record manager {
        database = record {
          address_to_name = (at 2, "python") ∷ [];
          name_to_address = ("python", 2) ∷ [];
          closed = [];
        };
      },
    )
unfolding program
receive_from_test_agent-initialize_example =
    receive_from_test_agent-initialize peername loads (record manager { database = Database.init })
      2 2 [] introduction refl (at 2) (field "SDK_name" (str " Python") end) " Python" "" refl refl
      refl refl refl

-- A response to another test waits.
abbrev stale : Manager
stale = record manager { queues = ("send", response "send" "old" ∷ []) ∷ [] }

request-held_up_example :
    (request peername loads "Python" "send" null none "id" none
      (((receive 1 (ok (1 ∷ []))) ∷ []) ∷ [] ∷ [])
      stale).0
    ≡ ok none
unfolding program
request-held_up_example =
    request-held_up peername loads stale "Python" "send" "id" null none none (response "send" "old")
      [] (str "old") (((receive 1 (ok (1 ∷ []))) ∷ []) ∷ [] ∷ []) ((1, refl), refl) refl refl refl

request-returns_example :
    (request peername loads "Python" "send" null none "id" none
      ([] ∷ [] ∷ ((receive 1 (ok (1 ∷ []))) ∷ []) ∷ [])
      manager).0
    ≡ ok (some (response "send" "id"))
unfolding program
request-returns_example =
    request-returns peername loads 1 1 [] (response "send" "\"id\"") "Python" "send" "\"id\"" null
      none none 2 [] manager refl refl send-ne-initialize refl ((1, refl), refl) refl (refl, refl)

-- The same request, run.
request_run :
    (request peername loads "Python" "send" null none "id" none
      ([] ∷ [] ∷ ((receive 1 (ok (1 ∷ []))) ∷ []) ∷ [])
      manager).0
    ≡ ok (some (response "send" "id"))
unfolding program
request_run = refl

request-Answers_example : Answers "test_id" "id" (response "send" "id")
unfolding program
request-Answers_example =
    request-Answers peername loads "Python" "send" "id" null none none
      ([] ∷ [] ∷ ((receive 1 (ok (1 ∷ []))) ∷ []) ∷ []) manager (response "send" "id") request_run

request-sends_example :
    (request peername loads "Python" "send" null none "id" none
      ([] ∷ ((receive 1 (ok (1 ∷ []))) ∷ []) ∷ [])
      manager).1.sent
    ≡ (1, request_json "send" null none "id") ∷ []
unfolding program
request-sends_example =
    request-sends peername loads "Python" "send" "id" null none
      ([] ∷ ((receive 1 (ok (1 ∷ []))) ∷ []) ∷ []) manager

-- An agent connects and introduces itself.
abbrev introduced : Manager
introduced =
    (receive_from_test_agent peername loads 2 (ok (2 ∷ []))
      (accept_client_conn peername loads 2 Server.init).1).1

-- Then the testing thread closes the agent, whose peer is gone: the selector lets its socket go.
abbrev unreachable : ℕ → Option Address
unreachable s = none

introduced-Reachable : Reachable peername loads [] introduced
unfolding program accept_client_conn lost_after
introduced-Reachable =
    reads peername 2 (ok (2 ∷ [])) (λ s a h. h) (accepts peername 2 (λ s a h. h) start) refl
      λ bs msg e h name address i a. (refl, refl)

abbrev failed : Manager
failed = (Server.close_by_name unreachable loads "python" introduced).1

failed-Reachable : Reachable peername loads (2 ∷ []) failed
unfolding program accept_client_conn lost_by lost_at
failed-Reachable = closes unreachable "python" (λ s a h. cc h) introduced-Reachable

-- The agent is known, and its socket is not watched any more.
failed_run : (lookup "python" failed.database.name_to_address ≡ some 2) × (failed.registered ≡ [])
unfolding program accept_client_conn Server.close_by_name Database.contains has_key
failed_run = (refl, refl)

Reachable-IsServing_example : IsServing peername (2 ∷ []) failed
Reachable-IsServing_example = Reachable-IsServing peername loads failed-Reachable

-- Two messages in one chunk, which starts with 3, are no JSON text.
abbrev strict : Bytes → Option Json
strict [] = none
strict (b ∷ bs) = if eqb b 3 then none else some (dict (response "send" "\"id\""))

request-undecodable_example :
    (request peername strict "Python" "send" null none "id" none
      (((receive 1 (ok (1 ∷ []))) ∷ []) ∷ [])
      (listen peername strict (receive 1 (ok (3 ∷ [])) ∷ []) manager)).0
    ≡ ok none
unfolding program
request-undecodable_example =
    request-undecodable peername strict manager 1 3 [] [] "Python" "send" "id" null none
      (((receive 1 (ok (1 ∷ []))) ∷ []) ∷ []) (refl, refl) refl ((1, refl), refl) refl
