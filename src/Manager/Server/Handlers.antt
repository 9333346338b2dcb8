-- ===== src/Manager/Server/Handlers.antt =====
-- test_manager/testmanager.py, class TestManager: what the callbacks do with a message.
use up_tck.Base.{
  ℕ, String, ◌≡◌, ◌≢◌, Option, some, ◌∷◌, string_eq, nat_eq, pair_eq, ne_false, eq_self,
}
use up_tck.Base.Text.{strip, is_quote}
use up_tck.Base.Dict.{insert}
use up_tck.Base.Exec.{ok}
use up_tck.Json.{Json, str, dict, Fields, get, put, get-put_ne, action-ne-test_id, data-ne-test_id}
use up_tck.Manager.Database.{Address}
use up_tck.Manager.Database.Consistency.{add-eq}
use up_tck.Manager.Queue
use up_tck.Manager.Queue.Fifo.{append-eq}
use up_tck.Manager.Server.{Bytes, Manager, normalize, strip_id, sdk_name, receive_from_test_agent}

module _ (peername : ℕ → Option Address) (loads : Bytes → Option Json) (m : Manager) (s b : ℕ)
    (bs : Bytes) (msg : Fields) (loaded : loads (b ∷ bs) ≡ some (dict msg)) where
  -- A response goes to the queue of its action, its test id without the quotes around it; nothing
  -- else changes.
  pub receive_from_test_agent-response :
      (action id : String)
      → get "action" msg ≡ some (str action)
      → action ≢ "initialize"
      → get "test_id" msg ≡ some (str id)
      → receive_from_test_agent peername loads s (ok (b ∷ bs)) m ≡ (
        ok tt,
        record m {
          queues = (Queue.append action (put "test_id" (str (strip is_quote id)) msg) m.queues).1;
        },
      )
  unfolding receive_from_test_agent
  receive_from_test_agent-response action id named other identified = rw loaded (
      rw (identified, strip_id)
        (rw (get-put_ne "action" "test_id" (str (strip is_quote id)) msg action-ne-test_id, named)
          (rw (ne_false action "initialize" other) (rw (append-eq action _ m.queues)))))

  -- An agent that introduces itself is entered under its name in small letters, without the spaces
  -- around it, and its message goes to no queue.
  pub receive_from_test_agent-initialize :
      (address : Address) (payload : Fields) (name id : String)
      → get "action" msg ≡ some (str "initialize")
      → get "test_id" msg ≡ some (str id)
      → get "data" msg ≡ some (dict payload)
      → get "SDK_name" payload ≡ some (str name)
      → peername s ≡ some address
      → receive_from_test_agent peername loads s (ok (b ∷ bs)) m ≡ (
        ok tt,
        record m {
          database = record m.database {
            address_to_name = insert address (normalize name) m.database.address_to_name;
            name_to_address = insert (normalize name) s m.database.name_to_address;
          };
        },
      )
  unfolding receive_from_test_agent
  receive_from_test_agent-initialize address payload name id named identified has_data has_name at =
      rw loaded (
        rw (identified, strip_id)
          (rw (get-put_ne "action" "test_id" (str (strip is_quote id)) msg action-ne-test_id, named)
            (rw (eq_self {A = String} "initialize") (
              rw
                (
                  get-put_ne "data" "test_id" (str (strip is_quote id)) msg data-ne-test_id,
                  has_data,
                )
                (rw (has_name, sdk_name)
                  (rw (add-eq peername m.database s address (normalize name) at)))))))
