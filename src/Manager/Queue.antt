-- ===== src/Manager/Queue.antt =====
-- test_manager/testmanager.py, class DictWithQueue: a queue of received messages for each action.
-- The lock is taken for each append and each popleft, so each method is one step.
pub mod Fifo
pub mod Serve
use up_tck.Base.{ℕ, String, Bool, true, false, Option, none, some, List, [], ◌∷◌, ◌++◌, string_eq}
use up_tck.Base.Dict.{Dict, lookup, insert}
use up_tck.Base.Exec.{Exec, key_error, index_error, Result, ok, raise, pure, lift, ◌>>=◌, ◌>>◌}
use up_tck.Json.{Json, Fields, get, is_str}

abbrev pub Queues : Type 0
Queues = Dict String (List Fields)

-- `self.key_to_queue[key]` on the `defaultdict(deque)`, which a read extends.
unfoldable pub queue_at : String → Exec Queues (List Fields)
queue_at key q = elim (lookup key q) [
  | some queue ↦ (ok queue, q)
  | none ↦ (ok [], insert key [] q)
]

unfoldable pub append : String → Fields → Exec Queues Unit
unfolding queue_at
append key msg = do queue ← queue_at key; λ q. (ok tt, insert key (queue ++ msg ∷ []) q)

-- `response_json[inner_key] == inner_expected_value`
unfoldable pub head_has : String → String → List Fields → Result Bool
head_has inner_key expected [] = ok false
head_has inner_key expected (msg ∷ queue) = elim (get inner_key msg) [
  | none ↦ raise key_error
  | some value ↦ ok (is_str expected value)
]

unfoldable pub contains : String → String → String → Exec Queues Bool
unfolding queue_at head_has
contains key inner_key expected = do queue ← queue_at key; lift (head_has inner_key expected queue)

-- The log line reads the message's action when it is off the queue already.
unfoldable pub pop_head : String → List Fields → Exec Queues Fields
pop_head key [] q = (raise index_error, q)
pop_head key (msg ∷ queue) q = elim (get "action" msg) [
  | none ↦ (raise key_error, insert key queue q)
  | some action ↦ (ok msg, insert key queue q)
]

unfoldable pub popleft : String → Exec Queues Fields
unfolding queue_at pop_head
popleft key = do queue ← queue_at key; pop_head key queue
