-- ===== src/Manager/Server.antt =====
-- test_manager/testmanager.py, class TestManager: its callbacks, which the listener thread runs.
-- Outside the model stand the sockets and `json`: `peername` is what `getpeername` gives (`none`
-- where it raises), and `loads` is what decoding the bytes and `json.loads` give (`none` where one
-- of them raises). `sent` records what was sent, `listening` whether the listener thread still runs.
pub mod Handlers
pub mod Request
pub mod Closing
pub mod Agents
pub mod Serving
pub mod Reachable
use Prim.Native.String.{◌∷◌ as char_cons}
use up_tck.Base.{
  ℕ, String, Bool, true, false, not, ◌&&◌, Option, none, some, List, [], ◌∷◌, ◌++◌, if◌then◌else◌,
  nat_eq, string_eq, remove,
}
use up_tck.Base
use up_tck.Base.Text.{strip, is_space, is_quote, lower}
use up_tck.Base.Exec.{
  Exec, Exception, key_error, value_error, type_error, attribute_error, decode_error, Result, ok,
  raise, pure, throw, lift, gets, modify, ◌>>=◌, ◌>>=?◌, ◌>>◌,
}
use up_tck.Json.{Json, null, boolean, int, str, list, dict, Fields, get, put, is_str}
use up_tck.Manager.Database
use up_tck.Manager.Database.{Database, Address, found, peer}
use up_tck.Manager.Queue
use up_tck.Manager.Queue.{Queues}

abbrev pub Bytes : Type 0
Bytes = List ℕ

pub record Manager : Type 0 where
  pub exit_manager : Bool
  pub database : Database
  pub queues : Queues
  pub registered : List ℕ
  pub selector_open : Bool
  pub server_open : Bool
  pub sent : List (ℕ × Fields)
  pub listening : Bool

abbrev pub init : Manager
init = record {
  exit_manager = false;
  database = Database.init;
  queues = [];
  registered = [];
  selector_open = true;
  server_open = true;
  sent = [];
  listening = true;
}

-- A method of one of the two parts, on the whole object.
abbrev pub on_database : {A : Type 0} → Exec Database A → Exec Manager A
on_database f m = let (r, db) = f m.database in (r, record m { database = db })

abbrev pub on_queues : {A : Type 0} → Exec Queues A → Exec Manager A
on_queues f m = let (r, q) = f m.queues in (r, record m { queues = q })

-- `self.socket_event_receiver.register(s, …)` and `.unregister(s)`. A selector that was closed takes no
-- socket and has none.
unfoldable pub register : ℕ → Exec Manager Unit
register s m =
    if Base.contains s m.registered
    then (raise key_error, m)
    else if m.selector_open
    then (ok tt, record m { registered = m.registered ++ s ∷ [] })
    else (raise value_error, m)

unfoldable pub unregister : ℕ → Exec Manager Unit
unregister s m =
    if Base.contains s m.registered
    then (ok tt, record m { registered = remove s m.registered })
    else (raise key_error, m)

-- `test_agent_name.lower().strip()`
unfoldable pub normalize : String → String
normalize name = strip is_space (lower name)

-- `json_data["test_id"].strip('"')`, if there is a test id.
unfoldable pub strip_id : Fields → Option Json → Result Fields
strip_id msg none = ok msg
strip_id msg (some null) = ok msg
strip_id msg (some (str id)) = ok (put "test_id" (str (strip is_quote id)) msg)
strip_id msg (some _) = raise attribute_error

-- `response_json["data"]["SDK_name"].lower().strip()`
unfoldable pub sdk_name_of : Json → Result String
sdk_name_of (str name) = ok (normalize name)
sdk_name_of _ = raise attribute_error

unfoldable pub sdk_name : Json → Result String
unfolding sdk_name_of
sdk_name (dict payload) = found (get "SDK_name" payload) >>=? sdk_name_of
sdk_name _ = raise type_error

-- `append(action_type, response_json)`. An action that is no text but may be a key is put where no
-- caller looks for it.
unfoldable pub append_response : Json → Fields → Exec Manager Unit
append_response (str action) msg = on_queues (Queue.append action msg)
append_response (list items) msg = throw type_error
append_response (dict fields) msg = throw type_error
append_response _ msg = pure tt

module _ (peername : ℕ → Option Address) (loads : Bytes → Option Json) where
  -- `_accept_client_conn` for the socket that `accept` returns.
  unfoldable pub accept_client_conn : ℕ → Exec Manager Unit
  unfolding register
  accept_client_conn s = do address ← lift (peer (peername s)); register s

  -- `close_test_agent(test_agent_socket)`
  unfoldable pub close_by_socket : ℕ → Exec Manager Unit
  unfolding unregister
  close_by_socket s = do unregister s; on_database (Database.close_by_socket peername s)

  -- `close_test_agent(test_agent_name)`
  unfoldable pub close_by_name : String → Exec Manager Unit
  unfolding close_by_socket
  close_by_name name m =
      if Database.contains name m.database
      then (on_database (Database.get_by_name name) >>= close_by_socket) m
      else (ok tt, m)

  -- The branch of `_process_receive_message` for the action "initialize".
  unfoldable pub initialize : Fields → ℕ → Exec Manager Unit
  unfolding sdk_name
  initialize msg s = do
    payload ← lift (found (get "data" msg))
    name ← lift (sdk_name payload)
    on_database (Database.add peername s name)

  unfoldable pub process_action : Fields → ℕ → Json → Exec Manager Unit
  unfolding initialize append_response
  process_action msg s action =
      if is_str "initialize" action then initialize msg s else append_response action msg

  -- `_process_receive_message`
  unfoldable pub process_receive_message : Fields → ℕ → Exec Manager Unit
  unfolding process_action
  process_receive_message msg s = lift (found (get "action" msg)) >>= process_action msg s

  unfoldable pub receive_json : ℕ → Option Json → Exec Manager Unit
  unfolding strip_id process_receive_message
  receive_json s none = throw decode_error
  receive_json s (some (dict msg)) =
      lift (strip_id msg (get "test_id" msg)) >>= λ stripped. process_receive_message stripped s
  receive_json s (some _) = throw attribute_error

  unfoldable pub receive_bytes : ℕ → Bytes → Exec Manager Unit
  unfolding close_by_socket receive_json
  receive_bytes s [] = close_by_socket s
  receive_bytes s (b ∷ bs) = receive_json s (loads (b ∷ bs))

  -- `_receive_from_test_agent`, with what `recv` gives or raises.
  unfoldable pub receive_from_test_agent : ℕ → Result Bytes → Exec Manager Unit
  unfolding receive_bytes
  receive_from_test_agent s received = lift received >>= receive_bytes s
