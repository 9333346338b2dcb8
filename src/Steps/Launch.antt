-- ===== src/Steps/Launch.antt =====
-- test_manager/features/steps/tck_step_implementations.py: the step that starts a test agent, waits
-- until it has introduced itself and fills in the request of the table.
pub mod Returns
pub mod Faults
use up_tck.Base.{
  ℕ, String, Bool, true, false, Option, none, some, List, [], ◌∷◌, ◌++◌, ◌==◌, string_eq,
  if◌then◌else◌,
}
use up_tck.Base
use up_tck.Base.Text.{append}
use up_tck.Base.Substrings.{ends_with}
use up_tck.Base.Dict.{Dict, lookup, insert, has_key}
use up_tck.Base.Exec.{
  Exec, Exception, exception, key_error, type_error, value_error, unbound_local_error, Result, ok,
  raise, pure, throw, lift, gets, modify, ◌>>=◌, ◌>>=?◌, ◌>>◌,
}
use up_tck.Json.{Json, str, Fields, end, put}
use up_tck.Dispatcher
use up_tck.Dispatcher.{Dispatcher}
use up_tck.Manager.Database.{Address, found}
use up_tck.Manager.Server.{Bytes, Manager}
use up_tck.Manager.Server.Closing.{has_sdk_connection}
use up_tck.Manager.Server.Request.{Event, listen}
use up_tck.Steps.Cast.{Casted, json, bytes, float, cast}
use up_tck.Steps.Context.{Context, Library, on_tm, attribute, set_json_dict}
use up_tck.Steps.Properties.{TypedRow}

-- The machine that the scenario runs on. `userdata` is behave's, `abspath` the path that
-- `os.path.abspath` gives for a path from the repository's root, `bind` what opening the dispatcher's
-- server raises, `popen` the process that is started.
pub record Machine : Type 0 where
  pub platform : String
  pub userdata : String → Result String
  pub abspath : String → String
  pub bind : Option Exception
  pub popen : List String → Result ℕ

unfoldable pub is_unix : Machine → Bool
is_unix machine = Base.contains machine.platform ("linux" ∷ "linux2" ∷ "darwin" ∷ [])

unfoldable pub interpreter : Machine → String → List String
unfolding is_unix ends_with
interpreter machine path =
    if ends_with path ".jar"
    then "java" ∷ "-jar" ∷ []
    else if ends_with path ".py"
    then if machine.platform == "win32"
      then "python" ∷ []
      else if is_unix machine
      then "python3" ∷ []
      else []
    else []

-- `create_command`
unfoldable pub create_command : Machine → String → Exec Context (List String)
unfolding interpreter
create_command machine path c = elim c.transport [
  | none ↦ (raise key_error, c)
  | some transport ↦
      (ok (interpreter machine path ++ (machine.abspath path ∷ "--transport" ∷ transport ∷ [])), c)
]

-- `create_subprocess`, where a platform that it does not know raises a plain Exception.
unfoldable pub create_subprocess : Machine → List String → Result ℕ
unfolding is_unix
create_subprocess machine command =
    if machine.platform == "win32"
    then machine.popen command
    else if is_unix machine
    then machine.popen command
    else raise exception

-- `run_command`, which is set for three names only.
unfoldable pub agent_path : String → Result String
agent_path sdk_name =
    if sdk_name == "python"
    then ok "/test_agent/python/testagent.py"
    else if sdk_name == "java"
    then ok "/test_agent/java/target/tck-test-agent-java-jar-with-dependencies.jar"
    else if sdk_name == "rust"
    then ok "/test_agent/rust/target/debug/rust_tck"
    else raise unbound_local_error

unfoldable pub sdk_of : Machine → String → Result String
sdk_of machine sdk_name =
    if sdk_name == "uE1"
    then machine.userdata "uE1"
    else if sdk_name == "uE2"
    then machine.userdata "uE2"
    else ok sdk_name

-- The constructor of `Dispatcher` and the thread that it listens in.
unfoldable pub start_dispatcher : Machine → String → Exec Context Unit
unfolding insert
start_dispatcher machine transport c = elim machine.bind [
  | some e ↦ (raise e, c)
  | none ↦ (ok tt, record c { dispatcher = insert transport Dispatcher.init c.dispatcher })
]

unfoldable pub check_transport : Machine → String → Exec Context Unit
unfolding start_dispatcher
check_transport machine transport =
    if transport == "socket"
    then start_dispatcher machine transport
    else if transport == "zenoh"
    then pure tt
    else throw value_error

unfoldable pub set_transport : String → Exec Context Unit
set_transport transport c = (ok tt, record c { transport = some transport })

-- `if context.transport == {}`
unfoldable pub ensure_transport : Machine → Option String → Exec Context Unit
unfolding set_transport check_transport
ensure_transport machine (some transport) = pure tt
ensure_transport machine none = do
  transport ← lift (machine.userdata "transport")
  set_transport transport
  check_transport machine transport

-- The processes under a name, none where there is no such key.
unfoldable pub processes : Option (List ℕ) → List ℕ
processes none = []
processes (some ps) = ps

-- `context.ues.setdefault(sdk_name, []).append(process)`, with the test before it.
unfoldable pub add_process : String → ℕ → Exec Context Unit
unfolding lookup insert
add_process sdk_name process c =
    if Base.contains sdk_name ("python" ∷ "java" ∷ "rust" ∷ [])
    then (
      ok tt,
      record c { ues = insert sdk_name (processes (lookup sdk_name c.ues) ++ process ∷ []) c.ues },
    )
    else (raise value_error, c)

-- `if sdk_name not in context.ues`
unfoldable pub ensure_process : Machine → String → Bool → Exec Context Unit
unfolding agent_path create_command create_subprocess add_process
ensure_process machine sdk_name true = pure tt
ensure_process machine sdk_name false = do
  path ← lift (agent_path sdk_name)
  command ← create_command machine path
  process ← lift (create_subprocess machine command)
  add_process sdk_name process

-- The default of `context.rust_sender`, and what the Rust agent sets it to.
unfoldable pub mark_rust_sender : String → String → Exec Context Unit
mark_rust_sender sdk_name command c =
    let known = elim c.rust_sender as (λ x. Bool) [ none ↦ false | some b ↦ b ] in
    (
      ok tt,
      record c {
        rust_sender =
            some
              (if sdk_name == "rust" then (if command == "send" then true else known) else known);
      },
    )

unfoldable pub set_request : String → String → Exec Context Unit
set_request sdk_name command c = (ok tt, record c { ue = some sdk_name; action = some command })

-- How a dict of JSON keeps a value that `cast` gives. Bytes are not among them.
unfoldable pub jsonable : {Float : Type 0} → Library Float → Casted Float → Result Json
jsonable l (json v) = ok v
jsonable l (float x) = ok (l.float_json x)
jsonable l (bytes s) = raise type_error

-- `context.json_dict[field_name] = value`, for the rows of the table.
unfoldable pub fill_rows : {Float : Type 0} → Library Float → List TypedRow → Exec Context Unit
unfolding cast jsonable attribute set_json_dict
fill_rows l [] = pure tt
fill_rows l (row ∷ rows) = do
  v ← lift (
      cast l.member l.to_int l.to_float row.protobuf_field_values row.protobuf_field_type true
      >>=? jsonable l)
  d ← attribute (λ c. c.json_dict)
  set_json_dict (put row.protobuf_field_names v d)
  fill_rows l rows

unfoldable pub fill_table :
    {Float : Type 0} → Library Float → Option (List TypedRow) → Exec Context Unit
unfolding fill_rows
fill_table l none = pure tt
fill_table l (some rows) = fill_rows l rows

module _ (peername : ℕ → Option Address) (loads : Bytes → Option Json) where
  -- `while not context.tm.has_sdk_connection(sdk_name): continue`: true when the agent is there at
  -- last, false when it never is in this schedule.
  unfoldable pub wait_for_sdk : String → List (List Event) → Exec Manager Bool
  unfolding has_sdk_connection listen
  wait_for_sdk sdk_name [] = gets (has_sdk_connection sdk_name)
  wait_for_sdk sdk_name (events ∷ schedule) = do
    seen ← gets (has_sdk_connection sdk_name)
    if seen
        then pure true
        else (modify (listen peername loads events) >> wait_for_sdk sdk_name schedule)

  module _ {Float : Type 0} (l : Library Float) where
    -- What follows the wait.
    unfoldable pub fill_request :
        String → String → Option (List TypedRow) → Bool → Exec Context (Option Unit)
    unfolding mark_rust_sender set_request fill_table
    fill_request sdk_name command table false = pure none
    fill_request sdk_name command table true = do
      mark_rust_sender sdk_name command
      set_request sdk_name command
      fill_table l table
      pure (some tt)

    -- `create_sdk_data`; `none` where the agent has not introduced itself by the end of the
    -- schedule.
    unfoldable pub create_sdk_data :
        Machine
        → List (List Event)
        → String
        → String
        → Option (List TypedRow)
        → Exec Context (Option Unit)
    unfolding set_json_dict sdk_of ensure_transport ensure_process has_key wait_for_sdk fill_request
    create_sdk_data machine schedule name command table = do
      set_json_dict end
      sdk_name ← lift (sdk_of machine name)
      transport ← gets (λ c. c.transport)
      ensure_transport machine transport
      started ← gets (λ c. has_key sdk_name c.ues)
      ensure_process machine sdk_name started
      there ← on_tm (wait_for_sdk sdk_name schedule)
      fill_request sdk_name command table there
