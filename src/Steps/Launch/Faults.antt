-- ===== src/Steps/Launch/Faults.antt =====
-- test_manager/features/steps/tck_step_implementations.py: names and transports that `create_sdk_data`
-- does not know.
use up_tck.Base.{
  ap, ◌∙◌, ◌++◌, ℕ, String, ◌≡◌, ◌≢◌, refl, Bool, true, false, Option, none, some, List, [], ◌∷◌,
  arith, string_eq, ◌==◌, if◌then◌else◌, ne_false,
}
use up_tck.Base
use up_tck.Base.Dict.{has_key, has_key-ne, lookup, insert}
use up_tck.Base.Exec.{ok, raise, unbound_local_error, value_error}
use up_tck.Json.{Json, end}
use up_tck.Manager.Database.{Address}
use up_tck.Manager.Server.{Bytes}
use up_tck.Manager.Server.Closing.{has_sdk_connection}
use up_tck.Manager.Server.Request.{Event}
use up_tck.Manager.Server.Request.Arrival.{quiet}
use up_tck.Steps.Context.{Context, Library}
use up_tck.Steps.Properties.{TypedRow}
use up_tck.Steps.Launch.{
  Machine, interpreter, processes, agent_path, sdk_of, ensure_transport, set_transport,
  check_transport, ensure_process, fill_request, create_sdk_data,
}
use up_tck.Steps.Launch.Returns.{
  IsReady, with_process, ensure_process-starts, wait_for_sdk-quiet, ensure_transport-chosen,
}

agent_path-unknown :
    (sdk : String)
    → Base.contains sdk ("python" ∷ "java" ∷ "rust" ∷ []) ≡ false
    → agent_path sdk ≡ raise unbound_local_error
unfolding agent_path Base.contains
agent_path-unknown sdk h = ground arith

check_transport-unknown :
    (machine : Machine) (transport : String) (c : Context)
    → transport ≢ "socket"
    → transport ≢ "zenoh"
    → check_transport machine transport c ≡ (raise value_error, c)
unfolding check_transport
check_transport-unknown machine transport c s z =
    rw (ne_false transport "socket" s) (rw (ne_false transport "zenoh" z) refl)

ensure_transport-unset :
    (machine : Machine) (o : Option String) (c : Context)
    → o ≡ none
    → ensure_transport machine o c ≡ ensure_transport machine none c
ensure_transport-unset machine o c e = rw e refl

module _ (peername : ℕ → Option Address) (loads : Bytes → Option Json) {Float : Type 0}
    (l : Library Float) (machine : Machine) (schedule : List (List Event)) where
  -- For a name without a test agent `create_sdk_data` raises UnboundLocalError, whatever the machine:
  -- the ValueError "Invalid SDK name" behind the start of the process is never reached.
  create_sdk_data-unknown :
      (spelling sdk transport command : String) (table : Option (List TypedRow)) (c : Context)
      → sdk_of machine spelling ≡ ok sdk
      → Base.contains sdk ("python" ∷ "java" ∷ "rust" ∷ []) ≡ false
      → c.transport ≡ some transport
      → has_key sdk c.ues ≡ false
      → create_sdk_data peername loads l machine schedule spelling command table c
        ≡ (raise unbound_local_error, record c { json_dict = some end })
  unfolding create_sdk_data ensure_process
  create_sdk_data-unknown spelling sdk transport command table c called unknown chosen new =
      let emptied : Context = record c { json_dict = some end } in
      rw called (
        rw (ensure_transport-chosen machine transport c.transport emptied chosen)
          (rw new (rw (agent_path-unknown sdk unknown) refl)))

  create_sdk_data-refused :
      (spelling sdk transport command : String) (table : Option (List TypedRow)) (c : Context)
      → c.transport ≡ none
      → sdk_of machine spelling ≡ ok sdk
      → machine.userdata "transport" ≡ ok transport
      → transport ≢ "socket"
      → transport ≢ "zenoh"
      → create_sdk_data peername loads l machine schedule spelling command table c
        ≡ (raise value_error, record c { json_dict = some end; transport = some transport })
  unfolding create_sdk_data ensure_transport set_transport
  create_sdk_data-refused spelling sdk transport command table c unset called given s z =
      let chosen : Context = record c { json_dict = some end; transport = some transport } in
      rw called (
        rw (ensure_transport-unset machine c.transport _ unset)
          (rw given (rw (check_transport-unknown machine transport chosen s z) refl)))

  -- With a transport chosen and no agent in the manager, `create_sdk_data` starts the agent's process,
  -- and does not return while nothing arrives.
  create_sdk_data-waits :
      (spelling sdk path transport command : String) (table : Option (List TypedRow)) (n : ℕ)
      (c : Context)
      → c.transport ≡ some transport
      → sdk_of machine spelling ≡ ok sdk
      → agent_path sdk ≡ ok path
      → lookup sdk c.ues ≡ none
      → has_sdk_connection sdk c.tm ≡ false
      → IsReady machine
      → (process : ℕ) × (machine.popen
            (interpreter machine path ++ (machine.abspath path ∷ "--transport" ∷ transport ∷ []))
          ≡ ok process)
        × (create_sdk_data peername loads l machine (quiet n []) spelling command table c
            ≡ (ok none, with_process sdk process (record c { json_dict = some end })))
  unfolding create_sdk_data fill_request
  create_sdk_data-waits spelling sdk path transport command table n c chosen called known new
        missing ready =
      let emptied : Context = record c { json_dict = some end } in
      let (process, popened, e) =
        ensure_process-starts machine sdk path transport emptied ready known chosen in
      (
        process,
        popened,
        rw called (
            rw (ensure_transport-chosen machine transport c.transport emptied chosen) (
              rw (has_key-ne sdk c.ues new)
                (rw e (rw (wait_for_sdk-quiet peername loads sdk n c.tm missing) refl)))),
      )

  -- At the first `create_sdk_data`, no transport is chosen, the agent has no process and is not in the
  -- manager, and processes can be started. A transport that is neither "socket" nor "zenoh" makes it
  -- raise ValueError without a process, but stays in the context. The next call for the agent does not
  -- look at it again: it starts the agent's process with that transport and without a dispatcher, and,
  -- however often it polls while nothing arrives, does not return.
  pub create_sdk_data-invalid_transport :
      (spelling sdk path transport command : String) (table table' : Option (List TypedRow)) (n : ℕ)
      (c : Context)
      → c.transport ≡ none
      → sdk_of machine spelling ≡ ok sdk
      → agent_path sdk ≡ ok path
      → machine.userdata "transport" ≡ ok transport
      → transport ≢ "socket"
      → transport ≢ "zenoh"
      → lookup sdk c.ues ≡ none
      → has_sdk_connection sdk c.tm ≡ false
      → IsReady machine
      → let first = create_sdk_data peername loads l machine schedule spelling command table c in
        let second =
          create_sdk_data peername loads l machine (quiet n []) spelling command table' first.1 in
        (process : ℕ) × (first.0 ≡ raise value_error)
        × (first.1.transport ≡ some transport)
        × (first.1.ues ≡ c.ues)
        × (machine.popen
              (interpreter machine path ++ (machine.abspath path ∷ "--transport" ∷ transport ∷ []))
            ≡ ok process)
        × (second.0 ≡ ok none)
        × (second.1.ues ≡ insert sdk (process ∷ []) c.ues)
        × (second.1.dispatcher ≡ c.dispatcher)
  unfolding processes
  create_sdk_data-invalid_transport spelling sdk path transport command table table' n c unset
        called known given s z new missing ready =
      let chosen : Context = record c { json_dict = some end; transport = some transport } in
      let (process, popened, e) =
        create_sdk_data-waits spelling sdk path transport command table' n chosen refl called known
          new missing ready in
      rw (create_sdk_data-refused spelling sdk transport command table c unset called given s z) (
        process,
        refl,
        refl,
        refl,
        popened,
        ap (λ p. p.0) e,
        ap (λ p. p.1.ues) e ∙ rw new refl,
        ap (λ p. p.1.dispatcher) e,
      )
