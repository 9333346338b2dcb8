-- ===== src/Steps/Launch/Returns.antt =====
-- test_manager/features/steps/tck_step_implementations.py: when `create_sdk_data` returns, and what it
-- leaves in the context.
use up_tck.Base.{
  ℕ, zero, suc, String, ◌≡◌, ◌≢◌, refl, sym, subst, ap, ◌∙◌, Bool, true, false, ◌||◌, Option, none,
  some, List, [], ◌∷◌, ◌++◌, arith, string_eq, ◌==◌, ◌⊎◌, inl, inr, Bool-cases, Option-cases,
  if◌then◌else◌,
}
use up_tck.Base
use up_tck.Base.Dict.{lookup, insert, has_key, has_key-eq, lookup-insert_self}
use up_tck.Base.Exec.{ok}
use up_tck.Json.{Json, str, dict, Fields, end, get}
use up_tck.Manager.Database
use up_tck.Manager.Database.{Address}
use up_tck.Manager.Server.{Bytes, Manager, normalize}
use up_tck.Manager.Server.Closing.{has_sdk_connection}
use up_tck.Manager.Server.Handlers.{receive_from_test_agent-initialize}
use up_tck.Manager.Server.Request.{Event, receive, callback, run_callbacks, listen}
use up_tck.Manager.Server.Request.Arrival.{quiet, IsListening, listen-nil, listen-runs}
use up_tck.Steps.Context.{Context, Library}
use up_tck.Steps.Launch.{
  Machine, is_unix, interpreter, agent_path, create_command, create_subprocess, sdk_of, processes,
  ensure_transport, add_process, ensure_process, wait_for_sdk, create_sdk_data,
}

module _ (peername : ℕ → Option Address) (loads : Bytes → Option Json) where
  wait_for_sdk-now :
      (sdk : String) (schedule : List (List Event)) (m : Manager)
      → has_sdk_connection sdk m ≡ true
      → wait_for_sdk peername loads sdk schedule m ≡ (ok true, m)
  unfolding wait_for_sdk
  wait_for_sdk-now sdk [] m h = rw h refl
  wait_for_sdk-now sdk (events ∷ schedule) m h = rw h refl

  wait_for_sdk-later :
      (sdk : String) (events : List Event) (schedule : List (List Event)) (m : Manager)
      → has_sdk_connection sdk m ≡ false
      → wait_for_sdk peername loads sdk (events ∷ schedule) m
        ≡ wait_for_sdk peername loads sdk schedule (listen peername loads events m)
  unfolding wait_for_sdk
  wait_for_sdk-later sdk events schedule m h = rw h refl

  -- While nothing arrives, an agent that is not there stays away.
  pub wait_for_sdk-quiet :
      (sdk : String) (n : ℕ) (m : Manager)
      → has_sdk_connection sdk m ≡ false
      → wait_for_sdk peername loads sdk (quiet n []) m ≡ (ok false, m)
  unfolding quiet wait_for_sdk
  wait_for_sdk-quiet sdk zero m missing = rw missing refl
  wait_for_sdk-quiet sdk (suc n) m missing =
      wait_for_sdk-later sdk [] (quiet n []) m missing
      ∙ rw (listen-nil peername loads m) (wait_for_sdk-quiet sdk n m missing)

  module _ (s b : ℕ) (bs : Bytes) (msg payload : Fields) (name id : String) (address : Address)
      (loaded : loads (b ∷ bs) ≡ some (dict msg))
      (named : get "action" msg ≡ some (str "initialize"))
      (identified : get "test_id" msg ≡ some (str id))
      (has_data : get "data" msg ≡ some (dict payload))
      (has_name : get "SDK_name" payload ≡ some (str name)) (at : peername s ≡ some address) where
    abbrev introduction : List Event
    introduction = receive s (ok (b ∷ bs)) ∷ []

    listen-introduction :
        (m : Manager)
        → IsListening m
        → has_sdk_connection (normalize name) (listen peername loads introduction m) ≡ true
    unfolding has_sdk_connection callback run_callbacks Database.contains
    listen-introduction m runs = rw (listen-runs peername loads introduction m runs) (
        rw
          (receive_from_test_agent-initialize peername loads m s b bs msg loaded address payload
            name id named identified has_data has_name at)
          (has_key-eq (normalize name) _
            (lookup-insert_self (normalize name) s m.database.name_to_address)))

    wait_for_sdk-introduction :
        (n : ℕ) (rest : List (List Event)) (m : Manager)
        → IsListening m
        → (wait_for_sdk peername loads (normalize name) (quiet n (introduction ∷ rest)) m).0
          ≡ ok true
    unfolding quiet
    wait_for_sdk-introduction zero rest m runs =
        elim (Bool-cases (has_sdk_connection (normalize name) m)) [
          | inl there ↦
              ap (λ p. p.0) (wait_for_sdk-now (normalize name) (introduction ∷ rest) m there)
          | inr missing ↦
              ap (λ p. p.0)
                (wait_for_sdk-later (normalize name) introduction rest m missing
                  ∙ wait_for_sdk-now (normalize name) rest _ (listen-introduction m runs))
        ]
    wait_for_sdk-introduction (suc n) rest m runs =
        elim (Bool-cases (has_sdk_connection (normalize name) m)) [
          | inl there ↦ ap (λ p. p.0) (wait_for_sdk-now (normalize name) _ m there)
          | inr missing ↦
              ap (λ p. p.0)
                (wait_for_sdk-later (normalize name) [] (quiet n (introduction ∷ rest)) m missing)
              ∙ rw (listen-nil peername loads m) (wait_for_sdk-introduction n rest m runs)
        ]

-- A machine whose platform the code knows and on which processes start.
pub record IsReady (machine : Machine) : Type 0 where
  pub known : (machine.platform == "win32" || is_unix machine) ≡ true
  pub starts : (command : List String) → (process : ℕ) × (machine.popen command ≡ ok process)

create_subprocess-ok :
    (machine : Machine) (command : List String) (process : ℕ)
    → IsReady machine
    → machine.popen command ≡ ok process
    → create_subprocess machine command ≡ ok process
unfolding create_subprocess
create_subprocess-ok machine command process ready popened = ground (arith, ready.known)

abbrev is_agent : String → Bool
is_agent sdk = Base.contains sdk ("python" ∷ "java" ∷ "rust" ∷ [])

agent_path-ok : (sdk path : String) → agent_path sdk ≡ ok path → is_agent sdk ≡ true
unfolding agent_path Base.contains
agent_path-ok sdk path e = ground arith

create_command-ok :
    (machine : Machine) (path transport : String) (c : Context)
    → c.transport ≡ some transport
    → create_command machine path c ≡ (
      ok (interpreter machine path ++ (machine.abspath path ∷ "--transport" ∷ transport ∷ [])),
      c,
    )
unfolding create_command
create_command-ok machine path transport c chosen = ground arith

-- The context with one process more.
abbrev pub with_process : String → ℕ → Context → Context
with_process sdk process c = record c {
  ues = insert sdk (processes (lookup sdk c.ues) ++ process ∷ []) c.ues;
}

-- The process is started with the transport of the context.
pub ensure_process-starts :
    (machine : Machine) (sdk path transport : String) (c : Context)
    → IsReady machine
    → agent_path sdk ≡ ok path
    → c.transport ≡ some transport
    → (process : ℕ) × (machine.popen
          (interpreter machine path ++ (machine.abspath path ∷ "--transport" ∷ transport ∷ []))
        ≡ ok process)
      × (ensure_process machine sdk false c ≡ (ok tt, with_process sdk process c))
unfolding ensure_process add_process
ensure_process-starts machine sdk path transport c ready known chosen =
    let command =
      interpreter machine path ++ (machine.abspath path ∷ "--transport" ∷ transport ∷ []) in
    let (process, popened) = ready.starts command in
    (
      process,
      popened,
      rw known (
          rw (create_command-ok machine path transport c chosen) (
            rw (create_subprocess-ok machine command process ready popened)
              (rw (agent_path-ok sdk path known, add_process) refl))),
    )

-- The process is there or is started, and the manager is left alone.
ensure_process-ok :
    (machine : Machine) (sdk path transport : String) (started : Bool) (c : Context)
    → IsReady machine
    → agent_path sdk ≡ ok path
    → c.transport ≡ some transport
    → (c' : Context) × (ensure_process machine sdk started c ≡ (ok tt, c'))
      × (c'.tm ≡ c.tm)
      × (c'.json_dict ≡ c.json_dict)
unfolding ensure_process
ensure_process-ok machine sdk path transport true c ready known chosen = (c, refl, refl, refl)
ensure_process-ok machine sdk path transport false c ready known chosen =
    let (process, popened, e) =
      ensure_process-starts machine sdk path transport c ready known chosen in
    (with_process sdk process c, e, refl, refl)

pub ensure_transport-chosen :
    (machine : Machine) (transport : String) (o : Option String) (c : Context)
    → o ≡ some transport
    → ensure_transport machine o c ≡ (ok tt, c)
unfolding ensure_transport
ensure_transport-chosen machine transport o c chosen = rw (chosen, ensure_transport) refl

module _ (peername : ℕ → Option Address) (loads : Bytes → Option Json) {Float : Type 0}
    (l : Library Float) where
  -- A test agent introduces itself to the manager after any number of polls: `create_sdk_data`, on a
  -- machine on which processes start and with a transport chosen before, returns and leaves the
  -- agent's name and the command in the context.
  pub create_sdk_data-returns :
      (s b : ℕ) (bs : Bytes) (msg payload : Fields) (name id : String) (address : Address)
      (machine : Machine) (path transport spelling command : String) (n : ℕ)
      (rest : List (List Event)) (c : Context)
      → loads (b ∷ bs) ≡ some (dict msg)
      → get "action" msg ≡ some (str "initialize")
      → get "test_id" msg ≡ some (str id)
      → get "data" msg ≡ some (dict payload)
      → get "SDK_name" payload ≡ some (str name)
      → peername s ≡ some address
      → IsReady machine
      → sdk_of machine spelling ≡ ok (normalize name)
      → agent_path (normalize name) ≡ ok path
      → c.transport ≡ some transport
      → IsListening c.tm
      → let out =
          create_sdk_data peername loads l machine
            (quiet n ((receive s (ok (b ∷ bs)) ∷ []) ∷ rest))
            spelling
            command
            none
            c in
        (out.0 ≡ ok (some tt))
        × (out.1.ue ≡ some (normalize name))
        × (out.1.action ≡ some command)
        × (out.1.json_dict ≡ some end)
  unfolding create_sdk_data
  create_sdk_data-returns s b bs msg payload name id address machine path transport spelling command
        n rest c loaded named identified has_data has_name at ready called known chosen runs =
      let emptied : Context = record c { json_dict = some end } in
      let started = has_key (normalize name) c.ues in
      let (c', e, same, kept) =
        ensure_process-ok machine (normalize name) path transport started emptied ready known
          chosen in
      let there =
        wait_for_sdk-introduction peername loads s b bs msg payload name id address loaded named
          identified has_data has_name at n rest c'.tm (subst IsListening (sym same) runs) in
      rw called (
        rw (ensure_transport-chosen machine transport c.transport emptied chosen)
          (rw e (rw there (refl, refl, refl, kept))))
