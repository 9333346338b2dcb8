-- ===== src/Environment.antt =====
-- test_manager/features/environment.py: what behave runs before and after all scenarios.
pub mod Closing
pub mod Stuck
mod Tests
use up_tck.Base.{
  ℕ, String, Bool, true, false, Option, none, some, List, [], ◌∷◌, ◌++◌, ◌==◌, string_eq,
  if◌then◌else◌,
}
use up_tck.Base.Dict.{Dict, lookup, insert}
use up_tck.Base.Exec.{
  Exec, Exception, Result, ok, raise, pure, lift, gets, modify, try_except, ◌>>=◌, ◌>>◌,
}
use up_tck.Json.{Json, Fields}
use up_tck.Dispatcher
use up_tck.Dispatcher.{World, Dispatcher}
use up_tck.Dispatcher.Server
use up_tck.Manager.Database.{Address, found}
use up_tck.Manager.Server as ManagerServer
use up_tck.Manager.Server.{Bytes, Manager, close_by_name}
use up_tck.Manager.Server.Request
use up_tck.Steps.Context.{Context, on_tm}

-- The context, and the processes that were told to terminate.
pub record Run : Type 0 where
  pub context : Context
  pub terminated : List ℕ

abbrev pub on_context : {A : Type 0} → Exec Context A → Exec Run A
on_context f s = let (r, c) = f s.context in (r, record s { context = c })

-- `before_all`, where opening the manager's server may raise. The attributes that it does not set are
-- missing.
abbrev pub fresh_context : Context
fresh_context = record {
  json_dict = none;
  response_data = none;
  ue = none;
  action = none;
  rust_sender = none;
  transport = none;
  ues = [];
  dispatcher = [];
  tm = ManagerServer.init;
}

unfoldable pub before_all : Option Exception → Result Context
before_all none = ok fresh_context
before_all (some e) = raise e

-- `context.ue = None` and the other resets. None stands where an attribute is missing: nothing reads
-- them afterwards.
unfoldable pub reset : Exec Context Unit
reset c = (ok tt, record c { ue = none; action = none; json_dict = none; rust_sender = some false })

-- `context.dispatcher["socket"].close()`
unfoldable pub close_dispatcher : World → Exec Context Unit
unfolding lookup insert Dispatcher.Server.close
close_dispatcher w c = elim (found (lookup "socket" c.dispatcher)) [
  | raise e ↦ (raise e, c)
  | ok d ↦
      let (r, d') = Dispatcher.Server.close w d in
      (r, record c { dispatcher = insert "socket" d' c.dispatcher })
]

unfoldable pub is_socket : Option String → Bool
is_socket none = false
is_socket (some transport) = transport == "socket"

-- `process.terminate()`
unfoldable pub terminate : (ℕ → Option Exception) → ℕ → Exec Run Unit
terminate fails process s = elim (fails process) [
  | none ↦ (ok tt, record s { terminated = s.terminated ++ process ∷ [] })
  | some e ↦ (raise e, s)
]

unfoldable pub terminate_each : (ℕ → Option Exception) → List ℕ → Exec Run Unit
unfolding terminate
terminate_each fails [] = pure tt
terminate_each fails (process ∷ rest) = terminate fails process >> terminate_each fails rest

unfoldable pub terminate_all : (ℕ → Option Exception) → Dict String (List ℕ) → Exec Run Unit
unfolding terminate_each
terminate_all fails [] = pure tt
terminate_all fails ((ue, processes) ∷ ues) =
    terminate_each fails processes >> terminate_all fails ues

module _ (peername : ℕ → Option Address) (loads : Bytes → Option Json) (w : World)
    (fails : ℕ → Option Exception) where
  -- The three calls of `close_test_agent`, and `context.tm.close()`.
  unfoldable pub close_agents : Exec Context Unit
  unfolding close_by_name Request.close
  close_agents = do
    on_tm (close_by_name peername loads "rust")
    on_tm (close_by_name peername loads "python")
    on_tm (close_by_name peername loads "java")
    on_tm Request.close

  unfoldable pub close_transport : Bool → Exec Context Unit
  unfolding close_dispatcher
  close_transport true = close_dispatcher w
  close_transport false = pure tt

  unfoldable pub close_all : Exec Context Unit
  unfolding reset close_agents close_transport is_socket
  close_all = do
    reset
    close_agents
    socket ← gets (λ c. is_socket c.transport)
    close_transport socket

  -- `after_all`
  unfoldable pub after_all : Exec Run Unit
  unfolding close_all terminate_all
  after_all = do
    on_context close_all
    ues ← gets (λ s. s.context.ues)
    try_except (terminate_all fails ues) (pure tt)
