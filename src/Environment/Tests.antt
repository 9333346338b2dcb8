-- ===== src/Environment/Tests.antt =====
-- test_manager/features/environment.py: the end of a test run, at a small one.
use mathlib.Core.List.Perm
use up_tck.Base.{
  inl, inr, arith, ℕ, String, ◌≡◌, refl, Bool, true, false, Option, none, some, List, [], ◌∷◌, ◌++◌,
  nat_eq, ℕ_discrete, string_eq, pair_eq, if◌then◌else◌, eqb, ◌==◌,
}
use up_tck.Base
use up_tck.Base.Dict.{lookup, insert}
use up_tck.Base.Exec.{ok, raise, os_error}
use up_tck.Json.{Json}
use up_tck.Dispatcher.{World, Dispatcher, init}
use up_tck.Dispatcher.Invariant.{start, Reachable-IsValid}
use up_tck.Manager.Database.{add, Address}
use up_tck.Manager.Database.Consistency.{IsConsistent, init-IsConsistent, add-IsConsistent}
use up_tck.Manager.Server as ManagerServer
use up_tck.Manager.Server.{Bytes, Manager}
use up_tck.Manager.Server.Agents.{IsServing, IsGone}
use up_tck.Environment.{Run, after_all}
use up_tck.Environment.Closing.{after_all-closes}
use up_tck.Environment.Stuck.{after_all-stuck}

abbrev peername : ℕ → Option Address
peername n = some ("127.0.0.1", n)

abbrev loads : Bytes → Option Json
loads bs = none

-- All is well.
abbrev calm : World
calm = record {
  send_error = λ s. none;
  has_peer = λ s. true;
  iteration = λ xs. xs;
  iteration-perm = λ xs. Perm.refl xs;
}

program : Unit {0}
unfolding add lookup insert string_eq pair_eq Base.contains
program = tt

-- The Python agent is connected.
abbrev manager : Manager
manager = record ManagerServer.init {
  database = record {
    address_to_name = (("127.0.0.1", 9), "python") ∷ [];
    name_to_address = ("python", 9) ∷ [];
    closed = [];
  };
  registered = 9 ∷ [];
}

manager-IsConsistent : IsConsistent peername manager.database
unfolding program
manager-IsConsistent =
    add-IsConsistent peername ManagerServer.init.database (init-IsConsistent peername) 9
      ("127.0.0.1", 9) "python" refl (refl, refl)

manager-watched :
    (name : String) (s : ℕ)
    → lookup name manager.database.name_to_address ≡ some s
    → Base.contains s [] ≡ false
    → Base.contains s manager.registered ≡ true
unfolding lookup Base.contains
manager-watched name s h kept = ground arith

manager-IsServing : IsServing peername [] manager
manager-IsServing = record { consistent = manager-IsConsistent; watched = manager-watched }

-- A run with one agent in two processes.
abbrev run : Run
run = record {
  context = record {
    json_dict = none;
    response_data = none;
    ue = some "python";
    action = none;
    rust_sender = none;
    transport = some "socket";
    ues = ("python", 40 ∷ 41 ∷ []) ∷ [];
    dispatcher = ("socket", init) ∷ [];
    tm = manager;
  };
  terminated = [];
}

after_all-closes_example :
    let out = after_all peername loads calm (λ p. none) run in
    (out.0 ≡ ok tt)
    × IsGone "rust" out.1.context.tm
    × IsGone "python" out.1.context.tm
    × IsGone "java" out.1.context.tm
    × (out.1.context.tm.exit_manager ≡ true)
    × (out.1.context.tm.server_open ≡ false)
    × ((d' : Dispatcher) × (lookup "socket" out.1.context.dispatcher ≡ some d')
        × (d'.connected_sockets ≡ [])
        × (d'.server_open ≡ false))
    × (out.1.terminated ≡ 40 ∷ 41 ∷ [])
unfolding program
after_all-closes_example =
    after_all-closes peername loads calm run init manager-IsServing refl refl
      (Reachable-IsValid start) refl (λ client m. refl)

-- The Python agent was reset by its peer.
after_all-stuck_example :
    let out = after_all (λ s. none) loads calm (λ p. none) run in
    (out.0 ≡ raise os_error)
    × (out.1.context.tm.exit_manager ≡ false)
    × (out.1.context.tm.server_open ≡ true)
    × (out.1.context.dispatcher ≡ run.context.dispatcher)
    × (out.1.terminated ≡ [])
unfolding program
after_all-stuck_example =
    after_all-stuck (λ s. none) peername (λ s a e. cc e) loads calm (λ p. none) run "python" 9
      (inr (inl refl)) manager-IsServing refl refl
