-- ===== src/Environment/Stuck.antt =====
-- test_manager/features/environment.py: where `after_all` gets stuck.
use text.Mathlib.TextEquality.{eq_iff}
use up_tck.Base.{
  sym, ◌∙◌, ℕ, String, ◌≡◌, ◌≢◌, refl, true, false, Option, none, some, List, [], ◌∷◌, arith, ◌⊎◌,
  inl, inr, ◌==◌, remove, string_eq, nat_eq, pair_eq, Option-cases, if◌then◌else◌,
}
use up_tck.Base
use up_tck.Base.Dict.{lookup, has_key-eq, has_key-ne, lookup-erase}
use up_tck.Base.Exec.{Exception, os_error, ok, raise}
use up_tck.Json.{Json}
use up_tck.Dispatcher.{World}
use up_tck.Manager.Database
use up_tck.Manager.Database.{Address}
use up_tck.Manager.Server.{Bytes, Manager, close_by_name, close_by_socket, unregister}
use up_tck.Manager.Server.Agents.{IsServing, without, without-IsServing}
use up_tck.Manager.Server.Closing.{Agrees, close_by_socket-closes}
use up_tck.Environment.{Run, reset, close_agents, close_all, after_all}

module _ (peername address_of : ℕ → Option Address) (agrees : Agrees peername address_of)
    (loads : Bytes → Option Json) where
  -- Closing an agent by its name raises OSError, or it returns: then the agent's peer was there, if
  -- the agent was, and the other agents are as they were.
  data Closes (name : String) (m : Manager) : Type 0 where
    stops :
        (m' : Manager)
        → close_by_name peername loads name m ≡ (raise os_error, m')
        → m'.exit_manager ≡ m.exit_manager
        → m'.server_open ≡ m.server_open
        → Closes name m
    goes_on :
        (m' : Manager)
        → close_by_name peername loads name m ≡ (ok tt, m')
        → IsServing address_of [] m'
        → m'.exit_manager ≡ m.exit_manager
        → m'.server_open ≡ m.server_open
        → ((other : String) (s : ℕ)
            → other ≢ name
            → lookup other m.database.name_to_address ≡ some s
            → lookup other m'.database.name_to_address ≡ some s)
        → ((s : ℕ) → lookup name m.database.name_to_address ≡ some s → peername s ≢ none)
        → Closes name m

  close_known-Closes :
      (name : String) (s : ℕ) (o : Option Address) (m : Manager)
      → IsServing address_of [] m
      → lookup name m.database.name_to_address ≡ some s
      → peername s ≡ o
      → Closes name m
  unfolding close_by_name close_by_socket unregister Database.contains Database.get_by_name
      Database.close_by_socket Base.contains
  close_known-Closes name s none m serving known gone =
      stops (record m { registered = remove s m.registered })
        (rw (has_key-eq name m.database.name_to_address known)
          (rw known (rw (serving.watched name s known refl) (rw gone refl))))
        refl refl
  close_known-Closes name s (some address) m serving known at =
      let (a, truly, leads) = serving.consistent.name_leads name s known in
      let leads' : lookup address m.database.address_to_name ≡ some name =
        cc (agrees s address at, truly, leads) in
      goes_on (without address_of [] m s address name)
        (rw (has_key-eq name m.database.name_to_address known) (
          rw known (
            close_by_socket-closes peername address_of agrees loads m serving.consistent s address
              name at leads' (serving.watched name s known refl))))
        (without-IsServing address_of [] m s address name serving (agrees s address at) leads') refl
        refl (λ other t ne h. ground (arith, lookup-erase other name m.database.name_to_address))
        (λ t h e. cc (known, h, e, at))

  close_by_name-Closes :
      (name : String) (o : Option ℕ) (m : Manager)
      → IsServing address_of [] m
      → lookup name m.database.name_to_address ≡ o
      → Closes name m
  unfolding close_by_name Database.contains
  close_by_name-Closes name none m serving known =
      goes_on m (rw (has_key-ne name m.database.name_to_address known) refl) serving refl refl
        (λ other s ne h. h) (λ s h e. cc (known, h))
  close_by_name-Closes name (some s) m serving known =
      close_known-Closes name s (peername s) m serving known refl

  closing : (name : String) (m : Manager) → IsServing address_of [] m → Closes name m
  closing name m serving = close_by_name-Closes name _ m serving refl

rust-ne-python : ◌≢◌ {A = String} "rust" "python"
rust-ne-python e = cc ((eq_iff "rust" "python").1 e)

rust-ne-java : ◌≢◌ {A = String} "rust" "java"
rust-ne-java e = cc ((eq_iff "rust" "java").1 e)

python-ne-java : ◌≢◌ {A = String} "python" "java"
python-ne-java e = cc ((eq_iff "python" "java").1 e)

-- The agents that `after_all` closes.
abbrev pub IsClosedAgent : String → Type 0
IsClosedAgent name = (name ≡ "rust") ⊎ ((name ≡ "python") ⊎ (name ≡ "java"))

module _ (peername address_of : ℕ → Option Address) (agrees : Agrees peername address_of)
    (loads : Bytes → Option Json) (w : World) (fails : ℕ → Option Exception) (s : Run) where
  -- `after_all` raised before it closed manager and dispatcher and before it told a process to
  -- terminate.
  abbrev IsStuck : Type 0
  IsStuck =
      let out = after_all peername loads w fails s in
      (out.0 ≡ raise os_error)
      × (out.1.context.tm.exit_manager ≡ s.context.tm.exit_manager)
      × (out.1.context.tm.server_open ≡ s.context.tm.server_open)
      × (out.1.context.dispatcher ≡ s.context.dispatcher)
      × (out.1.terminated ≡ s.terminated)

  java-IsStuck :
      (m1 m2 : Manager) (name : String) (socket : ℕ)
      → close_by_name peername loads "rust" s.context.tm ≡ (ok tt, m1)
      → close_by_name peername loads "python" m1 ≡ (ok tt, m2)
      → m2.exit_manager ≡ s.context.tm.exit_manager
      → m2.server_open ≡ s.context.tm.server_open
      → name ≡ "java"
      → lookup name m2.database.name_to_address ≡ some socket
      → peername socket ≡ none
      → Closes peername address_of agrees loads "java" m2
      → IsStuck
  unfolding after_all close_all reset close_agents
  java-IsStuck m1 m2 name socket e1 e2 exits server at known gone (stops m3 e3 x y) =
      rw e1 (rw e2 (rw e3 (refl, x ∙ exits, y ∙ server, refl, refl)))
  java-IsStuck m1 m2 name socket e1 e2 exits server at known gone
        (goes_on m3 e3 serving x y kept there) =
      absurd (there socket (rw at at known) gone)

  python-IsStuck :
      (m1 : Manager) (name : String) (socket : ℕ)
      → close_by_name peername loads "rust" s.context.tm ≡ (ok tt, m1)
      → m1.exit_manager ≡ s.context.tm.exit_manager
      → m1.server_open ≡ s.context.tm.server_open
      → (name ≡ "python") ⊎ (name ≡ "java")
      → lookup name m1.database.name_to_address ≡ some socket
      → peername socket ≡ none
      → Closes peername address_of agrees loads "python" m1
      → IsStuck
  unfolding after_all close_all reset close_agents
  python-IsStuck m1 name socket e1 exits server named known gone (stops m2 e2 x y) =
      rw e1 (rw e2 (refl, x ∙ exits, y ∙ server, refl, refl))
  python-IsStuck m1 name socket e1 exits server (inl at) known gone
        (goes_on m2 e2 serving x y kept there) =
      absurd (there socket (rw at at known) gone)
  python-IsStuck m1 name socket e1 exits server (inr at) known gone
        (goes_on m2 e2 serving x y kept there) =
      java-IsStuck m1 m2 name socket e1 e2 (x ∙ exits) (y ∙ server) at
        (kept name socket (λ e. python-ne-java (sym e ∙ at)) known) gone
        (closing peername address_of agrees loads "java" m2 serving)

  rust-IsStuck :
      (name : String) (socket : ℕ)
      → IsClosedAgent name
      → lookup name s.context.tm.database.name_to_address ≡ some socket
      → peername socket ≡ none
      → Closes peername address_of agrees loads "rust" s.context.tm
      → IsStuck
  unfolding after_all close_all reset close_agents
  rust-IsStuck name socket named known gone (stops m1 e1 x y) = rw e1 (refl, x, y, refl, refl)
  rust-IsStuck name socket (inl at) known gone (goes_on m1 e1 serving x y kept there) =
      absurd (there socket (rw at at known) gone)
  rust-IsStuck name socket (inr others) known gone (goes_on m1 e1 serving x y kept there) =
      python-IsStuck m1 name socket e1 x y others
        (kept name socket
          (λ e. elim others [
            | inl at ↦ rust-ne-python (sym e ∙ at)
            | inr at ↦ rust-ne-java (sym e ∙ at)
          ])
          known)
        gone (closing peername address_of agrees loads "python" m1 serving)

  -- Where the manager's maps agree and every agent's socket is watched: if one of the agents "rust",
  -- "python" and "java" is known and the peer of its socket is gone, `after_all` raises OSError;
  -- manager and dispatcher stay open, and no process is told to terminate.
  pub after_all-stuck :
      (name : String) (socket : ℕ)
      → IsClosedAgent name
      → IsServing address_of [] s.context.tm
      → lookup name s.context.tm.database.name_to_address ≡ some socket
      → peername socket ≡ none
      → let out = after_all peername loads w fails s in
        (out.0 ≡ raise os_error)
        × (out.1.context.tm.exit_manager ≡ s.context.tm.exit_manager)
        × (out.1.context.tm.server_open ≡ s.context.tm.server_open)
        × (out.1.context.dispatcher ≡ s.context.dispatcher)
        × (out.1.terminated ≡ s.terminated)
  after_all-stuck name socket named serving known gone =
      rust-IsStuck name socket named known gone
        (closing peername address_of agrees loads "rust" s.context.tm serving)
