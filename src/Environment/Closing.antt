-- ===== src/Environment/Closing.antt =====
-- test_manager/features/environment.py: what `after_all` closes.
use mathlib.Core.List.{append-nil, append_assoc, Mem}
use up_tck.Base.{
  eq_self, ℕ, String, ◌≡◌, refl, ap, ◌∙◌, true, false, Option, none, some, List, [], ◌∷◌, ◌++◌,
  string_eq, nat_eq,
}
use up_tck.Base.Dict.{Dict, lookup, insert, lookup-insert_self}
use up_tck.Base.Exec.{Exception, ok}
use up_tck.Json.{Json}
use up_tck.Dispatcher.{World, Dispatcher}
use up_tck.Dispatcher.Invariant.{IsValid}
use up_tck.Dispatcher.Shutdown.{close-releases}
use up_tck.Dispatcher.Server as DispatcherServer
use up_tck.Manager.Database.{Address}
use up_tck.Manager.Server.{Bytes, Manager}
use up_tck.Manager.Server.Agents.{IsServing, IsGone, close_by_name-IsServing}
use up_tck.Manager.Server.Request
use up_tck.Steps.Context.{Context}
use up_tck.Environment.{
  Run, reset, close_dispatcher, terminate, terminate_each, terminate_all, close_agents, is_socket,
  close_all, after_all,
}

-- The processes of all test agents, in the order of the dict.
abbrev pub all_processes : Dict String (List ℕ) → List ℕ
all_processes [] = []
all_processes ((ue, processes) ∷ ues) = processes ++ all_processes ues

terminate_each-ok :
    (processes : List ℕ) (s : Run)
    → terminate_each (λ p. none) processes s
      ≡ (ok tt, record s { terminated = s.terminated ++ processes })
unfolding terminate_each terminate
terminate_each-ok [] s = rw append-nil refl
terminate_each-ok (p ∷ rest) s =
    terminate_each-ok rest (record s { terminated = s.terminated ++ p ∷ [] }) ∙ rw append_assoc refl

terminate_all-ok :
    (ues : Dict String (List ℕ)) (s : Run)
    → terminate_all (λ p. none) ues s
      ≡ (ok tt, record s { terminated = s.terminated ++ all_processes ues })
unfolding terminate_all
terminate_all-ok [] s = rw append-nil refl
terminate_all-ok ((ue, processes) ∷ ues) s = rw (terminate_each-ok processes s) (
    terminate_all-ok ues (record s { terminated = s.terminated ++ processes })
    ∙ rw append_assoc refl)

is_socket-chosen : (o : Option String) → o ≡ some "socket" → is_socket o ≡ true
unfolding is_socket
is_socket-chosen o e = rw e (eq_self {A = String} "socket")

module _ (peername : ℕ → Option Address) (loads : Bytes → Option Json) (w : World) where
  -- The agents of all three languages go, and the manager's server is closed.
  close_agents-ok :
      (fails : ℕ → Option Exception) (c : Context)
      → IsServing peername [] c.tm
      → (m : Manager) × (close_agents peername loads w fails c ≡ (ok tt, record c { tm = m }))
        × IsGone "rust" m
        × IsGone "python" m
        × IsGone "java" m
        × (m.exit_manager ≡ true)
        × (m.server_open ≡ false)
        × (m.selector_open ≡ false)
  unfolding close_agents Request.close
  close_agents-ok fails c serving =
      let (m1, e1, s1, rust, kept1) = close_by_name-IsServing peername loads "rust" c.tm serving in
      let (m2, e2, s2, python, kept2) = close_by_name-IsServing peername loads "python" m1 s1 in
      let (m3, e3, s3, java, kept3) = close_by_name-IsServing peername loads "java" m2 s2 in
      (
        record m3 {
          exit_manager = true;
          registered = [];
          selector_open = false;
          server_open = false;
        },
        rw e1 (rw e2 (rw e3 refl)),
        kept3 "rust" (kept2 "rust" rust),
        kept3 "python" python,
        java,
        refl,
        refl,
        refl,
      )

  close_dispatcher-ok :
      (c : Context) (d : Dispatcher)
      → lookup "socket" c.dispatcher ≡ some d
      → (DispatcherServer.close w d).0 ≡ ok tt
      → close_dispatcher w c ≡ (
        ok tt,
        record c { dispatcher = insert "socket" (DispatcherServer.close w d).1 c.dispatcher },
      )
  unfolding close_dispatcher
  close_dispatcher-ok c d known closes = rw (known, close_dispatcher) (rw closes refl)

  -- After the scenarios with the transport "socket", where the manager's maps agree, every agent's
  -- socket is watched and its peer there, the dispatcher's state is valid, its server registered and the
  -- peers of its clients there, and telling a process to terminate does not fail, `after_all` returns:
  -- no agent is connected under the names "rust", "python" and "java", the servers of manager and
  -- dispatcher are closed, the dispatcher has no client, and every process that was started has been
  -- told to terminate.
  pub after_all-closes :
      (s : Run) (d : Dispatcher)
      → IsServing peername [] s.context.tm
      → s.context.transport ≡ some "socket"
      → lookup "socket" s.context.dispatcher ≡ some d
      → IsValid d
      → d.server_registered ≡ true
      → ((client : ℕ) → Mem client d.connected_sockets → w.has_peer client ≡ true)
      → let out = after_all peername loads w (λ p. none) s in
        (out.0 ≡ ok tt)
        × IsGone "rust" out.1.context.tm
        × IsGone "python" out.1.context.tm
        × IsGone "java" out.1.context.tm
        × (out.1.context.tm.exit_manager ≡ true)
        × (out.1.context.tm.server_open ≡ false)
        × ((d' : Dispatcher) × (lookup "socket" out.1.context.dispatcher ≡ some d')
            × (d'.connected_sockets ≡ [])
            × (d'.server_open ≡ false))
        × (out.1.terminated ≡ s.terminated ++ all_processes s.context.ues)
  unfolding after_all close_all reset
  after_all-closes s d serving socket known valid open_server peers =
      let c0 : Context = record s.context {
        ue = none;
        action = none;
        json_dict = none;
        rust_sender = some false;
      } in
      let (m, e, rust, python, java, exits, server, selector) =
        close_agents-ok (λ p. none) c0 serving in
      let (order, perm, released) = close-releases w d valid open_server peers in
      let closes = ap (λ p. p.0) released in
      let d' = (DispatcherServer.close w d).1 in
      let c2 : Context = record c0 { tm = m; dispatcher = insert "socket" d' c0.dispatcher } in
      rw e (
        rw (is_socket-chosen s.context.transport socket) (
          rw (close_dispatcher-ok (record c0 { tm = m }) d known closes) (
            rw (terminate_all-ok s.context.ues (record s { context = c2 })) (
              refl,
              rust,
              python,
              java,
              exits,
              server,
              (
                d',
                lookup-insert_self "socket" d' s.context.dispatcher,
                ap (λ p. p.1.connected_sockets) released,
                ap (λ p. p.1.server_open) released,
              ),
              refl,
            ))))
