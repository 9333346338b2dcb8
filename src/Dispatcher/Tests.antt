-- ===== src/Dispatcher/Tests.antt =====
-- dispatcher/dispatcher.py: runs on small inputs, and the theorems at them.
use mathlib.Core.List.{Perm}
use mathlib.Core.List.Perm
use up_tck.Base.{
  ◌++◌, ℕ, ◌≡◌, refl, true, false, not, none, some, List, [], ◌∷◌, arith, ℕ_discrete, eqb, contains,
  remove, nat_eq, if◌then◌else◌,
}
use up_tck.Base.Exec.{Exception, ok, connection_aborted_error, os_error}
use up_tck.Dispatcher.{World, Dispatcher, init, receive_from_up_client, accept_client_conn}
use up_tck.Dispatcher.Server.{accept, receive, callback, close, listen_for_client_connections}
use up_tck.Dispatcher.Invariant.{IsValid, dropped, Reachable, start, after, Reachable-IsValid}
use up_tck.Dispatcher.Flood.{
  delivered, receive_from_up_client-delivers, receive_from_up_client-aborted,
}
use up_tck.Dispatcher.Bounds.{receive_from_up_client-bounded}
use up_tck.Dispatcher.Flood.{copies}
use up_tck.Dispatcher.Shutdown.{emptied, close-releases}

-- All is well.
abbrev calm : World
calm = record {
  send_error = λ s. none;
  has_peer = λ s. true;
  iteration = λ xs. xs;
  iteration-perm = λ xs. Perm.refl xs;
}

-- Sends to one socket fail.
abbrev failing : ℕ → Exception → World
failing t e = record calm { send_error = λ s. if eqb s t then some e else none }

-- One socket was reset by its peer.
abbrev reset : ℕ → World
reset t = record calm { has_peer = λ s. not (eqb s t) }

abbrev three : Dispatcher
three = record init { connected_sockets = 1 ∷ 2 ∷ 3 ∷ []; registered = 1 ∷ 2 ∷ 3 ∷ [] }

three-Reachable : Reachable three
unfolding callback accept_client_conn contains ℕ_discrete
three-Reachable =
    after calm (accept 3)
      (after calm (accept 2) (after calm (accept 1) start (refl, refl)) (refl, refl)) (refl, refl)

three-IsValid : IsValid three
three-IsValid = Reachable-IsValid three-Reachable

-- The third client sends, then goes away.
listen-three :
    (listen_for_client_connections
      (((calm, receive 3 (ok (7 ∷ []))) ∷ []) ∷ ((calm, receive 3 (ok [])) ∷ []) ∷ [])
      three).1
    ≡ record (dropped three 3) { sent = (1, 7 ∷ []) ∷ (2, 7 ∷ []) ∷ (3, 7 ∷ []) ∷ [] }
unfolding listen_for_client_connections contains remove ℕ_discrete
listen-three = refl

Reachable-IsValid_example : IsValid three
unfolding callback accept_client_conn contains ℕ_discrete
Reachable-IsValid_example = Reachable-IsValid (
    after calm (accept 3)
      (after calm (accept 2) (after calm (accept 1) start (refl, refl)) (refl, refl)) (refl, refl))

receive_from_up_client-delivers_example :
    (order : List ℕ) × Perm order (1 ∷ 2 ∷ 3 ∷ [])
    × (receive_from_up_client calm 3 (ok (7 ∷ [])) three ≡ (ok tt, delivered three (7 ∷ []) order))
unfolding contains ℕ_discrete
receive_from_up_client-delivers_example =
    receive_from_up_client-delivers calm 3 7 [] three three-IsValid refl (λ t m. refl)

-- Client 2 aborts while 3 sends: 1 has the message, 2 and 3 are gone.
receive_from_up_client-aborted_example :
    receive_from_up_client (failing 2 connection_aborted_error) 3 (ok (7 ∷ [])) three
    ≡ (ok tt, record (dropped (dropped three 2) 3) { sent = (1, 7 ∷ []) ∷ [] })
unfolding contains ℕ_discrete
receive_from_up_client-aborted_example =
    receive_from_up_client-aborted (failing 2 connection_aborted_error) 3 7 [] three three-IsValid
      refl (1 ∷ []) (3 ∷ []) 2 refl (refl, tt) refl (λ e. omega arith) refl refl

close-releases_example :
    (order : List ℕ) × Perm order (1 ∷ 2 ∷ 3 ∷ [])
    × (close calm three ≡ (
      ok tt,
      record (emptied three order) {
        server_registered = false;
        server_open = false;
        selector_open = false;
        dispatcher_exit = true;
      },
    ))
close-releases_example = close-releases calm three three-IsValid refl (λ s m. refl)

receive_from_up_client-bounded_example :
    (order rest : List ℕ) × Perm (order ++ rest) (1 ∷ 2 ∷ 3 ∷ [])
    × ((receive_from_up_client (failing 2 os_error) 3 (ok (7 ∷ [])) three).1.sent
        ≡ copies (7 ∷ []) order)
receive_from_up_client-bounded_example =
    receive_from_up_client-bounded (failing 2 os_error) 3 7 [] three
