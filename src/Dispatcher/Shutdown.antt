-- ===== src/Dispatcher/Shutdown.antt =====
-- dispatcher/dispatcher.py: `close`, with the peers all there and with one gone.
use mathlib.Core.List
use mathlib.Core.List.{
  Mem, Perm, mem-cons_self, mem-cons_of_mem, reverse, reverse-cons, append_assoc,
  cons-perm_iff_perm-erase,
}
use mathlib.Core.List.Perm
use up_tck.Base.{
  ℕ, ℕ_discrete, ◌∙◌, ◌≡◌, refl, true, false, List, [], ◌∷◌, ◌++◌, arith, remove, contains-of_mem,
  nat_eq, inr,
}
use up_tck.Base.Exec.{ok, raise, os_error}
use up_tck.Dispatcher.{World, Dispatcher}
use up_tck.Dispatcher.Server.{close_all, close_server, close}
use up_tck.Dispatcher.Invariant.{IsValid, dropped, dropped-IsValid}
use up_tck.Dispatcher.Flood.{close_connected_socket-drops, getpeername-absent}

remove-erase : (a : ℕ) (xs : List ℕ) → List.erase ℕ_discrete xs a ≡ remove a xs
unfolding remove
remove-erase a [] = refl
remove-erase a (x ∷ xs) = ground (arith, remove-erase a xs)

remove-perm : (a : ℕ) (rest xs : List ℕ) → Perm (a ∷ rest) xs → Perm rest (remove a xs)
remove-perm a rest xs p = rw (← remove-erase a xs) ((cons-perm_iff_perm-erase ℕ_discrete).0 p).1

-- The dispatcher without the sockets of its whole set, closed in this order.
abbrev pub emptied : Dispatcher → List ℕ → Dispatcher
emptied d order = record d {
  connected_sockets = [];
  registered = [];
  closed = reverse order ++ d.closed;
}

module _ (w : World) where
  close_all-empties :
      (order : List ℕ) (d : Dispatcher)
      → IsValid d
      → Perm order d.connected_sockets
      → ((s : ℕ) → Mem s order → w.has_peer s ≡ true)
      → close_all w order d ≡ (ok tt, emptied d order)
  unfolding close_all
  close_all-empties [] d v p h = ground (arith, Perm.nil-eq p, v.watched)
  close_all-empties (s ∷ rest) d v p h =
      rw
        (close_connected_socket-drops w s d v
          (contains-of_mem s d.connected_sockets (Perm.subset p s mem-cons_self))
          (h s mem-cons_self))
        (close_all-empties rest (dropped d s) (dropped-IsValid d s v) (remove-perm s rest _ p)
            (λ t m. h t (mem-cons_of_mem s m))
          ∙ rw (reverse-cons s rest, append_assoc))

  -- In a valid state with the server registered and the peers all there, `close` closes each connected socket once, empties the set and the
  -- selector, closes the server and asks the event loop to end.
  pub close-releases :
      (d : Dispatcher)
      → IsValid d
      → d.server_registered ≡ true
      → ((s : ℕ) → Mem s d.connected_sockets → w.has_peer s ≡ true)
      → (order : List ℕ) × Perm order d.connected_sockets
        × (close w d ≡ (
          ok tt,
          record (emptied d order) {
            server_registered = false;
            server_open = false;
            selector_open = false;
            dispatcher_exit = true;
          },
        ))
  unfolding close close_server
  close-releases d v open_server h =
      let order = w.iteration d.connected_sockets in
      let perm = w.iteration-perm d.connected_sockets in
      (
        order,
        perm,
        rw
            (close_all-empties order (record d { dispatcher_exit = true })
              (record { watched = v.watched; distinct = v.distinct; live = v.live }) perm
              (λ s m. h s (Perm.subset perm s m)))
            (rw open_server),
      )

  -- If the peer of the first socket that is looked at is gone, `close` raises there: nothing is
  -- closed, and the server and the selector stay open.
  close-stuck :
      (d : Dispatcher) (s : ℕ) (rest : List ℕ)
      → w.iteration d.connected_sockets ≡ s ∷ rest
      → w.has_peer s ≡ false
      → close w d ≡ (raise os_error, record d { dispatcher_exit = true })
  unfolding close
  close-stuck d s rest e gone =
      rw e (rw (getpeername-absent w s (record d { dispatcher_exit = true }) (inr gone)))
