-- ===== src/Dispatcher/Flood.antt =====
-- dispatcher/dispatcher.py: where a message goes, and what a failing send does.
use mathlib.Core.List.{Mem, Perm, append_assoc, append-nil, mem-append_right, mem-cons_self}
use mathlib.Core.List.Perm
use up_tck.Base.{
  ℕ, ◌≡◌, ◌≢◌, refl, sym, ◌∙◌, true, false, none, some, List, [], ◌∷◌, ◌++◌, arith, map, length,
  contains, length-remove, contains-of_mem, contains-remove_ne, All, All-of_mem, nat_eq, ◌⊎◌, inl,
}
use up_tck.Base.Exec.{Exception, ok, raise, connection_aborted_error, os_error, runtime_error}
use up_tck.Dispatcher.{
  Bytes, World, Dispatcher, getpeername, close_connected_socket, check_size, send_or_close,
  flood_from, flood_to_sockets, recv, handle_data, receive_from_up_client,
}
use up_tck.Dispatcher.Invariant.{IsValid, dropped, dropped-IsValid}

-- The sends of one message, in order.
abbrev pub copies : Bytes → List ℕ → List (ℕ × Bytes)
copies msg order = map (λ s. (s, msg)) order

abbrev pub delivered : Dispatcher → Bytes → List ℕ → Dispatcher
delivered d msg order = record d { sent = d.sent ++ copies msg order }

-- Every one of these sockets takes a send.
abbrev pub Takes : World → List ℕ → Type 0
Takes w order = All (λ s. w.send_error s ≡ none) order

check_size-same : (d : Dispatcher) → check_size (length d.connected_sockets) d ≡ (ok tt, d)
unfolding check_size
check_size-same d = ground arith

check_size-ne :
    (used : ℕ) (d : Dispatcher)
    → length d.connected_sockets ≢ used
    → check_size used d ≡ (raise runtime_error, d)
unfolding check_size
check_size-ne used d h = ground arith

module _ (w : World) (msg : Bytes) where
  flood_from-sent :
      (s : ℕ) (rest : List ℕ) (d : Dispatcher)
      → w.send_error s ≡ none
      → flood_from w msg (length d.connected_sockets) (s ∷ rest) d
        ≡ flood_from w msg (length d.connected_sockets) rest (delivered d msg (s ∷ []))
  unfolding flood_from send_or_close
  flood_from-sent s rest d h = rw (check_size-same d) (rw h)

  flood_from-append :
      (order rest : List ℕ) (d : Dispatcher)
      → Takes w order
      → flood_from w msg (length d.connected_sockets) (order ++ rest) d
        ≡ flood_from w msg (length d.connected_sockets) rest (delivered d msg order)
  flood_from-append [] rest d h = rw append-nil
  flood_from-append (s ∷ order) rest d (h, hs) =
      flood_from-sent s (order ++ rest) d h
      ∙ flood_from-append order rest (delivered d msg (s ∷ [])) hs
      ∙ rw append_assoc

getpeername-present :
    (w : World) (s : ℕ) (d : Dispatcher)
    → contains s d.closed ≡ false
    → w.has_peer s ≡ true
    → getpeername w s d ≡ (ok tt, d)
unfolding getpeername
getpeername-present w s d h p = ground arith

pub getpeername-absent :
    (w : World) (s : ℕ) (d : Dispatcher)
    → (contains s d.closed ≡ true) ⊎ (w.has_peer s ≡ false)
    → getpeername w s d ≡ (raise os_error, d)
unfolding getpeername
getpeername-absent w s d h = ground arith

-- `_close_connected_socket` on a connected socket whose peer is there.
pub close_connected_socket-drops :
    (w : World) (s : ℕ) (d : Dispatcher)
    → IsValid d
    → contains s d.connected_sockets ≡ true
    → w.has_peer s ≡ true
    → close_connected_socket w s d ≡ (ok tt, dropped d s)
unfolding close_connected_socket
close_connected_socket-drops w s d v h p = ground (arith, v.watched, v.live s)

module _ (w : World) (msg : Bytes) (d : Dispatcher) where
  flood_to_sockets-split :
      (order rest : List ℕ)
      → w.iteration d.connected_sockets ≡ order ++ rest
      → Takes w order
      → flood_to_sockets w msg d
        ≡ flood_from w msg (length d.connected_sockets) rest (delivered d msg order)
  unfolding flood_to_sockets
  flood_to_sockets-split order rest e h = rw e (flood_from-append w msg order rest d h)

  flood_to_sockets-delivers :
      Takes w (w.iteration d.connected_sockets)
      → flood_to_sockets w msg d ≡ (ok tt, delivered d msg (w.iteration d.connected_sockets))
  unfolding flood_from
  flood_to_sockets-delivers h =
      flood_to_sockets-split (w.iteration d.connected_sockets) [] (sym (append-nil _)) h
      ∙ check_size-same (delivered d msg (w.iteration d.connected_sockets))

-- In a valid state, a message of a connected client goes once to each connected socket, the sender's
-- own too, and changes nothing else, if every connected socket takes a send.
pub receive_from_up_client-delivers :
    (w : World) (s b : ℕ) (bs : Bytes) (d : Dispatcher)
    → IsValid d
    → contains s d.connected_sockets ≡ true
    → ((t : ℕ) → Mem t d.connected_sockets → w.send_error t ≡ none)
    → (order : List ℕ) × Perm order d.connected_sockets
      × (receive_from_up_client w s (ok (b ∷ bs)) d ≡ (ok tt, delivered d (b ∷ bs) order))
unfolding receive_from_up_client recv handle_data
receive_from_up_client-delivers w s b bs d v h takes =
    let order = w.iteration d.connected_sockets in
    let perm = w.iteration-perm d.connected_sockets in
    (
      order,
      perm,
      rw (v.live s h) (
          rw (
            flood_to_sockets-delivers w (b ∷ bs) d
              (All-of_mem order (λ t m. takes t (Perm.subset perm t m))))),
    )

module _ (w : World) (msg : Bytes) (s : ℕ) (d : Dispatcher) where
  send_or_close-raises :
      (e : Exception)
      → e ≢ connection_aborted_error
      → send_or_close w msg s (some e) d ≡ (raise e, d)
  unfolding send_or_close
  send_or_close-raises connection_aborted_error ne = absurd (ne refl)
  send_or_close-raises _ ne = refl

  send_or_close-drops :
      IsValid d
      → contains s d.connected_sockets ≡ true
      → w.has_peer s ≡ true
      → send_or_close w msg s (some connection_aborted_error) d ≡ (ok tt, dropped d s)
  unfolding send_or_close
  send_or_close-drops v h p =
      ground (arith, getpeername-present w s d, v.live s, close_connected_socket-drops w s d v h p)

pub flood_from-changed :
    (w : World) (msg : Bytes) (used : ℕ) (rest : List ℕ) (d : Dispatcher)
    → length d.connected_sockets ≢ used
    → flood_from w msg used rest d ≡ (raise runtime_error, d)
unfolding flood_from
flood_from-changed w msg used [] d h = check_size-ne used d h
flood_from-changed w msg used (s ∷ rest) d h = rw (check_size-ne used d h)

module _ (w : World) (s b : ℕ) (bs : Bytes) (d : Dispatcher) (v : IsValid d)
    (h : contains s d.connected_sockets ≡ true) (order rest : List ℕ) (t : ℕ)
    (split : w.iteration d.connected_sockets ≡ order ++ t ∷ rest) (takes : Takes w order) where
  abbrev at_failure : Dispatcher
  at_failure = delivered d (b ∷ bs) order

  at_failure-IsValid : IsValid at_failure
  at_failure-IsValid = record { watched = v.watched; distinct = v.distinct; live = v.live }

  reached : contains t d.connected_sockets ≡ true
  reached = contains-of_mem t d.connected_sockets (
      Perm.subset (w.iteration-perm d.connected_sockets) t
        (rw split (mem-append_right order mem-cons_self)))

  flood-at_failure :
      flood_to_sockets w (b ∷ bs) d
      ≡ flood_from w (b ∷ bs) (length d.connected_sockets) (t ∷ rest) at_failure
  flood-at_failure = flood_to_sockets-split w (b ∷ bs) d order (t ∷ rest) split takes

  flood-aborted :
      w.send_error t ≡ some connection_aborted_error
      → w.has_peer t ≡ true
      → flood_to_sockets w (b ∷ bs) d ≡ (raise runtime_error, dropped at_failure t)
  unfolding flood_from
  flood-aborted e p =
      flood-at_failure
      ∙ rw (check_size-same at_failure) (
          rw (e, send_or_close-drops w (b ∷ bs) t at_failure at_failure-IsValid reached p)
            (flood_from-changed w (b ∷ bs) _ rest (dropped at_failure t)
              (λ same. omega (arith, length-remove t d.connected_sockets reached))))

  flood-failed :
      (e : Exception)
      → e ≢ connection_aborted_error
      → w.send_error t ≡ some e
      → flood_to_sockets w (b ∷ bs) d ≡ (raise e, at_failure)
  unfolding flood_from
  flood-failed e ne f =
      flood-at_failure
      ∙ rw (check_size-same at_failure) (rw (f, send_or_close-raises w (b ∷ bs) t at_failure e ne))

  -- One client that aborts costs the sender its connection too: the walk over the changed set
  -- raises, the sender is closed for it, and the clients behind the aborted one get nothing.
  pub receive_from_up_client-aborted :
      w.send_error t ≡ some connection_aborted_error
      → s ≢ t
      → w.has_peer s ≡ true
      → w.has_peer t ≡ true
      → receive_from_up_client w s (ok (b ∷ bs)) d ≡ (ok tt, dropped (dropped at_failure t) s)
  unfolding receive_from_up_client recv handle_data
  receive_from_up_client-aborted e ne ps pt = rw (v.live s h) (
      rw (flood-aborted e pt) (
        close_connected_socket-drops w s (dropped at_failure t)
          (dropped-IsValid at_failure t at_failure-IsValid)
          (contains-remove_ne s t d.connected_sockets ne ∙ h) ps))

  -- A send that fails in any other way closes the sender and leaves the failing client connected.
  receive_from_up_client-failed :
      (e : Exception)
      → e ≢ connection_aborted_error
      → w.send_error t ≡ some e
      → w.has_peer s ≡ true
      → receive_from_up_client w s (ok (b ∷ bs)) d ≡ (ok tt, dropped at_failure s)
  unfolding receive_from_up_client recv handle_data
  receive_from_up_client-failed e ne f ps = rw (v.live s h) (
      rw (flood-failed e ne f)
        (close_connected_socket-drops w s at_failure at_failure-IsValid h ps))

  -- A sender that aborts while its own message is flooded ends the event loop: its socket is closed
  -- already when the handler asks for the peer's name, and that exception leaves the callback.
  receive_from_up_client-own_abort :
      w.send_error t ≡ some connection_aborted_error
      → s ≡ t
      → w.has_peer t ≡ true
      → receive_from_up_client w s (ok (b ∷ bs)) d ≡ (raise os_error, dropped at_failure t)
  unfolding receive_from_up_client recv handle_data
  receive_from_up_client-own_abort e same pt = rw (v.live s h) (
      rw (flood-aborted e pt) (
        unfold close_connected_socket in
        rw (getpeername-absent w s (dropped at_failure t) (inl (unfold contains in ground arith)))))
