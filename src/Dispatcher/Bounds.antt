-- ===== src/Dispatcher/Bounds.antt =====
-- dispatcher/dispatcher.py: what a callback sends at most, whatever the sockets answer.
use mathlib.Core.List.{Perm, append_assoc, append-nil}
use up_tck.Base.{
  ℕ, ◌≡◌, ◌≢◌, refl, sym, ap, subst, ◌∙◌, some, List, [], ◌∷◌, ◌++◌, arith, length, contains,
  length-remove, nat_eq, eqb, inl, inr, Bool-cases, Option-cases,
}
use up_tck.Base.Exec.{
  Exec, Exception, Result, ok, raise, connection_aborted_error, Preserves, try_except, ◌>>◌,
}
use up_tck.Dispatcher.{
  Bytes, World, Dispatcher, getpeername, close_connected_socket, check_size, send_or_close,
  flood_from, flood_to_sockets, recv, handle_data, receive_from_up_client,
}
use up_tck.Dispatcher.Flood.{copies, delivered, flood_from-changed}

-- Nothing has been sent but `xs`.
abbrev HasSent : List (ℕ × Bytes) → Dispatcher → Type 0
HasSent xs d = d.sent ≡ xs

module _ (w : World) (xs : List (ℕ × Bytes)) where
  close_connected_socket-HasSent : (s : ℕ) → Preserves (HasSent xs) (close_connected_socket w s)
  unfolding close_connected_socket
  close_connected_socket-HasSent s d h = ground (arith, h)

-- A close that returns has taken the socket out of the set.
close_connected_socket-shrinks :
    (w : World) (s : ℕ) (d : Dispatcher)
    → ((close_connected_socket w s d).0 ≡ ok tt)
    → length (close_connected_socket w s d).1.connected_sockets ≢ length d.connected_sockets
unfolding close_connected_socket
close_connected_socket-shrinks w s d h e = ground (arith, length-remove s d.connected_sockets)

send_or_close-HasSent :
    (w : World) (msg : Bytes) (xs : List (ℕ × Bytes)) (s : ℕ) (e : Exception)
    → Preserves (HasSent xs) (send_or_close w msg s (some e))
unfolding send_or_close getpeername
send_or_close-HasSent w msg xs s connection_aborted_error d h =
    ground (arith, h, close_connected_socket-HasSent w xs s d h)
send_or_close-HasSent w msg xs s _ d h = h

send_or_close-shrinks :
    (w : World) (msg : Bytes) (s : ℕ) (e : Exception) (d : Dispatcher)
    → (send_or_close w msg s (some e) d).0 ≡ ok tt
    → length (send_or_close w msg s (some e) d).1.connected_sockets ≢ length d.connected_sockets
unfolding send_or_close getpeername
send_or_close-shrinks w msg s connection_aborted_error d h =
    ground (arith, h, close_connected_socket-shrinks w s d)
send_or_close-shrinks w msg s _ d h = cc h

module _ (w : World) (msg : Bytes) where
  abbrev continue_with : Result {0} Unit → Exec Dispatcher Unit → Exec Dispatcher Unit
  continue_with r m = (λ d. (r, d)) >> m

  -- What follows a send that failed.
  flood_from-failed :
      (used : ℕ) (rest : List ℕ) (r : Result {0} Unit) (d : Dispatcher)
      → (r ≡ ok tt → length d.connected_sockets ≢ used)
      → (continue_with r (flood_from w msg used rest) d).1.sent ≡ d.sent
  flood_from-failed used rest (ok tt) d changed =
      ap (λ p. p.1.sent) (flood_from-changed w msg used rest d (changed refl))
  flood_from-failed used rest (raise e) d changed = refl

  -- The sockets of a walk that a message is sent to are the first ones.
  flood_from-Prefix :
      (used : ℕ) (order : List ℕ) (d : Dispatcher)
      → (p q : List ℕ) × (order ≡ p ++ q)
        × ((flood_from w msg used order d).1.sent ≡ d.sent ++ copies msg p)
  unfolding flood_from check_size send_or_close
  flood_from-Prefix used [] d = (
    [],
    [],
    refl,
    elim (Bool-cases (eqb (length d.connected_sockets) used)) [
      | inl e ↦ rw e (sym (append-nil d.sent))
      | inr e ↦ rw e (sym (append-nil d.sent))
    ],
  )
  flood_from-Prefix used (s ∷ rest) d = elim (Bool-cases (eqb (length d.connected_sockets) used)) [
    | inr other ↦ ([], s ∷ rest, refl, rw other (sym (append-nil d.sent)))
    | inl same ↦ elim (Option-cases (w.send_error s)) [
      | inl none_raised ↦
          let (p, q, split, sent) = flood_from-Prefix used rest (delivered d msg (s ∷ [])) in
          (
            s ∷ p,
            q,
            ap (λ xs. s ∷ xs) split,
            rw same (rw none_raised (sent ∙ append_assoc d.sent ((s, msg) ∷ []) (copies msg p))),
          )
      | inr (e, raised) ↦ (
        [],
        s ∷ rest,
        refl,
        rw same (
            rw raised (
              flood_from-failed used rest (send_or_close w msg s (some e) d).0
                (send_or_close w msg s (some e) d).1
                (λ h shrunk. send_or_close-shrinks w msg s e d h (shrunk ∙ (ground (arith, same))))
              ∙ send_or_close-HasSent w msg d.sent s e d refl
              ∙ sym (append-nil d.sent))),
      )
    ]
  ]

flood_to_sockets-Prefix :
    (w : World) (msg : Bytes) (d : Dispatcher)
    → (p q : List ℕ) × (w.iteration d.connected_sockets ≡ p ++ q)
      × ((flood_to_sockets w msg d).1.sent ≡ d.sent ++ copies msg p)
unfolding flood_to_sockets
flood_to_sockets-Prefix w msg d =
    flood_from-Prefix w msg (length d.connected_sockets) (w.iteration d.connected_sockets) d

-- The handler closes the sender and sends nothing.
rescued :
    (w : World) (s : ℕ) (r : Result {0} Unit) (d : Dispatcher)
    → (try_except (λ (d' : Dispatcher). (r, d')) (close_connected_socket w s) d).1.sent ≡ d.sent
rescued w s (ok tt) d = refl
rescued w s (raise e) d = close_connected_socket-HasSent w d.sent s d refl

-- Whatever the sockets answer: a callback that reads some bytes sends them to some of the connected
-- sockets, for each entry of the set once at most, and sends nothing else.
pub receive_from_up_client-bounded :
    (w : World) (s b : ℕ) (bs : Bytes) (d : Dispatcher)
    → (order rest : List ℕ) × Perm (order ++ rest) d.connected_sockets
      × ((receive_from_up_client w s (ok (b ∷ bs)) d).1.sent ≡ d.sent ++ copies (b ∷ bs) order)
unfolding receive_from_up_client recv handle_data
receive_from_up_client-bounded w s b bs d = elim (Bool-cases (contains s d.closed)) [
  | inl shut ↦ (
    [],
    w.iteration d.connected_sockets,
    w.iteration-perm d.connected_sockets,
    rw shut (close_connected_socket-HasSent w d.sent s d refl ∙ sym (append-nil d.sent)),
  )
  | inr alive ↦
      let (p, q, split, sent) = flood_to_sockets-Prefix w (b ∷ bs) d in
      (
        p,
        q,
        subst (λ xs. Perm xs d.connected_sockets) split (w.iteration-perm d.connected_sockets),
        rw alive (
            rescued w s (flood_to_sockets w (b ∷ bs) d).0 (flood_to_sockets w (b ∷ bs) d).1 ∙ sent),
      )
]
