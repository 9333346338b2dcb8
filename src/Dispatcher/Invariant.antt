-- ===== src/Dispatcher/Invariant.antt =====
-- dispatcher/dispatcher.py: what every callback keeps true of the dispatcher.
use up_tck.Base.{
  ℕ, ◌≡◌, refl, true, false, Option, none, some, List, [], ◌∷◌, ◌++◌, arith, length, contains,
  remove, IsSetList, contains-append, contains-remove_ne, contains-remove_self, remove-IsSetList,
  append_one-IsSetList, nat_eq,
}
use up_tck.Base.Exec.{
  Preserves, bind-Preserves, try_except-Preserves, Exception, Result, connection_aborted_error,
  ◌>>=◌,
}
use up_tck.Dispatcher.{
  Bytes, World, Dispatcher, init, getpeername, close_connected_socket, accept_client_conn,
  check_size, send_or_close, flood_from, flood_to_sockets, recv, handle_data,
  receive_from_up_client,
}
use up_tck.Dispatcher.Server.{Event, accept, receive, callback}

-- The selector watches exactly the connected sockets; none is in the set twice or closed.
pub record IsValid (d : Dispatcher) : Type 0 where
  pub watched : d.registered ≡ d.connected_sockets
  pub distinct : IsSetList d.connected_sockets
  pub live : (s : ℕ) → contains s d.connected_sockets ≡ true → contains s d.closed ≡ false

pub init-IsValid : IsValid init
unfolding contains
init-IsValid = record { watched = refl; distinct = tt; live = λ s h. cc }

getpeername-IsValid : (w : World) (s : ℕ) → Preserves IsValid (getpeername w s)
unfolding getpeername
getpeername-IsValid w s d v = ground arith

-- The dispatcher without a socket that it has closed.
abbrev pub dropped : Dispatcher → ℕ → Dispatcher
dropped d s = record d {
  connected_sockets = remove s d.connected_sockets;
  registered = remove s d.registered;
  closed = s ∷ d.closed;
}

module _ (d : Dispatcher) (s : ℕ) (v : IsValid d) where
  dropped-live :
      (t : ℕ) → contains t (remove s d.connected_sockets) ≡ true → contains t (s ∷ d.closed) ≡ false
  unfolding contains
  dropped-live t h = ground (
    arith,
    v.live t,
    contains-remove_ne t s d.connected_sockets,
    contains-remove_self s d.connected_sockets v.distinct,
  )

  pub dropped-IsValid : IsValid (dropped d s)
  dropped-IsValid = record {
    watched = rw v.watched;
    distinct = remove-IsSetList s d.connected_sockets v.distinct;
    live = dropped-live;
  }

pub close_connected_socket-IsValid :
    (w : World) (s : ℕ) → Preserves IsValid (close_connected_socket w s)
unfolding close_connected_socket
close_connected_socket-IsValid w s d v = ground (arith, dropped-IsValid d s v, v.watched)

-- The socket is a new object: neither closed before nor connected already.
abbrev pub IsNew : ℕ → Dispatcher → Type 0
IsNew s d = (contains s d.connected_sockets ≡ false) × (contains s d.closed ≡ false)

module _ (s : ℕ) (d : Dispatcher) (v : IsValid d) (new : IsNew s d) where
  after_accept : Dispatcher
  after_accept = record d {
    connected_sockets = d.connected_sockets ++ s ∷ [];
    registered = d.registered ++ s ∷ [];
  }

  after_accept-live :
      (t : ℕ) → contains t (d.connected_sockets ++ s ∷ []) ≡ true → contains t d.closed ≡ false
  unfolding contains
  after_accept-live t h = ground (arith, v.live t, contains-append t d.connected_sockets (s ∷ []))

  after_accept-IsValid : IsValid after_accept
  unfolding after_accept
  after_accept-IsValid = record {
    watched = rw v.watched;
    distinct = append_one-IsSetList s d.connected_sockets new.0 v.distinct;
    live = after_accept-live;
  }

pub accept_client_conn-IsValid :
    (w : World) (s : ℕ) (d : Dispatcher)
    → IsValid d
    → IsNew s d
    → IsValid (accept_client_conn w s d).1
unfolding accept_client_conn after_accept
accept_client_conn-IsValid w s d v new = ground (arith, after_accept-IsValid s d v new, v.watched)

module _ (w : World) (msg : Bytes) where
  send_or_close-IsValid :
      (s : ℕ) (e : Option Exception) → Preserves IsValid (send_or_close w msg s e)
  unfolding send_or_close
  send_or_close-IsValid s none d v = record {
    watched = v.watched;
    distinct = v.distinct;
    live = v.live;
  }
  send_or_close-IsValid s (some connection_aborted_error) d v =
      bind-Preserves IsValid (getpeername w s) (λ _. close_connected_socket w s)
        (getpeername-IsValid w s) (λ _. close_connected_socket-IsValid w s) d v
  send_or_close-IsValid s (some _) d v = v

  check_size-IsValid : (used : ℕ) → Preserves IsValid (check_size used)
  unfolding check_size
  check_size-IsValid used d v = ground arith

  flood_from-IsValid : (used : ℕ) (order : List ℕ) → Preserves IsValid (flood_from w msg used order)
  unfolding flood_from
  flood_from-IsValid used [] = check_size-IsValid used
  flood_from-IsValid used (s ∷ rest) =
      bind-Preserves IsValid (check_size used) _ (check_size-IsValid used) (λ _.
        bind-Preserves IsValid (send_or_close w msg s (w.send_error s)) _
          (send_or_close-IsValid s (w.send_error s)) (λ _. flood_from-IsValid used rest))

handle_data-IsValid : (w : World) (s : ℕ) (msg : Bytes) → Preserves IsValid (handle_data w s msg)
unfolding handle_data flood_to_sockets
handle_data-IsValid w s [] d v = close_connected_socket-IsValid w s d v
handle_data-IsValid w s (b ∷ bs) d v =
    flood_from-IsValid w (b ∷ bs) (length d.connected_sockets) (w.iteration d.connected_sockets) d v

recv-IsValid : (s : ℕ) (received : Result Bytes) → Preserves IsValid (recv s received)
unfolding recv
recv-IsValid s received d v = ground arith

pub receive_from_up_client-IsValid :
    (w : World) (s : ℕ) (received : Result Bytes)
    → Preserves IsValid (receive_from_up_client w s received)
unfolding receive_from_up_client
receive_from_up_client-IsValid w s received =
    try_except-Preserves IsValid (recv s received >>= handle_data w s) (close_connected_socket w s)
      (bind-Preserves IsValid (recv s received) (handle_data w s) (recv-IsValid s received)
        (handle_data-IsValid w s))
      (close_connected_socket-IsValid w s)

-- What the operating system guarantees of an event: `accept` returns a new socket.
abbrev pub IsPossible : Event → Dispatcher → Type 0
IsPossible (accept s) d = IsNew s d
IsPossible (receive s received) d = Unit

-- The dispatcher after any number of callbacks, some of which may have raised.
pub data Reachable : Dispatcher → Type 0 where
  start : Reachable init
  after :
      {d : Dispatcher} (w : World) (event : Event)
      → Reachable d
      → IsPossible event d
      → Reachable (callback w event d).1

callback-IsValid :
    (w : World) (event : Event) (d : Dispatcher)
    → IsValid d
    → IsPossible event d
    → IsValid (callback w event d).1
unfolding callback
callback-IsValid w (accept s) d v p = accept_client_conn-IsValid w s d v p
callback-IsValid w (receive s received) d v p = receive_from_up_client-IsValid w s received d v

-- Whatever events arrive, and whichever sends and peer look-ups fail, the selector watches exactly
-- the connected sockets, none is connected twice and none of them is closed.
pub Reachable-IsValid : {d : Dispatcher} → Reachable d → IsValid d
Reachable-IsValid start = init-IsValid
Reachable-IsValid (after {d} w event r p) = callback-IsValid w event d (Reachable-IsValid r) p
