-- ===== src/Transport/Subscriptions.antt =====
-- up_client_socket/python/socket_transport.py: what registering and unregistering a listener do to the listeners of
-- every URI, for valid and for invalid URIs, and that they change nothing else that a client sees.
use up_tck.Base.{
  ℕ, ◌≡◌, refl, false, Option, none, some, List, [], ◌∷◌, ◌++◌, arith, contains, remove, nat_eq,
  bytes_eq, ◌==◌, if◌then◌else◌, Bool-cases, Option-cases, inl, inr,
}
use up_tck.Transport.{
  Bytes, UStatus, Uprotocol, Transport, Message, listeners_of, register_listener, unregister_at,
  unregister_listener,
}
use up_tck.Transport.Listeners.{
  listeners_of-keep, register_listener-valid, register_listener-lem, register_listener-invalid,
  unregister_listener-valid,
}

remove-absent : (l : ℕ) (ls : List ℕ) → contains l ls ≡ false → remove l ls ≡ ls
unfolding remove contains
remove-absent l [] h = ground arith
remove-absent l (x ∷ xs) h = ground (arith, remove-absent l xs)

-- The listeners of a URI where those of a valid topic's URI are replaced.
abbrev pub replaced : Option UStatus → Bytes → List ℕ → Bytes → List ℕ → List ℕ
replaced (some status) topic new uri old = old
replaced none topic new uri old = if uri == topic then new else old

-- Two transports with the same calls of listeners behind them and the same socket.
pub record IsSame {M : Type 0} (before after : Transport M) : Type 0 where
  pub delivered : after.delivered ≡ before.delivered
  pub socket_open : after.socket_open ≡ before.socket_open

module _ {Uri Uuid Payload : Type 0} (u : Uprotocol Uri Uuid Payload) (t : Transport (Message u))
    (topic : Uri) (listener : ℕ) where
  same : IsSame t t
  same = record { delivered = refl; socket_open = refl }

  pub register_listener-replaced :
      (uri : Bytes)
      → listeners_of uri (register_listener u topic listener t).1
        ≡ replaced
            (u.validate topic)
            (u.uri_bytes topic)
            (listeners_of (u.uri_bytes topic) t ++ listener ∷ [])
            uri
            (listeners_of uri t)
  register_listener-replaced uri = elim (Option-cases (u.validate topic)) [
    | inl valid ↦ rw valid ((register_listener-lem u t topic listener valid).1 uri)
    | inr (status, invalid) ↦
        rw ((register_listener-invalid u t topic listener status invalid).0) (rw invalid refl)
  ]

  pub register_listener-IsSame : IsSame t (register_listener u topic listener t).1
  register_listener-IsSame = elim (Option-cases (u.validate topic)) [
    | inl valid ↦
        rw (register_listener-valid u t topic listener valid)
          (record { delivered = refl; socket_open = refl })
    | inr (status, invalid) ↦
        rw ((register_listener-invalid u t topic listener status invalid).0) same
  ]

  unregister_at-replaced :
      (uri other : Bytes)
      → listeners_of other (unregister_at u uri listener t).1
        ≡ (if other == uri then remove listener (listeners_of uri t) else listeners_of other t)
  unfolding unregister_at
  unregister_at-replaced uri other = ground (
    arith,
    listeners_of-keep uri other (remove listener (listeners_of uri t)) t,
    remove-absent listener (listeners_of uri t),
  )

  unregister_at-IsSame : (uri : Bytes) → IsSame t (unregister_at u uri listener t).1
  unfolding unregister_at
  unregister_at-IsSame uri = elim (Bool-cases (contains listener (listeners_of uri t))) [
    | inl there ↦ rw there (record { delivered = refl; socket_open = refl })
    | inr absent ↦ rw absent same
  ]

  pub unregister_listener-replaced :
      (uri : Bytes)
      → listeners_of uri (unregister_listener u topic listener t).1
        ≡ replaced
            (u.validate topic)
            (u.uri_bytes topic)
            (remove listener (listeners_of (u.uri_bytes topic) t))
            uri
            (listeners_of uri t)
  unregister_listener-replaced uri = elim (Option-cases (u.validate topic)) [
    | inl valid ↦
        rw (unregister_listener-valid u t topic listener valid)
          (rw valid (unregister_at-replaced (u.uri_bytes topic) uri))
    | inr (status, invalid) ↦
        rw ((register_listener-invalid u t topic listener status invalid).1) (rw invalid refl)
  ]

  pub unregister_listener-IsSame : IsSame t (unregister_listener u topic listener t).1
  unregister_listener-IsSame = elim (Option-cases (u.validate topic)) [
    | inl valid ↦
        rw (unregister_listener-valid u t topic listener valid)
          (unregister_at-IsSame (u.uri_bytes topic))
    | inr (status, invalid) ↦
        rw ((register_listener-invalid u t topic listener status invalid).1) same
  ]
