-- ===== src/Transport/Listeners.antt =====
-- up_client_socket/python/socket_transport.py: registering and unregistering listeners.
use up_tck.Base.{
  ℕ, ◌≡◌, ◌≢◌, refl, ◌∙◌, true, false, none, some, List, [], ◌∷◌, ◌++◌, arith, contains, remove,
  nat_eq, bytes_eq, ◌==◌, if◌then◌else◌, Bool-cases, Option-cases, inl, inr,
}
use up_tck.Base.Dict.{lookup, insert, lookup-insert, lookup-erase}
use up_tck.Base.Exec.{ok}
use up_tck.Transport.{
  Bytes, UStatus, Uprotocol, Transport, Message, ok_status, not_found_status, listeners_of,
  keep_listeners, register_listener, unregister_at, unregister_listener,
}

listeners_of-insert :
    {M : Type 0} (uri other : Bytes) (ls : List ℕ) (t : Transport M)
    → listeners_of other (record t { uri_to_listener = insert uri ls t.uri_to_listener })
      ≡ (if other == uri then ls else listeners_of other t)
unfolding listeners_of
listeners_of-insert uri other ls t = ground (arith, lookup-insert other uri ls t.uri_to_listener)

pub listeners_of-keep :
    {M : Type 0} (uri other : Bytes) (ls : List ℕ) (t : Transport M)
    → listeners_of other (record t { uri_to_listener = keep_listeners uri ls t.uri_to_listener })
      ≡ (if other == uri then ls else listeners_of other t)
unfolding listeners_of keep_listeners
listeners_of-keep uri other [] t = ground (arith, lookup-erase other uri t.uri_to_listener)
listeners_of-keep uri other (l ∷ ls) t =
    ground (arith, lookup-insert other uri (l ∷ ls) t.uri_to_listener)

-- The first occurrence goes: behind a list without it, it is the one that was put there.
remove-append : (l : ℕ) (ls : List ℕ) → contains l ls ≡ false → remove l (ls ++ l ∷ []) ≡ ls
unfolding remove contains
remove-append l [] h = ground arith
remove-append l (x ∷ xs) h = ground (arith, remove-append l xs)

contains_last : (l : ℕ) (ls : List ℕ) → contains l (ls ++ l ∷ []) ≡ true
unfolding contains
contains_last l [] = ground arith
contains_last l (x ∷ xs) = ground (arith, contains_last l xs)

module _ {Uri Uuid Payload : Type 0} (u : Uprotocol Uri Uuid Payload) (t : Transport (Message u))
    (topic : Uri) (listener : ℕ) where
  pub register_listener-valid :
      u.validate topic ≡ none
      → register_listener u topic listener t ≡ (
        ok ok_status,
        record t {
          uri_to_listener =
              insert
                (u.uri_bytes topic)
                (listeners_of (u.uri_bytes topic) t ++ listener ∷ [])
                t.uri_to_listener;
        },
      )
  unfolding register_listener
  register_listener-valid valid = rw (valid, register_listener)

  pub unregister_listener-valid :
      u.validate topic ≡ none
      → unregister_listener u topic listener t ≡ unregister_at u (u.uri_bytes topic) listener t
  unfolding unregister_listener
  unregister_listener-valid valid = rw (valid, unregister_listener)

  unregister_at-present :
      (uri : Bytes)
      → contains listener (listeners_of uri t) ≡ true
      → unregister_at u uri listener t ≡ (
        ok ok_status,
        record t {
          uri_to_listener =
              keep_listeners uri (remove listener (listeners_of uri t)) t.uri_to_listener;
        },
      )
  unfolding unregister_at
  unregister_at-present uri h = rw h

  unregister_at-absent :
      (uri : Bytes)
      → contains listener (listeners_of uri t) ≡ false
      → unregister_at u uri listener t ≡ (ok not_found_status, t)
  unfolding unregister_at
  unregister_at-absent uri h = rw h

  -- A valid topic: the listener comes behind those of the topic's bytes, and those of other bytes
  -- stay as they were.
  pub register_listener-lem :
      u.validate topic ≡ none
      → ((register_listener u topic listener t).0 ≡ ok ok_status)
        × ((uri : Bytes)
            → listeners_of uri (register_listener u topic listener t).1 ≡ (
                if uri == u.uri_bytes topic
                then listeners_of (u.uri_bytes topic) t ++ listener ∷ []
                else listeners_of uri t))
  register_listener-lem valid =
      rw (register_listener-valid valid)
        (refl, λ uri. listeners_of-insert (u.uri_bytes topic) uri _ t)

  -- An invalid topic: both calls give the validator's status and change nothing.
  pub register_listener-invalid :
      (status : UStatus)
      → u.validate topic ≡ some status
      → (register_listener u topic listener t ≡ (ok status, t))
        × (unregister_listener u topic listener t ≡ (ok status, t))
  unfolding register_listener unregister_listener
  register_listener-invalid status invalid =
      (rw (invalid, register_listener), rw (invalid, unregister_listener))

  -- A listener that is not registered for the topic is not found, and nothing changes.
  pub unregister_listener-absent :
      u.validate topic ≡ none
      → contains listener (listeners_of (u.uri_bytes topic) t) ≡ false
      → unregister_listener u topic listener t ≡ (ok not_found_status, t)
  unregister_listener-absent valid absent =
      unregister_listener-valid valid ∙ unregister_at-absent (u.uri_bytes topic) absent

module _ {Uri Uuid Payload : Type 0} (u : Uprotocol Uri Uuid Payload) (t : Transport (Message u))
    (topic : Uri) (listener : ℕ) where
  abbrev registered : Transport (Message u)
  registered = record t {
    uri_to_listener =
        insert (u.uri_bytes topic) (listeners_of (u.uri_bytes topic) t ++ listener ∷ [])
          t.uri_to_listener;
  }

  listeners_of-registered :
      listeners_of (u.uri_bytes topic) registered
      ≡ listeners_of (u.uri_bytes topic) t ++ listener ∷ []
  listeners_of-registered = ground (
    arith,
    listeners_of-insert (u.uri_bytes topic) (u.uri_bytes topic)
        (listeners_of (u.uri_bytes topic) t ++ listener ∷ []) t,
  )

  unregister-registered :
      u.validate topic ≡ none
      → contains listener (listeners_of (u.uri_bytes topic) t) ≡ false
      → unregister_listener u topic listener registered ≡ (
        ok ok_status,
        record registered {
          uri_to_listener =
              keep_listeners
                (u.uri_bytes topic)
                (listeners_of (u.uri_bytes topic) t)
                registered.uri_to_listener;
        },
      )
  unregister-registered valid absent =
      unregister_listener-valid u registered topic listener valid
      ∙ unregister_at-present u registered topic listener (u.uri_bytes topic)
          (rw listeners_of-registered (contains_last listener _))
      ∙ rw (listeners_of-registered, remove-append listener _ absent)

  restored :
      (uri : Bytes)
      → listeners_of uri (record registered {
        uri_to_listener =
            keep_listeners
              (u.uri_bytes topic)
              (listeners_of (u.uri_bytes topic) t)
              registered.uri_to_listener;
      })
        ≡ listeners_of uri t
  restored uri = ground (
    arith,
    listeners_of-keep (u.uri_bytes topic) uri (listeners_of (u.uri_bytes topic) t) registered,
    listeners_of-insert (u.uri_bytes topic) uri
        (listeners_of (u.uri_bytes topic) t ++ listener ∷ []) t,
  )

  -- For a valid topic, unregistering a listener that has just been registered, and was not registered
  -- for the topic before, returns OK and gives every URI the listeners that it had.
  pub unregister-register_listener :
      u.validate topic ≡ none
      → contains listener (listeners_of (u.uri_bytes topic) t) ≡ false
      → ((unregister_listener u topic listener (register_listener u topic listener t).1).0
          ≡ ok ok_status)
        × ((uri : Bytes)
            → listeners_of uri
                (unregister_listener u topic listener (register_listener u topic listener t).1).1
              ≡ listeners_of uri t)
  unregister-register_listener valid absent =
      rw (register_listener-valid u t topic listener valid)
        (rw (unregister-registered valid absent) (refl, restored))

-- No URI keeps an empty list of listeners.
abbrev pub IsPruned : {M : Type 0} → Transport M → Type 0
IsPruned t = (uri : Bytes) → lookup uri t.uri_to_listener ≢ some []

module _ {Uri Uuid Payload : Type 0} (u : Uprotocol Uri Uuid Payload) (t : Transport (Message u))
    (pruned : IsPruned t) where
  insert-IsPruned :
      (uri : Bytes) (l : ℕ) (ls : List ℕ) (other : Bytes)
      → lookup other (insert uri (l ∷ ls) t.uri_to_listener) ≢ some []
  insert-IsPruned uri l ls other e =
      ground (arith, lookup-insert other uri (l ∷ ls) t.uri_to_listener, pruned other)

  append-IsPruned :
      (uri : Bytes) (listener : ℕ) (ls : List ℕ) (other : Bytes)
      → lookup other (insert uri (ls ++ listener ∷ []) t.uri_to_listener) ≢ some []
  append-IsPruned uri listener [] = insert-IsPruned uri listener []
  append-IsPruned uri listener (l ∷ ls) = insert-IsPruned uri l (ls ++ listener ∷ [])

  keep-IsPruned :
      (uri : Bytes) (ls : List ℕ) (other : Bytes)
      → lookup other (keep_listeners uri ls t.uri_to_listener) ≢ some []
  unfolding keep_listeners
  keep-IsPruned uri [] other e =
      ground (arith, lookup-erase other uri t.uri_to_listener, pruned other)
  keep-IsPruned uri (l ∷ ls) other e = insert-IsPruned uri l ls other e

  unregister_at-IsPruned :
      (topic : Uri) (listener : ℕ) (uri : Bytes) → IsPruned (unregister_at u uri listener t).1
  unregister_at-IsPruned topic listener uri =
      elim (Bool-cases (contains listener (listeners_of uri t))) [
        | inl there ↦ rw (unregister_at-present u t topic listener uri there) (keep-IsPruned uri _)
        | inr absent ↦ rw (unregister_at-absent u t topic listener uri absent) pruned
      ]

  -- Registering and unregistering, whatever they answer, leave no URI with an empty list.
  pub listeners-IsPruned :
      (topic : Uri) (listener : ℕ)
      → IsPruned (register_listener u topic listener t).1
        × IsPruned (unregister_listener u topic listener t).1
  listeners-IsPruned topic listener = elim (Option-cases (u.validate topic)) [
    | inr (status, e) ↦
        let (p, q) = register_listener-invalid u t topic listener status e in
        (rw p pruned, rw q pruned)
    | inl e ↦ (
      rw (register_listener-valid u t topic listener e) (append-IsPruned _ listener _),
      rw (unregister_listener-valid u t topic listener e)
          (unregister_at-IsPruned topic listener (u.uri_bytes topic)),
    )
  ]
