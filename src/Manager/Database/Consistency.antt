-- ===== src/Manager/Database/Consistency.antt =====
-- test_manager/testmanager.py: the two maps of TestAgentConnectionDatabase agree.
use up_tck.Base.{
  ℕ, String, ◌≡◌, ◌≢◌, Option, none, some, ◌∷◌, arith, string_eq, nat_eq, pair_eq, Option-cases,
  inl, inr, dec_eq,
}
use up_tck.Base.Dict.{
  lookup, insert, erase, has_key, lookup-insert, lookup-erase, lookup-insert_self, lookup-insert_ne,
  erase-insert, has_key-eq,
}
use up_tck.Base.Exec.{ok}
use up_tck.Manager.Database.{
  Address, Database, init, add, close_by_socket, name_at, get_by_name, get_by_address,
}

module _ (peername : ℕ → Option Address) where
  -- Each name leads to the socket at the address that leads to the name, and back.
  pub record IsConsistent (db : Database) : Type 0 where
    pub name_leads :
        (name : String) (socket : ℕ)
        → lookup name db.name_to_address ≡ some socket
        → (address : Address) × (peername socket ≡ some address)
          × (lookup address db.address_to_name ≡ some name)
    pub address_leads :
        (address : Address) (name : String)
        → lookup address db.address_to_name ≡ some name
        → (socket : ℕ) × (peername socket ≡ some address)
          × (lookup name db.name_to_address ≡ some socket)

  pub init-IsConsistent : IsConsistent init
  unfolding lookup
  init-IsConsistent = record { name_leads = λ n s h. cc; address_leads = λ a n h. cc }

  -- Neither the name nor the address is known: the agent is a new one.
  abbrev pub IsNew : Address → String → Database → Type 0
  IsNew address name db =
      (lookup address db.address_to_name ≡ none) × (lookup name db.name_to_address ≡ none)

  module _ (db : Database) (c : IsConsistent db) (socket : ℕ) (address : Address) (name : String)
      (at : peername socket ≡ some address) where
    abbrev added : Database
    added = record db {
      address_to_name = insert address name db.address_to_name;
      name_to_address = insert name socket db.name_to_address;
    }

    added-name_leads :
        IsNew address name db
        → (n : String) (s : ℕ) → lookup n added.name_to_address ≡ some s
        → (a : Address) × (peername s ≡ some a) × (lookup a added.address_to_name ≡ some n)
    added-name_leads new n s h = elim (dec_eq n name) [
      | yes e ↦ (
        address,
        ground (arith, lookup-insert n name socket db.name_to_address),
        ground (arith, lookup-insert address address name db.address_to_name),
      )
      | no ne ↦
          let (a, p, q) =
            c.name_leads n s (ground (arith, lookup-insert n name socket db.name_to_address)) in
          (a, p, ground (arith, lookup-insert a address name db.address_to_name, new.0))
    ]

    added-address_leads :
        IsNew address name db
        → (a : Address) (n : String) → lookup a added.address_to_name ≡ some n
        → (s : ℕ) × (peername s ≡ some a) × (lookup n added.name_to_address ≡ some s)
    added-address_leads new a n h = elim (dec_eq a address) [
      | yes e ↦ (
        socket,
        ground arith,
        ground (
          arith,
          lookup-insert a address name db.address_to_name,
          lookup-insert n name socket db.name_to_address,
        ),
      )
      | no ne ↦
          let (s, p, q) =
            c.address_leads a n (ground (arith, lookup-insert a address name db.address_to_name)) in
          (s, p, ground (arith, lookup-insert n name socket db.name_to_address, new.1))
    ]

    -- Registering a new agent keeps the maps in agreement.
    pub add-IsConsistent : IsNew address name db → IsConsistent (add peername socket name db).1
    unfolding add
    add-IsConsistent new =
        rw at
          (record { name_leads = added-name_leads new; address_leads = added-address_leads new })

  module _ (db : Database) (c : IsConsistent db) (socket : ℕ) (address : Address) (name : String)
      (at : peername socket ≡ some address)
      (known : lookup address db.address_to_name ≡ some name) where
    -- The database without an agent, whose socket is closed.
    abbrev pub removed : Database
    removed = record {
      address_to_name = erase address db.address_to_name;
      name_to_address = erase name db.name_to_address;
      closed = socket ∷ db.closed;
    }

    pub close_by_socket-removes :
        (answers : ℕ → Option Address)
        → answers socket ≡ some address
        → close_by_socket answers socket db ≡ (ok tt, removed)
    unfolding close_by_socket has_key
    close_by_socket-removes answers answered =
        let (s, p, q) = c.address_leads address name known in
        rw (answered, known) (ground (arith, q))

    pub removed-IsConsistent : IsConsistent removed
    removed-IsConsistent = record {
      name_leads = λ n s h.
          let (a, p, q) =
            c.name_leads n s (ground (arith, lookup-erase n name db.name_to_address)) in
          (
            a,
            p,
            ground (
              arith,
              lookup-erase n name db.name_to_address,
              lookup-erase a address db.address_to_name,
            ),
          );
      address_leads = λ a n h.
          let (s, p, q) =
            c.address_leads a n (ground (arith, lookup-erase a address db.address_to_name)) in
          let (s', p', q') = c.address_leads address name known in
          (
            s,
            p,
            ground (
              arith,
              q',
              lookup-erase n name db.name_to_address,
              lookup-erase a address db.address_to_name,
            ),
          );
    }

    -- Closing a known agent's socket keeps the maps in agreement.
    close_known-IsConsistent : IsConsistent (close_by_socket peername socket db).1
    close_known-IsConsistent = rw (close_by_socket-removes peername at) removed-IsConsistent

  -- Closing any socket keeps the maps in agreement.
  pub close_by_socket-IsConsistent :
      (db : Database)
      → IsConsistent db
      → (socket : ℕ) → IsConsistent (close_by_socket peername socket db).1
  close_by_socket-IsConsistent db c socket = elim (Option-cases (peername socket)) [
    | inl e ↦ unfold close_by_socket in rw e c
    | inr (address, e) ↦ elim (Option-cases (lookup address db.address_to_name)) [
      | inl unknown ↦ unfold close_by_socket in rw (e, unknown) c
      | inr (name, known) ↦ close_known-IsConsistent db c socket address name e known
    ]
  ]

  pub add-eq :
      (db : Database) (socket : ℕ) (address : Address) (name : String)
      → peername socket ≡ some address
      → add peername socket name db ≡ (
        ok tt,
        record db {
          address_to_name = insert address name db.address_to_name;
          name_to_address = insert name socket db.name_to_address;
        },
      )
  unfolding add
  add-eq db socket address name at = rw at

  -- An agent that has just been added is found under its name and under its address, and every
  -- other name leads where it did.
  pub get-add :
      (db : Database) (socket : ℕ) (address : Address) (name other : String)
      → peername socket ≡ some address
      → ((get_by_name name (add peername socket name db).1).0 ≡ ok socket)
        × ((get_by_address address (add peername socket name db).1).0 ≡ ok socket)
        × (other ≢ name
            → (get_by_name other (add peername socket name db).1).0 ≡ (get_by_name other db).0)
  unfolding get_by_address get_by_name
  get-add db socket address name other at = rw (add-eq db socket address name at) (
    rw (lookup-insert_self name socket db.name_to_address),
    rw (lookup-insert_self address name db.address_to_name, name_at)
        (rw (lookup-insert_self name socket db.name_to_address)),
    λ ne. rw (lookup-insert_ne other name socket db.name_to_address ne),
  )

  -- Adding a new agent and closing its socket gives the database back, but for the closed socket.
  pub close-add :
      (db : Database) (socket : ℕ) (address : Address) (name : String)
      → peername socket ≡ some address
      → IsNew address name db
      → close_by_socket peername socket (add peername socket name db).1
        ≡ (ok tt, record db { closed = socket ∷ db.closed })
  unfolding close_by_socket
  close-add db socket address name at new = rw (add-eq db socket address name at) (
      rw (at, lookup-insert_self address name db.address_to_name)
        (ground (
          arith,
          has_key-eq address (insert address name db.address_to_name)
              (lookup-insert_self address name db.address_to_name),
          has_key-eq name (insert name socket db.name_to_address)
              (lookup-insert_self name socket db.name_to_address),
          erase-insert address name db.address_to_name,
          erase-insert name socket db.name_to_address,
          new.0,
          new.1,
        )))
