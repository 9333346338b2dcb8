-- ===== src/Manager/Database/Faults.antt =====
-- test_manager/testmanager.py: TestAgentConnectionDatabase where its two maps come apart.
use up_tck.Base.{
  ℕ, String, ◌≡◌, ◌≢◌, sym, ap, ◌∙◌, Option, none, some, ◌∷◌, arith, string_eq, nat_eq, pair_eq,
}
use up_tck.Base.Dict.{
  lookup, insert, erase, lookup-insert_self, lookup-insert_ne, lookup-erase_self, lookup-erase_ne,
  has_key-eq, has_key-ne,
}
use up_tck.Base.Exec.{Result, ok, raise, key_error}
use up_tck.Manager.Database.{
  Address, Database, add, close_by_socket, get_by_name, get_by_address, name_at,
}
use up_tck.Manager.Database.Consistency.{add-eq}

module _ (peername : ℕ → Option Address) (socket : ℕ) (address : Address) (name : String)
    (db : Database) (at : peername socket ≡ some address)
    (known : lookup address db.address_to_name ≡ some name) where
  close_by_socket-known :
      {s : ℕ}
      → lookup name db.name_to_address ≡ some s
      → close_by_socket peername socket db ≡ (
        ok tt,
        record {
          address_to_name = erase address db.address_to_name;
          name_to_address = erase name db.name_to_address;
          closed = socket ∷ db.closed;
        },
      )
  unfolding close_by_socket
  close_by_socket-known q =
      rw (at, known)
        (ground (
          arith,
          has_key-eq address db.address_to_name known,
          has_key-eq name db.name_to_address q,
        ))

  close_by_socket-nameless :
      lookup name db.name_to_address ≡ none
      → close_by_socket peername socket db
        ≡ (raise key_error, record db { address_to_name = erase address db.address_to_name })
  unfolding close_by_socket
  close_by_socket-nameless q =
      rw (at, known)
        (ground (
          arith,
          has_key-eq address db.address_to_name known,
          has_key-ne name db.name_to_address q,
        ))

module _ (peername : ℕ → Option Address) (old new : ℕ) (old_address new_address : Address)
    (name : String) (db : Database) (at_old : peername old ≡ some old_address)
    (at_new : peername new ≡ some new_address) (ne : old_address ≢ new_address) where
  -- Two agents that registered under one name.
  abbrev pub twice_added : Database
  twice_added = (add peername new name (add peername old name db).1).1

  abbrev twice : Database
  twice = record db {
    address_to_name = insert new_address name (insert old_address name db.address_to_name);
    name_to_address = insert name new (insert name old db.name_to_address);
  }

  twice_added-eq : twice_added ≡ twice
  twice_added-eq =
      ap (λ (r : Result Unit × Database). (add peername new name r.1).1)
        (add-eq peername db old old_address name at_old)
      ∙ ap (λ (r : Result Unit × Database). r.1) (add-eq peername _ new new_address name at_new)

  abbrev half_closed : Database
  half_closed = record {
    address_to_name = erase old_address twice.address_to_name;
    name_to_address = erase name twice.name_to_address;
    closed = old ∷ db.closed;
  }

  close_old : close_by_socket peername old twice_added ≡ (ok tt, half_closed)
  close_old = rw twice_added-eq (
      close_by_socket-known peername old old_address name twice at_old
        (lookup-insert_ne old_address new_address name _ ne ∙ lookup-insert_self old_address name _)
        (lookup-insert_self name new _))

  close_new : close_by_socket peername new half_closed ≡ (
    raise key_error,
    record half_closed { address_to_name = erase new_address half_closed.address_to_name },
  )
  close_new =
      close_by_socket-nameless peername new new_address name half_closed at_new
        (lookup-erase_ne new_address old_address _ (λ e. ne (sym e))
          ∙ lookup-insert_self new_address name _)
        (lookup-erase_self name _)

  -- When two agents registered under one name and the first goes, the name is lost although the
  -- second is connected, and when the second goes too, `close` raises and leaves its socket open.
  pub close-twice_added :
      ((get_by_name name (close_by_socket peername old twice_added).1).0 ≡ raise key_error)
      × ((close_by_socket peername new (close_by_socket peername old twice_added).1).0
          ≡ raise key_error)
      × ((close_by_socket peername new (close_by_socket peername old twice_added).1).1.closed
          ≡ old ∷ db.closed)
  unfolding get_by_name
  close-twice_added =
      rw close_old (rw (lookup-erase_self name twice.name_to_address), rw close_new, rw close_new)

module _ (peername : ℕ → Option Address) (socket : ℕ) (address : Address) (db : Database)
    (at : peername socket ≡ some address) (unknown : lookup address db.address_to_name ≡ none)
    (unnamed : lookup "" db.name_to_address ≡ none) where
  abbrev marked : Database
  marked = record db { address_to_name = insert address "" db.address_to_name }

  get_by_address-marks : get_by_address address db ≡ (raise key_error, marked)
  unfolding get_by_address get_by_name
  get_by_address-marks = rw (unknown, name_at) (rw unnamed)

  close_marked :
      close_by_socket peername socket marked
      ≡ (raise key_error, record marked { address_to_name = erase address marked.address_to_name })
  close_marked =
      close_by_socket-nameless peername socket address "" marked at
        (lookup-insert_self address "" db.address_to_name) unnamed

  -- A look-up of an unknown address raises, and leaves a trace: closing the socket at that address
  -- did nothing before it, and raises after it.
  pub close-get_by_address :
      (close_by_socket peername socket db ≡ (ok tt, db))
      × ((get_by_address address db).0 ≡ raise key_error)
      × ((close_by_socket peername socket (get_by_address address db).1).0 ≡ raise key_error)
  unfolding close_by_socket
  close-get_by_address =
      (rw (at, unknown), rw get_by_address-marks, rw get_by_address-marks (rw close_marked))
