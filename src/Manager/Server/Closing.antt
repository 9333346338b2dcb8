-- ===== src/Manager/Server/Closing.antt =====
-- test_manager/testmanager.py: `has_sdk_connection`, and `close_test_agent` for a socket that an agent has.
use up_tck.Base.{
  ℕ, String, ◌≡◌, ◌≢◌, refl, sym, ap, ◌∙◌, Bool, true, false, Option, none, some, List, [], ◌∷◌,
  arith, ◌==◌, remove, string_eq, nat_eq, pair_eq,
}
use up_tck.Base
use up_tck.Base.Dict.{lookup, erase}
use up_tck.Base.Exec.{ok}
use up_tck.Json.{Json}
use up_tck.Manager.Database
use up_tck.Manager.Database.{Address, Database, found}
use up_tck.Manager.Database.Consistency.{IsConsistent, close_by_socket-removes}
use up_tck.Manager.Server.{Bytes, Manager, close_by_socket}

-- `has_sdk_connection`
unfoldable pub has_sdk_connection : String → Manager → Bool
unfolding Database.contains
has_sdk_connection name m = Database.contains name m.database

-- What `getpeername` gives is the socket's address, or it raises.
abbrev pub Agrees : (ℕ → Option Address) → (ℕ → Option Address) → Type 0
Agrees peername address_of =
    (s : ℕ) (address : Address) → peername s ≡ some address → address_of s ≡ some address

module _ (peername address_of : ℕ → Option Address) (agrees : Agrees peername address_of)
    (loads : Bytes → Option Json) (m : Manager) (c : IsConsistent address_of m.database) where
  pub close_by_socket-closes :
      (s : ℕ) (address : Address) (name : String)
      → peername s ≡ some address
      → lookup address m.database.address_to_name ≡ some name
      → Base.contains s m.registered ≡ true
      → close_by_socket peername loads s m ≡ (
        ok tt,
        record m {
          registered = remove s m.registered;
          database = record {
            address_to_name = erase address m.database.address_to_name;
            name_to_address = erase name m.database.name_to_address;
            closed = s ∷ m.database.closed;
          };
        },
      )
  unfolding close_by_socket
  close_by_socket-closes s address name at known watched = rw watched (
      rw (
        close_by_socket-removes address_of m.database c s address name (agrees s address at) known
          peername at))
