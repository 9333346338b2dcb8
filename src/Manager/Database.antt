-- ===== src/Manager/Database.antt =====
-- test_manager/testmanager.py, class TestAgentConnectionDatabase: which test agent sits behind which
-- socket. A socket is a number; `peername` is what its `getpeername` gives while the methods run,
-- `none` where it raises. `closed` records the sockets that were closed.
pub mod Consistency
pub mod Faults
use up_tck.Base.{
  ℕ, String, Bool, Option, none, some, List, [], ◌∷◌, ◌==◌, if◌then◌else◌, string_eq, nat_eq,
  pair_eq,
}
use up_tck.Base.Dict.{Dict, lookup, insert, erase, has_key}
use up_tck.Base.Exec.{
  Exec, key_error, os_error, Result, ok, raise, pure, lift, gets, modify, ◌>>=◌, ◌>>◌,
}

abbrev pub Address : Type 0
Address = String × ℕ

pub record Database : Type 0 where
  pub address_to_name : Dict Address String
  pub name_to_address : Dict String ℕ
  pub closed : List ℕ

abbrev pub init : Database
init = record { address_to_name = []; name_to_address = []; closed = [] }

abbrev pub found {ℓ} : {A : Type ℓ} → Option A → Result A
found none = raise key_error
found (some a) = ok a

abbrev pub peer {ℓ} : {A : Type ℓ} → Option A → Result A
peer none = raise os_error
peer (some a) = ok a

-- `self.test_agent_address_to_name[address]` on the `defaultdict(str)`, which a read extends.
unfoldable pub name_at : Address → Exec Database String
name_at address db = elim (lookup address db.address_to_name) [
  | some name ↦ (ok name, db)
  | none ↦ (ok "", record db { address_to_name = insert address "" db.address_to_name })
]

-- `del self.test_agent_address_to_name[address]` and `del self.test_agent_name_to_address[name]`
unfoldable pub delete_address : Address → Exec Database Unit
delete_address address db =
    if has_key address db.address_to_name
    then (ok tt, record db { address_to_name = erase address db.address_to_name })
    else (raise key_error, db)

unfoldable pub delete_name : String → Exec Database Unit
delete_name name db =
    if has_key name db.name_to_address
    then (ok tt, record db { name_to_address = erase name db.name_to_address })
    else (raise key_error, db)

-- `get(name)`
unfoldable pub get_by_name : String → Exec Database ℕ
get_by_name name db = (found (lookup name db.name_to_address), db)

-- `get(address)`
unfoldable pub get_by_address : Address → Exec Database ℕ
unfolding name_at get_by_name
get_by_address address = do name ← name_at address; get_by_name name

unfoldable pub contains : String → Database → Bool
contains name db = has_key name db.name_to_address

module _ (peername : ℕ → Option Address) where
  -- `add`
  unfoldable pub add : ℕ → String → Exec Database Unit
  add socket name = do
    address ← lift (peer (peername socket))
    modify (λ db. record db { address_to_name = insert address name db.address_to_name })
    modify (λ db. record db { name_to_address = insert name socket db.name_to_address })

  -- The part of `close(test_agent_socket)` behind the look-up of its name.
  unfoldable pub close_named : ℕ → Address → Option String → Exec Database Unit
  unfolding delete_address delete_name
  close_named socket address none = pure tt
  close_named socket address (some name) = do
    delete_address address
    delete_name name
    modify (λ db. record db { closed = socket ∷ db.closed })

  -- `close(test_agent_socket)`
  unfoldable pub close_by_socket : ℕ → Exec Database Unit
  unfolding close_named
  close_by_socket socket = do
    address ← lift (peer (peername socket))
    name ← gets (λ db. lookup address db.address_to_name)
    close_named socket address name

  -- `close(test_agent_name)`
  unfoldable pub close_by_name : String → Exec Database Unit
  unfolding get_by_name close_by_socket
  close_by_name name =
      if name == "" then pure tt else do socket ← get_by_name name; close_by_socket socket
