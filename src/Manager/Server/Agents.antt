-- ===== src/Manager/Server/Agents.antt =====
-- test_manager/testmanager.py: closing one test agent after the other.
use up_tck.Base.{
  [], ℕ, String, ◌≡◌, ◌≢◌, refl, sym, ◌∙◌, Bool, true, false, Option, none, some, List, arith, ◌==◌,
  remove, string_eq, nat_eq, pair_eq, Option-cases, dec_eq, inl, inr, if◌then◌else◌, ◌∷◌,
}
use up_tck.Base
use up_tck.Base.Dict.{
  lookup, erase, has_key-eq, has_key-ne, lookup-erase, lookup-erase_self, lookup-erase_ne,
}
use up_tck.Base.Exec.{ok}
use up_tck.Json.{Json}
use up_tck.Manager.Database
use up_tck.Manager.Database.{Address}
use up_tck.Manager.Database.Consistency.{IsConsistent, removed-IsConsistent}
use up_tck.Manager.Server.{Bytes, Manager, close_by_name}
use up_tck.Manager.Server.Closing.{close_by_socket-closes}

-- No connection to this agent is known.
abbrev pub IsGone : String → Manager → Type 0
IsGone name m = lookup name m.database.name_to_address ≡ none

-- The maps agree, and the selector watches the socket of every agent but the `lost` ones.
pub record IsServing (address_of : ℕ → Option Address) (lost : List ℕ) (m : Manager) : Type 0 where
  pub consistent : IsConsistent address_of m.database
  pub watched :
      (name : String) (s : ℕ)
      → lookup name m.database.name_to_address ≡ some s
      → Base.contains s lost ≡ false
      → Base.contains s m.registered ≡ true

module _ (address_of : ℕ → Option Address) (lost : List ℕ) where
  -- The manager without the agent `name` at the socket `s`.
  abbrev pub without : Manager → ℕ → Address → String → Manager
  without m s address name = record m {
    registered = remove s m.registered;
    database = record {
      address_to_name = erase address m.database.address_to_name;
      name_to_address = erase name m.database.name_to_address;
      closed = s ∷ m.database.closed;
    };
  }

  without-watched :
      (m : Manager) (s : ℕ) (address : Address) (name : String)
      → IsServing address_of lost m
      → address_of s ≡ some address
      → lookup address m.database.address_to_name ≡ some name
      → (other : String) (t : ℕ)
      → lookup other (without m s address name).database.name_to_address ≡ some t
      → Base.contains t lost ≡ false
      → Base.contains t (without m s address name).registered ≡ true
  without-watched m s address name serving at leads other t known kept = elim (dec_eq other name) [
    | yes e ↦ ground (arith, lookup-erase other name m.database.name_to_address)
    | no ne ↦
        let before : lookup other m.database.name_to_address ≡ some t =
          sym (lookup-erase_ne other name m.database.name_to_address ne) ∙ known in
        elim (dec_eq t s) [
          | yes e ↦
              let (a, p, q) = serving.consistent.name_leads other t before in
              absurd (ne (cc (e, p, at, q, leads)))
          | no differ ↦
              Base.contains-remove_ne t s m.registered differ ∙ serving.watched other t before kept
        ]
  ]

  pub without-IsServing :
      (m : Manager) (s : ℕ) (address : Address) (name : String)
      → IsServing address_of lost m
      → address_of s ≡ some address
      → lookup address m.database.address_to_name ≡ some name
      → IsServing address_of lost (without m s address name)
  without-IsServing m s address name serving at leads = record {
    consistent =
        removed-IsConsistent address_of m.database serving.consistent s address name at leads;
    watched = without-watched m s address name serving at leads;
  }

module _ (peername : ℕ → Option Address) (loads : Bytes → Option Json) where
  -- With the peers all there, closing an agent by name returns, whether it is connected or not; afterwards it is gone, as is
  -- every agent that was gone before.
  pub close_by_name-IsServing :
      (name : String) (m : Manager)
      → IsServing peername [] m
      → (m' : Manager) × (close_by_name peername loads name m ≡ (ok tt, m'))
        × IsServing peername [] m'
        × IsGone name m'
        × ((other : String) → IsGone other m → IsGone other m')
  unfolding close_by_name Database.get_by_name Database.contains Base.contains
  close_by_name-IsServing name m serving =
      elim (Option-cases (lookup name m.database.name_to_address)) [
        | inl gone ↦ (
          m,
          rw (has_key-ne name m.database.name_to_address gone) refl,
          serving,
          gone,
          λ other g. g,
        )
        | inr (s, known) ↦
            let (address, at, leads) = serving.consistent.name_leads name s known in
            (
              without peername [] m s address name,
              rw (has_key-eq name m.database.name_to_address known) (
                  rw known (
                    close_by_socket-closes peername peername (λ t a h. h) loads m serving.consistent
                      s address name at leads (serving.watched name s known refl))),
              without-IsServing peername [] m s address name serving at leads,
              lookup-erase_self name m.database.name_to_address,
              λ other g. ground (arith, lookup-erase other name m.database.name_to_address),
            )
      ]
