-- ===== src/Base/Equality.antt =====
-- Python's `==` on keys, for every type whose equality can be decided.
use Prim.Native.Nat.{ℕ}
use Prim.Native.String.{String}
use mathlib.Core.Path.{◌≡◌, ap, ap₂}
use mathlib.Core.Logic.{◌≢◌, ite, dite}
use mathlib.Core.Bool.{Bool, true, false, Bool-discrete}
use mathlib.Core.List.{List}
use native.Mathlib.Decide.{ℕ_discrete}
use native.Mathlib.Omega.{arith}
use text.Mathlib.Text
use text.Mathlib.TextEquality.{eq_iff}

pub record Eq {ℓ} (A : Type ℓ) : Type ℓ where
  pub dec : Discrete A

module _ {ℓ} {A : Type ℓ} ⦃e : Eq A⦄ where
  infix 50 ◌==◌
  abbrev pub ◌==◌ : A → A → Bool
  a == b = ite (e.dec a b) true false

  abbrev pub dec_eq : Discrete A
  dec_eq = e.dec

  pub eq_self : (a : A) → (a == a) ≡ true
  eq_self a = ground arith

  pub ne_false : (a b : A) → a ≢ b → (a == b) ≡ false
  ne_false a b h = ground arith

instance abbrev pub nat_eq : Eq ℕ
nat_eq = record { dec = ℕ_discrete }

-- Shut in proofs, where a split on `s == t` gives the equation or its negation.
instance unfoldable pub string_eq : Eq String
string_eq = record {
  dec = λ s t.
      dite (Bool-discrete (Text.◌==◌ s t) true) (λ same. yes ((eq_iff s t).0 same))
        (λ differ. no (λ p. differ ((eq_iff s t).1 p)));
}

bytes_dec : Discrete (List ℕ)
bytes_dec = hlevel ℕ_discrete

instance unfoldable pub bytes_eq : Eq (List ℕ)
unfolding bytes_dec
bytes_eq = record { dec = bytes_dec }

module _ {ℓ κ} {A : Type ℓ} {B : Type κ} where
  pair_dec : Discrete A → Discrete B → Discrete (A × B)
  pair_dec dA dB (a, b) (c, d) =
      dite (dA a c)
        (λ p.
          dite (dB b d) (λ q. yes (ap₂ (λ x y. (x, y)) p q)) (λ n. no (λ r. n (ap (λ t. t.1) r))))
        (λ n. no (λ r. n (ap (λ t. t.0) r)))

  instance unfoldable pub pair_eq : ⦃a : Eq A⦄ ⦃b : Eq B⦄ → Eq (A × B)
  unfolding pair_dec
  pair_eq ⦃a⦄ ⦃b⦄ = record { dec = pair_dec a.dec b.dec }
