-- ===== src/Base/Exec.antt =====
-- Python methods that change an object and may raise: what was written before a raise stays
-- written, so the state comes back beside the exception too.
use mathlib.Core.Path.{◌≡◌, refl}
use mathlib.Core.Logic.{◌⊎◌, inl, inr}
use mathlib.Core.Bool.{Bool, true, false}
use up_tck.Base.Tests.{if◌then◌else◌}

-- The exceptions that the program's own code and the calls in it raise; `decode_error` stands for
-- those of decoding bytes and of `json.loads`.
pub data Exception : Type 0 where
  key_error index_error type_error value_error attribute_error runtime_error : Exception
  os_error connection_aborted_error invalid_state_error assertion_error decode_error : Exception
  unbound_local_error exception system_exit : Exception

pub data Result {ℓ} (A : Type ℓ) : Type ℓ where
  ok : A → Result A
  raise : Exception → Result A

abbrev pub Exec {ℓ} : Type ℓ → Type ℓ → Type ℓ
Exec S A = S → Result A × S

-- To split on an outcome and keep the equation.
pub Result-cases {ℓ} :
    {A : Type ℓ} (r : Result A) → ((a : A) × (r ≡ ok a)) ⊎ ((e : Exception) × (r ≡ raise e))
Result-cases (ok a) = inl (a, refl)
Result-cases (raise e) = inr (e, refl)

pub ok-inj : {A : Type 0} {a b : A} → ok a ≡ ok b → a ≡ b
ok-inj e = cc e

-- A pure computation that may raise.
infixl 10 ◌>>=?◌
abbrev pub ◌>>=?◌ {ℓ κ} : {A : Type ℓ} {B : Type κ} → Result A → (A → Result B) → Result B
ok a >>=? f = f a
raise e >>=? f = raise e

-- If a chain returns, its first part does.
pub bind-ok :
    {A B : Type 0} (x : Result A) (f : A → Result B) (b : B)
    → (x >>=? f) ≡ ok b
    → (a : A) × (f a ≡ ok b)
bind-ok (ok a) f b e = (a, e)
bind-ok (raise x) f b e = cc e

-- If a chain returns, its first part returns what the rest goes on from.
pub bind-inv :
    {A B : Type 0} (x : Result A) (f : A → Result B) (b : B)
    → (x >>=? f) ≡ ok b
    → (a : A) × (x ≡ ok a) × (f a ≡ ok b)
bind-inv (ok a) f b e = (a, refl, e)
bind-inv (raise x) f b e = cc e

module _ {ℓ} {S A : Type ℓ} where
  abbrev pub pure : A → Exec S A
  pure a s = (ok a, s)

  abbrev pub throw : Exception → Exec S A
  throw e s = (raise e, s)

  abbrev pub lift : Result A → Exec S A
  lift r s = (r, s)

  abbrev pub gets : (S → A) → Exec S A
  gets f s = (ok (f s), s)

  abbrev handled : Result A → Exec S A → Exec S A
  handled (ok a) h s = (ok a, s)
  handled (raise e) h s = h s

  -- `try: m` with `except Exception: h`, which goes on from the state that `m` left.
  abbrev pub try_except : Exec S A → Exec S A → Exec S A
  try_except m h s = let (r, s') = m s in handled r h s'

abbrev pub modify : {S : Type 0} → (S → S) → Exec S Unit
modify f s = (ok tt, f s)

module _ {ℓ} {S A B : Type ℓ} where
  abbrev continue : Result A → (A → Exec S B) → Exec S B
  continue (ok a) f s = f a s
  continue (raise e) f s = (raise e, s)

  infixl 10 ◌>>=◌ ◌>>◌
  abbrev pub ◌>>=◌ : Exec S A → (A → Exec S B) → Exec S B
  ◌>>=◌ m f s = let (r, s') = m s in continue r f s'

  abbrev pub ◌>>◌ : Exec S A → Exec S B → Exec S B
  m >> n = m >>= λ _. n

module _ {S A B : Type 0} (f : A → B) where
  continue-pure : (r : Result A) (s : S) → (continue r (λ a. pure (f a)) s).1 ≡ s
  continue-pure (ok a) s = refl
  continue-pure (raise e) s = refl

  -- To turn a result into another leaves the state.
  pub bind-pure : (m : Exec S A) (s : S) → ((m >>= λ a. pure (f a)) s).1 ≡ (m s).1
  bind-pure m s = let (r, s') = m s in continue-pure r s'

-- `m` keeps `P`, whether it returns or raises.
abbrev pub Preserves {ℓ} : {S A : Type ℓ} → (S → Type ℓ) → Exec S A → Type ℓ
Preserves {S = S} P m = (s : S) → P s → P (m s).1

module _ {ℓ} {S A B : Type ℓ} (P : S → Type ℓ) where
  continue-Preserves :
      (r : Result A) (f : A → Exec S B) (s : S)
      → ((a : A) → Preserves P (f a))
      → P s
      → P (continue r f s).1
  continue-Preserves (ok a) f s h p = h a s p
  continue-Preserves (raise e) f s h p = p

  pub bind-Preserves :
      (m : Exec S A) (f : A → Exec S B)
      → Preserves P m
      → ((a : A) → Preserves P (f a))
      → Preserves P (m >>= f)
  bind-Preserves m f hm hf s p = let (r, s') = m s in continue-Preserves r f s' hf (hm s p)

module _ {ℓ} {S A : Type ℓ} (P : S → Type ℓ) where
  handled-Preserves :
      (r : Result A) (h : Exec S A) (s : S) → Preserves P h → P s → P (handled r h s).1
  handled-Preserves (ok a) h s hh p = p
  handled-Preserves (raise e) h s hh p = hh s p

  pub try_except-Preserves :
      (m h : Exec S A) → Preserves P m → Preserves P h → Preserves P (try_except m h)
  try_except-Preserves m h hm hh s p = let (r, s') = m s in handled-Preserves r h s' hh (hm s p)

  pub if-Preserves :
      (b : Bool) (m n : Exec S A) → Preserves P m → Preserves P n → Preserves P (if b then m else n)
  if-Preserves true m n hm hn = hm
  if-Preserves false m n hm hn = hn
