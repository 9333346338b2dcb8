-- ===== src/Steps/Paths.antt =====
-- test_manager/features/steps/tck_step_implementations.py: what `unflatten_dict` builds, as
-- `access_nested_dict` reads it.
use up_tck.Base.{
  ◌≡◌, ◌≢◌, refl, sym, ap, subst, ◌∙◌, String, Option, none, some, List, [], ◌∷◌, string_eq, arith,
  inl, inr,
}
use Prim.Native.Char.{Char}
use up_tck.Base.Text
use up_tck.Base.Exec.{ok-inj, Result-cases, ok, raise, key_error, ◌>>=?◌}
use up_tck.Json.{
  Json, null, boolean, int, str, list, dict, Fields, end, get, put, subscript, get-put_ne,
  get-put_self,
}
use up_tck.Steps.{step_into, set_path, subscript_all}

-- Neither path begins with the other.
pub data Apart : List String → List String → Type 0 where
  differ : {a b : String} {p q : List String} → a ≢ b → Apart (a ∷ p) (b ∷ q)
  under : {a : String} {p q : List String} → Apart p q → Apart (a ∷ p) (a ∷ q)

-- No value but a dict lies on the path, before its end.
pub data IsFree : List String → Fields → Type 0 where
  at_end : {part : String} {t : Fields} → IsFree (part ∷ []) t
  fresh :
      {part : String} {parts : List String} {t : Fields}
      → get part t ≡ none
      → IsFree (part ∷ parts) t
  inside :
      {part : String} {parts : List String} {t d : Fields}
      → get part t ≡ some (dict d)
      → IsFree parts d
      → IsFree (part ∷ parts) t

set_path-end :
    (p : List String) (a : String) (v : Json) → (t' : Fields) × (set_path (a ∷ p) v end ≡ ok t')
unfolding set_path get
set_path-end [] a v = (put a v end, refl)
set_path-end (b ∷ p) a v = let (sub, e) = set_path-end p b v in (put a (dict sub) end, rw e refl)

pub set_path-ok :
    (p : List String) (v : Json) (t : Fields)
    → IsFree p t
    → (t' : Fields) × (set_path p v t ≡ ok t')
unfolding set_path
set_path-ok [] v t free = elim free [ ]
set_path-ok (a ∷ []) v t free = (put a v t, refl)
set_path-ok (a ∷ b ∷ p) v t (fresh missing) =
    let (sub, e) = set_path-end p b v in (put a (dict sub) t, rw (missing, e) refl)
set_path-ok (a ∷ b ∷ p) v t (inside {d = d} at free) =
    let (sub, e) = set_path-ok (b ∷ p) v d free in (put a (dict sub) t, rw (at, e) refl)

-- A write below `a`: into the dict there, or into a new one.
data Below (a : String) (p : List String) (v : Json) (t t' : Fields) : Type 0 where
  below :
      (d sub : Fields)
      → step_into (get a t) ≡ ok d
      → set_path p v d ≡ ok sub
      → t' ≡ put a (dict sub) t
      → Below a p v t t'

set_path-Below :
    (a b : String) (p : List String) (v : Json) (t t' : Fields)
    → set_path (a ∷ b ∷ p) v t ≡ ok t'
    → Below a (b ∷ p) v t t'
unfolding set_path
set_path-Below a b p v t t' w = elim (Result-cases (step_into (get a t))) [
  | inl (d, into) ↦ elim (Result-cases (set_path (b ∷ p) v d)) [
    | inl (sub, e) ↦ below d sub into e (ground arith)
    | inr (x, e) ↦ ground arith
  ]
  | inr (x, into) ↦ ground arith
]

module _ (a : String) (x : Json) (t : Fields) (q : List String) where
  read-put_ne :
      (b : String)
      → b ≢ a
      → subscript_all (dict (put a x t)) (b ∷ q) ≡ subscript_all (dict t) (b ∷ q)
  unfolding subscript_all subscript
  read-put_ne b ne =
      ap (λ o. elim o [ none ↦ raise key_error | some v ↦ ok v ] >>=? λ v. subscript_all v q)
        (get-put_ne b a x t ne)

  read-put_self : subscript_all (dict (put a x t)) (a ∷ q) ≡ subscript_all x q
  unfolding subscript_all subscript
  read-put_self =
      ap (λ o. elim o [ none ↦ raise key_error | some v ↦ ok v ] >>=? λ v. subscript_all v q)
        (get-put_self a x t)

read-nil : (v : Json) → subscript_all v [] ≡ ok v
unfolding subscript_all
read-nil v = refl

-- Where a walk goes on, a read goes on too.
read-step_into :
    (a : String) (t d : Fields) (q : List String) (w : Json)
    → step_into (get a t) ≡ ok d
    → subscript_all (dict t) (a ∷ q) ≡ ok w
    → subscript_all (dict d) q ≡ ok w
unfolding subscript_all subscript step_into
read-step_into a t d q w into h = go (get a t) into h
  where
    go :
        (o : Option Json)
        → step_into o ≡ ok d
        → (elim o [ none ↦ raise key_error | some v ↦ ok v ] >>=? λ v. subscript_all v q) ≡ ok w
        → subscript_all (dict d) q ≡ ok w
    go none into h = cc h
    go (some (dict c)) into h = subst (λ f. subscript_all (dict f) q ≡ ok w) (ok-inj into) h
    go (some null) into h = cc into
    go (some (boolean b)) into h = cc into
    go (some (int n)) into h = cc into
    go (some (str s)) into h = cc into
    go (some (list l)) into h = cc into

-- What was read on a path apart is read again after a write.
pub set_path-frame :
    (p q : List String) (v w : Json) (t t' : Fields)
    → Apart p q
    → set_path p v t ≡ ok t'
    → subscript_all (dict t) q ≡ ok w
    → subscript_all (dict t') q ≡ ok w
unfolding set_path
set_path-frame [] q v w t t' apart e h = elim apart [ ]
set_path-frame (a ∷ []) [] v w t t' apart e h = elim apart [ ]
set_path-frame (a ∷ c ∷ p) [] v w t t' apart e h = elim apart [ ]
set_path-frame (a ∷ []) (b ∷ q) v w t t' (differ ne) e h =
    subst (λ r. subscript_all (dict r) (b ∷ q) ≡ ok w) (ok-inj e)
      (read-put_ne a v t q b (λ same. ne (sym same)) ∙ h)
set_path-frame (a ∷ []) (_ ∷ q) v w t t' (under apart) e h = elim apart [ ]
set_path-frame (a ∷ c ∷ p) (b ∷ q) v w t t' (differ ne) e h = elim (set_path-Below a c p v t t' e) [
  | below d sub into _ same ↦
      ap (λ r. subscript_all (dict r) (b ∷ q)) same
      ∙ read-put_ne a (dict sub) t q b (λ eq. ne (sym eq))
      ∙ h
]
set_path-frame (a ∷ c ∷ p) (_ ∷ q) v w t t' (under apart) e h =
    elim (set_path-Below a c p v t t' e) [
      | below d sub into written same ↦
          ap (λ r. subscript_all (dict r) (a ∷ q)) same
          ∙ read-put_self a (dict sub) t q
          ∙ set_path-frame (c ∷ p) q v w d sub apart written (read-step_into a t d q w into h)
    ]

-- A value is read where it was written.
set_path-read :
    (a : String) (p : List String) (v : Json) (t t' : Fields)
    → set_path (a ∷ p) v t ≡ ok t'
    → subscript_all (dict t') (a ∷ p) ≡ ok v
unfolding set_path
set_path-read a [] v t t' e =
    subst (λ r. subscript_all (dict r) (a ∷ []) ≡ ok v) (ok-inj e)
      (read-put_self a v t [] ∙ read-nil v)
set_path-read a (c ∷ p) v t t' e = elim (set_path-Below a c p v t t' e) [
  | below d sub into written same ↦
      ap (λ r. subscript_all (dict r) (a ∷ c ∷ p)) same
      ∙ read-put_self a (dict sub) t (c ∷ p)
      ∙ set_path-read c p v d sub written
]

-- A write leaves the other keys.
set_path-other :
    (a b : String) (p : List String) (v : Json) (t t' : Fields)
    → b ≢ a
    → set_path (a ∷ p) v t ≡ ok t'
    → get b t' ≡ get b t
unfolding set_path
set_path-other a b [] v t t' ne e =
    subst (λ r. get b r ≡ get b t) (ok-inj e) (get-put_ne b a v t ne)
set_path-other a b (c ∷ p) v t t' ne e = elim (set_path-Below a c p v t t' e) [
  | below d sub into written same ↦ ap (get b) same ∙ get-put_ne b a (dict sub) t ne
]

IsFree-end : (b : String) (q : List String) → IsFree (b ∷ q) end
unfolding get
IsFree-end b q = fresh refl

IsFree-into :
    (a b : String) (q : List String) (t d : Fields)
    → step_into (get a t) ≡ ok d
    → IsFree (a ∷ b ∷ q) t
    → IsFree (b ∷ q) d
unfolding step_into
IsFree-into a b q t d into (fresh missing) =
    subst (IsFree (b ∷ q)) (ok-inj (ap step_into (sym missing) ∙ into)) (IsFree-end b q)
IsFree-into a b q t d into (inside at free) =
    subst (IsFree (b ∷ q)) (ok-inj (ap step_into (sym at) ∙ into)) free

-- A path apart stays free.
pub set_path-IsFree :
    (p q : List String) (v : Json) (t t' : Fields)
    → Apart p q
    → set_path p v t ≡ ok t'
    → IsFree q t
    → IsFree q t'
set_path-IsFree [] q v t t' apart e free = elim apart [ ]
set_path-IsFree (a ∷ p) [] v t t' apart e free = elim apart [ ]
set_path-IsFree (a ∷ p) (b ∷ []) v t t' apart e free = at_end
set_path-IsFree (a ∷ p) (b ∷ c ∷ q) v t t' (differ ne) e (fresh missing) =
    fresh (set_path-other a b p v t t' (λ eq. ne (sym eq)) e ∙ missing)
set_path-IsFree (a ∷ p) (b ∷ c ∷ q) v t t' (differ ne) e (inside at free) =
    inside (set_path-other a b p v t t' (λ eq. ne (sym eq)) e ∙ at) free
set_path-IsFree (a ∷ []) (_ ∷ c ∷ q) v t t' (under apart) e free = elim apart [ ]
set_path-IsFree (a ∷ b ∷ p) (_ ∷ c ∷ q) v t t' (under apart) e free =
    elim (set_path-Below a b p v t t' e) [
      | below d sub into written same ↦
          inside (ap (get a) same ∙ get-put_self a (dict sub) t) (
            set_path-IsFree (b ∷ p) (c ∷ q) v d sub apart written (IsFree-into a c q t d into free))
    ]

pub set_path-read_free :
    (p : List String) (v : Json) (t t' : Fields)
    → IsFree p t
    → set_path p v t ≡ ok t'
    → subscript_all (dict t') p ≡ ok v
set_path-read_free [] v t t' free e = elim free [ ]
set_path-read_free (a ∷ p) v t t' free e = set_path-read a p v t t' e

-- A text splits into at least one part, and an empty dict stops no walk.
pub split-IsFree : (sep : Char) (s : String) → IsFree (Text.split sep s) end
split-IsFree sep s =
    let (part, rest, e) = Text.split-cons sep s in
    subst (λ p. IsFree p end) (sym e) (IsFree-end part rest)
