-- ===== src/Base/Lists.antt =====
-- Lists measured by native numbers, and Python's operations on lists and sets that the program uses.
use Prim.Native.Nat.{ℕ, suc, ◌+◌}
use mathlib.Core.Path.{◌≡◌, refl, sym, ◌∙◌}
use mathlib.Core.Bool.{Bool, true, false, ◌||◌, Bool-set}
use mathlib.Core.Logic.{◌≢◌, inl, inr}
use mathlib.Core.Logic.Or
use mathlib.Core.List.{
  List, [], ◌∷◌, ◌++◌, Mem, not-mem-nil, mem-cons, mem-cons_self, mem-cons_of_mem, Perm, Nodup,
  Nodup-nil, Nodup-cons,
}
use mathlib.Core.List.Perm
use native.Mathlib.Omega.{arith}
use up_tck.Base.Tests.{if◌then◌else◌, Bool-cases}
use up_tck.Base.Equality.{Eq, ◌==◌, dec_eq}

module _ {ℓ} {A : Type ℓ} where
  abbrev pub length : List A → ℕ
  length [] = 0
  length (x ∷ xs) = suc (length xs)

  pub length-append : (xs ys : List A) → length (xs ++ ys) ≡ length xs + length ys
  length-append [] ys = omega arith
  length-append (x ∷ xs) ys = omega (arith, length-append xs ys)

  -- A predicate by recursion computes to tuples, which the tactics read and build.
  abbrev pub All {κ} : (A → Type κ) → List A → Type κ
  All P [] = Unit
  All P (x ∷ xs) = P x × All P xs

module _ {ℓ} {A : Type ℓ} ⦃e : Eq A⦄ where
  -- `a in xs`
  unfoldable pub contains : A → List A → Bool
  contains a [] = false
  contains a (x ∷ xs) = a == x || contains a xs

  -- `xs.remove(a)`: the first occurrence goes.
  unfoldable pub remove : A → List A → List A
  remove a [] = []
  remove a (x ∷ xs) = if a == x then xs else x ∷ remove a xs

  -- No element twice, by recursion.
  abbrev pub IsSetList : List A → Type 0
  IsSetList [] = Unit
  IsSetList (x ∷ xs) = (contains x xs ≡ false) × IsSetList xs

  pub contains-append :
      (a : A) (xs ys : List A) → contains a (xs ++ ys) ≡ (contains a xs || contains a ys)
  unfolding contains
  contains-append a [] ys = refl
  contains-append a (x ∷ xs) ys = ground (arith, contains-append a xs ys)

  pub contains-remove_ne :
      (a b : A) (xs : List A) → a ≢ b → contains a (remove b xs) ≡ contains a xs
  unfolding contains remove
  contains-remove_ne a b [] h = refl
  contains-remove_ne a b (x ∷ xs) h = ground (arith, contains-remove_ne a b xs h)

  pub contains-remove_self : (a : A) (xs : List A) → IsSetList xs → contains a (remove a xs) ≡ false
  unfolding contains remove
  contains-remove_self a [] h = refl
  contains-remove_self a (x ∷ xs) h = ground (arith, contains-remove_self a xs h.1)

  pub contains-remove_of :
      (a b : A) (xs : List A) → contains a xs ≡ false → contains a (remove b xs) ≡ false
  unfolding contains remove
  contains-remove_of a b [] h = refl
  contains-remove_of a b (x ∷ xs) h = ground (arith, contains-remove_of a b xs)

  pub remove-IsSetList : (a : A) (xs : List A) → IsSetList xs → IsSetList (remove a xs)
  unfolding remove
  remove-IsSetList a [] h = tt
  remove-IsSetList a (x ∷ xs) h =
      ground (arith, remove-IsSetList a xs h.1, contains-remove_of x a xs)

  pub append_one-IsSetList :
      (a : A) (xs : List A) → contains a xs ≡ false → IsSetList xs → IsSetList (xs ++ a ∷ [])
  unfolding contains
  append_one-IsSetList a [] h k = (refl, tt)
  append_one-IsSetList a (x ∷ xs) h k =
      ground (arith, append_one-IsSetList a xs, contains-append x xs (a ∷ []))

  pub length-remove :
      (a : A) (xs : List A) → contains a xs ≡ true → length (remove a xs) + 1 ≡ length xs
  unfolding contains remove
  length-remove a [] h = cc
  length-remove a (x ∷ xs) h = ground (arith, length-remove a xs)

  pub contains-of_mem : (a : A) (xs : List A) → Mem a xs → contains a xs ≡ true
  unfolding contains
  contains-of_mem a [] m = absurd (not-mem-nil m)
  contains-of_mem a (x ∷ xs) m =
      Or.elim (Bool-set _ _) (mem-cons.0 m) (λ e. ground arith)
        (λ r. ground (arith, contains-of_mem a xs r))

  pub mem-of_contains : (a : A) (xs : List A) → contains a xs ≡ true → Mem a xs
  unfolding contains
  mem-of_contains a [] h = cc h
  mem-of_contains a (x ∷ xs) h = elim (dec_eq a x) [
    | yes same ↦ rw same mem-cons_self
    | no other ↦ mem-cons_of_mem x (mem-of_contains a xs (ground (arith, other)))
  ]

  contains-false : (a : A) (xs : List A) → contains a xs ≡ false → ¬ Mem a xs
  contains-false a xs h m = cc (sym h ∙ contains-of_mem a xs m)

  false-contains : (a : A) (xs : List A) → ¬ Mem a xs → contains a xs ≡ false
  false-contains a xs h = elim (Bool-cases (contains a xs)) [
    | inl e ↦ absurd (h (mem-of_contains a xs e))
    | inr e ↦ e
  ]

  IsSetList-Nodup : (xs : List A) → IsSetList xs → Nodup xs
  IsSetList-Nodup [] h = Nodup-nil
  IsSetList-Nodup (x ∷ xs) (h, hs) = Nodup-cons.1 (contains-false x xs h, IsSetList-Nodup xs hs)

  Nodup-IsSetList : (xs : List A) → Nodup xs → IsSetList xs
  Nodup-IsSetList [] h = tt
  Nodup-IsSetList (x ∷ xs) h =
      let (absent, rest) = Nodup-cons.0 h in (false-contains x xs absent, Nodup-IsSetList xs rest)

  -- The same elements in another order.
  pub IsSetList-Perm : {xs ys : List A} → Perm xs ys → IsSetList ys → IsSetList xs
  IsSetList-Perm {xs} {ys} p h =
      Nodup-IsSetList xs (Perm.nodup (Perm.symm p) (IsSetList-Nodup ys h))

  pub contains-Perm : {xs ys : List A} → Perm xs ys → (a : A) → contains a xs ≡ contains a ys
  contains-Perm {xs} {ys} p a = elim (Bool-cases (contains a ys)) [
    | inl e ↦ contains-of_mem a xs (Perm.subset (Perm.symm p) a (mem-of_contains a ys e)) ∙ sym e
    | inr e ↦ false-contains a xs (λ m. contains-false a ys e (Perm.subset p a m)) ∙ sym e
  ]

module _ {ℓ κ} {A : Type ℓ} {P : A → Type κ} where
  pub All-of_mem : (xs : List A) → ((x : A) → Mem x xs → P x) → All P xs
  All-of_mem [] h = tt
  All-of_mem (x ∷ xs) h = (h x mem-cons_self, All-of_mem xs (λ y m. h y (mem-cons_of_mem x m)))
