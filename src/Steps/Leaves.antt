-- ===== src/Steps/Leaves.antt =====
-- test_manager/features/steps/tck_step_implementations.py: what `flatten_dict` has under a key, and what
-- `access_nested_dict` finds there.
pub mod Unique
pub mod Found
use mathlib.Core.List.{append_assoc}
use mathlib.Core.Path.{ap₂}
use up_tck.Base.{
  ◌≡◌, ◌≢◌, refl, sym, ap, subst, ◌∙◌, String, Bool, true, false, Option, none, some, List, [], ◌∷◌,
  ◌++◌, string_eq, arith, inl, inr, dec_eq, ◌==◌, if◌then◌else◌, ne_false, eq_self, Option-cases,
}
use Prim.Native.String.{[] as char_nil, ◌∷◌ as char_cons}
use up_tck.Base.Text
use up_tck.Base.Parts.{split-append, split-inj}
use up_tck.Base.Exec.{Result, ok, raise, key_error, type_error, ◌>>=?◌}
use up_tck.Json.{
  Json, null, boolean, int, str, list, dict, Fields, end, field, get, put, get-put, subscript,
}
use up_tck.Steps.{
  update, new_key, flatten_entry, flatten_from, flatten_dict, subscript_all, access_nested_dict,
}

-- The keys are not empty, have no dot and stand once in their dict, here and in the dicts below.
unfoldable mutual
  pub IsTidy : Fields → Type 0
  IsTidy end = Unit
  IsTidy (field k v d) =
      (k ≢ "") × (Text.split "." k ≡ k ∷ []) × (get k d ≡ none) × IsTidyValue v × IsTidy d

  pub IsTidyValue : Json → Type 0
  IsTidyValue (dict d) = IsTidy d
  IsTidyValue v = Unit

-- The first of two values that is there.
abbrev or_else : Option Json → Option Json → Option Json
or_else none o = o
or_else (some v) o = some v

-- A value that is no dict.
abbrev pub scalar : Json → Option Json
scalar (dict d) = none
scalar v = some v

-- What a look-up found, unless it is a dict.
abbrev pub found_scalar : Result Json → Option Json
found_scalar (ok v) = scalar v
found_scalar (raise e) = none

-- The scalar at the end of a path, and below the path of a prefix.
unfoldable leaf_at : List String → Json → Option Json
leaf_at [] v = scalar v
leaf_at (a ∷ q) (dict d) = elim (get a d) [ none ↦ none | some v ↦ leaf_at q v ]
leaf_at (a ∷ q) v = none

abbrev leaf_in : List String → List String → Json → Option Json
leaf_in [] q v = leaf_at q v
leaf_in (a ∷ p) [] v = none
leaf_in (a ∷ p) (b ∷ q) v = let rest = leaf_in p q v in if b == a then rest else none

or_else_assoc : (x y z : Option Json) → or_else (or_else x y) z ≡ or_else x (or_else y z)
or_else_assoc none y z = refl
or_else_assoc (some v) y z = refl

or_else-none : (x : Option Json) → or_else x none ≡ x
or_else-none none = refl
or_else-none (some v) = refl

leaf_in-end : (p q : List String) → leaf_in p q (dict end) ≡ none
unfolding leaf_at get
leaf_in-end [] [] = refl
leaf_in-end [] (a ∷ q) = refl
leaf_in-end (a ∷ p) [] = refl
leaf_in-end (a ∷ p) (b ∷ q) = ground (arith, leaf_in-end p q)

leaf_in-field :
    (p q : List String) (k : String) (v : Json) (d : Fields)
    → get k d ≡ none
    → leaf_in p q (dict (field k v d)) ≡ or_else (leaf_in p q (dict d)) (leaf_in (p ++ k ∷ []) q v)
unfolding leaf_at get
leaf_in-field [] [] k v d fresh = refl
leaf_in-field [] (a ∷ q) k v d fresh = elim (dec_eq a k) [
  | yes e ↦ ground (arith, e, fresh)
  | no ne ↦ ground (arith, ne_false a k ne, or_else-none (leaf_at (a ∷ q) (dict d)))
]
leaf_in-field (b ∷ p) [] k v d fresh = refl
leaf_in-field (b ∷ p) (a ∷ q) k v d fresh = ground (arith, leaf_in-field p q k v d fresh)

-- A scalar lies on its own path and on no other.
leaf_in_self : (p : List String) (v : Json) → scalar v ≡ some v → leaf_in p p v ≡ some v
unfolding leaf_at
leaf_in_self [] v h = h
leaf_in_self (a ∷ p) v h = ground (arith, leaf_in_self p v h, eq_self a)

leaf_in_ne : (p q : List String) (v : Json) → scalar v ≡ some v → p ≢ q → leaf_in p q v ≡ none
unfolding leaf_at
leaf_in_ne [] [] v h ne = absurd (ne refl)
leaf_in_ne [] (b ∷ q) (dict d) h ne = cc h
leaf_in_ne [] (b ∷ q) null h ne = refl
leaf_in_ne [] (b ∷ q) (boolean x) h ne = refl
leaf_in_ne [] (b ∷ q) (int n) h ne = refl
leaf_in_ne [] (b ∷ q) (str s) h ne = refl
leaf_in_ne [] (b ∷ q) (list l) h ne = refl
leaf_in_ne (a ∷ p) [] v h ne = refl
leaf_in_ne (a ∷ p) (b ∷ q) v h ne = elim (dec_eq b a) [
  | yes e ↦ rw e (rw (eq_self a) (leaf_in_ne p q v h λ same. ne (ap₂ (λ x y. x ∷ y) (sym e) same)))
  | no differ ↦ rw (ne_false b a differ) refl
]
