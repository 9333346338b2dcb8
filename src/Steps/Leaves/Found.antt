-- ===== src/Steps/Leaves/Found.antt =====
-- test_manager/features/steps/tck_step_implementations.py: `flatten_dict` has what `access_nested_dict`
-- finds.
use mathlib.Core.Path.{ap₂}
use up_tck.Base.{
  ◌≡◌, ◌≢◌, refl, sym, ap, subst, ◌∙◌, String, none, some, List, [], ◌∷◌, ◌++◌, string_eq, arith,
  dec_eq, ne_false, eq_self,
}
use Prim.Native.String.{[] as char_nil, ◌∷◌ as char_cons}
use up_tck.Base.Text
use up_tck.Base.Parts.{split-append, split-inj}
use up_tck.Base.Exec.{ok, raise, key_error, ◌>>=?◌}
use up_tck.Json.{
  Json, null, boolean, int, str, list, dict, Fields, end, field, get, put, get-put, subscript,
}
use up_tck.Steps.{
  new_key, flatten_entry, flatten_from, flatten_dict, subscript_all, access_nested_dict,
}
use up_tck.Steps.Leaves.{
  IsTidy, IsTidyValue, scalar, found_scalar, or_else, or_else_assoc, or_else-none, leaf_at, leaf_in,
  leaf_in-end, leaf_in-field, leaf_in_self, leaf_in_ne,
}
use up_tck.Steps.Leaves.Unique.{flatten_from-IsUnique, end-IsUnique, get-update}

-- A parent key and its path: what is below it has the path with the key behind.
abbrev IsPath : String → List String → Type 0
IsPath parent p =
    (k : String)
    → k ≢ ""
    → Text.split "." k ≡ k ∷ []
    → (new_key parent k ≢ "") × (Text.split "." (new_key parent k) ≡ p ++ k ∷ [])

IsPath-top : IsPath "" []
unfolding new_key
IsPath-top k ne alone = rw (eq_self {A = String} "") (ne, alone)

append-ne : (s t : String) → s ≢ "" → Text.append s t ≢ ""
unfolding Text.append
append-ne char_nil t ne e = ne refl
append-ne (char_cons c s) t ne e = cc e

IsPath-below : (key : String) (p : List String) → key ≢ "" → Text.split "." key ≡ p → IsPath key p
unfolding new_key Text.append
IsPath-below key p ne path k other alone =
    rw (ne_false key "" ne)
      (append-ne key _ ne, split-append "." key k ∙ ap₂ (λ x y. x ++ y) path alone)

module _ (key : String) where
  abbrev asked : List String
  asked = Text.split "." key

  put-lem :
      (at : String) (p : List String) (v : Json) (d : Fields)
      → Text.split "." at ≡ p
      → scalar v ≡ some v
      → get key (put at v d) ≡ or_else (leaf_in p asked v) (get key d)
  put-lem at p v d path h = elim (dec_eq key at) [
    | yes e ↦
        let found =
          subst (λ q. leaf_in p q v ≡ some v) (sym path ∙ ap (Text.split ".") (sym e))
            (leaf_in_self p v h) in
        ground (arith, e, found, get-put key at v d, eq_self at)
    | no ne ↦
        let missing =
          leaf_in_ne p asked v h (λ same. ne (split-inj "." key at (sym same ∙ sym path))) in
        get-put key at v d ∙ rw (ne_false key at ne) (rw missing refl)
  ]

  mutual
    unfolding flatten_entry flatten_from IsTidyValue get

    flatten_entry-lem :
        (flattened : Fields) (at : String) (p : List String) (v : Json)
        → at ≢ ""
        → Text.split "." at ≡ p
        → IsTidyValue v
        → get key (flatten_entry flattened at v) ≡ or_else (leaf_in p asked v) (get key flattened)
    flatten_entry-lem flattened at p (dict d) ne path tidy =
        get-update key flattened _ (flatten_from-IsUnique end at d end-IsUnique)
        ∙ ap (λ o. or_else o (get key flattened))
            (flatten_from-lem end at p d (IsPath-below at p ne path) tidy ∙ or_else-none _)
    flatten_entry-lem flattened at p null ne path tidy = put-lem at p null flattened path refl
    flatten_entry-lem flattened at p (boolean b) ne path tidy = put-lem at p _ flattened path refl
    flatten_entry-lem flattened at p (int n) ne path tidy = put-lem at p _ flattened path refl
    flatten_entry-lem flattened at p (str s) ne path tidy = put-lem at p _ flattened path refl
    flatten_entry-lem flattened at p (list l) ne path tidy = put-lem at p _ flattened path refl

    flatten_from-lem :
        (flattened : Fields) (parent : String) (p : List String) (d : Fields)
        → IsPath parent p
        → IsTidy d
        → get key (flatten_from flattened parent d)
          ≡ or_else (leaf_in p asked (dict d)) (get key flattened)
    flatten_from-lem flattened parent p end path tidy = rw (leaf_in-end p asked) refl
    flatten_from-lem flattened parent p (field k v d) path (ne, alone, fresh, below, tidy) =
        let (named, at) = path k ne alone in
        flatten_from-lem _ parent p d path tidy
        ∙ ap (or_else (leaf_in p asked (dict d)))
            (flatten_entry-lem flattened (new_key parent k) (p ++ k ∷ []) v named at below)
        ∙ sym (or_else_assoc (leaf_in p asked (dict d)) _ _)
        ∙ ap (λ o. or_else o (get key flattened)) (sym (leaf_in-field p asked k v d fresh))

leaf_at-read : (p : List String) (v : Json) → leaf_at p v ≡ found_scalar (subscript_all v p)
unfolding leaf_at subscript_all subscript
leaf_at-read [] v = refl
leaf_at-read (a ∷ p) (dict d) =
    elim (get a d)
      as (λ o.
        elim o [ none ↦ none | some v ↦ leaf_at p v ]
        ≡ found_scalar
            (elim o [ none ↦ raise key_error | some v ↦ ok v ] >>=? λ v. subscript_all v p)) [
              | none ↦ refl
              | some v ↦ leaf_at-read p v
            ]
leaf_at-read (a ∷ p) null = refl
leaf_at-read (a ∷ p) (boolean b) = refl
leaf_at-read (a ∷ p) (int n) = refl
leaf_at-read (a ∷ p) (str s) = refl
leaf_at-read (a ∷ p) (list l) = refl

-- The keys of the dicts are not empty, have no dot and are distinct: under every key but the empty one
-- `flatten_dict` has what `access_nested_dict` finds with this key in the nested dicts, and
-- nothing where that finds a dict or raises.
pub get-flatten_dict :
    (d : Fields) (key : String)
    → IsTidy d
    → key ≢ ""
    → get key (flatten_dict d) ≡ found_scalar (access_nested_dict (dict d) key)
unfolding flatten_dict access_nested_dict get
get-flatten_dict d key tidy ne =
    flatten_from-lem key end "" [] d IsPath-top tidy
    ∙ or_else-none _
    ∙ leaf_at-read (Text.split "." key) (dict d)
    ∙ sym (ap found_scalar (rw (ne_false key "" ne) refl))
