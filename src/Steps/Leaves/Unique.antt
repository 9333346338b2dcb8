-- ===== src/Steps/Leaves/Unique.antt =====
-- test_manager/features/steps/tck_step_implementations.py: the keys of what `flatten_dict` builds, and
-- what `update` leaves under them.
use up_tck.Base.{◌≡◌, refl, ap, ◌∙◌, String, none, string_eq, arith, dec_eq, ne_false}
use up_tck.Json.{Json, null, boolean, int, str, list, dict, Fields, end, field, get, put, get-put}
use up_tck.Steps.{update, new_key, flatten_entry, flatten_from}
use up_tck.Steps.Leaves.{or_else}

unfoldable pub IsUnique : Fields → Type 0
IsUnique end = Unit
IsUnique (field k v d) = (get k d ≡ none) × IsUnique d

put-IsUnique : (k : String) (v : Json) (d : Fields) → IsUnique d → IsUnique (put k v d)
unfolding IsUnique put get
put-IsUnique k v end u = (refl, tt)
put-IsUnique k v (field j w d) (fresh, u) = elim (dec_eq k j) [
  | yes e ↦ ground (arith, e, fresh, u)
  | no ne ↦ rw (ne_false k j ne) (ground (arith, get-put j k v d, fresh), put-IsUnique k v d u)
]

update-IsUnique : (d more : Fields) → IsUnique d → IsUnique (update d more)
unfolding update
update-IsUnique d end u = u
update-IsUnique d (field k v more) u = update-IsUnique (put k v d) more (put-IsUnique k v d u)

mutual
  unfolding flatten_entry flatten_from

  flatten_entry-IsUnique :
      (flattened : Fields) (key : String) (v : Json)
      → IsUnique flattened
      → IsUnique (flatten_entry flattened key v)
  flatten_entry-IsUnique flattened key (dict d) u = update-IsUnique flattened _ u
  flatten_entry-IsUnique flattened key null u = put-IsUnique key _ flattened u
  flatten_entry-IsUnique flattened key (boolean b) u = put-IsUnique key _ flattened u
  flatten_entry-IsUnique flattened key (int n) u = put-IsUnique key _ flattened u
  flatten_entry-IsUnique flattened key (str s) u = put-IsUnique key _ flattened u
  flatten_entry-IsUnique flattened key (list l) u = put-IsUnique key _ flattened u

  pub flatten_from-IsUnique :
      (flattened : Fields) (parent : String) (d : Fields)
      → IsUnique flattened
      → IsUnique (flatten_from flattened parent d)
  flatten_from-IsUnique flattened parent end u = u
  flatten_from-IsUnique flattened parent (field k v d) u =
      flatten_from-IsUnique _ parent d (flatten_entry-IsUnique flattened (new_key parent k) v u)

pub end-IsUnique : IsUnique end
unfolding IsUnique
end-IsUnique = tt

-- What the second of two dicts has goes before what the first has.
pub get-update :
    (k : String) (d more : Fields)
    → IsUnique more
    → get k (update d more) ≡ or_else (get k more) (get k d)
unfolding update IsUnique get
get-update k d end u = refl
get-update k d (field j v more) (fresh, u) = get-update k (put j v d) more u ∙ elim (dec_eq k j) [
  | yes e ↦ ground (arith, e, fresh, get-put k j v d)
  | no ne ↦
      rw (ne_false k j ne) (ap (or_else (get k more)) (get-put k j v d ∙ rw (ne_false k j ne) refl))
]
