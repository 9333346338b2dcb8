-- ===== src/Steps/RoundTrip.antt =====
-- test_manager/features/steps/tck_step_implementations.py: `unflatten_dict` builds nested dicts in
-- which `access_nested_dict` finds each value again.
use up_tck.Base.{◌≡◌, ◌≢◌, refl, String, List, string_eq, ne_false}
use up_tck.Base.Text
use up_tck.Base.Exec.{ok}
use up_tck.Json.{Json, dict, Fields, end, field}
use up_tck.Steps.{set_path, unflatten_from, unflatten_dict, subscript_all, access_nested_dict}
use up_tck.Steps.Paths.{
  Apart, IsFree, set_path-ok, set_path-frame, set_path-IsFree, set_path-read_free, split-IsFree,
}

-- The paths of the keys are apart, each from each.
unfoldable pub ApartFrom : List String → Fields → Type 0
ApartFrom p end = Unit
ApartFrom p (field j v d) = Apart p (Text.split "." j) × Apart (Text.split "." j) p × ApartFrom p d

unfoldable pub KeysApart : Fields → Type 0
KeysApart end = Unit
KeysApart (field k v d) = ApartFrom (Text.split "." k) d × KeysApart d

-- An entry of a dict.
pub data Entry (k : String) (v : Json) : Fields → Type 0 where
  first : {d : Fields} → Entry k v (field k v d)
  later : {j : String} {w : Json} {d : Fields} → Entry k v d → Entry k v (field j w d)

-- Every key of `d` has a free path in `t`.
AllFree : Fields → Fields → Type 0
AllFree end t = Unit
AllFree (field k v d) t = IsFree (Text.split "." k) t × AllFree d t

AllFree-set_path :
    (p : List String) (v : Json) (d t t' : Fields)
    → ApartFrom p d
    → set_path p v t ≡ ok t'
    → AllFree d t
    → AllFree d t'
unfolding AllFree ApartFrom
AllFree-set_path p v end t t' apart e free = tt
AllFree-set_path p v (field j w d) t t' (here, back, rest) e (free, more) =
    (set_path-IsFree p _ v t t' here e free, AllFree-set_path p v d t t' rest e more)

read-Entry :
    {j : String} {u : Json} {d : Fields} (t' : Fields)
    → subscript_all (dict t') (Text.split "." j) ≡ ok u
    → ((k : String) (v : Json) → Entry k v d → subscript_all (dict t') (Text.split "." k) ≡ ok v)
    → (k : String) (v : Json) → Entry k v (field j u d)
    → subscript_all (dict t') (Text.split "." k) ≡ ok v
read-Entry t' here there k v first = here
read-Entry t' here there k v (later at) = there k v at

-- Writing the entries of `d` one by one returns, keeps what was read on a path apart, and each entry
-- is read on its path.
unflatten_from-lem :
    (d t : Fields)
    → KeysApart d
    → AllFree d t
    → (t' : Fields) × (unflatten_from t d ≡ ok t')
      × ((q : List String) (w : Json)
          → ApartFrom q d
          → subscript_all (dict t) q ≡ ok w
          → subscript_all (dict t') q ≡ ok w)
      × ((k : String) (v : Json) → Entry k v d → subscript_all (dict t') (Text.split "." k) ≡ ok v)
unfolding unflatten_from KeysApart AllFree ApartFrom
unflatten_from-lem end t apart free = (t, refl, (λ q w a h. h), λ k v at. elim at [ ])
unflatten_from-lem (field j u d) t (here, apart) (free, more) =
    let (s, wrote) = set_path-ok (Text.split "." j) u t free in
    let (t', ran, frame, read) =
      unflatten_from-lem d s apart (AllFree-set_path _ u d t s here wrote more) in
    (
      t',
      rw wrote ran,
      (λ q w a h. frame q w a.2 (set_path-frame _ q u w t s a.1 wrote h)),
      read-Entry t' (frame _ u here (set_path-read_free _ u t s free wrote)) read,
    )

AllFree-end : (d : Fields) → AllFree d end
unfolding AllFree
AllFree-end end = tt
AllFree-end (field k v d) = (split-IsFree "." k, AllFree-end d)

-- If no key's path begins with another's, `unflatten_dict` returns a dict in which
-- `access_nested_dict` finds the value of every key that is not empty.
pub access_nested_dict-unflatten :
    (d : Fields)
    → KeysApart d
    → (t : Fields) × (unflatten_dict d ≡ ok t)
      × ((k : String) (v : Json) → Entry k v d → k ≢ "" → access_nested_dict (dict t) k ≡ ok v)
unfolding unflatten_dict access_nested_dict
access_nested_dict-unflatten d apart =
    let (t, ran, frame, read) = unflatten_from-lem d end apart (AllFree-end d) in
    (t, ran, λ k v at ne. rw (ne_false k "" ne) (read k v at))
