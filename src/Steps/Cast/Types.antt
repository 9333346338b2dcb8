-- ===== src/Steps/Cast/Types.antt =====
-- test_manager/features/steps/tck_step_implementations.py: the types of what `cast` gives.
use up_tck.Base.{
  ◌≡◌, refl, subst, String, Bool, true, false, string_eq, dec_eq, ◌==◌, eq_self, ne_false,
  if◌then◌else◌, Bool-cases, inl, inr,
}
use up_tck.Base.Text.{append, contains_text, split}
use up_tck.Base.Exec.{ok-inj, bind-ok, Result-cases, Result, ok, raise, value_error, ◌>>=?◌}
use up_tck.Json.{ℤ, Json, boolean, int, str, truth}
use up_tck.Steps.Cast.{
  Enum, priority, message_type, code, Casted, json, bytes, float, second, enum_member, enum_value,
  cast_bytes, cast_data_to_jsonable_bytes, cast_data_to_bytes, cast_to, cast,
}

-- The value has the type of this name; bytes on their way into JSON are a marked text, and a member of
-- an enum keeps its number where a text is asked for.
pub data HasType {Float : Type 0} (data_type : String) (jsonable : Bool)
    : Casted Float → Type 0 where
  is_int : (n : ℤ) → data_type ≡ "int" → HasType data_type jsonable (json (int n))
  is_str : (s : String) → data_type ≡ "str" → HasType data_type jsonable (json (str s))
  is_member : (n : ℤ) → data_type ≡ "str" → HasType data_type jsonable (json (int n))
  is_bool : (b : Bool) → data_type ≡ "bool" → HasType data_type jsonable (json (boolean b))
  is_float : (x : Float) → data_type ≡ "float" → HasType data_type jsonable (float x)
  is_marked :
      (s : String)
      → data_type ≡ "bytes"
      → jsonable ≡ true
      → HasType data_type jsonable (json (str (append "BYTES:" s)))
  is_bytes :
      (s : String) → data_type ≡ "bytes" → jsonable ≡ false → HasType data_type jsonable (bytes s)

-- What the tests for enums leave: a text, or the number of a member.
data IsCell : Json → Type 0 where
  text : (s : String) → IsCell (str s)
  member_number : (n : ℤ) → IsCell (int n)

is_equal : {s t : String} → s ≡ t → (s == t) ≡ true
is_equal {s = s} p = subst (λ t. (s == t) ≡ true) p (eq_self s)

module _ {Float : Type 0} (member : Enum → String → Result ℤ) (to_int : Json → Result ℤ)
    (to_float : Json → Result Float) where
  enum_member-IsCell :
      (e : Enum) (value : String) (v : Json)
      → enum_member member to_int to_float e value ≡ ok v
      → IsCell v
  unfolding enum_member
  enum_member-IsCell e value v h =
      let (name, h') = bind-ok (second (split "." value)) _ v h in
      let (n, h'') = bind-ok (member e name) _ v h' in subst IsCell (ok-inj h'') (member_number n)

  enum_value-IsCell :
      (value : String) (v : Json) → enum_value member to_int to_float value ≡ ok v → IsCell v
  unfolding enum_value
  enum_value-IsCell value v h = elim (Bool-cases (contains_text "UPriority" value)) [
    | inl p ↦ enum_member-IsCell priority value v (rw p at h)
    | inr p ↦ elim (Bool-cases (contains_text "UMessageType" value)) [
      | inl m ↦ enum_member-IsCell message_type value v (rw m at (rw p at h))
      | inr m ↦ elim (Bool-cases (contains_text "UCode" value)) [
        | inl c ↦ enum_member-IsCell code value v (rw c at (rw m at (rw p at h)))
        | inr c ↦ subst IsCell (ok-inj (rw c at (rw m at (rw p at h)))) (text value)
      ]
    ]
  ]

  cast_bytes-HasType :
      (v : Json) (data_type : String) (jsonable : Bool) (out : Casted Float)
      → IsCell v
      → data_type ≡ "bytes"
      → cast_bytes member to_int to_float v jsonable ≡ ok out
      → HasType data_type jsonable out
  unfolding cast_bytes cast_data_to_jsonable_bytes cast_data_to_bytes
  cast_bytes-HasType v data_type true out (text s) e h =
      subst (HasType data_type true) (ok-inj h) (is_marked s e refl)
  cast_bytes-HasType v data_type false out (text s) e h =
      subst (HasType data_type false) (ok-inj h) (is_bytes s e refl)
  cast_bytes-HasType v data_type true out (member_number n) e h = cc h
  cast_bytes-HasType v data_type false out (member_number n) e h = cc h

  cast_str-HasType :
      (v : Json) (data_type : String) (jsonable : Bool) (out : Casted Float)
      → IsCell v
      → data_type ≡ "str"
      → json v ≡ out
      → HasType data_type jsonable out
  cast_str-HasType v data_type jsonable out (text s) e h =
      subst (HasType data_type jsonable) h (is_str s e)
  cast_str-HasType v data_type jsonable out (member_number n) e h =
      subst (HasType data_type jsonable) h (is_member n e)

  -- The last two tests.
  cast_rest-HasType :
      (v : Json) (data_type : String) (jsonable : Bool) (out : Casted Float)
      → IsCell v
      → (if data_type == "float"
          then (to_float v >>=? λ x. ok (float x))
          else if data_type == "bytes"
          then cast_bytes member to_int to_float v jsonable
          else raise value_error)
        ≡ ok out
      → HasType data_type jsonable out
  cast_rest-HasType v data_type jsonable out cell h = elim (dec_eq data_type "float") [
    | yes p ↦
        let (x, e) = bind-ok (to_float v) _ out (rw (is_equal p) at h) in
        subst (HasType data_type jsonable) (ok-inj e) (is_float x p)
    | no n ↦
        let h' = rw (ne_false data_type "float" n) at h in
        elim (dec_eq data_type "bytes") [
          | yes p ↦ cast_bytes-HasType v data_type jsonable out cell p (rw (is_equal p) at h')
          | no n ↦ cc (rw (ne_false data_type "bytes" n) at h')
        ]
  ]

  cast_to-HasType :
      (v : Json) (data_type : String) (jsonable : Bool) (out : Casted Float)
      → IsCell v
      → cast_to member to_int to_float v data_type jsonable ≡ ok out
      → HasType data_type jsonable out
  unfolding cast_to
  cast_to-HasType v data_type jsonable out cell h = elim (dec_eq data_type "int") [
    | yes p ↦
        let (n, e) = bind-ok (to_int v) _ out (rw (is_equal p) at h) in
        subst (HasType data_type jsonable) (ok-inj e) (is_int n p)
    | no n ↦
        let h1 = rw (ne_false data_type "int" n) at h in
        elim (dec_eq data_type "str") [
          | yes p ↦
              cast_str-HasType v data_type jsonable out cell p (ok-inj (rw (is_equal p) at h1))
          | no n ↦
              let h2 = rw (ne_false data_type "str" n) at h1 in
              elim (dec_eq data_type "bool") [
                | yes p ↦
                    subst (HasType data_type jsonable) (ok-inj (rw (is_equal p) at h2))
                      (is_bool (truth v) p)
                | no n ↦
                    cast_rest-HasType v data_type jsonable out cell
                      (rw (ne_false data_type "bool" n) at h2)
              ]
        ]
  ]

  -- What `cast` gives has the type that the table asks for, where a member of an enum may stand for a
  -- text by its number; a table that asks for another than the five types gets nothing.
  pub cast-HasType :
      (value data_type : String) (jsonable : Bool) (out : Casted Float)
      → cast member to_int to_float value data_type jsonable ≡ ok out
      → HasType data_type jsonable out
  unfolding cast
  cast-HasType value data_type jsonable out h =
      elim (Result-cases (enum_value member to_int to_float value)) [
        | inl (v, e) ↦
            cast_to-HasType v data_type jsonable out (enum_value-IsCell value v e) (rw e at h)
        | inr (x, e) ↦ cc (rw e at h)
      ]
