-- ===== src/Steps/Properties/Values.antt =====
-- test_manager/features/steps/tck_step_implementations.py: what the step that compares a URI with the rows of a table
-- does for one row.
use up_tck.Base.{
  String, ◌≡◌, ◌≢◌, refl, ap, ◌∙◌, false, some, ◌==◌, string_eq, if◌then◌else◌, eq_self, ne_false,
  Bool-cases, inl, inr,
}
use up_tck.Base.Dict.{Dict, lookup, insert, lookup-insert_self, lookup-insert_ne}
use up_tck.Base.Exec.{Result, Result-cases, ok, ◌>>=?◌}
use up_tck.Json.{Json, boolean, int, str}
use up_tck.Steps.Cast.{Casted, json, bytes}
use up_tck.Steps.Context.{Library}
use up_tck.Steps.Properties.{
  Row, has_length, is_int_field, is_bytes_field, expected_field, verify_value,
}

module _ {Float : Type 0} (l : Library Float) where
  -- The value that a row asks for, and what is compared with it: numbers, bytes or texts, by the field.
  abbrev pub asked : Row → Result (Casted Float)
  asked row =
      if is_int_field row.row_field
      then (l.to_int (str row.row_value) >>=? λ n. ok (json (int n)))
      else if is_bytes_field row.row_field
      then ok (bytes row.row_value)
      else ok (json (str row.row_value))

  abbrev pub shown : Row → Json → Casted Float
  shown row v =
      if is_int_field row.row_field
      then json v
      else if is_bytes_field row.row_field
      then bytes (l.py_str (json v))
      else json v

  -- The flattened response behind the row.
  abbrev pub changed : Row → Json → Dict String (Casted Float) → Dict String (Casted Float)
  changed row v d =
      if is_int_field row.row_field
      then d
      else if is_bytes_field row.row_field
      then insert row.row_field (bytes (l.py_str (json v))) d
      else d

  changed-lookup :
      (row : Row) (v : Json) (d : Dict String (Casted Float))
      → lookup row.row_field d ≡ some (json v)
      → lookup row.row_field (changed row v d) ≡ some (shown row v)
  changed-lookup row v d h = elim (Bool-cases (is_int_field row.row_field)) [
    | inl number ↦ rw number h
    | inr no_number ↦ rw no_number (elim (Bool-cases (is_bytes_field row.row_field)) [
      | inl binary ↦ rw binary (lookup-insert_self row.row_field (bytes (l.py_str (json v))) d)
      | inr text ↦ rw text h
    ])
  ]

  pub changed-other :
      (row : Row) (v : Json) (d : Dict String (Casted Float)) (key : String)
      → key ≢ row.row_field
      → lookup key (changed row v d) ≡ lookup key d
  changed-other row v d key ne = elim (Bool-cases (is_int_field row.row_field)) [
    | inl number ↦ rw number refl
    | inr no_number ↦ rw no_number (elim (Bool-cases (is_bytes_field row.row_field)) [
      | inl binary ↦ rw binary (lookup-insert_ne key row.row_field (bytes (l.py_str (json v))) d ne)
      | inr text ↦ rw text refl
    ])
  ]

  expected_field-eq :
      (row : Row) (v : Json) (d : Dict String (Casted Float))
      → expected_field l row.row_field row.row_value (json v) d
        ≡ (asked row >>=? λ a. ok (a, changed row v d))
  unfolding expected_field
  expected_field-eq row v d = elim (Bool-cases (is_int_field row.row_field)) [
    | inl number ↦ rw number (elim (Result-cases (l.to_int (str row.row_value))) [
      | inl (n, e) ↦ rw e refl
      | inr (x, e) ↦ rw e refl
    ])
    | inr no_number ↦ rw no_number (elim (Bool-cases (is_bytes_field row.row_field)) [
      | inl binary ↦ rw binary refl
      | inr text ↦ rw text refl
    ])
  ]

  pub verify_value-filled :
      (row : Row) (v : Json) (d : Dict String (Casted Float))
      → row.row_value ≢ ""
      → lookup row.row_field d ≡ some (json v)
      → verify_value l row.row_field row.row_value (json v) d
        ≡ (asked row >>=? λ a. l.assert_equal (shown row v) a >>=? λ _. ok (changed row v d))
  unfolding verify_value
  verify_value-filled row v d filled h = rw (ne_false row.row_value "" filled) (
      rw (expected_field-eq row v d) (elim (Result-cases (asked row)) [
        | inl (a, e) ↦ rw e (rw (changed-lookup row v d h) refl)
        | inr (x, e) ↦ rw e refl
      ]))

  pub verify_value-blank :
      (row : Row) (v : Json) (d : Dict String (Casted Float))
      → row.row_value ≡ ""
      → verify_value l row.row_field row.row_value (json v) d ≡ (
          has_length {Float = Float} (json v) >>=? λ filled.
          l.assert_equal (json (boolean filled)) (json (boolean false)) >>=? λ _. ok d)
  unfolding verify_value
  verify_value-blank row v d blank = rw (ap (λ t. t == "") blank ∙ eq_self {A = String} "") refl
