-- ===== src/Steps/Properties/Uuid.antt =====
-- test_manager/features/steps/tck_step_implementations.py: which responses the step accepts that compares a UUID with
-- the rows of a table.
use up_tck.Base.{
  String, ◌≡◌, ◌≢◌, ◌↔◌, refl, sym, ap, ◌∙◌, Bool, true, false, not, Option, none, some, List, [],
  ◌∷◌, All, ◌==◌, string_eq, arith, if◌then◌else◌, dec_eq, eq_self, ne_false, Option-cases, inl,
  inr,
}
use up_tck.Base
use up_tck.Base.Dict.{lookup, has_key, has_key-eq, has_key-ne}
use up_tck.Base.Exec.{bind-inv, Result, ok, ◌>>=?◌}
use up_tck.Json.{Json, boolean, int, str, dict, Fields}
use up_tck.Manager.Database.{found}
use up_tck.Steps.Cast.{json}
use up_tck.Steps.Context.{Context, Library, attribute-set}
use up_tck.Steps.Leaves.{IsTidy}
use up_tck.Steps.Properties.Flat.{reads, flat, lookup-missing, lookup-there}
use up_tck.Steps.Properties.{
  Row, flat_response, verify_part, verify_parts, verify_uuid_received_properties,
}

-- `assert_that(a, equal_to(b))` on JSON values, where `same` says when Python's `==` holds.
pub record Compares {Float : Type 0} (l : Library Float) (same : Json → Json → Type 0)
    : Type 0 where
  pub accepts : (a b : Json) → (l.assert_equal (json a) (json b) ≡ ok tt) ↔ same a b
  pub booleans : (a b : Bool) → same (boolean a) (boolean b) ↔ (a ≡ b)

module _ {Float : Type 0} (l : Library Float) (same : Json → Json → Type 0) where
  -- The value that a row asks for: a number for the two halves of a UUID, else a text.
  abbrev pub expected : Row → Result Json
  expected row =
      if Base.contains row.row_field ("msb" ∷ "lsb" ∷ [])
      then (l.to_int (str row.row_value) >>=? λ n. ok (int n))
      else ok (str row.row_value)

  -- A row without a value asks that the field is not there, another one that it is there with an equal
  -- value.
  pub data Matches (d : Fields) (row : Row) : Type 0 where
    absent : row.row_value ≡ "" → reads d row.row_field ≡ none → Matches d row
    present :
        (actual asked : Json)
        → row.row_value ≢ ""
        → reads d row.row_field ≡ some actual
        → expected row ≡ ok asked
        → same actual asked
        → Matches d row

module _ {Float : Type 0} (l : Library Float) (same : Json → Json → Type 0) (c : Compares l same)
    (d : Fields) (tidy : IsTidy d) where
  accepted : (a b : Bool) → a ≡ b → l.assert_equal (json (boolean a)) (json (boolean b)) ≡ ok tt
  accepted a b e = (c.accepts (boolean a) (boolean b)).1 ((c.booleans a b).1 e)

  refused : (a b : Bool) → l.assert_equal (json (boolean a)) (json (boolean b)) ≡ ok tt → a ≡ b
  refused a b e = (c.booleans a b).0 ((c.accepts (boolean a) (boolean b)).0 e)

  verify_part-blank :
      (row : Row)
      → row.row_value ≡ ""
      → verify_part l row (flat {Float = Float} d tidy) ≡ (
          l.assert_equal
            (json (boolean (has_key row.row_field (flat {Float = Float} d tidy))))
            (json (boolean false))
          >>=? λ _. ok tt)
  unfolding verify_part
  verify_part-blank row blank = rw (ap (λ t. t == "") blank ∙ eq_self {A = String} "") refl

  verify_part-filled :
      (row : Row)
      → row.row_value ≢ ""
      → verify_part l row (flat {Float = Float} d tidy) ≡ (
          l.assert_equal
            (json (boolean (has_key row.row_field (flat {Float = Float} d tidy))))
            (json (boolean true))
          >>=? λ _. expected l same row >>=? λ asked.
              found (lookup row.row_field (flat {Float = Float} d tidy)) >>=? λ actual.
              l.assert_equal actual (json asked))
  unfolding verify_part
  verify_part-filled row filled = rw (ne_false row.row_value "" filled) refl

  part-Matches :
      (row : Row)
      → row.row_field ≢ ""
      → verify_part l row (flat {Float = Float} d tidy) ≡ ok tt
      → Matches l same d row
  part-Matches row ne h = elim (dec_eq row.row_value "") [
    | yes blank ↦
        let (a, accepts, rest) = bind-inv _ _ tt (sym (verify_part-blank row blank) ∙ h) in
        let has = refused _ false accepts in
        elim (Option-cases (reads d row.row_field)) [
          | inl missing ↦ absent blank missing
          | inr (v, there) ↦ cc (
              sym has
              ∙ has_key-eq row.row_field (flat {Float = Float} d tidy)
                  (lookup-there d tidy row.row_field v ne there))
        ]
    | no filled ↦
        let (a, accepts, rest) = bind-inv _ _ tt (sym (verify_part-filled row filled) ∙ h) in
        let has = refused _ true accepts in
        let (asked, is_asked, compared) = bind-inv _ _ tt rest in
        elim (Option-cases (reads d row.row_field)) [
          | inl missing ↦ cc (
              sym has
              ∙ has_key-ne row.row_field (flat {Float = Float} d tidy)
                  (lookup-missing d tidy row.row_field ne missing))
          | inr (v, there) ↦ present v asked filled there is_asked (
              (c.accepts v asked).0 (rw (lookup-there d tidy row.row_field v ne there) at compared))
        ]
  ]

  Matches-part :
      (row : Row)
      → row.row_field ≢ ""
      → Matches l same d row
      → verify_part l row (flat {Float = Float} d tidy) ≡ ok tt
  Matches-part row ne (absent blank missing) =
      let gone =
        has_key-ne row.row_field (flat {Float = Float} d tidy)
          (lookup-missing d tidy row.row_field ne missing) in
      verify_part-blank row blank ∙ rw gone (rw (accepted false false refl) refl)
  Matches-part row ne (present v asked filled there is_asked equal) =
      let at = lookup-there d tidy row.row_field v ne there in
      let has = has_key-eq row.row_field (flat {Float = Float} d tidy) at in
      verify_part-filled row filled
      ∙ rw has (rw (accepted true true refl) (rw is_asked (rw at ((c.accepts v asked).1 equal))))

  rows-Matches :
      (rows : List Row)
      → All (λ row. row.row_field ≢ "") rows
      → (verify_parts l rows (flat {Float = Float} d tidy) ≡ ok tt) ↔ All (Matches l same d) rows
  unfolding verify_parts
  rows-Matches [] ne = (λ h. tt, λ h. refl)
  rows-Matches (row ∷ rows) (ne, nes) =
      let (forth, back) = rows-Matches rows nes in
      (
        λ h.
            let (a, first, rest) =
              bind-inv (verify_part l row (flat {Float = Float} d tidy)) _ tt h in
            (part-Matches row ne first, forth rest),
        λ (matches, others). rw (Matches-part row ne matches) (back others),
      )

  -- The response is nested dicts whose keys are not empty, have no dot and are distinct, and no row names the
  -- empty key: the step ends without an exception exactly if every row matches. A row without a
  -- value matches if `access_nested_dict` finds no value, or a dict, with its key; another one if it
  -- finds a value that equals the one of the row, as a number for the halves of the UUID.
  pub verify_uuid_received_properties-Matches :
      (rows : List Row) (context : Context)
      → All (λ row. row.row_field ≢ "") rows
      → context.response_data ≡ some (dict d)
      → ((verify_uuid_received_properties l rows context).0 ≡ ok tt) ↔ All (Matches l same d) rows
  unfolding verify_uuid_received_properties flat_response
  verify_uuid_received_properties-Matches rows context ne kept =
      rw (attribute-set (λ c. c.response_data) context (dict d) kept) (rows-Matches rows ne)
