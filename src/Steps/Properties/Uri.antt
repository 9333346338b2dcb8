-- ===== src/Steps/Properties/Uri.antt =====
-- test_manager/features/steps/tck_step_implementations.py: which responses the step accepts that compares a URI with
-- the rows of a table.
use up_tck.Base.{
  String, ◌≡◌, ◌≢◌, ◌↔◌, refl, sym, ap, ◌∙◌, Bool, false, some, List, [], ◌∷◌, map, All, contains,
  IsSetList, string_eq, arith, dec_eq, Option-cases, inl, inr,
}
use up_tck.Base.Dict.{Dict, lookup}
use up_tck.Base.Exec.{bind-inv, Result, ok, raise, ◌>>=?◌}
use up_tck.Json.{Json, boolean, dict, Fields}
use up_tck.Manager.Database.{found}
use up_tck.Steps.Cast.{Casted, json}
use up_tck.Steps.Context.{Context, Library, attribute-set}
use up_tck.Steps.Leaves.{IsTidy}
use up_tck.Steps.Properties.Flat.{reads, kept, flat, lookup-flat}
use up_tck.Steps.Properties.Values.{
  asked, shown, changed, changed-other, verify_value-filled, verify_value-blank,
}
use up_tck.Steps.Properties.{
  Row, has_length, verify_value, verify_rows, flat_response, verify_uri_received_properties,
}

-- `assert_that(a, equal_to(b))`, where `same` says when Python's `==` holds.
pub record ComparesAll {Float : Type 0} (l : Library Float)
    (same : Casted Float → Casted Float → Type 0) : Type 0 where
  pub accepts : (a b : Casted Float) → (l.assert_equal a b ≡ ok tt) ↔ same a b
  pub booleans : (a b : Bool) → same (json (boolean a)) (json (boolean b)) ↔ (a ≡ b)

module _ {Float : Type 0} (l : Library Float) (same : Casted Float → Casted Float → Type 0) where
  -- A row asks for a field that is there: an empty one, if it has no value, else one with an equal value.
  pub data Accepts (d : Fields) (row : Row) : Type 0 where
    blank :
        (v : Json)
        → row.row_value ≡ ""
        → reads d row.row_field ≡ some v
        → has_length {Float = Float} (json v) ≡ ok false
        → Accepts d row
    filled :
        (v : Json) (a : Casted Float)
        → row.row_value ≢ ""
        → reads d row.row_field ≡ some v
        → asked l row ≡ ok a
        → same (shown l row v) a
        → Accepts d row

module _ {Float : Type 0} (l : Library Float) (same : Casted Float → Casted Float → Type 0)
    (c : ComparesAll l same) (response : Fields) where
  -- The dict still has under the row's field what the response holds there.
  abbrev Holds : Dict String (Casted Float) → Row → Type 0
  Holds d row = lookup row.row_field d ≡ kept (reads response row.row_field)

  -- The dict behind a row is the same for the other fields.
  abbrev Behind : Row → Dict String (Casted Float) → Dict String (Casted Float) → Type 0
  Behind row d d' = (key : String) → key ≢ row.row_field → lookup key d' ≡ lookup key d

  -- A row of the loop and what comes after it.
  abbrev row_then :
      Row
      → Dict String (Casted Float)
      → (Dict String (Casted Float) → Result {0} Unit)
      → Result {0} Unit
  row_then row d rest = found (lookup row.row_field d) >>=? λ actual.
      verify_value l row.row_field row.row_value actual d >>=? rest

  blank-inv :
      (r : Result Bool) (d d' : Dict String (Casted Float))
      → (r >>=? λ filled.
          l.assert_equal (json (boolean filled)) (json (boolean false)) >>=? λ _. ok d)
        ≡ ok d'
      → (r ≡ ok false) × (d ≡ d')
  blank-inv (raise x) d d' e = cc e
  blank-inv (ok b) d d' e =
      let (a, passed, same_d) =
        bind-inv (l.assert_equal (json (boolean b)) (json (boolean false))) (λ _. ok d) d' e in
      (
        ap ok (
            (c.booleans b false).0
              ((c.accepts (json (boolean b)) (json (boolean false))).0 passed)),
        cc same_d,
      )

  filled-inv :
      (r : Result (Casted Float)) (s : Casted Float) (d d' : Dict String (Casted Float))
      → (r >>=? λ a. l.assert_equal s a >>=? λ _. ok d) ≡ ok d'
      → (a : Casted Float) × (r ≡ ok a) × same s a × (d ≡ d')
  filled-inv (raise x) s d d' e = cc e
  filled-inv (ok a) s d d' e =
      let (x, passed, same_d) = bind-inv (l.assert_equal s a) (λ _. ok d) d' e in
      (a, refl, (c.accepts s a).0 passed, cc same_d)

  verified-Accepts :
      (row : Row) (v : Json) (d d' : Dict String (Casted Float))
      → reads response row.row_field ≡ some v
      → lookup row.row_field d ≡ some (json v)
      → verify_value l row.row_field row.row_value (json v) d ≡ ok d'
      → Accepts l same response row × Behind row d d'
  verified-Accepts row v d d' there h verified = elim (dec_eq row.row_value "") [
    | yes is_blank ↦
        let (empty, e) =
          blank-inv (has_length (json v)) d d'
            (sym (verify_value-blank l row v d is_blank) ∙ verified) in
        (blank v is_blank there empty, λ key ne. ap (λ x. lookup key x) (sym e))
    | no is_filled ↦
        let (a, wants, equal, e) =
          filled-inv (asked l row) (shown l row v) (changed l row v d) d'
            (sym (verify_value-filled l row v d is_filled h) ∙ verified) in
        (
          filled v a is_filled there wants equal,
          λ key ne. ap (λ x. lookup key x) (sym e) ∙ changed-other l row v d key ne,
        )
  ]

  row-Accepts :
      (row : Row) (d : Dict String (Casted Float))
      (rest : Dict String (Casted Float) → Result {0} Unit)
      → Holds d row
      → row_then row d rest ≡ ok tt
      → (d' : Dict String (Casted Float)) × Accepts l same response row
        × Behind row d d'
        × (rest d' ≡ ok tt)
  row-Accepts row d rest holds e = elim (Option-cases (reads response row.row_field)) [
    | inl missing ↦ cc (rw (holds ∙ ap kept missing) at e)
    | inr (v, there) ↦
        let h = holds ∙ ap kept there in
        let (d', verified, after) =
          bind-inv (verify_value l row.row_field row.row_value (json v) d) rest tt (rw h at e) in
        let (accepts, behind) = verified-Accepts row v d d' there h verified in
        (d', accepts, behind, after)
  ]

  Accepts-verified :
      (row : Row) (d : Dict String (Casted Float))
      → Holds d row
      → Accepts l same response row
      → (v : Json) × (d' : Dict String (Casted Float)) × (lookup row.row_field d ≡ some (json v))
        × (verify_value l row.row_field row.row_value (json v) d ≡ ok d')
        × Behind row d d'
  Accepts-verified row d holds (blank v is_blank there empty) =
      let passed =
        (c.accepts (json (boolean false)) (json (boolean false))).1
          ((c.booleans false false).1 refl) in
      (
        v,
        d,
        holds ∙ ap kept there,
        verify_value-blank l row v d is_blank ∙ rw empty (rw passed refl),
        λ key ne. refl,
      )
  Accepts-verified row d holds (filled v a is_filled there wants equal) =
      let h = holds ∙ ap kept there in
      (
        v,
        changed l row v d,
        h,
        verify_value-filled l row v d is_filled h
            ∙ rw wants (rw ((c.accepts (shown l row v) a).1 equal) refl),
        changed-other l row v d,
      )

  abbrev pub fields : List Row → List String
  fields rows = map (λ row. row.row_field) rows

  -- What holds for rows of other fields holds behind a row.
  Holds-Behind :
      (row : Row) (rows : List Row) (d d' : Dict String (Casted Float))
      → contains row.row_field (fields rows) ≡ false
      → Behind row d d'
      → All (Holds d) rows
      → All (Holds d') rows
  unfolding contains
  Holds-Behind row [] d d' new behind h = tt
  Holds-Behind row (other ∷ rows) d d' new behind (h, hs) = (
    behind other.row_field (λ e. ground (arith, new, e)) ∙ h,
    Holds-Behind row rows d d' (ground (arith, new)) behind hs,
  )

  rows-Accepts :
      (rows : List Row) (d : Dict String (Casted Float))
      → IsSetList (fields rows)
      → All (Holds d) rows
      → (verify_rows l rows d ≡ ok tt) ↔ All (Accepts l same response) rows
  unfolding verify_rows
  rows-Accepts [] d apart holds = (λ e. tt, λ a. refl)
  rows-Accepts (row ∷ rows) d (new, apart) (h, hs) = (
    λ e.
        let (d', accepts, behind, after) = row-Accepts row d (verify_rows l rows) h e in
        (accepts, (rows-Accepts rows d' apart (Holds-Behind row rows d d' new behind hs)).0 after),
    λ (accepts, others).
        let (v, d', there, verified, behind) = Accepts-verified row d h accepts in
        rw there (
          rw verified
            ((rows-Accepts rows d' apart (Holds-Behind row rows d d' new behind hs)).1 others)),
  )

  module _ (tidy : IsTidy response) where
    flat-Holds :
        (rows : List Row)
        → All (λ row. row.row_field ≢ "") rows
        → All (Holds (flat response tidy)) rows
    flat-Holds [] ne = tt
    flat-Holds (row ∷ rows) (ne, nes) =
        (lookup-flat response tidy row.row_field ne, flat-Holds rows nes)

    -- The response is nested dicts whose keys are not empty, have no dot and are distinct, and the rows name
    -- different fields, none of them empty: the step ends without an exception exactly if it accepts
    -- every row. It accepts a row for which `access_nested_dict` finds a value with its field: an
    -- empty one, if the row has no value, else one that equals the row's, as a number, as bytes or as a
    -- text by the name of the field.
    pub verify_uri_received_properties-Accepts :
        (rows : List Row) (context : Context)
        → All (λ row. row.row_field ≢ "") rows
        → IsSetList (fields rows)
        → context.response_data ≡ some (dict response)
        → ((verify_uri_received_properties l rows context).0 ≡ ok tt)
          ↔ All (Accepts l same response) rows
    unfolding verify_uri_received_properties flat_response
    verify_uri_received_properties-Accepts rows context ne apart is_kept =
        rw (attribute-set (λ c. c.response_data) context (dict response) is_kept)
          (rows-Accepts rows (flat response tidy) apart (flat-Holds rows ne))
