-- ===== src/Steps/Properties.antt =====
-- test_manager/features/steps/tck_step_implementations.py: the steps that compare a response with the
-- rows of a table.
pub mod Flat
pub mod Uuid
pub mod Values
pub mod Uri
use up_tck.Base.{
  ℕ, String, Bool, true, false, not, Option, none, some, List, [], ◌∷◌, ◌==◌, string_eq,
  if◌then◌else◌,
}
use up_tck.Base
use up_tck.Base.Dict.{Dict, lookup, insert, has_key}
use up_tck.Base.Exec.{
  Exec, attribute_error, type_error, Result, ok, raise, pure, lift, ◌>>=◌, ◌>>=?◌, ◌>>◌,
}
use up_tck.Json.{Json, boolean, int, str, list, dict, nil, cons, Fields, end, field}
use up_tck.Manager.Database.{found}
use up_tck.Steps.{flatten_dict, access_nested_dict}
use up_tck.Steps.Cast.{Casted, json, bytes, cast}
use up_tck.Steps.Context.{Context, Library, attribute}

-- A row of a table that names fields and expected values.
pub record Row : Type 0 where
  pub row_field : String
  pub row_value : String

-- A row of a table that gives types too.
pub record TypedRow : Type 0 where
  pub protobuf_field_names : String
  pub protobuf_field_values : String
  pub protobuf_field_type : String

-- `v.encode()`
unfoldable pub encode_text : Json → Result String
encode_text (str s) = ok s
encode_text v = raise attribute_error

module _ {Float : Type 0} where
  -- `len(v) > 0`
  unfoldable pub has_length : Casted Float → Result Bool
  has_length (json (str s)) = ok (not (s == ""))
  has_length (json (list nil)) = ok false
  has_length (json (list (cons item items))) = ok true
  has_length (json (dict end)) = ok false
  has_length (json (dict (field k v d))) = ok true
  has_length (bytes s) = ok (not (s == ""))
  has_length v = raise type_error

  -- The values of a flattened response, some of which a check turns into bytes.
  unfoldable pub entries : Fields → Dict String (Casted Float)
  entries end = []
  entries (field k v d) = (k, json v) ∷ entries d

-- `flatten_dict(context.response_data)`
unfoldable pub flat_response : Json → Result Fields
unfolding flatten_dict
flat_response (dict d) = ok (flatten_dict d)
flat_response v = raise attribute_error

unfoldable pub is_int_field : String → Bool
is_int_field name =
    Base.contains name
      ("entity.id" ∷ "entity.version_major" ∷ "entity.version_minor" ∷ "resource.id" ∷ [])

unfoldable pub is_bytes_field : String → Bool
is_bytes_field name = Base.contains name ("authority.id" ∷ "authority.ip" ∷ [])

module _ {Float : Type 0} (l : Library Float) where
  -- A value of the right type to compare a cell of the table with, and the dict afterwards: a field
  -- of bytes is turned into bytes in it.
  unfoldable pub expected_field :
      String
      → String
      → Casted Float
      → Dict String (Casted Float)
      → Result (Casted Float × Dict String (Casted Float))
  unfolding is_int_field is_bytes_field insert
  expected_field name value actual d =
      if is_int_field name
      then (l.to_int (str value) >>=? λ n. ok (json (int n), d))
      else if is_bytes_field name
      then ok (bytes value, insert name (bytes (l.py_str actual)) d)
      else ok (json (str value), d)

  unfoldable pub verify_value :
      String
      → String
      → Casted Float
      → Dict String (Casted Float)
      → Result (Dict String (Casted Float))
  unfolding expected_field has_length lookup
  verify_value name value actual d =
      if value == ""
      then (has_length actual >>=? λ filled.
          l.assert_equal (json (boolean filled)) (json (boolean false)) >>=? λ _. ok d)
      else (expected_field name value actual d >>=? λ (expected, d').
          found (lookup name d') >>=? λ now. l.assert_equal now expected >>=? λ _. ok d')

  -- The loop of `verify_uri_received_properties`.
  unfoldable pub verify_rows : List Row → Dict String (Casted Float) → Result {0} Unit
  unfolding verify_value lookup
  verify_rows [] d = ok tt
  verify_rows (row ∷ rows) d = found (lookup row.row_field d) >>=? λ actual.
      verify_value row.row_field row.row_value actual d >>=? λ d'. verify_rows rows d'

  unfoldable pub verify_uri_received_properties : List Row → Exec Context Unit
  unfolding attribute flat_response entries verify_rows
  verify_uri_received_properties rows = do
    response ← attribute (λ c. c.response_data)
    flat ← lift (flat_response response)
    lift (verify_rows rows (entries flat))

  -- A row of `verify_uuid_received_properties`.
  unfoldable pub verify_part : Row → Dict String (Casted Float) → Result {0} Unit
  unfolding has_key lookup
  verify_part row d =
      l.assert_equal (json (boolean (has_key row.row_field d)))
        (json (boolean (not (row.row_value == ""))))
      >>=? λ _.
          (if row.row_value == ""
            then ok tt
            else ((if Base.contains row.row_field ("msb" ∷ "lsb" ∷ [])
                  then (l.to_int (str row.row_value) >>=? λ n. ok (int n))
                  else ok (str row.row_value))
                >>=? λ expected. found (lookup row.row_field d) >>=? λ actual.
                    l.assert_equal actual (json expected)))

  unfoldable pub verify_parts : List Row → Dict String (Casted Float) → Result {0} Unit
  unfolding verify_part
  verify_parts [] d = ok tt
  verify_parts (row ∷ rows) d = verify_part row d >>=? λ _. verify_parts rows d

  unfoldable pub verify_uuid_received_properties : List Row → Exec Context Unit
  unfolding attribute flat_response entries verify_parts
  verify_uuid_received_properties rows = do
    response ← attribute (λ c. c.response_data)
    flat ← lift (flat_response response)
    lift (verify_parts rows (entries flat))

  -- A row of `generic_expected_and_actual_json_comparison`, from the cast cell on.
  unfoldable pub compare_row : TypedRow → Casted Float → Json → Result {0} Unit
  unfolding access_nested_dict encode_text
  compare_row row expected response =
      access_nested_dict response row.protobuf_field_names >>=? λ actual.
      (if row.protobuf_field_type == "bytes"
        then (encode_text actual >>=? λ s. ok (bytes s))
        else ok (json actual))
      >>=? λ now. l.assert_equal now expected

  unfoldable pub generic_expected_and_actual_json_comparison : List TypedRow → Exec Context Unit
  unfolding attribute compare_row cast
  generic_expected_and_actual_json_comparison [] = pure tt
  generic_expected_and_actual_json_comparison (row ∷ rows) = do
    expected ←
        lift (
          cast l.member l.to_int l.to_float row.protobuf_field_values row.protobuf_field_type false)
    response ← attribute (λ c. c.response_data)
    lift (compare_row row expected response)
    generic_expected_and_actual_json_comparison rows
