-- ===== src/Steps/Cast.antt =====
-- test_manager/features/steps/tck_step_implementations.py: `cast`, which turns a cell of a
-- scenario's table into a value. The members of the enums and the parsing of numbers are parameters.
pub mod Types
use up_tck.Base.{String, Bool, true, false, List, ◌∷◌, ◌==◌, string_eq, if◌then◌else◌}
use up_tck.Base.Text.{append, contains_text, split}
use up_tck.Base.Exec.{
  Result, ok, raise, index_error, type_error, attribute_error, value_error, ◌>>=?◌,
}
use up_tck.Json.{ℤ, Json, boolean, int, str, truth}

pub data Enum : Type 0 where
  priority message_type code : Enum

-- What `cast` gives; bytes are the encoding of a text.
pub data Casted (Float : Type 0) : Type 0 where
  json : Json → Casted Float
  bytes : String → Casted Float
  float : Float → Casted Float

-- `value.split(".")[1]`
unfoldable pub second : List String → Result String
second (first ∷ member ∷ rest) = ok member
second parts = raise index_error

-- `cast_data_to_jsonable_bytes`
unfoldable pub cast_data_to_jsonable_bytes : Json → Result Json
cast_data_to_jsonable_bytes (str s) = ok (str (append "BYTES:" s))
cast_data_to_jsonable_bytes v = raise type_error

-- `cast_data_to_bytes`
unfoldable pub cast_data_to_bytes : Json → Result String
cast_data_to_bytes (str s) = ok s
cast_data_to_bytes v = raise attribute_error

module _ {Float : Type 0} (member : Enum → String → Result ℤ) (to_int : Json → Result ℤ)
    (to_float : Json → Result Float) where
  unfoldable pub enum_member : Enum → String → Result Json
  unfolding second split
  enum_member e value =
      second (split "." value) >>=? λ name. member e name >>=? λ number. ok (int number)

  -- The first three tests of `cast`.
  unfoldable pub enum_value : String → Result Json
  unfolding enum_member contains_text
  enum_value value =
      if contains_text "UPriority" value
      then enum_member priority value
      else if contains_text "UMessageType" value
      then enum_member message_type value
      else if contains_text "UCode" value
      then enum_member code value
      else ok (str value)

  unfoldable pub cast_bytes : Json → Bool → Result (Casted Float)
  unfolding cast_data_to_jsonable_bytes cast_data_to_bytes
  cast_bytes v true = cast_data_to_jsonable_bytes v >>=? λ s. ok (json s)
  cast_bytes v false = cast_data_to_bytes v >>=? λ s. ok (bytes s)

  -- The tests of `data_type`.
  unfoldable pub cast_to : Json → String → Bool → Result (Casted Float)
  unfolding truth cast_bytes
  cast_to v data_type jsonable =
      if data_type == "int"
      then (to_int v >>=? λ n. ok (json (int n)))
      else if data_type == "str"
      then ok (json v)
      else if data_type == "bool"
      then ok (json (boolean (truth v)))
      else if data_type == "float"
      then (to_float v >>=? λ x. ok (float x))
      else if data_type == "bytes"
      then cast_bytes v jsonable
      else raise value_error

  -- `cast`
  unfoldable pub cast : String → String → Bool → Result (Casted Float)
  unfolding enum_value cast_to
  cast value data_type jsonable = enum_value value >>=? λ v. cast_to v data_type jsonable
