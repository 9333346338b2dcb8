-- ===== src/Steps/Received.antt =====
-- test_manager/features/steps/tck_step_implementations.py: the steps that compare a response with what
-- the scenario expects.
use up_tck.Base.{String, ◌==◌, string_eq, if◌then◌else◌}
use up_tck.Base.Text.{strip, is_space}
use up_tck.Base.Substrings.{is_below}
use up_tck.Base.Exec.{Exec, attribute_error, value_error, Result, ok, raise, pure, lift, ◌>>=◌}
use up_tck.Json.{Json, int, str, subscript}
use up_tck.Steps.Cast.{code, json, bytes}
use up_tck.Steps.Context.{Context, Library, attribute, checked}
use up_tck.Steps.Sending.{base64_str_to_bytes, or_empty}

-- `s.encode("iso-8859-1")` of a value, as the text that the bytes stand for.
unfoldable pub encode_latin : Json → Result String
unfolding is_below
encode_latin (str s) = if is_below 256 s then ok s else raise value_error
encode_latin v = raise attribute_error

module _ {Float : Type 0} (l : Library Float) where
  -- `assert_that(expected, equal_to(actual))` for two JSON values.
  unfoldable pub assert_json : Json → Json → Result {0} Unit
  assert_json expected actual = l.assert_equal (json expected) (json actual)

  unfoldable pub serialized_uri_received : String → Exec Context Unit
  unfolding attribute checked assert_json
  serialized_uri_received expected_uri = checked (do
    actual_uri ← attribute (λ c. c.response_data)
    lift (assert_json (str expected_uri) actual_uri))

  unfoldable pub serialized_uuid_received : String → Exec Context Unit
  unfolding attribute checked assert_json
  serialized_uuid_received expected_uuid = checked (do
    actual_uuid ← attribute (λ c. c.response_data)
    lift (assert_json (str expected_uuid) actual_uuid))

  -- The `try` of the two steps `receive_validation_result`.
  unfoldable pub receive_stripped : String → String → Exec Context Unit
  unfolding attribute checked assert_json subscript
  receive_stripped key expected = checked (do
    response ← attribute (λ c. c.response_data)
    actual ← lift (subscript response key)
    lift (assert_json (str (strip is_space expected)) actual))

  unfoldable pub receive_validation_result : String → Exec Context Unit
  unfolding receive_stripped
  receive_validation_result expected =
      if expected == "none" then pure tt else receive_stripped "result" expected

  unfoldable pub receive_validation_message : String → Exec Context Unit
  unfolding receive_stripped
  receive_validation_message expected = receive_stripped "message" expected

  unfoldable pub receive_status : String → String → Exec Context Unit
  unfolding attribute checked assert_json subscript
  receive_status field_name expected = checked (do
    response ← attribute (λ c. c.response_data)
    actual ← lift (subscript response field_name)
    expected_code ← lift (l.member code expected)
    actual_code ← lift (l.to_int actual)
    lift (assert_json (int expected_code) (int actual_code)))

  unfoldable pub receive_micro_serialized_uuri : String → Exec Context Unit
  unfolding attribute checked base64_str_to_bytes or_empty encode_latin
  receive_micro_serialized_uuri input = do
    expected ← lift (base64_str_to_bytes l (or_empty input))
    checked (do
      response ← attribute (λ c. c.response_data)
      actual ← lift (encode_latin response)
      lift (l.assert_equal (bytes expected) (bytes actual)))
