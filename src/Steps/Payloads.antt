-- ===== src/Steps/Payloads.antt =====
-- test_manager/features/steps/tck_step_implementations.py: the steps that compare the bytes of a
-- payload. Bytes are the text that they encode.
pub mod Returns
use up_tck.Base.{ℕ, String, Bool, false, Option, none, some, List, ◌==◌, string_eq, if◌then◌else◌}
use up_tck.Base.Text.{strip, is_space}
use up_tck.Base.Substrings.{split_on, replace, tail}
use up_tck.Base.Exec.{
  Exec, Exception, key_error, attribute_error, assertion_error, Result, ok, raise, pure, lift,
  ◌>>=◌, ◌>>=?◌, ◌>>◌,
}
use up_tck.Json.{Json, str, dict, Fields, subscript}
use up_tck.Manager.Database.{Address}
use up_tck.Manager.Server.{Bytes}
use up_tck.Manager.Server.Request.{Event, get_onreceive}
use up_tck.Steps.{access_nested_dict}
use up_tck.Steps.Cast.{second}
use up_tck.Steps.Context.{Context, Library, on_tm, attribute, reraise}

-- The methods of `str`, on a value.
unfoldable pub as_text : Json → Result String
as_text (str s) = ok s
as_text v = raise attribute_error

-- `s.replace('"', "").replace("\\", "").replace("x", "\\x")[1:]`
unfoldable pub unescape : String → String
unfolding replace tail
unescape s = tail (replace "x" "\\x" (replace "\\" "" (replace "\"" "" s)))

-- The value that the Rust agent prints behind the word "value".
unfoldable pub rust_value : Json → Result String
unfolding as_text split_on second replace strip tail
rust_value v = as_text v >>=? λ s. second (split_on "value" s) >>=? λ printed. ok (
    tail (
      strip is_space (
        replace "}" ""
          (replace "x" "\\x" (replace "\\" "" (replace ":" "" (replace "\"" "" printed)))))))

-- `received.split(b"googleapis.com/")[1] == expected.split(b"googleapis.com/")[1]`
unfoldable pub assert_same_type : String → String → Result {0} Unit
unfolding split_on second
assert_same_type received expected = second (split_on "googleapis.com/" received) >>=? λ a.
    second (split_on "googleapis.com/" expected) >>=? λ b.
    (if a == b then ok tt else raise assertion_error)

unfoldable pub set_rust_sender : Bool → Exec Context Unit
set_rust_sender b c = (ok tt, record c { rust_sender = some b })

-- What a field holds as a text, where `context.rust_sender` says how the sender wrote it and is
-- reset.
unfoldable pub sent_value : (String → Result String) → Json → Exec Context String
unfolding attribute set_rust_sender as_text
sent_value decode v = do
  from_rust ← attribute (λ c. c.rust_sender)
  if from_rust
      then (do set_rust_sender false; s ← lift (as_text v); lift (decode s))
      else lift (as_text v)

module _ (peername : ℕ → Option Address) (loads : Bytes → Option Json) where
  unfoldable pub received_value : String → String → Fields → Exec Context String
  unfolding subscript rust_value access_nested_dict sent_value unescape
  received_value sender field_name msg = do
    payload ← lift (subscript (dict msg) "data")
    if sender == "rust" then lift (subscript payload "data" >>=? rust_value) else (do
      v ← lift (access_nested_dict payload field_name)
      sent_value (λ s. ok (unescape s)) v)

  unfoldable pub compare_onreceive :
      String → String → String → Option Fields → Exec Context (Option Unit)
  unfolding received_value assert_same_type
  compare_onreceive sender field_name expected none = pure none
  compare_onreceive sender field_name expected (some msg) = do
    received ← received_value sender field_name msg
    lift (assert_same_type received expected)
    pure (some tt)

  -- The `try` of `receive_value_as_bytes`.
  unfoldable pub checked_wait : Exec Context (Option Unit) → Exec Context (Option Unit)
  unfolding reraise
  checked_wait m c = let (r, c') = m c in (elim r [ ok a ↦ ok a | raise e ↦ raise (reraise e) ], c')

  -- `receive_value_as_bytes`, while the listener handles the events of the schedule.
  unfoldable pub receive_value_as_bytes :
      List (List Event) → String → String → String → Exec Context (Option Unit)
  unfolding get_onreceive compare_onreceive checked_wait
  receive_value_as_bytes schedule sender field_name expected = checked_wait (do
    msg ← on_tm (get_onreceive peername loads sender schedule)
    compare_onreceive sender field_name (strip is_space expected) msg)

-- The handlers of `receive_rpc_response_as_bytes`, which let KeyError through too.
unfoldable pub reraise_key : Exception → Exception
unfolding reraise
reraise_key key_error = key_error
reraise_key e = reraise e

unfoldable pub checked_key : Exec Context Unit → Exec Context Unit
unfolding reraise_key
checked_key m c =
    let (r, c') = m c in (elim r [ ok a ↦ ok a | raise e ↦ raise (reraise_key e) ], c')

module _ {Float : Type 0} (l : Library Float) where
  unfoldable pub decode_rust : String → Result String
  unfolding unescape
  decode_rust s = l.b64decode s >>=? l.decode_utf8 >>=? λ decoded. ok (unescape decoded)

  unfoldable pub response_value : String → String → Json → Exec Context String
  unfolding subscript rust_value access_nested_dict sent_value decode_rust
  response_value sdk field_name response =
      if sdk == "rust"
      then lift (subscript response "data" >>=? rust_value)
      else (do v ← lift (access_nested_dict response field_name); sent_value decode_rust v)

  unfoldable pub receive_rpc_response_as_bytes : String → String → String → Exec Context Unit
  unfolding attribute response_value assert_same_type checked_key
  receive_rpc_response_as_bytes sdk field_name expected = checked_key (do
    response ← attribute (λ c. c.response_data)
    actual ← response_value sdk field_name response
    lift (assert_same_type (l.unicode_escape actual) expected))
