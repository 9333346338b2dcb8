-- ===== src/Agent/Validation.antt =====
-- test_agent/python/testagent.py: the requests to validate a URI, a UUID or the attributes of a
-- message. Which validator is asked is the agent's; what it answers is the uProtocol library's.
pub mod Checks
use up_tck.Base.{String, Bool, true, false, Option, none, some, ◌==◌, string_eq, if◌then◌else◌}
use up_tck.Base.Exec.{Result, ok, raise, type_error, attribute_error, unbound_local_error, ◌>>=?◌}
use up_tck.Json.{Json, null, str, list, dict, field, end, subscript, get_method, is_str, truth}
use up_tck.Agent.Codec.{Reflection, dict_to_proto}

-- What a validator gives: a Boolean, a result with its message, or another object with its text.
pub data Verdict : Type 0 where
  flag : Bool → Verdict
  validation : Bool → String → Verdict
  other : String → Verdict

-- `str` of a Boolean.
unfoldable pub py_str : Bool → String
py_str true = "True"
py_str false = "False"

-- `{"result": result, "message": message}`
unfoldable pub verdict : String → String → Json
verdict result message = dict (field "result" (str result) (field "message" (str message) end))

pub data UriCheck : Type 0 where
  validate validate_rpc_response validate_rpc_method is_empty : UriCheck
  is_resolved is_micro_form is_long_form : UriCheck

unfoldable pub uri_check : String → Option UriCheck
uri_check t =
    if t == "uri"
    then some validate
    else if t == "rpc_response"
    then some validate_rpc_response
    else if t == "rpc_method"
    then some validate_rpc_method
    else if t == "is_empty"
    then some is_empty
    else if t == "is_resolved"
    then some is_resolved
    else if t == "is_micro_form"
    then some is_micro_form
    else if t == "is_long_form"
    then some is_long_form
    else none

-- `.get(key)` of a dict of the code whose keys are texts.
unfoldable pub look_up : {A : Type 0} → (String → A) → A → Json → Result A
look_up f default (str s) = ok (f s)
look_up f default (list items) = raise type_error
look_up f default (dict fields) = raise type_error
look_up f default _ = ok default

-- The lookup of a key in a dict hashes it, whether or not it is there.
unfoldable pub hashable : Json → Result {0} Unit
hashable (list items) = raise type_error
hashable (dict fields) = raise type_error
hashable _ = ok tt

-- What `get` gives: `None` for a key that is missing.
unfoldable pub or_null : Option Json → Json
or_null none = null
or_null (some value) = value

pub data UuidKind : Type 0 where
  uprotocol invalid uprotocol_time uuidv6 uuidv4 : UuidKind

unfoldable pub uuid_kind : String → Option UuidKind
uuid_kind t =
    if t == "uprotocol"
    then some uprotocol
    else if t == "invalid"
    then some invalid
    else if t == "uprotocol_time"
    then some uprotocol_time
    else if t == "uuidv6"
    then some uuidv6
    else if t == "uuidv4"
    then some uuidv4
    else none

-- The four entries of the dict of states; the first two and the third give a `UStatus`, as
-- `validation`, of which the Boolean is `status.code == UCode.OK`.
pub data UuidCheck : Type 0 where
  get_validator validator_uprotocol validator_uuidv6 is_uuidv6 : UuidCheck

unfoldable pub uuid_check : String → Option UuidCheck
uuid_check t =
    if t == "get_validator"
    then some get_validator
    else if t == "uprotocol"
    then some validator_uprotocol
    else if t == "uuidv6"
    then some validator_uuidv6
    else if t == "get_validator_is_uuidv6"
    then some is_uuidv6
    else none

-- The validators of attributes, and the methods that are asked for by name.
pub data AttributesValidator : Type 0 where
  publish request response notification : AttributesValidator

pub data AttributesCheck : Type 0 where
  validate_all is_expired validate_ttl validate_sink validate_req_id : AttributesCheck
  validate_id validate_permission_level validate_type : AttributesCheck

unfoldable pub attributes_validator : String → Option AttributesValidator
attributes_validator t =
    if t == "publish_validator"
    then some publish
    else if t == "request_validator"
    then some request
    else if t == "response_validator"
    then some response
    else if t == "notification_validator"
    then some notification
    else none

unfoldable pub common_check : AttributesCheck → String → AttributesCheck
common_check rest t =
    if t == "is_expired"
    then is_expired
    else if t == "validate_ttl"
    then validate_ttl
    else if t == "validate_sink"
    then validate_sink
    else if t == "validate_req_id"
    then validate_req_id
    else if t == "validate_id"
    then validate_id
    else rest

-- `validate` where the validator has no method of that name in its dict.
unfoldable pub attributes_check : AttributesValidator → String → AttributesCheck
unfolding common_check
attributes_check publish t =
    common_check
      (if t == "validate_permission_level" then validate_permission_level else validate_all) t
attributes_check notification t =
    common_check (if t == "validate_type" then validate_type else validate_all) t
attributes_check _ t = common_check validate_all t

unfoldable pub uri_result : Verdict → Result Json
unfolding py_str verdict
uri_result (flag b) = ok (verdict (py_str b) "")
uri_result (validation b message) = ok (verdict (py_str b) message)
uri_result (other text) = raise attribute_error

unfoldable pub uuid_result : Option Verdict → Result Json
unfolding py_str verdict
uuid_result (some (flag b)) = ok (verdict (py_str b) "")
uuid_result (some (validation b message)) = ok (verdict (if b then "True" else "False") message)
uuid_result _ = raise attribute_error

unfoldable pub attributes_result : Verdict → Json
unfolding py_str verdict
attributes_result (flag b) = verdict (py_str b) ""
attributes_result (validation b message) = verdict (py_str b) message
attributes_result (other text) = verdict "" text
