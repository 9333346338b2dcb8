-- ===== src/Agent/Validation/Checks.antt =====
-- test_agent/python/testagent.py: the handlers that validate, up to their replies. The validators of
-- the uProtocol library are parameters.
use up_tck.Base.{String, Option, none, some, ◌==◌, string_eq, if◌then◌else◌}
use up_tck.Base.Exec.{Result, ok, raise, unbound_local_error, ◌>>=?◌}
use up_tck.Json.{Json, subscript, get_method, is_str, truth}
use up_tck.Agent.Codec.{Reflection, dict_to_proto}
use up_tck.Agent.Validation.{
  Verdict, verdict, UriCheck, uri_check, look_up, hashable, or_null, UuidKind, uuid_kind, UuidCheck,
  uuid_check, AttributesValidator, AttributesCheck, attributes_validator, attributes_check,
  uri_result, uuid_result, attributes_result, other, get_validator, validator_uprotocol,
  validator_uuidv6, is_uuidv6, validate_all,
}

-- The messages of the uProtocol library and their validators. `uprotocol_id` and `uuidv6_id` are the
-- UUIDs that the factories give; `text` is `str` of a validator.
pub record Validators (M : Type 0) : Type 0 where
  pub u_uri : M
  pub u_attributes : M
  pub check_uri : UriCheck → M → Result Verdict
  pub make_uuid : UuidKind → M
  pub check_uuid : UuidCheck → Option M → Result Verdict
  pub uprotocol_id : M
  pub uuidv6_id : M
  pub sink_name : M → String
  pub copy_sink : M → M → M
  pub copy_id : M → M → M
  pub copy_reqid : M → M → M
  pub find_validator : M → Result String
  pub check_attributes : AttributesValidator → AttributesCheck → M → Result Verdict

module _ {M : Type 0} (r : Reflection M) (v : Validators M) where
  unfoldable pub run_uri_check : M → Option UriCheck → Result Json
  unfolding uri_result
  run_uri_check uuri (some check) = v.check_uri check uuri >>=? uri_result
  run_uri_check uuri none = ok (verdict "False" "Nonexistent UriValidator function")

  -- `handle_uri_validate_command`, up to its reply.
  unfoldable pub validate_uri_data : Json → Result Json
  unfolding uri_check look_up run_uri_check dict_to_proto
  validate_uri_data json_msg = subscript json_msg "data" >>=? λ payload.
      subscript payload "validation_type" >>=? λ val_type.
      subscript payload "uuri" >>=? λ uuri_data. dict_to_proto r uuri_data v.u_uri >>=? λ uuri.
      look_up uri_check none val_type >>=? run_uri_check uuri

  unfoldable pub make_uuid_of : Option UuidKind → Option M
  make_uuid_of none = none
  make_uuid_of (some kind) = some (v.make_uuid kind)

  -- The dict of states runs all four checks before one is looked up.
  unfoldable pub uuid_status : Option M → Json → Result (Option Verdict)
  unfolding uuid_check look_up
  uuid_status uuid validator_type = v.check_uuid get_validator uuid >>=? λ a.
      v.check_uuid validator_uprotocol uuid >>=? λ b. v.check_uuid validator_uuidv6 uuid >>=? λ c.
      v.check_uuid is_uuidv6 uuid >>=? λ d. look_up uuid_check none validator_type >>=? λ check.
      ok (elim check [
        | none ↦ none
        | some get_validator ↦ some a
        | some validator_uprotocol ↦ some b
        | some validator_uuidv6 ↦ some c
        | some is_uuidv6 ↦ some d
      ])

  -- `handle_uuid_validate_command`, up to its reply.
  unfoldable pub validate_uuid_data : Json → Result Json
  unfolding or_null uuid_kind make_uuid_of uuid_status uuid_result
  validate_uuid_data json_msg = subscript json_msg "data" >>=? λ payload.
      get_method payload "uuid_type" >>=? λ uuid_type.
      subscript payload "validator_type" >>=? λ validator_type.
      look_up uuid_kind none (or_null uuid_type) >>=? λ kind.
      uuid_status (make_uuid_of kind) validator_type >>=? uuid_result

  -- `data.get("attributes")` is there and is no empty value.
  unfoldable pub given_attributes : Json → Result M
  unfolding truth dict_to_proto
  given_attributes attributes =
      if truth attributes
      then (dict_to_proto r attributes v.u_attributes >>=? λ a.
          ok (if v.sink_name a == "default" then v.copy_sink v.u_uri a else a))
      else ok v.u_attributes

  unfoldable pub fresh_id : (M → M → M) → Json → M → M
  fresh_id copy kind a =
      if is_str "uprotocol" kind
      then copy v.uprotocol_id a
      else if is_str "uuid" kind
      then copy v.uuidv6_id a
      else a

  -- The test for "get_validator", which may leave `status` unset.
  unfoldable pub first_status : Json → M → Result (Option Verdict)
  first_status val_type a =
      if is_str "get_validator" val_type
      then (v.find_validator a >>=? λ text. ok (some (other text)))
      else ok none

  -- The test for a method, whose answer overrides the earlier one.
  unfoldable pub second_status :
      Option AttributesValidator → AttributesCheck → M → Option Verdict → Result Verdict
  second_status (some validator) check a earlier = v.check_attributes validator check a
  second_status none check a (some status) = ok status
  second_status none check a none = raise unbound_local_error

  unfoldable pub check_of : Option AttributesValidator → Json → Result AttributesCheck
  unfolding attributes_check look_up
  check_of none val_type = ok validate_all
  check_of (some validator) val_type = look_up (attributes_check validator) validate_all val_type

  -- `handle_uattributes_validate_command`, up to its reply.
  unfoldable pub validate_attributes_data : Json → Result Json
  unfolding hashable or_null given_attributes fresh_id first_status second_status check_of
      attributes_validator attributes_result
  validate_attributes_data json_msg = subscript json_msg "data" >>=? λ payload.
      get_method payload "validation_method" >>=? λ val_method.
      get_method payload "validation_type" >>=? λ val_type.
      get_method payload "attributes" >>=? λ attributes. get_method payload "id" >>=? λ id.
      get_method payload "reqid" >>=? λ reqid. given_attributes (or_null attributes) >>=? λ given.
      let a = fresh_id v.copy_reqid (or_null reqid) (fresh_id v.copy_id (or_null id) given) in
      hashable (or_null val_type) >>=? λ _.
      look_up attributes_validator none (or_null val_method) >>=? λ validator.
      check_of validator (or_null val_type) >>=? λ check.
      first_status (or_null val_type) a >>=? second_status validator check a >>=? λ status.
      ok (attributes_result status)
