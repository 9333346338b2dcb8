-- ===== src/Steps/Sending.antt =====
-- test_manager/features/steps/tck_step_implementations.py: the steps that send a request and keep the
-- data of its response. A step that has not returned by the end of the manager's schedule gives
-- `none`.
pub mod Requests
use up_tck.Base.{
  ℕ, String, Bool, true, false, Option, none, some, List, ◌==◌, string_eq, if◌then◌else◌,
}
use up_tck.Base.Substrings.{is_below}
use up_tck.Base.Exec.{
  Exec, Exception, key_error, assertion_error, value_error, Result, ok, raise, pure, throw, lift,
  ◌>>=◌, ◌>>=?◌, ◌>>◌,
}
use up_tck.Json.{Json, str, dict, Fields, get}
use up_tck.Manager.Database.{Address, found}
use up_tck.Manager.Server.{Bytes}
use up_tck.Manager.Server.Request.{Event, request}
use up_tck.Steps.{unflatten_dict}
use up_tck.Steps.Context.{Context, Library, on_tm, attribute, set_json_dict, set_response_data}

-- What one call of `context.tm.request` meets: the UUID that `uuid4` gives, what `sendall` raises,
-- and what the listener handles while the call waits.
pub record Call : Type 0 where
  pub test_id : String
  pub send_error : Option Exception
  pub schedule : List (List Event)

-- `context.response_data = response_json["data"]`
unfoldable pub keep_data : Option Fields → Exec Context (Option Unit)
unfolding set_response_data
keep_data none = pure none
keep_data (some response) = do
  v ← lift (found (get "data" response))
  set_response_data v
  pure (some tt)

-- The same behind the test that raises AssertionError.
unfoldable pub keep_present : Option Fields → Exec Context (Option Unit)
unfolding set_response_data
keep_present none = pure none
keep_present (some response) = elim (get "data" response) [
  | none ↦ throw assertion_error
  | some v ↦ set_response_data v >> pure (some tt)
]

-- `"" if … == "<empty>"`
unfoldable pub or_empty : String → String
or_empty s = if s == "<empty>" then "" else s

module _ {Float : Type 0} (l : Library Float) where
  -- `base64_str_to_bytes`
  unfoldable pub base64_str_to_bytes : String → Result String
  unfolding is_below
  base64_str_to_bytes s = if is_below 128 s then l.b64decode s else raise value_error

  module _ (peername : ℕ → Option Address) (loads : Bytes → Option Json) where
    unfoldable pub tm_request : Call → String → String → Json → Exec Context (Option Fields)
    unfolding request
    tm_request call ue action payload =
        on_tm
          (request peername loads ue action payload none call.test_id call.send_error call.schedule)

    unfoldable pub send_serialized_command : Call → String → String → Exec Context (Option Unit)
    unfolding attribute tm_request keep_present
    send_serialized_command call command serialized = do
      ue ← attribute (λ c. c.ue)
      action ← attribute (λ c. c.action)
      response ← tm_request call ue action (str serialized)
      keep_present response

    unfoldable pub send_command_request : Call → String → Exec Context (Option Unit)
    unfolding attribute set_json_dict tm_request keep_data unflatten_dict
    send_command_request call command = do
      flat ← attribute (λ c. c.json_dict)
      nested ← lift (unflatten_dict flat)
      set_json_dict nested
      ue ← attribute (λ c. c.ue)
      response ← tm_request call ue command (dict nested)
      keep_data response

    unfoldable pub send_micro_serialized_command :
        Call → String → String → Exec Context (Option Unit)
    unfolding attribute tm_request keep_data base64_str_to_bytes or_empty
    send_micro_serialized_command call command input = do
      micro ← lift (base64_str_to_bytes (or_empty input))
      ue ← attribute (λ c. c.ue)
      response ← tm_request call ue command (str micro)
      keep_data response
