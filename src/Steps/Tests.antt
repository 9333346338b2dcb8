-- ===== src/Steps/Tests.antt =====
-- test_manager/features/steps/tck_step_implementations.py: runs on small inputs, and the theorems at
-- them.
pub mod Comparisons
use text.Mathlib.Text
use text.Mathlib.TextEquality.{eq_iff}
use up_tck.Base.{
  sym, String, ◌≡◌, ◌≢◌, ◌↔◌, All, refl, string_eq, nat_eq, ℕ, Bool, true, false, Option, none,
  some, List, [], ◌∷◌, ◌++◌, ◌==◌, eqb, if◌then◌else◌,
}
use up_tck.Base
use up_tck.Base.Text.{append, split, strip, is_space, lower, contains_text}
use up_tck.Base.Dict.{insert, lookup, erase, has_key}
use up_tck.Base.Exec.{ok, raise, Result, assertion_error, value_error}
use up_tck.Json.{pos, Json, null, boolean, str, int, dict, Fields, field, end, get, put}
use up_tck.Manager.Database.{Address, get_by_name}
use up_tck.Manager.Queue.Fifo.{waiting}
use up_tck.Manager.Server as ManagerServer
use up_tck.Manager.Server.{Bytes, Manager, normalize}
use up_tck.Manager.Server.Closing.{has_sdk_connection}
use up_tck.Manager.Server.Request.{receive, request_json}
use up_tck.Manager.Server.Request.Arrival.{quiet}
use up_tck.Steps.Cast.{Casted, json, cast}
use up_tck.Steps.Cast.Types.{HasType, cast-HasType}
use up_tck.Steps.Context.{Context, Library}
use up_tck.Steps.Properties.{Row, verify_uuid_received_properties}
use up_tck.Steps.Properties.{verify_uri_received_properties}
use up_tck.Steps.Properties.Uri.{ComparesAll, Accepts, verify_uri_received_properties-Accepts}
use up_tck.Steps.Properties.Uuid.{Compares, Matches, verify_uuid_received_properties-Matches}
use up_tck.Steps.Payloads.{receive_value_as_bytes}
use up_tck.Steps.Payloads.Returns.{receive_value_as_bytes-held_up}
use up_tck.Steps.Leaves.{IsTidy}
use up_tck.Steps.Leaves.Found.{get-flatten_dict}
use up_tck.Steps.Launch.{Machine, sdk_of, agent_path, is_unix, create_sdk_data}
use up_tck.Steps.Launch.Returns.{IsReady, create_sdk_data-returns}
use up_tck.Steps.Launch.Faults.{create_sdk_data-invalid_transport}
use up_tck.Steps.Sending.{Call, send_command_request}
use up_tck.Steps.Sending.Requests.{}
use up_tck.Steps.{update, new_key, unflatten_dict, flatten_dict, access_nested_dict}
use up_tck.Steps.Paths.{differ, under}
use up_tck.Steps.RoundTrip.{KeysApart, ApartFrom, Entry, access_nested_dict-unflatten}

abbrev flat : Fields
flat =
    field "authority.name" (str "vcu")
      (field "entity.name" (str "body") (field "entity.kind" (str "door") end))

abbrev nested : Fields
nested =
    field "authority" (dict (field "name" (str "vcu") end))
      (field "entity" (dict (field "name" (str "body") (field "kind" (str "door") end))) end)

program : Unit {0}
unfolding unflatten_dict flatten_dict string_eq split append get put update new_key contains_text
    strip is_space lower normalize insert lookup erase has_key has_sdk_connection sdk_of agent_path
    is_unix quiet Base.contains cast get_by_name waiting
program = tt

unflatten_run : unflatten_dict flat ≡ ok nested
unfolding program
unflatten_run = refl

flatten_run : flatten_dict nested ≡ flat
unfolding program
flatten_run = refl

authority-ne-entity : ◌≢◌ {A = String} "authority" "entity"
authority-ne-entity e = cc ((eq_iff "authority" "entity").1 e)

name-ne-kind : ◌≢◌ {A = String} "name" "kind"
name-ne-kind e = cc ((eq_iff "name" "kind").1 e)

flat-KeysApart : KeysApart flat
unfolding KeysApart ApartFrom split
flat-KeysApart = (
  (
    differ authority-ne-entity,
    differ (λ e. authority-ne-entity (sym e)),
    (differ authority-ne-entity, differ (λ e. authority-ne-entity (sym e)), tt),
  ),
  ((under (differ name-ne-kind), under (differ (λ e. name-ne-kind (sym e))), tt), (tt, tt)),
)

access_nested_dict-unflatten_example :
    (t : Fields) × (unflatten_dict flat ≡ ok t)
    × ((k : String) (v : Json) → Entry k v flat → k ≢ "" → access_nested_dict (dict t) k ≡ ok v)
access_nested_dict-unflatten_example = access_nested_dict-unflatten flat flat-KeysApart

-- The library as far as the runs below reach: there are no floats, and the parsers are those of a
-- machine that knows one number.
abbrev pub library : Library Unit
library = record {
  member = λ e name. ok (pos 1);
  to_int = λ v. ok (pos 7);
  to_float = λ v. raise value_error;
  float_json = λ x. null;
  assert_equal = λ a b. ok tt;
  py_str = λ v. "";
  b64decode = λ s. ok s;
  decode_utf8 = λ s. ok s;
  unicode_escape = λ s. s;
}

cast-HasType_example : HasType {Float = Unit} "int" true (json (int (pos 7)))
unfolding program
cast-HasType_example =
    cast-HasType library.member library.to_int library.to_float "7" "int" true (json (int (pos 7)))
      refl

-- A Linux machine whose behave was started with the transport "socket".
abbrev machine : Machine
machine = record {
  platform = "linux";
  userdata = λ key. if key == "transport" then ok "socket" else ok "python";
  abspath = λ path. path;
  bind = none;
  popen = λ command. ok 40;
}

machine-IsReady : IsReady machine
unfolding program
machine-IsReady = record { known = refl; starts = λ command. (40, refl) }

abbrev pub peername : ℕ → Option Address
peername n = some ("127.0.0.1", n)

abbrev introduction_data : Fields
introduction_data = field "SDK_name" (str "python") end

abbrev introduction : Fields
introduction =
    field "action" (str "initialize")
      (field "test_id" (str "") (field "data" (dict introduction_data) end))

abbrev response : Fields
response = field "action" (str "send") (field "test_id" (str "id") (field "data" (str "done") end))

-- Byte 1 stands for the introduction, every other byte for the response.
abbrev loads : Bytes → Option Json
loads [] = none
loads (b ∷ bs) = if eqb b 1 then some (dict introduction) else some (dict response)

-- Behave's context after `before_all`, with a transport chosen.
abbrev context : Context
context = record {
  json_dict = none;
  response_data = none;
  ue = none;
  action = none;
  rust_sender = none;
  transport = some "socket";
  ues = [];
  dispatcher = [];
  tm = ManagerServer.init;
}

create_sdk_data-returns_example :
    let out =
      create_sdk_data peername loads library machine
        (quiet 2 ((receive 9 (ok (1 ∷ [])) ∷ []) ∷ []))
        "uE1"
        "send"
        none
        context in
    (out.0 ≡ ok (some tt))
    × (out.1.ue ≡ some "python")
    × (out.1.action ≡ some "send")
    × (out.1.json_dict ≡ some end)
unfolding program
create_sdk_data-returns_example =
    create_sdk_data-returns peername loads library 9 1 [] introduction introduction_data "python" ""
      ("127.0.0.1", 9) machine "/test_agent/python/testagent.py" "socket" "uE1" "send" 2 [] context
      refl refl refl refl refl refl machine-IsReady refl refl refl (refl, refl)

-- The Python agent is there.
abbrev pub started : Context
started = record context {
  transport = none;
  ues = ("python", 40 ∷ []) ∷ [];
  tm = record ManagerServer.init {
    database = record {
      address_to_name = (("127.0.0.1", 9), "python") ∷ [];
      name_to_address = ("python", 9) ∷ [];
      closed = [];
    };
    registered = 9 ∷ [];
  };
}

-- Behave was started with another transport.
abbrev mqtt : Machine
mqtt = record machine { userdata = λ key. ok "mqtt" }

mqtt-IsReady : IsReady mqtt
unfolding program
mqtt-IsReady = record { known = refl; starts = λ command. (40, refl) }

mqtt-ne-socket : ◌≢◌ {A = String} "mqtt" "socket"
mqtt-ne-socket e = cc ((eq_iff "mqtt" "socket").1 e)

mqtt-ne-zenoh : ◌≢◌ {A = String} "mqtt" "zenoh"
mqtt-ne-zenoh e = cc ((eq_iff "mqtt" "zenoh").1 e)

-- Behave's context after `before_all`.
abbrev fresh : Context
fresh = record context { transport = none }

create_sdk_data-invalid_transport_example :
    let first = create_sdk_data peername loads library mqtt [] "python" "send" none fresh in
    let second =
      create_sdk_data peername loads library mqtt (quiet 2 []) "python" "send" none first.1 in
    (process : ℕ) × (first.0 ≡ raise value_error)
    × (first.1.transport ≡ some "mqtt")
    × (first.1.ues ≡ [])
    × (mqtt.popen ("python3" ∷ "/test_agent/python/testagent.py" ∷ "--transport" ∷ "mqtt" ∷ [])
        ≡ ok process)
    × (second.0 ≡ ok none)
    × (second.1.ues ≡ ("python", process ∷ []) ∷ [])
    × (second.1.dispatcher ≡ [])
unfolding program
create_sdk_data-invalid_transport_example =
    create_sdk_data-invalid_transport peername loads library mqtt [] "python" "python"
      "/test_agent/python/testagent.py" "mqtt" "send" none none 2 fresh refl refl refl refl
      mqtt-ne-socket mqtt-ne-zenoh refl refl mqtt-IsReady

pub text-ne : (s t : String) → (Text.◌==◌ s t ≡ false) → s ≢ t
text-ne s t h e = cc (h, (eq_iff s t).1 e)

nested-IsTidy : IsTidy nested
unfolding IsTidy split get string_eq
nested-IsTidy = (
  text-ne _ _ refl,
  refl,
  refl,
  (text-ne _ _ refl, refl, refl, tt, tt),
  (
    text-ne _ _ refl,
    refl,
    refl,
    (text-ne _ _ refl, refl, refl, tt, (text-ne _ _ refl, refl, refl, tt, tt)),
    tt,
  ),
)

get-flatten_dict_example : get "entity.kind" (flatten_dict nested) ≡ some (str "door")
unfolding program access_nested_dict
get-flatten_dict_example = get-flatten_dict nested "entity.kind" nested-IsTidy (text-ne _ _ refl)
