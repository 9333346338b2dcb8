-- ===== src/Agent/Tests.antt =====
-- test_agent/python/testagent.py: runs on small inputs, and the theorems at them.
use up_tck.Base.{
  eqb, if◌then◌else◌, some, Option, ◌++◌, List, ℕ, suc, String, ◌≡◌, refl, true, none, [], ◌∷◌,
  string_eq,
}
use up_tck.Base.Text.{append, contains_text}
use up_tck.Base.Exec.{ok, raise, value_error}
use up_tck.Json.{pos, Json, str, dict, Fields, field, end, subscript, get, put}
use up_tck.Steps.Cast
use up_tck.Steps.Cast.{cast}
use up_tck.Agent.{UTransport, Agent, reply}
use up_tck.Agent.Codec.{Reflection, other_type, done, shown, scalar, json, bytes, unmark, convert}
use up_tck.Agent.Codec.RoundTrip.{unmark-cast}
use up_tck.Agent.Validation.{flag}
use up_tck.Agent.Validation.Checks.{Validators}
use up_tck.Agent.Handlers.{Library, process_message, handle_send, handle_long_serialize_uuri}
use up_tck.Agent.Handlers.Replies.{Replied}
use up_tck.Agent.Receive.{receive_from_tm}
use up_tck.Agent.Receive.Order.{Replies, receive_from_tm-Replies}
use up_tck.Agent.Handlers.Answers.{Unanswered, process_message-Replied}

-- A message is the text of its one field, "name".
abbrev pub reflection : Reflection String
reflection = record {
  has_attr = λ m name. true;
  get_attr = λ m name. m;
  with_attr = λ m name sub. sub;
  set_attr = λ m name v. elim v [ json j ↦ elim j [ str s ↦ ok s | _ ↦ ok m ] | bytes s ↦ ok s ];
  type_of = λ m name. other_type;
  to_int = λ v. ok v;
  to_float = λ v. ok v;
}

abbrev pub validators : Validators String
validators = record {
  u_uri = "";
  u_attributes = "";
  check_uri = λ check m. ok (flag true);
  make_uuid = λ kind. "id";
  check_uuid = λ check m. ok (flag true);
  uprotocol_id = "id";
  uuidv6_id = "id";
  sink_name = λ m. m;
  copy_sink = λ sink m. m;
  copy_id = λ id m. m;
  copy_reqid = λ id m. m;
  find_validator = λ m. ok "validator";
  check_attributes = λ validator check m. ok (flag true);
}

abbrev pub library : Library String
library = record {
  u_message = "";
  u_uri = "";
  u_payload = "";
  u_uuid = "";
  create_id = "id";
  copy_message_id = λ id m. m;
  view = λ m. shown "name" (scalar (str m)) done;
  long_serialize_uri = λ m. ok (append "/" m);
  long_deserialize_uri = λ j. ok "uri";
  long_serialize_uuid = λ m. ok m;
  long_deserialize_uuid = λ j. ok "id";
  micro_serialize_uri = λ m. ok m;
  micro_deserialize_uri = λ j. ok "uri";
}

-- The transport counts what is sent.
abbrev pub transport : UTransport ℕ String
transport = record {
  send = λ m n. (ok "OK", suc n);
  register_listener = λ m n. (ok "OK", n);
  unregister_listener = λ m n. (ok "OK", n);
  invoke_method = λ m p n. (ok 0, n);
}

abbrev pub agent : Agent ℕ
agent = record { transport = 0; sent = []; callbacks = [] }

abbrev serialize_request : Json
serialize_request = dict (
    field "data" (dict (field "name" (str "body.access") end))
      (field "action" (str "uri_serialize") (field "test_id" (str "7") end)))

abbrev send_request : Json
send_request = dict (
    field "data" (dict (field "name" (str "hello") end))
      (field "action" (str "send") (field "test_id" (str "7") end)))

program : Unit {0}
unfolding process_message string_eq reply append subscript get put handle_long_serialize_uuri
    handle_send convert unmark contains_text
program = tt

-- A request to serialize is answered by the text.
serialize_run :
    process_message reflection validators library transport (λ m. none) serialize_request agent
    ≡ (ok tt, record agent { sent = reply (str "/body.access") "uri_serialize" (str "7") ∷ [] })
unfolding program
serialize_run = refl

-- A request to send is answered by the status.
send_run :
    process_message reflection validators library transport (λ m. none) send_request agent ≡ (
      ok tt,
      record {
        transport = 1;
        sent = reply (dict (field "name" (str "OK") end)) "send" (str "7") ∷ [];
        callbacks = [];
      },
    )
unfolding program
send_run = refl

process_message-Replied_example :
    let out =
      process_message reflection validators library transport (λ m. none) serialize_request agent in
    Replied serialize_request "uri_serialize" (Unanswered "uri_serialize") agent out.0 out.1
unfolding program
process_message-Replied_example =
    process_message-Replied reflection validators library transport (λ m. none) serialize_request
      agent "uri_serialize" refl

abbrev pub sent_reply : Fields
sent_reply = reply (str "/body.access") "uri_serialize" (str "7")

-- A chunk that starts with 1 is the request, others decode to nothing.
abbrev loads : List ℕ → Option Json
loads chunk = elim chunk [ [] ↦ none | b ∷ bs ↦ if eqb b 1 then some serialize_request else none ]

receive_from_tm-Replies_example :
    (replies : List Fields) × Replies loads (ok (1 ∷ []) ∷ ok (2 ∷ []) ∷ []) replies
    × ((receive_from_tm reflection validators library transport
          (λ m. none)
          loads
          (ok (1 ∷ []) ∷ ok (2 ∷ []) ∷ [])
          agent).1.sent
        ≡ [] ++ replies)
receive_from_tm-Replies_example =
    receive_from_tm-Replies reflection validators library transport (λ m. none) loads
      (ok (1 ∷ []) ∷ ok (2 ∷ []) ∷ []) agent

unmark-cast_example :
    (sent : String) × (cast {Float = Unit {0}}
        (λ e name. ok (pos 1))
        (λ v. ok (pos 0))
        (λ v. raise value_error)
        "hi"
        "bytes"
        true
      ≡ ok (Cast.json (str sent)))
    × (unmark (str sent) ≡ bytes "hi")
unfolding contains_text
unmark-cast_example =
    unmark-cast (λ e name. ok (pos 1)) (λ v. ok (pos 0)) (λ v. raise value_error) "hi" refl refl
      refl refl
