-- ===== src/Steps/Tests/Comparisons.antt =====
-- test_manager/features/steps/tck_step_implementations.py: the steps that compare, at small inputs.

use up_tck.Base.{
  ◌≡◌, ◌↔◌, All, refl, string_eq, nat_eq, Bool, true, false, none, some, List, [], ◌∷◌, ◌==◌,
  if◌then◌else◌,
}
use up_tck.Base.Exec.{ok, raise, Result, assertion_error}
use up_tck.Json.{Json, boolean, str, dict, Fields, field, end}
use up_tck.Manager.Server.Request.{receive}
use up_tck.Steps.Cast.{Casted, json}
use up_tck.Steps.Context.{Context, Library}
use up_tck.Steps.Properties.{Row, verify_uuid_received_properties}
use up_tck.Steps.Properties.{verify_uri_received_properties}
use up_tck.Steps.Properties.Uri.{ComparesAll, Accepts, verify_uri_received_properties-Accepts}
use up_tck.Steps.Properties.Uuid.{Compares, Matches, verify_uuid_received_properties-Matches}
use up_tck.Steps.Payloads.{receive_value_as_bytes}
use up_tck.Steps.Payloads.Returns.{receive_value_as_bytes-held_up}
use up_tck.Steps.Tests.{
  library, context, started, peername, loads, nested, nested-IsTidy, text-ne, program,
}

-- `assert_that` and `equal_to` on truth values and texts.
abbrev assert_equal : Casted (Unit {0}) → Casted (Unit {0}) → Result {0} (Unit {0})
assert_equal (json (boolean true)) (json (boolean true)) = ok tt
assert_equal (json (boolean false)) (json (boolean false)) = ok tt
assert_equal (json (str a)) (json (str b)) = if a == b then ok tt else raise assertion_error
assert_equal a b = raise assertion_error

abbrev pub asserting : Library (Unit {0})
asserting = record library { assert_equal = assert_equal }

abbrev AreEqual : Json → Json → Type 0
AreEqual a b = assert_equal (json a) (json b) ≡ ok tt

booleans-AreEqual : (a b : Bool) → AreEqual (boolean a) (boolean b) ↔ (a ≡ b)
booleans-AreEqual true true = (λ h. refl, λ h. refl)
booleans-AreEqual false false = (λ h. refl, λ h. refl)
booleans-AreEqual true false = (λ h. cc h, λ h. cc h)
booleans-AreEqual false true = (λ h. cc h, λ h. cc h)

asserting-Compares : Compares asserting AreEqual
asserting-Compares = record { accepts = λ a b. (λ h. h, λ h. h); booleans = booleans-AreEqual }

-- The response has a kind and no number.
abbrev rows : List Row
rows =
    record { row_field = "entity.kind"; row_value = "door" }
    ∷ record { row_field = "entity.id"; row_value = "" }
    ∷ []

verify_uuid_received_properties-Matches_example :
    ((verify_uuid_received_properties asserting rows
        (record context { response_data = some (dict nested) })).0
      ≡ ok tt)
    ↔ All (Matches asserting AreEqual nested) rows
verify_uuid_received_properties-Matches_example =
    verify_uuid_received_properties-Matches asserting AreEqual asserting-Compares nested
      nested-IsTidy rows (record context { response_data = some (dict nested) })
      (text-ne _ _ refl, (text-ne _ _ refl, tt)) refl

-- What the Java agent heard waits first.
abbrev heard_in_java : Fields
heard_in_java = field "action" (str "onreceive") (field "ue" (str "java") end)

abbrev held_up : Context
held_up = record started {
  tm = record started.tm { queues = ("onreceive", heard_in_java ∷ []) ∷ [] };
}

receive_value_as_bytes-held_up_example :
    (receive_value_as_bytes peername loads
      ([] ∷ (receive 9 (ok (2 ∷ [])) ∷ []) ∷ [])
      "python"
      "name"
      "type.googleapis.com/Int"
      held_up).0
    ≡ ok none
unfolding program
receive_value_as_bytes-held_up_example =
    receive_value_as_bytes-held_up peername loads "python" "name" "type.googleapis.com/Int"
      heard_in_java [] (str "java") ([] ∷ (receive 9 (ok (2 ∷ [])) ∷ []) ∷ []) held_up refl refl
      refl

abbrev pub Asserted : Casted (Unit {0}) → Casted (Unit {0}) → Type 0
Asserted a b = assert_equal a b ≡ ok tt

pub asserting-ComparesAll : ComparesAll asserting Asserted
asserting-ComparesAll = record { accepts = λ a b. (λ h. h, λ h. h); booleans = booleans-AreEqual }

-- A row that agrees with the response and one that does not.
abbrev uri_rows : List Row
uri_rows =
    record { row_field = "entity.kind"; row_value = "door" }
    ∷ record { row_field = "entity.name"; row_value = "lock" }
    ∷ []

verify_uri_received_properties-Accepts_example :
    ((verify_uri_received_properties asserting uri_rows
        (record context { response_data = some (dict nested) })).0
      ≡ ok tt)
    ↔ All (Accepts asserting Asserted nested) uri_rows
unfolding program
verify_uri_received_properties-Accepts_example =
    verify_uri_received_properties-Accepts asserting Asserted asserting-ComparesAll nested
      nested-IsTidy uri_rows (record context { response_data = some (dict nested) })
      (text-ne _ _ refl, (text-ne _ _ refl, tt)) (refl, (refl, tt)) refl
