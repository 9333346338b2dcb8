-- ===== src/Agent/Codec/RoundTrip.antt =====
-- test_agent/python/testagent.py and test_manager/features/steps/tck_step_implementations.py: bytes
-- on their way from a scenario's table into a message of the agent.
use up_tck.Base.{String, ◌≡◌, refl, ap, true, false, string_eq}
use up_tck.Base.Text
use up_tck.Base.Text.{append, contains_text, starts_with, remove_all}
use up_tck.Base.Exec.{Result, ok}
use up_tck.Json.{ℤ, Json, str}
use up_tck.Steps.Cast
use up_tck.Steps.Cast.{Enum, cast}
use up_tck.Agent.Codec.{unmark, bytes}

-- A cell of type "bytes" that names no enum and does not hold the mark itself reaches the agent as
-- the marked text, and the agent makes the bytes of the cell of it.
pub unmark-cast :
    {Float : Type 0} (member : Enum → String → Result ℤ) (to_int : Json → Result ℤ)
    (to_float : Json → Result Float) (value : String)
    → contains_text "UPriority" value ≡ false
    → contains_text "UMessageType" value ≡ false
    → contains_text "UCode" value ≡ false
    → contains_text "BYTES:" value ≡ false
    → (sent : String) × (cast member to_int to_float value "bytes" true ≡ ok (Cast.json (str sent)))
      × (unmark (str sent) ≡ bytes value)
unfolding cast unmark string_eq
unmark-cast member to_int to_float value p m c b = (
  append "BYTES:" value,
  rw (p, m, c) refl,
  rw (Text.contains_text-mark value) (ap bytes (Text.remove_all-mark value b)),
)
