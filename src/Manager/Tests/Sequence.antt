-- ===== src/Manager/Tests/Sequence.antt =====
-- test_manager/testmanager.py: requests one after the other, at a small input.
use up_tck.Base.{
  ℕ, String, ◌≡◌, refl, Option, none, some, List, [], ◌∷◌, string_eq, nat_eq, pair_eq,
  if◌then◌else◌, eqb,
}
use up_tck.Base.Exec.{ok}
use up_tck.Json.{Json, null, dict}
use up_tck.Manager.Server.{Bytes}
use up_tck.Manager.Server.Request.{request_json}
use up_tck.Manager.Server.Request.Sequence.{Exchange, ask_all, ask_all-returns}
use up_tck.Manager.Server.Request.Undisturbed.{IsUndisturbed}
use up_tck.Manager.Tests.{peername, program, response, manager, send-ne-initialize}

-- Two requests with different test ids, whose responses start with 1 and with 2.
abbrev both : Bytes → Option Json
both [] = none
both (b ∷ bs) = some (dict (response "send" (if eqb b 1 then "\"id\"" else "\"other\"")))

abbrev exchange : ℕ → String → ℕ → Exchange
exchange b id polls = record {
  name = "Python";
  action = "send";
  id = id;
  payload = null;
  extra = none;
  agent = 1;
  polls = polls;
  from = 1;
  first_byte = b;
  bytes = [];
  response = response "send" id;
  later = [];
}

abbrev exchanges : List Exchange
exchanges = exchange 1 "\"id\"" 2 ∷ exchange 2 "\"other\"" 0 ∷ []

ask_all-returns_example :
    ((ask_all peername both exchanges manager).0
      ≡ ok (some (response "send" "id") ∷ some (response "send" "other") ∷ []))
    × ((ask_all peername both exchanges manager).1.sent
        ≡ (1, request_json "send" null none "id") ∷ (1, request_json "send" null none "other") ∷ [])
    × IsUndisturbed manager (ask_all peername both exchanges manager).1
unfolding program
ask_all-returns_example =
    ask_all-returns peername both exchanges manager
      (
        record {
          known = refl;
          loaded = refl;
          named = refl;
          other = send-ne-initialize;
          identified = refl;
        },
        (
          record {
            known = refl;
            loaded = refl;
            named = refl;
            other = send-ne-initialize;
            identified = refl;
          },
          tt,
        ),
      )
      (λ key. refl) (refl, refl)
