-- ===== src/Manager/Server/Request/Onreceive.antt =====
-- test_manager/testmanager.py: `get_onreceive`, which waits for what an agent's listener received.
use text.Mathlib.TextEquality.{eq_iff}
use up_tck.Base.{ℕ, String, ◌≡◌, ◌≢◌, ◌∙◌, Option, some, List, [], ◌∷◌, eq_self, string_eq}
use up_tck.Base.Text.{strip, is_quote}
use up_tck.Base.Exec.{ok}
use up_tck.Json.{Json, str, dict, Fields, get, put, get-put_ne, ue-ne-test_id}
use up_tck.Manager.Database.{Address}
use up_tck.Manager.Queue.Fifo.{waiting}
use up_tck.Manager.Server.{Bytes, Manager}
use up_tck.Manager.Server.Request.{Event, receive, get_onreceive}
use up_tck.Manager.Server.Request.Arrival.{quiet, IsListening}
use up_tck.Manager.Server.Request.Undisturbed.{IsUndisturbed, await_response-IsUndisturbed}

onreceive-ne-initialize : ◌≢◌ {A = String} "onreceive" "initialize"
onreceive-ne-initialize e = cc ((eq_iff "onreceive" "initialize").1 e)

-- A message that the agent's listener received arrives after any number of polls, with no other
-- waiting: the call returns it, with the quotes around its test id taken off, and leaves the manager
-- as it was for the calls after it.
pub get_onreceive-returns :
    (peername : ℕ → Option Address) (loads : Bytes → Option Json) (s b : ℕ) (bs : Bytes)
    (msg : Fields) (name id : String) (n : ℕ) (rest : List (List Event)) (m : Manager)
    → loads (b ∷ bs) ≡ some (dict msg)
    → get "action" msg ≡ some (str "onreceive")
    → get "test_id" msg ≡ some (str id)
    → get "ue" msg ≡ some (str name)
    → waiting m.queues "onreceive" ≡ []
    → IsListening m
    → let out =
        get_onreceive peername loads name (quiet n ((receive s (ok (b ∷ bs)) ∷ []) ∷ rest)) m in
      (out.0 ≡ ok (some (put "test_id" (str (strip is_quote id)) msg))) × IsUndisturbed m out.1
unfolding get_onreceive
get_onreceive-returns peername loads s b bs msg name id n rest m loaded named identified from empty
      runs =
    await_response-IsUndisturbed peername loads s b bs msg loaded "onreceive" id named
      onreceive-ne-initialize identified "ue" name n rest m
      (
        str name,
        get-put_ne "ue" "test_id" (str (strip is_quote id)) msg ue-ne-test_id ∙ from,
        eq_self name,
      )
      empty runs
