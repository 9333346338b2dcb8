-- ===== src/Steps/Payloads/Returns.antt =====
-- test_manager/features/steps/tck_step_implementations.py: the step that waits for what an agent's listener
-- received, from its call to its return.
use up_tck.Base.{
  ℕ, String, ◌≡◌, refl, sym, ap, subst, ◌∙◌, Bool, true, false, Option, none, some, List, [], ◌∷◌,
  ◌==◌, string_eq, if◌then◌else◌,
}
use up_tck.Base.Text.{strip, is_space, is_quote}
use up_tck.Base.Substrings.{split_on}
use up_tck.Base.Exec.{assertion_error, Result, ok, raise, Exec, pure, lift, ◌>>=◌, ◌>>◌}
use up_tck.Json.{Json, str, dict, Fields, get, put, subscript, get-put_ne, data-ne-test_id, is_str}
use up_tck.Manager.Database.{Address}
use up_tck.Manager.Queue.Fifo.{waiting}
use up_tck.Manager.Server.{Bytes}
use up_tck.Manager.Server.Request.{Event, receive, get_onreceive}
use up_tck.Manager.Server.Request.Waiting.{get_onreceive-held_up}
use up_tck.Manager.Server.Request.Arrival.{quiet, IsListening}
use up_tck.Manager.Server.Request.Undisturbed.{IsUndisturbed}
use up_tck.Manager.Server.Request.Onreceive.{get_onreceive-returns}
use up_tck.Steps.{access_nested_dict}
use up_tck.Steps.Cast.{second}
use up_tck.Steps.Context.{Context, on_tm, attribute-set, reraise}
use up_tck.Steps.Payloads.{
  unescape, as_text, assert_same_type, sent_value, received_value, compare_onreceive, checked_wait,
  receive_value_as_bytes,
}

-- The end of a step that compares two types.
abbrev pub verdict : String → String → Result (Option (Unit {0}))
verdict a e = if a == e then ok (some tt) else raise assertion_error

sent_value-text :
    (decode : String → Result String) (received : String) (c : Context)
    → c.rust_sender ≡ some false
    → sent_value decode (str received) c ≡ (ok received, c)
unfolding sent_value as_text
sent_value-text decode received c flag = rw (attribute-set (λ c. c.rust_sender) c false flag) refl

assert_same_type-eq :
    (received expected a e : String)
    → second (split_on "googleapis.com/" received) ≡ ok a
    → second (split_on "googleapis.com/" expected) ≡ ok e
    → assert_same_type received expected ≡ (if a == e then ok tt else raise assertion_error)
unfolding assert_same_type
assert_same_type-eq received expected a e got wanted = rw got (rw wanted refl)

module _ (peername : ℕ → Option Address) (loads : Bytes → Option Json) where
  received_value-text :
      (sender field_name received : String) (payload : Json) (msg : Fields) (c : Context)
      → (sender == "rust") ≡ false
      → get "data" msg ≡ some payload
      → access_nested_dict payload field_name ≡ ok (str received)
      → c.rust_sender ≡ some false
      → received_value peername loads sender field_name msg c ≡ (ok received, c)
  unfolding received_value
  received_value-text sender field_name received payload msg c other has finds flag =
      rw (has, subscript)
        (rw other (rw finds (sent_value-text (λ s. ok (unescape s)) received c flag)))

  -- What follows the comparison keeps its outcome.
  compared :
      (same : Bool) (c : Context)
      → (lift (if same then ok tt else raise assertion_error) >> pure (some tt)) c
        ≡ (if same then ok (some tt) else raise assertion_error, c)
  compared true c = refl
  compared false c = refl

  checked_wait-verdict :
      (same : Bool) (c c' : Context) (m : Exec Context (Option Unit))
      → m c ≡ (if same then ok (some tt) else raise assertion_error, c')
      → checked_wait peername loads m c ≡ (if same then ok (some tt) else raise assertion_error, c')
  unfolding checked_wait reraise
  checked_wait-verdict true c c' m h = rw h refl
  checked_wait-verdict false c c' m h = rw h refl

  checked_wait-none :
      (c c' : Context) (m : Exec Context (Option Unit))
      → m c ≡ (ok none, c')
      → checked_wait peername loads m c ≡ (ok none, c')
  unfolding checked_wait
  checked_wait-none c c' m h = rw h refl

  compare_onreceive-none :
      (sender field_name expected : String) (c : Context)
      → compare_onreceive peername loads sender field_name expected none c ≡ (ok none, c)
  unfolding compare_onreceive
  compare_onreceive-none sender field_name expected c = refl

  compare_onreceive-eq :
      (sender field_name expected received a e : String) (payload : Json) (msg : Fields)
      (c : Context)
      → (sender == "rust") ≡ false
      → get "data" msg ≡ some payload
      → access_nested_dict payload field_name ≡ ok (str received)
      → c.rust_sender ≡ some false
      → second (split_on "googleapis.com/" received) ≡ ok a
      → second (split_on "googleapis.com/" expected) ≡ ok e
      → compare_onreceive peername loads sender field_name expected (some msg) c ≡ (verdict a e, c)
  unfolding compare_onreceive
  compare_onreceive-eq sender field_name expected received a e payload msg c other has finds flag
        got wanted =
      rw (received_value-text sender field_name received payload msg c other has finds flag)
        (rw (assert_same_type-eq received expected a e got wanted) (compared (a == e) c))

  -- A message that the listener of an agent other than the one in Rust received arrives after any
  -- number of polls, with no other waiting: the step compares the types behind "googleapis.com/"
  -- and returns if they are the same, raises AssertionError otherwise.
  pub receive_value_as_bytes-returns :
      (s b : ℕ) (bs : Bytes) (msg : Fields) (payload : Json)
      (sender id field_name expected received a e : String) (n : ℕ) (rest : List (List Event))
      (c : Context)
      → loads (b ∷ bs) ≡ some (dict msg)
      → get "action" msg ≡ some (str "onreceive")
      → get "test_id" msg ≡ some (str id)
      → get "ue" msg ≡ some (str sender)
      → get "data" msg ≡ some payload
      → (sender == "rust") ≡ false
      → access_nested_dict payload field_name ≡ ok (str received)
      → c.rust_sender ≡ some false
      → second (split_on "googleapis.com/" received) ≡ ok a
      → second (split_on "googleapis.com/" (strip is_space expected)) ≡ ok e
      → waiting c.tm.queues "onreceive" ≡ []
      → IsListening c.tm
      → let out =
          receive_value_as_bytes peername loads
            (quiet n ((receive s (ok (b ∷ bs)) ∷ []) ∷ rest))
            sender
            field_name
            expected
            c in
        (out.0 ≡ verdict a e) × IsUndisturbed c.tm out.1.tm
  unfolding receive_value_as_bytes
  receive_value_as_bytes-returns s b bs msg payload sender id field_name expected received a e n
        rest c loaded named identified from has other finds flag got wanted empty runs =
      let schedule = quiet n ((receive s (ok (b ∷ bs)) ∷ []) ∷ rest) in
      let (returned, after) =
        get_onreceive-returns peername loads s b bs msg sender id n rest c.tm loaded named
          identified from empty runs in
      let kept : Fields = put "test_id" (str (strip is_quote id)) msg in
      let c' : Context = record c { tm = (get_onreceive peername loads sender schedule c.tm).1 } in
      let compares =
        compare_onreceive-eq sender field_name (strip is_space expected) received a e payload kept
          c' other (get-put_ne "data" "test_id" (str (strip is_quote id)) msg data-ne-test_id ∙ has)
          finds flag got wanted in
      let step : receive_value_as_bytes peername loads schedule sender field_name expected c
          ≡ (verdict a e, c') =
        checked_wait-verdict (a == e) c c'
          (on_tm (get_onreceive peername loads sender schedule)
            >>= compare_onreceive peername loads sender field_name (strip is_space expected))
          (rw returned compares) in
      (ap (λ p. p.0) step, subst (λ p. IsUndisturbed c.tm p.1.tm) (sym step) after)

  -- An onreceive message of another agent that waits first holds up the step for ever: whatever the
  -- listener of the manager receives, the message of the agent itself included, the step does not return.
  pub receive_value_as_bytes-held_up :
      (sender field_name expected : String) (msg : Fields) (queue : List Fields) (ue : Json)
      (schedule : List (List Event)) (c : Context)
      → waiting c.tm.queues "onreceive" ≡ msg ∷ queue
      → get "ue" msg ≡ some ue
      → is_str sender ue ≡ false
      → (receive_value_as_bytes peername loads schedule sender field_name expected c).0 ≡ ok none
  unfolding receive_value_as_bytes
  receive_value_as_bytes-held_up sender field_name expected msg queue ue schedule c first has
        differs =
      let held =
        get_onreceive-held_up peername loads c.tm sender msg queue ue schedule first has differs in
      let c' : Context = record c { tm = (get_onreceive peername loads sender schedule c.tm).1 } in
      ap (λ p. p.0)
        (checked_wait-none c c'
          (on_tm (get_onreceive peername loads sender schedule)
            >>= compare_onreceive peername loads sender field_name (strip is_space expected))
          (rw held (compare_onreceive-none sender field_name (strip is_space expected) c')))
