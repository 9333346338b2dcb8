-- ===== src/Agent/Handlers/Replies.antt =====
-- test_agent/python/testagent.py: what it means that a request is answered, for the calls that the
-- handlers are made of.
use up_tck.Base.{◌≡◌, ◌≢◌, refl, String, Option, none, some, [], ◌∷◌, ◌++◌, ◌∙◌, string_eq}
use up_tck.Base.Exec.{Exec, Exception, Result, ok, raise, lift, pure, ◌>>=◌, ◌>>◌}
use up_tck.Json.{Json, dict, Fields, subscript}
use up_tck.Agent.{Agent, reply, record_sent, send_to_test_manager, send_reply, send_message}
use up_tck.Agent.Codec.{View, message_to_dict}

module _ {T : Type 0} (json_msg : Json) (action : String) (Q : Type 0) where
  -- The agent went from `s` to `s'` with this result. It sent nothing, and then it raised or there is
  -- the reason `Q`, or it sent one reply to this request.
  pub data Replied (s : Agent T) (r : Result {0} Unit) (s' : Agent T) : Type 0 where
    silent : s'.sent ≡ s.sent → (r ≡ ok tt → Q) → Replied s r s'
    replied :
        (response test_id : Json)
        → subscript json_msg "test_id" ≡ ok test_id
        → s'.sent ≡ s.sent ++ reply response action test_id ∷ []
        → Replied s r s'

  -- What came before the reply sent nothing.
  pub Replied-after :
      {s t u : Agent T} {r : Result {0} Unit} → t.sent ≡ s.sent → Replied t r u → Replied s r u
  Replied-after e (silent same why) = silent (same ∙ e) why
  Replied-after e (replied response test_id id same) = replied response test_id id (rw (← e) same)

  pub Replied-result :
      {s u : Agent T} {r r' : Result {0} Unit}
      → (r' ≡ ok tt → r ≡ ok tt)
      → Replied s r u
      → Replied s r' u
  Replied-result f (silent same why) = silent same (λ e. why (f e))
  Replied-result f (replied response test_id id same) = replied response test_id id same

  lift-Replied :
      {A : Type 0} (x : Result A) (f : A → Exec (Agent T) Unit) (s : Agent T)
      → ((a : A) → x ≡ ok a → Replied s (f a s).0 (f a s).1)
      → let out = (lift x >>= f) s in Replied s out.0 out.1
  lift-Replied (ok a) f s h = h a refl
  lift-Replied (raise e) f s h = silent refl (λ w. cc w)

  module _ (sendall : Fields → Option Exception) (s : Agent T) where
    record_sent-Replied :
        (response test_id : Json)
        → subscript json_msg "test_id" ≡ ok test_id
        → (o : Option Exception)
        → let out = record_sent sendall (reply response action test_id) o s in Replied s out.0 out.1
    unfolding record_sent
    record_sent-Replied response test_id e none = replied response test_id e refl
    record_sent-Replied response test_id e (some x) = silent refl (λ w. cc w)

    send_to_test_manager-Replied :
        (response test_id : Json)
        → subscript json_msg "test_id" ≡ ok test_id
        → let out = send_to_test_manager sendall response action test_id s in Replied s out.0 out.1
    unfolding send_to_test_manager
    send_to_test_manager-Replied response test_id e =
        record_sent-Replied response test_id e (sendall (reply response action test_id))

    pub send_reply-Replied :
        (response : Json)
        → let out = send_reply sendall json_msg action response s in Replied s out.0 out.1
    unfolding send_reply
    send_reply-Replied response =
        lift-Replied (subscript json_msg "test_id") _ s
          λ test_id e. send_to_test_manager-Replied response test_id e

    pub send_message-Replied :
        (view : View)
        → let out = send_message sendall json_msg action view s in Replied s out.0 out.1
    unfolding send_message
    send_message-Replied view = lift-Replied (subscript json_msg "test_id") _ s λ test_id e.
        lift-Replied (message_to_dict view) _ s
          λ response shown. send_to_test_manager-Replied (dict response) test_id e

  -- A handler that sent nothing, or one that tried to send the reply itself and returned `None`.
  pub data Handled (s : Agent T) (r : Result (Option View)) (s' : Agent T) : Type 0 where
    quiet : s'.sent ≡ s.sent → (r ≡ ok none → Q) → Handled s r s'
    answered :
        (r' : Result {0} Unit)
        → Replied s r' s'
        → (r ≡ ok none → r' ≡ ok tt)
        → ((v : View) → r ≢ ok (some v))
        → Handled s r s'

  module _ (s : Agent T) where
    pub pure_none-Handled :
        (r : Result {0} Unit) (s' : Agent T)
        → Replied s r s'
        → let out = ((λ _. (r, s')) >> pure none) s in Handled s out.0 out.1
    pure_none-Handled (ok a) s' h = answered (ok a) h (λ _. refl) (λ v e. cc e)
    pure_none-Handled (raise x) s' h = answered (raise x) h (λ e. cc e) (λ v e. cc e)

    pub lift-Handled :
        {A : Type 0} (x : Result A) (f : A → Exec (Agent T) (Option View))
        → ((a : A) → Handled s (f a s).0 (f a s).1)
        → let out = (lift x >>= f) s in Handled s out.0 out.1
    lift-Handled (ok a) f h = h a
    lift-Handled (raise e) f h = quiet refl (λ w. cc w)

    pub quiet-Handled :
        {R : Type 0} (x : Result R) (s' : Agent T) (g : R → Exec (Agent T) (Option View))
        → s'.sent ≡ s.sent
        → ((a : R) → (g a s').1.sent ≡ s'.sent)
        → ((a : R) → (g a s').0 ≡ ok none → Q)
        → let out = ((λ _. (x, s')) >>= g) s in Handled s out.0 out.1
    quiet-Handled (ok a) s' g e h why = quiet (h a ∙ e) (why a)
    quiet-Handled (raise x) s' g e h why = quiet e (λ w. cc w)
