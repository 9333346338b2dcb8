-- ===== src/Transport/Calls/Advances.antt =====
-- up_client_socket/python/socket_transport.py: what the operations of the transport and a round of its
-- listener thread do to the futures.
use up_tck.Base.{
  ℕ, ◌≤◌, ◌≡◌, ◌≢◌, refl, Option, none, some, List, [], ◌∷◌, ◌++◌, arith, nat_eq, bytes_eq, String,
  Bool-cases, inl, inr, dec_eq,
}
use up_tck.Base.Dict.{Dict, lookup, insert, lookup-insert}
use up_tck.Base.Exec.{Exception, Result, ok, raise}
use up_tck.Transport.{
  Bytes, MessageType, publish, request, response, other, Uprotocol, Future, pending, timed_out,
  result, Transport, Message, send, complete, set_future, invoke_method, call_listeners, resolve,
  dispatch,
}
use up_tck.Transport.Loop.{is_socket_error, handle_parsed, after_try, listen_round}

-- The identities of futures are below the next one.
abbrev pub IsFresh : {M : Type 0} → Transport M → Type 0
IsFresh t = (f : ℕ) → t.next_future ≤ f → lookup f t.futures ≡ none

insert-there :
    {V : Type 0} (g f : ℕ) (v w : V) (d : Dict ℕ V)
    → lookup g d ≡ some v
    → (x : V) × (lookup g (insert f w d) ≡ some x)
insert-there g f v w d h = elim (dec_eq g f) [
  | yes same ↦ (w, ground (arith, lookup-insert g f w d))
  | no apart ↦ (v, ground (arith, lookup-insert g f w d))
]

module _ {Uri Uuid Payload : Type 0} (u : Uprotocol Uri Uuid Payload)
    (on_receive : ℕ → Message u → Option Exception) where
  -- What a step may do to the futures: those that are done stay, none goes, and only identities below
  -- the next one are in use.
  pub record Advances (t t' : Transport (Message u)) : Type 0 where
    pub stays :
        (f : ℕ) (v : Future (Message u))
        → lookup f t.futures ≡ some v
        → v ≢ pending
        → lookup f t'.futures ≡ some v
    pub there :
        (f : ℕ) (v : Future (Message u))
        → lookup f t.futures ≡ some v
        → (w : Future (Message u)) × (lookup f t'.futures ≡ some w)
    pub fresh : IsFresh t'

  pub same_futures :
      (t t' : Transport (Message u))
      → IsFresh t
      → t'.futures ≡ t.futures
      → t'.next_future ≡ t.next_future
      → Advances t t'
  same_futures t t' fresh e n = record {
    stays = λ f v h ne. rw e h;
    there = λ f v h. (v, rw e h);
    fresh = λ f le. rw e (fresh f (rw n at le));
  }

  complete-Advances :
      (f : ℕ) (w : Future (Message u)) (o : Option (Future (Message u))) (t : Transport (Message u))
      → IsFresh t
      → lookup f t.futures ≡ o
      → Advances t (complete u f w o t).1
  unfolding complete
  complete-Advances f w (some pending) t fresh e = record {
    stays = λ g v h ne. ground (arith, lookup-insert g f w t.futures);
    there = λ g v h. insert-there g f v w t.futures h;
    fresh = λ g le. ground (arith, lookup-insert g f w t.futures, fresh g le);
  }
  complete-Advances f w (some timed_out) t fresh e = same_futures t t fresh refl refl
  complete-Advances f w (some (result m)) t fresh e = same_futures t t fresh refl refl
  complete-Advances f w none t fresh e = same_futures t t fresh refl refl

  pub set_future-Advances :
      (f : ℕ) (w : Future (Message u)) (t : Transport (Message u))
      → IsFresh t
      → Advances t (set_future u f w t).1
  unfolding set_future
  set_future-Advances f w t fresh = complete-Advances f w (lookup f t.futures) t fresh refl

  pub invoke_method-Advances :
      (msg : Message u) (error : Option String) (t : Transport (Message u))
      → IsFresh t
      → Advances t (invoke_method u msg error t).1
  unfolding invoke_method send
  invoke_method-Advances msg none t fresh = record {
    stays = λ g v h ne.
        ground (arith, lookup-insert g t.next_future pending t.futures, fresh t.next_future);
    there = λ g v h. insert-there g t.next_future v pending t.futures h;
    fresh = λ g le. ground (arith, lookup-insert g t.next_future pending t.futures, fresh g);
  }
  invoke_method-Advances msg (some text) t fresh = record {
    stays = λ g v h ne.
        ground (arith, lookup-insert g t.next_future pending t.futures, fresh t.next_future);
    there = λ g v h. insert-there g t.next_future v pending t.futures h;
    fresh = λ g le. ground (arith, lookup-insert g t.next_future pending t.futures, fresh g);
  }

  call_listeners-futures :
      (msg : Message u) (ls : List ℕ) (t : Transport (Message u))
      → ((call_listeners u on_receive msg ls t).1.futures ≡ t.futures)
        × ((call_listeners u on_receive msg ls t).1.next_future ≡ t.next_future)
  unfolding call_listeners
  call_listeners-futures msg [] t = (refl, refl)
  call_listeners-futures msg (l ∷ ls) t =
      ground (
        arith,
        call_listeners-futures msg ls (record t { delivered = t.delivered ++ (l, msg) ∷ [] }),
      )

  call_listeners-Advances :
      (msg : Message u) (ls : List ℕ) (t : Transport (Message u))
      → IsFresh t
      → Advances t (call_listeners u on_receive msg ls t).1
  call_listeners-Advances msg ls t fresh =
      let (e, n) = call_listeners-futures msg ls t in same_futures t _ fresh e n

  resolve-Advances :
      (msg : Message u) (o : Option ℕ) (ids : Dict Bytes ℕ) (t : Transport (Message u))
      → IsFresh t
      → Advances t (resolve u on_receive msg o (record t { reqid_to_future = ids })).1
  unfolding resolve
  resolve-Advances msg none ids t fresh = same_futures t _ fresh refl refl
  resolve-Advances msg (some f) ids t fresh =
      let a = set_future-Advances f (result msg) (record t { reqid_to_future = ids }) fresh in
      record { stays = a.stays; there = a.there; fresh = a.fresh }

  dispatch-Advances :
      (kind : MessageType) (msg : Message u) (t : Transport (Message u))
      → IsFresh t
      → Advances t (dispatch u on_receive kind msg t).1
  unfolding dispatch
  dispatch-Advances publish msg t fresh = call_listeners-Advances msg _ t fresh
  dispatch-Advances request msg t fresh = call_listeners-Advances msg _ t fresh
  dispatch-Advances response msg t fresh = resolve-Advances msg _ _ t fresh
  dispatch-Advances (other n) msg t fresh = same_futures t t fresh refl refl

  handle_parsed-Advances :
      (parsed : Option (Message u)) (t : Transport (Message u))
      → IsFresh t
      → Advances t (handle_parsed u on_receive parsed t).1
  unfolding handle_parsed
  handle_parsed-Advances none t fresh = same_futures t t fresh refl refl
  handle_parsed-Advances (some msg) t fresh = dispatch-Advances msg.kind msg t fresh

  after_try-Advances :
      (r : Result Unit) (t t' : Transport (Message u))
      → Advances t t'
      → Advances t (after_try u on_receive r t').1
  unfolding after_try
  after_try-Advances (ok a) t t' h = h
  after_try-Advances (raise e) t t' h = elim (Bool-cases (is_socket_error e)) [
    | inl closes ↦ rw closes (record { stays = h.stays; there = h.there; fresh = h.fresh })
    | inr goes_on ↦ rw goes_on h
  ]

  pub listen_round-Advances :
      (received : Result Bytes) (t : Transport (Message u))
      → IsFresh t
      → Advances t (listen_round u on_receive received t).1
  unfolding listen_round
  listen_round-Advances (raise e) t fresh =
      after_try-Advances (raise e) t t (same_futures t t fresh refl refl)
  listen_round-Advances (ok []) t fresh = same_futures t _ fresh refl refl
  listen_round-Advances (ok (b ∷ bs)) t fresh =
      after_try-Advances _ t _ (handle_parsed-Advances (u.parse (b ∷ bs)) t fresh)
