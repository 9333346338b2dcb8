-- ===== src/Manager/Server/Serving.antt =====
-- test_manager/testmanager.py, class TestManager: what stays true while agents come, introduce themselves,
-- answer and go. The address of a socket's peer does not change, but `getpeername` may begin to raise.
use up_tck.Base.{
  ℕ, String, ◌≡◌, ◌≢◌, refl, sym, subst, ap, ◌∙◌, Bool, true, false, Option, none, some, List, [],
  ◌∷◌, ◌++◌, arith, ◌==◌, remove, string_eq, nat_eq, pair_eq, Option-cases, Bool-cases, dec_eq, inl,
  inr, if◌then◌else◌,
}
use up_tck.Base
use up_tck.Base.Dict.{lookup, lookup-insert}
use up_tck.Base.Exec.{Result, Result-cases, ok, ok-inj}
use up_tck.Json.{
  Json, null, boolean, int, str, list, dict, Fields, get, is_str, get-put_ne, action-ne-test_id,
  data-ne-test_id,
}
use up_tck.Manager.Database
use up_tck.Manager.Database.{Address, found}
use up_tck.Manager.Database.Consistency.{IsNew, add-IsConsistent, add-eq}
use up_tck.Manager.Server.{
  Bytes, Manager, on_database, register, strip_id, sdk_name, append_response, close_by_socket,
  initialize, process_action, process_receive_message, receive_json,
}
use up_tck.Manager.Server.Agents.{IsServing, without-IsServing}
use up_tck.Manager.Server.Closing.{Agrees, close_by_socket-closes}

-- A message by which an agent introduces itself under a name.
abbrev pub Introduces : Fields → String → Type 0
Introduces msg name =
    (get "action" msg ≡ some (str "initialize"))
    × ((payload : Json) × (get "data" msg ≡ some payload) × (sdk_name payload ≡ ok name))

-- Stripping the test id leaves the other keys.
strip_id-get :
    (key : String) (msg stripped : Fields) (o : Option Json)
    → key ≢ "test_id"
    → strip_id msg o ≡ ok stripped
    → get key stripped ≡ get key msg
unfolding strip_id
strip_id-get key msg stripped none ne e = ap (get key) (sym (ok-inj e))
strip_id-get key msg stripped (some null) ne e = ap (get key) (sym (ok-inj e))
strip_id-get key msg stripped (some (str id)) ne e =
    ap (get key) (sym (ok-inj e)) ∙ get-put_ne key "test_id" _ msg ne
strip_id-get key msg stripped (some (boolean b)) ne e = cc e
strip_id-get key msg stripped (some (int n)) ne e = cc e
strip_id-get key msg stripped (some (list items)) ne e = cc e
strip_id-get key msg stripped (some (dict d)) ne e = cc e

is_str-eq : (t : String) (v : Json) → is_str t v ≡ true → v ≡ str t
is_str-eq t (str s) e = ap str (ground (arith, e))
is_str-eq t null e = cc e
is_str-eq t (boolean b) e = cc e
is_str-eq t (int n) e = cc e
is_str-eq t (list items) e = cc e
is_str-eq t (dict d) e = cc e

-- The sockets that the selector let go while the database kept them: with those whose close found no
-- peer.
unfoldable pub lost_at : Option Address → ℕ → List ℕ → List ℕ
lost_at none s lost = s ∷ lost
lost_at (some address) s lost = lost

contains-tail :
    (t s : ℕ) (lost : List ℕ) → Base.contains t (s ∷ lost) ≡ false → Base.contains t lost ≡ false
unfolding Base.contains
contains-tail t s lost h = ground arith

contains-head : (t s : ℕ) (lost : List ℕ) → Base.contains t (s ∷ lost) ≡ false → t ≢ s
unfolding Base.contains
contains-head t s lost h e = ground arith

module _ (peername address_of : ℕ → Option Address) (agrees : Agrees peername address_of)
    (loads : Bytes → Option Json) (lost : List ℕ) where
  either-IsServing :
      (b : Bool) (x y : Result (Unit {0}) × Manager)
      → IsServing address_of lost x.1
      → IsServing address_of lost y.1
      → IsServing address_of lost (if b then x else y).1
  either-IsServing true x y h k = h
  either-IsServing false x y h k = k

  pub register-IsServing :
      (s : ℕ) (m : Manager)
      → IsServing address_of lost m
      → IsServing address_of lost (register s m).1
  unfolding register
  register-IsServing s m serving = elim (Bool-cases (Base.contains s m.registered)) [
    | inl there ↦ rw there serving
    | inr missing ↦ rw missing (
        either-IsServing m.selector_open _ _
          (record {
            consistent = serving.consistent;
            watched = λ name t h kept. ground (
              arith,
              Base.contains-append t m.registered (s ∷ []),
              serving.watched name t h kept,
            );
          })
          serving)
  ]

  -- A socket that no name leads to is no longer watched.
  unwatched-IsServing :
      (s : ℕ) (m : Manager)
      → IsServing address_of lost m
      → ((name : String) → lookup name m.database.name_to_address ≢ some s)
      → IsServing address_of lost (record m { registered = remove s m.registered })
  unwatched-IsServing s m serving nameless = record {
    consistent = serving.consistent;
    watched = λ name t h kept.
        Base.contains-remove_ne t s m.registered (λ e. nameless name (h ∙ ap some e))
        ∙ serving.watched name t h kept;
  }

  -- A socket that is no longer watched is lost, if the database may keep it.
  lost-IsServing :
      (s : ℕ) (m : Manager)
      → IsServing address_of lost m
      → IsServing address_of (s ∷ lost) (record m { registered = remove s m.registered })
  lost-IsServing s m serving = record {
    consistent = serving.consistent;
    watched = λ name t h kept.
        Base.contains-remove_ne t s m.registered (contains-head t s lost kept)
        ∙ serving.watched name t h (contains-tail t s lost kept);
  }

  widen-IsServing :
      (o : Option Address) (s : ℕ) (m : Manager)
      → IsServing address_of lost m
      → IsServing address_of (lost_at o s lost) m
  unfolding lost_at
  widen-IsServing none s m serving = record {
    consistent = serving.consistent;
    watched = λ name t h kept. serving.watched name t h (contains-tail t s lost kept);
  }
  widen-IsServing (some address) s m serving = serving

  close_found-IsServing :
      (s : ℕ) (address : Address) (m : Manager)
      → IsServing address_of lost m
      → Base.contains s m.registered ≡ true
      → peername s ≡ some address
      → IsServing address_of lost (close_by_socket peername loads s m).1
  close_found-IsServing s address m serving there at =
      elim (Option-cases (lookup address m.database.address_to_name)) [
        | inl unknown ↦
            unfold close_by_socket in
            unfold Database.close_by_socket in
            rw there (
              rw (at, unknown)
                (unwatched-IsServing s m serving λ name h.
                  let (a, p, q) = serving.consistent.name_leads name s h in
                  cc (agrees s address at, p, q, unknown)))
        | inr (name, known) ↦
            rw
              (close_by_socket-closes peername address_of agrees loads m serving.consistent s
                address name at known there)
              (without-IsServing address_of lost m s address name serving (agrees s address at)
                known)
      ]

  close_watched-IsServing :
      (o : Option Address) (s : ℕ) (m : Manager)
      → IsServing address_of lost m
      → Base.contains s m.registered ≡ true
      → peername s ≡ o
      → IsServing address_of (lost_at o s lost) (close_by_socket peername loads s m).1
  unfolding lost_at
  close_watched-IsServing none s m serving there gone =
      unfold close_by_socket in
      unfold Database.close_by_socket in rw there (rw gone (lost-IsServing s m serving))
  close_watched-IsServing (some address) s m serving there at =
      close_found-IsServing s address m serving there at

  -- Closing a socket loses it if its peer is gone.
  pub close_by_socket-IsServing :
      (s : ℕ) (m : Manager)
      → IsServing address_of lost m
      → IsServing address_of (lost_at (peername s) s lost) (close_by_socket peername loads s m).1
  close_by_socket-IsServing s m serving = elim (Bool-cases (Base.contains s m.registered)) [
    | inr missing ↦ unfold close_by_socket in rw missing (widen-IsServing (peername s) s m serving)
    | inl there ↦ close_watched-IsServing (peername s) s m serving there refl
  ]

  add-IsServing :
      (s : ℕ) (name : String) (m : Manager)
      → IsServing address_of lost m
      → Base.contains s m.registered ≡ true
      → ((address : Address) → peername s ≡ some address → IsNew address_of address name m.database)
      → IsServing address_of lost (on_database (Database.add peername s name) m).1
  add-IsServing s name m serving there new = elim (Option-cases (peername s)) [
    | inl gone ↦ unfold Database.add in rw gone serving
    | inr (address, at) ↦
        let truly = agrees s address at in
        let consistent =
          add-IsConsistent address_of m.database serving.consistent s address name truly
            (new address at) in
        let e = add-eq peername m.database s address name at in
        rw e (record {
          consistent = rw (add-eq address_of m.database s address name truly) at consistent;
          watched = λ other t h kept. ground (
            arith,
            lookup-insert other name s m.database.name_to_address,
            serving.watched other t,
            there,
            kept,
          );
        })
  ]

  -- What a message asks for: an agent that introduces itself is a new one.
  abbrev pub IsNewcomer : ℕ → Fields → Manager → Type 0
  IsNewcomer s msg m =
      (name : String) (address : Address)
      → Introduces msg name
      → peername s ≡ some address
      → IsNew address_of address name m.database

  append_response-IsServing :
      (action : Json) (msg : Fields) (m : Manager)
      → IsServing address_of lost m
      → IsServing address_of lost (append_response action msg m).1
  unfolding append_response
  append_response-IsServing (str s) msg m serving = record {
    consistent = serving.consistent;
    watched = serving.watched;
  }
  append_response-IsServing null msg m serving = serving
  append_response-IsServing (boolean b) msg m serving = serving
  append_response-IsServing (int n) msg m serving = serving
  append_response-IsServing (list items) msg m serving = serving
  append_response-IsServing (dict d) msg m serving = serving

  initialize-IsServing :
      (s : ℕ) (msg : Fields) (m : Manager)
      → IsServing address_of lost m
      → Base.contains s m.registered ≡ true
      → get "action" msg ≡ some (str "initialize")
      → IsNewcomer s msg m
      → IsServing address_of lost (initialize peername loads msg s m).1
  unfolding initialize
  initialize-IsServing s msg m serving there named new = elim (Option-cases (get "data" msg)) [
    | inl missing ↦ rw missing serving
    | inr (payload, has_data) ↦ elim (Result-cases (sdk_name payload)) [
      | inr (e, raised) ↦ rw (has_data, raised) serving
      | inl (name, called) ↦
          rw (has_data, called)
            (add-IsServing s name m serving there
              λ address at. new name address (named, (payload, has_data, called)) at)
    ]
  ]

  process_action-IsServing :
      (s : ℕ) (msg : Fields) (action : Json) (m : Manager)
      → IsServing address_of lost m
      → Base.contains s m.registered ≡ true
      → get "action" msg ≡ some action
      → IsNewcomer s msg m
      → IsServing address_of lost (process_action peername loads msg s action m).1
  unfolding process_action
  process_action-IsServing s msg action m serving there acts new =
      elim (Bool-cases (is_str "initialize" action)) [
        | inl e ↦
            rw e (
              initialize-IsServing s msg m serving there (acts ∙ ap some (is_str-eq _ action e))
                new)
        | inr e ↦ rw e (append_response-IsServing action msg m serving)
      ]

  pub receive_json-IsServing :
      (s : ℕ) (msg : Fields) (m : Manager)
      → IsServing address_of lost m
      → Base.contains s m.registered ≡ true
      → IsNewcomer s msg m
      → IsServing address_of lost (receive_json peername loads s (some (dict msg)) m).1
  unfolding receive_json process_receive_message
  receive_json-IsServing s msg m serving there new =
      elim (Result-cases (strip_id msg (get "test_id" msg))) [
        | inr (e, raised) ↦ rw raised serving
        | inl (stripped, e) ↦
            let same_action = strip_id-get "action" msg stripped _ action-ne-test_id e in
            let same_data = strip_id-get "data" msg stripped _ data-ne-test_id e in
            elim (Option-cases (get "action" stripped)) [
              | inl missing ↦ rw (e, missing) serving
              | inr (action, acts) ↦
                  rw (e, acts)
                    (process_action-IsServing s stripped action m serving there acts
                      λ name address (named, (payload, has_data, called)) at.
                        new name address
                          (sym same_action ∙ named, (payload, sym same_data ∙ has_data, called)) at)
            ]
      ]
