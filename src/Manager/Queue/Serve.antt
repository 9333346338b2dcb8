-- ===== src/Manager/Queue/Serve.antt =====
-- test_manager/testmanager.py: any sequence of calls of DictWithQueue, beside a first-in first-out queue
-- for each key.
use up_tck.Base.{
  String, ◌≡◌, refl, ap, ◌∙◌, Bool, Option, none, some, List, [], ◌∷◌, ◌++◌, arith, ◌==◌,
  if◌then◌else◌, string_eq, Option-cases, inl, inr,
}
use up_tck.Base.Exec.{Result, ok, raise, key_error, index_error}
use up_tck.Json.{Json, Fields, get}
use up_tck.Manager.Queue.{Queues, append, contains, head_has, popleft}
use up_tck.Manager.Queue.Fifo.{
  waiting, append-eq, waiting-append, contains-eq, popleft-cons, popleft-nameless, popleft-empty,
}

pub data Operation : Type 0 where
  push : String → Fields → Operation
  look : String → String → String → Operation
  pop : String → Operation

-- What a call returns or raises.
pub data Answer : Type 0 where
  did : Result (Unit {0}) → Answer
  saw : Result Bool → Answer
  popped : Result Fields → Answer

abbrev perform : Operation → Queues → Answer × Queues
perform (push key msg) q = let (r, q') = append key msg q in (did r, q')
perform (look key inner expected) q = let (r, q') = contains key inner expected q in (saw r, q')
perform (pop key) q = let (r, q') = popleft key q in (popped r, q')

unfoldable pub replay : List Operation → Queues → List Answer × Queues
replay [] q = ([], q)
replay (op ∷ ops) q =
    let (answer, q') = perform op q in
    let (answers, last) = replay ops q' in (answer ∷ answers, last)

-- The abstract state: the messages of each key, the first one in front.
abbrev pub Waiting : Type 0
Waiting = String → List Fields

abbrev at_key : String → List Fields → Waiting → Waiting
at_key key queue w other = if other == key then queue else w other

-- What taking a message returns: it raises on a message without an action.
abbrev handed : Fields → Option Json → Result Fields
handed msg none = raise key_error
handed msg (some action) = ok msg

-- A first-in first-out queue for each key: the other keys' messages stay.
abbrev take : String → List Fields → Waiting → Answer × Waiting
take key [] w = (popped (raise index_error), w)
take key (msg ∷ queue) w = (popped (handed msg (get "action" msg)), at_key key queue w)

abbrev serve_one : Operation → Waiting → Answer × Waiting
serve_one (push key msg) w = (did (ok tt), at_key key (w key ++ msg ∷ []) w)
serve_one (look key inner expected) w = (saw (head_has inner expected (w key)), w)
serve_one (pop key) w = take key (w key) w

unfoldable pub serve : List Operation → Waiting → List Answer × Waiting
serve [] w = ([], w)
serve (op ∷ ops) w =
    let (answer, w') = serve_one op w in
    let (answers, last) = serve ops w' in (answer ∷ answers, last)

-- The queues hold the messages of the abstract state.
abbrev Holds : Waiting → Queues → Type 0
Holds w q = (key : String) → waiting q key ≡ w key

take-popleft :
    (key : String) (queue : List Fields) (w : Waiting) (q : Queues)
    → Holds w q
    → waiting q key ≡ queue
    → (popped (popleft key q).0 ≡ (take key queue w).0)
      × Holds (take key queue w).1 (popleft key q).1
take-popleft key [] w q holds e =
    let (raised, rest) = popleft-empty key q e in
    (ap popped raised, λ other. rest other ∙ holds other)
take-popleft key (msg ∷ queue) w q holds e = elim (Option-cases (get "action" msg)) [
  | inl nameless ↦
      let (raised, rest) = popleft-nameless key msg queue q e nameless in
      (
        ap popped raised ∙ rw nameless refl,
        λ other. rest other ∙ ap (λ ms. if other == key then queue else ms) (holds other),
      )
  | inr (action, named) ↦
      let (returned, rest) = popleft-cons key msg queue q e (action, named) in
      (
        ap popped returned ∙ rw named refl,
        λ other. rest other ∙ ap (λ ms. if other == key then queue else ms) (holds other),
      )
]

perform-serve_one :
    (op : Operation) (w : Waiting) (q : Queues)
    → Holds w q
    → ((perform op q).0 ≡ (serve_one op w).0) × Holds (serve_one op w).1 (perform op q).1
perform-serve_one (push key msg) w q holds = (
  ap (λ p. did p.0) (append-eq key msg q),
  λ other. waiting-append key other msg q ∙ ground (arith, holds other, holds key),
)
perform-serve_one (look key inner expected) w q holds =
    let (seen, rest) = contains-eq key inner expected q in
    (ap saw (seen ∙ ap (head_has inner expected) (holds key)), λ other. rest other ∙ holds other)
perform-serve_one (pop key) w q holds = take-popleft key (w key) w q holds (holds key)

replay-Holds :
    (ops : List Operation) (w : Waiting) (q : Queues)
    → Holds w q
    → ((replay ops q).0 ≡ (serve ops w).0) × Holds (serve ops w).1 (replay ops q).1
unfolding replay serve
replay-Holds [] w q holds = (refl, holds)
replay-Holds (op ∷ ops) w q holds =
    let (same, next) = perform-serve_one op w q holds in
    let (answers, last) = replay-Holds ops _ _ next in (cc (same, answers), last)

-- Any sequence of appends, looks and pops, for any keys and from any queues, answers as a first-in
-- first-out queue for each key does, and leaves the messages that it leaves under every key. A pop
-- raises KeyError and takes the message where it has no action, and IndexError where none waits.
pub replay-serve :
    (ops : List Operation) (q : Queues)
    → ((replay ops q).0 ≡ (serve ops (waiting q)).0)
      × ((key : String) → waiting (replay ops q).1 key ≡ (serve ops (waiting q)).1 key)
replay-serve ops q = replay-Holds ops (waiting q) q (λ key. refl)
