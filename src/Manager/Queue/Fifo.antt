-- ===== src/Manager/Queue/Fifo.antt =====
-- test_manager/testmanager.py: what the methods of DictWithQueue do to the messages that wait.
use up_tck.Base.{
  String, ◌≡◌, refl, Option, none, some, List, [], ◌∷◌, ◌++◌, arith, ◌==◌, if◌then◌else◌, string_eq,
}
use up_tck.Base.Dict.{lookup, insert, lookup-insert}
use up_tck.Base.Exec.{ok, raise, key_error, index_error}
use up_tck.Json.{Json, Fields, get}
use up_tck.Manager.Queue.{Queues, queue_at, append, head_has, contains, pop_head, popleft}

-- The abstract state: the messages that wait under each key. An absent key has none.
abbrev or_empty : Option (List Fields) → List Fields
or_empty none = []
or_empty (some queue) = queue

unfoldable pub waiting : Queues → String → List Fields
waiting q key = or_empty (lookup key q)

-- The queues after a read of one of them.
abbrev touched : String → Queues → Queues
touched key q = (queue_at key q).1

queue_at-eq : (key : String) (q : Queues) → queue_at key q ≡ (ok (waiting q key), touched key q)
unfolding queue_at waiting
queue_at-eq key q = ground arith

waiting-touched :
    (key other : String) (q : Queues) → waiting (touched key q) other ≡ waiting q other
unfolding queue_at waiting
waiting-touched key other q = ground (arith, lookup-insert {V = List Fields} other key [] q)

waiting-insert :
    (key other : String) (queue : List Fields) (q : Queues)
    → waiting (insert key queue q) other ≡ (if other == key then queue else waiting q other)
unfolding waiting
waiting-insert key other queue q = ground (arith, lookup-insert other key queue q)

pub append-eq :
    (key : String) (msg : Fields) (q : Queues)
    → append key msg q ≡ (ok tt, insert key (waiting q key ++ msg ∷ []) (touched key q))
unfolding append
append-eq key msg q = rw (queue_at-eq key q)

-- `append` puts the message behind those of its key, and leaves the other keys' alone.
pub waiting-append :
    (key other : String) (msg : Fields) (q : Queues)
    → waiting (append key msg q).1 other
      ≡ (if other == key then waiting q key ++ msg ∷ [] else waiting q other)
waiting-append key other msg q = rw (append-eq key msg q) (
    ground (
      arith,
      waiting-insert key other (waiting q key ++ msg ∷ []) (touched key q),
      waiting-touched key other q,
    ))

-- `contains` answers by the first message that waits, and no queue changes.
pub contains-eq :
    (key inner expected : String) (q : Queues)
    → ((contains key inner expected q).0 ≡ head_has inner expected (waiting q key))
      × ((other : String) → waiting (contains key inner expected q).1 other ≡ waiting q other)
unfolding contains
contains-eq key inner expected q =
    rw (queue_at-eq key q) (refl, λ other. waiting-touched key other q)

-- A message that names its action.
abbrev pub HasAction : Fields → Type 0
HasAction msg = (action : Json) × (get "action" msg ≡ some action)

-- `popleft` returns the first message that waits and takes it away.
pub popleft-cons :
    (key : String) (msg : Fields) (queue : List Fields) (q : Queues)
    → waiting q key ≡ msg ∷ queue
    → HasAction msg
    → ((popleft key q).0 ≡ ok msg)
      × ((other : String)
          → waiting (popleft key q).1 other ≡ (if other == key then queue else waiting q other))
unfolding popleft pop_head
popleft-cons key msg queue q e (action, h) = rw (queue_at-eq key q) (
    rw e (
      rw (h, pop_head)
        (
          refl,
          λ other.
              ground (
                arith,
                waiting-insert key other queue (touched key q),
                waiting-touched key other q,
              ),
        )))

-- On a message that names no action `popleft` raises, when the message is gone already.
pub popleft-nameless :
    (key : String) (msg : Fields) (queue : List Fields) (q : Queues)
    → waiting q key ≡ msg ∷ queue
    → get "action" msg ≡ none
    → ((popleft key q).0 ≡ raise key_error)
      × ((other : String)
          → waiting (popleft key q).1 other ≡ (if other == key then queue else waiting q other))
unfolding popleft pop_head
popleft-nameless key msg queue q e h = rw (queue_at-eq key q) (
    rw e (
      rw (h, pop_head)
        (
          refl,
          λ other.
              ground (
                arith,
                waiting-insert key other queue (touched key q),
                waiting-touched key other q,
              ),
        )))

-- With no message `popleft` raises and none goes.
pub popleft-empty :
    (key : String) (q : Queues)
    → waiting q key ≡ []
    → ((popleft key q).0 ≡ raise index_error)
      × ((other : String) → waiting (popleft key q).1 other ≡ waiting q other)
unfolding popleft pop_head
popleft-empty key q e = rw (queue_at-eq key q) (rw e (refl, λ other. waiting-touched key other q))
