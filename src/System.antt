-- ===== src/System.antt =====
-- The whole service: processes that share the tables and the broker, as steps. An operation of a
-- process is one step; between two of them, other processes take theirs.
pub mod Untouched
pub mod Sent
pub mod Final
pub mod Claiming
pub mod Dispatching
pub mod Replaying
pub mod Handling
pub mod Delivered
pub mod Numbered
pub mod Interleaved
use go_webhook_processor.Prelude.{
  ℕ, String, ◌≡◌, ◌⊎◌, Bool, true, false, ◌||◌, Option, none, some, List, [], ◌∷◌, All, ◌==◌,
  if◌then◌else◌, eqb, not,
}
use go_webhook_processor.Prelude.Select.{row_test}
use go_webhook_processor.Prelude.Table.{find}
use go_webhook_processor.Models.{Event}
use go_webhook_processor.Metrics.{Metrics}
use go_webhook_processor.Queue.{EventDelivery, Action, ack, nack, sleep, run, publish}
use go_webhook_processor.World.{World}
use go_webhook_processor.Store.Schema.{OutboxRow, OutboxMessage, Db, outbox_key}
use go_webhook_processor.Store.Monad.{Env, State}
use go_webhook_processor.Store.Invariant.Calls.{
  Method, save, claim, finish, fail, reserve_batch, publish as mark_published, unpublish, bury,
  replay, claim_dead_letters, postpone, claim_ids, retry_now, perform,
}
use go_webhook_processor.Outbox.{OutboxDispatcher, dispatch_pending}
use go_webhook_processor.Outbox.Dispatch.{is_published}
use go_webhook_processor.Worker.{Worker, handle_delivery}
use go_webhook_processor.Worker.Exhaust.{persistent}

-- The broker holds at least these copies of events: one arrives with its confirmation, and stays until
-- a worker's ack or a nack without requeue.
pub record System : Type 0 where
  pub store : State
  pub broker : List Event

abbrev pub held : String → List Event → Bool
held id [] = false
held id (e ∷ events) = (e.id == id) || held id events

abbrev pub remove : String → List Event → List Event
remove id [] = []
remove id (e ∷ events) = if e.id == id then events else e ∷ remove id events

-- The published events of a trace reach the broker.
abbrev pub arrive : List Action → List Event → List Event
arrive [] broker = broker
arrive (publish e ∷ trace) broker = e ∷ arrive trace broker
arrive (ack _ ∷ trace) broker = arrive trace broker
arrive (nack _ _ ∷ trace) broker = arrive trace broker
arrive (sleep _ ∷ trace) broker = arrive trace broker
arrive (run _ _ ∷ trace) broker = arrive trace broker

-- A trace acknowledges the delivery of a tag, or refuses it for good.
abbrev pub has_left : ℕ → List Action → Bool
has_left tag [] = false
has_left tag (ack t ∷ trace) = eqb t tag || has_left tag trace
has_left tag (nack t requeue ∷ trace) = (if requeue then false else eqb t tag) || has_left tag trace
has_left tag (publish e ∷ trace) = has_left tag trace
has_left tag (sleep _ ∷ trace) = has_left tag trace
has_left tag (run _ _ ∷ trace) = has_left tag trace

-- The methods that neither mark a message as published nor replay an event.
abbrev pub is_plain : Method → Bool
is_plain (save event) = true
is_plain (claim id lease) = true
is_plain (finish id attempts) = true
is_plain (fail id attempts error) = true
is_plain (reserve_batch limit lease) = true
is_plain (mark_published m) = false
is_plain (unpublish m error) = true
is_plain (bury event error attempts) = true
is_plain (replay id) = false
is_plain (claim_dead_letters limit max) = true
is_plain (postpone id error delay) = true
is_plain (claim_ids limit max) = true
is_plain (retry_now id error) = true

-- The message of an event's row is marked as published.
abbrev pub sent_out : String → Db → Bool
sent_out id db = row_test is_published (find outbox_key id db.outbox)

-- A row stands in a list.
abbrev pub IsAmong : OutboxRow → List OutboxRow → Type 0
IsAmong r [] = ⊥
IsAmong r (q ∷ rows) = (r ≡ q) ⊎ IsAmong r rows

-- RETURNING gives back no other rows than those updated.
abbrev pub Returns : Env → Type 0
Returns env =
    (rows : List OutboxRow) (r : OutboxRow) → IsAmong r (env.returned rows) → IsAmong r rows

-- A message is of the event of its row.
abbrev pub Owns : Db → OutboxMessage → Type 0
Owns db m =
    (id : String) (r : OutboxRow)
    → find outbox_key id db.outbox ≡ some r
    → r.id ≡ m.id
    → m.event.id ≡ id

abbrev pub fresh_world : State → Metrics → World
fresh_world s metrics = record { store = s; metrics = metrics; trace = [] }

-- A poll of a dispatcher.
abbrev pub poll : OutboxDispatcher → Metrics → System → World
poll d metrics q = (dispatch_pending d (fresh_world q.store metrics)).1

abbrev pub after_poll : OutboxDispatcher → Metrics → System → System
after_poll d metrics q =
    let w = poll d metrics q in record { store = w.store; broker = arrive w.trace q.broker }

-- The handling of a delivery by a worker.
abbrev pub handling : Worker → EventDelivery → Metrics → System → World
handling k d metrics q = handle_delivery (persistent k) d (fresh_world q.store metrics)

abbrev pub after_delivery : Worker → EventDelivery → Metrics → System → System
after_delivery k d metrics q =
    let w = handling k d metrics q in
    record {
      store = w.store;
      broker = if has_left d.tag w.trace then remove d.event.id q.broker else q.broker;
    }

-- A step: a call of the store by any process, but for the settlement of a published message, which is
-- part of a poll; a poll; or a delivery.
pub data Move : System → System → Type 0 where
  called :
      (q : System) (env : Env) (method : Method)
      → is_plain method ≡ true
      → Move q (record { store = perform env method q.store; broker = q.broker })
  replayed :
      (q : System) (env : Env) (id : String)
      → Move q (record { store = perform env (replay id) q.store; broker = q.broker })
  dispatched :
      (q : System) (d : OutboxDispatcher) (metrics : Metrics)
      → Returns d.env
      → Move q (after_poll d metrics q)
  handled :
      (q : System) (k : Worker) (d : EventDelivery) (metrics : Metrics)
      → Move q (after_delivery k d metrics q)

-- The states that are reached from one by steps.
pub data Reaches : System → System → Type 0 where
  here : (q : System) → Reaches q q
  next : (q q1 q2 : System) → Move q q1 → Reaches q1 q2 → Reaches q q2
