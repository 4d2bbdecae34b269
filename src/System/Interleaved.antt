-- ===== src/System/Interleaved.antt =====
-- The service in finer steps: between the broker's confirmation of a message and the settlement of its
-- row, other processes take their steps.
pub mod Kept
use go_webhook_processor.Prelude.{
  ℕ, String, ◌≡◌, refl, ap, ◌∙◌, sym, subst, ◌⊎◌, inl, inr, Bool, true, false, false≢true, not,
  ◌&&◌, ◌||◌, Option, none, some, List, [], ◌∷◌, ◌++◌, All, All-map, arith, eq_iff, eq_refl, ◌==◌,
  Option-cases, if◌then◌else◌,
}
use go_webhook_processor.Prelude.Table.{find}
use go_webhook_processor.Models.{Event}
use go_webhook_processor.Metrics.{Metrics}
use go_webhook_processor.Queue.{EventDelivery}
use go_webhook_processor.Store.Schema.{Db, OutboxRow, OutboxMessage, event_key, outbox_key}
use go_webhook_processor.Store.Monad.{Env, State}
use go_webhook_processor.Store.Invariant.{IsValid, has_event}
use go_webhook_processor.Store.Invariant.Calls.{
  Method, publish, replay, perform, empty_db, empty_db-IsValid,
}
use go_webhook_processor.Store.Lifecycle.{status_of}
use go_webhook_processor.Store.Lifecycle.Refines.{publish-events, perform-Step}
use go_webhook_processor.Outbox.Dispatch.{is_published}
use go_webhook_processor.Worker.{Worker}
use go_webhook_processor.System.{System, held, is_plain, sent_out, fresh_world, after_delivery}
use go_webhook_processor.System.Final.{final_life, is_final, perform-final}
use go_webhook_processor.System.Sent.{publish-sent}
use go_webhook_processor.System.Numbered.{number, number-Owns, perform-number}
use go_webhook_processor.System.Dispatching.{Covered}
use go_webhook_processor.System.Handling.{handle_delivery-keeps}

-- `unsettled` has the messages that the broker has confirmed to a dispatcher and whose settlement the
-- dispatcher has still to call for.
pub record Service : Type 0 where
  pub system : System
  pub unsettled : List OutboxMessage

abbrev pub is_unsettled : String → List OutboxMessage → Bool
is_unsettled id [] = false
is_unsettled id (m ∷ messages) = (m.event.id == id) || is_unsettled id messages

abbrev pub with_store : State → Service → Service
with_store s q = record q { system = record { store = s; broker = q.system.broker } }

-- A step. A message that is confirmed has the number of its event's row. A dispatcher calls for the
-- settlement of a confirmed message once, however the database answers, or stops before it. An
-- event is replayed only when no dispatcher is still to settle a message of it.
pub data FineMove : Service → Service → Type 0 where
  called :
      (q : Service) (env : Env) (method : Method)
      → is_plain method ≡ true
      → FineMove q (with_store (perform env method q.system.store) q)
  confirmed :
      (q : Service) (m : OutboxMessage)
      → number m.event.id q.system.store.db ≡ some m.id
      → FineMove q (record {
        system = record { store = q.system.store; broker = m.event ∷ q.system.broker };
        unsettled = m ∷ q.unsettled;
      })
  settled :
      (q : Service) (env : Env) (m : OutboxMessage) (before after : List OutboxMessage)
      → q.unsettled ≡ before ++ m ∷ after
      → FineMove q (record {
        system = record {
          store = perform env (publish m) q.system.store;
          broker = q.system.broker;
        };
        unsettled = before ++ after;
      })
  stopped :
      (q : Service) (m : OutboxMessage) (before after : List OutboxMessage)
      → q.unsettled ≡ before ++ m ∷ after
      → FineMove q (record q { unsettled = before ++ after })
  replayed :
      (q : Service) (env : Env) (id : String)
      → is_unsettled id q.unsettled ≡ false
      → FineMove q (with_store (perform env (replay id) q.system.store) q)
  handled :
      (q : Service) (k : Worker) (d : EventDelivery) (metrics : Metrics)
      → FineMove q (record q { system = after_delivery k d metrics q.system })

pub data FineReaches : Service → Service → Type 0 where
  here : (q : Service) → FineReaches q q
  next : (q q1 q2 : Service) → FineMove q q1 → FineReaches q1 q2 → FineReaches q q2
