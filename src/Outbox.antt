-- ===== src/Outbox.antt =====
-- outbox.go: the dispatcher, which publishes the claimed messages in order and settles each one.
pub mod Dispatch
pub mod Complete
use go_webhook_processor.Prelude.{
  ℕ, zero, suc, String, Option, none, some, List, [], ◌∷◌, if◌then◌else◌,
}
use go_webhook_processor.Prelude.Int.{ℤ, pos, leb_ℤ}
use go_webhook_processor.Models.{Event}
use go_webhook_processor.Config.{Config, outbox_poll_interval, outbox_dispatch_lease}
use go_webhook_processor.Metrics.{inc_events_queued}
use go_webhook_processor.Queue.{publish}
use go_webhook_processor.World.{World, call, count, emit}
use go_webhook_processor.Store.Schema.{OutboxMessage}
use go_webhook_processor.Store.Monad.{Env, Result, ok, err}
use go_webhook_processor.Store.Outbox.{
  claim_pending_outbox, mark_outbox_published, mark_outbox_failed,
}

-- `EventPublisher`: nil, or an error text. What it answers may depend on the moment of the call.
abbrev pub Publisher : Type 0
Publisher = ℕ → Event → Option String

pub record OutboxDispatcher : Type 0 where
  pub env : Env
  pub publisher : Publisher
  pub poll_interval : ℤ
  pub batch_size : ℤ
  pub dispatch_lease : ℤ

unfoldable pub new_outbox_dispatcher : Env → Publisher → Config → OutboxDispatcher
new_outbox_dispatcher env publisher config = record {
  env = env;
  publisher = publisher;
  poll_interval = outbox_poll_interval config;
  batch_size = config.outbox_batch_size;
  dispatch_lease = outbox_dispatch_lease config;
}

module _ (d : OutboxDispatcher) where
  -- The loop over a batch. A failure to publish ends it without an error (`break`). A message that
  -- the broker has confirmed is in the trace.
  unfoldable pub dispatch_messages : List OutboxMessage → World → Result (Unit {0}) × World
  dispatch_messages [] w = (ok tt, w)
  dispatch_messages (m ∷ messages) w =
      let (marked, w1) = call (mark_outbox_published d.env m) (emit (publish m.event) w) in
      let rest = dispatch_messages messages (count inc_events_queued w1) in
      elim (d.publisher w.store.step m.event) [
        | some error ↦ (ok tt, (call (mark_outbox_failed d.env m error) w).1)
        | none ↦ elim marked [ err e ↦ (err e, w1) | ok _ ↦ rest ]
      ]

  unfoldable pub dispatch_pending : World → Result (Unit {0}) × World
  unfolding dispatch_messages
  dispatch_pending w =
      let (claimed, w1) = call (claim_pending_outbox d.env d.batch_size d.dispatch_lease) w in
      elim claimed [ err e ↦ (err e, w1) | ok messages ↦ dispatch_messages messages w1 ]

  -- One poll, and one for each tick.
  unfoldable pub polls : ℕ → World → World
  unfolding dispatch_pending
  polls zero w = (dispatch_pending w).1
  polls (suc ticks) w = polls ticks (dispatch_pending w).1

  -- The goroutine of Start until its context ends: an error is only logged. time.NewTicker panics
  -- (`none`) unless its interval is positive.
  unfoldable pub run : ℕ → World → Option World
  unfolding polls
  run ticks w = if leb_ℤ d.poll_interval (pos 0) then none else some (polls ticks w)
