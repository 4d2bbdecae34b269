-- ===== src/Worker.antt =====
-- worker.go: a delivery from its claim to its settlement, with the retries of the processing.
pub mod Retry
pub mod Settle
pub mod Exhaust
pub mod Deliveries
use go_webhook_processor.Prelude.{
  ℕ, zero, suc, ◌+◌, String, Bool, true, false, ◌&&◌, Option, none, some, List, [], ◌∷◌, eqb,
  if◌then◌else◌,
}
use go_webhook_processor.Prelude.Int.{ℤ, pos, pos_part, ◌+ℤ◌, ◌-ℤ◌, eqb_ℤ, wrap64}
use go_webhook_processor.Models.{Value, Payload, Event, lookup}
use go_webhook_processor.Config.{Config, processing_lease, processing_requeue_delay, retry_backoff}
use go_webhook_processor.Metrics.{
  inc_events_skipped_duplicate, inc_events_processed, inc_events_failed_permanent,
  inc_event_retries, observe_event_processing_duration,
}
use go_webhook_processor.Queue.{EventDelivery, run, sleep, ack_delivery, nack_delivery}
use go_webhook_processor.World.{World, call, count, emit}
use go_webhook_processor.Store.Schema.{EventClaimResult, claimed, in_progress, final, missing}
use go_webhook_processor.Store.Monad.{Env, Error, Result, ok, err, State, Store, next}
use go_webhook_processor.Store.Events.{claim_for_processing, mark_processed, mark_failed}

-- `eventProcessor`: nil, or an error text. What it answers may depend on the moment of the call.
abbrev pub Processor : Type 0
Processor = ℕ → ℕ → Event → Option String

-- `shouldSimulateFailure`: only the JSON value `true` counts.
abbrev is_true : Option Value → Bool
is_true (some (Value.bool b)) = b
is_true _ = false

unfoldable pub should_simulate_failure : Event → Bool
unfolding lookup
should_simulate_failure event = elim event.payload [
  | Payload.nil_map ↦ false
  | Payload.map_of fields ↦ is_true (lookup "simulateFailure" fields)
]

-- `processEvent`, but for the two seconds that it sleeps.
unfoldable pub process_event : Processor
unfolding should_simulate_failure
process_event step worker_id event =
    if should_simulate_failure event then some "simulated processing failure" else none

-- The other collaborators of a worker: `DeadLetterRepository.Add` and the configuration.
pub record Worker : Type 0 where
  pub env : Env
  pub config : Config
  pub add_dead_letter : Event → String → ℤ → Store (Unit {0})
  pub processor : Processor
  pub worker_id : ℕ

-- time.Now.
abbrev read_clock : World → World
read_clock w = record w { store = next w.store }

module _ (k : Worker) where
  abbrev pub max_attempts : ℤ
  max_attempts = wrap64 (k.config.max_retries +ℤ pos 1)

  -- One call of the processor, timed.
  unfoldable pub attempt_once : Event → World → Option String × World
  attempt_once event w =
      let started_at = k.env.clock w.store.step in
      let w1 = read_clock w in
      let error = k.processor w1.store.step k.worker_id event in
      let ended_at = k.env.clock w1.store.step in
      (
        error,
        count (observe_event_processing_duration (ended_at -ℤ started_at))
            (emit (run w1.store.step event) (read_clock w1)),
      )

  is_ok : Result (Unit {0}) → Bool
  is_ok (ok _) = true
  is_ok (err _) = false

  -- The branch of a success: the metric counts it before the store does.
  unfoldable pub succeed : Event → ℤ → World → (Bool × Bool) × World
  unfolding is_ok
  succeed event attempt w =
      let (r, w') = call (mark_processed k.env event.id attempt) (count inc_events_processed w) in
      ((true, is_ok r), w')

  -- The branch of the last failure: the dead letter is saved before the event is marked.
  unfoldable pub give_up : Event → ℤ → String → World → (Bool × Bool) × World
  unfolding is_ok
  give_up event attempt error w =
      let (saved, w1) =
        call (k.add_dead_letter event error attempt) (count inc_events_failed_permanent w) in
      elim saved [
        | err e ↦ ((false, false), w1)
        | ok _ ↦
            let (marked, w2) = call (mark_failed k.env event.id attempt error) w1 in
            ((false, is_ok marked), w2)
      ]

  unfoldable pub back_off : ℤ → World → World
  back_off attempt w = emit (sleep (retry_backoff k.config attempt)) (count inc_event_retries w)

  -- The loop, with `rounds` attempts left. Answers (succeeded, terminal state persisted).
  unfoldable pub retry_loop : ℕ → Event → ℤ → World → (Bool × Bool) × World
  retry_loop zero event attempt w = ((false, false), w)
  retry_loop (suc rounds) event attempt w =
      let (error, w1) = attempt_once event w in
      let again = retry_loop rounds event (attempt +ℤ pos 1) (back_off attempt w1) in
      elim error [
        | none ↦ succeed event attempt w1
        | some e ↦ if eqb_ℤ attempt max_attempts then give_up event attempt e w1 else again
      ]

  unfoldable pub process_event_with_retry : Event → World → (Bool × Bool) × World
  unfolding retry_loop
  process_event_with_retry event w = retry_loop (pos_part max_attempts) event (pos 1) w

  abbrev settle_ack : EventDelivery → World → World
  settle_ack d w = record w { trace = ack_delivery d w.trace }

  abbrev settle_nack : EventDelivery → Bool → World → World
  settle_nack d requeue w = record w { trace = nack_delivery d requeue w.trace }

  -- The `switch` on the claim.
  unfoldable pub after_claim : EventDelivery → EventClaimResult → World → World
  after_claim d final w = settle_ack d (count inc_events_skipped_duplicate w)
  after_claim d in_progress w =
      settle_nack d true (emit (sleep (processing_requeue_delay k.config)) w)
  after_claim d missing w = settle_nack d false w
  after_claim d claimed w =
      let ((_, terminal_persisted), w') = process_event_with_retry d.event w in
      if terminal_persisted then settle_ack d w' else settle_nack d true w'

  unfoldable pub handle_delivery : EventDelivery → World → World
  unfolding after_claim
  handle_delivery d w =
      let (claim, w') =
        call (claim_for_processing k.env d.event.id (processing_lease k.config)) w in
      elim claim [ err e ↦ settle_nack d true w' | ok c ↦ after_claim d c w' ]

  -- `for delivery := range eventQueue.Events()`, over the deliveries that this worker takes.
  unfoldable pub worker : List EventDelivery → World → World
  worker [] w = w
  worker (d ∷ deliveries) w = worker deliveries (handle_delivery d w)

-- The goroutines of startWorkers, by the number that each one gets.
abbrev workers_from : ℕ → ℕ → (ℕ → Worker) → List Worker
workers_from zero worker_id start = []
workers_from (suc count) worker_id start =
    start worker_id ∷ workers_from count (worker_id + 1) start

unfoldable pub start_workers : ℤ → (ℕ → Worker) → List Worker
start_workers count start = workers_from (pos_part count) 1 start
