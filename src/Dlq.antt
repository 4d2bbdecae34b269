-- ===== src/Dlq.antt =====
-- dlq_retry.go: the automatic retry of dead letters, with its delay.
pub mod Delay
pub mod Total
use go_webhook_processor.Prelude.{
  ℕ, zero, suc, ◌/◌, String, Bool, true, false, Option, none, some, List, [], ◌∷◌, eqb,
  if◌then◌else◌,
}
use go_webhook_processor.Prelude.Int.{
  ℤ, pos, negsuc, pos_part, neg_part, sub_ℕ, ◌+ℤ◌, ◌-ℤ◌, ◌*ℤ◌, leb_ℤ, eqb_ℤ, wrap64,
}
use go_webhook_processor.Config.{Config, times, second}
use go_webhook_processor.Metrics.{inc_dead_letter_auto_retries, inc_dead_letter_auto_retry_failed}
use go_webhook_processor.World.{World, call, count}
use go_webhook_processor.Store.Schema.{
  EventStatus, queued, processing, processed, failed, RetryableDeadLetterDetail,
}
use go_webhook_processor.Store.Monad.{
  Env, Error, event_already_exists, dead_letter_not_found, dead_letter_not_failed,
  reservation_expired, failed_to, plain, Result, ok, err,
}
use go_webhook_processor.Store.DeadLetters.{replay_dead_letter}
use go_webhook_processor.Store.Retries.{
  claim_retryable_dead_letter_details, reschedule_dead_letter_retry_with_delay,
}
use Prim.Native.String.{◌++◌ as append}

abbrev pub day : ℤ
day = pos 86400000000000

-- Go's `/ 4`, which truncates towards zero.
abbrev pub quarter : ℤ → ℤ
quarter d = sub_ℕ (pos_part d / 4) (neg_part d / 4)

-- `for step := 1; step < attempt; step++ { delay *= 2; … }`: `none` is the return of 24 hours.
unfoldable pub doubled : ℕ → ℤ → Option ℤ
doubled zero delay = some delay
doubled (suc steps) delay =
    let delay' = wrap64 (delay *ℤ pos 2) in
    let rest = doubled steps delay' in if leb_ℤ day delay' then none else rest

-- `rand.Int63n`, which panics (`none`) unless its bound is positive.
abbrev pub jittered : (ℤ → ℤ) → ℤ → Option ℤ
jittered random delay =
    let bound = wrap64 (quarter delay +ℤ pos 1) in
    if eqb_ℤ (quarter delay) (pos 0)
    then some delay
    else if leb_ℤ bound (pos 0)
    then none
    else some (wrap64 (delay +ℤ random bound))

unfoldable pub retry_delay : (ℤ → ℤ) → ℤ → ℤ → Option ℤ
unfolding doubled
retry_delay random interval attempt = elim (doubled (pos_part (attempt -ℤ pos 1)) interval) [
  | none ↦ some day
  | some delay ↦ jittered random delay
]

-- `err.Error()`.
text_of : EventStatus → String
text_of queued = "queued"
text_of processing = "processing"
text_of processed = "processed"
text_of failed = "failed"

unfoldable pub message : Error → String
unfolding text_of
message event_already_exists = "event already exists"
message dead_letter_not_found = "dead letter not found"
message (dead_letter_not_failed status) =
    append "event is not failed: current status is " (text_of status)
message (reservation_expired _) = "outbox message reservation expired"
message (failed_to context cause) = append context (append ": " cause)
message (plain text) = text

pub record DlqRetryScheduler : Type 0 where
  pub env : Env
  pub interval : ℤ
  pub max_attempts : ℤ
  pub has_metrics : Bool
  pub random : ℕ → ℤ → ℤ  -- rand.Int63n, at each moment

unfoldable pub new_dlq_retry_scheduler : Env → (ℕ → ℤ → ℤ) → Config → DlqRetryScheduler
new_dlq_retry_scheduler env random config = record {
  env = env;
  interval = times config.dlq_auto_retry_interval_seconds second;
  max_attempts = config.dlq_auto_retry_max_attempts;
  has_metrics = true;
  random = random;
}

module _ (d : DlqRetryScheduler) where
  abbrev pub counted : World → World
  counted w = if d.has_metrics then count inc_dead_letter_auto_retries w else w

  abbrev pub counted_failure : World → World
  counted_failure w = if d.has_metrics then count inc_dead_letter_auto_retry_failed w else w

  -- A dead letter whose replay has failed; `none` is a panic.
  unfoldable pub reschedule : RetryableDeadLetterDetail → Error → World → Option World
  unfolding retry_delay message
  reschedule item error w =
      elim (retry_delay (d.random w.store.step) d.interval item.replay_attempt) [
        | none ↦ none
        | some delay ↦
            some
              (call
                (reschedule_dead_letter_retry_with_delay d.env item.event_id (message error) delay)
                w).1
      ]

  unfoldable pub retry_item : RetryableDeadLetterDetail → World → Option World
  unfolding reschedule
  retry_item item w =
      let (replayed, w1) = call (replay_dead_letter d.env item.event_id) (counted w) in
      elim replayed [ ok _ ↦ some w1 | err error ↦ reschedule item error (counted_failure w1) ]

  unfoldable pub retry_items : List RetryableDeadLetterDetail → World → Option World
  retry_items [] w = some w
  retry_items (item ∷ items) w = elim (retry_item item w) [
    | none ↦ none
    | some w1 ↦ retry_items items w1
  ]

  unfoldable pub retry : World → Option World
  unfolding retry_items
  retry w =
      let (claimed, w1) =
        call (claim_retryable_dead_letter_details d.env (pos 10) d.max_attempts) w in
      elim claimed [ err e ↦ some w1 | ok items ↦ retry_items items w1 ]

  -- The ticks of `run` after the first round, until its context ends.
  unfoldable pub retry_ticks : ℕ → World → Option World
  retry_ticks zero w = some w
  retry_ticks (suc ticks) w = elim (retry w) [ none ↦ none | some w1 ↦ retry_ticks ticks w1 ]

  -- A round, and one for each tick. time.NewTicker panics unless its interval is positive.
  unfoldable pub run : ℕ → World → Option World
  unfolding retry_ticks
  run ticks w = elim (retry w) [
    | none ↦ none
    | some w1 ↦ if leb_ℤ d.interval (pos 0) then none else retry_ticks ticks w1
  ]

  -- The goroutine of Start, which is there unless the limit is 0.
  unfoldable pub start : ℕ → World → Option World
  unfolding run
  start ticks w = if eqb_ℤ d.max_attempts (pos 0) then some w else run ticks w
