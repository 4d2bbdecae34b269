-- ===== src/Dlq/Total.antt =====
-- The rounds of the automatic retry of dlq_retry.go, and whether they end.
use go_webhook_processor.Prelude.{
  ℕ, zero, suc, Bool-cases, arith, ◌<◌, ◌≡◌, refl, inl, inr, some, List, [], ◌∷◌,
}
use go_webhook_processor.Prelude.Int.{ℤ, pos, eqb_ℤ}
use go_webhook_processor.World.{World, call}
use go_webhook_processor.Store.Schema.{RetryableDeadLetterDetail}
use go_webhook_processor.Store.Monad.{Error, Result, Result-cases}
use go_webhook_processor.Store.DeadLetters.{replay_dead_letter}
use go_webhook_processor.Store.Retries.{
  claim_retryable_dead_letter_details, reschedule_dead_letter_retry_with_delay,
}
use go_webhook_processor.Dlq.{
  DlqRetryScheduler, message, counted, counted_failure, reschedule, retry_item, retry_items, retry,
  retry_delay, retry_ticks, run, start,
}
use go_webhook_processor.Dlq.Delay.{retry_delay_total}

module _ (d : DlqRetryScheduler) (interval : ℕ)
    (law : (step n : ℕ) → 0 < n → (r : ℕ) × (d.random step (pos n) ≡ pos r) × (r < n))
    (is_interval : d.interval ≡ pos interval) (some_time : 0 < interval)
    (under_a_day : interval < 86400000000000) where
  delay_of :
      (item : RetryableDeadLetterDetail) (w : World)
      → (delay : ℤ) × (retry_delay (d.random w.store.step) d.interval item.replay_attempt
          ≡ some delay)
  delay_of item w = rw is_interval (
      retry_delay_total (d.random w.store.step) interval item.replay_attempt (law w.store.step)
        some_time under_a_day)

  reschedule_total :
      (item : RetryableDeadLetterDetail) (error : Error) (w : World)
      → (after : World) × (reschedule d item error w ≡ some after)
  unfolding reschedule
  reschedule_total item error w =
      let (delay, e) = delay_of item w in
      (
        (call (reschedule_dead_letter_retry_with_delay d.env item.event_id (message error) delay)
            w).1,
        rw (e, reschedule),
      )

  abbrev replaying : RetryableDeadLetterDetail → World → Result (Unit {0}) × World
  replaying item w = call (replay_dead_letter d.env item.event_id) (counted d w)

  retry_item_total :
      (item : RetryableDeadLetterDetail) (w : World)
      → (after : World) × (retry_item d item w ≡ some after)
  unfolding retry_item
  retry_item_total item w = elim (Result-cases (replaying item w).0) [
    | inl (x, e) ↦
        let (after, h) = reschedule_total item x (counted_failure d (replaying item w).1) in
        (after, rw (e, retry_item) h)
    | inr (_, e) ↦ ((replaying item w).1, rw (e, retry_item))
  ]

  retry_items_total :
      (items : List RetryableDeadLetterDetail) (w : World)
      → (after : World) × (retry_items d items w ≡ some after)
  unfolding retry_items
  retry_items_total [] w = (w, refl)
  retry_items_total (item ∷ items) w =
      let (w1, e) = retry_item_total item w in
      let (after, h) = retry_items_total items w1 in (after, rw (e, retry_items) h)

  abbrev claiming : World → Result (List RetryableDeadLetterDetail) × World
  claiming w = call (claim_retryable_dead_letter_details d.env (pos 10) d.max_attempts) w

  pub retry_total : (w : World) → (after : World) × (retry d w ≡ some after)
  unfolding retry
  retry_total w = elim (Result-cases (claiming w).0) [
    | inl (x, e) ↦ ((claiming w).1, rw (e, retry))
    | inr (items, e) ↦
        let (after, h) = retry_items_total items (claiming w).1 in (after, rw (e, retry) h)
  ]

  retry_ticks_total :
      (ticks : ℕ) (w : World) → (after : World) × (retry_ticks d ticks w ≡ some after)
  unfolding retry_ticks
  retry_ticks_total zero w = (w, refl)
  retry_ticks_total (suc ticks) w =
      let (w1, e) = retry_total w in
      let (after, h) = retry_ticks_total ticks w1 in (after, rw (e, retry_ticks) h)

  run_total : (ticks : ℕ) (w : World) → (after : World) × (run d ticks w ≡ some after)
  unfolding run
  run_total ticks w =
      let (w1, e) = retry_total w in
      let (after, h) = retry_ticks_total ticks w1 in
      (after, ground (arith, e, h, is_interval, some_time))

  -- For a scheduler with a positive interval of less than a day and a random source that answers
  -- n > 0 with a number below n at each moment, the goroutine of Start comes to the end of any
  -- number of ticks without a panic, whatever the database answers.
  pub start_total : (ticks : ℕ) (w : World) → (after : World) × (start d ticks w ≡ some after)
  unfolding start
  start_total ticks w = elim (Bool-cases (eqb_ℤ d.max_attempts (pos 0))) [
    | inl off ↦ (w, rw (off, start))
    | inr on ↦ let (after, h) = run_total ticks w in (after, rw (on, start) h)
  ]
