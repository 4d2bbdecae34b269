-- ===== src/System/Untouched.antt =====
-- The methods of `EventStore` that leave the outbox alone.
use go_webhook_processor.Prelude.{String, ◌≡◌, arith}
use go_webhook_processor.Prelude.Int.{ℤ}
use go_webhook_processor.Models.{Event}
use go_webhook_processor.Store.Monad.{Env, State}
use go_webhook_processor.Store.Events.{claim_for_processing, mark_processed, mark_failed}
use go_webhook_processor.Store.DeadLetters.{save_dead_letter, upsert_dead_letter}
use go_webhook_processor.Store.Retries.{
  claim_retryable_dead_letter_details, claim_retryable_dead_letters, reschedule_dead_letter_retry,
  reschedule_dead_letter_retry_with_delay,
}

module _ (env : Env) (s : State) where
  pub claim-outbox :
      (id : String) (lease : ℤ) → (claim_for_processing env id lease s).1.db.outbox ≡ s.db.outbox
  unfolding claim_for_processing
  claim-outbox id lease = ground arith

  pub finish-outbox : (id : String) (n : ℤ) → (mark_processed env id n s).1.db.outbox ≡ s.db.outbox
  unfolding mark_processed
  finish-outbox id n = ground arith

  pub fail-outbox :
      (id : String) (n : ℤ) (e : String) → (mark_failed env id n e s).1.db.outbox ≡ s.db.outbox
  unfolding mark_failed
  fail-outbox id n e = ground arith

  pub bury-outbox :
      (event : Event) (e : String) (n : ℤ)
      → (save_dead_letter env event e n s).1.db.outbox ≡ s.db.outbox
  unfolding save_dead_letter upsert_dead_letter
  bury-outbox event e n = ground arith

  pub claim_letters-outbox :
      (limit max : ℤ)
      → (claim_retryable_dead_letter_details env limit max s).1.db.outbox ≡ s.db.outbox
  unfolding claim_retryable_dead_letter_details
  claim_letters-outbox limit max = ground arith

  pub claim_ids-outbox :
      (limit max : ℤ) → (claim_retryable_dead_letters env limit max s).1.db.outbox ≡ s.db.outbox
  unfolding claim_retryable_dead_letters
  claim_ids-outbox limit max = ground arith

  pub postpone-outbox :
      (id e : String) (delay : ℤ)
      → (reschedule_dead_letter_retry_with_delay env id e delay s).1.db.outbox ≡ s.db.outbox
  unfolding reschedule_dead_letter_retry_with_delay
  postpone-outbox id e delay = ground arith

  pub retry_now-outbox :
      (id e : String) → (reschedule_dead_letter_retry env id e s).1.db.outbox ≡ s.db.outbox
  unfolding reschedule_dead_letter_retry
  retry_now-outbox id e = ground arith
