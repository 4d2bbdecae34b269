-- ===== src/Store/Invariant/Calls.antt =====
-- Calls of `EventStore` from any number of processes, one after the other: each has an environment
-- of its own, so its own clocks, random source and answers of the database.
use go_webhook_processor.Prelude.{String, refl, arith, List, [], ◌∷◌}
use go_webhook_processor.Prelude.Int.{ℤ}
use go_webhook_processor.Models.{Event}
use go_webhook_processor.Store.Schema.{Db, OutboxMessage}
use go_webhook_processor.Store.Monad.{Env, State}
use go_webhook_processor.Store.Outbox.{
  claim_pending_outbox, mark_outbox_published, mark_outbox_failed,
}
use go_webhook_processor.Store.Events.{
  save_queued_with_outbox, claim_for_processing, mark_processed, mark_failed,
}
use go_webhook_processor.Store.DeadLetters.{save_dead_letter, replay_dead_letter}
use go_webhook_processor.Store.Retries.{
  claim_retryable_dead_letter_details, claim_retryable_dead_letters, reschedule_dead_letter_retry,
  reschedule_dead_letter_retry_with_delay,
}
use go_webhook_processor.Store.Invariant.{IsValid}
use go_webhook_processor.Store.Invariant.Methods.{
  save_queued_with_outbox-IsValid, claim_for_processing-IsValid, mark_processed-IsValid,
  mark_failed-IsValid, claim_pending_outbox-IsValid, mark_outbox_published-IsValid,
  mark_outbox_failed-IsValid, save_dead_letter-IsValid, replay_dead_letter-IsValid,
  claim_retryable_dead_letter_details-IsValid, claim_retryable_dead_letters-IsValid,
  reschedule_dead_letter_retry-IsValid, reschedule_dead_letter_retry_with_delay-IsValid,
}

-- The methods that write, with their arguments.
pub data Method : Type 0 where
  save : Event → Method
  claim : String → ℤ → Method
  finish : String → ℤ → Method
  fail : String → ℤ → String → Method
  reserve_batch : ℤ → ℤ → Method
  publish : OutboxMessage → Method
  unpublish : OutboxMessage → String → Method
  bury : Event → String → ℤ → Method
  replay : String → Method
  claim_dead_letters : ℤ → ℤ → Method
  postpone : String → String → ℤ → Method
  claim_ids : ℤ → ℤ → Method
  retry_now : String → String → Method

abbrev pub perform : Env → Method → State → State
perform env (save event) s = (save_queued_with_outbox env event s).1
perform env (claim id lease) s = (claim_for_processing env id lease s).1
perform env (finish id attempts) s = (mark_processed env id attempts s).1
perform env (fail id attempts error) s = (mark_failed env id attempts error s).1
perform env (reserve_batch limit lease) s = (claim_pending_outbox env limit lease s).1
perform env (publish m) s = (mark_outbox_published env m s).1
perform env (unpublish m error) s = (mark_outbox_failed env m error s).1
perform env (bury event error attempts) s = (save_dead_letter env event error attempts s).1
perform env (replay id) s = (replay_dead_letter env id s).1
perform env (claim_dead_letters limit max) s =
    (claim_retryable_dead_letter_details env limit max s).1
perform env (postpone id error delay) s =
    (reschedule_dead_letter_retry_with_delay env id error delay s).1
perform env (claim_ids limit max) s = (claim_retryable_dead_letters env limit max s).1
perform env (retry_now id error) s = (reschedule_dead_letter_retry env id error s).1

pub record Call : Type 0 where
  pub env : Env
  pub method : Method

abbrev pub perform_all : List Call → State → State
perform_all [] s = s
perform_all (c ∷ calls) s = perform_all calls (perform c.env c.method s)

abbrev pub empty_db : Db
empty_db = record { events = []; outbox = []; outbox_seq = 1; dead_letters = [] }

perform-IsValid :
    (env : Env) (method : Method) (s : State) → IsValid s.db → IsValid (perform env method s).db
perform-IsValid env (save event) s v = save_queued_with_outbox-IsValid env event s v
perform-IsValid env (claim id lease) s v = claim_for_processing-IsValid env id lease s v
perform-IsValid env (finish id attempts) s v = mark_processed-IsValid env id attempts s v
perform-IsValid env (fail id attempts error) s v = mark_failed-IsValid env id attempts error s v
perform-IsValid env (reserve_batch limit lease) s v =
    claim_pending_outbox-IsValid env limit lease s v
perform-IsValid env (publish m) s v = mark_outbox_published-IsValid env m s v
perform-IsValid env (unpublish m error) s v = mark_outbox_failed-IsValid env m error s v
perform-IsValid env (bury event error attempts) s v =
    save_dead_letter-IsValid env event error attempts s v
perform-IsValid env (replay id) s v = replay_dead_letter-IsValid env id s v
perform-IsValid env (claim_dead_letters limit max) s v =
    claim_retryable_dead_letter_details-IsValid env limit max s v
perform-IsValid env (postpone id error delay) s v =
    reschedule_dead_letter_retry_with_delay-IsValid env id error delay s v
perform-IsValid env (claim_ids limit max) s v =
    claim_retryable_dead_letters-IsValid env limit max s v
perform-IsValid env (retry_now id error) s v = reschedule_dead_letter_retry-IsValid env id error s v

pub empty_db-IsValid : IsValid empty_db
empty_db-IsValid = record {
  events = tt;
  outbox = tt;
  letters = tt;
  numbered = ground arith;
  linked = λ k. refl;
}

-- Any sequence of calls of the writing methods of EventStore, from any processes with any clocks
-- and any answers of the database, keeps the tables valid: ids are distinct, message numbers
-- ascend below the sequence, and an event has a row exactly when it has an outbox message.
pub perform_all-IsValid :
    (calls : List Call) (s : State) → IsValid s.db → IsValid (perform_all calls s).db
perform_all-IsValid [] s v = v
perform_all-IsValid (c ∷ calls) s v =
    perform_all-IsValid calls (perform c.env c.method s) (perform-IsValid c.env c.method s v)
