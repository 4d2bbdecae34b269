-- ===== src/Store/Invariant/Methods.antt =====
-- Each method of `EventStore` keeps the invariant of the tables.
use go_webhook_processor.Prelude.{
  ◌+◌, Option, some, String, refl, none, arith, inl, inr, Option-cases,
}
use go_webhook_processor.Prelude.Int.{ℤ, pos_part, ◌-ℤ◌, ◌+ℤ◌}
use go_webhook_processor.Prelude.Table.{find}
use go_webhook_processor.Models.{Event}
use go_webhook_processor.Store.Schema.{EventRow, Db, OutboxMessage, event_key}
use go_webhook_processor.Store.Monad.{Env, State}
use go_webhook_processor.Store.Monad.Keeps.{
  Keeps, Commits, Keeps-Commits, Keeps-transaction, Keeps-bind, Keeps-marshal, Keeps-raise,
  Keeps-pure, keeps_rules,
}
use go_webhook_processor.Text.Hex.{hex_encode}
use go_webhook_processor.Store.Outbox.{
  claim_pending_outbox, mark_outbox_published, mark_outbox_failed, is_reserved, candidates,
  is_chosen, reserve, publish_row, fail_row,
}
use go_webhook_processor.Store.Events.{
  update_events, is_event, is_free_event, start_row, processed_row, failed_row, save_body,
  save_queued_with_outbox, claim_for_processing, mark_processed, mark_failed,
}
use go_webhook_processor.Store.DeadLetters.{
  is_failed_event, requeue_row, is_message_of, reopen_row, is_letter, replayed_row, select_replay,
  or_not_found, update_outbox, update_letters, letter_row, save_dead_letter, replay_body,
  replay_dead_letter,
}
use go_webhook_processor.Store.Retries.{
  count_retry, has_key, retry_candidates, is_open_letter, reschedule_row,
  claim_retryable_dead_letter_details, claim_retryable_dead_letters, reschedule_dead_letter_retry,
  reschedule_dead_letter_retry_with_delay,
}
use go_webhook_processor.Store.Invariant.{
  IsValid, accept-IsValid, update_events-IsValid, update_outbox-IsValid, update_letters-IsValid,
  upsert-IsValid, insert_outbox-IsValid, rollback-IsValid,
}

select_replay-IsValid : (id : String) (db : Db) → IsValid db → IsValid (select_replay id db).0
unfolding select_replay
select_replay-IsValid id db v = v

or_not_found-IsValid : (o : Option EventRow) → Keeps IsValid (or_not_found o)
unfolding or_not_found
or_not_found-IsValid none = Keeps-raise _
or_not_found-IsValid (some e) = Keeps-pure e

requeue-IsValid :
    (id : String) (at : ℤ) (db : Db)
    → IsValid db
    → IsValid (update_events (is_failed_event id) (requeue_row at) db).0
unfolding update_events
requeue-IsValid id at db v = update_events-IsValid _ _ (λ r. refl) db v

reopen-IsValid :
    (id : String) (db : Db)
    → IsValid db
    → IsValid (update_outbox (is_message_of id) reopen_row db).0
unfolding update_outbox
reopen-IsValid id db v = update_outbox-IsValid _ _ (λ r. refl) (λ r. refl) db v

replayed-IsValid :
    (id : String) (at : ℤ) (db : Db)
    → IsValid db
    → IsValid (update_letters (is_letter id) (replayed_row at) db).0
unfolding update_letters
replayed-IsValid id at db v = update_letters-IsValid _ _ (λ r. refl) db v

ruleset replay_rules = (
  select_replay-IsValid, or_not_found-IsValid, requeue-IsValid, reopen-IsValid, replayed-IsValid,
  insert_outbox-IsValid,
)

module _ (env : Env) where
  save_body-Commits :
      (event : Event) (payload : String) → Commits IsValid (save_body env event payload)
  unfolding save_body
  save_body-Commits event payload = record {
    at = λ s v a e. elim (Option-cases (find event_key event.id s.db.events)) [
      | inl new ↦ ground (arith, accept-IsValid event payload (env.clock s.step) s.db v new)
      | inr (r, old) ↦ ground arith
    ];
  }

  pub save_queued_with_outbox-IsValid :
      (event : Event) (s : State)
      → IsValid s.db
      → IsValid (save_queued_with_outbox env event s).1.db
  unfolding save_queued_with_outbox
  save_queued_with_outbox-IsValid event s v =
      (Keeps-bind _ _ (Keeps-marshal env _ _) (λ payload.
          Keeps-transaction env "begin event transaction" "commit event transaction"
            (save_body env event payload) (save_body-Commits event payload) rollback-IsValid)).at
        s v

  pub claim_for_processing-IsValid :
      (id : String) (lease : ℤ) (s : State)
      → IsValid s.db
      → IsValid (claim_for_processing env id lease s).1.db
  unfolding claim_for_processing
  claim_for_processing-IsValid id lease s v = ground (
    arith,
    update_events-IsValid (is_free_event id (env.clock s.step -ℤ lease))
        (start_row (env.clock s.step)) (λ r. refl) s.db v,
  )

  pub mark_processed-IsValid :
      (id : String) (attempts : ℤ) (s : State)
      → IsValid s.db
      → IsValid (mark_processed env id attempts s).1.db
  unfolding mark_processed
  mark_processed-IsValid id attempts s v = ground (
    arith,
    update_events-IsValid (is_event id) (processed_row attempts (env.clock s.step)) (λ r. refl) s.db
        v,
  )

  pub mark_failed-IsValid :
      (id : String) (attempts : ℤ) (error : String) (s : State)
      → IsValid s.db
      → IsValid (mark_failed env id attempts error s).1.db
  unfolding mark_failed
  mark_failed-IsValid id attempts error s v = ground (
    arith,
    update_events-IsValid (is_event id) (failed_row attempts error (env.clock s.step)) (λ r. refl)
        s.db v,
  )

  pub claim_pending_outbox-IsValid :
      (limit lease : ℤ) (s : State)
      → IsValid s.db
      → IsValid (claim_pending_outbox env limit lease s).1.db
  unfolding claim_pending_outbox
  claim_pending_outbox-IsValid limit lease s v = elim (Option-cases (env.random s.step)) [
    | inl e ↦ ground arith
    | inr (bytes, e) ↦ ground (
      arith,
      update_outbox-IsValid
          (is_chosen (
            candidates (env.locked_outbox (s.step + 1 + 1)) (env.clock (s.step + 1) -ℤ lease)
              (pos_part limit) s.db.outbox))
          (reserve (hex_encode bytes) (env.clock (s.step + 1))) (λ r. refl) (λ r. refl) s.db v,
    )
  ]

  pub mark_outbox_published-IsValid :
      (m : OutboxMessage) (s : State) → IsValid s.db → IsValid (mark_outbox_published env m s).1.db
  unfolding mark_outbox_published
  mark_outbox_published-IsValid m s v = ground (
    arith,
    update_outbox-IsValid (is_reserved m) (publish_row (env.clock s.step)) (λ r. refl) (λ r. refl)
        s.db v,
  )

  pub mark_outbox_failed-IsValid :
      (m : OutboxMessage) (error : String) (s : State)
      → IsValid s.db
      → IsValid (mark_outbox_failed env m error s).1.db
  unfolding mark_outbox_failed
  mark_outbox_failed-IsValid m error s v =
      ground (
        arith,
        update_outbox-IsValid (is_reserved m) (fail_row error) (λ r. refl) (λ r. refl) s.db v,
      )

  pub save_dead_letter-IsValid :
      (event : Event) (error : String) (attempts : ℤ) (s : State)
      → IsValid s.db
      → IsValid (save_dead_letter env event error attempts s).1.db
  unfolding save_dead_letter
  save_dead_letter-IsValid event error attempts s v =
      elim (Option-cases (env.marshal event.payload)) [
        | inl e ↦ ground arith
        | inr (payload, e) ↦ ground (
          arith,
          upsert-IsValid
              (letter_row event payload error attempts (env.clock s.step) (env.clock (s.step + 1)))
              (env.db_clock (s.step + 1 + 1)) s.db v,
        )
      ]

  replay_body-IsValid : (id : String) → Keeps IsValid (replay_body env id)
  unfolding replay_body
  replay_body-IsValid id = search (keeps_rules, replay_rules) depth 20

  pub replay_dead_letter-IsValid :
      (id : String) (s : State) → IsValid s.db → IsValid (replay_dead_letter env id s).1.db
  unfolding replay_dead_letter
  replay_dead_letter-IsValid id s v =
      (Keeps-transaction env "begin dead letter replay" "commit dead letter replay"
          (replay_body env id) (Keeps-Commits _ (replay_body-IsValid id)) rollback-IsValid).at
        s v

  pub claim_retryable_dead_letter_details-IsValid :
      (limit max_attempts : ℤ) (s : State)
      → IsValid s.db
      → IsValid (claim_retryable_dead_letter_details env limit max_attempts s).1.db
  unfolding claim_retryable_dead_letter_details
  claim_retryable_dead_letter_details-IsValid limit max_attempts s v = ground (
    arith,
    update_letters-IsValid
        (has_key (
          retry_candidates (env.locked_dead_letter (s.step + 1)) (env.clock s.step) max_attempts
            (pos_part limit) s.db.dead_letters))
        count_retry (λ r. refl) s.db v,
  )

  pub reschedule_dead_letter_retry_with_delay-IsValid :
      (id error : String) (delay : ℤ) (s : State)
      → IsValid s.db
      → IsValid (reschedule_dead_letter_retry_with_delay env id error delay s).1.db
  unfolding reschedule_dead_letter_retry_with_delay
  reschedule_dead_letter_retry_with_delay-IsValid id error delay s v = ground (
    arith,
    update_letters-IsValid (is_open_letter id) (reschedule_row (env.clock s.step +ℤ delay) error)
        (λ r. refl) s.db v,
  )

  pub claim_retryable_dead_letters-IsValid :
      (limit max_attempts : ℤ) (s : State)
      → IsValid s.db
      → IsValid (claim_retryable_dead_letters env limit max_attempts s).1.db
  unfolding claim_retryable_dead_letters
  claim_retryable_dead_letters-IsValid limit max_attempts s v = ground (
    arith,
    update_letters-IsValid
        (has_key (
          retry_candidates (env.locked_dead_letter (s.step + 1)) (env.clock s.step) max_attempts
            (pos_part limit) s.db.dead_letters))
        count_retry (λ r. refl) s.db v,
  )

  pub reschedule_dead_letter_retry-IsValid :
      (id error : String) (s : State)
      → IsValid s.db
      → IsValid (reschedule_dead_letter_retry env id error s).1.db
  unfolding reschedule_dead_letter_retry
  reschedule_dead_letter_retry-IsValid id error s v = ground (
    arith,
    update_letters-IsValid (is_open_letter id) (reschedule_row (env.clock s.step) error) (λ r. refl)
        s.db v,
  )
