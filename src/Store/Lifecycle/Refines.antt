-- ===== src/Store/Lifecycle/Refines.antt =====
-- Each method of `EventStore` is a step of the life of each event.
use go_webhook_processor.Prelude.{
  ◌+◌, String, ◌≡◌, refl, ap, ◌∙◌, ◌⊎◌, inl, inr, Bool, true, none, some, List, arith, Option-cases,
  Bool-cases, eq_iff, ◌==◌, sym,
}
use go_webhook_processor.Prelude.Int.{ℤ, ◌-ℤ◌}
use go_webhook_processor.Prelude.Table.{find, find-append_new, find-update, find-key, update_where}
use go_webhook_processor.Models.{Event}
use go_webhook_processor.Store.Schema.{failed, EventRow, Db, event_key, OutboxMessage}
use go_webhook_processor.Store.Monad.{
  Env, event_already_exists, dead_letter_not_found, dead_letter_not_failed, reservation_expired,
  failed_to, plain, Result, ok, err, State,
}
use go_webhook_processor.Store.Outbox.{
  claim_pending_outbox, mark_outbox_published, mark_outbox_failed,
}
use go_webhook_processor.Store.Events.{
  is_free_event, is_event, start_row, processed_row, failed_row, queued_row,
  save_queued_with_outbox, claim_for_processing, mark_processed, mark_failed,
}
use go_webhook_processor.Store.Events.Accept.{
  SameRows, Accepted, SaveAnswer, save_queued_with_outbox_atomic,
}
use go_webhook_processor.Store.DeadLetters.{
  save_dead_letter, replay_dead_letter, upsert_dead_letter,
}
use go_webhook_processor.Store.DeadLetters.Replay.{
  Replayed, ReplayAnswer, replay_dead_letter_answers,
}
use go_webhook_processor.Store.Retries.{
  claim_retryable_dead_letter_details, claim_retryable_dead_letters, reschedule_dead_letter_retry,
  reschedule_dead_letter_retry_with_delay,
}
use go_webhook_processor.Store.Invariant.{IsValid}
use go_webhook_processor.Store.Invariant.Calls.{
  Method, save, claim, finish, fail, reserve_batch, publish, unpublish, bury, replay,
  claim_dead_letters, postpone, claim_ids, retry_now, perform,
}
use go_webhook_processor.Store.Lifecycle.{status_of, life_of, Step}

-- An UPDATE of the event of one id, by the statuses: it passes the event by, or sets its row.
life_of-update :
    (p : EventRow → Bool) (f : EventRow → EventRow) (k id : String) (rows : List EventRow)
    → ((r : EventRow) → (f r).id ≡ r.id)
    → ((r : EventRow) → p r ≡ true → (r.id == k) ≡ true)
    → let after = find event_key id (update_where p f rows) in
      (status_of after ≡ status_of (find event_key id rows))
      ⊎ ((k ≡ id)
          × ((r : EventRow) × (find event_key id rows ≡ some r)
              × (p r ≡ true)
              × (status_of after ≡ some (f r).status)))
life_of-update p f k id rows same only = elim (Option-cases (find event_key id rows)) [
  | inl no_row ↦ ground (arith, find-update event_key p f same id rows)
  | inr (r, row) ↦ elim (Bool-cases (p r)) [
    | inl hit ↦ inr (
      sym ((eq_iff r.id k).0 (only r hit)) ∙ find-key event_key id rows r row,
      (r, row, hit, ground (arith, find-update event_key p f same id rows)),
    )
    | inr missed ↦ ground (arith, find-update event_key p f same id rows)
  ]
]

module _ (env : Env) (id : String) (s : State) where
  claim-Step :
      (k : String) (lease : ℤ)
      → Step id (claim k lease) (life_of id s.db) (life_of id (perform env (claim k lease) s).db)
  unfolding claim_for_processing
  claim-Step k lease = ground (
    arith,
    life_of-update (is_free_event k (env.clock s.step -ℤ lease)) (start_row (env.clock s.step)) k id
        s.db.events (λ r. refl) (λ r h. ground arith),
  )

  finish-Step :
      (k : String) (attempts : ℤ)
      → Step id
          (finish k attempts)
          (life_of id s.db)
          (life_of id (perform env (finish k attempts) s).db)
  unfolding mark_processed
  finish-Step k attempts = ground (
    arith,
    life_of-update (is_event k) (processed_row attempts (env.clock s.step)) k id s.db.events
        (λ r. refl) (λ r h. h),
  )

  fail-Step :
      (k : String) (attempts : ℤ) (error : String)
      → Step id
          (fail k attempts error)
          (life_of id s.db)
          (life_of id (perform env (fail k attempts error) s).db)
  unfolding mark_failed
  fail-Step k attempts error = ground (
    arith,
    life_of-update (is_event k) (failed_row attempts error (env.clock s.step)) k id s.db.events
        (λ r. refl) (λ r h. h),
  )

-- The methods that leave the events alone.
module _ (env : Env) (s : State) where
  reserve-events :
      (limit lease : ℤ) → (claim_pending_outbox env limit lease s).1.db.events ≡ s.db.events
  unfolding claim_pending_outbox
  reserve-events limit lease = ground arith

  pub publish-events :
      (m : OutboxMessage) → (mark_outbox_published env m s).1.db.events ≡ s.db.events
  unfolding mark_outbox_published
  publish-events m = ground arith

  pub unpublish-events :
      (m : OutboxMessage) (e : String) → (mark_outbox_failed env m e s).1.db.events ≡ s.db.events
  unfolding mark_outbox_failed
  unpublish-events m e = ground arith

  bury-events :
      (event : Event) (e : String) (n : ℤ)
      → (save_dead_letter env event e n s).1.db.events ≡ s.db.events
  unfolding save_dead_letter upsert_dead_letter
  bury-events event e n = ground arith

  claim_letters-events :
      (limit max : ℤ)
      → (claim_retryable_dead_letter_details env limit max s).1.db.events ≡ s.db.events
  unfolding claim_retryable_dead_letter_details
  claim_letters-events limit max = ground arith

  claim_ids-events :
      (limit max : ℤ) → (claim_retryable_dead_letters env limit max s).1.db.events ≡ s.db.events
  unfolding claim_retryable_dead_letters
  claim_ids-events limit max = ground arith

  postpone-events :
      (id e : String) (delay : ℤ)
      → (reschedule_dead_letter_retry_with_delay env id e delay s).1.db.events ≡ s.db.events
  unfolding reschedule_dead_letter_retry_with_delay
  postpone-events id e delay = ground arith

  retry_now-events :
      (id e : String) → (reschedule_dead_letter_retry env id e s).1.db.events ≡ s.db.events
  unfolding reschedule_dead_letter_retry
  retry_now-events id e = ground arith

-- Acceptance, by the answers of SaveQueuedWithOutbox.
module _ (id : String) (event : Event) (payload : String) (at : ℤ) (before after : Db) where
  same-Step : SameRows before after → Step id (save event) (life_of id before) (life_of id after)
  same-Step same = inl (ap (λ rows. status_of (find event_key id rows)) same.events)

  Accepted-Step :
      find event_key event.id before.events ≡ none
      → Accepted event payload at before after
      → Step id (save event) (life_of id before) (life_of id after)
  Accepted-Step new a = ground (
    arith,
    ap (find event_key id) a.events,
    find-append_new event_key id (queued_row event payload at) before.events new,
    eq_iff event.id id,
    ap (λ k. find event_key k before.events) {x = event.id} {y = id},
  )

  answer-Step :
      (r : Result (Unit {0}))
      → SaveAnswer event payload at before after r
      → Step id (save event) (life_of id before) (life_of id after)
  answer-Step (ok _) (new, a) = Accepted-Step new a
  answer-Step (err event_already_exists) a = same-Step a.1
  answer-Step (err (failed_to _ _)) (inl same) = same-Step same
  answer-Step (err (failed_to _ _)) (inr (new, a)) = Accepted-Step new a
  answer-Step (err dead_letter_not_found) a = absurd a
  answer-Step (err (dead_letter_not_failed _)) a = absurd a
  answer-Step (err (reservation_expired _)) a = absurd a
  answer-Step (err (plain _)) a = absurd a

-- The replay, by the answers of ReplayDeadLetter.
module _ (id k : String) (at : ℤ) (before after : Db) where
  unchanged-Step : SameRows before after → Step id (replay k) (life_of id before) (life_of id after)
  unchanged-Step same = inl (ap (λ rows. status_of (find event_key id rows)) same.events)

  ReplayAnswer-Step :
      (e : EventRow)
      → find event_key k before.events ≡ some e
      → e.status ≡ failed
      → Replayed k at e before after
      → Step id (replay k) (life_of id before) (life_of id after)
  ReplayAnswer-Step e row st done = elim (done.other_events id) [
    | inl same ↦ ground (
      arith,
      done.event,
      ap (λ t. find event_key t before.events) same,
      ap (λ t. find event_key t after.events) same,
    )
    | inr kept ↦ inl (ap status_of kept)
  ]

  replay_answer-Step :
      (r : Result (Unit {0}))
      → ReplayAnswer k at before after r
      → Step id (replay k) (life_of id before) (life_of id after)
  replay_answer-Step (ok _) (e, row, st, l, done) = ReplayAnswer-Step e row st done
  replay_answer-Step (err dead_letter_not_found) a = unchanged-Step a.1
  replay_answer-Step (err (dead_letter_not_failed _)) (e, row, st, ne, same) = unchanged-Step same
  replay_answer-Step (err (failed_to _ _)) (inl same) = unchanged-Step same
  replay_answer-Step (err (failed_to _ _)) (inr (e, row, st, done)) =
      ReplayAnswer-Step e row st done
  replay_answer-Step (err event_already_exists) a = absurd a
  replay_answer-Step (err (reservation_expired _)) a = absurd a
  replay_answer-Step (err (plain _)) a = absurd a

module _ (env : Env) (id : String) (s : State) where
  unmarshalled :
      (event : Event)
      → env.marshal event.payload ≡ none
      → Step id (save event) (life_of id s.db) (life_of id (perform env (save event) s).db)
  unfolding save_queued_with_outbox
  unmarshalled event e = ground arith

  save-Step :
      (event : Event)
      → Step id (save event) (life_of id s.db) (life_of id (perform env (save event) s).db)
  save-Step event = elim (Option-cases (env.marshal event.payload)) [
    | inl refused_payload ↦ unmarshalled event refused_payload
    | inr (payload, e) ↦
        answer-Step id event payload (env.clock (s.step + 1)) s.db (perform env (save event) s).db
          (save_queued_with_outbox env event s).0
          (save_queued_with_outbox_atomic env event payload s e)
  ]

  kept-Step :
      (method : Method)
      → (perform env method s).db.events ≡ s.db.events
      → Step id method (life_of id s.db) (life_of id (perform env method s).db)
  kept-Step method same = inl (ap (λ rows. status_of (find event_key id rows)) same)

  pub perform-Step :
      IsValid s.db
      → (method : Method) → Step id method (life_of id s.db) (life_of id (perform env method s).db)
  perform-Step v (save event) = save-Step event
  perform-Step v (claim k lease) = claim-Step env id s k lease
  perform-Step v (finish k attempts) = finish-Step env id s k attempts
  perform-Step v (fail k attempts error) = fail-Step env id s k attempts error
  perform-Step v (replay k) =
      replay_answer-Step id k (env.clock (s.step + 1 + 1)) s.db (perform env (replay k) s).db
        (replay_dead_letter env k s).0 (replay_dead_letter_answers env k s v)
  perform-Step v (reserve_batch limit lease) =
      kept-Step (reserve_batch limit lease) (reserve-events env s limit lease)
  perform-Step v (publish m) = kept-Step (publish m) (publish-events env s m)
  perform-Step v (unpublish m error) =
      kept-Step (unpublish m error) (unpublish-events env s m error)
  perform-Step v (bury event error n) =
      kept-Step (bury event error n) (bury-events env s event error n)
  perform-Step v (claim_dead_letters limit max) =
      kept-Step (claim_dead_letters limit max) (claim_letters-events env s limit max)
  perform-Step v (postpone k error delay) =
      kept-Step (postpone k error delay) (postpone-events env s k error delay)
  perform-Step v (claim_ids limit max) =
      kept-Step (claim_ids limit max) (claim_ids-events env s limit max)
  perform-Step v (retry_now k error) =
      kept-Step (retry_now k error) (retry_now-events env s k error)
