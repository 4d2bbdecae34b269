-- ===== src/Tests/Service.antt =====
-- The theorems on the whole service, along short paths: an event is accepted, published, and handled.
use go_webhook_processor.Prelude.{◌≡◌, refl, ◌⊎◌, true, false, some, [], ◌∷◌}
use go_webhook_processor.Prelude.Table.{find}
use go_webhook_processor.Store.DeadLetters.{
  save_dead_letter, replay_dead_letter, select_replay, or_not_found, update_outbox, update_letters,
}
use go_webhook_processor.Prelude.Int.{pos, wrap64, ◌+ℤ◌}
use go_webhook_processor.Text.Hex.{digit}
use go_webhook_processor.Store.Events.{
  save_queued_with_outbox, claim_for_processing, mark_processed, mark_failed,
}
use go_webhook_processor.Store.Outbox.{claim_pending_outbox, decode_messages, mark_outbox_published}
use go_webhook_processor.Outbox.{dispatch_pending}
use go_webhook_processor.Worker.{
  handle_delivery, process_event_with_retry, attempt_once, process_event, succeed,
}
use go_webhook_processor.Metrics.{new_metrics}
use go_webhook_processor.Store.Schema.{OutboxRow, OutboxMessage, outbox_key}
use go_webhook_processor.Store.Invariant.{has_event}
use go_webhook_processor.Store.Invariant.Calls.{save, publish, replay, bury, fail, perform}
use go_webhook_processor.Outbox.Dispatch.{is_published}
use go_webhook_processor.System.{
  System, Reaches, here, next, called, dispatched, handled, after_poll, after_delivery, held,
  sent_out,
}
use go_webhook_processor.System.Final.{is_final}
use go_webhook_processor.System.Delivered.{nothing_yet, accepted_not_lost}
use go_webhook_processor.System.Numbered.{number}
use go_webhook_processor.System.Interleaved.{
  Service, with_store, confirmed, settled, replayed, FineReaches, called as fine_called,
  here as fine_here, next as fine_next,
}
use go_webhook_processor.System.Interleaved.Kept.{no_service, accepted_not_lost_between}
use go_webhook_processor.Tests.Data.{env_at, order, message, dispatcher, worker, delivery}

abbrev accepted_system : System
accepted_system = record {
  store = perform (env_at 20) (save order) nothing_yet.store;
  broker = nothing_yet.broker;
}

abbrev published_system : System
published_system = after_poll dispatcher new_metrics accepted_system

abbrev handled_system : System
handled_system = after_delivery worker delivery new_metrics published_system

path : Reaches nothing_yet handled_system
path =
    next nothing_yet accepted_system handled_system
      (called nothing_yet (env_at 20) (save order) refl)
      (next accepted_system published_system handled_system
        (dispatched accepted_system dispatcher new_metrics (λ rows r among. among))
        (next published_system handled_system handled_system
          (handled published_system worker delivery new_metrics) (here handled_system)))

in_broker : published_system.broker ≡ order ∷ []
unfolding dispatch_pending save_queued_with_outbox claim_pending_outbox decode_messages
    mark_outbox_published digit
in_broker = refl

was_accepted : has_event "e1" handled_system.store.db ≡ true
unfolding handle_delivery dispatch_pending save_queued_with_outbox claim_for_processing
    claim_pending_outbox decode_messages mark_outbox_published digit process_event_with_retry wrap64
    ◌+ℤ◌ attempt_once process_event succeed mark_processed
was_accepted = refl

accepted_not_lost_example :
    ((row : OutboxRow) × (find outbox_key "e1" handled_system.store.db.outbox ≡ some row)
      × (is_published row ≡ false))
    ⊎ (is_final "e1" handled_system.store.db ≡ true)
    ⊎ (held "e1" handled_system.broker ≡ true)
accepted_not_lost_example = accepted_not_lost handled_system "e1" path was_accepted

abbrev taken_message : OutboxMessage
taken_message = record message { dispatch_token = "01ff" }

abbrev accepted_service : Service
accepted_service = record { system = accepted_system; unsettled = [] }

abbrev confirmed_service : Service
confirmed_service = record {
  system = record { store = accepted_system.store; broker = order ∷ [] };
  unsettled = taken_message ∷ [];
}

abbrev settled_service : Service
settled_service = record {
  system = record {
    store = perform (env_at 22) (publish taken_message) accepted_system.store;
    broker = order ∷ [];
  };
  unsettled = [];
}

abbrev buried_service : Service
buried_service =
    with_store (perform (env_at 23) (bury order "refused" (pos 4)) settled_service.system.store)
      settled_service

abbrev failed_service : Service
failed_service =
    with_store (perform (env_at 24) (fail "e1" (pos 4) "refused") buried_service.system.store)
      buried_service

abbrev replayed_service : Service
replayed_service =
    with_store (perform (env_at 25) (replay "e1") failed_service.system.store) failed_service

has_number : number "e1" accepted_system.store.db ≡ some 1
unfolding save_queued_with_outbox
has_number = refl

-- The event is accepted, confirmed, settled, and then failed and replayed.
fine_path : FineReaches no_service replayed_service
fine_path =
    fine_next no_service accepted_service replayed_service
      (fine_called no_service (env_at 20) (save order) refl)
      (fine_next accepted_service confirmed_service replayed_service
        (confirmed accepted_service taken_message has_number)
        (fine_next confirmed_service settled_service replayed_service
          (settled confirmed_service (env_at 22) taken_message [] [] refl)
          (fine_next settled_service buried_service replayed_service
            (fine_called settled_service (env_at 23) (bury order "refused" (pos 4)) refl)
            (fine_next buried_service failed_service replayed_service
              (fine_called buried_service (env_at 24) (fail "e1" (pos 4) "refused") refl)
              (fine_next failed_service replayed_service replayed_service
                (replayed failed_service (env_at 25) "e1" refl) (fine_here replayed_service))))))

still_accepted : has_event "e1" replayed_service.system.store.db ≡ true
unfolding save_queued_with_outbox mark_outbox_published save_dead_letter mark_failed
    replay_dead_letter select_replay or_not_found update_outbox update_letters
still_accepted = refl

-- The replay was not refused: the message is open again.
reopened : sent_out "e1" replayed_service.system.store.db ≡ false
unfolding save_queued_with_outbox mark_outbox_published save_dead_letter mark_failed
    replay_dead_letter select_replay or_not_found update_outbox update_letters
reopened = refl

accepted_not_lost_between_example :
    ((row : OutboxRow) × (find outbox_key "e1" replayed_service.system.store.db.outbox ≡ some row)
      × (is_published row ≡ false))
    ⊎ (is_final "e1" replayed_service.system.store.db ≡ true)
    ⊎ (held "e1" replayed_service.system.broker ≡ true)
accepted_not_lost_between_example =
    accepted_not_lost_between replayed_service "e1" fine_path still_accepted
