-- ===== src/Store/Events/Accept.antt =====
-- SaveQueuedWithOutbox of event_store.go: the rows of an event and its outbox message.
use go_webhook_processor.Prelude.{
  ℕ, ◌+◌, String, ◌≡◌, ◌⊎◌, inl, inr, true, none, some, [], ◌∷◌, ◌++◌, arith, Option-cases, eq_refl,
}
use go_webhook_processor.Prelude.Int.{ℤ, pos}
use go_webhook_processor.Prelude.Table.{find, find-append_new}
use go_webhook_processor.Models.{Event}
use go_webhook_processor.Store.Schema.{Db, queued, event_key}
use go_webhook_processor.Store.Monad.{
  Env, answered, event_already_exists, dead_letter_not_found, dead_letter_not_failed,
  reservation_expired, failed_to, plain, Result, ok, err, State,
}
use go_webhook_processor.Store.Events.{queued_row, save_queued_with_outbox}
use go_webhook_processor.Store.Invariant.{IsValid, has_event}

-- The rows of the three tables are as they were.
pub record SameRows (before after : Db) : Type 0 where
  pub events : after.events ≡ before.events
  pub outbox : after.outbox ≡ before.outbox
  pub letters : after.dead_letters ≡ before.dead_letters

-- One event, queued, and one message, pending, have been added, under one payload.
pub record Accepted (event : Event) (payload : String) (at : ℤ) (before after : Db) : Type 0 where
  pub events :
      after.events
      ≡ before.events
        ++ record {
          id = event.id;
          type = event.type;
          request_id = event.request_id;
          payload = payload;
          status = queued;
          error = "";
          attempts = pos 0;
          created_at = at;
          updated_at = at;
          processing_started_at = none;
        }
          ∷ []
  pub outbox :
      after.outbox
      ≡ before.outbox
        ++ record {
          id = before.outbox_seq;
          event_id = event.id;
          event_type = event.type;
          request_id = event.request_id;
          payload = payload;
          attempts = pos 0;
          last_error = "";
          created_at = at;
          published_at = none;
          dispatch_token = none;
          dispatching_at = none;
        }
          ∷ []
  pub letters : after.dead_letters ≡ before.dead_letters

-- What each answer of the method says of the tables.
abbrev pub SaveAnswer : Event → String → ℤ → Db → Db → Result (Unit {0}) → Type 0
SaveAnswer event payload at before after (ok _) =
    (find event_key event.id before.events ≡ none) × Accepted event payload at before after
SaveAnswer event payload at before after (err event_already_exists) =
    (has_event event.id before ≡ true) × SameRows before after
SaveAnswer event payload at before after (err (failed_to _ _)) =
    SameRows before after
    ⊎ ((find event_key event.id before.events ≡ none) × Accepted event payload at before after)
SaveAnswer event payload at before after (err dead_letter_not_found) = ⊥
SaveAnswer event payload at before after (err (dead_letter_not_failed _)) = ⊥
SaveAnswer event payload at before after (err (reservation_expired _)) = ⊥
SaveAnswer event payload at before after (err (plain _)) = ⊥

-- For a payload that encodes, each answer of save_queued_with_outbox describes the tables: on
-- success the event was new and exactly one queued event and one pending message have been added;
-- on a duplicate the event was there and no row has changed; on a failure of the database either
-- no row has changed or both rows have been added. It gives no other error.
pub save_queued_with_outbox_atomic :
    (env : Env) (event : Event) (payload : String) (s : State)
    → env.marshal event.payload ≡ some payload
    → let (r, s') = save_queued_with_outbox env event s in
      SaveAnswer event payload (env.clock (s.step + 1)) s.db s'.db r
unfolding save_queued_with_outbox
save_queued_with_outbox_atomic env event payload s e =
    elim (Option-cases (find event_key event.id s.db.events)) [
      | inl new ↦ ground arith
      | inr (r, old) ↦ ground arith
    ]

-- If the database answers each call, the payload encodes, the tables are valid and the event is
-- new, then save_queued_with_outbox succeeds.
pub save_queued_with_outbox_accepts :
    (env : Env) (event : Event) (payload : String) (s : State)
    → ((n : ℕ) → env.outcome n ≡ answered)
    → env.marshal event.payload ≡ some payload
    → IsValid s.db
    → find event_key event.id s.db.events ≡ none
    → (save_queued_with_outbox env event s).0 ≡ ok tt
unfolding save_queued_with_outbox
save_queued_with_outbox_accepts env event payload s up e v new = ground (
  arith,
  up s.step,
  up (s.step + 1 + 1),
  up (s.step + 1 + 1 + 1),
  up (s.step + 1 + 1 + 1 + 1),
  v.linked event.id,
  find-append_new event_key event.id (queued_row event payload (env.clock (s.step + 1))) s.db.events
      new,
  eq_refl event.id,
)
