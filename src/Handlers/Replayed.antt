-- ===== src/Handlers/Replayed.antt =====
-- replayDeadLetterHandler of handlers.go: what the status says of the tables when the token is right.
use go_webhook_processor.Prelude.{
  ℕ, ◌+◌, String, ◌≡◌, ◌≢◌, refl, ◌⊎◌, inl, inr, true, false, sym, subst, arith, ◌==◌, some,
}
use go_webhook_processor.Prelude.Int.{ℤ}
use go_webhook_processor.Prelude.Table.{find}
use go_webhook_processor.World.{World}
use go_webhook_processor.Text.{trim_space}
use go_webhook_processor.Http.{Request}
use go_webhook_processor.Store.Schema.{Db, EventRow, event_key, failed}
use go_webhook_processor.Store.Monad.{
  event_already_exists, dead_letter_not_found, dead_letter_not_failed, reservation_expired,
  failed_to, plain, Result, ok, err, State,
}
use go_webhook_processor.Store.DeadLetters.{replay_dead_letter}
use go_webhook_processor.Store.DeadLetters.Replay.{
  Replayed, ReplayAnswer, replay_dead_letter_answers,
}
use go_webhook_processor.Store.Events.Accept.{SameRows}
use go_webhook_processor.Store.Invariant.{IsValid, has_event, has_letter}
use go_webhook_processor.Handlers.{App, provided_token, replay_dead_letter_handler}

-- The event was failed, and has been replayed.
abbrev pub IsReplayed : String → ℤ → Db → Db → Type 0
IsReplayed id at before after =
    (e : EventRow) × (find event_key id before.events ≡ some e)
    × (e.status ≡ failed)
    × Replayed id at e before after

-- The event has a row, and the row is not failed.
abbrev pub IsNotFailed : String → Db → Type 0
IsNotFailed id before =
    (e : EventRow) × (find event_key id before.events ≡ some e) × (e.status ≢ failed)

abbrev pub ReplayStatus : String → ℤ → Db → Db → ℕ → Type 0
ReplayStatus id at before after status =
    ((status ≡ 202) × IsReplayed id at before after)
    ⊎ ((status ≡ 404)
        × ((has_event id before ≡ false) ⊎ (has_letter id before ≡ false))
        × SameRows before after)
    ⊎ ((status ≡ 409) × IsNotFailed id before × SameRows before after)
    ⊎ ((status ≡ 500) × (SameRows before after ⊎ IsReplayed id at before after))

-- The status of the handler after the store has answered.
abbrev status_of : Result (Unit {0}) → ℕ
status_of (ok _) = 202
status_of (err dead_letter_not_found) = 404
status_of (err (dead_letter_not_failed _)) = 409
status_of (err event_already_exists) = 500
status_of (err (reservation_expired _)) = 500
status_of (err (failed_to _ _)) = 500
status_of (err (plain _)) = 500

status_of-ReplayStatus :
    (id : String) (at : ℤ) (before after : Db) (r : Result (Unit {0}))
    → ReplayAnswer id at before after r
    → ReplayStatus id at before after (status_of r)
status_of-ReplayStatus id at before after (ok _) (e, row, st, l, done) =
    inl (refl, (e, row, st, done))
status_of-ReplayStatus id at before after (err dead_letter_not_found) a = inr (inl (refl, a.0, a.1))
status_of-ReplayStatus id at before after (err (dead_letter_not_failed _)) (e, row, st, ne, same) =
    inr (inr (inl (refl, (e, row, subst (λ t. t ≢ failed) (sym st) ne), same)))
status_of-ReplayStatus id at before after (err (failed_to _ _)) a = inr (inr (inr (refl, a)))
status_of-ReplayStatus id at before after (err event_already_exists) a = absurd a
status_of-ReplayStatus id at before after (err (reservation_expired _)) a = absurd a
status_of-ReplayStatus id at before after (err (plain _)) a = absurd a

module _ (app : App) (r : Request) (w : World)
    (configured : (app.config.dlq_replay_token == "") ≡ false)
    (authorized : (provided_token r.authorization == app.config.dlq_replay_token) ≡ true)
    (named : (trim_space r.event_id == "") ≡ false) where
  abbrev replaying : Result (Unit {0}) × State
  replaying = replay_dead_letter app.env (trim_space r.event_id) w.store

  handler-status :
      ((replay_dead_letter_handler app r w).0.status ≡ status_of replaying.0)
      × ((replay_dead_letter_handler app r w).1.store ≡ replaying.1)
  unfolding replay_dead_letter_handler
  handler-status = ground (arith, configured, authorized, named)

  abbrev Says : ℕ → State → Type 0
  Says status s =
      ReplayStatus (trim_space r.event_id) (app.env.clock (w.store.step + 1 + 1)) w.store.db s.db
        status

  -- On valid tables, with a configured token that the request carries and an event id that is not
  -- blank, replay_dead_letter_handler answers 202 with the event replayed, 404 with no row
  -- changed if the event or its dead letter is missing, 409 with no row changed if the event is
  -- there and not failed, or 500 with no row changed or the event replayed.
  pub replay_handler-ReplayStatus :
      IsValid w.store.db
      → ReplayStatus
          (trim_space r.event_id)
          (app.env.clock (w.store.step + 1 + 1))
          w.store.db
          (replay_dead_letter_handler app r w).1.store.db
          (replay_dead_letter_handler app r w).0.status
  replay_handler-ReplayStatus valid =
      let (status, store) = handler-status in
      subst (λ t. Says (replay_dead_letter_handler app r w).0.status t) (sym store)
        (subst (λ n. Says n replaying.1) (sym status)
          (status_of-ReplayStatus (trim_space r.event_id) (app.env.clock (w.store.step + 1 + 1))
            w.store.db replaying.1.db replaying.0
            (replay_dead_letter_answers app.env (trim_space r.event_id) w.store valid)))
