-- ===== src/Handlers.antt =====
-- handlers.go: acceptance of an event and the authenticated replay, over the state of one process.
pub mod Create
pub mod Replay
pub mod Replayed
pub mod Reports
use text.Mathlib.Text.{starts_with}
use go_webhook_processor.Prelude.{
  ℕ, String, Bool, true, false, Option, none, some, ◌==◌, if◌then◌else◌,
}
use go_webhook_processor.Prelude.Int.{ℤ}
use go_webhook_processor.Models.{Event}
use go_webhook_processor.Config.{Config}
use go_webhook_processor.Queue.{QueueStats}
use go_webhook_processor.DeadLetter.{PersistentDeadLetterStore}
use go_webhook_processor.Metrics.{
  inc_events_rejected, inc_events_duplicated, inc_dead_letter_replays,
  inc_dead_letter_replay_rejected,
}
use go_webhook_processor.World.{World, call, count}
use go_webhook_processor.Text.{trim_space, trim_prefix}
use go_webhook_processor.Http.{
  Request, Response, Body, accepted, replayed, ready, not_ready, write_error,
}
use go_webhook_processor.Store.Monad.{
  Env, Outcome, answered, refused, lost, Error, event_already_exists, dead_letter_not_found,
  dead_letter_not_failed, reservation_expired, failed_to, plain, Result, ok, err, next,
}
use go_webhook_processor.Store.Events.{save_queued_with_outbox}
use go_webhook_processor.Store.DeadLetters.{replay_dead_letter}

-- The queue is seen by its `Stats` at each moment; `format_time` is time.Time.Format in the local
-- time zone, and `fraction` the verb %.6f of a quotient of floating-point numbers.
pub record App : Type 0 where
  pub config : Config
  pub env : Env
  pub queue_stats : ℕ → QueueStats
  pub dead_letters : PersistentDeadLetterStore
  pub format_time : String → ℤ → String
  pub fraction : ℤ → ℤ → String

-- NewApp; the counters, which start as `new_metrics`, are in the state of the process.
abbrev pub new_app :
    (ℕ → QueueStats) → (String → ℤ → String) → (ℤ → ℤ → String) → Config → Env → App
new_app queue_stats format_time fraction config env = record {
  config = config;
  env = env;
  queue_stats = queue_stats;
  dead_letters = record { env = env; capacity = config.dead_letter_capacity };
  format_time = format_time;
  fraction = fraction;
}

-- `errors.Is(err, ErrEventAlreadyExists)`, and the answers of createEventHandler to an error.
abbrev pub save_error : Error → World → Response × World
save_error event_already_exists w =
    (write_error 409 "duplicate event id", count inc_events_duplicated w)
save_error dead_letter_not_found w = (write_error 500 "failed to persist event", w)
save_error (dead_letter_not_failed _) w = (write_error 500 "failed to persist event", w)
save_error (reservation_expired _) w = (write_error 500 "failed to persist event", w)
save_error (failed_to _ _) w = (write_error 500 "failed to persist event", w)
save_error (plain _) w = (write_error 500 "failed to persist event", w)

-- The answers of replayDeadLetterHandler to an error.
abbrev pub replay_error : Error → Response
replay_error dead_letter_not_found = write_error 404 "dead letter not found"
replay_error (dead_letter_not_failed _) = write_error 409 "event is not failed"
replay_error event_already_exists = write_error 500 "failed to replay dead letter"
replay_error (reservation_expired _) = write_error 500 "failed to replay dead letter"
replay_error (failed_to _ _) = write_error 500 "failed to replay dead letter"
replay_error (plain _) = write_error 500 "failed to replay dead letter"

-- The token of an `Authorization: Bearer …` header, or "".
unfoldable pub provided_token : String → String
provided_token authorization =
    if starts_with authorization "Bearer "
    then trim_space (trim_prefix authorization "Bearer ")
    else ""

module _ (app : App) where
  -- The part of createEventHandler after the decoding.
  unfoldable pub create_decoded : Request → Event → World → Response × World
  create_decoded r event w =
      if event.id == ""
      then (write_error 400 "id is required", count inc_events_rejected w)
      else if event.type == ""
      then (write_error 400 "type is required", count inc_events_rejected w)
      else let event' = record event { request_id = r.x_request_id } in
        let (saved, w1) = call (save_queued_with_outbox app.env event') w in
        elim saved [
          | ok _ ↦ (record { status = 202; body = accepted event.id }, w1)
          | err e ↦ save_error e (count inc_events_rejected w1)
        ]

  unfoldable pub create_event_handler : Request → World → Response × World
  unfolding create_decoded
  create_event_handler r w = elim r.body [
    | none ↦ (write_error 400 "invalid JSON body", count inc_events_rejected w)
    | some event ↦ create_decoded r event w
  ]

  abbrev rejected : Response → World → Response × World
  rejected response w = (response, count inc_dead_letter_replay_rejected w)

  unfoldable pub replay_dead_letter_handler : Request → World → Response × World
  unfolding provided_token
  replay_dead_letter_handler r w =
      let event_id = trim_space r.event_id in
      let (replay, w1) = call (replay_dead_letter app.env event_id) w in
      if app.config.dlq_replay_token == ""
      then rejected (write_error 503 "dead letter replay is not configured") w
      else if provided_token r.authorization == app.config.dlq_replay_token
      then if event_id == ""
        then rejected (write_error 400 "event id is required") w
        else elim replay [
          | ok _ ↦
              (record { status = 202; body = replayed event_id }, count inc_dead_letter_replays w1)
          | err e ↦ rejected (replay_error e) w1
        ]
      else rejected (write_error 401 "unauthorized") w

  -- One ping of the database.
  unfoldable pub readiness_handler : World → Response × World
  readiness_handler w = (
    elim (app.env.outcome w.store.step) [
      | answered ↦ record { status = 200; body = ready }
      | refused ↦ record { status = 503; body = not_ready }
      | lost ↦ record { status = 503; body = not_ready }
    ],
    record w { store = next w.store },
  )
