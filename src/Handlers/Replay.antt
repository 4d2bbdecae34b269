-- ===== src/Handlers/Replay.antt =====
-- replayDeadLetterHandler of handlers.go: a request without the configured token.
use go_webhook_processor.Prelude.{◌≡◌, true, arith, ◌==◌, ◌||◌, not, if◌then◌else◌}
use go_webhook_processor.World.{World}
use go_webhook_processor.Http.{Request}
use go_webhook_processor.Handlers.{App, provided_token, replay_dead_letter_handler}

-- Without the configured token in the request, or with no token configured,
-- replay_dead_letter_handler leaves the store as it was, asks nothing of the broker, and answers
-- 401, or 503 if no token is configured.
pub replay_handler_guards :
    (app : App) (r : Request) (w : World)
    → (app.config.dlq_replay_token == "")
        || not (provided_token r.authorization == app.config.dlq_replay_token)
      ≡ true
    → let (answer, w1) = replay_dead_letter_handler app r w in
      (w1.store ≡ w.store)
      × (w1.trace ≡ w.trace)
      × (answer.status ≡ (if app.config.dlq_replay_token == "" then 503 else 401))
unfolding replay_dead_letter_handler
replay_handler_guards app r w h = ground arith
