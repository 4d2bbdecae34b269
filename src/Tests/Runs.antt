-- ===== src/Tests/Runs.antt =====
-- The theorems on sequences of calls, of deliveries and of connections, at concrete inputs.
use go_webhook_processor.Prelude.{
  ◌+◌, String, ◌≡◌, refl, true, false, Option, none, some, List, [], ◌∷◌, ◌==◌, if◌then◌else◌,
}
use go_webhook_processor.Prelude.Int.{pos}
use go_webhook_processor.Models.{Event}
use go_webhook_processor.Store.Schema.{processed}
use go_webhook_processor.Store.Invariant.{has_event, has_message}
use go_webhook_processor.Store.Invariant.Calls.{
  Call, save, claim, finish, reserve_batch, publish, replay, perform_all, perform_all-IsValid,
  empty_db-IsValid,
}
use go_webhook_processor.Store.Lifecycle.{Steps, life_of}
use go_webhook_processor.Store.Lifecycle.Runs.{perform_all-Steps, accepted_stays, processed_stays}
use go_webhook_processor.Store.Events.{claim_for_processing, mark_processed}
use go_webhook_processor.Rabbit.Forward.{Round, got, cancelled, forward_deliveries}
use go_webhook_processor.Rabbit.Consume.{
  Consumer, Attempt, RabbitMqEventQueue, stop_consuming, close,
}
use go_webhook_processor.Rabbit.Handles.{IsIdle, publish_all, close_releases, AllClosed}
use go_webhook_processor.Worker.{worker as run_worker}
use go_webhook_processor.Worker.Retry.{settlements}
use go_webhook_processor.Worker.Deliveries.{taken, deliveries_settled_once}
use go_webhook_processor.Tests.Data.{
  start, env_at, order, accepted_state, message, accepted-IsValid, world, worker,
}
use go_webhook_processor.Tests.Flow.{broker, connected}

abbrev all_calls : List Call
all_calls =
    record { env = env_at 20; method = save order }
    ∷ record { env = env_at 21; method = reserve_batch (pos 10) (pos 30) }
    ∷ record { env = env_at 22; method = publish message }
    ∷ record { env = env_at 23; method = claim "e1" (pos 60) }
    ∷ record { env = env_at 24; method = finish "e1" (pos 1) }
    ∷ record { env = env_at 25; method = replay "e1" }
    ∷ []

perform_all-Steps_example :
    Steps "e1" all_calls (life_of "e1" start.db) (life_of "e1" (perform_all all_calls start).db)
perform_all-Steps_example = perform_all-Steps "e1" all_calls start empty_db-IsValid

accepted_stays_example :
    (has_event "e1" (perform_all all_calls accepted_state).db ≡ true)
    × (has_message "e1" (perform_all all_calls accepted_state).db ≡ true)
accepted_stays_example = accepted_stays "e1" all_calls accepted_state accepted-IsValid refl

-- The event's tables after its processing.
abbrev processing_calls : List Call
processing_calls =
    record { env = env_at 23; method = claim "e1" (pos 60) }
    ∷ record { env = env_at 24; method = finish "e1" (pos 1) }
    ∷ []

is_processed : life_of "e1" (perform_all processing_calls accepted_state).db ≡ some processed
unfolding claim_for_processing mark_processed
is_processed = refl

processed_stays_example :
    life_of "e1" (perform_all all_calls (perform_all processing_calls accepted_state)).db
    ≡ some processed
processed_stays_example =
    processed_stays "e1" all_calls (perform_all processing_calls accepted_state)
      (perform_all-IsValid processing_calls accepted_state accepted-IsValid) is_processed
      (refl, (refl, (refl, (refl, (refl, (refl, tt))))))

abbrev unmarshal : String → Option Event
unmarshal body = if body == "{" then none else some order

abbrev rounds : List Round
rounds =
    got (record { tag = 7; body = "{}" }) true
    ∷ got (record { tag = 8; body = "{" }) true
    ∷ got (record { tag = 9; body = "{}" }) false
    ∷ []

deliveries_settled_once_example :
    let (returned, f) = forward_deliveries unmarshal rounds (record { events = []; trace = [] }) in
    settlements 8
      (run_worker worker f.events (record (world accepted_state) { trace = f.trace })).trace
    ≡ taken unmarshal 8 rounds + 0
deliveries_settled_once_example =
    deliveries_settled_once worker unmarshal rounds (world accepted_state) 8

abbrev consumer : Consumer
consumer = record {
  consumer_conn = none;
  consumer_channel = none;
  conns = [];
  channels = [];
  fresh = 5;
  step = 0;
  forwarded = record { events = []; trace = [] };
  events_closed = false;
}

abbrev queue : RabbitMqEventQueue
queue = record { publisher = connected; consumer = consumer; is_stopped = false; is_closed = false }

abbrev attempts : List Attempt
attempts =
    record { cancelled_before = false; rounds = rounds; cancelled_after = false; waits = true }
    ∷ record {
      cancelled_before = false;
      rounds = cancelled ∷ [];
      cancelled_after = true;
      waits = false;
    }
    ∷ []

consumer-IsIdle : IsIdle consumer
consumer-IsIdle = record {
  conns = refl;
  channels = refl;
  consumer_conn = refl;
  consumer_channel = refl;
}

abbrev published_queue : RabbitMqEventQueue
published_queue = record queue { publisher = publish_all broker unmarshal (order ∷ []) connected }

close_releases_example :
    AllClosed (close broker unmarshal [] (stop_consuming broker unmarshal attempts published_queue))
close_releases_example =
    close_releases broker unmarshal true attempts [] (order ∷ []) queue refl refl (refl, refl)
      consumer-IsIdle
