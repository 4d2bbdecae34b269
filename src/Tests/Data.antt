-- ===== src/Tests/Data.antt =====
-- The inputs of the tests: an environment that answers every call, an event with its rows, and the
-- tables at a few moments of its life.
use go_webhook_processor.Prelude.{ℕ, String, arith, true, false, Option, none, some, List, [], ◌∷◌}
use go_webhook_processor.Prelude.Int.{ℤ, pos}
use go_webhook_processor.Models.{Payload, Event}
use go_webhook_processor.Config.{Config}
use go_webhook_processor.Metrics.{new_metrics}
use go_webhook_processor.Queue.{EventDelivery}
use go_webhook_processor.World.{World}
use go_webhook_processor.Http.{Request}
use go_webhook_processor.Handlers.{App, new_app}
use go_webhook_processor.Outbox.{OutboxDispatcher}
use go_webhook_processor.Worker.{Worker, process_event}
use go_webhook_processor.Worker.Exhaust.{persistent}
use go_webhook_processor.Store.Invariant.{IsValid}
use go_webhook_processor.Store.Invariant.Calls.{empty_db}
use go_webhook_processor.Store.Schema.{
  EventStatus, queued, failed, EventRow, OutboxRow, DeadLetterRow, OutboxMessage,
}
use go_webhook_processor.Store.Monad.{Env, answered, ok, State}

-- The clock ticks with each step, and starts at a given time.
abbrev pub env_at : ℕ → Env
env_at start = record {
  outcome = λ n. answered;
  cause = λ n. "connection reset";
  clock = λ n. pos start;
  db_clock = λ n. pos start;
  random = λ n. some (1 ∷ 255 ∷ []);
  marshal = λ payload. some "{}";
  unmarshal = λ text. some Payload.nil_map;
  locked_outbox = λ n id. false;
  locked_dead_letter = λ n id. false;
  returned = λ rows. rows;
  returned_letters = λ rows. rows;
}

abbrev pub order : Event
order = record { id = "e1"; type = "order"; request_id = "r1"; payload = Payload.nil_map }

abbrev pub event_row : EventStatus → Option ℤ → EventRow
event_row status started = record {
  id = "e1";
  type = "order";
  request_id = "r1";
  payload = "{}";
  status = status;
  error = "";
  attempts = pos 0;
  created_at = pos 1;
  updated_at = pos 1;
  processing_started_at = started;
}

abbrev pub message_row : Option ℤ → Option String → Option ℤ → OutboxRow
message_row published token dispatching = record {
  id = 1;
  event_id = "e1";
  event_type = "order";
  request_id = "r1";
  payload = "{}";
  attempts = pos 0;
  last_error = "";
  created_at = pos 1;
  published_at = published;
  dispatch_token = token;
  dispatching_at = dispatching;
}

abbrev pub letter : DeadLetterRow
letter = record {
  event_id = "e1";
  event_type = "order";
  request_id = "r1";
  payload = "{}";
  error = "down";
  attempts = pos 4;
  failed_at = pos 5;
  replayed_at = none;
  replay_attempts = pos 0;
  next_retry_at = some (pos 5);
  last_retry_error = "down";
}

abbrev pub tables : EventStatus → OutboxRow → List DeadLetterRow → State
tables status row letters = record {
  db = record {
    events = event_row status none ∷ [];
    outbox = row ∷ [];
    outbox_seq = 2;
    dead_letters = letters;
  };
  step = 0;
}

-- Accepted; reserved by a dispatcher; failed with its dead letter; failed while still reserved.
abbrev pub accepted_state : State
accepted_state = tables queued (message_row none none none) []

abbrev pub reserved_state : State
reserved_state = tables queued (message_row none (some "t1") (some (pos 10))) []

abbrev pub failed_state : State
failed_state = tables failed (message_row (some (pos 3)) none none) (letter ∷ [])

abbrev pub stale_state : State
stale_state = tables failed (message_row none (some "t1") (some (pos 10))) (letter ∷ [])

abbrev pub message : OutboxMessage
message = record { id = 1; event = order; attempts = pos 0; dispatch_token = "t1" }

abbrev pub config : Config
config = record {
  port = "8080";
  queue_size = pos 100;
  worker_count = pos 4;
  read_header_timeout_seconds = pos 5;
  shutdown_timeout_seconds = pos 10;
  log_format = "text";
  max_retries = pos 1;
  retry_backoff_seconds = pos 1;
  dead_letter_capacity = pos 100;
  database_url = "";
  dlq_replay_token = "secret";
  dlq_auto_retry_enabled = true;
  dlq_auto_retry_interval_seconds = pos 30;
  dlq_auto_retry_max_attempts = pos 3;
  rabbitmq_url = "";
  rabbitmq_queue = "webhook-events";
  rabbitmq_reconnect_ms = pos 1000;
  rabbitmq_connect_timeout_ms = pos 5000;
  outbox_poll_interval_ms = pos 500;
  outbox_batch_size = pos 10;
  outbox_dispatch_lease_seconds = pos 30;
  processing_lease_seconds = pos 60;
  processing_requeue_delay_ms = pos 500;
}

abbrev pub world : State → World
world s = record { store = s; metrics = new_metrics; trace = [] }

abbrev pub worker : Worker
worker = persistent (record {
  env = env_at 20;
  config = config;
  add_dead_letter = λ event error attempts s. (ok tt, s);
  processor = process_event;
  worker_id = 1;
})

abbrev pub failing_worker : Worker
failing_worker = record worker { processor = λ step id event. some "down" }

abbrev pub delivery : EventDelivery
delivery = record { event = order; tag = 7; can_ack = true; can_nack = true }

abbrev pub dispatcher : OutboxDispatcher
dispatcher = record {
  env = env_at 20;
  publisher = λ step event. none;
  poll_interval = pos 500;
  batch_size = pos 10;
  dispatch_lease = pos 30;
}

abbrev pub app : App
app =
    new_app (λ n. record { length = pos 0; capacity = pos 100 }) (λ layout t. layout) (λ n d. "0.5")
      config (env_at 20)

abbrev pub request : Request
request = record {
  body = some order;
  x_request_id = "r1";
  authorization = "Bearer guess";
  event_id = "e1";
}

abbrev pub start : State
start = record { db = empty_db; step = 0 }

pub accepted-IsValid : IsValid accepted_state.db
accepted-IsValid = record {
  events = ground arith;
  outbox = ground arith;
  letters = ground arith;
  numbered = ground arith;
  linked = λ k. ground arith;
}

pub stale-IsValid : IsValid stale_state.db
stale-IsValid = record {
  events = ground arith;
  outbox = ground arith;
  letters = ground arith;
  numbered = ground arith;
  linked = λ k. ground arith;
}

pub failed-IsValid : IsValid failed_state.db
failed-IsValid = record {
  events = ground arith;
  outbox = ground arith;
  letters = ground arith;
  numbered = ground arith;
  linked = λ k. ground arith;
}
