-- ===== src/Http.antt =====
-- What the handlers see of net/http: the parts of a request that they read, and the answer.
use go_webhook_processor.Prelude.{ℕ, String, Option}
use go_webhook_processor.Prelude.Int.{ℤ}
use go_webhook_processor.Models.{Event}
use go_webhook_processor.Metrics.{MetricsResponse}
use go_webhook_processor.DeadLetter.{DeadLetterResponse}

-- `body` is what the JSON decoder makes of it, `none` for an error; a missing header is "".
pub record Request : Type 0 where
  pub body : Option Event
  pub x_request_id : String
  pub authorization : String
  pub event_id : String

-- HealthResponse of models.go.
pub record HealthResponse : Type 0 where
  pub status : String
  pub time : String
  pub date : String
  pub queue_length : ℤ
  pub queue_capacity : ℤ

pub data Body : Type 0 where
  error : String → Body
  accepted : String → Body
  replayed : String → Body
  ready : Body
  not_ready : Body
  health : HealthResponse → Body
  metrics : MetricsResponse → Body
  dead_letters : DeadLetterResponse → Body
  text : String → Body

pub record Response : Type 0 where
  pub status : ℕ
  pub body : Body

abbrev pub write_error : ℕ → String → Response
write_error status message = record { status = status; body = error message }
