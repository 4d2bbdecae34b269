-- ===== src/Store/Schema.antt =====
-- The tables of migrations/ with the row types of event_store.go, dlq_backoff_store.go and
-- deadletter.go. A time is an integer count of nanoseconds, and NULL is `none`.
use go_webhook_processor.Prelude.{ℕ, String, Option, List}
use go_webhook_processor.Prelude.Int.{ℤ}
use go_webhook_processor.Models.{Event}

-- The texts of the `EventStatus…` constants, the only ones that a statement writes.
pub data EventStatus : Type 0 where
  queued processing processed failed : EventStatus

-- A row of `events`.
pub record EventRow : Type 0 where
  pub id : String
  pub type : String
  pub request_id : String
  pub payload : String
  pub status : EventStatus
  pub error : String
  pub attempts : ℤ
  pub created_at : ℤ
  pub updated_at : ℤ
  pub processing_started_at : Option ℤ

-- A row of `outbox`.
pub record OutboxRow : Type 0 where
  pub id : ℕ
  pub event_id : String
  pub event_type : String
  pub request_id : String
  pub payload : String
  pub attempts : ℤ
  pub last_error : String
  pub created_at : ℤ
  pub published_at : Option ℤ
  pub dispatch_token : Option String
  pub dispatching_at : Option ℤ

-- A row of `dead_letters`.
pub record DeadLetterRow : Type 0 where
  pub event_id : String
  pub event_type : String
  pub request_id : String
  pub payload : String
  pub error : String
  pub attempts : ℤ
  pub failed_at : ℤ
  pub replayed_at : Option ℤ
  pub replay_attempts : ℤ
  pub next_retry_at : Option ℤ
  pub last_retry_error : String

-- The database: three tables, and the sequence behind `outbox.id BIGSERIAL`.
pub record Db : Type 0 where
  pub events : List EventRow
  pub outbox : List OutboxRow
  pub outbox_seq : ℕ
  pub dead_letters : List DeadLetterRow

abbrev pub event_key : EventRow → String
event_key r = r.id

abbrev pub outbox_key : OutboxRow → String
outbox_key r = r.event_id

abbrev pub dead_key : DeadLetterRow → String
dead_key r = r.event_id

pub record OutboxMessage : Type 0 where
  pub id : ℕ
  pub event : Event
  pub attempts : ℤ
  pub dispatch_token : String

pub record RetryableDeadLetterDetail : Type 0 where
  pub event_id : String
  pub replay_attempt : ℤ

pub data EventClaimResult : Type 0 where
  claimed in_progress final missing : EventClaimResult
