-- ===== src/Config.antt =====
-- config.go: the configuration and the durations that are computed from it. A Go `int` and a
-- `time.Duration` are 64-bit integers, so each product wraps; a duration counts nanoseconds.
pub mod Load
pub mod Validate
pub mod Durations
use go_webhook_processor.Prelude.{String, Bool}
use go_webhook_processor.Prelude.Int.{ℤ, pos, ◌*ℤ◌, wrap64}
use Prim.Native.String.{◌++◌ as append}

pub record Config : Type 0 where
  pub port : String
  pub queue_size : ℤ
  pub worker_count : ℤ
  pub read_header_timeout_seconds : ℤ
  pub shutdown_timeout_seconds : ℤ
  pub log_format : String
  pub max_retries : ℤ
  pub retry_backoff_seconds : ℤ
  pub dead_letter_capacity : ℤ
  pub database_url : String
  pub dlq_replay_token : String
  pub dlq_auto_retry_enabled : Bool
  pub dlq_auto_retry_interval_seconds : ℤ
  pub dlq_auto_retry_max_attempts : ℤ
  pub rabbitmq_url : String
  pub rabbitmq_queue : String
  pub rabbitmq_reconnect_ms : ℤ
  pub rabbitmq_connect_timeout_ms : ℤ
  pub outbox_poll_interval_ms : ℤ
  pub outbox_batch_size : ℤ
  pub outbox_dispatch_lease_seconds : ℤ
  pub processing_lease_seconds : ℤ
  pub processing_requeue_delay_ms : ℤ

abbrev pub second : ℤ
second = pos 1000000000

abbrev pub millisecond : ℤ
millisecond = pos 1000000

-- `time.Duration(n) * unit`.
unfoldable pub times : ℤ → ℤ → ℤ
times n unit = wrap64 (n *ℤ unit)

abbrev pub server_address : Config → String
server_address c = append ":" c.port

abbrev pub read_header_timeout : Config → ℤ
read_header_timeout c = times c.read_header_timeout_seconds second

abbrev pub shutdown_timeout : Config → ℤ
shutdown_timeout c = times c.shutdown_timeout_seconds second

abbrev pub rabbitmq_reconnect_interval : Config → ℤ
rabbitmq_reconnect_interval c = times c.rabbitmq_reconnect_ms millisecond

abbrev pub rabbitmq_connect_timeout : Config → ℤ
rabbitmq_connect_timeout c = times c.rabbitmq_connect_timeout_ms millisecond

abbrev pub outbox_poll_interval : Config → ℤ
outbox_poll_interval c = times c.outbox_poll_interval_ms millisecond

abbrev pub outbox_dispatch_lease : Config → ℤ
outbox_dispatch_lease c = times c.outbox_dispatch_lease_seconds second

abbrev pub processing_lease : Config → ℤ
processing_lease c = times c.processing_lease_seconds second

abbrev pub processing_requeue_delay : Config → ℤ
processing_requeue_delay c = times c.processing_requeue_delay_ms millisecond

unfoldable pub retry_backoff : Config → ℤ → ℤ
retry_backoff c attempt = times (wrap64 (c.retry_backoff_seconds *ℤ attempt)) second
