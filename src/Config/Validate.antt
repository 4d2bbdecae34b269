-- ===== src/Config/Validate.antt =====
-- What a configuration that LoadConfig returns satisfies.
use go_webhook_processor.Prelude.{
  String, ◌≡◌, refl, ◌↔◌, inl, inr, true, false, not, ◌&&◌, ◌||◌, Option, none, some, arith,
  Option-cases, ap, sym, subst, ◌==◌,
}
use go_webhook_processor.Prelude.Int.{ℤ, pos, ◌≤ℤ◌, ◌<ℤ◌, leb_ℤ, ltb_ℤ}
use go_webhook_processor.Text.{trim_space}
use go_webhook_processor.Config.{Config}
use go_webhook_processor.Config.Load.{
  Process, Loaded, loaded, refused_with, read_config, is_url_of, first_error, load_config,
}

-- Every number is in its range, and the texts are of their kinds.
pub record IsUsable (p : Process) (c : Config) : Type 0 where
  pub queue_size : pos 0 <ℤ c.queue_size
  pub worker_count : pos 0 <ℤ c.worker_count
  pub read_header_timeout_seconds : pos 0 <ℤ c.read_header_timeout_seconds
  pub shutdown_timeout_seconds : pos 0 <ℤ c.shutdown_timeout_seconds
  pub log_format : ((c.log_format == "json") || (c.log_format == "text")) ≡ true
  pub max_retries : pos 0 ≤ℤ c.max_retries
  pub retry_backoff_seconds : pos 0 <ℤ c.retry_backoff_seconds
  pub dead_letter_capacity : pos 0 <ℤ c.dead_letter_capacity
  pub dlq_auto_retry_interval_seconds : pos 0 <ℤ c.dlq_auto_retry_interval_seconds
  pub dlq_auto_retry_max_attempts : pos 0 ≤ℤ c.dlq_auto_retry_max_attempts
  pub database_url : is_url_of p "postgres" "postgresql" (p.parse_url c.database_url) ≡ true
  pub rabbitmq_reconnect_ms : pos 0 <ℤ c.rabbitmq_reconnect_ms
  pub rabbitmq_connect_timeout_ms : pos 0 <ℤ c.rabbitmq_connect_timeout_ms
  pub outbox_poll_interval_ms : pos 0 <ℤ c.outbox_poll_interval_ms
  pub outbox_batch_size : pos 0 <ℤ c.outbox_batch_size
  pub outbox_dispatch_lease_seconds : pos 0 <ℤ c.outbox_dispatch_lease_seconds
  pub processing_lease_seconds : pos 0 <ℤ c.processing_lease_seconds
  pub processing_requeue_delay_ms : pos 0 <ℤ c.processing_requeue_delay_ms
  pub rabbitmq_queue : (trim_space c.rabbitmq_queue == "") ≡ false
  pub rabbitmq_url : is_url_of p "amqp" "amqps" (p.parse_url c.rabbitmq_url) ≡ true

positive : (x : ℤ) → pos 0 <ℤ x → leb_ℤ x (pos 0) ≡ false
positive x h = ground arith

non_negative : (x : ℤ) → pos 0 ≤ℤ x → ltb_ℤ x (pos 0) ≡ false
non_negative x h = ground arith

log_format_test :
    (s : String)
    → ((s == "json") || (s == "text")) ≡ true
    → (not (s == "json") && not (s == "text")) ≡ false
log_format_test s h = ground arith

module _ (p : Process) where
  first_error-IsUsable : (c : Config) → first_error p c ≡ none → IsUsable p c
  unfolding first_error
  first_error-IsUsable c e = record {
    queue_size = ground arith;
    worker_count = ground arith;
    read_header_timeout_seconds = ground arith;
    shutdown_timeout_seconds = ground arith;
    log_format = ground arith;
    max_retries = ground arith;
    retry_backoff_seconds = ground arith;
    dead_letter_capacity = ground arith;
    dlq_auto_retry_interval_seconds = ground arith;
    dlq_auto_retry_max_attempts = ground arith;
    database_url = ground arith;
    rabbitmq_reconnect_ms = ground arith;
    rabbitmq_connect_timeout_ms = ground arith;
    outbox_poll_interval_ms = ground arith;
    outbox_batch_size = ground arith;
    outbox_dispatch_lease_seconds = ground arith;
    processing_lease_seconds = ground arith;
    processing_requeue_delay_ms = ground arith;
    rabbitmq_queue = ground arith;
    rabbitmq_url = ground arith;
  }

  IsUsable-first_error : (c : Config) → IsUsable p c → first_error p c ≡ none
  unfolding first_error
  IsUsable-first_error c u =
      rw
        (
          positive c.queue_size u.queue_size,
          positive c.worker_count u.worker_count,
          positive c.read_header_timeout_seconds u.read_header_timeout_seconds,
          positive c.shutdown_timeout_seconds u.shutdown_timeout_seconds,
          log_format_test c.log_format u.log_format,
          non_negative c.max_retries u.max_retries,
          positive c.retry_backoff_seconds u.retry_backoff_seconds,
          positive c.dead_letter_capacity u.dead_letter_capacity,
          positive c.dlq_auto_retry_interval_seconds u.dlq_auto_retry_interval_seconds,
          non_negative c.dlq_auto_retry_max_attempts u.dlq_auto_retry_max_attempts,
          u.database_url,
          positive c.rabbitmq_reconnect_ms u.rabbitmq_reconnect_ms,
          positive c.rabbitmq_connect_timeout_ms u.rabbitmq_connect_timeout_ms,
          positive c.outbox_poll_interval_ms u.outbox_poll_interval_ms,
          positive c.outbox_batch_size u.outbox_batch_size,
          positive c.outbox_dispatch_lease_seconds u.outbox_dispatch_lease_seconds,
          positive c.processing_lease_seconds u.processing_lease_seconds,
          positive c.processing_requeue_delay_ms u.processing_requeue_delay_ms,
          u.rabbitmq_queue,
          u.rabbitmq_url,
          first_error,
        )
        refl

abbrev config_of : Loaded → Option Config
config_of (loaded c) = some c
config_of (refused_with text) = none

-- LoadConfig returns a configuration exactly if it is the one read from the variables and their
-- defaults and is usable: each number is in its range, the log format is json or text, the
-- queue's name is not blank, and both URLs parse with a host and an expected scheme.
pub load_config-IsUsable :
    (p : Process) (c : Config) → (load_config p ≡ loaded c) ↔ ((c ≡ read_config p) × IsUsable p c)
unfolding load_config
load_config-IsUsable p c = elim (Option-cases (first_error p (read_config p))) [
  | inl fine ↦ (
    λ e.
        let same : c ≡ read_config p = ground (arith, fine, ap config_of e) in
        (same, subst (IsUsable p) (sym same) (first_error-IsUsable p (read_config p) fine)),
    λ (same, u). ground (arith, fine, same),
  )
  | inr (text, bad) ↦ (
    λ e. ground (arith, bad, ap config_of e),
    λ (same, u).
        ground (arith, bad, IsUsable-first_error p (read_config p) (subst (IsUsable p) same u)),
  )
]
