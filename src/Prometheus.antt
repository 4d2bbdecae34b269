-- ===== src/Prometheus.antt =====
-- metrics_prometheus.go and metrics-prometheus-extra.go: the metrics as the text that Prometheus
-- reads.
use Prim.Native.String.{◌++◌ as append}
use go_webhook_processor.Prelude.{String, List, [], ◌∷◌, if◌then◌else◌}
use go_webhook_processor.Prelude.Int.{ℤ, pos, ◌+ℤ◌, eqb_ℤ, wrap64}
use go_webhook_processor.Text.Decimal.{format_ℤ}
use go_webhook_processor.Metrics.{Metrics, snapshot}
use go_webhook_processor.Store.Operational.{OperationalMetrics}

abbrev pub concat : List String → String
concat [] = ""
concat (s ∷ ss) = append s (concat ss)

-- The three lines of one metric.
unfoldable pub metric : String → String → String → String → String
metric kind name help value = concat (
    "# HELP " ∷ name ∷ " " ∷ help ∷ "\n# TYPE " ∷ name ∷ " " ∷ kind ∷ "\n" ∷ name ∷ " " ∷ value
    ∷ "\n" ∷ [])

abbrev pub write_counter : String → String → ℤ → String
write_counter name help value = metric "counter" name help (format_ℤ value)

abbrev pub write_gauge : String → String → ℤ → String
write_gauge name help value = metric "gauge" name help (format_ℤ value)

unfoldable pub prometheus : ℤ → ℤ → Metrics → String
unfolding snapshot metric
prometheus queue_length queue_capacity metrics =
    let s = snapshot queue_length queue_capacity metrics in
    concat (
      write_counter "webhook_events_queued_total" "Events accepted into the outbox." s.events_queued
      ∷ write_counter "webhook_events_rejected_total" "Events rejected by the API."
          s.events_rejected
      ∷ write_counter "webhook_events_duplicated_total" "Duplicate events rejected by the API."
          s.events_duplicated
      ∷ write_counter "webhook_events_processed_total" "Events processed successfully."
          s.events_processed
      ∷ write_counter "webhook_events_failed_permanent_total"
          "Events that reached permanent failure." s.events_failed_permanent
      ∷ write_counter "webhook_event_retries_total" "Event processing retries." s.event_retries
      ∷ write_counter "webhook_dead_letter_replays_total" "Dead letters replayed manually."
          s.dead_letter_replays
      ∷ write_counter "webhook_dead_letter_replay_rejected_total"
          "Rejected dead letter replay requests." s.dead_letter_replay_rejected
      ∷ write_counter "webhook_dead_letter_auto_retries_total"
          "Dead letters replayed automatically." s.dead_letter_auto_retries
      ∷ write_counter "webhook_dead_letter_auto_retry_failed_total"
          "Failed automatic dead letter replays." s.dead_letter_auto_retry_failed
      ∷ write_gauge "webhook_queue_length" "Current in-process queue length." s.queue_length
      ∷ write_gauge "webhook_queue_capacity" "Configured in-process queue capacity."
          s.queue_capacity
      ∷ write_counter "webhook_event_processing_duration_nanoseconds_total"
          "Total event processing duration in nanoseconds." metrics.processing_latency.sum_ns
      ∷ write_counter "webhook_event_processing_attempts_total"
          "Total event processing attempts measured for latency." metrics.processing_latency.count
      ∷ write_gauge "webhook_event_processing_duration_nanoseconds_max"
          "Maximum observed event processing duration in nanoseconds."
          metrics.processing_latency.max_ns
      ∷ [])

-- `fraction` is fmt's "%.6f" of a quotient of two floating-point numbers, which is a parameter.
module _ (fraction : ℤ → ℤ → String) where
  unfoldable pub ratio : ℤ → ℤ → String
  ratio numerator denominator =
      if eqb_ℤ denominator (pos 0) then "0" else fraction numerator denominator

  unfoldable pub prometheus_with_operational_metrics : ℤ → ℤ → OperationalMetrics → Metrics → String
  unfolding prometheus ratio metric
  prometheus_with_operational_metrics queue_length queue_capacity operational metrics =
      append (prometheus queue_length queue_capacity metrics) (
        concat (
          write_gauge "webhook_outbox_pending_messages" "Current unpublished Outbox messages."
            operational.pending_outbox
          ∷ write_gauge "webhook_dead_letters_pending" "Current unreplayed dead letters."
              operational.pending_dead_letters
          ∷ metric "gauge" "webhook_events_rejection_ratio"
              "Rejected events divided by accepted and rejected events."
              (ratio metrics.events_rejected
                (wrap64 (metrics.events_queued +ℤ metrics.events_rejected)))
          ∷ metric "gauge" "webhook_events_failure_ratio"
              "Permanently failed events divided by processed and failed events."
              (ratio metrics.events_failed_permanent
                (wrap64 (metrics.events_processed +ℤ metrics.events_failed_permanent)))
          ∷ []))
