-- ===== src/Handlers/Reports.antt =====
-- The handlers of handlers.go and prometheus-handler.go that only report: health, the metrics in
-- both forms, and the dead letters.
use go_webhook_processor.World.{World, call}
use go_webhook_processor.Metrics.{snapshot}
use go_webhook_processor.DeadLetter.{persistent_snapshot}
use go_webhook_processor.Http.{Request, Response, health, metrics, dead_letters, text, write_error}
use go_webhook_processor.Prometheus.{prometheus_with_operational_metrics}
use go_webhook_processor.Store.Monad.{ok, err, next}
use go_webhook_processor.Store.Operational.{operational_metrics}
use go_webhook_processor.Handlers.{App}

module _ (app : App) where
  -- Two readings of the clock.
  unfoldable pub health_handler : Request → World → Response × World
  health_handler r w =
      let stats = app.queue_stats w.store.step in
      let later = next w.store in
      (
        record {
          status = 200;
          body = health (record {
            status = "ok";
            time = app.format_time "2006-01-02T15:04:05Z07:00" (app.env.clock w.store.step);
            date = app.format_time "2006-01-02" (app.env.clock later.step);
            queue_length = stats.length;
            queue_capacity = stats.capacity;
          });
        },
        record w { store = next later },
      )

  unfoldable pub metrics_handler : Request → World → Response × World
  metrics_handler r w =
      let stats = app.queue_stats w.store.step in
      (record { status = 200; body = metrics (snapshot stats.length stats.capacity w.metrics) }, w)

  unfoldable pub dead_letters_handler : Request → World → Response × World
  dead_letters_handler r w =
      let (response, w') = call (persistent_snapshot app.dead_letters) w in
      elim response [
        | err e ↦ (write_error 500 "failed to list dead letters", w')
        | ok items ↦ (record { status = 200; body = dead_letters items }, w')
      ]

  unfoldable pub prometheus_metrics_handler : Request → World → Response × World
  unfolding operational_metrics
  prometheus_metrics_handler r w =
      let stats = app.queue_stats w.store.step in
      let (read, w') = call (operational_metrics app.env) w in
      elim read [
        | err e ↦ (write_error 503 "metrics unavailable", w')
        | ok operational ↦ (
          record {
            status = 200;
            body = text (
                prometheus_with_operational_metrics app.fraction stats.length stats.capacity
                  operational w'.metrics);
          },
          w',
        )
      ]
