-- ===== src/Lib.antt =====
-- go-webhook-processor: an HTTP service that accepts webhook events, stores each one with an outbox
-- message, publishes the messages to a broker, processes the deliveries with retries, and keeps the
-- permanent failures as dead letters that are replayed by hand or by a scheduler.
--
-- Parts, and the files that model them:
--   Models, Queue, Http: models.go, queue.go, and what the handlers use of net/http.
--   Store: event_store.go and dlq_backoff_store.go. Store/Schema has the rows of the tables of
--     migrations/; Store/Monad has calls, statements and transactions; Store/Events, Store/Outbox,
--     Store/DeadLetters and Store/Retries have the methods, one definition for each, named as the Go
--     method in snake case, and their children the theorems. Store/Invariant has the invariant of the
--     tables, Store/Invariant/Calls sequences of calls from any number of processes. Store/Lifecycle
--     is the abstract view, the status of one event, and its children relate the calls to it.
--     Store/Placeholders is bind, Store/Connection the opening, with db_pool.go, and Store/Operational
--     is operational_metrics.go.
--   Config: config.go, its record and durations, with Config/Load for the loading and validation.
--   Metrics: metrics.go and latency-metrics.go.
--   World: the state of a process, which is the shared tables, its counters, and a trace of what it
--     has asked of the broker and of the timer. It is what the next parts pass along.
--   Worker: worker.go, from the claim of a delivery to its settlement; Worker/Deliveries joins it to the
--     forwarding of the broker's deliveries.
--   Outbox: outbox.go, a batch of the dispatcher, its polls and its goroutine.
--   Dlq: dlq_retry.go, a round of the automatic retry. DeadLetter: deadletter.go, both repositories.
--   Rabbit: rabbitmq_queue.go, over a broker that answers as it likes: the publisher, Rabbit/Forward and
--     Rabbit/Consume the consumer and Close, Rabbit/Handles the connections that are open.
--   Handlers: handlers.go, the acceptance of an event, the replay, and readiness; Handlers/Reports the
--     others, with prometheus-handler.go. RequestId: request_id.go. Routes: app.go.
--   Prometheus: metrics_prometheus.go and metrics-prometheus-extra.go. Commands: commands.go.
--   System: the service as steps of its processes on the tables and the broker, over the definitions of
--     the parts; System/Delivered is about what they reach together, with a poll as one step, and
--     System/Interleaved with the settlement of a message as a step of its own.
--   Main: main.go, as the parts that it starts and stops. Migrations: migrations.go.
--   Text: what is used of strings, fmt and encoding/hex. Prelude: shared names,
--     integers, tables with a key, and queries on them. Tests: concrete inputs.
--
-- How the world outside is modelled. A method of the store is a function of the tables and of an
-- environment. The environment answers each call of the database, of the clock and of the random
-- source as it likes, at each step: a statement is answered, or refused without effect, or takes
-- effect with its answer lost. A transaction that fails restores the rows, but not the sequence. JSON,
-- row locks of other sessions, and the order of RETURNING are parameters of the environment. The
-- broker and the event processor are functions that answer nil or an error text at each moment. A
-- time is a count of nanoseconds; NULL is `none`; a database integer is unbounded, while a Go `int`
-- or `time.Duration` keeps its 64-bit wrap-around. A panic is `none`.
--
-- The retry loop recurses on max_retries + 1, the number of its rounds, and the doubling of a delay on
-- the attempts before the last; neither needs fuel. The goroutines of the dispatcher and the scheduler
-- have one round for each tick that they are given, the consumer's loop one for each connection, the
-- forwarding one for each delivery, and the compare-and-swap loop
-- recurses on the values that the counter holds as its operations come to it.
--
-- Not modelled: logging; contexts, but for the ends of the consumer's loop; goroutines, tickers and the
-- two seconds of processEvent; the isolation of concurrent transactions, which are one step each; the
-- error that Close of the queue joins; rounding of floating-point numbers; logger.go. They are input and
-- output, or the language's runtime.
pub mod Prelude
pub mod Models
pub mod Store
pub mod Config
pub mod Metrics
pub mod Queue
pub mod World
pub mod Worker
pub mod Outbox
pub mod Dlq
pub mod DeadLetter
pub mod Text
pub mod Http
pub mod Rabbit
pub mod Handlers
pub mod Tests
pub mod Prometheus
pub mod RequestId
pub mod Routes
pub mod Commands
pub mod Main
pub mod Migrations
pub mod System
