-- ===== src/Store.antt =====
-- event_store.go and dlq_backoff_store.go over the tables of migrations/, one child for each table.
pub mod Schema
pub mod Monad
pub mod Outbox
pub mod Events
pub mod DeadLetters
pub mod Retries
pub mod Invariant
pub mod Lifecycle
pub mod Connection
pub mod Placeholders
pub mod Operational
