-- ===== src/Store/Connection.antt =====
-- The opening of the event store: openEventStore of event_store.go, OpenEventStore of db_pool.go.
use go_webhook_processor.Prelude.{String, Bool, true, false, Option, none, some}
use go_webhook_processor.Prelude.Int.{ℤ, pos}
use go_webhook_processor.Config.{times, second}
use go_webhook_processor.Config.Load.{Process, get_env_as_int}
use go_webhook_processor.Store.Monad.{failed_to, Result, ok, err}

-- What database/sql and the driver answer: the error of `sql.Open`, and of the first ping.
pub record Driver : Type 0 where
  pub open_db : String → Option String
  pub ping : String → Option String

-- A `sql.DB`: its address, whether it has been closed, and the limits of its pool.
pub record SqlDb : Type 0 where
  pub database_url : String
  pub is_closed : Bool
  pub max_open_conns : ℤ
  pub max_idle_conns : ℤ
  pub max_lifetime : ℤ
  pub max_idle_time : ℤ

-- Before the setters: no limit but the two idle connections of database/sql.
abbrev fresh_db : String → SqlDb
fresh_db database_url = record {
  database_url = database_url;
  is_closed = false;
  max_open_conns = pos 0;
  max_idle_conns = pos 2;
  max_lifetime = pos 0;
  max_idle_time = pos 0;
}

abbrev pub close : SqlDb → SqlDb
close db = record db { is_closed = true }

-- The store's database or an error, and the database that has been opened, if any.
unfoldable pub open_event_store_with : Driver → String → ℤ → ℤ → ℤ → ℤ → Result SqlDb × Option SqlDb
open_event_store_with driver database_url max_open_conns max_idle_conns max_lifetime max_idle_time =
    let db = fresh_db database_url in
    let set = record db {
      max_open_conns = max_open_conns;
      max_idle_conns = max_idle_conns;
      max_lifetime = max_lifetime;
      max_idle_time = max_idle_time;
    } in
    elim (driver.open_db database_url) [
      | some e ↦ (err (failed_to "open event store" e), none)
      | none ↦ elim (driver.ping database_url) [
        | some e ↦ (err (failed_to "ping event store" e), some (close db))
        | none ↦ (ok set, some set)
      ]
    ]

unfoldable pub open_event_store : Process → Driver → String → Result SqlDb × Option SqlDb
unfolding open_event_store_with
open_event_store p driver database_url =
    let max_open_conns = get_env_as_int p "DB_MAX_OPEN_CONNS" (pos 20) in
    let max_idle_conns = get_env_as_int p "DB_MAX_IDLE_CONNS" (pos 10) in
    let max_lifetime = times (get_env_as_int p "DB_CONN_MAX_LIFETIME_SECONDS" (pos 1800)) second in
    let max_idle_time = times (get_env_as_int p "DB_CONN_MAX_IDLE_TIME_SECONDS" (pos 300)) second in
    open_event_store_with driver database_url max_open_conns max_idle_conns max_lifetime
      max_idle_time
