-- ===== src/Store/Operational.antt =====
-- OperationalMetrics of operational_metrics.go: the backlogs that the tables hold.
pub mod Backlog
use go_webhook_processor.Prelude.{ℕ, Bool, not, Option, some, is_some}
use go_webhook_processor.Prelude.Int.{ℤ, pos}
use go_webhook_processor.Prelude.Table.{count_where}
use go_webhook_processor.Store.Schema.{OutboxRow, DeadLetterRow, Db}
use go_webhook_processor.Store.Monad.{Env, Store, statement, pure, ◌>>=◌}

pub record OperationalMetrics : Type 0 where
  pub pending_outbox : ℤ
  pub pending_dead_letters : ℤ

abbrev pub is_unpublished : OutboxRow → Bool
is_unpublished r = not (is_some r.published_at)

abbrev pub is_unreplayed : DeadLetterRow → Bool
is_unreplayed r = not (is_some r.replayed_at)

unfoldable pub select_operational : Db → Db × Option OperationalMetrics
select_operational db = (
  db,
  some (record {
    pending_outbox = pos (count_where is_unpublished db.outbox);
    pending_dead_letters = pos (count_where is_unreplayed db.dead_letters);
  }),
)

unfoldable pub operational_metrics : Env → Store OperationalMetrics
unfolding statement select_operational
operational_metrics env = statement env "read operational metrics" select_operational
