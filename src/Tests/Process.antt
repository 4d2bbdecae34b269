-- ===== src/Tests/Process.antt =====
-- The theorems on texts, request ids, backlogs and the process, at concrete inputs, and tests of what
-- the service prints.
use Prim.Native.Nat.{min}
use Prim.Native.String.{◌++◌ as append}
use go_webhook_processor.Prelude.{
  ℕ, ◌≡◌, ◌≢◌, refl, ◌⊎◌, false, none, some, List, [], ◌∷◌, arith, length, ◌<◌, All,
}
use go_webhook_processor.Prelude.Int.{pos}
use go_webhook_processor.Prelude.Table.{find}
use go_webhook_processor.Store.Monad.{ok, err, failed_to}
use go_webhook_processor.Store.Schema.{OutboxRow, EventRow, event_key}
use go_webhook_processor.Store.Outbox.{list_outbox, new_outbox_dispatch_token}
use go_webhook_processor.Store.Placeholders.{bind}
use go_webhook_processor.Store.Placeholders.Numbered.{pieces, numbered, bind-numbered}
use go_webhook_processor.Store.Operational.{operational_metrics, OperationalMetrics}
use go_webhook_processor.Store.Operational.Backlog.{pending_outbox_counts}
use go_webhook_processor.Store.Connection.{open_event_store_with}
use go_webhook_processor.Text.Hex.{hex_encode, hex_decode}
use go_webhook_processor.Store.Outbox.Token.{hex_decode-new_outbox_dispatch_token}
use go_webhook_processor.Handlers.{App, create_event_handler}
use go_webhook_processor.RequestId.{request_id_middleware, choose_request_id}
use go_webhook_processor.RequestId.Stored.{accepted_request_id}
use go_webhook_processor.Commands.{run_command, usage}
use go_webhook_processor.Config.Load.{loaded}
use go_webhook_processor.Main.{Outside, signalled, server_failed, main}
use go_webhook_processor.Main.Releases.{Releases, admit_all, nothing, handlers_only}
use go_webhook_processor.Prometheus.{metric}
use go_webhook_processor.Http.{Request}
use go_webhook_processor.Tests.Data.{
  app, config, env_at, order, request, start, world, accepted_state, failed_state,
}

small_bytes :
    (n : ℕ) (bytes : List ℕ) → (env_at 20).random n ≡ some bytes → All (λ b. b < 256) bytes
small_bytes n bytes e = ground (arith, e)

given_token : (new_outbox_dispatch_token (env_at 20) accepted_state).0 ≡ ok "01ff"
unfolding new_outbox_dispatch_token go_webhook_processor.Text.Hex.digit
given_token = refl

hex_decode-new_outbox_dispatch_token_example : hex_decode "01ff" ≡ some (1 ∷ 255 ∷ [])
hex_decode-new_outbox_dispatch_token_example =
    hex_decode-new_outbox_dispatch_token (env_at 20) accepted_state "01ff" small_bytes given_token

written_bytes : hex_encode (0 ∷ 31 ∷ 255 ∷ []) ≡ "001fff"
unfolding hex_encode go_webhook_processor.Text.Hex.digit
written_bytes = refl

bind-numbered_example :
    bind "SELECT a FROM t WHERE b = ? AND c = ?"
    ≡ append
        (pieces "SELECT a FROM t WHERE b = ? AND c = ?").0
        (numbered 1 (pieces "SELECT a FROM t WHERE b = ? AND c = ?").1)
bind-numbered_example = bind-numbered "SELECT a FROM t WHERE b = ? AND c = ?"

bound : bind "b = ? AND c = ?" ≡ "b = $1 AND c = $2"
unfolding bind go_webhook_processor.Text.Decimal.format_ℕ go_webhook_processor.Text.Hex.digit
bound = refl

abbrev one_pending : OperationalMetrics
one_pending = record { pending_outbox = pos 1; pending_dead_letters = pos 0 }

read_one : (operational_metrics (env_at 20) accepted_state).0 ≡ ok one_pending
unfolding operational_metrics
read_one = refl

pending_outbox_counts_example :
    (rows : List OutboxRow) × (list_outbox (env_at 20) (pos 10) accepted_state.db
      ≡ (accepted_state.db, some rows))
    × (pending : ℕ) × (one_pending.pending_outbox ≡ pos pending)
    × (length rows ≡ min 10 pending)
pending_outbox_counts_example =
    pending_outbox_counts (env_at 20) 10 accepted_state one_pending read_one

abbrev sixteen_bytes : List ℕ
sixteen_bytes = 1 ∷ 2 ∷ 3 ∷ 4 ∷ 5 ∷ 6 ∷ 7 ∷ 8 ∷ 9 ∷ 10 ∷ 11 ∷ 12 ∷ 13 ∷ 14 ∷ 15 ∷ 16 ∷ []

abbrev service : App
service = record app { env = record (env_at 20) { random = λ n. some sixteen_bytes } }

abbrev anonymous : Request
anonymous = record request { x_request_id = "" }

sixteen : (n : ℕ) (bytes : List ℕ) → service.env.random n ≡ some bytes → length bytes ≡ 16
sixteen n bytes e = ground (arith, e)

accepted_status :
    (request_id_middleware service.env
      (create_event_handler service)
      anonymous
      (world start)).0.response.status
    ≡ 202
unfolding request_id_middleware create_event_handler choose_request_id
    go_webhook_processor.Store.Events.save_queued_with_outbox
accepted_status = refl

accepted_request_id_example :
    let (served, w1) =
      request_id_middleware service.env (create_event_handler service) anonymous (world start) in
    (served.request_id ≢ "")
    × ((anonymous.x_request_id ≡ "") ⊎ (served.request_id ≡ anonymous.x_request_id))
    × (row : EventRow) × (find event_key "e1" w1.store.db.events ≡ some row)
    × (row.request_id ≡ served.request_id)
accepted_request_id_example =
    accepted_request_id service anonymous (world start) order "{}" sixteen refl refl accepted_status

abbrev outside : Outside
outside = record {
  args = [];
  config = loaded config;
  migrations = none;
  event_store = none;
  command = (false, none);
  event_queue = none;
  stop = signalled;
  server_shutdown = none;
}

-- The server's shutdown runs out of time: the queue and the store are closed all the same.
timed_out :
    admit_all
      (main (record outside { server_shutdown = some "context deadline exceeded" })).1
      nothing
    ≡ some handlers_only
unfolding main
timed_out = refl

unclosed : (main (record outside { stop = server_failed })).0 ≡ 1
unfolding main
unclosed = refl

no_driver :
    (open_event_store_with
      (record { open_db = λ url. none; ping = λ url. some "refused" })
      "db"
      (pos 20)
      (pos 10)
      (pos 0)
      (pos 0)).0
    ≡ err (failed_to "ping event store" "refused")
unfolding open_event_store_with
no_driver = refl

command_usage :
    (run_command (env_at 20) (λ id. none) ("replay-dead-letter" ∷ " " ∷ []) failed_state).1
    ≡ some usage
unfolding run_command go_webhook_processor.Text.trim_space
command_usage = refl

printed : metric "counter" "a" "Help." "3" ≡ "# HELP a Help.\n# TYPE a counter\na 3\n"
unfolding metric
printed = refl
