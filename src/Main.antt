-- ===== src/Main.antt =====
-- `main` of main.go: what the process starts and stops, in order, and its exit code.
pub mod Releases
use go_webhook_processor.Prelude.{
  ℕ, String, Bool, true, false, Option, none, some, List, [], ◌∷◌, ◌++◌, ◌==◌, if◌then◌else◌,
}
use go_webhook_processor.Prelude.Int.{ℤ}
use go_webhook_processor.Config.{Config}
use go_webhook_processor.Config.Load.{Loaded, loaded, refused_with}

-- The parts that main starts and stops. A cancelled or stopped part may still run until the process
-- has waited for it. The shutdown of the server has the error that it answers, if any.
pub data Effect : Type 0 where
  run_migrations : Effect
  open_store close_store : Effect
  run_command : Effect
  open_queue stop_consuming close_queue : Effect
  start_workers : ℤ → Effect
  wait_workers : Effect
  start_dispatcher start_scheduler : Effect
  stop_dispatcher wait_dispatchers : Effect
  start_server : Effect
  shut_down_server : Option String → Effect

-- The end of the `select`: the server has returned, closed or with another error, or a signal.
pub data Stop : Type 0 where
  server_failed server_closed signalled : Stop

-- What the calls answer. `command` is whether the arguments were a command, and its error.
pub record Outside : Type 0 where
  pub args : List String  -- os.Args[1:]
  pub config : Loaded
  pub migrations : Option String
  pub event_store : Option String
  pub command : Bool × Option String
  pub event_queue : Option String
  pub stop : Stop
  pub server_shutdown : Option String

-- An exit code, and the effects in their order.
abbrev pub Run : Type 0
Run = ℕ × List Effect

abbrev exit_code : Option String → ℕ
exit_code none = 0
exit_code (some e) = 1

abbrev after : List Effect → Run → Run
after effects (code, others) = (code, effects ++ others)

-- The end of main after the `select`, with the deferred call. An error of the server's shutdown, as
-- when its time is up, is logged, and main goes on.
unfoldable pub shutdown : Outside → Run
shutdown o = (
  0,
  shut_down_server o.server_shutdown
      ∷ stop_dispatcher
      ∷ wait_dispatchers
      ∷ stop_consuming
      ∷ wait_workers
      ∷ close_queue
      ∷ close_store
      ∷ [],
)

-- From the queue on. os.Exit skips the deferred call.
unfoldable pub serve : Config → Outside → Run
unfolding shutdown
serve config o =
    let scheduler = if config.dlq_auto_retry_enabled then start_scheduler ∷ [] else [] in
    elim o.event_queue [
      | some e ↦ (1, [])
      | none ↦
          after
            (open_queue ∷ start_workers config.worker_count ∷ start_dispatcher ∷ scheduler
              ++ start_server ∷ [])
            (elim o.stop [
              | server_failed ↦ (1, [])
              | server_closed ↦ shutdown o
              | signalled ↦ shutdown o
            ])
    ]

-- With an open store: a command, or the service.
unfoldable pub with_store : Config → Outside → Run
unfolding serve
with_store config o =
    let (handled, error) = o.command in
    if handled
    then (elim error [
      | some e ↦ (1, run_command ∷ [])
      | none ↦ (0, run_command ∷ close_store ∷ [])
    ])
    else after (run_command ∷ []) (serve config o)

abbrev pub is_migrate : List String → Bool
is_migrate [] = false
is_migrate (name ∷ others) = name == "migrate"

abbrev pub is_alone : List String → Bool
is_alone (name ∷ []) = true
is_alone [] = false
is_alone (name ∷ second ∷ others) = false

unfoldable pub main : Outside → Run
unfolding with_store
main o = elim o.config [
  | refused_with e ↦ (1, [])
  | loaded config ↦
      if is_migrate o.args
      then if is_alone o.args then (exit_code o.migrations, run_migrations ∷ []) else (1, [])
      else elim o.event_store [
        | some e ↦ (1, [])
        | none ↦ after (open_store ∷ []) (with_store config o)
      ]
]
