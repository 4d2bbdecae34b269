-- ===== src/Main/Releases.antt =====
-- The order in which main starts and stops the parts, against what each part needs.
use go_webhook_processor.Prelude.{
  ℕ, String, ◌≡◌, ◌⊎◌, is_some, Bool, true, false, not, ◌&&◌, ◌||◌, Option, none, some, List, [],
  ◌∷◌, if◌then◌else◌,
}
use go_webhook_processor.Config.Load.{Loaded, loaded, refused_with}
use go_webhook_processor.Main.{
  Effect, run_migrations, open_store, close_store, run_command, open_queue, stop_consuming,
  close_queue, start_workers, wait_workers, start_dispatcher, start_scheduler, stop_dispatcher,
  wait_dispatchers, start_server, shut_down_server, Outside, Stop, server_failed, server_closed,
  signalled, is_migrate, is_alone,
}

-- Which parts are open or running; `cancelled` says that the dispatchers' context has ended, and
-- `cut_off` that the queue or the store was closed while handlers of requests might still run.
pub record Live : Type 0 where
  pub store : Bool
  pub queue : Bool
  pub consuming : Bool
  pub workers : Bool
  pub dispatchers : Bool
  pub cancelled : Bool
  pub server : Bool
  pub handlers : Bool
  pub cut_off : Bool

abbrev pub nothing : Live
nothing = record {
  store = false;
  queue = false;
  consuming = false;
  workers = false;
  dispatchers = false;
  cancelled = false;
  server = false;
  handlers = false;
  cut_off = false;
}

abbrev allow : Bool → Live → Option Live
allow ok l = if ok then some l else none

-- One effect, allowed if the parts that it needs are there and no other part is left that still needs
-- what it takes away; the handlers of requests are noted in `cut_off` instead. A shutdown of the
-- server closes its listeners, and waits for the handlers unless it answers an error.
abbrev pub admit : Effect → Live → Option Live
admit run_migrations l = some l
admit open_store l = allow (not l.store) (record l { store = true })
admit close_store l =
    allow (l.store && not (l.server || (l.workers || (l.dispatchers || l.queue))))
      (record l { store = false; cut_off = l.cut_off || l.handlers })
admit run_command l = allow l.store l
admit open_queue l = allow (not l.queue) (record l { queue = true; consuming = true })
admit stop_consuming l = allow (l.queue && l.consuming) (record l { consuming = false })
admit close_queue l =
    allow (l.queue && not (l.consuming || (l.workers || l.dispatchers)))
      (record l { queue = false; cut_off = l.cut_off || l.handlers })
admit (start_workers n) l = allow (l.store && l.queue) (record l { workers = true })
admit wait_workers l = allow (not l.consuming) (record l { workers = false })
admit start_dispatcher l =
    allow (l.store && (l.queue && not l.cancelled)) (record l { dispatchers = true })
admit start_scheduler l = allow (l.store && not l.cancelled) (record l { dispatchers = true })
admit stop_dispatcher l = some (record l { cancelled = true })
admit wait_dispatchers l = allow l.cancelled (record l { dispatchers = false; cancelled = false })
admit start_server l = allow (l.store && l.queue) (record l { server = true; handlers = true })
admit (shut_down_server none) l = allow l.server (record l { server = false; handlers = false })
admit (shut_down_server (some error)) l = allow l.server (record l { server = false })

abbrev pub admit_all : List Effect → Live → Option Live
admit_all [] l = some l
admit_all (e ∷ effects) l = elim (admit e l) [ none ↦ none | some l' ↦ admit_all effects l' ]

-- Nothing is open or running but handlers of requests.
abbrev pub handlers_only : Live
handlers_only = record nothing { handlers = true; cut_off = true }

-- What may be left after an exit code of 0, by the answer of the server's shutdown.
abbrev pub IsLeft : Option String → Live → Type 0
IsLeft none l = l ≡ nothing
IsLeft (some error) l = (l ≡ nothing) ⊎ (l ≡ handlers_only)

abbrev is_refused : Loaded → Bool
is_refused (refused_with e) = true
is_refused (loaded config) = false

abbrev is_server_failed : Stop → Bool
is_server_failed server_failed = true
is_server_failed server_closed = false
is_server_failed signalled = false

-- A call of main has answered an error, or `migrate` has further arguments. The error of the server's
-- shutdown does not count.
abbrev pub has_failure : Outside → Bool
has_failure o =
    is_refused o.config
    || ((is_migrate o.args && not (is_alone o.args))
        || (is_some o.migrations
            || (is_some o.event_store
                || (is_some o.command.1 || (is_some o.event_queue || is_server_failed o.stop)))))

abbrev pub Releases : Outside → ℕ → Option Live → Type 0
Releases o code none = ⊥
Releases o code (some l) =
    ((code ≡ 1) × (has_failure o ≡ true)) ⊎ ((code ≡ 0) × IsLeft o.server_shutdown l)
