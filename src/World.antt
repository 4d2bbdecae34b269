-- ===== src/World.antt =====
-- The state of one process: the database that it shares, its counters, and the requests that it
-- has made of the broker and of the timer.
use go_webhook_processor.Prelude.{List, ◌∷◌}
use go_webhook_processor.Metrics.{Metrics}
use go_webhook_processor.Queue.{Action}
use go_webhook_processor.Store.Monad.{Result, State, Store}

pub record World : Type 0 where
  pub store : State
  pub metrics : Metrics
  pub trace : List Action

-- A method of the store, called with its error at hand.
abbrev pub call : {A : Type 0} → Store A → World → Result A × World
call m w = let (r, s) = m w.store in (r, record w { store = s })

abbrev pub count : (Metrics → Metrics) → World → World
count f w = record w { metrics = f w.metrics }

abbrev pub emit : Action → World → World
emit a w = record w { trace = a ∷ w.trace }
