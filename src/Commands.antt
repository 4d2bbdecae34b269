-- ===== src/Commands.antt =====
-- commands.go: the administrative commands on the command line.
use go_webhook_processor.Prelude.{
  String, Bool, true, false, Option, none, some, List, [], ◌∷◌, ◌==◌, if◌then◌else◌,
}
use go_webhook_processor.Text.{trim_space}
use go_webhook_processor.Store.Monad.{Env, Error, ok, err, State}
use go_webhook_processor.Store.DeadLetters.{replay_dead_letter}

pub data CommandError : Type 0 where
  usage : CommandError
  unknown_command : String → CommandError
  of_store : Error → CommandError
  of_output : String → CommandError

-- `encode` writes the answer for an event id on the standard output: nil, or an error text.
module _ (env : Env) (encode : String → Option String) where
  abbrev written : String → Option CommandError
  written event_id = elim (encode event_id) [ none ↦ none | some e ↦ some (of_output e) ]

  -- The command with its argument, once that is known to be the only one.
  unfoldable pub replay_command : String → State → Option CommandError × State
  replay_command argument s =
      let event_id = trim_space argument in
      let (replayed, s') = replay_dead_letter env event_id s in
      if event_id == ""
      then (some usage, s)
      else elim replayed [ err e ↦ (some (of_store e), s') | ok _ ↦ (written event_id, s') ]

  abbrev replay_arguments : List String → State → Option CommandError × State
  replay_arguments [] s = (some usage, s)
  replay_arguments (argument ∷ []) s = replay_command argument s
  replay_arguments (argument ∷ second ∷ others) s = (some usage, s)

  -- Whether the arguments were a command, its error, and the state of the store.
  unfoldable pub run_command : List String → State → Bool × Option CommandError × State
  unfolding replay_command
  run_command [] s = (false, none, s)
  run_command (name ∷ arguments) s =
      let (error, s') = replay_arguments arguments s in
      if name == "replay-dead-letter"
      then (true, error, s')
      else (true, some (unknown_command name), s)
