-- ===== src/Store/Lifecycle.antt =====
-- The life of one event, as its status alone: what each method of `EventStore` may do to it. This is
-- the view of the tables that a client of the service has.
pub mod Refines
pub mod Runs
use go_webhook_processor.Prelude.{String, ◌≡◌, ◌⊎◌, Option, none, some, List, [], ◌∷◌}
use go_webhook_processor.Prelude.Table.{find}
use go_webhook_processor.Store.Schema.{
  EventStatus, queued, processing, processed, failed, EventRow, Db, event_key,
}
use go_webhook_processor.Store.Invariant.Calls.{
  Method, save, claim, finish, fail, reserve_batch, publish, unpublish, bury, replay,
  claim_dead_letters, postpone, claim_ids, retry_now, Call,
}

-- An event is unknown, or has a status.
abbrev pub Life : Type 0
Life = Option EventStatus

abbrev pub status_of : Option EventRow → Life
status_of none = none
status_of (some r) = some r.status

-- The abstract view of the tables.
abbrev pub life_of : String → Db → Life
life_of id db = status_of (find event_key id db.events)

abbrev accept : Life → Life
accept none = some queued
accept (some status) = some status

abbrev start : Life → Life
start none = none
start (some queued) = some processing
start (some processing) = some processing
start (some processed) = some processed
start (some failed) = some failed

abbrev settle : EventStatus → Life → Life
settle final none = none
settle final (some status) = some final

abbrev requeue : Life → Life
requeue none = none
requeue (some failed) = some queued
requeue (some queued) = some queued
requeue (some processing) = some processing
requeue (some processed) = some processed

-- The event that a method is about, if any, and what it does to the life of that event.
abbrev pub target : Method → Option String
target (save event) = some event.id
target (claim id lease) = some id
target (finish id attempts) = some id
target (fail id attempts error) = some id
target (replay id) = some id
target (reserve_batch limit lease) = none
target (publish m) = none
target (unpublish m error) = none
target (bury event error attempts) = none
target (claim_dead_letters limit max) = none
target (postpone id error delay) = none
target (claim_ids limit max) = none
target (retry_now id error) = none

abbrev pub effect : Method → Life → Life
effect (save event) l = accept l
effect (claim id lease) l = start l
effect (finish id attempts) l = settle processed l
effect (fail id attempts error) l = settle failed l
effect (replay id) l = requeue l
effect (reserve_batch limit lease) l = l
effect (publish m) l = l
effect (unpublish m error) l = l
effect (bury event error attempts) l = l
effect (claim_dead_letters limit max) l = l
effect (postpone id error delay) l = l
effect (claim_ids limit max) l = l
effect (retry_now id error) l = l

-- One call, seen from the event of an id: nothing has happened to it, or the call was about it and
-- has had its effect.
abbrev pub Step : String → Method → Life → Life → Type 0
Step id method before after =
    (after ≡ before) ⊎ ((target method ≡ some id) × (after ≡ effect method before))

-- A sequence of calls, seen from the event of an id.
abbrev pub Steps : String → List Call → Life → Life → Type 0
Steps id [] before after = after ≡ before
Steps id (c ∷ calls) before after =
    (middle : Life) × Step id c.method before middle × Steps id calls middle after
