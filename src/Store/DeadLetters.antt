-- ===== src/Store/DeadLetters.antt =====
-- The `dead_letters` statements of event_store.go: saving a permanent failure, replaying it, and
-- the list.
pub mod Replay
pub mod Stale
use Prim.Native.Nat.{Ordering}
use Prim.Native.String.{compare}
use go_webhook_processor.Prelude.{
  ℕ, ◌+◌, String, Bool, true, false, not, ◌&&◌, ◌||◌, Option, none, some, List, [], ◌∷◌, ◌++◌, map,
  take, filter, eqb, is_some, ◌==◌, if◌then◌else◌,
}
use go_webhook_processor.Prelude.Int.{ℤ, pos, pos_part, ◌+ℤ◌, leb_ℤ, ltb_ℤ}
use go_webhook_processor.Prelude.Table.{find, update_where, count_where, order_by}
use go_webhook_processor.Models.{Event}
use go_webhook_processor.Store.Schema.{
  EventStatus, queued, processing, processed, failed, EventRow, OutboxRow, DeadLetterRow, Db,
  event_key, outbox_key, dead_key, RetryableDeadLetterDetail,
}
use go_webhook_processor.Store.Monad.{
  Env, dead_letter_not_found, dead_letter_not_failed, plain, Result, ok, err, Store, pure, raise,
  ◌>>=◌, ◌>>◌, now, db_now, marshal, statement, transaction,
}
use go_webhook_processor.Store.Outbox.{insert_outbox}
use go_webhook_processor.Store.Events.{update_events}

abbrev pub is_letter : String → DeadLetterRow → Bool
is_letter id r = r.event_id == id

-- INSERT INTO dead_letters … ON CONFLICT(event_id) DO UPDATE. `excluded` is the row that was to be
-- inserted; the type, the payload and `replay_attempts` of an old row stay.
abbrev pub refresh : DeadLetterRow → ℤ → DeadLetterRow → DeadLetterRow
refresh excluded current r = record r {
  error = excluded.error;
  attempts = excluded.attempts;
  failed_at = excluded.failed_at;
  next_retry_at = some current;
  last_retry_error = excluded.last_retry_error;
  replayed_at = none;
}

unfoldable pub upsert_dead_letter : DeadLetterRow → ℤ → Db → Db × Option (Unit {0})
upsert_dead_letter row current db =
    if is_some (find dead_key row.event_id db.dead_letters)
    then (
      record db {
        dead_letters = update_where (is_letter row.event_id) (refresh row current) db.dead_letters;
      },
      some tt,
    )
    else (record db { dead_letters = db.dead_letters ++ row ∷ [] }, some tt)

-- UPDATE dead_letters SET … WHERE ….
unfoldable pub update_letters :
    (DeadLetterRow → Bool) → (DeadLetterRow → DeadLetterRow) → Db → Db × Option ℕ
update_letters p set db = (
  record db { dead_letters = update_where p set db.dead_letters },
  some (count_where p db.dead_letters),
)

-- UPDATE outbox SET … WHERE ….
unfoldable pub update_outbox : (OutboxRow → Bool) → (OutboxRow → OutboxRow) → Db → Db × Option ℕ
update_outbox p set db =
    (record db { outbox = update_where p set db.outbox }, some (count_where p db.outbox))

-- SELECT … FROM events e JOIN dead_letters d ON d.event_id = e.id WHERE e.id = ?.
unfoldable pub select_replay : String → Db → Db × Option (Option EventRow)
select_replay id db = (
  db,
  some (elim (find event_key id db.events) [
    | none ↦ none
    | some e ↦ if is_some (find dead_key id db.dead_letters) then some e else none
  ]),
)

abbrev pub is_failed : EventStatus → Bool
is_failed failed = true
is_failed queued = false
is_failed processing = false
is_failed processed = false

abbrev pub is_failed_event : String → EventRow → Bool
is_failed_event id r = r.id == id && is_failed r.status

abbrev pub requeue_row : ℤ → EventRow → EventRow
requeue_row at r = record r {
  status = queued;
  attempts = pos 0;
  error = "";
  processing_started_at = none;
  updated_at = at;
}

abbrev pub is_message_of : String → OutboxRow → Bool
is_message_of id r = r.event_id == id

-- The reservation of a message, `dispatch_token` and `dispatching_at`, is left as it is.
abbrev pub reopen_row : OutboxRow → OutboxRow
reopen_row r = record r { attempts = pos 0; last_error = ""; published_at = none }

abbrev pub replayed_row : ℤ → DeadLetterRow → DeadLetterRow
replayed_row at r = record r { replayed_at = some at }

unfoldable pub or_not_found : Option EventRow → Store EventRow
or_not_found none = raise dead_letter_not_found
or_not_found (some e) = pure e

abbrev pub letter_row : Event → String → String → ℤ → ℤ → ℤ → DeadLetterRow
letter_row event payload error attempts failed_at next_retry_at = record {
  event_id = event.id;
  event_type = event.type;
  request_id = event.request_id;
  payload = payload;
  error = error;
  attempts = attempts;
  failed_at = failed_at;
  replayed_at = none;
  replay_attempts = pos 0;
  next_retry_at = some next_retry_at;
  last_retry_error = error;
}

module _ (env : Env) where
  unfoldable pub save_dead_letter : Event → String → ℤ → Store (Unit {0})
  unfolding marshal now db_now statement upsert_dead_letter
  save_dead_letter event error attempts = do
    payload ← marshal env "marshal dead letter payload" event.payload
    failed_at ← now env
    next_retry_at ← now env
    current ← db_now env
    statement env "save dead letter" (
        upsert_dead_letter (letter_row event payload error attempts failed_at next_retry_at)
          current)

  -- The body of the transaction of ReplayDeadLetter.
  unfoldable pub replay_body : String → Store (Unit {0})
  replay_body id = do
    found ← statement env "read event for dead letter replay" (select_replay id)
    e ← or_not_found found
    if is_failed e.status then pure tt else raise (dead_letter_not_failed e.status)
    at ← now env
    statement env "reset event for dead letter replay"
        (update_events (is_failed_event id) (requeue_row at))
    affected ← statement env "reopen outbox message" (update_outbox (is_message_of id) reopen_row)
    if eqb affected 0
        then statement env "create outbox message for replay"
            (insert_outbox id e.type e.request_id e.payload at)
        else pure tt
    statement env "mark dead letter replayed" (update_letters (is_letter id) (replayed_row at))
    pure tt

  unfoldable pub replay_dead_letter : String → Store (Unit {0})
  unfolding transaction replay_body
  replay_dead_letter id =
      transaction env "begin dead letter replay" "commit dead letter replay" (replay_body id)

pub record DeadLetter : Type 0 where
  pub event : Event
  pub error : String
  pub attempts : ℤ
  pub failed_at : ℤ
  pub replayed_at : Option ℤ

abbrev latest_failure : DeadLetterRow → DeadLetterRow → Bool
latest_failure r q = leb_ℤ q.failed_at r.failed_at

unfoldable pub select_dead_letters : ℤ → Db → Db × Option (List DeadLetterRow)
select_dead_letters limit db =
    if ltb_ℤ limit (pos 0)
    then (db, none)
    else (db, some (take (pos_part limit) (order_by latest_failure db.dead_letters)))

module _ (env : Env) where
  unfoldable pub decode_dead_letters : List DeadLetterRow → Result (List DeadLetter)
  decode_dead_letters [] = ok []
  decode_dead_letters (r ∷ rows) =
      let rest = decode_dead_letters rows in
      elim (env.unmarshal r.payload) [
        | none ↦ err (plain "decode dead letter payload")
        | some payload ↦ elim rest [
          | err e ↦ err e
          | ok items ↦ ok (
              record {
                event = record {
                  id = r.event_id;
                  type = r.event_type;
                  request_id = r.request_id;
                  payload = payload;
                };
                error = r.error;
                attempts = r.attempts;
                failed_at = r.failed_at;
                replayed_at = r.replayed_at;
              }
              ∷ items)
        ]
      ]

  unfoldable pub list_dead_letters : ℤ → Store (List DeadLetter)
  unfolding statement select_dead_letters
  list_dead_letters limit = do
    rows ← statement env "list dead letters" (select_dead_letters limit)
    λ s. (decode_dead_letters rows, s)
