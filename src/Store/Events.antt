-- ===== src/Store/Events.antt =====
-- The `events` statements of event_store.go: acceptance with the outbox message, the claim of an
-- event by a worker, and the two final states.
pub mod Rows
pub mod Accept
pub mod Claim
use go_webhook_processor.Prelude.{
  ℕ, ◌+◌, String, Bool, true, false, ◌&&◌, ◌||◌, Option, none, some, List, [], ◌∷◌, ◌++◌, take, eqb,
  is_some, ◌==◌, if◌then◌else◌,
}
use go_webhook_processor.Prelude.Int.{ℤ, pos, pos_part, ◌-ℤ◌, leb_ℤ, ltb_ℤ}
use go_webhook_processor.Prelude.Table.{find, update_where, count_where, order_by}
use go_webhook_processor.Models.{Event, Payload}
use go_webhook_processor.Store.Schema.{
  EventStatus, queued, processing, processed, failed, EventRow, Db, event_key, EventClaimResult,
  claimed, in_progress, final, missing,
}
use go_webhook_processor.Store.Monad.{
  Env, event_already_exists, Store, pure, raise, ◌>>=◌, ◌>>◌, now, marshal, statement, transaction,
}
use go_webhook_processor.Store.Outbox.{insert_outbox}

abbrev pub queued_row : Event → String → ℤ → EventRow
queued_row event payload at = record {
  id = event.id;
  type = event.type;
  request_id = event.request_id;
  payload = payload;
  status = queued;
  error = "";
  attempts = pos 0;
  created_at = at;
  updated_at = at;
  processing_started_at = none;
}

-- INSERT INTO events … ON CONFLICT(id) DO NOTHING, with the count of rows affected.
unfoldable pub insert_event : Event → String → ℤ → Db → Db × Option ℕ
insert_event event payload at db =
    if is_some (find event_key event.id db.events)
    then (db, some 0)
    else (record db { events = db.events ++ queued_row event payload at ∷ [] }, some 1)

-- `status = queued OR (status = processing AND processing_started_at <= expired_before)`.
abbrev pub started_by : Option ℤ → ℤ → Bool
started_by none cutoff = false
started_by (some t) cutoff = leb_ℤ t cutoff

abbrev pub is_free : EventStatus → Option ℤ → ℤ → Bool
is_free queued started cutoff = true
is_free processing started cutoff = started_by started cutoff
is_free processed started cutoff = false
is_free failed started cutoff = false

abbrev pub is_event : String → EventRow → Bool
is_event id r = r.id == id

abbrev pub is_free_event : String → ℤ → EventRow → Bool
is_free_event id cutoff r = r.id == id && is_free r.status r.processing_started_at cutoff

abbrev pub start_row : ℤ → EventRow → EventRow
start_row at r = record r { status = processing; processing_started_at = some at; updated_at = at }

abbrev pub processed_row : ℤ → ℤ → EventRow → EventRow
processed_row attempts at r = record r {
  status = processed;
  attempts = attempts;
  error = "";
  processing_started_at = none;
  updated_at = at;
}

abbrev pub failed_row : ℤ → String → ℤ → EventRow → EventRow
failed_row attempts error at r = record r {
  status = failed;
  attempts = attempts;
  error = error;
  processing_started_at = none;
  updated_at = at;
}

-- UPDATE events SET … WHERE …, with the count of rows affected.
unfoldable pub update_events : (EventRow → Bool) → (EventRow → EventRow) → Db → Db × Option ℕ
update_events p set db =
    (record db { events = update_where p set db.events }, some (count_where p db.events))

-- SELECT status FROM events WHERE id = ?; no row is `sql.ErrNoRows`, an answer.
unfoldable pub select_status : String → Db → Db × Option (Option EventStatus)
select_status id db =
    (db, some (elim (find event_key id db.events) [ none ↦ none | some r ↦ some r.status ]))

-- The `switch` on the status; `queued` is its default.
abbrev pub claim_of_status : Option EventStatus → EventClaimResult
claim_of_status none = missing
claim_of_status (some processed) = final
claim_of_status (some failed) = final
claim_of_status (some processing) = in_progress
claim_of_status (some queued) = in_progress

module _ (env : Env) where
  -- The body of the transaction of SaveQueuedWithOutbox.
  unfoldable pub save_body : Event → String → Store (Unit {0})
  unfolding now statement insert_event insert_outbox
  save_body event payload = do
    at ← now env
    affected ← statement env "save queued event" (insert_event event payload at)
    if eqb affected 0 then raise event_already_exists else pure tt
    statement env "save outbox message"
        (insert_outbox event.id event.type event.request_id payload at)

  unfoldable pub save_queued_with_outbox : Event → Store (Unit {0})
  unfolding marshal transaction save_body
  save_queued_with_outbox event = do
    payload ← marshal env "marshal event payload" event.payload
    transaction env "begin event transaction" "commit event transaction" (save_body event payload)

  unfoldable pub claim_for_processing : String → ℤ → Store EventClaimResult
  unfolding now statement update_events select_status
  claim_for_processing id lease = do
    at ← now env
    affected ←
        statement env "claim event for processing"
          (update_events (is_free_event id (at -ℤ lease)) (start_row at))
    if eqb affected 1 then pure claimed else do
      status ← statement env "read event claim status" (select_status id)
      pure (claim_of_status status)

  unfoldable pub mark_processed : String → ℤ → Store (Unit {0})
  unfolding now statement update_events
  mark_processed id attempts = do
    at ← now env
    statement env "mark event processed" (update_events (is_event id) (processed_row attempts at))
    pure tt

  unfoldable pub mark_failed : String → ℤ → String → Store (Unit {0})
  unfolding now statement update_events
  mark_failed id attempts error = do
    at ← now env
    statement env "mark event failed" (update_events (is_event id) (failed_row attempts error at))
    pure tt

-- A payload that does not decode is shown as its text.
pub data StoredPayload : Type 0 where
  decoded : Payload → StoredPayload
  raw : String → StoredPayload

pub record StoredEvent : Type 0 where
  pub id : String
  pub type : String
  pub payload : StoredPayload
  pub status : EventStatus
  pub error : String
  pub attempts : ℤ
  pub created_at : ℤ
  pub updated_at : ℤ

abbrev newest_event : EventRow → EventRow → Bool
newest_event r q = leb_ℤ q.created_at r.created_at

unfoldable pub list_events : ℤ → Db → Db × Option (List EventRow)
list_events limit db =
    if ltb_ℤ limit (pos 0)
    then (db, none)
    else (db, some (take (pos_part limit) (order_by newest_event db.events)))

module _ (env : Env) where
  abbrev decode_payload : String → StoredPayload
  decode_payload payload = elim (env.unmarshal payload) [ none ↦ raw payload | some p ↦ decoded p ]

  unfoldable pub decode_events : List EventRow → List StoredEvent
  decode_events [] = []
  decode_events (r ∷ rows) =
      record {
        id = r.id;
        type = r.type;
        payload = decode_payload r.payload;
        status = r.status;
        error = r.error;
        attempts = r.attempts;
        created_at = r.created_at;
        updated_at = r.updated_at;
      }
      ∷ decode_events rows

  unfoldable pub list : ℤ → Store (List StoredEvent)
  unfolding statement list_events
  list limit = do rows ← statement env "list events" (list_events limit); pure (decode_events rows)
