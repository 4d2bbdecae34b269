-- ===== src/Store/Outbox.antt =====
-- The `outbox` statements of event_store.go: insertion, the leased claim of a batch, and the two
-- ways to settle a claimed message.
pub mod Lease
pub mod Token
use go_webhook_processor.Prelude.{
  ℕ, zero, suc, ◌+◌, ◌/◌, ◌%◌, String, Bool, true, false, not, ◌&&◌, ◌||◌, Option, none, some, List,
  [], ◌∷◌, ◌++◌, map, take, filter, eqb, leb, is_some, ◌==◌, if◌then◌else◌,
}
use go_webhook_processor.Prelude.Int.{ℤ, pos, pos_part, ◌-ℤ◌, ◌+ℤ◌, leb_ℤ, ltb_ℤ}
use go_webhook_processor.Prelude.Table.{find, update_where, count_where, order_by}
use go_webhook_processor.Text.Hex.{hex_encode}
use go_webhook_processor.Models.{Event}
use go_webhook_processor.Store.Schema.{OutboxRow, Db, event_key, outbox_key, OutboxMessage}
use go_webhook_processor.Store.Monad.{
  Env, Error, reservation_expired, failed_to, plain, Result, ok, err, Store, next, pure, raise,
  ◌>>=◌, ◌>>◌, now, statement,
}

abbrev pub pending_row : ℕ → String → String → String → String → ℤ → OutboxRow
pending_row id event_id event_type request_id payload created_at = record {
  id = id;
  event_id = event_id;
  event_type = event_type;
  request_id = request_id;
  payload = payload;
  attempts = pos 0;
  last_error = "";
  created_at = created_at;
  published_at = none;
  dispatch_token = none;
  dispatching_at = none;
}

-- INSERT INTO outbox: `event_id` is UNIQUE and REFERENCES events(id). A number of the sequence is
-- used up by a refused row too.
unfoldable pub insert_outbox : String → String → String → String → ℤ → Db → Db × Option (Unit {0})
insert_outbox event_id event_type request_id payload created_at db =
    let used = record db { outbox_seq = db.outbox_seq + 1 } in
    let row : OutboxRow =
      pending_row db.outbox_seq event_id event_type request_id payload created_at in
    if is_some (find outbox_key event_id db.outbox)
    then (used, none)
    else if is_some (find event_key event_id db.events)
    then (record used { outbox = db.outbox ++ row ∷ [] }, some tt)
    else (used, none)

-- `published_at IS NULL AND (dispatching_at IS NULL OR dispatching_at <= cutoff)`.
abbrev pub passed : Option ℤ → ℤ → Bool
passed none cutoff = true
passed (some t) cutoff = leb_ℤ t cutoff

abbrev pub is_claimable : ℤ → OutboxRow → Bool
is_claimable cutoff r = not (is_some r.published_at) && passed r.dispatching_at cutoff

abbrev pub id_before : OutboxRow → OutboxRow → Bool
id_before r q = leb r.id q.id

-- The rows of the `candidates` query; rows that other sessions hold are skipped before LIMIT.
unfoldable pub candidates : (ℕ → Bool) → ℤ → ℕ → List OutboxRow → List OutboxRow
candidates locked cutoff limit rows =
    take limit (order_by id_before (filter (λ r. is_claimable cutoff r && not (locked r.id)) rows))

abbrev pub has_id : List OutboxRow → ℕ → Bool
has_id [] id = false
has_id (c ∷ cs) id = eqb c.id id || has_id cs id

abbrev pub is_chosen : List OutboxRow → OutboxRow → Bool
is_chosen cs r = has_id cs r.id

abbrev pub reserve : String → ℤ → OutboxRow → OutboxRow
reserve token at r = record r { dispatch_token = some token; dispatching_at = some at }

-- WITH candidates … UPDATE outbox … RETURNING. A negative LIMIT is an error.
unfoldable pub claim_outbox : (ℕ → Bool) → ℤ → ℤ → String → ℤ → Db → Db × Option (List OutboxRow)
unfolding candidates
claim_outbox locked cutoff limit token at db =
    let chosen = is_chosen (candidates locked cutoff (pos_part limit) db.outbox) in
    let rows = update_where chosen (reserve token at) db.outbox in
    if ltb_ℤ limit (pos 0)
    then (db, none)
    else (record db { outbox = rows }, some (filter chosen rows))

-- ListPendingOutbox does not select the token.
abbrev pub hide_token : OutboxRow → OutboxRow
hide_token r = record r { dispatch_token = none }

module _ (env : Env) where
  unfoldable pub new_outbox_dispatch_token : Store String
  unfolding hex_encode
  new_outbox_dispatch_token s = elim (env.random s.step) [
    | none ↦ (err (failed_to "generate outbox dispatch token" (env.cause s.step)), next s)
    | some bytes ↦ (ok (hex_encode bytes), next s)
  ]

  -- rows.Scan and json.Unmarshal of each row.
  unfoldable pub decode_messages : String → List OutboxRow → Result (List OutboxMessage)
  decode_messages context [] = ok []
  decode_messages context (r ∷ rows) =
      let rest = decode_messages context rows in
      elim (env.unmarshal r.payload) [
        | none ↦ err (plain context)
        | some payload ↦ elim rest [
          | err e ↦ err e
          | ok messages ↦ ok (
              record {
                id = r.id;
                event = record {
                  id = r.event_id;
                  type = r.event_type;
                  request_id = r.request_id;
                  payload = payload;
                };
                attempts = r.attempts;
                dispatch_token = elim r.dispatch_token [ none ↦ "" | some t ↦ t ];
              }
              ∷ messages)
        ]
      ]

  unfoldable pub claim_pending_outbox : ℤ → ℤ → Store (List OutboxMessage)
  unfolding new_outbox_dispatch_token now statement claim_outbox
  claim_pending_outbox limit lease s =
      (do
        token ← new_outbox_dispatch_token
        at ← now env
        rows ← λ s'.
            statement env "claim pending outbox messages"
              (claim_outbox (env.locked_outbox s'.step) (at -ℤ lease) limit token at) s'
        λ s'. (decode_messages "decode claimed outbox message payload" (env.returned rows), s'))
        s

  abbrev pub is_pending : OutboxRow → Bool
  is_pending r = not (is_some r.published_at)

  unfoldable pub list_outbox : ℤ → Db → Db × Option (List OutboxRow)
  list_outbox limit db =
      if ltb_ℤ limit (pos 0)
      then (db, none)
      else (db, some (take (pos_part limit) (order_by id_before (filter is_pending db.outbox))))

  unfoldable pub list_pending_outbox : ℤ → Store (List OutboxMessage)
  unfolding statement list_outbox
  list_pending_outbox limit = do
    rows ← statement env "list pending outbox messages" (list_outbox limit)
    λ s. (decode_messages "decode outbox message payload" (map hide_token rows), s)

-- `WHERE id = ? AND published_at IS NULL AND dispatch_token = ?`.
abbrev pub same_token : Option String → String → Bool
same_token none t = false
same_token (some u) t = u == t

abbrev pub is_reserved : OutboxMessage → OutboxRow → Bool
is_reserved m r =
    eqb r.id m.id && (not (is_some r.published_at) && same_token r.dispatch_token m.dispatch_token)

abbrev pub publish_row : ℤ → OutboxRow → OutboxRow
publish_row at r = record r {
  published_at = some at;
  last_error = "";
  dispatch_token = none;
  dispatching_at = none;
}

abbrev pub fail_row : String → OutboxRow → OutboxRow
fail_row error r = record r {
  attempts = r.attempts +ℤ pos 1;
  last_error = error;
  dispatch_token = none;
  dispatching_at = none;
}

-- An UPDATE of the reserved row, with the count of rows affected.
unfoldable pub settle : OutboxMessage → (OutboxRow → OutboxRow) → Db → Db × Option ℕ
settle m set db = (
  record db { outbox = update_where (is_reserved m) set db.outbox },
  some (count_where (is_reserved m) db.outbox),
)

abbrev require_reservation : OutboxMessage → ℕ → Store (Unit {0})
require_reservation m affected =
    if eqb affected 0 then raise (reservation_expired m.id) else pure tt

module _ (env : Env) where
  unfoldable pub mark_outbox_published : OutboxMessage → Store (Unit {0})
  unfolding now statement settle
  mark_outbox_published m = do
    at ← now env
    affected ← statement env "mark outbox message published" (settle m (publish_row at))
    require_reservation m affected

  unfoldable pub mark_outbox_failed : OutboxMessage → String → Store (Unit {0})
  unfolding statement settle
  mark_outbox_failed m publish_error = do
    affected ← statement env "mark outbox message failed" (settle m (fail_row publish_error))
    require_reservation m affected
