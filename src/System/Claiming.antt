-- ===== src/System/Claiming.antt =====
-- The messages of a claimed batch, and the rows of their numbers.
use go_webhook_processor.Prelude.{
  ℕ, suc, ◌+◌, ◌≤◌, String, ◌≡◌, refl, ap, ◌∙◌, subst, false≢true, inl, inr, Bool, true, none, some,
  List, [], ◌∷◌, All, arith, ◌==◌, Option-cases, Bool-cases, filter, eq_iff,
}
use go_webhook_processor.Prelude.Int.{ℤ, pos_part, ◌-ℤ◌}
use go_webhook_processor.Prelude.Table.{find}
use go_webhook_processor.Models.{Payload}
use go_webhook_processor.Store.Schema.{Db, OutboxRow, OutboxMessage, outbox_key}
use go_webhook_processor.Store.Monad.{Env, State, Result, ok, err, Result-cases}
use go_webhook_processor.Store.Outbox.{claim_pending_outbox, decode_messages, is_chosen, candidates}
use go_webhook_processor.Store.Invariant.{IsValid, Ascends}
use go_webhook_processor.Store.Invariant.Methods.{claim_pending_outbox-IsValid}
use go_webhook_processor.System.{Owns, IsAmong, Returns}

-- A row is the only one of its number: a row of the same number is of the same event.
abbrev pub IsOf : List OutboxRow → OutboxRow → Type 0
IsOf rows r =
    (id : String) (q : OutboxRow) → find outbox_key id rows ≡ some q → q.id ≡ r.id → r.event_id ≡ id

IsAmong-above :
    (low high : ℕ) (r : OutboxRow) (rows : List OutboxRow)
    → Ascends low high rows
    → IsAmong r rows
    → low ≤ r.id
IsAmong-above low high r [] h m = absurd m
IsAmong-above low high r (x ∷ rows) h (inl e) = ground (arith, h.0, e)
IsAmong-above low high r (x ∷ rows) h (inr m) =
    omega (arith, h.0, IsAmong-above (suc x.id) high r rows h.1 m)

pub find-IsAmong :
    (id : String) (q : OutboxRow) (rows : List OutboxRow)
    → find outbox_key id rows ≡ some q
    → IsAmong q rows
find-IsAmong id q [] e = cc
find-IsAmong id q (x ∷ rows) e = elim (Bool-cases (x.event_id == id)) [
  | inl same ↦ inl (ground (arith, e, same))
  | inr other ↦ inr (find-IsAmong id q rows (ground (arith, e, other)))
]

pub IsAmong-IsOf :
    (low high : ℕ) (r : OutboxRow) (rows : List OutboxRow)
    → Ascends low high rows
    → IsAmong r rows
    → IsOf rows r
IsAmong-IsOf low high r [] h m id q e same = absurd m
IsAmong-IsOf low high r (x ∷ rows) h m id q e same = elim (Bool-cases (x.event_id == id)) [
  | inl hit ↦ elim m [
    | inl first ↦ ap (λ t. t.event_id) first ∙ (eq_iff x.event_id id).0 hit
    | inr later ↦
        let above = IsAmong-above (suc x.id) high r rows h.1 later in
        let number : x.id ≡ q.id = ground (arith, e, hit) in
        absurd (omega (arith, above, number, same))
  ]
  | inr miss ↦
      let rest : find outbox_key id rows ≡ some q = ground (arith, e, miss) in
      elim m [
        | inl first ↦
            let above = IsAmong-above (suc x.id) high q rows h.1 (find-IsAmong id q rows rest) in
            let number : r.id ≡ x.id = ap (λ t. t.id) first in
            absurd (omega (arith, above, number, same))
        | inr later ↦ IsAmong-IsOf (suc x.id) high r rows h.1 later id q rest same
      ]
]

filter-IsAmong :
    (p : OutboxRow → Bool) (r : OutboxRow) (rows : List OutboxRow)
    → IsAmong r (filter p rows)
    → IsAmong r rows
filter-IsAmong p r [] m = m
filter-IsAmong p r (x ∷ rows) m = ground (arith, filter-IsAmong p r rows)

abbrev decoded : Result (List OutboxMessage) → List OutboxMessage
decoded (ok messages) = messages
decoded (err e) = []

abbrev message_of : OutboxRow → Payload → OutboxMessage
message_of r payload = record {
  id = r.id;
  event = record {
    id = r.event_id;
    type = r.event_type;
    request_id = r.request_id;
    payload = payload;
  };
  attempts = r.attempts;
  dispatch_token = elim r.dispatch_token [ none ↦ "" | some t ↦ t ];
}

module _ (env : Env) where
  decode-Owns :
      (context : String) (db : Db) (rows : List OutboxRow) (messages : List OutboxMessage)
      → ((r : OutboxRow) → IsAmong r rows → IsOf db.outbox r)
      → decode_messages env context rows ≡ ok messages
      → All (Owns db) messages
  unfolding decode_messages
  decode-Owns context db [] messages h e = subst (All (Owns db)) (ap decoded e) tt
  decode-Owns context db (r ∷ rows) messages h e = elim (Option-cases (env.unmarshal r.payload)) [
    | inl refused_payload ↦ absurd (false≢true (ground (arith, e, refused_payload)))
    | inr (payload, p) ↦ elim (Result-cases (decode_messages env context rows)) [
      | inl (x, failed) ↦ absurd (false≢true (ground (arith, e, p, failed)))
      | inr (others, rest) ↦
          subst (All (Owns db)) {x = message_of r payload ∷ others} (ground (arith, e, p, rest)) (
            (λ id q row same. h r (inl refl) id q row same),
            decode-Owns context db rows others (λ q m. h q (inr m)) rest,
          )
    ]
  ]

  claimed-rows :
      (limit lease : ℤ) (s : State) (messages : List OutboxMessage)
      → (claim_pending_outbox env limit lease s).0 ≡ ok messages
      → (chosen : OutboxRow → Bool) × (decode_messages env "decode claimed outbox message payload"
            (env.returned (filter chosen (claim_pending_outbox env limit lease s).1.db.outbox))
          ≡ ok messages)
  unfolding claim_pending_outbox
  claimed-rows limit lease s messages e = elim (Option-cases (env.random s.step)) [
    | inl none_left ↦ ((λ r. true), ground (arith, e, none_left))
    | inr (bytes, drawn) ↦ (
      is_chosen (
          candidates (env.locked_outbox (s.step + 1 + 1)) (env.clock (s.step + 1) -ℤ lease)
            (pos_part limit) s.db.outbox),
      ground (arith, e, drawn),
    )
  ]

  pub claim_pending_outbox-Owns :
      Returns env
      → (limit lease : ℤ) (s : State) (messages : List OutboxMessage) → IsValid s.db
      → (claim_pending_outbox env limit lease s).0 ≡ ok messages
      → All (Owns (claim_pending_outbox env limit lease s).1.db) messages
  claim_pending_outbox-Owns returns limit lease s messages v e =
      let after = (claim_pending_outbox env limit lease s).1.db in
      let v' = claim_pending_outbox-IsValid env limit lease s v in
      let (chosen, e') = claimed-rows limit lease s messages e in
      decode-Owns "decode claimed outbox message payload" after
        (env.returned (filter chosen after.outbox)) messages
        (λ r m.
          IsAmong-IsOf 0 after.outbox_seq r after.outbox v'.numbered
            (filter-IsAmong chosen r after.outbox (returns (filter chosen after.outbox) r m)))
        e'
