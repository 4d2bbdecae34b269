-- ===== src/System/Interleaved/Kept.antt =====
-- The invariant of the service under the finer steps.
use go_webhook_processor.Prelude.{
  String, ◌≡◌, refl, ap, subst, ◌⊎◌, inl, inr, true, false, false≢true, some, List, [], ◌∷◌, ◌++◌,
  All, All-map, arith, eq_iff, eq_refl,
}
use go_webhook_processor.Prelude.Table.{find}
use go_webhook_processor.Metrics.{Metrics}
use go_webhook_processor.Queue.{EventDelivery}
use go_webhook_processor.Store.Schema.{OutboxRow, OutboxMessage, event_key, outbox_key}
use go_webhook_processor.Store.Monad.{Env}
use go_webhook_processor.Store.Invariant.{IsValid, has_event}
use go_webhook_processor.Store.Invariant.Calls.{Method, publish, replay, perform, empty_db-IsValid}
use go_webhook_processor.Store.Lifecycle.{status_of}
use go_webhook_processor.Store.Lifecycle.Refines.{publish-events, perform-Step}
use go_webhook_processor.Outbox.Dispatch.{is_published}
use go_webhook_processor.Worker.{Worker}
use go_webhook_processor.System.{System, held, is_plain, fresh_world, after_delivery}
use go_webhook_processor.System.Final.{final_life, is_final, perform-final}
use go_webhook_processor.System.Sent.{publish-sent}
use go_webhook_processor.System.Numbered.{number, number-Owns, perform-number}
use go_webhook_processor.System.Dispatching.{Covered}
use go_webhook_processor.System.Replaying.{replay-Covered}
use go_webhook_processor.System.Handling.{handle_delivery-keeps}
use go_webhook_processor.System.Delivered.{
  called-Covered, one-IsValid, handling-IsKept, handled-held, handled-Covered, nothing_yet,
  accepted-whereabouts,
}
use go_webhook_processor.System.Interleaved.{
  Service, is_unsettled, FineMove, called, confirmed, settled, stopped, replayed, handled,
  FineReaches, here, next,
}

-- A confirmed message has the number of its row, and its event is final or held.
abbrev Promised : System → OutboxMessage → Type 0
Promised q m =
    (number m.event.id q.store.db ≡ some m.id)
    × ((is_final m.event.id q.store.db ≡ true) ⊎ (held m.event.id q.broker ≡ true))

record Keeps (q : Service) : Type 0 where
  valid : IsValid q.system.store.db
  covered : (id : String) → Covered id q.system.store.db q.system.broker
  promised : All (Promised q.system) q.unsettled

All-remove :
    (P : OutboxMessage → Type 0) (m : OutboxMessage) (before after : List OutboxMessage)
    → All P (before ++ m ∷ after)
    → P m × All P (before ++ after)
All-remove P m [] after h = h
All-remove P m (x ∷ before) after h =
    let (this, others) = All-remove P m before after h.1 in (this, (h.0, others))

called-Promised :
    (q : System) (env : Env) (method : Method) (m : OutboxMessage)
    → is_plain method ≡ true
    → IsValid q.store.db
    → Promised q m
    → Promised (record { store = perform env method q.store; broker = q.broker }) m
called-Promised q env method m p v (n, inl final) = (
  perform-number env m.event.id m.id q.store v n method,
  inl (perform-final env m.event.id q.store method p v final),
)
called-Promised q env method m p v (n, inr broker) =
    (perform-number env m.event.id m.id q.store v n method, inr broker)

settled-Promised :
    (q : System) (env : Env) (m' m : OutboxMessage)
    → IsValid q.store.db
    → Promised q m
    → Promised (record { store = perform env (publish m') q.store; broker = q.broker }) m
settled-Promised q env m' m v (n, c) = (
  perform-number env m.event.id m.id q.store v n (publish m'),
  ground (
    arith,
    c,
    ap (λ rows. final_life (status_of (find event_key m.event.id rows)))
        (publish-events env q.store m'),
  ),
)

settled-Covered :
    (id : String) (q : System) (env : Env) (m : OutboxMessage)
    → IsValid q.store.db
    → Promised q m
    → Covered id q.store.db q.broker
    → Covered id (perform env (publish m) q.store).db q.broker
settled-Covered id q env m v (n, promise) c =
    let final_stays =
      ap (λ rows. final_life (status_of (find event_key id rows))) (publish-events env q.store m) in
    elim (publish-sent env id q.store m (number-Owns q.store.db m v n)) [
      | inl unsent ↦ inl unsent
      | inr (inl before) ↦ ground (arith, c, before, final_stays)
      | inr (inr same) ↦
          let promised =
            subst (λ t. (is_final t q.store.db ≡ true) ⊎ (held t q.broker ≡ true))
              ((eq_iff m.event.id id).0 same) promise in
          ground (arith, promised, final_stays)
    ]

replayed-Promised :
    (q : System) (env : Env) (k : String) (messages : List OutboxMessage)
    → is_unsettled k messages ≡ false
    → IsValid q.store.db
    → All (Promised q) messages
    → All (Promised (record { store = perform env (replay k) q.store; broker = q.broker })) messages
replayed-Promised q env k [] none_of v a = tt
replayed-Promised q env k (m ∷ messages) none_of v a = (
  (
    perform-number env m.event.id m.id q.store v a.0.0 (replay k),
    elim (perform-Step env m.event.id q.store v (replay k)) [
      | inl same ↦ ground (arith, a.0.1, ap final_life same)
      | inr (target, moved) ↦ ground (arith, target, none_of, eq_iff m.event.id k)
    ],
  ),
  replayed-Promised q env k messages (ground (arith, none_of)) v a.1,
)

handled-Promised :
    (q : System) (k : Worker) (d : EventDelivery) (metrics : Metrics) (m : OutboxMessage)
    → IsValid q.store.db
    → Promised q m
    → Promised (after_delivery k d metrics q) m
handled-Promised q k d metrics m v (n, promise) = (
  (handle_delivery-keeps (λ db. IsValid db × (number m.event.id db ≡ some m.id))
      (λ env method s p h.
        (one-IsValid env method s h.0, perform-number env m.event.id m.id s h.0 h.1 method))
      k d (fresh_world q.store metrics) (v, n)).1,
  elim promise [
    | inl final ↦ inl (handling-IsKept m.event.id q k d metrics true (v, final)).1
    | inr broker ↦ elim (handled-held m.event.id q k d metrics v broker) [
      | inl final ↦ inl final
      | inr (inl stays) ↦ inr stays
      | inr (inr no_row) ↦ absurd (false≢true (ground (arith, n, no_row, v.linked m.event.id)))
    ]
  ],
)

-- One of the messages, and the others.
without :
    (q : Service) (m : OutboxMessage) (before after : List OutboxMessage)
    → q.unsettled ≡ before ++ m ∷ after
    → Keeps q
    → Promised q.system m × All (Promised q.system) (before ++ after)
without q m before after split h =
    All-remove (Promised q.system) m before after (subst (All (Promised q.system)) split h.promised)

FineMove-Keeps : (q q1 : Service) → FineMove q q1 → Keeps q → Keeps q1
FineMove-Keeps q q1 (called q' env method p) h = record {
  valid = one-IsValid env method q.system.store h.valid;
  covered = λ id. called-Covered id q.system env method p h.valid (h.covered id);
  promised =
      All-map (Promised q.system) (Promised q1.system) q.unsettled
        (λ m. called-Promised q.system env method m p h.valid) h.promised;
}
FineMove-Keeps q q1 (confirmed q' m n) h = record {
  valid = h.valid;
  covered = λ id. ground (arith, h.covered id);
  promised = (
    (n, inr (ground (arith, eq_refl m.event.id))),
    All-map (Promised q.system) (Promised q1.system) q.unsettled
        (λ m' promise. (promise.0, ground (arith, promise.1))) h.promised,
  );
}
FineMove-Keeps q q1 (settled q' env m before after split) h =
    let (this, others) = without q m before after split h in
    record {
      valid = one-IsValid env (publish m) q.system.store h.valid;
      covered = λ id. settled-Covered id q.system env m h.valid this (h.covered id);
      promised =
          All-map (Promised q.system) (Promised q1.system) (before ++ after)
            (λ m'. settled-Promised q.system env m m' h.valid) others;
    }
FineMove-Keeps q q1 (stopped q' m before after split) h = record {
  valid = h.valid;
  covered = h.covered;
  promised = (without q m before after split h).1;
}
FineMove-Keeps q q1 (replayed q' env k none_of) h = record {
  valid = one-IsValid env (replay k) q.system.store h.valid;
  covered = λ id. replay-Covered id k env q.system.store q.system.broker h.valid (h.covered id);
  promised = replayed-Promised q.system env k q.unsettled none_of h.valid h.promised;
}
FineMove-Keeps q q1 (handled q' k d metrics) h = record {
  valid =
      handle_delivery-keeps IsValid (λ env method s p v. one-IsValid env method s v) k d
        (fresh_world q.system.store metrics) h.valid;
  covered = λ id. handled-Covered id q.system k d metrics h.valid (h.covered id);
  promised =
      All-map (Promised q.system) (Promised q1.system) q.unsettled
        (λ m. handled-Promised q.system k d metrics m h.valid) h.promised;
}

FineReaches-Keeps : (q q1 : Service) → FineReaches q q1 → Keeps q → Keeps q1
FineReaches-Keeps q q1 (here q') h = h
FineReaches-Keeps q q1 (next q' q2 q3 move rest) h =
    FineReaches-Keeps q2 q3 rest (FineMove-Keeps q' q2 move h)

abbrev pub no_service : Service
no_service = record { system = nothing_yet; unsettled = [] }

-- From empty tables and an empty broker, with a dispatcher's confirmation by the broker and its
-- settlement of the row as two steps between which other processes take theirs (calls of the
-- store, confirmations, settlements, deliveries, replays), each confirmed message being settled
-- at most once, if a confirmed message has the number of its event's row and an event is replayed
-- only while no dispatcher still has a confirmed message of it to settle: an event that is stored
-- has an outbox message still to be published, or is processed or failed, or is held by the
-- broker.
pub accepted_not_lost_between :
    (q : Service) (id : String)
    → FineReaches no_service q
    → has_event id q.system.store.db ≡ true
    → ((row : OutboxRow) × (find outbox_key id q.system.store.db.outbox ≡ some row)
        × (is_published row ≡ false))
      ⊎ (is_final id q.system.store.db ≡ true)
      ⊎ (held id q.system.broker ≡ true)
accepted_not_lost_between q id path accepted =
    let h =
      FineReaches-Keeps no_service q path
        (record { valid = empty_db-IsValid; covered = λ k. inl refl; promised = tt }) in
    accepted-whereabouts q.system id h.valid (h.covered id) accepted
