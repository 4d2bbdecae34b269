-- ===== src/System/Delivered.antt =====
-- The invariant of the service: where the event of a message that is marked as published is.
use go_webhook_processor.Prelude.{
  none, String, ◌≡◌, refl, ◌∙◌, subst, ◌⊎◌, inl, inr, Bool, true, false, some, List, [], ◌∷◌, arith,
  eq_iff, if◌then◌else◌, Bool-cases, Option-cases, false≢true,
}
use go_webhook_processor.Prelude.Table.{find}
use go_webhook_processor.Models.{Event}
use go_webhook_processor.Metrics.{Metrics}
use go_webhook_processor.Queue.{EventDelivery}
use go_webhook_processor.World.{World}
use go_webhook_processor.Store.Schema.{Db, OutboxRow, event_key, outbox_key}
use go_webhook_processor.Store.Monad.{Env, State}
use go_webhook_processor.Store.Invariant.{IsValid, has_event}
use go_webhook_processor.Store.Invariant.Calls.{
  Method, reserve_batch, replay, perform, perform_all-IsValid, empty_db, empty_db-IsValid,
}
use go_webhook_processor.Outbox.{OutboxDispatcher}
use go_webhook_processor.Outbox.Dispatch.{is_published}
use go_webhook_processor.Worker.{Worker}
use go_webhook_processor.Worker.Settle.{handle_delivery_ack_sound}
use go_webhook_processor.Worker.Exhaust.{persistent, persistent-KeepsEvents}
use go_webhook_processor.System.{
  System, Move, called, replayed, dispatched, handled, Reaches, here, next, held, remove, arrive,
  has_left, is_plain, sent_out, handling, after_delivery, poll, Returns, fresh_world,
}
use go_webhook_processor.System.Final.{is_final, IsFinal-final, perform-final}
use go_webhook_processor.System.Sent.{perform-sent}
use go_webhook_processor.System.Handling.{handle_delivery-keeps, handle_delivery-left}
use go_webhook_processor.System.Replaying.{replay-Covered}
use go_webhook_processor.System.Dispatching.{Covered, dispatch_pending-Covered}

pub record Delivers (q : System) : Type 0 where
  pub valid : IsValid q.store.db
  pub covered : (id : String) → Covered id q.store.db q.broker

-- The broker's other events stay when one is removed.
held-remove :
    (id k : String) (broker : List Event) → (k ≡ id) ⊎ (held id (remove k broker) ≡ held id broker)
held-remove id k [] = inr refl
held-remove id k (e ∷ broker) =
    ground (arith, held-remove id k broker, eq_iff e.id k, eq_iff e.id id)

pub one-IsValid :
    (env : Env) (method : Method) (s : State) → IsValid s.db → IsValid (perform env method s).db
one-IsValid env method s v = perform_all-IsValid (record { env = env; method = method } ∷ []) s v

-- What a plain call keeps of an event: it is final, or not sent out.
abbrev IsKept : String → Bool → Db → Type 0
IsKept id final db = IsValid db × (if final then is_final id db ≡ true else sent_out id db ≡ false)

perform-IsKept :
    (id : String) (final : Bool) (env : Env) (method : Method) (s : State)
    → is_plain method ≡ true
    → IsKept id final s.db
    → IsKept id final (perform env method s).db
perform-IsKept id true env method s p (v, h) =
    (one-IsValid env method s v, perform-final env id s method p v h)
perform-IsKept id false env method s p (v, h) =
    (one-IsValid env method s v, perform-sent env id s method p v h)

pub called-Covered :
    (id : String) (q : System) (env : Env) (method : Method)
    → is_plain method ≡ true
    → IsValid q.store.db
    → Covered id q.store.db q.broker
    → Covered id (perform env method q.store).db q.broker
called-Covered id q env method p v (inl unsent) =
    inl (perform-IsKept id false env method q.store p (v, unsent)).1
called-Covered id q env method p v (inr (inl final)) =
    inr (inl (perform-IsKept id true env method q.store p (v, final)).1)
called-Covered id q env method p v (inr (inr broker)) = inr (inr broker)

module _ (id : String) (q : System) (k : Worker) (d : EventDelivery) (metrics : Metrics) where
  abbrev world : World
  world = fresh_world q.store metrics

  pub handling-IsKept :
      (final : Bool)
      → IsKept id final q.store.db
      → IsKept id final (handling k d metrics q).store.db
  handling-IsKept final h =
      handle_delivery-keeps (IsKept id final) (perform-IsKept id final) k d world h

  -- An event that the broker has held is final, or held, or has no row.
  pub handled-held :
      IsValid q.store.db
      → held id q.broker ≡ true
      → (is_final id (after_delivery k d metrics q).store.db ≡ true)
        ⊎ (held id (after_delivery k d metrics q).broker ≡ true)
        ⊎ (find event_key id q.store.db.events ≡ none)
  handled-held v broker = elim (Bool-cases (has_left d.tag (handling k d metrics q).trace)) [
    | inr stays ↦ inr (inl (rw stays broker))
    | inl left ↦ elim (held-remove id d.event.id q.broker) [
      | inr others ↦ inr (inl (rw left (others ∙ broker)))
      | inl same ↦ elim (handle_delivery-left (persistent k) d world v.events refl left) [
        | inl acked ↦ inl (
            subst (λ t. is_final t (handling k d metrics q).store.db ≡ true) same
              (IsFinal-final (find event_key d.event.id (handling k d metrics q).store.db.events) (
                handle_delivery_ack_sound (persistent k) d world (persistent-KeepsEvents k) v.events
                  refl acked)))
        | inr no_row ↦
            inr (inr (subst (λ t. find event_key t q.store.db.events ≡ none) same no_row))
      ]
    ]
  ]

  pub handled-Covered :
      IsValid q.store.db
      → Covered id q.store.db q.broker
      → Covered id (after_delivery k d metrics q).store.db (after_delivery k d metrics q).broker
  handled-Covered v (inl unsent) = inl (handling-IsKept false (v, unsent)).1
  handled-Covered v (inr (inl final)) = inr (inl (handling-IsKept true (v, final)).1)
  handled-Covered v (inr (inr broker)) = elim (handled-held v broker) [
    | inl final ↦ inr (inl final)
    | inr (inl stays) ↦ inr (inr stays)
    | inr (inr no_row) ↦ inl (handling-IsKept false (v, ground (arith, no_row, v.linked id))).1
  ]

polled-Covered :
    (id : String) (q : System) (d : OutboxDispatcher) (metrics : Metrics)
    → Returns d.env
    → IsValid q.store.db
    → Covered id q.store.db q.broker
    → let w = poll d metrics q in
      IsValid w.store.db × Covered id w.store.db (arrive w.trace q.broker)
polled-Covered id q d metrics returns v c =
    let claiming = reserve_batch d.batch_size d.dispatch_lease in
    dispatch_pending-Covered d id q.broker (fresh_world q.store metrics) returns
      (one-IsValid d.env claiming q.store v, called-Covered id q d.env claiming refl v c) v

Move-Delivers : (q q1 : System) → Move q q1 → Delivers q → Delivers q1
Move-Delivers q q1 (called q' env method p) h = record {
  valid = one-IsValid env method q.store h.valid;
  covered = λ id. called-Covered id q env method p h.valid (h.covered id);
}
Move-Delivers q q1 (replayed q' env k) h = record {
  valid = one-IsValid env (replay k) q.store h.valid;
  covered = λ id. replay-Covered id k env q.store q.broker h.valid (h.covered id);
}
Move-Delivers q q1 (dispatched q' d metrics returns) h = record {
  valid = (polled-Covered "" q d metrics returns h.valid (h.covered "")).0;
  covered = λ id. (polled-Covered id q d metrics returns h.valid (h.covered id)).1;
}
Move-Delivers q q1 (handled q' k delivery metrics) h = record {
  valid =
      handle_delivery-keeps IsValid (λ env method s p v. one-IsValid env method s v) k delivery
        (fresh_world q.store metrics) h.valid;
  covered = λ id. handled-Covered id q k delivery metrics h.valid (h.covered id);
}

Reaches-Delivers : (q q1 : System) → Reaches q q1 → Delivers q → Delivers q1
Reaches-Delivers q q1 (here q') h = h
Reaches-Delivers q q1 (next q' q2 q3 move rest) h =
    Reaches-Delivers q2 q3 rest (Move-Delivers q' q2 move h)

-- An event with its row is to be published, final, or held.
pub accepted-whereabouts :
    (q : System) (id : String)
    → IsValid q.store.db
    → Covered id q.store.db q.broker
    → has_event id q.store.db ≡ true
    → ((row : OutboxRow) × (find outbox_key id q.store.db.outbox ≡ some row)
        × (is_published row ≡ false))
      ⊎ (is_final id q.store.db ≡ true)
      ⊎ (held id q.broker ≡ true)
accepted-whereabouts q id v c accepted =
    elim (Option-cases (find outbox_key id q.store.db.outbox)) [
      | inl no_row ↦ absurd (false≢true (ground (arith, no_row, v.linked id, accepted)))
      | inr (row, e) ↦ elim c [
        | inl unsent ↦ inl (row, e, ground (arith, e, unsent))
        | inr others ↦ inr others
      ]
    ]

-- No event, no message, and nothing in the broker.
abbrev pub nothing_yet : System
nothing_yet = record { store = record { db = empty_db; step = 0 }; broker = [] }

-- From empty tables and an empty broker, whatever steps the processes take (calls of the store,
-- replays, polls of dispatchers, deliveries handled by workers with persistent dead letters, each
-- with any answers of the database and the broker, RETURNING giving back only updated rows), an
-- event that is stored has an outbox message that is still to be published, or is processed or
-- failed, or is held by the broker. A poll and the handling of a delivery are one step each.
pub accepted_not_lost :
    (q : System) (id : String)
    → Reaches nothing_yet q
    → has_event id q.store.db ≡ true
    → ((row : OutboxRow) × (find outbox_key id q.store.db.outbox ≡ some row)
        × (is_published row ≡ false))
      ⊎ (is_final id q.store.db ≡ true)
      ⊎ (held id q.broker ≡ true)
accepted_not_lost q id path accepted =
    let d =
      Reaches-Delivers nothing_yet q path
        (record { valid = empty_db-IsValid; covered = λ k. inl refl }) in
    accepted-whereabouts q id d.valid (d.covered id) accepted
