-- ===== src/System/Dispatching.antt =====
-- A batch of a dispatcher, as a step of the service.
use go_webhook_processor.Prelude.{
  String, ◌≡◌, ap, ◌⊎◌, inl, inr, true, false, List, [], ◌∷◌, All, arith, Option-cases,
}
use go_webhook_processor.Prelude.Table.{find}
use go_webhook_processor.Models.{Event}
use go_webhook_processor.Metrics.{inc_events_queued}
use go_webhook_processor.World.{World, call, count}
use go_webhook_processor.Store.Schema.{Db, OutboxMessage, event_key}
use go_webhook_processor.Store.Monad.{Result-cases}
use go_webhook_processor.Store.Outbox.{
  claim_pending_outbox, mark_outbox_published, mark_outbox_failed,
}
use go_webhook_processor.Store.Invariant.{IsValid}
use go_webhook_processor.Store.Invariant.Methods.{
  mark_outbox_published-IsValid, mark_outbox_failed-IsValid,
}
use go_webhook_processor.Store.Lifecycle.{status_of}
use go_webhook_processor.Store.Lifecycle.Refines.{publish-events, unpublish-events}
use go_webhook_processor.Outbox.{OutboxDispatcher, dispatch_messages, dispatch_pending}
use go_webhook_processor.Outbox.Dispatch.{
  marking, dispatch-refused, dispatch-unmarked, dispatch-marked,
}
use go_webhook_processor.System.{held, arrive, sent_out, Owns, Returns}
use go_webhook_processor.System.Final.{final_life, is_final}
use go_webhook_processor.System.Claiming.{claim_pending_outbox-Owns}
use go_webhook_processor.System.Sent.{unpublish-sent, publish-sent, publish-Owns}

-- An event whose message is marked as published is final, or the broker holds it.
abbrev pub Covered : String → Db → List Event → Type 0
Covered id db broker = (sent_out id db ≡ false) ⊎ (is_final id db ≡ true) ⊎ (held id broker ≡ true)

module _ (d : OutboxDispatcher) (id : String) (broker : List Event) where
  abbrev CoveredWorld : World → Type 0
  CoveredWorld w = IsValid w.store.db × Covered id w.store.db (arrive w.trace broker)

  -- The broker has confirmed a message before its row is marked.
  marking-Covered :
      (m : OutboxMessage) (messages : List OutboxMessage) (w : World)
      → Owns w.store.db m
      → CoveredWorld w
      → CoveredWorld (marking d m messages w).1
  marking-Covered m messages w owns (v, c) = (
    mark_outbox_published-IsValid d.env m w.store v,
    ground (
      arith,
      c,
      publish-sent d.env id w.store m owns,
      ap (λ rows. final_life (status_of (find event_key id rows))) (publish-events d.env w.store m),
    ),
  )

  refused-Covered :
      (m : OutboxMessage) (error : String) (w : World)
      → CoveredWorld w
      → CoveredWorld (call (mark_outbox_failed d.env m error) w).1
  refused-Covered m error w (v, c) = (
    mark_outbox_failed-IsValid d.env m error w.store v,
    ground (
      arith,
      c,
      unpublish-sent d.env id w.store m error,
      ap (λ rows. final_life (status_of (find event_key id rows)))
          (unpublish-events d.env w.store m error),
    ),
  )

  All-Owns :
      (m : OutboxMessage) (messages : List OutboxMessage) (w : World)
      → All (Owns w.store.db) messages
      → All (Owns (mark_outbox_published d.env m w.store).1.db) messages
  All-Owns m [] w a = tt
  All-Owns m (m' ∷ messages) w a =
      (publish-Owns d.env "" w.store m m' a.0, All-Owns m messages w a.1)

  dispatch_messages-Covered :
      (messages : List OutboxMessage) (w : World)
      → All (Owns w.store.db) messages
      → CoveredWorld w
      → CoveredWorld (dispatch_messages d messages w).1
  unfolding dispatch_messages
  dispatch_messages-Covered [] w a c = c
  dispatch_messages-Covered (m ∷ messages) w a c =
      let c1 = marking-Covered m messages w a.0 c in
      elim (Option-cases (d.publisher w.store.step m.event)) [
        | inr (error, e) ↦
            rw (dispatch-refused d m messages w error e) (refused-Covered m error w c)
        | inl e ↦ elim (Result-cases (marking d m messages w).0) [
          | inl (x, h) ↦ rw (dispatch-unmarked d m messages w x e h) c1
          | inr (_, h) ↦ rw (dispatch-marked d m messages w e h) (
              dispatch_messages-Covered messages
                (count inc_events_queued (marking d m messages w).1) (All-Owns m messages w a.1) c1)
        ]
      ]

  -- A poll, from its claim on.
  pub dispatch_pending-Covered :
      (w : World)
      → Returns d.env
      → CoveredWorld (call (claim_pending_outbox d.env d.batch_size d.dispatch_lease) w).1
      → IsValid w.store.db
      → CoveredWorld (dispatch_pending d w).1
  unfolding dispatch_pending
  dispatch_pending-Covered w returns c v =
      elim (Result-cases (claim_pending_outbox d.env d.batch_size d.dispatch_lease w.store).0) [
        | inl (x, e) ↦ rw (e, dispatch_pending) c
        | inr (messages, e) ↦
            rw (e, dispatch_pending)
              (dispatch_messages-Covered messages
                (call (claim_pending_outbox d.env d.batch_size d.dispatch_lease) w).1
                (claim_pending_outbox-Owns d.env returns d.batch_size d.dispatch_lease w.store
                  messages v e)
                c)
      ]
