-- ===== src/Store/DeadLetters/Stale.antt =====
-- A dispatcher that settles its message after the event has been replayed.
use go_webhook_processor.Prelude.{
  ℕ, ◌+◌, String, ◌≡◌, refl, ap, Bool, true, false, Option, none, some, arith, is_some, subst, ◌&&◌,
}
use go_webhook_processor.Prelude.Table.{find}
use go_webhook_processor.Prelude.Select.{row_test}
use go_webhook_processor.Store.Schema.{
  queued, processing, processed, failed, EventRow, OutboxRow, OutboxMessage, event_key,
}
use go_webhook_processor.Store.Monad.{Env, answered, ok, State}
use go_webhook_processor.Store.Outbox.{is_reserved, publish_row, mark_outbox_published}
use go_webhook_processor.Store.Outbox.Lease.{row_of, row_of-update}
use go_webhook_processor.Store.Invariant.{IsValid}
use go_webhook_processor.Store.DeadLetters.{is_message_of, reopen_row, replay_dead_letter}
use go_webhook_processor.Store.DeadLetters.Replay.{
  ReplayAnswer, replay_dead_letter_answers, replay_dead_letter-Updated,
}

abbrev pub is_published : OutboxRow → Bool
is_published r = is_some r.published_at

abbrev pub is_queued : EventRow → Bool
is_queued r = elim r.status [
  | queued ↦ true
  | processing ↦ false
  | processed ↦ false
  | failed ↦ false
]

module _ (env : Env) (m : OutboxMessage) (s : State) (up : (n : ℕ) → env.outcome n ≡ answered) where
  settled_events : (mark_outbox_published env m s).1.db.events ≡ s.db.events
  unfolding mark_outbox_published
  settled_events = ground (arith, up (s.step + 1))

  settled_message :
      row_test (is_reserved m) (row_of m.id s.db.outbox) ≡ true
      → row_test is_published (row_of m.id (mark_outbox_published env m s).1.db.outbox) ≡ true
  unfolding mark_outbox_published
  settled_message held = ground (
    arith,
    up (s.step + 1),
    row_of-update (is_reserved m) (publish_row (env.clock s.step)) (λ r. refl) m.id s.db.outbox,
  )

module _ (env : Env) (id : String) (s : State) (v : IsValid s.db)
    (replayed : (replay_dead_letter env id s).0 ≡ ok tt) where
  replayed_event :
      row_test is_queued (find event_key id (replay_dead_letter env id s).1.db.events) ≡ true
  replayed_event =
      let (e, row, st, l, done) =
        subst (ReplayAnswer id (env.clock (s.step + 1 + 1)) s.db (replay_dead_letter env id s).1.db)
          replayed (replay_dead_letter_answers env id s v) in
      ground (arith, done.event)

  replayed_message :
      (m : OutboxMessage)
      → row_test (is_reserved m) (row_of m.id s.db.outbox) ≡ true
      → row_test (is_reserved m) (row_of m.id (replay_dead_letter env id s).1.db.outbox) ≡ true
  replayed_message m held =
      let u = replay_dead_letter-Updated env id s v replayed in
      ground (
        arith,
        ap (row_of m.id) u.outbox,
        row_of-update (is_message_of id) reopen_row (λ r. refl) m.id s.db.outbox,
      )

-- On valid tables, if an event is replayed while an unpublished message of the event is still
-- reserved, and its dispatcher then marks it as published with the database answering each call,
-- the message ends as published while the event is queued.
pub stale_publish_after_replay :
    (replayer dispatcher : Env) (id : String) (m : OutboxMessage) (s : State)
    → IsValid s.db
    → (replay_dead_letter replayer id s).0 ≡ ok tt
    → row_test (λ r. is_reserved m r && is_message_of id r) (row_of m.id s.db.outbox) ≡ true
    → ((n : ℕ) → dispatcher.outcome n ≡ answered)
    → let s1 = (replay_dead_letter replayer id s).1 in
      let s2 = (mark_outbox_published dispatcher m s1).1 in
      (row_test is_queued (find event_key id s2.db.events) ≡ true)
      × (row_test is_published (row_of m.id s2.db.outbox) ≡ true)
stale_publish_after_replay replayer dispatcher id m s v replayed held up =
    let s1 = (replay_dead_letter replayer id s).1 in
    (
      ground (arith, settled_events dispatcher m s1 up, replayed_event replayer id s v replayed),
      settled_message dispatcher m s1 up
          (replayed_message replayer id s v replayed m (both (row_of m.id s.db.outbox) held)),
    )
  where
    both :
        (o : Option OutboxRow)
        → row_test (λ r. is_reserved m r && is_message_of id r) o ≡ true
        → row_test (is_reserved m) o ≡ true
    both none h = cc
    both (some r) h = ground arith
