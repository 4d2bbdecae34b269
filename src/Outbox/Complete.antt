-- ===== src/Outbox/Complete.antt =====
-- A batch of the dispatcher of outbox.go with the broker and the database up.
use go_webhook_processor.Prelude.{
  ℕ, ◌+◌, ◌≡◌, refl, inl, inr, true, false, none, List, [], ◌∷◌, arith, eqb, Option-cases,
}
use go_webhook_processor.Prelude.Select.{row_test}
use go_webhook_processor.Prelude.Table.{count_where}
use go_webhook_processor.Models.{Event}
use go_webhook_processor.Metrics.{inc_events_queued}
use go_webhook_processor.World.{World, count}
use go_webhook_processor.Store.Schema.{OutboxRow, OutboxMessage}
use go_webhook_processor.Store.Monad.{Env, answered, ok, State}
use go_webhook_processor.Store.Outbox.{is_reserved, publish_row, mark_outbox_published}
use go_webhook_processor.Store.Outbox.Lease.{row_of, row_of-update, row_of-id}
use go_webhook_processor.Outbox.{OutboxDispatcher, dispatch_messages}
use go_webhook_processor.Outbox.Dispatch.{has_published, was_sent, marking, dispatch-marked}

-- The message's row is there, unpublished, under the message's token.
abbrev pub IsReserved : OutboxMessage → State → Type 0
IsReserved m s = row_test (is_reserved m) (row_of m.id s.db.outbox) ≡ true

-- Each message is reserved, and no two have one number.
abbrev pub AllReserved : List OutboxMessage → State → Type 0
AllReserved [] s = Unit
AllReserved (m ∷ messages) s =
    IsReserved m s × (was_sent m.id messages ≡ false) × AllReserved messages s

-- Each message's row is published.
abbrev pub AllPublished : List OutboxMessage → State → Type 0
AllPublished [] s = Unit
AllPublished (m ∷ messages) s = (has_published m.id s ≡ true) × AllPublished messages s

row-count :
    (m : OutboxMessage) (rows : List OutboxRow)
    → row_test (is_reserved m) (row_of m.id rows) ≡ true
    → eqb (count_where (is_reserved m) rows) 0 ≡ false
row-count m [] h = cc
row-count m (r ∷ rows) h = ground (arith, row-count m rows)

module _ (env : Env) (m : OutboxMessage) (s : State) (up : (n : ℕ) → env.outcome n ≡ answered) where
  mark_published-ok : IsReserved m s → (mark_outbox_published env m s).0 ≡ ok tt
  unfolding mark_outbox_published
  mark_published-ok h = ground (arith, up (s.step + 1), row-count m s.db.outbox)

  mark_published-done : IsReserved m s → has_published m.id (mark_outbox_published env m s).1 ≡ true
  unfolding mark_outbox_published
  mark_published-done h = ground (
    arith,
    up (s.step + 1),
    row_of-update (is_reserved m) (publish_row (env.clock s.step)) (λ r. refl) m.id s.db.outbox,
  )

  mark_published-keeps :
      (id : ℕ)
      → has_published id s ≡ true
      → has_published id (mark_outbox_published env m s).1 ≡ true
  unfolding mark_outbox_published
  mark_published-keeps id h = ground (
    arith,
    up (s.step + 1),
    row_of-update (is_reserved m) (publish_row (env.clock s.step)) (λ r. refl) id s.db.outbox,
  )

  mark_published-other :
      (q : OutboxMessage)
      → eqb m.id q.id ≡ false
      → IsReserved q s
      → IsReserved q (mark_outbox_published env m s).1
  unfolding mark_outbox_published
  mark_published-other q ne h = elim (Option-cases (row_of q.id s.db.outbox)) [
    | inl no_row ↦ ground arith
    | inr (r, row) ↦ ground (
      arith,
      up (s.step + 1),
      row_of-id q.id s.db.outbox r row,
      row_of-update (is_reserved m) (publish_row (env.clock s.step)) (λ r. refl) q.id s.db.outbox,
    )
  ]

  mark_published-AllReserved :
      (messages : List OutboxMessage)
      → was_sent m.id messages ≡ false
      → AllReserved messages s
      → AllReserved messages (mark_outbox_published env m s).1
  mark_published-AllReserved [] ne h = tt
  mark_published-AllReserved (q ∷ messages) ne h = (
    mark_published-other q (ground arith) h.0,
    h.1,
    mark_published-AllReserved messages (ground arith) h.2,
  )

module _ (d : OutboxDispatcher) (up : (n : ℕ) → d.env.outcome n ≡ answered)
    (open_broker : (n : ℕ) (event : Event) → d.publisher n event ≡ none) where
  go_on :
      (m : OutboxMessage) (messages : List OutboxMessage) (w : World)
      → IsReserved m w.store
      → dispatch_messages d (m ∷ messages) w
        ≡ dispatch_messages d messages (count inc_events_queued (marking d m messages w).1)
  go_on m messages w h =
      dispatch-marked d m messages w (open_broker w.store.step m.event)
        (mark_published-ok d.env m w.store up h)

  keeps_published :
      (id : ℕ) (messages : List OutboxMessage) (w : World)
      → AllReserved messages w.store
      → has_published id w.store ≡ true
      → has_published id (dispatch_messages d messages w).1.store ≡ true
  unfolding dispatch_messages
  keeps_published id [] w h p = p
  keeps_published id (m ∷ messages) w h p = rw (go_on m messages w h.0) (
      keeps_published id messages _ (mark_published-AllReserved d.env m w.store up messages h.1 h.2)
        (mark_published-keeps d.env m w.store up id p))

  -- If the database answers each call, the broker confirms each message, and each message of the
  -- batch is reserved by the batch and none occurs twice, then dispatch_messages succeeds and the
  -- row of every message of the batch is published.
  pub dispatch_messages_complete :
      (messages : List OutboxMessage) (w : World)
      → AllReserved messages w.store
      → ((dispatch_messages d messages w).0 ≡ ok tt)
        × AllPublished messages (dispatch_messages d messages w).1.store
  unfolding dispatch_messages
  dispatch_messages_complete [] w h = (refl, tt)
  dispatch_messages_complete (m ∷ messages) w h =
      let left = mark_published-AllReserved d.env m w.store up messages h.1 h.2 in
      let w1 : World = count inc_events_queued (marking d m messages w).1 in
      let rest = dispatch_messages_complete messages w1 left in
      rw (go_on m messages w h.0) (
        rest.0,
        (
          keeps_published m.id messages w1 left (mark_published-done d.env m w.store up h.0),
          rest.1,
        ),
      )
