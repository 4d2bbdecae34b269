-- ===== src/Outbox/Dispatch.antt =====
-- A batch of the dispatcher of outbox.go: what it publishes, and what it marks as published.
use go_webhook_processor.Prelude.{
  ℕ, String, ◌≡◌, refl, ap, ◌⊎◌, inl, inr, Bool, true, false, ◌||◌, none, some, List, [], ◌∷◌, ◌++◌,
  arith, eqb, is_some, Option-cases, unless,
}
use go_webhook_processor.Prelude.Select.{row_test}
use go_webhook_processor.Metrics.{inc_events_queued}
use go_webhook_processor.Queue.{Action, publish}
use go_webhook_processor.World.{World, call, count, emit}
use go_webhook_processor.Store.Schema.{OutboxRow, OutboxMessage}
use go_webhook_processor.Store.Monad.{Env, Error, Result, ok, err, Result-cases, State}
use go_webhook_processor.Store.Outbox.{
  is_reserved, publish_row, fail_row, mark_outbox_published, mark_outbox_failed,
}
use go_webhook_processor.Store.Outbox.Lease.{row_of, row_of-update, row_of-id}
use go_webhook_processor.Outbox.{OutboxDispatcher, dispatch_messages}

abbrev pub is_published : OutboxRow → Bool
is_published r = is_some r.published_at

-- The outbox row of a number is marked as published.
abbrev pub has_published : ℕ → State → Bool
has_published id s = row_test is_published (row_of id s.db.outbox)

-- A message of a number is in the list.
abbrev pub was_sent : ℕ → List OutboxMessage → Bool
was_sent id [] = false
was_sent id (m ∷ sent) = eqb m.id id || was_sent id sent

-- The requests of the broker for a list of messages, in order.
abbrev pub confirmed : List OutboxMessage → List Action → List Action
confirmed [] trace = trace
confirmed (m ∷ sent) trace = confirmed sent (publish m.event ∷ trace)

module _ (env : Env) (m : OutboxMessage) (id : ℕ) (s : State) where
  pub mark_published-has :
      has_published id (mark_outbox_published env m s).1 ≡ true
      → (has_published id s ≡ true) ⊎ (eqb m.id id ≡ true)
  unfolding mark_outbox_published
  mark_published-has h = elim (Option-cases (row_of id s.db.outbox)) [
    | inl no_row ↦ ground (
      arith,
      row_of-update (is_reserved m) (publish_row (env.clock s.step)) (λ r. refl) id s.db.outbox,
    )
    | inr (r, row) ↦ ground (
      arith,
      row_of-update (is_reserved m) (publish_row (env.clock s.step)) (λ r. refl) id s.db.outbox,
      row_of-id id s.db.outbox r row,
    )
  ]

  pub mark_failed-has :
      (error : String)
      → has_published id (mark_outbox_failed env m error s).1 ≡ true
      → has_published id s ≡ true
  unfolding mark_outbox_failed
  mark_failed-has error h =
      ground (arith, row_of-update (is_reserved m) (fail_row error) (λ r. refl) id s.db.outbox)

-- What a batch has done when it ends: it has published a first part of its messages, in order, and
-- a row that is newly marked as published is that of a message of this part.
pub record Dispatched (messages : List OutboxMessage) (w w' : World) : Type 0 where
  pub sent : List OutboxMessage
  pub rest : List OutboxMessage
  pub split : messages ≡ sent ++ rest
  pub trace : w'.trace ≡ confirmed sent w.trace
  pub marked :
      (id : ℕ)
      → (has_published id w'.store ≡ false)
        ⊎ (has_published id w.store ≡ true)
        ⊎ (was_sent id sent ≡ true)

module _ (d : OutboxDispatcher) (m : OutboxMessage) (messages : List OutboxMessage)
    (w : World) where
  -- After the broker's confirmation, and after the row's update.
  abbrev pub marking : Result (Unit {0}) × World
  marking = call (mark_outbox_published d.env m) (emit (publish m.event) w)

  -- The three ways on of the loop.
  pub dispatch-refused :
      (error : String)
      → d.publisher w.store.step m.event ≡ some error
      → dispatch_messages d (m ∷ messages) w
        ≡ (ok tt, (call (mark_outbox_failed d.env m error) w).1)
  unfolding dispatch_messages
  dispatch-refused error e = rw (e, dispatch_messages)

  pub dispatch-unmarked :
      (e : Error)
      → d.publisher w.store.step m.event ≡ none
      → marking.0 ≡ err e
      → dispatch_messages d (m ∷ messages) w ≡ (err e, marking.1)
  unfolding dispatch_messages
  dispatch-unmarked x e h = rw (e, h, dispatch_messages)

  pub dispatch-marked :
      d.publisher w.store.step m.event ≡ none
      → marking.0 ≡ ok tt
      → dispatch_messages d (m ∷ messages) w
        ≡ dispatch_messages d messages (count inc_events_queued marking.1)
  unfolding dispatch_messages
  dispatch-marked e h = rw (e, h, dispatch_messages)

  Dispatched-none :
      (error : String) → Dispatched (m ∷ messages) w (call (mark_outbox_failed d.env m error) w).1
  Dispatched-none error = record {
    sent = [];
    rest = m ∷ messages;
    split = refl;
    trace = refl;
    marked = λ id.
        unless (has_published id (call (mark_outbox_failed d.env m error) w).1.store)
          (λ h. inl (mark_failed-has d.env m id w.store error h));
  }

  Dispatched-last : Dispatched (m ∷ messages) w marking.1
  Dispatched-last = record {
    sent = m ∷ [];
    rest = messages;
    split = refl;
    trace = refl;
    marked = λ id.
        unless (has_published id marking.1.store)
          (λ h. ground (arith, mark_published-has d.env m id w.store h));
  }

  Dispatched-cons :
      (w' : World)
      → Dispatched messages (count inc_events_queued marking.1) w'
      → Dispatched (m ∷ messages) w w'
  Dispatched-cons w' t = record {
    sent = m ∷ t.sent;
    rest = t.rest;
    split = ap (λ l. m ∷ l) t.split;
    trace = t.trace;
    marked = λ id.
        unless (has_published id w'.store)
          (λ h. ground (arith, t.marked id, mark_published-has d.env m id w.store));
  }

  Dispatched-step :
      ((v : World) → Dispatched messages v (dispatch_messages d messages v).1)
      → Dispatched (m ∷ messages) w (dispatch_messages d (m ∷ messages) w).1
  Dispatched-step ih = elim (Option-cases (d.publisher w.store.step m.event)) [
    | inr (error, e) ↦ rw (dispatch-refused error e) (Dispatched-none error)
    | inl e ↦ elim (Result-cases marking.0) [
      | inl (x, h) ↦ rw (dispatch-unmarked x e h) Dispatched-last
      | inr (_, h) ↦ rw (dispatch-marked e h) (Dispatched-cons _ (ih _))
    ]
  ]

module _ (d : OutboxDispatcher) where
  -- However the broker and the database answer, a batch ends with a first part of its messages
  -- published in order and nothing else published, and a row that is marked as published was so
  -- before or is that of a message of this part.
  pub dispatch_messages_sound :
      (messages : List OutboxMessage) (w : World)
      → Dispatched messages w (dispatch_messages d messages w).1
  unfolding dispatch_messages
  dispatch_messages_sound [] w = record {
    sent = [];
    rest = [];
    split = refl;
    trace = refl;
    marked = λ id. unless (has_published id w.store) (λ h. inl h);
  }
  dispatch_messages_sound (m ∷ messages) w =
      Dispatched-step d m messages w (dispatch_messages_sound messages)
