-- ===== src/Handlers/Create.antt =====
-- createEventHandler of handlers.go: what a status code says of the tables and of the counters.
use go_webhook_processor.Prelude.{
  ℕ, ◌+◌, String, ◌≡◌, refl, ◌⊎◌, inl, inr, true, false, none, some, arith, ◌==◌, Bool-cases, sym,
  subst,
}
use go_webhook_processor.Prelude.Int.{ℤ}
use go_webhook_processor.Prelude.Table.{find}
use go_webhook_processor.Models.{Event}
use go_webhook_processor.World.{World}
use go_webhook_processor.Http.{Request}
use go_webhook_processor.Store.Monad.{
  event_already_exists, dead_letter_not_found, dead_letter_not_failed, reservation_expired,
  failed_to, plain, Result, ok, err, State,
}
use go_webhook_processor.Store.Schema.{Db, event_key}
use go_webhook_processor.Store.Events.{save_queued_with_outbox}
use go_webhook_processor.Store.Events.Accept.{
  SameRows, Accepted, SaveAnswer, save_queued_with_outbox_atomic,
}
use go_webhook_processor.Store.Invariant.{has_event}
use go_webhook_processor.Handlers.{App, create_decoded, create_event_handler}

-- What the client may conclude: 202 for a new event that is stored with its message, 409 for an
-- event that was there, 400 for a request that changed nothing, 500 for one of the two.
abbrev pub Answers : Event → String → ℤ → Db → Db → ℕ → Type 0
Answers event payload at before after status =
    ((status ≡ 202)
      × (find event_key event.id before.events ≡ none)
      × Accepted event payload at before after)
    ⊎ ((status ≡ 409) × (has_event event.id before ≡ true) × SameRows before after)
    ⊎ ((status ≡ 400) × SameRows before after)
    ⊎ ((status ≡ 500) × (SameRows before after ⊎ Accepted event payload at before after))

-- The status of the handler after the store has answered.
abbrev status_of : Result (Unit {0}) → ℕ
status_of (ok _) = 202
status_of (err event_already_exists) = 409
status_of (err dead_letter_not_found) = 500
status_of (err (dead_letter_not_failed _)) = 500
status_of (err (reservation_expired _)) = 500
status_of (err (failed_to _ _)) = 500
status_of (err (plain _)) = 500

status_of-Answers :
    (event : Event) (payload : String) (at : ℤ) (before after : Db) (r : Result (Unit {0}))
    → SaveAnswer event payload at before after r
    → Answers event payload at before after (status_of r)
status_of-Answers event payload at before after (ok _) a = inl (refl, a.0, a.1)
status_of-Answers event payload at before after (err event_already_exists) a =
    inr (inl (refl, a.0, a.1))
status_of-Answers event payload at before after (err (failed_to _ _)) a =
    inr (inr (inr (refl, elim a [ inl same ↦ inl same | inr (new, added) ↦ inr added ])))
status_of-Answers event payload at before after (err dead_letter_not_found) a = absurd a
status_of-Answers event payload at before after (err (dead_letter_not_failed _)) a = absurd a
status_of-Answers event payload at before after (err (reservation_expired _)) a = absurd a
status_of-Answers event payload at before after (err (plain _)) a = absurd a

module _ (app : App) (r : Request) (w : World) (event : Event) (payload : String) where
  abbrev with_request_id : Event
  with_request_id = record event { request_id = r.x_request_id }

  abbrev Answered : ℕ → State → Type 0
  Answered status s =
      Answers with_request_id payload (app.env.clock (w.store.step + 1)) w.store.db s.db status

  abbrev saving : Result (Unit {0}) × State
  saving = save_queued_with_outbox app.env with_request_id w.store

  decoded-status :
      (event.id == "") ≡ false
      → (event.type == "") ≡ false
      → ((create_decoded app r event w).0.status ≡ status_of saving.0)
        × ((create_decoded app r event w).1.store ≡ saving.1)
  unfolding create_decoded
  decoded-status filled typed = ground arith

  decoded_answers :
      app.env.marshal event.payload ≡ some payload
      → Answered (create_decoded app r event w).0.status (create_decoded app r event w).1.store
  unfolding create_decoded
  decoded_answers e = elim (Bool-cases (event.id == "")) [
    | inl empty ↦ inr (inr (inl (ground arith)))
    | inr filled ↦ elim (Bool-cases (event.type == "")) [
      | inl empty ↦ inr (inr (inl (ground arith)))
      | inr typed ↦
          let (status, store) = decoded-status filled typed in
          subst (λ t. Answered (create_decoded app r event w).0.status t) (sym store)
            (subst (λ n. Answered n saving.1) (sym status)
              (status_of-Answers with_request_id payload (app.env.clock (w.store.step + 1))
                w.store.db saving.1.db saving.0
                (save_queued_with_outbox_atomic app.env with_request_id payload w.store e)))
    ]
  ]

-- For a request with a decodable body whose payload encodes, create_event_handler answers 202 for
-- a new event, with the event and its message stored, 409 with the event present before and no
-- row changed, 400 with no row changed, or 500 with no row changed or both rows stored.
pub create_event_handler-Answers :
    (app : App) (r : Request) (w : World) (event : Event) (payload : String)
    → r.body ≡ some event
    → app.env.marshal event.payload ≡ some payload
    → let event' = record event { request_id = r.x_request_id } in
      let (answer, w1) = create_event_handler app r w in
      Answers event' payload (app.env.clock (w.store.step + 1)) w.store.db w1.store.db answer.status
unfolding create_event_handler
create_event_handler-Answers app r w event payload b e =
    rw b (decoded_answers app r w event payload e)
