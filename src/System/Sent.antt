-- ===== src/System/Sent.antt =====
-- Which calls mark an event's message as published.
use go_webhook_processor.Prelude.{
  ◌+◌, String, ◌≡◌, refl, ap, ◌∙◌, ◌⊎◌, inl, inr, Bool, true, false, none, arith, Option-cases,
  eq_iff, ◌==◌,
}
use go_webhook_processor.Prelude.Int.{ℤ, pos_part, ◌-ℤ◌}
use go_webhook_processor.Prelude.Select.{row_test}
use go_webhook_processor.Prelude.Table.{find, find-append_new, find-update, update_where}
use go_webhook_processor.Text.Hex.{hex_encode}
use go_webhook_processor.Models.{Event}
use go_webhook_processor.Store.Schema.{OutboxRow, Db, event_key, outbox_key, OutboxMessage}
use go_webhook_processor.Store.Monad.{
  Env, State, Result, ok, err, event_already_exists, dead_letter_not_found, dead_letter_not_failed,
  reservation_expired, failed_to, plain,
}
use go_webhook_processor.Store.Outbox.{
  claim_pending_outbox, mark_outbox_published, mark_outbox_failed, is_reserved, publish_row,
  fail_row, reserve, pending_row, is_chosen, candidates,
}
use go_webhook_processor.Store.Events.{save_queued_with_outbox}
use go_webhook_processor.Store.Events.Accept.{Accepted, SaveAnswer, save_queued_with_outbox_atomic}
use go_webhook_processor.Store.Invariant.{IsValid}
use go_webhook_processor.Store.Invariant.Calls.{
  Method, save, claim, finish, fail, reserve_batch, publish, unpublish, bury, replay,
  claim_dead_letters, postpone, claim_ids, retry_now, perform,
}
use go_webhook_processor.Outbox.Dispatch.{is_published}
use go_webhook_processor.System.{is_plain, sent_out, Owns}
use go_webhook_processor.System.Untouched.{
  claim-outbox, finish-outbox, fail-outbox, bury-outbox, claim_letters-outbox, claim_ids-outbox,
  postpone-outbox, retry_now-outbox,
}

-- An update of the outbox that keeps what is published.
sent_out-update :
    (p : OutboxRow → Bool) (f : OutboxRow → OutboxRow) (id : String) (db : Db)
    → ((r : OutboxRow) → (f r).event_id ≡ r.event_id)
    → ((r : OutboxRow) → (f r).published_at ≡ r.published_at)
    → row_test is_published (find outbox_key id (update_where p f db.outbox)) ≡ sent_out id db
sent_out-update p f id db same kept = elim (Option-cases (find outbox_key id db.outbox)) [
  | inl no_row ↦ ground (arith, find-update outbox_key p f same id db.outbox)
  | inr (r, row) ↦ ground (arith, kept r, find-update outbox_key p f same id db.outbox)
]

-- Acceptance, by the answers of SaveQueuedWithOutbox.
module _ (id : String) (event : Event) (payload : String) (at : ℤ) (before after : Db)
    (v : IsValid before) where
  Accepted-sent :
      find event_key event.id before.events ≡ none
      → Accepted event payload at before after
      → sent_out id before ≡ false
      → sent_out id after ≡ false
  Accepted-sent new a h = ground (
    arith,
    ap (find outbox_key id) a.outbox,
    v.linked event.id,
    find-append_new outbox_key id
        (pending_row before.outbox_seq event.id event.type event.request_id payload at)
        before.outbox,
  )

  SaveAnswer-sent :
      (r : Result (Unit {0}))
      → SaveAnswer event payload at before after r
      → sent_out id before ≡ false
      → sent_out id after ≡ false
  SaveAnswer-sent (ok _) (new, a) h = Accepted-sent new a h
  SaveAnswer-sent (err event_already_exists) (old, same) h = ground (arith, same.outbox, h)
  SaveAnswer-sent (err (failed_to _ _)) (inl same) h = ground (arith, same.outbox, h)
  SaveAnswer-sent (err (failed_to _ _)) (inr (new, a)) h = Accepted-sent new a h
  SaveAnswer-sent (err dead_letter_not_found) a h = absurd a
  SaveAnswer-sent (err (dead_letter_not_failed _)) a h = absurd a
  SaveAnswer-sent (err (reservation_expired _)) a h = absurd a
  SaveAnswer-sent (err (plain _)) a h = absurd a

module _ (env : Env) (id : String) (s : State) where
  reserve-sent :
      (limit lease : ℤ)
      → sent_out id (claim_pending_outbox env limit lease s).1.db ≡ sent_out id s.db
  unfolding claim_pending_outbox
  reserve-sent limit lease = elim (Option-cases (env.random s.step)) [
    | inl e ↦ ground arith
    | inr (bytes, e) ↦ ground (
      arith,
      sent_out-update
          (is_chosen (
            candidates (env.locked_outbox (s.step + 1 + 1)) (env.clock (s.step + 1) -ℤ lease)
              (pos_part limit) s.db.outbox))
          (reserve (hex_encode bytes) (env.clock (s.step + 1))) id s.db (λ r. refl) (λ r. refl),
    )
  ]

  pub unpublish-sent :
      (m : OutboxMessage) (e : String)
      → sent_out id (mark_outbox_failed env m e s).1.db ≡ sent_out id s.db
  unfolding mark_outbox_failed
  unpublish-sent m e =
      ground (arith, sent_out-update (is_reserved m) (fail_row e) id s.db (λ r. refl) (λ r. refl))

  unmarshalled-sent :
      (event : Event)
      → env.marshal event.payload ≡ none
      → sent_out id (save_queued_with_outbox env event s).1.db ≡ sent_out id s.db
  unfolding save_queued_with_outbox
  unmarshalled-sent event e = ground arith

  save-sent :
      (event : Event)
      → IsValid s.db
      → sent_out id s.db ≡ false
      → sent_out id (save_queued_with_outbox env event s).1.db ≡ false
  save-sent event v h = elim (Option-cases (env.marshal event.payload)) [
    | inl refused_payload ↦ unmarshalled-sent event refused_payload ∙ h
    | inr (payload, e) ↦
        SaveAnswer-sent id event payload (env.clock (s.step + 1)) s.db
          (save_queued_with_outbox env event s).1.db v (save_queued_with_outbox env event s).0
          (save_queued_with_outbox_atomic env event payload s e) h
  ]

  kept-sent :
      (method : Method)
      → (perform env method s).db.outbox ≡ s.db.outbox
      → sent_out id s.db ≡ false
      → sent_out id (perform env method s).db ≡ false
  kept-sent method same h = ap (λ rows. row_test is_published (find outbox_key id rows)) same ∙ h

  -- A plain call marks no message as published.
  pub perform-sent :
      (method : Method)
      → is_plain method ≡ true
      → IsValid s.db
      → sent_out id s.db ≡ false
      → sent_out id (perform env method s).db ≡ false
  perform-sent (save event) p v h = save-sent event v h
  perform-sent (claim k lease) p v h = kept-sent (claim k lease) (claim-outbox env s k lease) h
  perform-sent (finish k n) p v h = kept-sent (finish k n) (finish-outbox env s k n) h
  perform-sent (fail k n e) p v h = kept-sent (fail k n e) (fail-outbox env s k n e) h
  perform-sent (reserve_batch limit lease) p v h = reserve-sent limit lease ∙ h
  perform-sent (publish m) p v h = cc
  perform-sent (unpublish m e) p v h = unpublish-sent m e ∙ h
  perform-sent (bury event e n) p v h = kept-sent (bury event e n) (bury-outbox env s event e n) h
  perform-sent (replay k) p v h = cc
  perform-sent (claim_dead_letters limit max) p v h =
      kept-sent (claim_dead_letters limit max) (claim_letters-outbox env s limit max) h
  perform-sent (postpone k e delay) p v h =
      kept-sent (postpone k e delay) (postpone-outbox env s k e delay) h
  perform-sent (claim_ids limit max) p v h =
      kept-sent (claim_ids limit max) (claim_ids-outbox env s limit max) h
  perform-sent (retry_now k e) p v h = kept-sent (retry_now k e) (retry_now-outbox env s k e) h

  -- The settlement of a published message marks the row of its event, and no other.
  pub publish-sent :
      (m : OutboxMessage)
      → Owns s.db m
      → (sent_out id (mark_outbox_published env m s).1.db ≡ false)
        ⊎ (sent_out id s.db ≡ true)
        ⊎ ((m.event.id == id) ≡ true)
  unfolding mark_outbox_published
  publish-sent m owns = elim (Option-cases (find outbox_key id s.db.outbox)) [
    | inl no_row ↦ ground (
      arith,
      find-update outbox_key (is_reserved m) (publish_row (env.clock s.step)) (λ r. refl) id
          s.db.outbox,
    )
    | inr (r, row) ↦ ground (
      arith,
      row,
      owns id r row,
      eq_iff m.event.id id,
      find-update outbox_key (is_reserved m) (publish_row (env.clock s.step)) (λ r. refl) id
          s.db.outbox,
    )
  ]

  -- It keeps the rows' events.
  pub publish-Owns :
      (m m' : OutboxMessage) → Owns s.db m' → Owns (mark_outbox_published env m s).1.db m'
  unfolding mark_outbox_published
  publish-Owns m m' owns k r row same = elim (Option-cases (find outbox_key k s.db.outbox)) [
    | inl no_row ↦ ground (
      arith,
      row,
      find-update outbox_key (is_reserved m) (publish_row (env.clock s.step)) (λ r'. refl) k
          s.db.outbox,
    )
    | inr (r0, row0) ↦ ground (
      arith,
      row,
      same,
      owns k r0 row0,
      find-update outbox_key (is_reserved m) (publish_row (env.clock s.step)) (λ r'. refl) k
          s.db.outbox,
    )
  ]
