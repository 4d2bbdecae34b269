-- ===== src/System/Numbered.antt =====
-- The number of an event's outbox message under the calls of the store.
use go_webhook_processor.Prelude.{
  ℕ, ◌+◌, String, ◌≡◌, refl, ap, subst, sym, ◌∙◌, inl, inr, Bool, Option, none, some, arith,
  Option-cases, eq_iff,
}
use go_webhook_processor.Prelude.Int.{pos_part, ◌-ℤ◌, ℤ}
use go_webhook_processor.Prelude.Table.{find, find-append_new, find-update, find-key, update_where}
use go_webhook_processor.Text.Hex.{hex_encode}
use go_webhook_processor.Models.{Event}
use go_webhook_processor.Store.Schema.{
  EventRow, OutboxRow, Db, event_key, outbox_key, OutboxMessage,
}
use go_webhook_processor.Store.Monad.{
  Env, State, event_already_exists, dead_letter_not_found, dead_letter_not_failed,
  reservation_expired, failed_to, plain, Result, ok, err,
}
use go_webhook_processor.Store.Outbox.{
  claim_pending_outbox, mark_outbox_published, mark_outbox_failed, is_reserved, publish_row,
  fail_row, reserve, pending_row, is_chosen, candidates,
}
use go_webhook_processor.Store.Events.{save_queued_with_outbox}
use go_webhook_processor.Store.Events.Accept.{Accepted, SaveAnswer, save_queued_with_outbox_atomic}
use go_webhook_processor.Store.DeadLetters.{replay_dead_letter}
use go_webhook_processor.Store.DeadLetters.Replay.{
  Replayed, ReplayAnswer, replay_dead_letter_answers,
}
use go_webhook_processor.Store.Invariant.{IsValid}
use go_webhook_processor.Store.Invariant.Calls.{
  Method, save, claim, finish, fail, reserve_batch, publish, unpublish, bury, replay,
  claim_dead_letters, postpone, claim_ids, retry_now, perform,
}
use go_webhook_processor.System.{Owns}
use go_webhook_processor.System.Claiming.{find-IsAmong, IsAmong-IsOf}
use go_webhook_processor.System.Untouched.{
  claim-outbox, finish-outbox, fail-outbox, bury-outbox, claim_letters-outbox, claim_ids-outbox,
  postpone-outbox, retry_now-outbox,
}

abbrev pub number_of : Option OutboxRow → Option ℕ
number_of none = none
number_of (some r) = some r.id

abbrev pub number : String → Db → Option ℕ
number id db = number_of (find outbox_key id db.outbox)

-- A message with the number of its event's row is of the row's event.
pub number-Owns :
    (db : Db) (m : OutboxMessage) → IsValid db → number m.event.id db ≡ some m.id → Owns db m
number-Owns db m v e id r row same = elim (Option-cases (find outbox_key m.event.id db.outbox)) [
  | inl no_row ↦ ground (arith, e, no_row)
  | inr (r0, row0) ↦
      sym (find-key outbox_key m.event.id db.outbox r0 row0)
      ∙ IsAmong-IsOf 0 db.outbox_seq r0 db.outbox v.numbered
          (find-IsAmong m.event.id r0 db.outbox row0) id r row (ground (arith, e, row0, same))
]

number-update :
    (p : OutboxRow → Bool) (f : OutboxRow → OutboxRow) (id : String) (db : Db)
    → ((r : OutboxRow) → (f r).event_id ≡ r.event_id)
    → ((r : OutboxRow) → (f r).id ≡ r.id)
    → number_of (find outbox_key id (update_where p f db.outbox)) ≡ number id db
number-update p f id db same kept = elim (Option-cases (find outbox_key id db.outbox)) [
  | inl no_row ↦ ground (arith, find-update outbox_key p f same id db.outbox)
  | inr (r, row) ↦ ground (arith, kept r, find-update outbox_key p f same id db.outbox)
]

module _ (id : String) (n : ℕ) (event : Event) (payload : String) (at : ℤ) (before after : Db)
    (v : IsValid before) where
  Accepted-number :
      find event_key event.id before.events ≡ none
      → Accepted event payload at before after
      → number id before ≡ some n
      → number id after ≡ some n
  Accepted-number new a h = ground (
    arith,
    h,
    ap (find outbox_key id) a.outbox,
    v.linked event.id,
    ap (λ k. find outbox_key k before.outbox) {x = event.id} {y = id},
    eq_iff event.id id,
    find-append_new outbox_key id
        (pending_row before.outbox_seq event.id event.type event.request_id payload at)
        before.outbox,
  )

  SaveAnswer-number :
      (r : Result (Unit {0}))
      → SaveAnswer event payload at before after r
      → number id before ≡ some n
      → number id after ≡ some n
  SaveAnswer-number (ok _) (new, a) h = Accepted-number new a h
  SaveAnswer-number (err event_already_exists) (old, same) h = ground (arith, same.outbox, h)
  SaveAnswer-number (err (failed_to _ _)) (inl same) h = ground (arith, same.outbox, h)
  SaveAnswer-number (err (failed_to _ _)) (inr (new, a)) h = Accepted-number new a h
  SaveAnswer-number (err dead_letter_not_found) a h = absurd a
  SaveAnswer-number (err (dead_letter_not_failed _)) a h = absurd a
  SaveAnswer-number (err (reservation_expired _)) a h = absurd a
  SaveAnswer-number (err (plain _)) a h = absurd a

module _ (id k : String) (at : ℤ) (before after : Db) where
  Replayed-number :
      (e : EventRow) → Replayed k at e before after → number id after ≡ number id before
  Replayed-number e done = elim (done.other_messages id) [
    | inl same ↦
        subst (λ t. number t after ≡ number t before) {x = k} {y = id} (sym same)
          (elim (Option-cases (find outbox_key k before.outbox)) [
            | inl no_row ↦ ground (arith, done.message, no_row)
            | inr (r, row) ↦ ground (arith, done.message, row)
          ])
    | inr unmoved ↦ ap number_of unmoved
  ]

  ReplayAnswer-number :
      (r : Result (Unit {0}))
      → ReplayAnswer k at before after r
      → number id after ≡ number id before
  ReplayAnswer-number (ok _) (e, row, st, l, done) = Replayed-number e done
  ReplayAnswer-number (err dead_letter_not_found) a =
      ap (λ rows. number_of (find outbox_key id rows)) a.1.outbox
  ReplayAnswer-number (err (dead_letter_not_failed _)) (e, row, st, ne, same) =
      ap (λ rows. number_of (find outbox_key id rows)) same.outbox
  ReplayAnswer-number (err (failed_to _ _)) (inl same) =
      ap (λ rows. number_of (find outbox_key id rows)) same.outbox
  ReplayAnswer-number (err (failed_to _ _)) (inr (e, row, st, done)) = Replayed-number e done
  ReplayAnswer-number (err event_already_exists) a = absurd a
  ReplayAnswer-number (err (reservation_expired _)) a = absurd a
  ReplayAnswer-number (err (plain _)) a = absurd a

module _ (env : Env) (id : String) (n : ℕ) (s : State) (v : IsValid s.db)
    (h : number id s.db ≡ some n) where
  kept-number :
      (method : Method)
      → (perform env method s).db.outbox ≡ s.db.outbox
      → number id (perform env method s).db ≡ some n
  kept-number method same = ap (λ rows. number_of (find outbox_key id rows)) same ∙ h

  publish-number : (m : OutboxMessage) → number id (mark_outbox_published env m s).1.db ≡ some n
  unfolding mark_outbox_published
  publish-number m = ground (
    arith,
    h,
    number-update (is_reserved m) (publish_row (env.clock s.step)) id s.db (λ r. refl) (λ r. refl),
  )

  unpublish-number :
      (m : OutboxMessage) (e : String) → number id (mark_outbox_failed env m e s).1.db ≡ some n
  unfolding mark_outbox_failed
  unpublish-number m e =
      ground (arith, h, number-update (is_reserved m) (fail_row e) id s.db (λ r. refl) (λ r. refl))

  reserve-number :
      (limit lease : ℤ) → number id (claim_pending_outbox env limit lease s).1.db ≡ some n
  unfolding claim_pending_outbox
  reserve-number limit lease = elim (Option-cases (env.random s.step)) [
    | inl e ↦ ground (arith, h)
    | inr (bytes, e) ↦ ground (
      arith,
      h,
      number-update
          (is_chosen (
            candidates (env.locked_outbox (s.step + 1 + 1)) (env.clock (s.step + 1) -ℤ lease)
              (pos_part limit) s.db.outbox))
          (reserve (hex_encode bytes) (env.clock (s.step + 1))) id s.db (λ r. refl) (λ r. refl),
    )
  ]

  unmarshalled-number :
      (event : Event)
      → env.marshal event.payload ≡ none
      → number id (save_queued_with_outbox env event s).1.db ≡ some n
  unfolding save_queued_with_outbox
  unmarshalled-number event e = ground (arith, h)

  save-number : (event : Event) → number id (save_queued_with_outbox env event s).1.db ≡ some n
  save-number event = elim (Option-cases (env.marshal event.payload)) [
    | inl refused_payload ↦ unmarshalled-number event refused_payload
    | inr (payload, e) ↦
        SaveAnswer-number id n event payload (env.clock (s.step + 1)) s.db
          (save_queued_with_outbox env event s).1.db v (save_queued_with_outbox env event s).0
          (save_queued_with_outbox_atomic env event payload s e) h
  ]

  pub perform-number : (method : Method) → number id (perform env method s).db ≡ some n
  perform-number (save event) = save-number event
  perform-number (claim k lease) = kept-number (claim k lease) (claim-outbox env s k lease)
  perform-number (finish k a) = kept-number (finish k a) (finish-outbox env s k a)
  perform-number (fail k a e) = kept-number (fail k a e) (fail-outbox env s k a e)
  perform-number (reserve_batch limit lease) = reserve-number limit lease
  perform-number (publish m) = publish-number m
  perform-number (unpublish m e) = unpublish-number m e
  perform-number (bury event e a) = kept-number (bury event e a) (bury-outbox env s event e a)
  perform-number (replay k) =
      ReplayAnswer-number id k (env.clock (s.step + 1 + 1)) s.db (replay_dead_letter env k s).1.db
        (replay_dead_letter env k s).0 (replay_dead_letter_answers env k s v)
      ∙ h
  perform-number (claim_dead_letters limit max) =
      kept-number (claim_dead_letters limit max) (claim_letters-outbox env s limit max)
  perform-number (postpone k e delay) =
      kept-number (postpone k e delay) (postpone-outbox env s k e delay)
  perform-number (claim_ids limit max) =
      kept-number (claim_ids limit max) (claim_ids-outbox env s limit max)
  perform-number (retry_now k e) = kept-number (retry_now k e) (retry_now-outbox env s k e)
