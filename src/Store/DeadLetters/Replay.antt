-- ===== src/Store/DeadLetters/Replay.antt =====
-- ReplayDeadLetter of event_store.go: every answer, and what it says of the tables.
use go_webhook_processor.Prelude.{
  ◌+◌, subst, String, ◌≡◌, ◌≢◌, refl, ap, ◌∙◌, ◌⊎◌, inl, inr, true, false, none, some, arith,
  Option-cases, unless_equal,
}
use go_webhook_processor.Prelude.Int.{ℤ, pos}
use go_webhook_processor.Prelude.Table.{
  find, update_where, count_where-find, find-update_self, find-update_other, find-update_all,
  find-update_all_other,
}
use go_webhook_processor.Store.Schema.{
  queued, failed, EventRow, Db, event_key, outbox_key, dead_key,
}
use go_webhook_processor.Store.Monad.{
  Env, event_already_exists, dead_letter_not_found, dead_letter_not_failed, reservation_expired,
  failed_to, plain, Result, ok, err, State, now, statement,
}
use go_webhook_processor.Store.Outbox.{insert_outbox}
use go_webhook_processor.Store.Events.{update_events}
use go_webhook_processor.Store.Events.Accept.{SameRows}
use go_webhook_processor.Store.Invariant.{IsValid, has_event, has_letter}
use go_webhook_processor.Store.DeadLetters.{
  select_replay, or_not_found, update_letters, update_outbox, is_failed, is_failed_event,
  requeue_row, is_message_of, reopen_row, is_letter, replayed_row, replay_dead_letter,
}

-- The three updates of a replay.
pub record Updated (id : String) (at : ℤ) (before after : Db) : Type 0 where
  pub events : after.events ≡ update_where (is_failed_event id) (requeue_row at) before.events
  pub outbox : after.outbox ≡ update_where (is_message_of id) reopen_row before.outbox
  pub letters :
      after.dead_letters ≡ update_where (is_letter id) (replayed_row at) before.dead_letters

-- The event is queued without attempts, error or start, its message is unpublished without attempts
-- or error, its dead letter has the time of the replay, and no other event, message or dead letter
-- has changed.
pub record Replayed (id : String) (at : ℤ) (e : EventRow) (before after : Db) : Type 0 where
  pub event :
      find event_key id after.events
      ≡ some (record e {
        status = queued;
        attempts = pos 0;
        error = "";
        processing_started_at = none;
        updated_at = at;
      })
  pub message : find outbox_key id after.outbox ≡ elim (find outbox_key id before.outbox) [
    | none ↦ none
    | some m ↦ some (record m { attempts = pos 0; last_error = ""; published_at = none })
  ]
  pub letter : find dead_key id after.dead_letters ≡ elim (find dead_key id before.dead_letters) [
    | none ↦ none
    | some l ↦ some (record l { replayed_at = some at })
  ]
  pub other_events :
      (k : String) → (k ≡ id) ⊎ (find event_key k after.events ≡ find event_key k before.events)
  pub other_messages :
      (k : String) → (k ≡ id) ⊎ (find outbox_key k after.outbox ≡ find outbox_key k before.outbox)
  pub other_letters :
      (k : String)
      → (k ≡ id) ⊎ (find dead_key k after.dead_letters ≡ find dead_key k before.dead_letters)

-- What each answer says, for a relation `Done` between the tables that a replay has updated.
abbrev Answer : (EventRow → Db → Type 0) → String → Db → Db → Result (Unit {0}) → Type 0
Answer Done id before after (ok _) =
    (e : EventRow) × (find event_key id before.events ≡ some e)
    × (e.status ≡ failed)
    × (has_letter id before ≡ true)
    × Done e after
Answer Done id before after (err dead_letter_not_found) =
    ((has_event id before ≡ false) ⊎ (has_letter id before ≡ false)) × SameRows before after
Answer Done id before after (err (dead_letter_not_failed status)) =
    (e : EventRow) × (find event_key id before.events ≡ some e)
    × (e.status ≡ status)
    × (status ≢ failed)
    × SameRows before after
Answer Done id before after (err (failed_to _ _)) =
    SameRows before after
    ⊎ ((e : EventRow) × (find event_key id before.events ≡ some e)
        × (e.status ≡ failed)
        × Done e after)
Answer Done id before after (err event_already_exists) = ⊥
Answer Done id before after (err (reservation_expired _)) = ⊥
Answer Done id before after (err (plain _)) = ⊥

abbrev pub ReplayAnswer : String → ℤ → Db → Db → Result (Unit {0}) → Type 0
ReplayAnswer id at before after r =
    Answer (λ e after. Replayed id at e before after) id before after r

module _ (id : String) (at : ℤ) (before after : Db) (u : Updated id at before after) where
  Replayed-of :
      (e : EventRow)
      → find event_key id before.events ≡ some e
      → e.status ≡ failed
      → Replayed id at e before after
  Replayed-of e row st = record {
    event = ground (
      arith,
      ap (find event_key id) u.events,
      find-update_self event_key (requeue_row at) (λ r. refl) id (λ r. is_failed r.status)
          before.events,
    );
    message =
        ap (find outbox_key id) u.outbox
        ∙ find-update_all outbox_key reopen_row (λ r. refl) id before.outbox;
    letter =
        ap (find dead_key id) u.letters
        ∙ find-update_all dead_key (replayed_row at) (λ r. refl) id before.dead_letters;
    other_events = λ k. unless_equal k id (λ ne.
        ap (find event_key k) u.events
        ∙ find-update_other event_key (requeue_row at) (λ r. refl) id k (λ r. is_failed r.status)
            before.events ne);
    other_messages = λ k. unless_equal k id (λ ne.
        ap (find outbox_key k) u.outbox
        ∙ find-update_all_other outbox_key reopen_row (λ r. refl) id k before.outbox ne);
    other_letters = λ k. unless_equal k id (λ ne.
        ap (find dead_key k) u.letters
        ∙ find-update_all_other dead_key (replayed_row at) (λ r. refl) id k before.dead_letters ne);
  }

-- Here the statements are open, for an event `e` of a given status.
module _ (env : Env) (id : String) (s : State) (v : IsValid s.db) (e : EventRow)
    (row : find event_key id s.db.events ≡ some e) where
  abbrev Tables : Result (Unit {0}) → Db → Type 0
  Tables (ok _) after =
      (e.status ≡ failed)
      × (has_letter id s.db ≡ true)
      × Updated id (env.clock (s.step + 1 + 1)) s.db after
  Tables (err dead_letter_not_found) after = (has_letter id s.db ≡ false) × SameRows s.db after
  Tables (err (dead_letter_not_failed status)) after =
      (e.status ≡ status) × (status ≢ failed) × SameRows s.db after
  Tables (err (failed_to _ _)) after =
      SameRows s.db after
      ⊎ ((e.status ≡ failed) × Updated id (env.clock (s.step + 1 + 1)) s.db after)
  Tables (err event_already_exists) after = ⊥
  Tables (err (reservation_expired _)) after = ⊥
  Tables (err (plain _)) after = ⊥

  tables : Tables (replay_dead_letter env id s).0 (replay_dead_letter env id s).1.db
  unfolding replay_dead_letter now statement select_replay or_not_found update_events update_outbox
      insert_outbox update_letters
  tables = ground (arith, v.linked id, count_where-find outbox_key id s.db.outbox)

  rows :
      (r : Result (Unit {0})) (after : Db)
      → Tables r after
      → ReplayAnswer id (env.clock (s.step + 1 + 1)) s.db after r
  rows (ok _) after (st, l, u) =
      (e, row, st, l, Replayed-of id (env.clock (s.step + 1 + 1)) s.db after u e row st)
  rows (err dead_letter_not_found) after (l, same) = (inr l, same)
  rows (err (dead_letter_not_failed status)) after (st, ne, same) = (e, row, st, ne, same)
  rows (err (failed_to c x)) after (inl same) = inl same
  rows (err (failed_to c x)) after (inr (st, u)) =
      inr (e, row, st, Replayed-of id (env.clock (s.step + 1 + 1)) s.db after u e row st)
  rows (err event_already_exists) after t = t
  rows (err (reservation_expired _)) after t = t
  rows (err (plain _)) after t = t

-- And here for a missing event.
module _ (env : Env) (id : String) (s : State) (no_row : find event_key id s.db.events ≡ none) where
  abbrev Gone : Result (Unit {0}) → Db → Type 0
  Gone (err dead_letter_not_found) after = SameRows s.db after
  Gone (err (failed_to _ _)) after = SameRows s.db after
  Gone (ok _) after = ⊥
  Gone (err (dead_letter_not_failed status)) after = ⊥
  Gone (err event_already_exists) after = ⊥
  Gone (err (reservation_expired _)) after = ⊥
  Gone (err (plain _)) after = ⊥

  gone : Gone (replay_dead_letter env id s).0 (replay_dead_letter env id s).1.db
  unfolding replay_dead_letter now statement select_replay or_not_found
  gone = ground arith

  gone_rows :
      (at : ℤ) (r : Result (Unit {0})) (after : Db) → Gone r after → ReplayAnswer id at s.db after r
  gone_rows at (ok _) after t = absurd t
  gone_rows at (err dead_letter_not_found) after same = (inl (ground arith), same)
  gone_rows at (err (dead_letter_not_failed status)) after t = absurd t
  gone_rows at (err (failed_to c x)) after same = inl same
  gone_rows at (err event_already_exists) after t = t
  gone_rows at (err (reservation_expired _)) after t = t
  gone_rows at (err (plain _)) after t = t

-- On valid tables, each answer of replay_dead_letter describes them: on success the event was
-- failed and had a dead letter, and now the event is queued without attempts, error or start, its
-- message is unpublished without attempts or error, its dead letter has the time of the replay,
-- their other columns are as before, and so are the events, messages and letters of other events;
-- not found (the event or its dead letter is missing), and not failed (with the event's status),
-- leave every row; a failure of the database leaves every row or has done the whole replay. It
-- gives no other error.
pub replay_dead_letter_answers :
    (env : Env) (id : String) (s : State)
    → IsValid s.db
    → let (r, s') = replay_dead_letter env id s in
      ReplayAnswer id (env.clock (s.step + 1 + 1)) s.db s'.db r
replay_dead_letter_answers env id s v = elim (Option-cases (find event_key id s.db.events)) [
  | inl no_row ↦
      gone_rows env id s no_row (env.clock (s.step + 1 + 1)) (replay_dead_letter env id s).0
        (replay_dead_letter env id s).1.db (gone env id s no_row)
  | inr (e, row) ↦
      rows env id s v e row (replay_dead_letter env id s).0 (replay_dead_letter env id s).1.db
        (tables env id s v e row)
]

pub replay_dead_letter-Updated :
    (env : Env) (id : String) (s : State)
    → IsValid s.db
    → (replay_dead_letter env id s).0 ≡ ok tt
    → Updated id (env.clock (s.step + 1 + 1)) s.db (replay_dead_letter env id s).1.db
replay_dead_letter-Updated env id s v e = elim (Option-cases (find event_key id s.db.events)) [
  | inl no_row ↦ absurd (
      subst (λ r. Gone env id s no_row r (replay_dead_letter env id s).1.db) e
        (gone env id s no_row))
  | inr (r, row) ↦
      (subst (λ t. Tables env id s v r row t (replay_dead_letter env id s).1.db) e
        (tables env id s v r row)).2
]
