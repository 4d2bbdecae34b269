-- ===== src/Worker/Exhaust.antt =====
-- The retry loop of worker.go when every attempt fails: how often it runs the processor, and what
-- it leaves in the tables.
use go_webhook_processor.Prelude.{
  ℕ, zero, suc, ◌+◌, ◌<◌, ◌^◌, String, ◌≡◌, refl, ap, inl, inr, Bool, true, false, ◌&&◌, some, List,
  [], ◌∷◌, arith, eq_refl, Option-cases,
}
use go_webhook_processor.Prelude.Int.{ℤ, pos, ◌+ℤ◌, eqb_ℤ, wrap64-pos, add_pos}
use go_webhook_processor.Prelude.Select.{row_test}
use go_webhook_processor.Prelude.Table.{find, find-update, find-append_new}
use go_webhook_processor.Models.{Event}
use go_webhook_processor.Queue.{Action, ack, nack, sleep, run, publish}
use go_webhook_processor.World.{World}
use go_webhook_processor.Store.Schema.{EventRow, DeadLetterRow, Db, event_key, dead_key}
use go_webhook_processor.Store.Monad.{answered, ok, State}
use go_webhook_processor.Store.DeadLetters.{
  is_failed, is_letter, refresh, letter_row, upsert_dead_letter, save_dead_letter,
}
use go_webhook_processor.Store.Events.{mark_failed}
use go_webhook_processor.Store.Events.Rows.{mark_failed-find}
use go_webhook_processor.Store.Invariant.{has_event, has_letter}
use go_webhook_processor.Worker.Retry.{KeepsEvents}
use go_webhook_processor.Worker.{
  Worker, max_attempts, attempt_once, give_up, back_off, retry_loop, process_event_with_retry,
}

-- How often the trace has run the processor.
abbrev pub attempts_made : List Action → ℕ
attempts_made [] = 0
attempts_made (run _ _ ∷ trace) = suc (attempts_made trace)
attempts_made (ack _ ∷ trace) = attempts_made trace
attempts_made (nack _ _ ∷ trace) = attempts_made trace
attempts_made (sleep _ ∷ trace) = attempts_made trace
attempts_made (publish _ ∷ trace) = attempts_made trace

-- The row is failed, after a number of attempts.
abbrev pub has_failed_after : ℤ → EventRow → Bool
has_failed_after attempts r = is_failed r.status && eqb_ℤ r.attempts attempts

-- A worker whose dead letters go to the database.
abbrev pub persistent : Worker → Worker
persistent k = record k { add_dead_letter = save_dead_letter k.env }

upsert-has_letter :
    (row : DeadLetterRow) (current : ℤ) (db : Db)
    → has_letter row.event_id (upsert_dead_letter row current db).0 ≡ true
unfolding upsert_dead_letter
upsert-has_letter row current db =
    elim (Option-cases (find dead_key row.event_id db.dead_letters)) [
      | inl new ↦ ground (
        arith,
        find-append_new dead_key row.event_id row db.dead_letters new,
        eq_refl row.event_id,
      )
      | inr (r, old) ↦ ground (
        arith,
        find-update dead_key (is_letter row.event_id) (refresh row current) (λ r. refl) row.event_id
            db.dead_letters,
      )
    ]

module _ (k : Worker) (event : Event) (payload : String) (up : (n : ℕ) → k.env.outcome n ≡ answered)
    (encodes : k.env.marshal event.payload ≡ some payload) where
  -- What a given-up event leaves, after `n` more runs of the processor.
  abbrev GivenUp : ℤ → ℕ → World → (Bool × Bool) × World → Type 0
  GivenUp attempt n before ((succeeded, persisted), after) =
      (succeeded ≡ false)
      × (persisted ≡ true)
      × (row_test (has_failed_after attempt) (find event_key event.id after.store.db.events) ≡ true)
      × (has_letter event.id after.store.db ≡ true)
      × (attempts_made after.trace ≡ attempts_made before.trace + n)

  saved-ok :
      (attempt : ℤ) (error : String) (s : State)
      → ((save_dead_letter k.env event error attempt s).0 ≡ ok tt)
        × ((save_dead_letter k.env event error attempt s).1.db.events ≡ s.db.events)
        × (has_letter event.id (save_dead_letter k.env event error attempt s).1.db ≡ true)
  unfolding save_dead_letter
  saved-ok attempt error s = ground (
    arith,
    up (s.step + 1 + 1 + 1),
    upsert-has_letter
        (letter_row event payload error attempt (k.env.clock s.step) (k.env.clock (s.step + 1)))
        (k.env.db_clock (s.step + 1 + 1)) s.db,
  )

  marked-ok :
      (attempt : ℤ) (error : String) (s : State)
      → ((mark_failed k.env event.id attempt error s).0 ≡ ok tt)
        × ((mark_failed k.env event.id attempt error s).1.db.dead_letters ≡ s.db.dead_letters)
  unfolding mark_failed
  marked-ok attempt error s = ground (arith, up (s.step + 1))

  give_up-lem :
      (attempt : ℤ) (error : String) (w : World)
      → has_event event.id w.store.db ≡ true
      → GivenUp attempt 0 w (give_up (persistent k) event attempt error w)
  unfolding give_up
  give_up-lem attempt error w h =
      let s1 = (save_dead_letter k.env event error attempt w.store).1 in
      let (saved, events, letter) = saved-ok attempt error w.store in
      let (marked, letters) = marked-ok attempt error s1 in
      let row = mark_failed-find k.env event.id attempt error s1 marked in
      (
        ground arith,
        ground arith,
        ground (arith, row, ap (find event_key event.id) events),
        ground (arith, ap (find dead_key event.id) letters),
        ground arith,
      )

  module _
      (fails : (step : ℕ)
        → (error : String) × (k.processor step k.worker_id event ≡ some error)) where
    attempt-fails :
        (w : World)
        → ((error : String) × ((attempt_once (persistent k) event w).0 ≡ some error))
          × ((attempt_once (persistent k) event w).1.store.db ≡ w.store.db)
          × (attempts_made (attempt_once (persistent k) event w).1.trace
              ≡ suc (attempts_made w.trace))
    unfolding attempt_once
    attempt-fails w = (fails (w.store.step + 1), refl, refl)

    abbrev after_attempt : World → World
    after_attempt w = (attempt_once (persistent k) event w).1

    retry-last :
        (rounds : ℕ) (attempt : ℤ) (error : String) (w : World)
        → (attempt_once (persistent k) event w).0 ≡ some error
        → eqb_ℤ attempt (max_attempts k) ≡ true
        → retry_loop (persistent k) (suc rounds) event attempt w
          ≡ give_up (persistent k) event attempt error (after_attempt w)
    unfolding retry_loop
    retry-last rounds attempt error w e last = rw (e, last, retry_loop)

    retry-more :
        (rounds : ℕ) (attempt : ℤ) (error : String) (w : World)
        → (attempt_once (persistent k) event w).0 ≡ some error
        → eqb_ℤ attempt (max_attempts k) ≡ false
        → retry_loop (persistent k) (suc rounds) event attempt w
          ≡ retry_loop
              (persistent k)
              rounds
              event
              (attempt +ℤ pos 1)
              (back_off (persistent k) attempt (after_attempt w))
    unfolding retry_loop
    retry-more rounds attempt error w e more = rw (e, more, retry_loop)

    waited :
        (attempt : ℤ) (w : World)
        → ((back_off (persistent k) attempt w).store ≡ w.store)
          × (attempts_made (back_off (persistent k) attempt w).trace ≡ attempts_made w.trace)
    unfolding back_off
    waited attempt w = (refl, refl)

    loop-GivenUp :
        (rounds first : ℕ) (w : World)
        → max_attempts k ≡ pos (first + rounds)
        → has_event event.id w.store.db ≡ true
        → GivenUp
            (pos (first + rounds))
            (suc rounds)
            w
            (retry_loop (persistent k) (suc rounds) event (pos first) w)
    loop-GivenUp zero first w e h =
        let ((error, failed), db, made) = attempt-fails w in
        rw (retry-last zero (pos first) error w failed (ground arith)) (
          let g =
            give_up-lem (pos first) error (after_attempt w)
              (ground (arith, ap (has_event event.id) db)) in
          (g.0, g.1, ground (arith, g.2), g.3, ground (arith, made, g.4)))
    loop-GivenUp (suc rounds) first w e h =
        let ((error, failed), db, made) = attempt-fails w in
        rw (retry-more (suc rounds) (pos first) error w failed (ground arith), add_pos first 1)
          (let w1 = after_attempt w in
            let w2 = back_off (persistent k) (pos first) w1 in
            let (same, waits) = waited (pos first) w1 in
            let g = loop-GivenUp rounds (first + 1) w2 (ground arith) (
              ground (arith, ap (λ s. has_event event.id s.db) same, ap (has_event event.id) db)) in
            (g.0, g.1, ground (arith, g.2), g.3, ground (arith, made, waits, g.4)))

-- If every attempt fails, the store answers each call, the payload encodes, the event has a row,
-- and max_retries is a natural number whose successor fits in 63 bits, then
-- process_event_with_retry with dead letters kept in the database makes exactly max_retries + 1
-- attempts, reports a failure that is persisted, leaves the event failed with that count of
-- attempts, and leaves a dead letter for it.
pub process_event_exhausts :
    (k : Worker) (event : Event) (payload : String) (retries : ℕ) (w : World)
    → ((n : ℕ) → k.env.outcome n ≡ answered)
    → k.env.marshal event.payload ≡ some payload
    → ((step : ℕ) → (error : String) × (k.processor step k.worker_id event ≡ some error))
    → k.config.max_retries ≡ pos retries
    → retries + 1 < 2 ^ 63
    → has_event event.id w.store.db ≡ true
    → let ((succeeded, persisted), after) = process_event_with_retry (persistent k) event w in
      (succeeded ≡ false)
      × (persisted ≡ true)
      × (row_test
            (has_failed_after (pos (retries + 1)))
            (find event_key event.id after.store.db.events)
          ≡ true)
      × (has_letter event.id after.store.db ≡ true)
      × (attempts_made after.trace ≡ attempts_made w.trace + (retries + 1))
unfolding process_event_with_retry
process_event_exhausts k event payload retries w up encodes fails bound small h =
    let most : max_attempts k ≡ pos (retries + 1) =
      ground (arith, add_pos retries 1, wrap64-pos (retries + 1)) in
    let g = loop-GivenUp k event payload up encodes fails retries 1 w (ground (arith, most)) h in
    let succ : retries + 1 ≡ suc retries = ground arith in
    rw (most, succ) (g.0, g.1, ground (arith, g.2), g.3, ground (arith, g.4))

-- The dead letters that go to the database leave the events alone.
pub persistent-KeepsEvents : (k : Worker) → KeepsEvents (persistent k)
unfolding save_dead_letter upsert_dead_letter
persistent-KeepsEvents k event error attempts s = ground arith
