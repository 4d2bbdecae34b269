-- ===== src/Worker/Retry.antt =====
-- The retry loop of worker.go: what a terminal answer says of the event's row, and what the loop
-- asks of the broker.
use go_webhook_processor.Prelude.{
  ℕ, zero, suc, ◌+◌, String, ◌≡◌, refl, ◌⊎◌, inl, inr, Bool, true, false, ◌||◌, Option, none, some,
  List, [], ◌∷◌, arith, eqb, Bool-cases, if◌then◌else◌,
}
use go_webhook_processor.Prelude.Int.{ℤ, pos, pos_part, ◌+ℤ◌, eqb_ℤ}
use go_webhook_processor.Prelude.Table.{find}
use go_webhook_processor.Models.{Event}
use go_webhook_processor.Queue.{Action, ack, nack, sleep, run, publish}
use go_webhook_processor.World.{World}
use go_webhook_processor.Store.Schema.{processed, failed, EventRow, event_key}
use go_webhook_processor.Store.Monad.{State}
use go_webhook_processor.Store.Events.Rows.{mark_processed-find, mark_failed-find}
use go_webhook_processor.Worker.{
  Worker, max_attempts, attempt_once, succeed, give_up, back_off, retry_loop,
  process_event_with_retry,
}

-- The event is processed, or it has failed for good.
abbrev pub IsFinal : Option EventRow → Type 0
IsFinal none = ⊥
IsFinal (some r) = (r.status ≡ processed) ⊎ (r.status ≡ failed)

-- How often the trace settles the delivery of a tag, and whether it acknowledges it.
abbrev pub settlements : ℕ → List Action → ℕ
settlements tag [] = 0
settlements tag (ack t ∷ trace) = (if eqb t tag then 1 else 0) + settlements tag trace
settlements tag (nack t _ ∷ trace) = (if eqb t tag then 1 else 0) + settlements tag trace
settlements tag (sleep _ ∷ trace) = settlements tag trace
settlements tag (run _ _ ∷ trace) = settlements tag trace
settlements tag (publish _ ∷ trace) = settlements tag trace

abbrev pub has_ack : ℕ → List Action → Bool
has_ack tag [] = false
has_ack tag (ack t ∷ trace) = eqb t tag || has_ack tag trace
has_ack tag (nack _ _ ∷ trace) = has_ack tag trace
has_ack tag (sleep _ ∷ trace) = has_ack tag trace
has_ack tag (run _ _ ∷ trace) = has_ack tag trace
has_ack tag (publish _ ∷ trace) = has_ack tag trace

-- What a worker needs of its dead letter repository: it does not touch the events.
abbrev pub KeepsEvents : Worker → Type 0
KeepsEvents k =
    (event : Event) (error : String) (attempts : ℤ) (s : State)
    → (k.add_dead_letter event error attempts s).1.db.events ≡ s.db.events

module _ (k : Worker) (event : Event) where
  abbrev row : World → Option EventRow
  row w = find event_key event.id w.store.db.events

  succeed-IsFinal :
      (attempt : ℤ) (w : World) (r : EventRow)
      → row w ≡ some r
      → (succeed k event attempt w).0.1 ≡ true
      → IsFinal (row (succeed k event attempt w).1)
  unfolding succeed
  succeed-IsFinal attempt w r e h =
      ground (arith, mark_processed-find k.env event.id attempt w.store)

  give_up-IsFinal :
      (keeps : KeepsEvents k) (attempt : ℤ) (error : String) (w : World) (r : EventRow)
      → row w ≡ some r
      → (give_up k event attempt error w).0.1 ≡ true
      → IsFinal (row (give_up k event attempt error w).1)
  unfolding give_up
  give_up-IsFinal keeps attempt error w r e h = ground (
    arith,
    keeps event error attempt w.store,
    mark_failed-find k.env event.id attempt error (k.add_dead_letter event error attempt w.store).1,
  )

  -- The loop's one rule: `Q` holds of the worlds before each step, and `P` of the answers.
  module _ (Q : World → Type 0) (P : (Bool × Bool) × World → Type 0)
      (tries : (w : World) → Q w → Q (attempt_once k event w).1)
      (waits : (attempt : ℤ) (w : World) → Q w → Q (back_off k attempt w))
      (done : (attempt : ℤ) (w : World) → Q w → P (succeed k event attempt w))
      (lost : (attempt : ℤ) (error : String) (w : World)
        → Q w
        → P (give_up k event attempt error w))
      (out : (w : World) → Q w → P ((false, false), w)) where
    pub retry_induction :
        (rounds : ℕ) (attempt : ℤ) (w : World) → Q w → P (retry_loop k rounds event attempt w)
    unfolding retry_loop attempt_once
    retry_induction zero attempt w q = out w q
    retry_induction (suc rounds) attempt w q =
        branch
          (retry_induction rounds (attempt +ℤ pos 1) (back_off k attempt w1) (waits attempt w1 q1))
          (attempt_once k event w).0 refl
      where
        w1 : World
        w1 = (attempt_once k event w).1

        q1 : Q w1
        q1 = tries w q

        branch :
            P (retry_loop k rounds event (attempt +ℤ pos 1) (back_off k attempt w1))
            → (o : Option String) → (attempt_once k event w).0 ≡ o
            → P (retry_loop k (suc rounds) event attempt w)
        branch again none e = rw e (done attempt w1 q1)
        branch again (some error) e = elim (Bool-cases (eqb_ℤ attempt (max_attempts k))) [
          | inl last ↦ rw (e, last) (lost attempt error w1 q1)
          | inr more ↦ rw (e, more) again
        ]

  -- A terminal answer is true: the row of the event is final.
  pub process-IsFinal :
      (keeps : KeepsEvents k) (w : World) (r : EventRow)
      → row w ≡ some r
      → (process_event_with_retry k event w).0.1 ≡ true
      → IsFinal (row (process_event_with_retry k event w).1)
  unfolding process_event_with_retry attempt_once back_off
  process-IsFinal keeps w r e =
      retry_induction (λ v. row v ≡ some r) (λ (b, v). b.1 ≡ true → IsFinal (row v)) (λ v q. q)
        (λ a v q. q) (λ a v q. succeed-IsFinal a v r q)
        (λ a error v q. give_up-IsFinal keeps a error v r q) (λ v q. λ h. cc)
        (pos_part (max_attempts k)) (pos 1) w e

  -- The loop settles no delivery.
  pub settlements-process :
      (tag : ℕ) (w : World)
      → settlements tag (process_event_with_retry k event w).1.trace ≡ settlements tag w.trace
  unfolding process_event_with_retry attempt_once back_off succeed give_up
  settlements-process tag w =
      retry_induction (λ v. settlements tag v.trace ≡ settlements tag w.trace)
        (λ (b, v). settlements tag v.trace ≡ settlements tag w.trace) (λ v q. q) (λ a v q. q)
        (λ a v q. q) (λ a error v q. ground arith) (λ v q. q) (pos_part (max_attempts k)) (pos 1) w
        refl

  pub has_ack-process :
      (tag : ℕ) (w : World)
      → has_ack tag (process_event_with_retry k event w).1.trace ≡ has_ack tag w.trace
  unfolding process_event_with_retry attempt_once back_off succeed give_up
  has_ack-process tag w =
      retry_induction (λ v. has_ack tag v.trace ≡ has_ack tag w.trace)
        (λ (b, v). has_ack tag v.trace ≡ has_ack tag w.trace) (λ v q. q) (λ a v q. q) (λ a v q. q)
        (λ a error v q. ground arith) (λ v q. q) (pos_part (max_attempts k)) (pos 1) w refl
