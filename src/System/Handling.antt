-- ===== src/System/Handling.antt =====
-- The handling of a delivery, as a step of the service.
use go_webhook_processor.Prelude.{
  String, ◌≡◌, refl, ◌⊎◌, inl, inr, true, false, Option, none, some, arith,
}
use go_webhook_processor.Prelude.Int.{ℤ, pos, pos_part, ◌-ℤ◌}
use go_webhook_processor.Prelude.Table.{find, Distinct}
use go_webhook_processor.Config.{processing_lease}
use go_webhook_processor.Models.{Event}
use go_webhook_processor.Queue.{EventDelivery}
use go_webhook_processor.World.{World}
use go_webhook_processor.Store.Schema.{
  Db, EventRow, event_key, EventClaimResult, claimed, in_progress, final, missing,
}
use go_webhook_processor.Store.Monad.{Env, State, Result-cases}
use go_webhook_processor.Store.Events.Claim.{claim_of_row, claim_for_processing_lem}
use go_webhook_processor.Store.Invariant.Calls.{Method, claim, finish, fail, bury, perform}
use go_webhook_processor.Worker.{
  Worker, attempt_once, back_off, succeed, give_up, max_attempts, process_event_with_retry,
  after_claim, handle_delivery,
}
use go_webhook_processor.Worker.Retry.{retry_induction, has_ack}
use go_webhook_processor.Worker.Settle.{
  handle_delivery-ok, handle_delivery-err, told, claim as claim_answer,
}
use go_webhook_processor.Worker.Exhaust.{persistent}
use go_webhook_processor.System.{has_left, is_plain}

-- What every plain call keeps, the handling of a delivery keeps.
module _ (P : Db → Type 0)
    (keep : (env : Env) (method : Method) (s : State)
      → is_plain method ≡ true
      → P s.db
      → P (perform env method s).db)
    (k : Worker) where
  succeed-keeps :
      (event : Event) (attempt : ℤ) (w : World)
      → P w.store.db
      → P (succeed (persistent k) event attempt w).1.store.db
  unfolding succeed
  succeed-keeps event attempt w h = keep k.env (finish event.id attempt) w.store refl h

  give_up-keeps :
      (event : Event) (attempt : ℤ) (error : String) (w : World)
      → P w.store.db
      → P (give_up (persistent k) event attempt error w).1.store.db
  unfolding give_up
  give_up-keeps event attempt error w h =
      let s1 = perform k.env (bury event error attempt) w.store in
      let buried = keep k.env (bury event error attempt) w.store refl h in
      ground (arith, buried, keep k.env (fail event.id attempt error) s1 refl buried)

  process-keeps :
      (event : Event) (w : World)
      → P w.store.db
      → P (process_event_with_retry (persistent k) event w).1.store.db
  unfolding process_event_with_retry attempt_once back_off
  process-keeps event w h =
      retry_induction (persistent k) event (λ v. P v.store.db) (λ (b, v). P v.store.db) (λ v q. q)
        (λ a v q. q) (λ a v q. succeed-keeps event a v q)
        (λ a error v q. give_up-keeps event a error v q) (λ v q. q) (pos_part (max_attempts k))
        (pos 1) w h

  after_claim-keeps :
      (d : EventDelivery) (c : EventClaimResult) (w : World)
      → P w.store.db
      → P (after_claim (persistent k) d c w).store.db
  unfolding after_claim
  after_claim-keeps d claimed w h = ground (arith, process-keeps d.event w h)
  after_claim-keeps d in_progress w h = h
  after_claim-keeps d final w h = h
  after_claim-keeps d missing w h = h

  pub handle_delivery-keeps :
      (d : EventDelivery) (w : World)
      → P w.store.db
      → P (handle_delivery (persistent k) d w).store.db
  unfolding handle_delivery
  handle_delivery-keeps d w h =
      let taken = keep k.env (claim d.event.id (processing_lease k.config)) w.store refl h in
      elim (Result-cases (claim_answer (persistent k) d w)) [
        | inl (x, e) ↦ rw (handle_delivery-err (persistent k) d w x e) taken
        | inr (c, e) ↦
            rw (handle_delivery-ok (persistent k) d w c e)
              (after_claim-keeps d c (told (persistent k) d w) taken)
      ]

module _ (k : Worker) (d : EventDelivery) where
  has_left-process :
      (w : World)
      → has_left d.tag (process_event_with_retry k d.event w).1.trace ≡ has_left d.tag w.trace
  unfolding process_event_with_retry attempt_once back_off succeed give_up
  has_left-process w =
      retry_induction k d.event (λ v. has_left d.tag v.trace ≡ has_left d.tag w.trace)
        (λ (b, v). has_left d.tag v.trace ≡ has_left d.tag w.trace) (λ v q. q) (λ a v q. q)
        (λ a v q. q) (λ a error v q. ground arith) (λ v q. q) (pos_part (max_attempts k)) (pos 1) w
        refl

  after_claim-left :
      (c : EventClaimResult) (w : World) (o : Option EventRow) (cutoff : ℤ)
      → c ≡ claim_of_row o cutoff
      → has_left d.tag w.trace ≡ false
      → has_left d.tag (after_claim k d c w).trace ≡ true
      → (has_ack d.tag (after_claim k d c w).trace ≡ true) ⊎ (o ≡ none)
  unfolding after_claim
  after_claim-left claimed w o cutoff e fresh left = ground (arith, has_left-process w)
  after_claim-left in_progress w o cutoff e fresh left = ground arith
  after_claim-left final w o cutoff e fresh left = ground arith
  after_claim-left missing w none cutoff e fresh left = inr refl
  after_claim-left missing w (some r) cutoff e fresh left = ground arith

  -- A delivery leaves the broker for good by an ack, or because its event has no row.
  pub handle_delivery-left :
      (w : World)
      → Distinct event_key w.store.db.events
      → has_left d.tag w.trace ≡ false
      → has_left d.tag (handle_delivery k d w).trace ≡ true
      → (has_ack d.tag (handle_delivery k d w).trace ≡ true)
        ⊎ (find event_key d.event.id w.store.db.events ≡ none)
  handle_delivery-left w valid fresh = elim (Result-cases (claim_answer k d w)) [
    | inl (x, e) ↦ rw (handle_delivery-err k d w x e) (ground (arith, fresh))
    | inr (c, e) ↦
        let l =
          claim_for_processing_lem k.env d.event.id (processing_lease k.config) w.store valid c e in
        rw (handle_delivery-ok k d w c e) (
          after_claim-left c (told k d w) (find event_key d.event.id w.store.db.events)
            (k.env.clock w.store.step -ℤ processing_lease k.config) l.0 fresh)
  ]
