-- ===== src/Worker/Settle.antt =====
-- The settlement of a delivery by `handleDelivery` of worker.go.
use go_webhook_processor.Prelude.{
  ℕ, eqb, if◌then◌else◌, ◌+◌, suc, ◌≡◌, inl, inr, true, false, Option, none, some, arith,
}
use go_webhook_processor.Prelude.Int.{ℤ, ◌-ℤ◌}
use go_webhook_processor.Prelude.Table.{find, Distinct}
use go_webhook_processor.Config.{processing_lease}
use go_webhook_processor.Queue.{EventDelivery}
use go_webhook_processor.World.{World, call}
use go_webhook_processor.Store.Schema.{
  EventRow, event_key, EventClaimResult, claimed, in_progress, final, missing,
}
use go_webhook_processor.Store.Monad.{Error, Result, ok, err, Result-cases}
use go_webhook_processor.Store.Events.{start_row, claim_for_processing}
use go_webhook_processor.Store.Events.Claim.{claim_of_row, row_after, claim_for_processing_lem}
use go_webhook_processor.Worker.{Worker, settle_nack, after_claim, handle_delivery}
use go_webhook_processor.Worker.Retry.{
  IsFinal, settlements, has_ack, KeepsEvents, process-IsFinal, settlements-process, has_ack-process,
}

module _ (k : Worker) (d : EventDelivery) where
  abbrev row : World → Option EventRow
  row w = find event_key d.event.id w.store.db.events

  -- The world after the claim, and the two ways on.
  abbrev pub told : World → World
  told w = (call (claim_for_processing k.env d.event.id (processing_lease k.config)) w).1

  abbrev pub claim : World → Result EventClaimResult
  claim w = (claim_for_processing k.env d.event.id (processing_lease k.config) w.store).0

  pub handle_delivery-ok :
      (w : World) (c : EventClaimResult)
      → claim w ≡ ok c
      → handle_delivery k d w ≡ after_claim k d c (told w)
  unfolding handle_delivery
  handle_delivery-ok w c e = rw (e, handle_delivery)

  pub handle_delivery-err :
      (w : World) (e : Error)
      → claim w ≡ err e
      → handle_delivery k d w ≡ settle_nack k d true (told w)
  unfolding handle_delivery
  handle_delivery-err w x e = rw (e, handle_delivery)

  settlements-after_claim :
      (tag : ℕ) (c : EventClaimResult) (w : World)
      → d.can_ack ≡ true
      → d.can_nack ≡ true
      → settlements tag (after_claim k d c w).trace
        ≡ (if eqb d.tag tag then 1 else 0) + settlements tag w.trace
  unfolding after_claim
  settlements-after_claim tag claimed w a n =
      ground (arith, a, n, settlements-process k d.event tag w)
  settlements-after_claim tag in_progress w a n = ground (arith, a, n)
  settlements-after_claim tag final w a n = ground (arith, a, n)
  settlements-after_claim tag missing w a n = ground (arith, a, n)

  -- The delivery's own tag is settled once more, and no other.
  pub settlements-handle_delivery :
      (tag : ℕ) (w : World)
      → d.can_ack ≡ true
      → d.can_nack ≡ true
      → settlements tag (handle_delivery k d w).trace
        ≡ (if eqb d.tag tag then 1 else 0) + settlements tag w.trace
  settlements-handle_delivery tag w a n = elim (Result-cases (claim w)) [
    | inl (x, e) ↦ rw (handle_delivery-err w x e) (ground (arith, a, n))
    | inr (c, e) ↦ rw (handle_delivery-ok w c e) (settlements-after_claim tag c (told w) a n)
  ]

  -- With both settlement functions present, handle_delivery settles its delivery exactly once, by
  -- an ack or a nack, on every path.
  handle_delivery_settles_once :
      (w : World)
      → d.can_ack ≡ true
      → d.can_nack ≡ true
      → settlements d.tag (handle_delivery k d w).trace ≡ suc (settlements d.tag w.trace)
  handle_delivery_settles_once w a n = ground (arith, settlements-handle_delivery d.tag w a n)

  ack-after_claim :
      (keeps : KeepsEvents k) (c : EventClaimResult) (w : World) (o : Option EventRow)
      (at cutoff : ℤ)
      → c ≡ claim_of_row o cutoff
      → row w ≡ row_after at o c
      → has_ack d.tag w.trace ≡ false
      → has_ack d.tag (after_claim k d c w).trace ≡ true
      → IsFinal (row (after_claim k d c w))
  unfolding after_claim
  ack-after_claim keeps claimed w none at cutoff e row_eq fresh acked = cc
  ack-after_claim keeps claimed w (some r) at cutoff e row_eq fresh acked =
      ground (
        arith,
        has_ack-process k d.event d.tag w,
        process-IsFinal k d.event keeps w (start_row at r),
      )
  ack-after_claim keeps final w none at cutoff e row_eq fresh acked = cc
  ack-after_claim keeps final w (some r) at cutoff e row_eq fresh acked = ground arith
  ack-after_claim keeps in_progress w o at cutoff e row_eq fresh acked = ground arith
  ack-after_claim keeps missing w o at cutoff e row_eq fresh acked = ground arith

  -- A worker's delivery that no ack has settled before: if handle_delivery acks it, the event's
  -- row is then processed or failed for good. The event ids are distinct, and the dead letter
  -- repository does not touch the events; the database may answer any call with an error, with or
  -- without its effect.
  pub handle_delivery_ack_sound :
      (w : World)
      → KeepsEvents k
      → Distinct event_key w.store.db.events
      → has_ack d.tag w.trace ≡ false
      → has_ack d.tag (handle_delivery k d w).trace ≡ true
      → IsFinal (find event_key d.event.id (handle_delivery k d w).store.db.events)
  handle_delivery_ack_sound w keeps valid fresh = elim (Result-cases (claim w)) [
    | inl (x, e) ↦ rw (handle_delivery-err w x e) (ground arith)
    | inr (c, e) ↦
        let l =
          claim_for_processing_lem k.env d.event.id (processing_lease k.config) w.store valid c e in
        rw (handle_delivery-ok w c e) (
          ack-after_claim keeps c (told w) (find event_key d.event.id w.store.db.events)
            (k.env.clock w.store.step) (k.env.clock w.store.step -ℤ processing_lease k.config) l.0
            l.1 fresh)
  ]
