-- ===== src/Worker/Deliveries.antt =====
-- A delivery from the broker's channel, through forwardDeliveries of rabbitmq_queue.go and a worker of
-- worker.go, to its settlement.
use go_webhook_processor.Prelude.{
  ℕ, ◌+◌, String, ◌≡◌, refl, true, false, Option, none, some, List, [], ◌∷◌, ◌++◌, All, arith, eqb,
  Option-cases, inl, inr, if◌then◌else◌,
}
use go_webhook_processor.Models.{Event}
use go_webhook_processor.Queue.{EventDelivery, nack}
use go_webhook_processor.World.{World}
use go_webhook_processor.Rabbit.Forward.{
  Round, cancelled, closed, got, Forwarded, forward_deliveries,
}
use go_webhook_processor.Worker.{Worker, handle_delivery, worker}
use go_webhook_processor.Worker.Retry.{settlements}
use go_webhook_processor.Worker.Settle.{settlements-handle_delivery}

abbrev pub one_if : ℕ → ℕ → ℕ
one_if n tag = if eqb n tag then 1 else 0

abbrev pub CanSettle : EventDelivery → Type 0
CanSettle d = (d.can_ack ≡ true) × (d.can_nack ≡ true)

-- How often the deliveries of a list have a tag.
abbrev pub tagged : ℕ → List EventDelivery → ℕ
tagged tag [] = 0
tagged tag (d ∷ deliveries) = one_if d.tag tag + tagged tag deliveries

module _ (k : Worker) (tag : ℕ) where
  settled-worker :
      (deliveries : List EventDelivery) (w : World)
      → All CanSettle deliveries
      → settlements tag (worker k deliveries w).trace
        ≡ tagged tag deliveries + settlements tag w.trace
  unfolding worker
  settled-worker [] w a = ground arith
  settled-worker (d ∷ deliveries) w (s, a) = ground (
    arith,
    settled-worker deliveries (handle_delivery k d w) a,
    settlements-handle_delivery k d tag w s.0 s.1,
  )

module _ (unmarshal : String → Option Event) (tag : ℕ) where
  -- How often the loop of forwardDeliveries has taken a delivery of the tag when it stops.
  abbrev pub taken : List Round → ℕ
  taken [] = 0
  taken (cancelled ∷ rounds) = 0
  taken (closed ∷ rounds) = 0
  taken (got d accepted ∷ rounds) = one_if d.tag tag + (elim (unmarshal d.body) [
    | none ↦ taken rounds
    | some event ↦ if accepted then taken rounds else 0
  ])

  tagged-append :
      (ds : List EventDelivery) (d : EventDelivery)
      → tagged tag (ds ++ d ∷ []) ≡ tagged tag ds + one_if d.tag tag
  tagged-append [] d = ground arith
  tagged-append (c ∷ ds) d = ground (arith, tagged-append ds d)

  CanSettle-append :
      (ds : List EventDelivery) (d : EventDelivery)
      → All CanSettle ds
      → CanSettle d
      → All CanSettle (ds ++ d ∷ [])
  CanSettle-append [] d a s = (s, tt)
  CanSettle-append (c ∷ ds) d a s = (a.0, CanSettle-append ds d a.1 s)

  -- A delivery that the loop takes is sent on to the workers, or refused.
  forward_deliveries-taken :
      (rounds : List Round) (f : Forwarded)
      → All CanSettle f.events
      → let (returned, f') = forward_deliveries unmarshal rounds f in
        (tagged tag f'.events + settlements tag f'.trace
          ≡ taken rounds + (tagged tag f.events + settlements tag f.trace))
        × All CanSettle f'.events
  unfolding forward_deliveries
  forward_deliveries-taken [] f a = (ground arith, a)
  forward_deliveries-taken (cancelled ∷ rounds) f a = (ground arith, a)
  forward_deliveries-taken (closed ∷ rounds) f a = (ground arith, a)
  forward_deliveries-taken (got d accepted ∷ rounds) f a = elim (Option-cases (unmarshal d.body)) [
    | inl invalid ↦ ground (
      arith,
      invalid,
      forward_deliveries-taken rounds (record f { trace = nack d.tag false ∷ f.trace }) a,
    )
    | inr (event, valid) ↦
        let delivery : EventDelivery = record {
          event = event;
          tag = d.tag;
          can_ack = true;
          can_nack = true;
        } in
        ground (
          arith,
          valid,
          a,
          tagged-append f.events delivery,
          forward_deliveries-taken rounds (record f { events = f.events ++ delivery ∷ [] })
              (CanSettle-append f.events delivery a (refl, refl)),
        )
  ]

-- When forwardDeliveries has run over any rounds and a worker over the deliveries that it sent
-- on, each delivery tag has been acknowledged or refused as often as the loop took a delivery of
-- that tag, in addition to the settlements from before.
pub deliveries_settled_once :
    (k : Worker) (unmarshal : String → Option Event) (rounds : List Round) (w : World) (tag : ℕ)
    → let (returned, f) =
        forward_deliveries unmarshal rounds (record { events = []; trace = w.trace }) in
      settlements tag (worker k f.events (record w { trace = f.trace })).trace
      ≡ taken unmarshal tag rounds + settlements tag w.trace
deliveries_settled_once k unmarshal rounds w tag =
    let start : Forwarded = record { events = []; trace = w.trace } in
    let f = (forward_deliveries unmarshal rounds start).1 in
    let (counts, can) = forward_deliveries-taken unmarshal tag rounds start tt in
    ground (arith, counts, settled-worker k tag f.events (record w { trace = f.trace }) can)
