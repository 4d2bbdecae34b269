-- ===== src/Rabbit/Forward.antt =====
-- forwardDeliveries of rabbitmq_queue.go: deliveries of the broker become deliveries for the workers.
use go_webhook_processor.Prelude.{
  ℕ, String, Bool, true, false, Option, none, some, List, [], ◌∷◌, ◌++◌, if◌then◌else◌,
}
use go_webhook_processor.Models.{Event}
use go_webhook_processor.Queue.{EventDelivery, Action, nack}

-- `amqp.Delivery`: its tag, and the body, which json.Unmarshal decodes or refuses.
pub record Incoming : Type 0 where
  pub tag : ℕ
  pub body : String

-- One round of the loop: the context ends, the broker's channel is closed, or a delivery comes. Then
-- it goes to the workers, unless the context ends first.
pub data Round : Type 0 where
  cancelled : Round
  closed : Round
  got : Incoming → Bool → Round

-- What the loop has done: the deliveries sent to the workers, in order, and its requests of the broker.
pub record Forwarded : Type 0 where
  pub events : List EventDelivery
  pub trace : List Action

module _ (unmarshal : String → Option Event) where
  abbrev event_delivery : ℕ → Event → EventDelivery
  event_delivery tag event = record { event = event; tag = tag; can_ack = true; can_nack = true }

  abbrev refuse : ℕ → Bool → Forwarded → Forwarded
  refuse tag requeue f = record f { trace = nack tag requeue ∷ f.trace }

  -- The Boolean says that the loop has returned; without more rounds it waits.
  unfoldable pub forward_deliveries : List Round → Forwarded → Bool × Forwarded
  forward_deliveries [] f = (false, f)
  forward_deliveries (cancelled ∷ rounds) f = (true, f)
  forward_deliveries (closed ∷ rounds) f = (true, f)
  forward_deliveries (got d accepted ∷ rounds) f =
      let invalid = forward_deliveries rounds (refuse d.tag false f) in
      elim (unmarshal d.body) [
        | none ↦ invalid
        | some event ↦
            let sent = record f { events = f.events ++ event_delivery d.tag event ∷ [] } in
            let valid = forward_deliveries rounds sent in
            if accepted then valid else (true, refuse d.tag true f)
      ]
