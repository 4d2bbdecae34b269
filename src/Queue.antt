-- ===== src/Queue.antt =====
-- queue.go: a delivery, with the functions by which it is settled, which may be nil.
use go_webhook_processor.Prelude.{ℕ, Bool, List, ◌∷◌, if◌then◌else◌}
use go_webhook_processor.Prelude.Int.{ℤ}
use go_webhook_processor.Models.{Event}

pub record QueueStats : Type 0 where
  pub length : ℤ
  pub capacity : ℤ

-- `can_ack` and `can_nack` say that the function is not nil.
pub record EventDelivery : Type 0 where
  pub event : Event
  pub tag : ℕ
  pub can_ack : Bool
  pub can_nack : Bool

-- What the program asks of the broker and of the timer, the last request first.
pub data Action : Type 0 where
  ack : ℕ → Action
  nack : ℕ → Bool → Action
  sleep : ℤ → Action
  run : ℕ → Event → Action
  publish : Event → Action

abbrev pub ack_delivery : EventDelivery → List Action → List Action
ack_delivery d trace = if d.can_ack then ack d.tag ∷ trace else trace

abbrev pub nack_delivery : EventDelivery → Bool → List Action → List Action
nack_delivery d requeue trace = if d.can_nack then nack d.tag requeue ∷ trace else trace
