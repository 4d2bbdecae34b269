-- ===== src/Rabbit.antt =====
-- rabbitmq_queue.go: the publisher's connection and channel, which are opened when they are needed
-- and dropped on an error.
pub mod Publish
pub mod Forward
pub mod Consume
pub mod Handles
use go_webhook_processor.Prelude.{
  ℕ, ◌+◌, String, Bool, true, false, not, ◌&&◌, ◌||◌, Option, none, some, List, [], ◌∷◌, filter,
  eqb, is_some, if◌then◌else◌,
}
use Prim.Native.String.{◌++◌ as append}
use go_webhook_processor.Models.{Event}

-- What PublishWithDeferredConfirmWithContext and WaitContext make of a message.
pub data Sent : Type 0 where
  unsent : String → Sent
  no_confirmation : Sent
  sent : Sent

pub data Waited : Type 0 where
  interrupted : String → Waited
  acknowledged rejected : Waited

-- The broker and the network, which answer each call as they like: nil or an error text.
pub record Broker : Type 0 where
  pub quoted_name : String  -- the queue's name, as %q prints it
  pub marshal : Event → Option String  -- the error of json.Marshal
  pub dial : ℕ → Option String
  pub open_channel : ℕ → Option String
  pub declare : ℕ → Option String
  pub confirm_mode : ℕ → Option String
  pub qos : ℕ → Option String
  pub consume : ℕ → Option String
  pub send : ℕ → Event → Sent
  pub wait : ℕ → Event → Waited
  pub lost_connection : ℕ → ℕ → Bool  -- closed by the peer or the network, at a moment
  pub lost_channel : ℕ → ℕ → Bool

-- The publisher's part of RabbitMQEventQueue, with the handles that it has opened and not closed.
-- A handle is a number, and `fresh` the next one; the log has the events that were handed over.
pub record Publisher : Type 0 where
  pub publish_conn : Option ℕ
  pub publish_channel : Option ℕ
  pub conns : List ℕ
  pub channels : List ℕ
  pub fresh : ℕ
  pub step : ℕ
  pub handed_over : List Event

abbrev pub tick : Publisher → Publisher
tick q = record q { step = q.step + 1 }

abbrev pub without : ℕ → List ℕ → List ℕ
without n xs = filter (λ x. not (eqb x n)) xs

abbrev pub drop_conn : ℕ → Publisher → Publisher
drop_conn n q = record q { conns = without n q.conns }

abbrev pub drop_channel : ℕ → Publisher → Publisher
drop_channel n q = record q { channels = without n q.channels }

module _ (b : Broker) where
  abbrev pub dial : ℕ → Option String
  dial n = elim (b.dial n) [ none ↦ none | some e ↦ some (append "connect RabbitMQ: " e) ]

  abbrev pub declare_rabbitmq_queue : ℕ → Option String
  declare_rabbitmq_queue n = elim (b.declare n) [
    | none ↦ none
    | some e ↦ some (append "declare RabbitMQ queue " (append b.quoted_name (append ": " e)))
  ]

  -- closeAMQPChannel and closeAMQPConnection: a handle that is closed already is left alone, and
  -- counts as closed.
  abbrev pub close_channel : Option ℕ → Publisher → Publisher
  close_channel none q = q
  close_channel (some n) q = drop_channel n q

  abbrev pub close_connection : Option ℕ → Publisher → Publisher
  close_connection none q = q
  close_connection (some n) q = drop_conn n q

  unfoldable pub invalidate_publisher : Publisher → Publisher
  invalidate_publisher q =
      let q' = close_connection q.publish_conn (close_channel q.publish_channel q) in
      record q' { publish_conn = none; publish_channel = none }

  abbrev pub is_open_connection : Publisher → Option ℕ → Bool
  is_open_connection q none = false
  is_open_connection q (some n) = not (b.lost_connection q.step n)

  abbrev pub is_open_channel : Publisher → Option ℕ → Bool
  is_open_channel q none = false
  is_open_channel q (some n) = not (b.lost_channel q.step n)

  -- The part of ensurePublisherLocked after a connection has been opened.
  unfoldable pub open_publisher : Publisher → Option String × Publisher
  open_publisher q =
      let conn = q.fresh in
      let channel = q.fresh + 1 in
      let q1 = tick (record q { conns = conn ∷ q.conns; fresh = q.fresh + 2 }) in
      let q2 = tick (record q1 { channels = channel ∷ q1.channels }) in
      let q3 = tick q2 in
      elim (b.open_channel q1.step) [
        | some e ↦ (some (append "open RabbitMQ publisher channel: " e), drop_conn conn q1)
        | none ↦ elim (declare_rabbitmq_queue q2.step) [
          | some e ↦ (some e, drop_conn conn (drop_channel channel q2))
          | none ↦ elim (b.confirm_mode q3.step) [
            | some e ↦ (
              some (append "enable RabbitMQ publisher confirms: " e),
              drop_conn conn (drop_channel channel q3),
            )
            | none ↦ (none, record q3 { publish_conn = some conn; publish_channel = some channel })
          ]
        ]
      ]

  unfoldable pub ensure_publisher : Publisher → Option String × Publisher
  unfolding invalidate_publisher open_publisher
  ensure_publisher q =
      let q' = invalidate_publisher q in
      if is_open_connection q q.publish_conn && is_open_channel q q.publish_channel
      then (none, q)
      else elim (dial q'.step) [
        | some e ↦ (some (append "connect RabbitMQ publisher: " e), tick q')
        | none ↦ open_publisher q'
      ]

  -- The part of publish after ensurePublisherLocked.
  unfoldable pub send_event : Event → Publisher → Option String × Publisher
  unfolding invalidate_publisher
  send_event event q =
      let q' = tick (record q { handed_over = event ∷ q.handed_over }) in
      elim (b.send q.step event) [
        | unsent e ↦ (some (append "publish RabbitMQ event: " e), invalidate_publisher (tick q))
        | no_confirmation ↦
            (some "RabbitMQ publisher confirmation is unavailable", invalidate_publisher q')
        | sent ↦ elim (b.wait q'.step event) [
          | interrupted e ↦ (
            some (append "wait for RabbitMQ publisher confirmation: " e),
            invalidate_publisher (tick q'),
          )
          | acknowledged ↦ (none, tick q')
          | rejected ↦ (some "RabbitMQ rejected published event", tick q')
        ]
      ]

  unfoldable pub publish : Event → Publisher → Option String × Publisher
  unfolding ensure_publisher send_event
  publish event q =
      let (error, q') = ensure_publisher q in
      elim (b.marshal event) [
        | some e ↦ (some (append "marshal RabbitMQ event: " e), q)
        | none ↦ elim error [ some e ↦ (some e, q') | none ↦ send_event event q' ]
      ]
