-- ===== src/Rabbit/Consume.antt =====
-- The consumer of rabbitmq_queue.go: its connection, its loop, and the closing of the queue.
use Prim.Native.String.{◌++◌ as append}
use go_webhook_processor.Prelude.Int.{ℤ, pos}
use go_webhook_processor.Prelude.{
  length, ◌-◌, ℕ, ◌+◌, String, Bool, true, false, Option, none, some, List, [], ◌∷◌, eqb,
  if◌then◌else◌,
}
use go_webhook_processor.Models.{Event}
use go_webhook_processor.Queue.{QueueStats}
use go_webhook_processor.Rabbit.{
  Broker, Publisher, without, dial, declare_rabbitmq_queue, close_channel, close_connection,
}
use go_webhook_processor.Rabbit.Forward.{Round, Forwarded, forward_deliveries}

-- The consumer's part of RabbitMQEventQueue, with the handles that it has opened and not closed.
pub record Consumer : Type 0 where
  pub consumer_conn : Option ℕ
  pub consumer_channel : Option ℕ
  pub conns : List ℕ
  pub channels : List ℕ
  pub fresh : ℕ
  pub step : ℕ
  pub forwarded : Forwarded
  pub events_closed : Bool

-- One round of consumeLoop: whether the context has ended before the connection and after the
-- forwarding, what the deliveries were, and whether the wait for a retry comes to its end.
pub record Attempt : Type 0 where
  pub cancelled_before : Bool
  pub rounds : List Round
  pub cancelled_after : Bool
  pub waits : Bool

abbrev tick : Consumer → Consumer
tick q = record q { step = q.step + 1 }

abbrev pub same_handle : Option ℕ → ℕ → Bool
same_handle none n = false
same_handle (some m) n = eqb m n

abbrev pub set_consumer : ℕ → ℕ → Consumer → Consumer
set_consumer conn channel q = record q {
  consumer_conn = some conn;
  consumer_channel = some channel;
}

abbrev pub clear_consumer : ℕ → ℕ → Consumer → Consumer
clear_consumer conn channel q = record q {
  consumer_conn = if same_handle q.consumer_conn conn then none else q.consumer_conn;
  consumer_channel = if same_handle q.consumer_channel channel then none else q.consumer_channel;
}

abbrev drop_handles : ℕ → ℕ → Consumer → Consumer
drop_handles conn channel q = record q {
  conns = without conn q.conns;
  channels = without channel q.channels;
}

abbrev stop : Consumer → Consumer
stop q = record q { events_closed = true }

module _ (b : Broker) (unmarshal : String → Option Event) where
  abbrev context : String → String → Option String
  context text e = some (append text (append ": " e))

  -- The error, if any; on success the new connection is `q.fresh` and its channel the next number.
  unfoldable pub open_consumer : Consumer → Option String × Consumer
  open_consumer q =
      let conn = q.fresh in
      let channel = q.fresh + 1 in
      let q1 = tick (record q { conns = conn ∷ q.conns; fresh = q.fresh + 2 }) in
      let q2 = tick (record q1 { channels = channel ∷ q1.channels }) in
      let q3 = tick q2 in
      let q4 = tick q3 in
      elim (dial b q.step) [
        | some e ↦ (some e, tick q)
        | none ↦ elim (b.open_channel q1.step) [
          | some e ↦ (
            context "open RabbitMQ consumer channel" e,
            record q1 { conns = without conn q1.conns },
          )
          | none ↦ elim (declare_rabbitmq_queue b q2.step) [
            | some e ↦ (some e, drop_handles conn channel q2)
            | none ↦ elim (b.qos q3.step) [
              | some e ↦ (context "configure RabbitMQ prefetch" e, drop_handles conn channel q3)
              | none ↦ elim (b.consume q4.step) [
                | some e ↦ (context "start RabbitMQ consumer" e, drop_handles conn channel q4)
                | none ↦ (none, q4)
              ]
            ]
          ]
        ]
      ]

  -- The part of the loop after a connection: the handles are `conn` and `channel`. The Boolean says
  -- that the loop goes on.
  unfoldable pub session : ℕ → ℕ → Attempt → Consumer → Bool × Consumer
  session conn channel a q =
      let (returned, forwarded) = forward_deliveries unmarshal a.rounds q.forwarded in
      let q1 = record (set_consumer conn channel q) { forwarded = forwarded } in
      let q2 = drop_handles conn channel (clear_consumer conn channel q1) in
      if returned
      then if a.cancelled_after
        then (false, stop q1)
        else if a.waits
        then (true, q2)
        else (false, stop q2)
      else (false, q1)

  -- `for queue.consumeContext.Err() == nil`; without more rounds the loop is still running.
  unfoldable pub consume_loop : List Attempt → Consumer → Consumer
  consume_loop [] q = q
  consume_loop (a ∷ attempts) q =
      let (error, q1) = open_consumer q in
      let (goes_on, q2) = session q.fresh (q.fresh + 1) a q1 in
      let after_error = consume_loop attempts q1 in
      let after_session = consume_loop attempts q2 in
      if a.cancelled_before then stop q else elim error [
        | some e ↦ if a.waits then after_error else stop q1
        | none ↦ if goes_on then after_session else q2
      ]

-- RabbitMQEventQueue, its two parts, and what stopOnce and closeOnce have seen.
pub record RabbitMqEventQueue : Type 0 where
  pub publisher : Publisher
  pub consumer : Consumer
  pub is_stopped : Bool
  pub is_closed : Bool

-- OpenRabbitMQEventQueue: nothing is open yet, and the consumer's loop starts. The configuration's
-- address, name and timeouts are the broker's.
abbrev pub open_rabbitmq_event_queue : RabbitMqEventQueue
open_rabbitmq_event_queue = record {
  publisher = record {
    publish_conn = none;
    publish_channel = none;
    conns = [];
    channels = [];
    fresh = 0;
    step = 0;
    handed_over = [];
  };
  consumer = record {
    consumer_conn = none;
    consumer_channel = none;
    conns = [];
    channels = [];
    fresh = 0;
    step = 0;
    forwarded = record { events = []; trace = [] };
    events_closed = false;
  };
  is_stopped = false;
  is_closed = false;
}

-- Stats of the channel from which the workers have taken a number of the deliveries sent to it.
abbrev pub stats : ℤ → ℕ → RabbitMqEventQueue → QueueStats
stats queue_size taken q = record {
  length = pos (length q.consumer.forwarded.events - taken);
  capacity = queue_size;
}

abbrev close_handles : Option ℕ → List ℕ → List ℕ
close_handles none open_handles = open_handles
close_handles (some n) open_handles = without n open_handles

module _ (b : Broker) (unmarshal : String → Option Event) where
  -- StopConsuming waits for the consumer's loop, which has run since the opening; `attempts` are its
  -- rounds until the end of its context.
  unfoldable pub stop_consuming : List Attempt → RabbitMqEventQueue → RabbitMqEventQueue
  stop_consuming attempts q =
      let consumer = consume_loop b unmarshal attempts q.consumer in
      if q.is_stopped then q else record q { consumer = consumer; is_stopped = true }

  -- The handles that Close takes over and closes.
  unfoldable pub release : RabbitMqEventQueue → RabbitMqEventQueue
  release q =
      let c = q.consumer in
      let p = q.publisher in
      let p' = close_connection b p.publish_conn (close_channel b p.publish_channel p) in
      record q {
        publisher = record p' { publish_conn = none; publish_channel = none };
        consumer = record c {
          consumer_conn = none;
          consumer_channel = none;
          conns = close_handles c.consumer_conn c.conns;
          channels = close_handles c.consumer_channel c.channels;
        };
        is_closed = true;
      }

  unfoldable pub close : List Attempt → RabbitMqEventQueue → RabbitMqEventQueue
  unfolding stop_consuming release
  close attempts q = if q.is_closed then q else release (stop_consuming attempts q)
