-- ===== src/Rabbit/Handles.antt =====
-- The connections and channels of rabbitmq_queue.go, over the life of the queue.
use go_webhook_processor.Prelude.{
  true, Bool, ap, subst, sym, if◌then◌else◌, ℕ, ◌+◌, String, ◌≡◌, ◌⊎◌, is_some, false, Option, none,
  List, [], ◌∷◌, arith, Option-cases, inl, inr, if◌then◌else◌,
}
use go_webhook_processor.Models.{Event}
use go_webhook_processor.Rabbit.{Broker, Publisher, publish}
use go_webhook_processor.Rabbit.Publish.{held, IsTight, publish-IsTight}
use go_webhook_processor.Rabbit.Consume.{
  Consumer, Attempt, open_consumer, session, consume_loop, RabbitMqEventQueue, stop_consuming,
  release, close,
}

-- Nothing is open, and nothing is held: the consumer between two connections.
pub record IsIdle (q : Consumer) : Type 0 where
  pub conns : q.conns ≡ []
  pub channels : q.channels ≡ []
  pub consumer_conn : q.consumer_conn ≡ none
  pub consumer_channel : q.consumer_channel ≡ none

abbrev pub HoldsAll : Consumer → Type 0
HoldsAll q = (q.conns ≡ held q.consumer_conn) × (q.channels ≡ held q.consumer_channel)

HoldsAll-IsIdle : (q : Consumer) → IsIdle q → HoldsAll q
HoldsAll-IsIdle q i = ground (arith, i.conns, i.channels, i.consumer_conn, i.consumer_channel)

-- No connection and no channel is open.
abbrev pub AllClosed : RabbitMqEventQueue → Type 0
AllClosed q =
    (q.publisher.conns ≡ [])
    × (q.publisher.channels ≡ [])
    × (q.consumer.conns ≡ [])
    × (q.consumer.channels ≡ [])

-- What is held is closed.
release-empty :
    (b : Broker) (unmarshal : String → Option Event) (q : RabbitMqEventQueue)
    → IsTight q.publisher
    → HoldsAll q.consumer
    → AllClosed (release b unmarshal q)
unfolding release
release-empty b unmarshal q (p_conns, p_channels) (c_conns, c_channels) =
    ground (arith, p_conns, p_channels, c_conns, c_channels)

module _ (b : Broker) (unmarshal : String → Option Event) where
  -- A connection that is not set up is closed; one that is has its two handles open.
  open_consumer-open :
      (q : Consumer)
      → IsIdle q
      → let (error, q1) = open_consumer b unmarshal q in
        (q1.consumer_conn ≡ none)
        × (q1.consumer_channel ≡ none)
        × (q1.conns ≡ (if is_some error then [] else q.fresh ∷ []))
        × (q1.channels ≡ (if is_some error then [] else (q.fresh + 1) ∷ []))
  unfolding open_consumer
  open_consumer-open q i = ground (arith, i.conns, i.channels, i.consumer_conn, i.consumer_channel)

  -- A session that goes on has closed its handles; one that ends the loop may hold them.
  session-HoldsAll :
      (conn channel : ℕ) (a : Attempt) (q : Consumer)
      → q.conns ≡ conn ∷ []
      → q.channels ≡ channel ∷ []
      → let (goes_on, q2) = session b unmarshal conn channel a q in
        HoldsAll q2 × ((goes_on ≡ false) ⊎ IsIdle q2)
  unfolding session
  session-HoldsAll conn channel a q c d = ground (arith, c, d)

  consume_loop-HoldsAll :
      (attempts : List Attempt) (q : Consumer)
      → IsIdle q
      → HoldsAll (consume_loop b unmarshal attempts q)
  unfolding consume_loop
  consume_loop-HoldsAll [] q i = HoldsAll-IsIdle q i
  consume_loop-HoldsAll (a ∷ attempts) q i =
      let q1 = (open_consumer b unmarshal q).1 in
      let q2 = (session b unmarshal q.fresh (q.fresh + 1) a q1).1 in
      let (no_conn, no_channel, conns, channels) = open_consumer-open q i in
      let start = HoldsAll-IsIdle q i in
      elim (Option-cases (open_consumer b unmarshal q).0) [
        | inr (e, failed) ↦
            let idle : IsIdle q1 = record {
              conns = ground (arith, conns, failed);
              channels = ground (arith, channels, failed);
              consumer_conn = no_conn;
              consumer_channel = no_channel;
            } in
            ground (
              arith,
              start,
              failed,
              HoldsAll-IsIdle q1 idle,
              consume_loop-HoldsAll attempts q1 idle,
            )
        | inl opened ↦
            let (holds, ends) =
              session-HoldsAll q.fresh (q.fresh + 1) a q1 (ground (arith, conns, opened))
                (ground (arith, channels, opened)) in
            elim ends [
              | inl ended ↦ ground (arith, start, opened, ended, holds)
              | inr idle ↦
                  ground (arith, start, opened, holds, consume_loop-HoldsAll attempts q2 idle)
            ]
      ]

  -- The publisher's work over a list of events.
  abbrev pub publish_all : List Event → Publisher → Publisher
  publish_all [] p = p
  publish_all (event ∷ events) p = publish_all events (publish b event p).1

  publish_all-IsTight :
      (events : List Event) (p : Publisher) → IsTight p → IsTight (publish_all events p)
  publish_all-IsTight [] p t = t
  publish_all-IsTight (event ∷ events) p t =
      publish_all-IsTight events (publish b event p).1 (publish-IsTight b event p t)

  -- For a queue that is not closed, whose publisher holds exactly its open handles and whose
  -- consumer holds none: after any publishes and any rounds of the consumer's loop, with the
  stop-HoldsAll :
      (attempts : List Attempt) (q : RabbitMqEventQueue)
      → IsIdle q.consumer ⊎ (HoldsAll q.consumer × (q.is_stopped ≡ true))
      → HoldsAll (stop_consuming b unmarshal attempts q).consumer
  unfolding stop_consuming
  stop-HoldsAll attempts q (inl idle) =
      ground
        (arith, HoldsAll-IsIdle q.consumer idle, consume_loop-HoldsAll attempts q.consumer idle)
  stop-HoldsAll attempts q (inr (holds, stopped)) = ground (arith, holds, stopped)

  stop-publisher :
      (attempts : List Attempt) (q : RabbitMqEventQueue)
      → (stop_consuming b unmarshal attempts q).publisher ≡ q.publisher
  unfolding stop_consuming
  stop-publisher attempts q = ground arith

  close-empty :
      (attempts : List Attempt) (q : RabbitMqEventQueue)
      → q.is_closed ≡ false
      → IsTight q.publisher
      → IsIdle q.consumer ⊎ (HoldsAll q.consumer × (q.is_stopped ≡ true))
      → AllClosed (close b unmarshal attempts q)
  unfolding close
  close-empty attempts q fresh tight consumer =
      let stopped = stop_consuming b unmarshal attempts q in
      subst AllClosed {x = release b unmarshal stopped} {y = close b unmarshal attempts q}
        (ap (λ c. if c then q else release b unmarshal stopped) (sym fresh))
        (release-empty b unmarshal stopped
          (subst IsTight {x = q.publisher} {y = stopped.publisher} (sym (stop-publisher attempts q))
            tight)
          (stop-HoldsAll attempts q consumer))

  -- For a queue that is neither stopped nor closed, whose publisher holds exactly its open
  -- handles and whose consumer holds none: after any publishes, with or without a StopConsuming
  -- first, and any rounds of the consumer's loop, with the broker answering as it likes, Close
  -- leaves no connection and no channel open.
  pub close_releases :
      (stops_first : Bool) (attempts later : List Attempt) (events : List Event)
      (q : RabbitMqEventQueue)
      → q.is_stopped ≡ false
      → q.is_closed ≡ false
      → IsTight q.publisher
      → IsIdle q.consumer
      → let published = record q { publisher = publish_all events q.publisher } in
        let stopped =
          if stops_first then stop_consuming b unmarshal attempts published else published in
        AllClosed (close b unmarshal later stopped)
  unfolding stop_consuming
  close_releases true attempts later events q running fresh tight idle =
      let published = record q { publisher = publish_all events q.publisher } in
      let stopped = stop_consuming b unmarshal attempts published in
      close-empty later stopped (ground (arith, running, fresh))
        (subst IsTight {x = published.publisher} {y = stopped.publisher}
          (sym (stop-publisher attempts published)) (publish_all-IsTight events q.publisher tight))
        (inr (stop-HoldsAll attempts published (inl idle), ground (arith, running)))
  close_releases false attempts later events q running fresh tight idle =
      close-empty later (record q { publisher = publish_all events q.publisher }) fresh
        (publish_all-IsTight events q.publisher tight) (inl idle)
