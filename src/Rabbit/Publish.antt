-- ===== src/Rabbit/Publish.antt =====
-- The publisher of rabbitmq_queue.go: what an answer says, and which handles it leaves open.
use go_webhook_processor.Prelude.{
  ℕ, ◌+◌, ◌≡◌, refl, inl, inr, Option, none, some, List, [], ◌∷◌, arith, Option-cases,
}
use go_webhook_processor.Models.{Event}
use go_webhook_processor.Rabbit.{
  Broker, Publisher, sent, acknowledged, tick, invalidate_publisher, open_publisher,
  ensure_publisher, send_event, publish,
}

-- The handles that are open are the ones that the publisher holds.
abbrev pub held : Option ℕ → List ℕ
held none = []
held (some n) = n ∷ []

abbrev pub IsTight : Publisher → Type 0
IsTight q = ((q.conns ≡ held q.publish_conn) × (q.channels ≡ held q.publish_channel))

module _ (b : Broker) where
  invalidate_publisher-IsTight :
      (q : Publisher)
      → IsTight q
      → ((invalidate_publisher b q).conns ≡ []) × ((invalidate_publisher b q).channels ≡ [])
  unfolding invalidate_publisher
  invalidate_publisher-IsTight q t = elim (Option-cases q.publish_conn) [
    | inl no_conn ↦ elim (Option-cases q.publish_channel) [
      | inl no_channel ↦ ground (arith, t.0, t.1)
      | inr (n, channel) ↦ ground (arith, t.0, t.1)
    ]
    | inr (m, conn) ↦ elim (Option-cases q.publish_channel) [
      | inl no_channel ↦ ground (arith, t.0, t.1)
      | inr (n, channel) ↦ ground (arith, t.0, t.1)
    ]
  ]

  open_publisher-IsTight :
      (q : Publisher)
      → q.conns ≡ []
      → q.channels ≡ []
      → q.publish_conn ≡ none
      → q.publish_channel ≡ none
      → IsTight (open_publisher b q).1
  unfolding open_publisher
  open_publisher-IsTight q no_conns no_channels no_conn no_channel = ground arith

  ensure_publisher-IsTight : (q : Publisher) → IsTight q → IsTight (ensure_publisher b q).1
  unfolding ensure_publisher
  ensure_publisher-IsTight q t =
      let gone = invalidate_publisher-IsTight q t in
      ground (
        arith,
        gone.0,
        gone.1,
        t.0,
        t.1,
        open_publisher-IsTight (invalidate_publisher b q) gone.0 gone.1 refl refl,
      )

  send_event-IsTight :
      (event : Event) (q : Publisher) → IsTight q → IsTight (send_event b event q).1
  unfolding send_event
  send_event-IsTight event q t = ground (
    arith,
    invalidate_publisher-IsTight (tick q) t,
    invalidate_publisher-IsTight (tick (record q { handed_over = event ∷ q.handed_over })) t,
    invalidate_publisher-IsTight (tick (tick (record q { handed_over = event ∷ q.handed_over }))) t,
  )

  -- If the open handles of the RabbitMQ publisher are exactly the connection and the channel that
  -- it holds, this is so after a publish too, however the broker answers: no connection or
  -- channel is leaked.
  pub publish-IsTight : (event : Event) (q : Publisher) → IsTight q → IsTight (publish b event q).1
  unfolding publish
  publish-IsTight event q t =
      ground
        (arith, ensure_publisher-IsTight q t, send_event-IsTight event (ensure_publisher b q).1)

  open_publisher-log : (q : Publisher) → (open_publisher b q).1.handed_over ≡ q.handed_over
  unfolding open_publisher
  open_publisher-log q = ground arith

  ensure_publisher-log : (q : Publisher) → (ensure_publisher b q).1.handed_over ≡ q.handed_over
  unfolding ensure_publisher invalidate_publisher
  ensure_publisher-log q = ground (arith, open_publisher-log (invalidate_publisher b q))

  -- If publish answers without an error, the event has been handed over to the broker, once, and
  -- the broker has acknowledged it.
  pub publish_confirmed :
      (event : Event) (q : Publisher)
      → (publish b event q).0 ≡ none
      → (step : ℕ) × (b.send step event ≡ sent)
        × (b.wait (step + 1) event ≡ acknowledged)
        × ((publish b event q).1.handed_over ≡ event ∷ q.handed_over)
  unfolding publish
  publish_confirmed event q h = (
    (ensure_publisher b q).1.step,
    ground (arith, h),
    ground (arith, h),
    ground (arith, h, ensure_publisher-log q),
  )
