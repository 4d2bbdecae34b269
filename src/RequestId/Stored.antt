-- ===== src/RequestId/Stored.antt =====
-- The request id of an accepted event, through the middleware and the handler.
use go_webhook_processor.Prelude.{
  ℕ, ◌+◌, String, ◌≡◌, ◌≢◌, refl, ◌⊎◌, Option, none, some, List, [], ◌∷◌, arith, inl, inr, ◌==◌,
  eq_iff, Bool-cases, eq_refl, length,
}
use text.Mathlib.TextLemmas.{cons≢nil}
use go_webhook_processor.Prelude.Table.{find, find-append_new}
use go_webhook_processor.Store.Events.{queued_row}
use go_webhook_processor.World.{World}
use go_webhook_processor.Models.{Event}
use go_webhook_processor.Http.{Request}
use go_webhook_processor.Text.Hex.{hex_encode}
use go_webhook_processor.Store.Schema.{EventRow, event_key}
use go_webhook_processor.Store.Monad.{Env}
use go_webhook_processor.Handlers.{App, create_event_handler}
use go_webhook_processor.Handlers.Create.{create_event_handler-Answers}
use go_webhook_processor.RequestId.{new_request_id, choose_request_id, request_id_middleware}

hex_encode-filled : (bytes : List ℕ) → length bytes ≡ 16 → hex_encode bytes ≢ ""
unfolding hex_encode
hex_encode-filled [] h e = omega (arith, h)
hex_encode-filled (b ∷ bytes) h e = cons≢nil e

module _ (env : Env) (r : Request) (w : World)
    (sixteen : (n : ℕ) (bytes : List ℕ) → env.random n ≡ some bytes → length bytes ≡ 16) where
  new-filled : (o : Option (List ℕ)) → env.random w.store.step ≡ o → (new_request_id env w).0 ≢ ""
  unfolding new_request_id
  new-filled none e = rw e (λ h. cons≢nil h)
  new-filled (some bytes) e = rw e (hex_encode-filled bytes (sixteen w.store.step bytes e))

  chosen_request_id :
      let (request_id, w1) = choose_request_id env r w in
      (request_id ≢ "") × ((r.x_request_id ≡ "") ⊎ (request_id ≡ r.x_request_id))
  unfolding choose_request_id
  chosen_request_id = elim (Bool-cases (r.x_request_id == "")) [
    | inl blank ↦ (
      rw blank (new-filled (env.random w.store.step) refl),
      inl ((eq_iff r.x_request_id "").0 blank),
    )
    | inr named ↦ (rw named (λ h. ground (arith, eq_iff r.x_request_id "")), inr (rw named refl))
  ]

-- If the random source answers with 16 bytes or an error, the body is decodable and its payload
-- encodes: when the acceptance of an event under the request id middleware answers 202, the
-- answer's request id is not empty, it is the client's if the client sent one, and it is the one
-- stored with the event.
pub accepted_request_id :
    (app : App) (r : Request) (w : World) (event : Event) (payload : String)
    → ((n : ℕ) (bytes : List ℕ) → app.env.random n ≡ some bytes → length bytes ≡ 16)
    → r.body ≡ some event
    → app.env.marshal event.payload ≡ some payload
    → let (served, w1) = request_id_middleware app.env (create_event_handler app) r w in
      served.response.status ≡ 202
      → (served.request_id ≢ "")
        × ((r.x_request_id ≡ "") ⊎ (served.request_id ≡ r.x_request_id))
        × (row : EventRow) × (find event_key event.id w1.store.db.events ≡ some row)
        × (row.request_id ≡ served.request_id)
unfolding request_id_middleware
accepted_request_id app r w event payload sixteen b m a =
    let (request_id, w1) = choose_request_id app.env r w in
    let (filled, chosen) = chosen_request_id app.env r w sixteen in
    elim (create_event_handler-Answers app (record r { x_request_id = request_id }) w1 event payload
      b m) [
        | inl (status, new, stored) ↦ (
          filled,
          chosen,
          queued_row (record event { request_id = request_id }) payload
              (app.env.clock (w1.store.step + 1)),
          ground (
            arith,
            new,
            stored.events,
            eq_refl event.id,
            find-append_new event_key event.id
                (queued_row (record event { request_id = request_id }) payload
                  (app.env.clock (w1.store.step + 1)))
                w1.store.db.events new,
          ),
          refl,
        )
        | inr (inl (status, old, same)) ↦ absurd (omega (arith, a, status))
        | inr (inr (inl (status, same))) ↦ absurd (omega (arith, a, status))
        | inr (inr (inr (status, same))) ↦ absurd (omega (arith, a, status))
      ]
