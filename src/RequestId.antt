-- ===== src/RequestId.antt =====
-- request_id.go: the id of a request, which the middleware gives to the handler and the client.
pub mod Stored
use go_webhook_processor.Prelude.{ℕ, String, Option, none, some, ◌==◌, if◌then◌else◌}
use go_webhook_processor.World.{World}
use go_webhook_processor.Http.{Request, Response}
use go_webhook_processor.Store.Monad.{Env, next}
use go_webhook_processor.Text.Hex.{hex_encode}

-- An answer with its header X-Request-ID.
pub record Served : Type 0 where
  pub request_id : String
  pub response : Response

module _ (env : Env) where
  -- One reading of the random source.
  unfoldable pub new_request_id : World → String × World
  new_request_id w = (
    elim (env.random w.store.step) [ none ↦ "request-unknown" | some bytes ↦ hex_encode bytes ],
    record w { store = next w.store },
  )

  -- The header of the client, or a new id.
  unfoldable pub choose_request_id : Request → World → String × World
  unfolding new_request_id
  choose_request_id r w = if r.x_request_id == "" then new_request_id w else (r.x_request_id, w)

  unfoldable pub request_id_middleware :
      (Request → World → Response × World) → Request → World → Served × World
  request_id_middleware next_handler r w =
      let (request_id, w1) = choose_request_id r w in
      let (response, w2) = next_handler (record r { x_request_id = request_id }) w1 in
      (record { request_id = request_id; response = response }, w2)
