-- ===== src/Store/Outbox/Token.antt =====
-- newOutboxDispatchToken of event_store.go: what a token keeps of the random bytes.
use go_webhook_processor.Prelude.{
  ℕ, ◌<◌, String, ◌≡◌, inl, inr, some, List, All, arith, Option-cases,
}
use go_webhook_processor.Text.Hex.{hex_decode}
use go_webhook_processor.Text.Hex.RoundTrip.{hex_decode-hex_encode}
use go_webhook_processor.Store.Monad.{Env, State, ok}
use go_webhook_processor.Store.Outbox.{new_outbox_dispatch_token}

-- If the random source answers with bytes below 256 or an error, then decoding a token that
-- new_outbox_dispatch_token has answered gives exactly the bytes that the random source answered,
-- so different bytes give different tokens.
pub hex_decode-new_outbox_dispatch_token :
    (env : Env) (s : State) (token : String)
    → ((n : ℕ) (bytes : List ℕ) → env.random n ≡ some bytes → All (λ b. b < 256) bytes)
    → (new_outbox_dispatch_token env s).0 ≡ ok token
    → hex_decode token ≡ env.random s.step
unfolding new_outbox_dispatch_token
hex_decode-new_outbox_dispatch_token env s token small e = elim (Option-cases (env.random s.step)) [
  | inl no_bytes ↦ ground (arith, e, no_bytes)
  | inr (bytes, drawn) ↦
      ground (arith, e, drawn, hex_decode-hex_encode bytes (small s.step bytes drawn))
]
