-- ===== src/Routes.antt =====
-- `routes` of app.go: the patterns of the service, under the middleware of the request id.
use go_webhook_processor.Prelude.{String, Option, none, some, List, [], ◌∷◌, ◌==◌, if◌then◌else◌}
use go_webhook_processor.World.{World}
use go_webhook_processor.Http.{Request, Response}
use go_webhook_processor.Handlers.{
  App, readiness_handler, replay_dead_letter_handler, create_event_handler,
}
use go_webhook_processor.Handlers.Reports.{
  health_handler, metrics_handler, dead_letters_handler, prometheus_metrics_handler,
}
use go_webhook_processor.RequestId.{Served, request_id_middleware}

abbrev pub Handler : Type 0
Handler = Request → World → Response × World

unfoldable pub patterns : App → List (String × Handler)
patterns app =
    ("GET /health", health_handler app)
    ∷ ("GET /ready", λ r. readiness_handler app)
    ∷ ("GET /metrics", metrics_handler app)
    ∷ ("GET /metrics/prometheus", prometheus_metrics_handler app)
    ∷ ("GET /dead-letters", dead_letters_handler app)
    ∷ ("POST /internal/dead-letters/{eventID}/replay", replay_dead_letter_handler app)
    ∷ ("POST /events", create_event_handler app)
    ∷ []

-- What http.ServeMux answers: the pattern that a request matches, or its own answer.
pub record Mux : Type 0 where
  pub matched : Request → Option String
  pub unmatched : Request → Response

abbrev handler_of : Handler → String → List (String × Handler) → Handler
handler_of other pattern [] = other
handler_of other pattern (p ∷ ps) = if p.0 == pattern then p.1 else handler_of other pattern ps

unfoldable pub routes : App → Mux → Request → World → Served × World
unfolding patterns request_id_middleware
routes app mux r w =
    let unmatched : Handler = λ r' w'. (mux.unmatched r', w') in
    request_id_middleware app.env
      (λ r' w'. elim (mux.matched r') [
        | none ↦ unmatched r' w'
        | some pattern ↦ handler_of unmatched pattern (patterns app) r' w'
      ])
      r w
