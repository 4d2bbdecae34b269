-- ===== src/System/Final.antt =====
-- Processed and failed events under the calls of the store.
use go_webhook_processor.Prelude.{
  String, ◌≡◌, refl, ap, ◌∙◌, inl, inr, Bool, true, false, Option, none, some,
}
use go_webhook_processor.Store.Schema.{EventRow, queued, processing, processed, failed, Db}
use go_webhook_processor.Store.Monad.{Env, State}
use go_webhook_processor.Store.Invariant.{IsValid}
use go_webhook_processor.Store.Invariant.Calls.{
  Method, save, claim, finish, fail, reserve_batch, publish, unpublish, bury, replay,
  claim_dead_letters, postpone, claim_ids, retry_now, perform,
}
use go_webhook_processor.Store.Lifecycle.{Life, status_of, life_of, effect}
use go_webhook_processor.Store.Lifecycle.Refines.{perform-Step}
use go_webhook_processor.Worker.Retry.{IsFinal}
use go_webhook_processor.System.{is_plain}

abbrev pub final_life : Life → Bool
final_life none = false
final_life (some processed) = true
final_life (some failed) = true
final_life (some queued) = false
final_life (some processing) = false

abbrev pub is_final : String → Db → Bool
is_final id db = final_life (life_of id db)

pub IsFinal-final : (o : Option EventRow) → IsFinal o → final_life (status_of o) ≡ true
IsFinal-final none f = absurd f
IsFinal-final (some r) (inl f) = ap (λ st. final_life (some st)) f
IsFinal-final (some r) (inr f) = ap (λ st. final_life (some st)) f

effect-final :
    (method : Method) (l : Life)
    → is_plain method ≡ true
    → final_life l ≡ true
    → final_life (effect method l) ≡ true
effect-final method none p h = cc
effect-final (save event) (some st) p h = h
effect-final (claim k lease) (some processed) p h = refl
effect-final (claim k lease) (some failed) p h = refl
effect-final (claim k lease) (some queued) p h = cc
effect-final (claim k lease) (some processing) p h = cc
effect-final (finish k n) (some st) p h = refl
effect-final (fail k n e) (some st) p h = refl
effect-final (reserve_batch limit lease) (some st) p h = h
effect-final (publish m) (some st) p h = h
effect-final (unpublish m e) (some st) p h = h
effect-final (bury event e n) (some st) p h = h
effect-final (replay k) (some st) p h = cc
effect-final (claim_dead_letters limit max) (some st) p h = h
effect-final (postpone k e delay) (some st) p h = h
effect-final (claim_ids limit max) (some st) p h = h
effect-final (retry_now k e) (some st) p h = h

pub perform-final :
    (env : Env) (id : String) (s : State) (method : Method)
    → is_plain method ≡ true
    → IsValid s.db
    → is_final id s.db ≡ true
    → is_final id (perform env method s).db ≡ true
perform-final env id s method p v h = elim (perform-Step env id s v method) [
  | inl same ↦ ap final_life same ∙ h
  | inr moved ↦ ap final_life moved.1 ∙ effect-final method (life_of id s.db) p h
]
