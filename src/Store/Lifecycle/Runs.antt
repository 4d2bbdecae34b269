-- ===== src/Store/Lifecycle/Runs.antt =====
-- Sequences of calls of `EventStore` from any processes, seen from one event.
use go_webhook_processor.Prelude.{
  String, ◌≡◌, refl, inl, inr, Bool, true, false, none, some, List, [], ◌∷◌, arith, is_some, sym,
  subst, ap, All, ◌∙◌, eq_iff, ◌==◌,
}
use go_webhook_processor.Store.Schema.{processed}
use go_webhook_processor.Store.Monad.{State}
use go_webhook_processor.Store.Invariant.{IsValid, has_event, has_message}
use go_webhook_processor.Store.Invariant.Calls.{
  Method, save, claim, finish, fail, reserve_batch, publish, unpublish, bury, replay,
  claim_dead_letters, postpone, claim_ids, retry_now, Call, perform, perform_all,
  perform_all-IsValid,
}
use go_webhook_processor.Store.Lifecycle.{Life, life_of, effect, Steps, target}
use go_webhook_processor.Store.Lifecycle.Refines.{perform-Step}

-- On valid tables, any sequence of calls of the store from any processes, however the database
-- answers each, changes the status of any one event only by the steps of the abstract lifecycle:
-- a call about another event or about none leaves it, and a call about it leaves it or has its
-- effect (accept, start, settle, requeue).
pub perform_all-Steps :
    (id : String) (calls : List Call) (s : State)
    → IsValid s.db
    → Steps id calls (life_of id s.db) (life_of id (perform_all calls s).db)
perform_all-Steps id [] s v = refl
perform_all-Steps id (c ∷ calls) s v = (
  life_of id (perform c.env c.method s).db,
  perform-Step c.env id s v c.method,
  perform_all-Steps id calls (perform c.env c.method s) (perform_all-IsValid (c ∷ []) s v),
)

-- No effect forgets an event.
effect-known : (method : Method) (l : Life) → is_some l ≡ true → is_some (effect method l) ≡ true
effect-known method none h = cc
effect-known (save event) (some st) h = ground arith
effect-known (claim k lease) (some st) h = ground arith
effect-known (finish k attempts) (some st) h = ground arith
effect-known (fail k attempts error) (some st) h = ground arith
effect-known (reserve_batch limit lease) (some st) h = ground arith
effect-known (publish m) (some st) h = ground arith
effect-known (unpublish m error) (some st) h = ground arith
effect-known (bury event error n) (some st) h = ground arith
effect-known (replay k) (some st) h = ground arith
effect-known (claim_dead_letters limit max) (some st) h = ground arith
effect-known (postpone k error delay) (some st) h = ground arith
effect-known (claim_ids limit max) (some st) h = ground arith
effect-known (retry_now k error) (some st) h = ground arith

Steps-known :
    (id : String) (calls : List Call) (before after : Life)
    → Steps id calls before after
    → is_some before ≡ true
    → is_some after ≡ true
Steps-known id [] before after e h = subst (λ l. is_some l ≡ true) (sym e) h
Steps-known id (c ∷ calls) before after (middle, step, rest) h =
    Steps-known id calls middle after rest (ground (arith, effect-known c.method before h))

-- On valid tables, an event that is stored is stored with its outbox message after any sequence
-- of calls of the store, however the database answers each.
pub accepted_stays :
    (id : String) (calls : List Call) (s : State)
    → IsValid s.db
    → has_event id s.db ≡ true
    → (has_event id (perform_all calls s).db ≡ true)
      × (has_message id (perform_all calls s).db ≡ true)
accepted_stays id calls s v h =
    let known =
      Steps-known id calls (life_of id s.db) (life_of id (perform_all calls s).db)
        (perform_all-Steps id calls s v) (ground (arith, h)) in
    (ground (arith, known), ground (arith, known, (perform_all-IsValid calls s v).linked id))

-- MarkFailed of an event.
abbrev pub marks_failed : String → Method → Bool
marks_failed id (fail k attempts error) = k == id
marks_failed id (save event) = false
marks_failed id (claim k lease) = false
marks_failed id (finish k attempts) = false
marks_failed id (reserve_batch limit lease) = false
marks_failed id (publish m) = false
marks_failed id (unpublish m error) = false
marks_failed id (bury event error n) = false
marks_failed id (replay k) = false
marks_failed id (claim_dead_letters limit max) = false
marks_failed id (postpone k error delay) = false
marks_failed id (claim_ids limit max) = false
marks_failed id (retry_now k error) = false

effect-processed :
    (id : String) (method : Method)
    → marks_failed id method ≡ false
    → target method ≡ some id
    → effect method (some processed) ≡ some processed
effect-processed id (save event) h t = ground (arith)
effect-processed id (claim k lease) h t = ground (arith)
effect-processed id (finish k attempts) h t = ground (arith)
effect-processed id (fail k attempts error) h t = ground (arith, eq_iff k id)
effect-processed id (reserve_batch limit lease) h t = ground (arith)
effect-processed id (publish m) h t = ground (arith)
effect-processed id (unpublish m error) h t = ground (arith)
effect-processed id (bury event error n) h t = ground (arith)
effect-processed id (replay k) h t = ground (arith)
effect-processed id (claim_dead_letters limit max) h t = ground (arith)
effect-processed id (postpone k error delay) h t = ground (arith)
effect-processed id (claim_ids limit max) h t = ground (arith)
effect-processed id (retry_now k error) h t = ground (arith)

Steps-processed :
    (id : String) (calls : List Call) (before after : Life)
    → Steps id calls before after
    → All (λ c. marks_failed id c.method ≡ false) calls
    → before ≡ some processed
    → after ≡ some processed
Steps-processed id [] before after e h p = e ∙ p
Steps-processed id (c ∷ calls) before after (middle, step, rest) h p =
    Steps-processed id calls middle after rest h.1 (elim step [
      | inl same ↦ same ∙ p
      | inr moved ↦ moved.1 ∙ ap (effect c.method) p ∙ effect-processed id c.method h.0 moved.0
    ])

-- On valid tables, a processed event is still processed after any sequence of calls of the store
-- none of which is MarkFailed of that event, however the database answers each.
pub processed_stays :
    (id : String) (calls : List Call) (s : State)
    → IsValid s.db
    → life_of id s.db ≡ some processed
    → All (λ c. marks_failed id c.method ≡ false) calls
    → life_of id (perform_all calls s).db ≡ some processed
processed_stays id calls s v p h =
    Steps-processed id calls (life_of id s.db) (life_of id (perform_all calls s).db)
      (perform_all-Steps id calls s v) h p
