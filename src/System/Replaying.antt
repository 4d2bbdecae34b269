-- ===== src/System/Replaying.antt =====
-- The replay of a dead letter, as a step of the service.
use go_webhook_processor.Prelude.{
  ◌+◌, String, ◌≡◌, ap, subst, sym, inl, inr, false, List, arith, Option-cases,
}
use go_webhook_processor.Prelude.Int.{ℤ}
use go_webhook_processor.Prelude.Table.{find}
use go_webhook_processor.Prelude.Select.{row_test}
use go_webhook_processor.Models.{Event}
use go_webhook_processor.Store.Schema.{Db, EventRow, event_key, outbox_key}
use go_webhook_processor.Store.Monad.{
  Env, State, event_already_exists, dead_letter_not_found, dead_letter_not_failed,
  reservation_expired, failed_to, plain, Result, ok, err,
}
use go_webhook_processor.Store.Events.Accept.{SameRows}
use go_webhook_processor.Store.DeadLetters.{replay_dead_letter}
use go_webhook_processor.Store.DeadLetters.Replay.{
  Replayed, ReplayAnswer, replay_dead_letter_answers,
}
use go_webhook_processor.Store.Invariant.{IsValid}
use go_webhook_processor.Store.Lifecycle.{status_of}
use go_webhook_processor.Outbox.Dispatch.{is_published}
use go_webhook_processor.System.{sent_out}
use go_webhook_processor.System.Final.{final_life}
use go_webhook_processor.System.Dispatching.{Covered}

module _ (id k : String) (at : ℤ) (before after : Db) (broker : List Event) where
  same-Covered : SameRows before after → Covered id before broker → Covered id after broker
  same-Covered same c = ground (
    arith,
    c,
    ap (λ rows. final_life (status_of (find event_key id rows))) same.events,
    ap (λ rows. row_test is_published (find outbox_key id rows)) same.outbox,
  )

  -- The message of a replayed event is open again.
  Replayed-Covered :
      (e : EventRow)
      → Replayed k at e before after
      → Covered id before broker
      → Covered id after broker
  Replayed-Covered e done c = elim (done.other_events id) [
    | inl same ↦ inl (reopened same)
    | inr kept ↦ elim (done.other_messages id) [
      | inl same ↦ inl (reopened same)
      | inr unmoved ↦
          ground
            (arith, c, ap (λ o. final_life (status_of o)) kept, ap (row_test is_published) unmoved)
    ]
  ]
    where
      reopened : id ≡ k → sent_out id after ≡ false
      reopened same =
          subst (λ t. sent_out t after ≡ false) {x = k} {y = id} (sym same)
            (elim (Option-cases (find outbox_key k before.outbox)) [
              | inl no_row ↦ ground (arith, done.message, no_row)
              | inr (r, row) ↦ ground (arith, done.message, row)
            ])

  ReplayAnswer-Covered :
      (r : Result (Unit {0}))
      → ReplayAnswer k at before after r
      → Covered id before broker
      → Covered id after broker
  ReplayAnswer-Covered (ok _) (e, row, st, l, done) c = Replayed-Covered e done c
  ReplayAnswer-Covered (err dead_letter_not_found) a c = same-Covered a.1 c
  ReplayAnswer-Covered (err (dead_letter_not_failed _)) (e, row, st, ne, same) c =
      same-Covered same c
  ReplayAnswer-Covered (err (failed_to _ _)) (inl same) c = same-Covered same c
  ReplayAnswer-Covered (err (failed_to _ _)) (inr (e, row, st, done)) c = Replayed-Covered e done c
  ReplayAnswer-Covered (err event_already_exists) a c = absurd a
  ReplayAnswer-Covered (err (reservation_expired _)) a c = absurd a
  ReplayAnswer-Covered (err (plain _)) a c = absurd a

pub replay-Covered :
    (id k : String) (env : Env) (s : State) (broker : List Event)
    → IsValid s.db
    → Covered id s.db broker
    → Covered id (replay_dead_letter env k s).1.db broker
replay-Covered id k env s broker v c =
    ReplayAnswer-Covered id k (env.clock (s.step + 1 + 1)) s.db (replay_dead_letter env k s).1.db
      broker (replay_dead_letter env k s).0 (replay_dead_letter_answers env k s v) c
