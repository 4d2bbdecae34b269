-- ===== src/Store/Events/Rows.antt =====
-- The UPDATE statements on `events`, row by row.
use go_webhook_processor.Prelude.{
  ℕ, String, ◌≡◌, ◌≢◌, refl, arith, true, Bool, Option, none, some, List, if◌then◌else◌,
}
use go_webhook_processor.Prelude.Int.{ℤ}
use go_webhook_processor.Prelude.Table.{
  find, update_row, Distinct, update_where, count_where, count_where-key, update-unchanged,
  find-update_self, find-update_other, find-update_all,
}
use go_webhook_processor.Store.Schema.{EventRow, event_key}
use go_webhook_processor.Store.Monad.{Env, ok, State}
use go_webhook_processor.Store.Events.{
  is_free, is_free_event, start_row, processed_row, failed_row, mark_processed, mark_failed,
}

abbrev pub free_rows : ℤ → Option EventRow → ℕ
free_rows cutoff none = 0
free_rows cutoff (some r) = if is_free r.status r.processing_started_at cutoff then 1 else 0

abbrev pub started_row : ℤ → ℤ → Option EventRow → Option EventRow
started_row at cutoff none = none
started_row at cutoff (some r) =
    some (if is_free r.status r.processing_started_at cutoff then start_row at r else r)

module _ (id : String) (at cutoff : ℤ) (rows : List EventRow) where
  abbrev free : EventRow → Bool
  free r = is_free r.status r.processing_started_at cutoff

  pub start-affected :
      Distinct event_key rows
      → count_where (is_free_event id cutoff) rows ≡ free_rows cutoff (find event_key id rows)
  start-affected d = count_where-key event_key id free rows d

  pub start_self :
      find event_key id (update_where (is_free_event id cutoff) (start_row at) rows)
      ≡ started_row at cutoff (find event_key id rows)
  start_self = find-update_self event_key (start_row at) (λ r. refl) id free rows

  pub start-other :
      (k : String)
      → k ≢ id
      → find event_key k (update_where (is_free_event id cutoff) (start_row at) rows)
        ≡ find event_key k rows
  start-other k h = find-update_other event_key (start_row at) (λ r. refl) id k free rows h

  pub start-none :
      Distinct event_key rows
      → free_rows cutoff (find event_key id rows) ≡ 0
      → update_where (is_free_event id cutoff) (start_row at) rows ≡ rows
  start-none d h = update-unchanged event_key id free (start_row at) rows d h

-- What MarkProcessed and MarkFailed leave, if they end well.
pub mark_processed-find :
    (env : Env) (id : String) (attempts : ℤ) (s : State)
    → (mark_processed env id attempts s).0 ≡ ok tt
    → find event_key id (mark_processed env id attempts s).1.db.events
      ≡ update_row
          (λ r. true)
          (processed_row attempts (env.clock s.step))
          (find event_key id s.db.events)
unfolding mark_processed
mark_processed-find env id attempts s e = ground (
  arith,
  find-update_all event_key (processed_row attempts (env.clock s.step)) (λ r. refl) id s.db.events,
)

pub mark_failed-find :
    (env : Env) (id : String) (attempts : ℤ) (error : String) (s : State)
    → (mark_failed env id attempts error s).0 ≡ ok tt
    → find event_key id (mark_failed env id attempts error s).1.db.events
      ≡ update_row
          (λ r. true)
          (failed_row attempts error (env.clock s.step))
          (find event_key id s.db.events)
unfolding mark_failed
mark_failed-find env id attempts error s e = ground (
  arith,
  find-update_all event_key (failed_row attempts error (env.clock s.step)) (λ r. refl) id
      s.db.events,
)
