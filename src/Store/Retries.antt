-- ===== src/Store/Retries.antt =====
-- The automatic retry's statements on `dead_letters`, of event_store.go and dlq_backoff_store.go.
pub mod Claim
use Prim.Native.Nat.{Ordering}
use Prim.Native.String.{compare}
use go_webhook_processor.Prelude.{
  ℕ, ◌+◌, String, Bool, true, false, not, ◌&&◌, ◌||◌, Option, none, some, List, map, take, filter,
  is_some, ◌==◌, if◌then◌else◌,
}
use go_webhook_processor.Prelude.Int.{ℤ, pos, pos_part, ◌+ℤ◌, leb_ℤ, ltb_ℤ}
use go_webhook_processor.Prelude.Table.{find, update_where, order_by}
use go_webhook_processor.Prelude.Select.{has}
use go_webhook_processor.Store.Schema.{DeadLetterRow, Db, dead_key, RetryableDeadLetterDetail}
use go_webhook_processor.Store.Monad.{Env, Store, pure, ◌>>=◌, ◌>>◌, now, statement}
use go_webhook_processor.Store.DeadLetters.{update_letters}

-- The dead letters that the automatic retry may claim.
abbrev pub due : Option ℤ → ℤ → Bool
due none at = false
due (some t) at = leb_ℤ t at

abbrev pub is_retryable : ℤ → ℤ → DeadLetterRow → Bool
is_retryable at max_attempts r =
    not (is_some r.replayed_at) && (due r.next_retry_at at && ltb_ℤ r.replay_attempts max_attempts)

-- ORDER BY next_retry_at ASC, event_id ASC; the collation is taken to be that of code points.
abbrev text_le : String → String → Bool
text_le s t = elim (compare s t) [ Ordering.gt ↦ false | _ ↦ true ]

abbrev time_of : Option ℤ → ℤ
time_of none = pos 0
time_of (some t) = t

abbrev pub retry_before : DeadLetterRow → DeadLetterRow → Bool
retry_before r q =
    let a = time_of r.next_retry_at in
    let b = time_of q.next_retry_at in ltb_ℤ a b || (leb_ℤ a b && text_le r.event_id q.event_id)

unfoldable pub retry_candidates :
    (String → Bool) → ℤ → ℤ → ℕ → List DeadLetterRow → List DeadLetterRow
retry_candidates locked at max_attempts limit rows = take limit (
    order_by retry_before
      (filter (λ r. is_retryable at max_attempts r && not (locked r.event_id)) rows))

abbrev pub has_key : List DeadLetterRow → DeadLetterRow → Bool
has_key cs r = has dead_key r.event_id cs

abbrev pub count_retry : DeadLetterRow → DeadLetterRow
count_retry r = record r { replay_attempts = r.replay_attempts +ℤ pos 1; next_retry_at = none }

unfoldable pub claim_letters : (String → Bool) → ℤ → ℤ → ℤ → Db → Db × Option (List DeadLetterRow)
unfolding retry_candidates
claim_letters locked at max_attempts limit db =
    let cs = retry_candidates locked at max_attempts (pos_part limit) db.dead_letters in
    let rows = update_where (has_key cs) count_retry db.dead_letters in
    if ltb_ℤ limit (pos 0)
    then (db, none)
    else (record db { dead_letters = rows }, some (filter (has_key cs) rows))

abbrev pub detail : DeadLetterRow → RetryableDeadLetterDetail
detail r = record { event_id = r.event_id; replay_attempt = r.replay_attempts }

abbrev pub is_open_letter : String → DeadLetterRow → Bool
is_open_letter id r = r.event_id == id && not (is_some r.replayed_at)

abbrev pub reschedule_row : ℤ → String → DeadLetterRow → DeadLetterRow
reschedule_row at error r = record r { next_retry_at = some at; last_retry_error = error }

module _ (env : Env) where
  unfoldable pub claim_retryable_dead_letter_details :
      ℤ → ℤ → Store (List RetryableDeadLetterDetail)
  unfolding now statement claim_letters
  claim_retryable_dead_letter_details limit max_attempts = do
    at ← now env
    rows ← λ s.
        statement env "claim retryable dead letter details"
          (claim_letters (env.locked_dead_letter s.step) at max_attempts limit) s
    pure (map detail (env.returned_letters rows))

  unfoldable pub claim_retryable_dead_letters : ℤ → ℤ → Store (List String)
  unfolding now statement claim_letters
  claim_retryable_dead_letters limit max_attempts = do
    at ← now env
    rows ← λ s.
        statement env "claim retryable dead letters"
          (claim_letters (env.locked_dead_letter s.step) at max_attempts limit) s
    pure (map dead_key (env.returned_letters rows))

  unfoldable pub reschedule_dead_letter_retry : String → String → Store (Unit {0})
  unfolding now statement update_letters
  reschedule_dead_letter_retry id error = do
    at ← now env
    statement env "reschedule dead letter retry"
        (update_letters (is_open_letter id) (reschedule_row at error))
    pure tt

  unfoldable pub reschedule_dead_letter_retry_with_delay : String → String → ℤ → Store (Unit {0})
  unfolding now statement update_letters
  reschedule_dead_letter_retry_with_delay id error delay = do
    at ← now env
    statement env "reschedule dead letter retry with delay"
        (update_letters (is_open_letter id) (reschedule_row (at +ℤ delay) error))
    pure tt
