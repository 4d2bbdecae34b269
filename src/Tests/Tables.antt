-- ===== src/Tests/Tables.antt =====
-- The theorems on the tables, at concrete inputs.
use go_webhook_processor.Prelude.{
  String, ◌≡◌, ◌≢◌, refl, inl, inr, ◌⊎◌, true, false, Option, none, some, List, [], ◌∷◌, arith,
}
use go_webhook_processor.Prelude.Int.{pos, ◌≤ℤ◌, ◌-ℤ◌, ◌+ℤ◌, ◌<ℤ◌}
use go_webhook_processor.Prelude.Select.{row_test, has}
use go_webhook_processor.Prelude.Table.{find, Distinct}
use go_webhook_processor.Store.Schema.{
  OutboxRow, DeadLetterRow, queued, failed, event_key, dead_key, claimed, Db,
}
use go_webhook_processor.Store.Monad.{now, statement, ok, State}
use go_webhook_processor.Store.Outbox.{claim_outbox, has_id, mark_outbox_published}
use go_webhook_processor.Store.Outbox.Lease.{
  row_of, claimed_rows, HasRunOut, claim_outbox_reserves, claim_outbox_exclusive,
}
use go_webhook_processor.Store.Events.{update_events, save_queued_with_outbox, claim_for_processing}
use go_webhook_processor.Store.Events.Accept.{
  SaveAnswer, SameRows, save_queued_with_outbox_atomic, save_queued_with_outbox_accepts,
}
use go_webhook_processor.Store.Events.Claim.{
  claim_of_row, row_after, claim_for_processing_lem, claim_final_unchanged, claim_available,
  claim_exclusive,
}
use go_webhook_processor.Store.DeadLetters.{
  replay_dead_letter, select_replay, or_not_found, update_outbox, update_letters,
}
use go_webhook_processor.Store.DeadLetters.Replay.{ReplayAnswer, replay_dead_letter_answers}
use go_webhook_processor.Store.DeadLetters.Stale.{
  is_queued, is_published, stale_publish_after_replay,
}
use go_webhook_processor.Store.Retries.{claim_letters, count_retry}
use go_webhook_processor.Store.Retries.Claim.{
  claimed_letters, IsDue, claim_letters_claims, claim_letters_bound, claim_letters_strands,
}
use go_webhook_processor.Store.Invariant.{IsValid, Ascends}
use go_webhook_processor.Store.Invariant.Calls.{
  Call, save, reserve_batch, publish, replay, perform_all, empty_db, empty_db-IsValid,
  perform_all-IsValid,
}
use go_webhook_processor.Tests.Data.{
  accepted-IsValid, stale-IsValid, failed-IsValid, start, env_at, order, event_row, letter,
  accepted_state, failed_state, stale_state, message,
}

save_queued_with_outbox_atomic_example :
    SaveAnswer order "{}"
      (pos 20)
      empty_db
      (save_queued_with_outbox (env_at 20) order start).1.db
      (save_queued_with_outbox (env_at 20) order start).0
save_queued_with_outbox_atomic_example =
    save_queued_with_outbox_atomic (env_at 20) order "{}" start refl

save_queued_with_outbox_accepts_example :
    (save_queued_with_outbox (env_at 20) order start).0 ≡ ok tt
save_queued_with_outbox_accepts_example =
    save_queued_with_outbox_accepts (env_at 20) order "{}" start (λ n. refl) refl empty_db-IsValid
      refl

claimed_first : (claim_for_processing (env_at 20) "e1" (pos 5) accepted_state).0 ≡ ok claimed
unfolding claim_for_processing
claimed_first = refl

claim_for_processing_lem_example :
    let after = (claim_for_processing (env_at 20) "e1" (pos 5) accepted_state).1.db in
    (claimed ≡ claim_of_row (some (event_row queued none)) (pos 20 -ℤ pos 5))
    × (find event_key "e1" after.events ≡ row_after (pos 20) (some (event_row queued none)) claimed)
    × ((k : String)
        → (k ≡ "e1") ⊎ (find event_key k after.events ≡ find event_key k accepted_state.db.events))
claim_for_processing_lem_example =
    claim_for_processing_lem (env_at 20) "e1" (pos 5) accepted_state accepted-IsValid.events claimed
      claimed_first

claim_final_unchanged_example :
    SameRows failed_state.db (claim_for_processing (env_at 20) "e1" (pos 5) failed_state).1.db
    × ((claim_for_processing (env_at 20) "e1" (pos 5) failed_state).0 ≢ ok claimed)
claim_final_unchanged_example =
    claim_final_unchanged (env_at 20) "e1" (pos 5) failed_state failed-IsValid.events
      (event_row failed none) refl (inr refl)

claim_available_example :
    (claim_for_processing (env_at 20) "e1" (pos 5) accepted_state).0 ≡ ok claimed
claim_available_example =
    claim_available (env_at 20) "e1" (pos 5) accepted_state accepted-IsValid.events
      (event_row queued none) (pos 0) (λ n. refl) refl (inl refl)

abbrev claimed_state : State
claimed_state = (claim_for_processing (env_at 20) "e1" (pos 5) accepted_state).1

claimed_state-Distinct : Distinct event_key claimed_state.db.events
unfolding claim_for_processing
claimed_state-Distinct = ground arith

early : pos 24 <ℤ pos 20 +ℤ pos 5
unfolding ◌+ℤ◌
early = ground arith

claim_exclusive_example :
    (claim_for_processing (env_at 24) "e1" (pos 5) claimed_state).0 ≢ ok claimed
claim_exclusive_example =
    claim_exclusive (env_at 20) (env_at 24) "e1" (pos 5) accepted_state claimed_state
      accepted-IsValid.events claimed_state-Distinct claimed_first refl early

replay_dead_letter_answers_example :
    ReplayAnswer "e1"
      (pos 20)
      failed_state.db
      (replay_dead_letter (env_at 20) "e1" failed_state).1.db
      (replay_dead_letter (env_at 20) "e1" failed_state).0
replay_dead_letter_answers_example =
    replay_dead_letter_answers (env_at 20) "e1" failed_state failed-IsValid

replayed : (replay_dead_letter (env_at 20) "e1" stale_state).0 ≡ ok tt
unfolding replay_dead_letter statement select_replay or_not_found now update_events update_outbox
    update_letters
replayed = refl

stale_publish_after_replay_example :
    let s1 = (replay_dead_letter (env_at 20) "e1" stale_state).1 in
    let s2 = (mark_outbox_published (env_at 25) message s1).1 in
    (row_test is_queued (find event_key "e1" s2.db.events) ≡ true)
    × (row_test is_published (row_of 1 s2.db.outbox) ≡ true)
stale_publish_after_replay_example =
    stale_publish_after_replay (env_at 20) (env_at 25) "e1" message stale_state stale-IsValid
      replayed refl (λ n. refl)

abbrev calls : List Call
calls =
    record { env = env_at 20; method = save order }
    ∷ record { env = env_at 21; method = reserve_batch (pos 10) (pos 30) }
    ∷ record { env = env_at 22; method = publish message }
    ∷ record { env = env_at 23; method = replay "e1" }
    ∷ []

perform_all-IsValid_example : IsValid (perform_all calls start).db
perform_all-IsValid_example = perform_all-IsValid calls start empty_db-IsValid

abbrev reserved_rows : Db × Option (List OutboxRow)
reserved_rows =
    claim_outbox (λ id. false) (pos 10 -ℤ pos 30) (pos 10) "t1" (pos 10) accepted_state.db

reserved_first : has_id (claimed_rows reserved_rows.1) 1 ≡ true
unfolding claim_outbox
reserved_first = refl

claim_outbox_reserves_example :
    (r : OutboxRow) × (row_of 1 accepted_state.db.outbox ≡ some r)
    × (r.published_at ≡ none)
    × HasRunOut r.dispatching_at (pos 30) (pos 10)
    × (row_of 1 reserved_rows.0.outbox
        ≡ some (record r { dispatch_token = some "t1"; dispatching_at = some (pos 10) }))
claim_outbox_reserves_example =
    claim_outbox_reserves (λ id. false) (pos 10) (pos 30) (pos 10) "t1" 0 2 1 accepted_state.db
      accepted-IsValid.numbered reserved_first

reserved_rows-Ascends : Ascends 0 2 reserved_rows.0.outbox
unfolding claim_outbox
reserved_rows-Ascends = ground arith

not_expired : pos 39 <ℤ pos 10 +ℤ pos 30
unfolding ◌+ℤ◌
not_expired = ground arith

claim_outbox_exclusive_example :
    has_id
      (claimed_rows
        (claim_outbox (λ id. false) (pos 39 -ℤ pos 30) (pos 10) "t2" (pos 39) reserved_rows.0).1)
      1
    ≡ false
claim_outbox_exclusive_example =
    claim_outbox_exclusive (λ id. false) (λ id. false) (pos 10) (pos 39) (pos 30) (pos 10) (pos 10)
      "t1" "t2" 0 2 2 1 accepted_state.db reserved_rows.0 accepted-IsValid.numbered
      reserved_rows-Ascends reserved_first refl not_expired

abbrev claimed_once : Db × Option (List DeadLetterRow)
claimed_once = claim_letters (λ id. false) (pos 20) (pos 3) (pos 10) failed_state.db

letter_claimed : has dead_key "e1" (claimed_letters claimed_once.1) ≡ true
unfolding claim_letters
letter_claimed = refl

claim_letters_claims_example :
    (r : DeadLetterRow) × (find dead_key "e1" failed_state.db.dead_letters ≡ some r)
    × (r.replayed_at ≡ none)
    × IsDue r.next_retry_at (pos 20)
    × (r.replay_attempts <ℤ pos 3)
    × (find dead_key "e1" claimed_once.0.dead_letters
        ≡ some (record r { replay_attempts = r.replay_attempts +ℤ pos 1; next_retry_at = none }))
claim_letters_claims_example =
    claim_letters_claims (λ id. false) (pos 20) (pos 3) (pos 10) "e1" failed_state.db
      failed-IsValid.letters letter_claimed

letter_counted : find dead_key "e1" claimed_once.0.dead_letters ≡ some (count_retry letter)
unfolding claim_letters
letter_counted = refl

claim_letters_bound_example :
    (pos 0 ≤ℤ (count_retry letter).replay_attempts)
    × ((count_retry letter).replay_attempts ≤ℤ pos 3)
claim_letters_bound_example =
    claim_letters_bound (λ id. false) (pos 20) (pos 3) (pos 10) "e1" failed_state.db
      failed-IsValid.letters letter (count_retry letter) refl letter_counted (ground arith)

claimed_once-Distinct : Distinct dead_key claimed_once.0.dead_letters
unfolding claim_letters
claimed_once-Distinct = ground arith

claim_letters_strands_example :
    has dead_key "e1"
      (claimed_letters (claim_letters (λ id. false) (pos 1000) (pos 3) (pos 10) claimed_once.0).1)
    ≡ false
claim_letters_strands_example =
    claim_letters_strands (λ id. false) (λ id. false) (pos 20) (pos 1000) (pos 3) (pos 3) (pos 10)
      (pos 10) "e1" failed_state.db claimed_once.0 failed-IsValid.letters claimed_once-Distinct
      letter_claimed refl
