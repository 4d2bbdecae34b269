-- ===== src/Store/Events/Claim.antt =====
-- ClaimForProcessing of event_store.go: a worker's lease on an event.
use go_webhook_processor.Prelude.{
  ℕ, ◌+◌, String, ◌≡◌, ◌≢◌, subst, ◌∙◌, ◌⊎◌, inl, inr, Option, none, some, List, arith,
  Option-cases, unless_equal, if◌then◌else◌,
}
use go_webhook_processor.Prelude.Int.{ℤ, ◌-ℤ◌, ◌<ℤ◌, ◌+ℤ◌, ◌≤ℤ◌, leb_ℤ, leb_ℤ-sub}
use go_webhook_processor.Prelude.Table.{find, Distinct}
use go_webhook_processor.Store.Schema.{
  queued, processing, processed, failed, EventRow, event_key, EventClaimResult, claimed,
  in_progress, final, missing,
}
use go_webhook_processor.Store.Monad.{Env, answered, ok, State}
use go_webhook_processor.Store.Events.{claim_for_processing}
use go_webhook_processor.Store.Events.Rows.{start-affected, start_self, start-other, start-none}
use go_webhook_processor.Store.Events.Accept.{SameRows}

-- What a worker is told of an event, by its row and the latest start that counts as expired.
abbrev pub claim_of_row : Option EventRow → ℤ → EventClaimResult
claim_of_row none cutoff = missing
claim_of_row (some r) cutoff = elim r.status [
  | queued ↦ claimed
  | processing ↦ elim r.processing_started_at [
    | none ↦ in_progress
    | some started ↦ if leb_ℤ started cutoff then claimed else in_progress
  ]
  | processed ↦ final
  | failed ↦ final
]

-- The event's row after the answer: only a claim changes it.
abbrev pub row_after : ℤ → Option EventRow → EventClaimResult → Option EventRow
row_after at none c = none
row_after at (some r) claimed =
    some (record r { status = processing; processing_started_at = some at; updated_at = at })
row_after at (some r) in_progress = some r
row_after at (some r) final = some r
row_after at (some r) missing = some r

module _ (env : Env) (id : String) (lease : ℤ) (s : State)
    (valid : Distinct event_key s.db.events) where
  abbrev rows : List EventRow
  rows = s.db.events

  abbrev at : ℤ
  at = env.clock s.step

  abbrev cutoff : ℤ
  cutoff = at -ℤ lease

  -- When claim_for_processing answers with a result, on tables with distinct event ids: the
  -- result is missing without a row, final for a processed or failed event, claimed for a queued
  -- one, and for one in processing claimed if the start is a lease ago and in progress if not; if
  -- claimed, the event's row now is in processing since the clock's reading, with its other
  -- columns as before, and else it is as before; and the rows of other events are as they were.
  pub claim_for_processing_lem :
      (c : EventClaimResult)
      → (claim_for_processing env id lease s).0 ≡ ok c
      → let after = (claim_for_processing env id lease s).1.db in
        (c ≡ claim_of_row (find event_key id s.db.events) (env.clock s.step -ℤ lease))
        × (find event_key id after.events
            ≡ row_after (env.clock s.step) (find event_key id s.db.events) c)
        × ((k : String) → (k ≡ id) ⊎ (find event_key k after.events ≡ find event_key k s.db.events))
  unfolding claim_for_processing
  claim_for_processing_lem c e = elim (Option-cases (find event_key id rows)) [
    | inl no_row ↦ (
      ground (arith, start-affected id at cutoff rows valid, start_self id at cutoff rows),
      ground (arith, start-affected id at cutoff rows valid, start_self id at cutoff rows),
      λ k. unless_equal k id (λ ne. ground (arith, start-other id at cutoff rows k ne)),
    )
    | inr (r, row) ↦ (
      ground (arith, start-affected id at cutoff rows valid, start_self id at cutoff rows),
      ground (arith, start-affected id at cutoff rows valid, start_self id at cutoff rows),
      λ k. unless_equal k id (λ ne. ground (arith, start-other id at cutoff rows k ne)),
    )
  ]

  -- On tables with distinct event ids, claim_for_processing of a processed or failed event
  -- changes no row and does not answer that the event is claimed, whatever the database answers.
  pub claim_final_unchanged :
      (r : EventRow)
      → find event_key id s.db.events ≡ some r
      → (r.status ≡ processed) ⊎ (r.status ≡ failed)
      → SameRows s.db (claim_for_processing env id lease s).1.db
        × ((claim_for_processing env id lease s).0 ≢ ok claimed)
  unfolding claim_for_processing
  claim_final_unchanged r row h = (
    ground (arith, start-none id at cutoff rows valid),
    ground (arith, start-affected id at cutoff rows valid),
  )

  -- If the database answers each call and the event ids are distinct, a queued event, or one
  -- whose processing started at least a lease ago, is claimed.
  pub claim_available :
      (r : EventRow) (t : ℤ)
      → ((n : ℕ) → env.outcome n ≡ answered)
      → find event_key id s.db.events ≡ some r
      → (r.status ≡ queued)
        ⊎ ((r.status ≡ processing)
            × (r.processing_started_at ≡ some t)
            × (t +ℤ lease ≤ℤ env.clock s.step))
      → (claim_for_processing env id lease s).0 ≡ ok claimed
  unfolding claim_for_processing
  claim_available r t up row h =
      ground (arith, up (s.step + 1), start-affected id at cutoff rows valid, leb_ℤ-sub t at lease)

-- Two workers with one lease: after the first has claimed an event, and while the event's row is
-- as that claim left it, the second does not claim it before the first's clock plus the lease.
-- The event ids are distinct in both databases.
pub claim_exclusive :
    (first second : Env) (id : String) (lease : ℤ) (s s' : State)
    → Distinct event_key s.db.events
    → Distinct event_key s'.db.events
    → (claim_for_processing first id lease s).0 ≡ ok claimed
    → find event_key id s'.db.events
      ≡ find event_key id (claim_for_processing first id lease s).1.db.events
    → second.clock s'.step <ℤ first.clock s.step +ℤ lease
    → (claim_for_processing second id lease s').0 ≢ ok claimed
claim_exclusive first second id lease s s' d d' won kept early won' =
    elim (Option-cases (find event_key id s.db.events)) [
      | inl no_row ↦ ground (arith, first_claim)
      | inr (r, row) ↦ ground (
        arith,
        first_claim,
        second_claim,
        leb_ℤ-sub (first.clock s.step) (second.clock s'.step) lease,
      )
    ]
  where
    first_claim :
        claimed ≡ claim_of_row (find event_key id s.db.events) (first.clock s.step -ℤ lease)
    first_claim = (claim_for_processing_lem first id lease s d claimed won).0

    second_claim :
        claimed
        ≡ claim_of_row
            (row_after (first.clock s.step) (find event_key id s.db.events) claimed)
            (second.clock s'.step -ℤ lease)
    second_claim =
        subst (λ o. claimed ≡ claim_of_row o (second.clock s'.step -ℤ lease))
          (kept ∙ (claim_for_processing_lem first id lease s d claimed won).1)
          (claim_for_processing_lem second id lease s' d' claimed won').0
