-- ===== src/Store/Retries/Claim.antt =====
-- The automatic retry's claim: each dead letter is claimed a bounded number of times, and a
-- claimed one is out of reach until it is rescheduled.
use go_webhook_processor.Prelude.{
  String, ◌≡◌, refl, ap, ◌∙◌, subst, Bool, true, false, not, ◌&&◌, Option, none, some, List, [],
  arith, filter, is_some, Option-cases, Bool-cases, inl, inr, if◌then◌else◌,
}
use go_webhook_processor.Prelude.Int.{ℤ, pos, pos_part, ◌≤ℤ◌, ◌<ℤ◌, ◌+ℤ◌, +ℤ_parts}
use go_webhook_processor.Prelude.Table.{
  find, Distinct, update_row, update_where, order_by, find-update, find-key, Distinct-update,
}
use go_webhook_processor.Prelude.Select.{has, row_test, has-take, has-order_by, has-filter}
use go_webhook_processor.Store.Schema.{DeadLetterRow, Db, dead_key}
use go_webhook_processor.Store.Retries.{
  retry_candidates, retry_before, due, is_retryable, has_key, count_retry, claim_letters,
}

abbrev pub claimed_letters : Option (List DeadLetterRow) → List DeadLetterRow
claimed_letters none = []
claimed_letters (some rows) = rows

-- The date of the next retry is set, and has come.
abbrev pub IsDue : Option ℤ → ℤ → Type 0
IsDue none at = ⊥
IsDue (some next) at = next ≤ℤ at

not_replayed : (o : Option ℤ) → is_some o ≡ false → o ≡ none
not_replayed none h = refl
not_replayed (some t) h = cc

is_due : (o : Option ℤ) (at : ℤ) → due o at ≡ true → IsDue o at
is_due none at h = cc
is_due (some t) at h = ground (arith, h)

module _ (locked : String → Bool) (at max_attempts limit : ℤ) (id : String) (db : Db)
    (valid : Distinct dead_key db.dead_letters) where
  abbrev cs : List DeadLetterRow
  cs = retry_candidates locked at max_attempts (pos_part limit) db.dead_letters

  abbrev rows : List DeadLetterRow
  rows = update_where (has_key cs) count_retry db.dead_letters

  abbrev both : DeadLetterRow → Bool
  both r = is_retryable at max_attempts r && not (locked r.event_id)

  candidate : has dead_key id cs ≡ true → row_test both (find dead_key id db.dead_letters) ≡ true
  unfolding retry_candidates
  candidate h =
      subst (λ b. b ≡ true) (has-filter dead_key both id db.dead_letters valid)
        (subst (λ b. b ≡ true) (has-order_by dead_key retry_before id (filter both db.dead_letters))
          (has-take dead_key (pos_part limit) id
            (order_by retry_before (filter both db.dead_letters)) h))

  returned :
      has dead_key id (filter (has_key cs) rows)
      ≡ row_test
          (has_key cs)
          (update_row (has_key cs) count_retry (find dead_key id db.dead_letters))
  returned =
      has-filter dead_key (has_key cs) id rows
        (Distinct-update dead_key (has_key cs) count_retry (λ r. refl) db.dead_letters valid)
      ∙ ap (row_test (has_key cs))
          (find-update dead_key (has_key cs) count_retry (λ r. refl) id db.dead_letters)

  counted :
      has dead_key id (claimed_letters (claim_letters locked at max_attempts limit db).1) ≡ true
      → (r : DeadLetterRow) × (find dead_key id db.dead_letters ≡ some r)
        × (is_retryable at max_attempts r ≡ true)
        × (find dead_key id (claim_letters locked at max_attempts limit db).0.dead_letters
            ≡ some (count_retry r))
  unfolding claim_letters
  counted given = elim (Option-cases (find dead_key id db.dead_letters)) [
    | inl no_row ↦ absurd (ground (arith, returned))
    | inr (r, row) ↦
        let same = find-key dead_key id db.dead_letters r row in
        let was : has dead_key id cs ≡ true =
          ground (arith, returned, ap (λ k. has dead_key k cs) same) in
        (
          r,
          row,
          ground (arith, candidate was),
          ground (
            arith,
            given,
            was,
            ap (λ k. has dead_key k cs) same,
            find-update dead_key (has_key cs) count_retry (λ r. refl) id db.dead_letters,
          ),
        )
  ]

  -- On dead letters with distinct event ids, a letter that claim_letters returns was not
  -- replayed, had a date for its next retry that has come, and had fewer retries than the limit;
  -- its row now counts one more retry and has no date for the next, and its other columns are as
  -- before.
  pub claim_letters_claims :
      has dead_key id (claimed_letters (claim_letters locked at max_attempts limit db).1) ≡ true
      → (r : DeadLetterRow) × (find dead_key id db.dead_letters ≡ some r)
        × (r.replayed_at ≡ none)
        × IsDue r.next_retry_at at
        × (r.replay_attempts <ℤ max_attempts)
        × (find dead_key id (claim_letters locked at max_attempts limit db).0.dead_letters
            ≡ some
                (record r { replay_attempts = r.replay_attempts +ℤ pos 1; next_retry_at = none }))
  claim_letters_claims given =
      let (r, row, retryable, after) = counted given in
      (
        r,
        row,
        not_replayed r.replayed_at (ground (arith, retryable)),
        is_due r.next_retry_at at (ground (arith, retryable)),
        ground (arith, retryable),
        after,
      )

  find-claim_letters :
      find dead_key id (claim_letters locked at max_attempts limit db).0.dead_letters ≡ (
        if has dead_key id (claimed_letters (claim_letters locked at max_attempts limit db).1)
        then update_row (λ r. true) count_retry (find dead_key id db.dead_letters)
        else find dead_key id db.dead_letters)
  unfolding claim_letters
  find-claim_letters = elim (Option-cases (find dead_key id db.dead_letters)) [
    | inl no_row ↦ ground (
      arith,
      returned,
      find-update dead_key (has_key cs) count_retry (λ r. refl) id db.dead_letters,
    )
    | inr (r, row) ↦ ground (
      arith,
      returned,
      find-update dead_key (has_key cs) count_retry (λ r. refl) id db.dead_letters,
    )
  ]

  -- On dead letters with distinct event ids, a letter whose count of retries is at most the limit
  -- keeps at least its count and at most the limit through claim_letters.
  pub claim_letters_bound :
      (r r' : DeadLetterRow)
      → find dead_key id db.dead_letters ≡ some r
      → find dead_key id (claim_letters locked at max_attempts limit db).0.dead_letters ≡ some r'
      → r.replay_attempts ≤ℤ max_attempts
      → (r.replay_attempts ≤ℤ r'.replay_attempts) × (r'.replay_attempts ≤ℤ max_attempts)
  claim_letters_bound r r' row row' h =
      elim (Bool-cases
        (has dead_key id (claimed_letters (claim_letters locked at max_attempts limit db).1))) [
          | inl given ↦
              ground (arith, counted given, find-claim_letters, +ℤ_parts r.replay_attempts (pos 1))
          | inr spared ↦ ground (arith, find-claim_letters)
        ]

-- On dead letters with distinct event ids, a letter that claim_letters has returned is not
-- returned by any later claim_letters, at any time and under any limit, while its row is as the
-- first claim left it.
pub claim_letters_strands :
    (locked locked' : String → Bool) (at at' max max' limit limit' : ℤ) (id : String) (db db' : Db)
    → Distinct dead_key db.dead_letters
    → Distinct dead_key db'.dead_letters
    → has dead_key id (claimed_letters (claim_letters locked at max limit db).1) ≡ true
    → find dead_key id db'.dead_letters
      ≡ find dead_key id (claim_letters locked at max limit db).0.dead_letters
    → has dead_key id (claimed_letters (claim_letters locked' at' max' limit' db').1) ≡ false
claim_letters_strands locked locked' at at' max max' limit limit' id db db' d d' given kept =
    elim (Bool-cases
      (has dead_key id (claimed_letters (claim_letters locked' at' max' limit' db').1))) [
        | inr spared ↦ spared
        | inl again ↦
            let first = counted locked at max limit id db d given in
            let second = counted locked' at' max' limit' id db' d' again in
            absurd (ground (arith, first.3, second.1, second.2, kept))
      ]
