-- ===== src/Store/Outbox/Lease.antt =====
-- The reservation of outbox messages by ClaimPendingOutbox of event_store.go.
use go_webhook_processor.Prelude.{
  ℕ, zero, suc, ◌≤◌, ◌<◌, String, ◌≡◌, refl, ap, subst, Bool, true, false, not, ◌&&◌, ◌||◌, Option,
  none, some, List, [], ◌∷◌, arith, take, filter, eqb, is_some, Bool-cases, Option-cases, inl, inr,
  if◌then◌else◌,
}
use go_webhook_processor.Prelude.Int.{ℤ, pos_part, ◌+ℤ◌, ◌-ℤ◌, ◌<ℤ◌, ◌≤ℤ◌, leb_ℤ-sub}
use go_webhook_processor.Prelude.Select.{row_test}
use go_webhook_processor.Prelude.Table.{insert_by, order_by, update_where}
use go_webhook_processor.Store.Schema.{OutboxRow, Db}
use go_webhook_processor.Store.Outbox.{
  candidates, has_id, id_before, is_chosen, is_claimable, passed, reserve, claim_outbox,
}
use go_webhook_processor.Store.Invariant.{Ascends, Ascends-update}

-- The row of a number.
abbrev pub row_of : ℕ → List OutboxRow → Option OutboxRow
row_of id [] = none
row_of id (r ∷ rows) = if eqb r.id id then some r else row_of id rows

has_id-take :
    (n id : ℕ) (rows : List OutboxRow) → has_id (take n rows) id ≡ true → has_id rows id ≡ true
has_id-take zero id rows h = cc
has_id-take (suc n) id [] h = h
has_id-take (suc n) id (r ∷ rows) h = ground (arith, has_id-take n id rows)

has_id-insert_by :
    (before : OutboxRow → OutboxRow → Bool) (id : ℕ) (r : OutboxRow) (rows : List OutboxRow)
    → has_id (insert_by before r rows) id ≡ (eqb r.id id || has_id rows id)
has_id-insert_by before id r [] = refl
has_id-insert_by before id r (q ∷ rows) = ground (arith, has_id-insert_by before id r rows)

has_id-order_by :
    (before : OutboxRow → OutboxRow → Bool) (id : ℕ) (rows : List OutboxRow)
    → has_id (order_by before rows) id ≡ has_id rows id
has_id-order_by before id [] = refl
has_id-order_by before id (r ∷ rows) =
    ground
      (arith, has_id-insert_by before id r (order_by before rows), has_id-order_by before id rows)

row_of-below :
    (low high id : ℕ) (rows : List OutboxRow)
    → Ascends low high rows
    → id < low
    → row_of id rows ≡ none
row_of-below low high id [] a h = refl
row_of-below low high id (r ∷ rows) a h = ground (arith, row_of-below (suc r.id) high id rows a.1)

-- Numbers are distinct, so a row that a filter keeps is the row of its number.
row_of-filter :
    (p : OutboxRow → Bool) (low high id : ℕ) (rows : List OutboxRow)
    → Ascends low high rows
    → has_id (filter p rows) id ≡ true
    → (row_test p (row_of id rows) ≡ true) × (low ≤ id)
row_of-filter p low high id [] a h = cc
row_of-filter p low high id (r ∷ rows) a h =
    ground (arith, row_of-filter p (suc r.id) high id rows a.1)

pub row_of-id :
    (id : ℕ) (rows : List OutboxRow) (r : OutboxRow) → row_of id rows ≡ some r → r.id ≡ id
row_of-id id [] r h = cc
row_of-id id (q ∷ rows) r h = ground (arith, row_of-id id rows r)

pub row_of-update :
    (p : OutboxRow → Bool) (f : OutboxRow → OutboxRow)
    → ((r : OutboxRow) → (f r).id ≡ r.id)
    → (id : ℕ) (rows : List OutboxRow)
    → row_of id (update_where p f rows)
      ≡ elim (row_of id rows) [ none ↦ none | some r ↦ some (if p r then f r else r) ]
row_of-update p f same id [] = refl
row_of-update p f same id (r ∷ rows) = ground (arith, row_of-update p f same id rows, same r)

-- The rows of the `candidates` query satisfy its condition.
candidates-is_claimable :
    (locked : ℕ → Bool) (cutoff : ℤ) (limit low high id : ℕ) (rows : List OutboxRow)
    → Ascends low high rows
    → has_id (candidates locked cutoff limit rows) id ≡ true
    → row_test (is_claimable cutoff) (row_of id rows) ≡ true
unfolding candidates
candidates-is_claimable locked cutoff limit low high id rows a h =
    weaken (row_of id rows) (row_of-filter both low high id rows a kept).0
  where
    both : OutboxRow → Bool
    both r = is_claimable cutoff r && not (locked r.id)

    kept : has_id (filter both rows) id ≡ true
    kept =
        subst (λ b. b ≡ true) (has_id-order_by id_before id (filter both rows))
          (has_id-take limit id (order_by id_before (filter both rows)) h)

    weaken :
        (o : Option OutboxRow) → row_test both o ≡ true → row_test (is_claimable cutoff) o ≡ true
    weaken none t = cc
    weaken (some r) t = ground arith

abbrev pub claimed_rows : Option (List OutboxRow) → List OutboxRow
claimed_rows none = []
claimed_rows (some rows) = rows

-- No dispatcher has a reservation since `at - lease`.
abbrev pub HasRunOut : Option ℤ → ℤ → ℤ → Type 0
HasRunOut none lease at = Unit
HasRunOut (some reserved_at) lease at = reserved_at +ℤ lease ≤ℤ at

unpublished : (o : Option ℤ) → is_some o ≡ false → o ≡ none
unpublished none h = refl
unpublished (some t) h = cc

module _ (at lease : ℤ) where
  run_out : (o : Option ℤ) → passed o (at -ℤ lease) ≡ true → HasRunOut o lease at
  run_out none h = tt
  run_out (some t) h = ground (arith, h, leb_ℤ-sub t at lease)

module _ (locked : ℕ → Bool) (at lease limit : ℤ) (token : String) (low high id : ℕ) (db : Db)
    (ascends : Ascends low high db.outbox)
    (given : has_id (claimed_rows (claim_outbox locked (at -ℤ lease) limit token at db).1) id
      ≡ true) where
  abbrev cs : List OutboxRow
  cs = candidates locked (at -ℤ lease) (pos_part limit) db.outbox

  abbrev rows : List OutboxRow
  rows = update_where (is_chosen cs) (reserve token at) db.outbox

  returned : has_id (filter (is_chosen cs) rows) id ≡ true
  unfolding claim_outbox
  returned = ground arith

  chosen : row_test (is_chosen cs) (row_of id rows) ≡ true
  chosen =
      (row_of-filter (is_chosen cs) low high id rows
        (Ascends-update (is_chosen cs) (reserve token at) (λ r. refl) low high db.outbox ascends)
        returned).0

  updated : row_of id rows ≡ elim (row_of id db.outbox) [
    | none ↦ none
    | some r ↦ some (if is_chosen cs r then reserve token at r else r)
  ]
  updated = row_of-update (is_chosen cs) (reserve token at) (λ r. refl) id db.outbox

  picked : (r : OutboxRow) → row_of id db.outbox ≡ some r → has_id cs id ≡ true
  picked r row = ground (
    arith,
    chosen,
    updated,
    row_of-id id db.outbox r row,
    ap (has_id cs) (row_of-id id db.outbox r row),
  )

  reserved :
      (r : OutboxRow) × (row_of id db.outbox ≡ some r)
      × (is_claimable (at -ℤ lease) r ≡ true)
      × (row_of id (claim_outbox locked (at -ℤ lease) limit token at db).0.outbox
          ≡ some (reserve token at r))
  unfolding claim_outbox
  reserved = elim (Option-cases (row_of id db.outbox)) [
    | inl no_row ↦ absurd (ground (arith, chosen, updated))
    | inr (r, row) ↦ (
      r,
      row,
      ground (
        arith,
        candidates-is_claimable locked (at -ℤ lease) (pos_part limit) low high id db.outbox ascends
            (picked r row),
      ),
      ground (arith, updated, picked r row, ap (has_id cs) (row_of-id id db.outbox r row), given),
    )
  ]

  -- On messages with ascending numbers, a message that claim_outbox returns was unpublished, with
  -- no reservation or one that is a lease old, and its row now has the given token and the given
  -- time as its reservation, and its other columns as before.
  pub claim_outbox_reserves :
      (r : OutboxRow) × (row_of id db.outbox ≡ some r)
      × (r.published_at ≡ none)
      × HasRunOut r.dispatching_at lease at
      × (row_of id (claim_outbox locked (at -ℤ lease) limit token at db).0.outbox
          ≡ some (record r { dispatch_token = some token; dispatching_at = some at }))
  claim_outbox_reserves =
      let (r, row, free, after) = reserved in
      (
        r,
        row,
        unpublished r.published_at (ground (arith, free)),
        run_out at lease r.dispatching_at (ground (arith, free)),
        after,
      )

-- A message that one dispatcher has claimed is not returned to another with the same lease before
-- the lease ends, while its row is as the first claim left it. The numbers of the messages ascend
-- in both databases.
pub claim_outbox_exclusive :
    (locked locked' : ℕ → Bool) (at at' lease limit limit' : ℤ) (token token' : String)
    (low high high' id : ℕ) (db db' : Db)
    → Ascends low high db.outbox
    → Ascends low high' db'.outbox
    → has_id (claimed_rows (claim_outbox locked (at -ℤ lease) limit token at db).1) id ≡ true
    → row_of id db'.outbox
      ≡ row_of id (claim_outbox locked (at -ℤ lease) limit token at db).0.outbox
    → at' <ℤ at +ℤ lease
    → has_id (claimed_rows (claim_outbox locked' (at' -ℤ lease) limit' token' at' db').1) id ≡ false
claim_outbox_exclusive locked locked' at at' lease limit limit' token token' low high high' id db
      db' a a' won kept early =
    elim (Bool-cases
      (has_id (claimed_rows (claim_outbox locked' (at' -ℤ lease) limit' token' at' db').1) id)) [
        | inr none_left ↦ none_left
        | inl won' ↦
            let first = reserved locked at lease limit token low high id db a won in
            let again = reserved locked' at' lease limit' token' low high' id db' a' won' in
            absurd (ground (arith, first.3, again.1, again.2, kept, leb_ℤ-sub at at' lease))
      ]
