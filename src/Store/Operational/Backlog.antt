-- ===== src/Store/Operational/Backlog.antt =====
-- The counts of operational_metrics.go against the listing and the claim of the outbox.
use Prim.Native.Nat.{min}
use go_webhook_processor.Prelude.{
  ℕ, zero, suc, ◌+◌, ◌≡◌, refl, Bool, some, List, [], ◌∷◌, arith, filter, take, length, ap, ◌∙◌,
}
use go_webhook_processor.Prelude.Int.{pos}
use go_webhook_processor.Prelude.Table.{count_where, insert_by, order_by}
use go_webhook_processor.Store.Schema.{OutboxRow}
use go_webhook_processor.Store.Monad.{Env, State, ok, statement}
use go_webhook_processor.Store.Outbox.{list_outbox, id_before, is_pending}
use go_webhook_processor.Store.Operational.{
  is_unpublished, select_operational, OperationalMetrics, operational_metrics,
}

module _ {ℓ} {A : Type ℓ} where
  length-insert_by :
      (before : A → A → Bool) (x : A) (xs : List A) → length (insert_by before x xs) ≡ length xs + 1
  length-insert_by before x [] = ground arith
  length-insert_by before x (y ∷ ys) = ground (arith, length-insert_by before x ys)

  length-order_by : (before : A → A → Bool) (xs : List A) → length (order_by before xs) ≡ length xs
  length-order_by before [] = refl
  length-order_by before (x ∷ xs) =
      ground (arith, length-insert_by before x (order_by before xs), length-order_by before xs)

  length-filter : (p : A → Bool) (xs : List A) → length (filter p xs) ≡ count_where p xs
  length-filter p [] = refl
  length-filter p (x ∷ xs) = ground (arith, length-filter p xs)

  length-take : (n : ℕ) (xs : List A) → length (take n xs) ≡ min n (length xs)
  length-take zero xs = omega arith
  length-take (suc n) [] = omega arith
  length-take (suc n) (x ∷ xs) = omega (arith, length-take n xs)

-- If OperationalMetrics answers without an error, then a listing of the same tables' pending
-- outbox with a natural limit selects rows, and their number is the smaller of the limit and the
-- pending count that was answered.
pub pending_outbox_counts :
    (env : Env) (limit : ℕ) (s : State) (m : OperationalMetrics)
    → (operational_metrics env s).0 ≡ ok m
    → (rows : List OutboxRow) × (list_outbox env (pos limit) s.db ≡ (s.db, some rows))
      × (pending : ℕ) × (m.pending_outbox ≡ pos pending)
      × (length rows ≡ min limit pending)
unfolding operational_metrics select_operational statement list_outbox
pending_outbox_counts env limit s m h =
    let pending = filter (is_pending env) s.db.outbox in
    (
      take limit (order_by id_before pending),
      ground arith,
      count_where is_unpublished s.db.outbox,
      ground (arith, h),
      length-take limit (order_by id_before pending)
          ∙ ap (min limit)
              (length-order_by id_before pending ∙ length-filter is_unpublished s.db.outbox),
    )
