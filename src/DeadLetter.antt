-- ===== src/DeadLetter.antt =====
-- deadletter.go: the two dead letter repositories, in memory and in PostgreSQL.
pub mod Capacity
use go_webhook_processor.Prelude.{
  ℕ, String, Option, none, some, List, [], ◌∷◌, ◌++◌, length, if◌then◌else◌,
}
use go_webhook_processor.Prelude.Int.{ℤ, pos, eqb_ℤ, ltb_ℤ}
use go_webhook_processor.Models.{Event}
use go_webhook_processor.Store.Monad.{Env, Store, pure, ◌>>=◌}
use go_webhook_processor.Store.DeadLetters.{DeadLetter, save_dead_letter, list_dead_letters}

pub record DeadLetterResponse : Type 0 where
  pub count : ℕ
  pub items : List DeadLetter

pub record DeadLetterStore : Type 0 where
  pub capacity : ℤ
  pub items : List DeadLetter

-- `make` panics (`none`) on a negative capacity.
unfoldable pub new_dead_letter_store : ℤ → Option DeadLetterStore
new_dead_letter_store capacity =
    if ltb_ℤ capacity (pos 0) then none else some (record { capacity = capacity; items = [] })

-- `items[1:]`, which panics (`none`) on an empty slice.
abbrev pub drop_first : List DeadLetter → Option (List DeadLetter)
drop_first [] = none
drop_first (item ∷ items) = some items

abbrev with_item : DeadLetterStore → DeadLetter → Option (List DeadLetter) → Option DeadLetterStore
with_item s item none = none
with_item s item (some items) = some (record s { items = items ++ item ∷ [] })

-- The oldest letter makes room for a new one; `failed_at` is the clock's reading.
unfoldable pub add : DeadLetterStore → Event → String → ℤ → ℤ → Option DeadLetterStore
add s event error attempts failed_at =
    with_item s
      (record {
        event = event;
        error = error;
        attempts = attempts;
        failed_at = failed_at;
        replayed_at = none;
      })
      (if eqb_ℤ (pos (length s.items)) s.capacity then drop_first s.items else some s.items)

unfoldable pub snapshot : DeadLetterStore → DeadLetterResponse
snapshot s = record { count = length s.items; items = s.items }

pub record PersistentDeadLetterStore : Type 0 where
  pub env : Env
  pub capacity : ℤ

unfoldable pub persistent_add : PersistentDeadLetterStore → Event → String → ℤ → Store (Unit {0})
persistent_add p event error attempts = save_dead_letter p.env event error attempts

unfoldable pub persistent_snapshot : PersistentDeadLetterStore → Store DeadLetterResponse
persistent_snapshot p = do
  items ← list_dead_letters p.env p.capacity
  pure (record { count = length items; items = items })
