-- ===== src/Store/Monad.antt =====
-- What a method of `EventStore` sees of the world: the database, and an environment that answers
-- each call. `step` counts the calls of the database, of the clock and of the random source; the
-- environment answers the n-th one as it likes.
pub mod Keeps
use Prim.Native.Nat.{max}
use go_webhook_processor.Prelude.{
  ℕ, ◌+◌, ◌≡◌, refl, ◌⊎◌, inl, inr, String, Bool, true, false, Option, none, some, List,
  if◌then◌else◌,
}
use go_webhook_processor.Prelude.Int.{ℤ}
use go_webhook_processor.Models.{Payload}
use go_webhook_processor.Store.Schema.{EventStatus, OutboxRow, DeadLetterRow, Db}

-- A call of the database is answered; or it is refused and has no effect; or it takes effect and
-- its answer is lost, so that the caller gets an error.
pub data Outcome : Type 0 where
  answered refused lost : Outcome

pub record Env : Type 0 where
  pub outcome : ℕ → Outcome
  pub cause : ℕ → String  -- the driver's error text
  pub clock : ℕ → ℤ  -- time.Now
  pub db_clock : ℕ → ℤ  -- CURRENT_TIMESTAMP
  pub random : ℕ → Option (List ℕ)  -- crypto/rand.Read of 16 bytes
  pub marshal : Payload → Option String  -- json.Marshal
  pub unmarshal : String → Option Payload  -- json.Unmarshal
  pub locked_outbox : ℕ → ℕ → Bool  -- rows that other sessions hold locked
  pub locked_dead_letter : ℕ → String → Bool
  pub returned : List OutboxRow → List OutboxRow  -- the order of UPDATE … RETURNING
  pub returned_letters : List DeadLetterRow → List DeadLetterRow

pub data Error : Type 0 where
  event_already_exists : Error
  dead_letter_not_found : Error
  dead_letter_not_failed : EventStatus → Error
  reservation_expired : ℕ → Error
  failed_to : String → String → Error  -- fmt.Errorf("context: %w", cause)
  plain : String → Error

pub data Result {ℓ} (A : Type ℓ) : Type ℓ where
  ok : A → Result A
  err : Error → Result A

pub Result-cases {ℓ} :
    {A : Type ℓ} (r : Result A) → ((e : Error) × (r ≡ err e)) ⊎ ((a : A) × (r ≡ ok a))
Result-cases (ok a) = inr (a, refl)
Result-cases (err e) = inl (e, refl)

pub record State : Type 0 where
  pub db : Db
  pub step : ℕ

abbrev pub Store : Type 0 → Type 0
Store A = State → Result A × State

abbrev pub next : State → State
next s = record s { step = s.step + 1 }

module _ {A : Type 0} where
  abbrev pub pure : A → Store A
  pure a s = (ok a, s)

  abbrev pub raise : Error → Store A
  raise e s = (err e, s)

infixl 5 ◌>>=◌ ◌>>◌
abbrev pub ◌>>=◌ : {A B : Type 0} → Store A → (A → Store B) → Store B
◌>>=◌ m f s = let (r, s') = m s in elim r [ ok a ↦ f a s' | err e ↦ (err e, s') ]

abbrev pub ◌>>◌ : {A B : Type 0} → Store A → Store B → Store B
m >> k = m >>= λ _. k

-- A rollback restores the rows; a sequence never goes back on the numbers that it has given out.
abbrev pub rollback : Db → State → State
rollback old s = record s { db = record old { outbox_seq = max old.outbox_seq s.db.outbox_seq } }

module _ (env : Env) where
  unfoldable pub now : Store ℤ
  now s = (ok (env.clock s.step), next s)

  unfoldable pub db_now : Store ℤ
  db_now s = (ok (env.db_clock s.step), next s)

  -- json.Marshal, or an error under a context.
  unfoldable pub marshal : String → Payload → Store String
  marshal context payload s = elim (env.marshal payload) [
    | none ↦ (err (failed_to context (env.cause s.step)), s)
    | some text ↦ (ok text, s)
  ]

  module _ {A : Type 0} where
    answer : String → Db × Option A → State → Result A × State
    answer context (db, none) s =
        (err (failed_to context (env.cause s.step)), record (next s) { db = db })
    answer context (db, some a) s = (ok a, record (next s) { db = db })

    -- One statement: its effect on the tables, and its answer, or `none` if it breaks a constraint.
    unfoldable pub statement : String → (Db → Db × Option A) → Store A
    unfolding answer
    statement context query s = elim (env.outcome s.step) [
      | answered ↦ answer context (query s.db) s
      | refused ↦ (err (failed_to context (env.cause s.step)), next s)
      | lost ↦ (err (failed_to context (env.cause s.step)), record (next s) { db = (query s.db).0 })
    ]

    finish : String → Db → Result A × State → Result A × State
    finish context old (err e, s) = (err e, rollback old s)
    finish context old (ok a, s) = elim (env.outcome s.step) [
      | answered ↦ (ok a, next s)
      | refused ↦ (err (failed_to context (env.cause s.step)), rollback old (next s))
      | lost ↦ (err (failed_to context (env.cause s.step)), next s)
    ]

    -- BEGIN, the body, COMMIT; an error rolls back (`defer tx.Rollback()`).
    unfoldable pub transaction : String → String → Store A → Store A
    unfolding finish
    transaction begins commits body s = elim (env.outcome s.step) [
      | answered ↦ finish commits s.db (body (next s))
      | refused ↦ (err (failed_to begins (env.cause s.step)), next s)
      | lost ↦ (err (failed_to begins (env.cause s.step)), next s)
    ]
