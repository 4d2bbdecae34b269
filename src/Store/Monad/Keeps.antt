-- ===== src/Store/Monad/Keeps.antt =====
-- Invariants of the database under the actions of `EventStore`, one rule for each way to build one.
use go_webhook_processor.Prelude.{
  String, ◌≡◌, refl, Bool, true, false, Option, arith, if◌then◌else◌,
}
use go_webhook_processor.Models.{Payload}
use go_webhook_processor.Store.Schema.{Db}
use go_webhook_processor.Store.Monad.{
  Env, Outcome, answered, refused, lost, Error, Result, ok, err, State, Store, pure, raise, ◌>>=◌,
  next, rollback, finish, now, db_now, marshal, statement, transaction,
}

-- Whatever the environment answers, `m` keeps `P`.
pub record Keeps {A : Type 0} (P : Db → Type 0) (m : Store A) : Type 0 where
  pub at : (s : State) → P s.db → P (m s).1.db

-- Where `m` ends well, it keeps `P`.
pub record Commits {A : Type 0} (P : Db → Type 0) (m : Store A) : Type 0 where
  pub at : (s : State) → P s.db → (a : A) → (m s).0 ≡ ok a → P (m s).1.db

module _ {P : Db → Type 0} where
  pub Keeps-Commits : {A : Type 0} (m : Store A) → Keeps P m → Commits P m
  Keeps-Commits m km = record { at = λ s h a e. km.at s h }

  pub Keeps-pure : {A : Type 0} (a : A) → Keeps P (pure a)
  Keeps-pure a = record { at = λ s h. h }

  pub Keeps-raise : {A : Type 0} (e : Error) → Keeps P (raise {A = A} e)
  Keeps-raise e = record { at = λ s h. h }

  pub Keeps-bind :
      {A B : Type 0} (m : Store A) (f : A → Store B)
      → Keeps P m
      → ((a : A) → Keeps P (f a))
      → Keeps P (m >>= f)
  Keeps-bind {A} {B} m f km kf = record { at = λ s h. let (r, s') = m s in go r s' (km.at s h) }
    where
      go :
          (r : Result A) (s : State)
          → P s.db
          → P (elim r as (λ _. Result B × State) [ ok a ↦ f a s | err e ↦ (err e, s) ]).1.db
      go (ok a) s h = (kf a).at s h
      go (err e) s h = h

  pub Keeps-if :
      {A : Type 0} (b : Bool) (m n : Store A) → Keeps P m → Keeps P n → Keeps P (if b then m else n)
  Keeps-if true m n km kn = km
  Keeps-if false m n km kn = kn

  module _ (env : Env) where
    pub Keeps-now : Keeps P (now env)
    unfolding now
    Keeps-now = record { at = λ s h. h }

    pub Keeps-db_now : Keeps P (db_now env)
    unfolding db_now
    Keeps-db_now = record { at = λ s h. h }

    pub Keeps-marshal : (c : String) (p : Payload) → Keeps P (marshal env c p)
    unfolding marshal
    Keeps-marshal c p = record { at = λ s h. ground arith }

    pub Keeps-statement :
        {A : Type 0} (c : String) (q : Db → Db × Option A)
        → ((db : Db) → P db → P (q db).0)
        → Keeps P (statement env c q)
    unfolding statement
    Keeps-statement c q k = record { at = λ s h. ground (arith, k s.db h) }

    -- A transaction has to keep `P` where its body ends well. Its rollback may keep a higher number
    -- of the sequence.
    pub Keeps-transaction :
        {A : Type 0} (b c : String) (m : Store A)
        → Commits P m
        → ((db : Db) (s : State) → P db → P (rollback db s).db)
        → Keeps P (transaction env b c m)
    unfolding transaction
    Keeps-transaction {A} b c m km back = record { at = λ s h. begun s h (env.outcome s.step) refl }
      where
        ended :
            (old : Db) (r : Result A × State)
            → P old
            → ((a : A) → r.0 ≡ ok a → P r.1.db)
            → P (finish env c old r).1.db
        ended old (err e, s) h k = back old s h
        ended old (ok a, s) h k = ground (arith, k a, back old s h)

        begun :
            (s : State)
            → P s.db
            → (o : Outcome) → env.outcome s.step ≡ o
            → P (transaction env b c m s).1.db
        begun s h answered e =
            rw (e, transaction) (ended s.db (m (next s)) h (λ a r. km.at (next s) h a r))
        begun s h refused e = rw (e, transaction) h
        begun s h lost e = rw (e, transaction) h

pub ruleset keeps_rules = (
  Keeps-pure, Keeps-raise, Keeps-bind, Keeps-if, Keeps-now, Keeps-db_now, Keeps-marshal,
  Keeps-statement,
)
