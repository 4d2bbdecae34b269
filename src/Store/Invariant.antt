-- ===== src/Store/Invariant.antt =====
-- The invariant of the tables, under every method of `EventStore` and every answer of the database.
pub mod Methods
pub mod Calls
use Prim.Native.Nat.{max}
use go_webhook_processor.Prelude.{
  ℕ, ◌+◌, ◌<◌, String, ◌≡◌, refl, Bool, true, false, ◌&&◌, Option, none, some, List, [], ◌∷◌, ◌++◌,
  arith, Option-cases, inl, inr, ◌≤◌, eqb, is_some, ap, suc, ◌==◌, eq_iff, if◌then◌else◌,
}
use go_webhook_processor.Prelude.Int.{ℤ}
use go_webhook_processor.Prelude.Table.{
  find, Distinct, update_where, update_row, find-update, Distinct-update, find-append_new,
  Distinct-append_new,
}
use go_webhook_processor.Models.{Event}
use go_webhook_processor.Store.Schema.{
  EventRow, OutboxRow, DeadLetterRow, Db, event_key, outbox_key, dead_key,
}
use go_webhook_processor.Store.Monad.{State, rollback}
use go_webhook_processor.Store.Outbox.{insert_outbox, pending_row}
use go_webhook_processor.Store.Events.{queued_row}
use go_webhook_processor.Store.DeadLetters.{upsert_dead_letter, is_letter, refresh}

-- The numbers ascend from `low` along the rows, and stay below `high`.
abbrev pub Ascends : ℕ → ℕ → List OutboxRow → Type 0
Ascends low high [] = low ≤ high
Ascends low high (r ∷ rows) = (low ≤ r.id) × Ascends (suc r.id) high rows

abbrev pub has_event : String → Db → Bool
has_event k db = is_some (find event_key k db.events)

abbrev pub has_message : String → Db → Bool
has_message k db = is_some (find outbox_key k db.outbox)

abbrev pub has_letter : String → Db → Bool
has_letter k db = is_some (find dead_key k db.dead_letters)

-- Each event has one row, one outbox message (and no message is without its event), and at most
-- one dead letter; the numbers of the messages have been given out by the sequence.
pub record IsValid (db : Db) : Type 0 where
  pub events : Distinct event_key db.events
  pub outbox : Distinct outbox_key db.outbox
  pub letters : Distinct dead_key db.dead_letters
  pub numbered : Ascends 0 db.outbox_seq db.outbox
  pub linked : (k : String) → has_message k db ≡ has_event k db

pub Ascends-update :
    (p : OutboxRow → Bool) (f : OutboxRow → OutboxRow)
    → ((r : OutboxRow) → (f r).id ≡ r.id)
    → (low high : ℕ) (rows : List OutboxRow) → Ascends low high rows
    → Ascends low high (update_where p f rows)
Ascends-update p f same low high [] h = h
Ascends-update p f same low high (r ∷ rows) h = ground (
  arith,
  Ascends-update p f same (suc r.id) high rows h.1,
  same r,
  ap (λ n. Ascends (suc n) high (update_where p f rows)) (same r),
)

Ascends-mono :
    (low m n : ℕ) (rows : List OutboxRow) → m ≤ n → Ascends low m rows → Ascends low n rows
Ascends-mono low m n [] le h = omega arith
Ascends-mono low m n (r ∷ rows) le h = (h.0, Ascends-mono (suc r.id) m n rows le h.1)

Ascends-append_new :
    (low n : ℕ) (r : OutboxRow) (rows : List OutboxRow)
    → r.id ≡ n
    → Ascends low n rows
    → Ascends low (n + 1) (rows ++ r ∷ [])
Ascends-append_new low n r [] e h = (omega arith, omega arith)
Ascends-append_new low n r (q ∷ rows) e h = (h.0, Ascends-append_new (suc q.id) n r rows e h.1)

module _ (p : EventRow → Bool) (f : EventRow → EventRow)
    (same : (r : EventRow) → (f r).id ≡ r.id) where
  pub update_events-IsValid :
      (db : Db) → IsValid db → IsValid (record db { events = update_where p f db.events })
  update_events-IsValid db v = record {
    events = Distinct-update event_key p f same db.events v.events;
    outbox = v.outbox;
    letters = v.letters;
    numbered = v.numbered;
    linked = λ k. ground (arith, find-update event_key p f same k db.events, v.linked k);
  }

module _ (p : OutboxRow → Bool) (f : OutboxRow → OutboxRow)
    (same : (r : OutboxRow) → (f r).event_id ≡ r.event_id)
    (same_id : (r : OutboxRow) → (f r).id ≡ r.id) where
  pub update_outbox-IsValid :
      (db : Db) → IsValid db → IsValid (record db { outbox = update_where p f db.outbox })
  update_outbox-IsValid db v = record {
    events = v.events;
    outbox = Distinct-update outbox_key p f same db.outbox v.outbox;
    letters = v.letters;
    numbered = Ascends-update p f same_id 0 db.outbox_seq db.outbox v.numbered;
    linked = λ k. ground (arith, find-update outbox_key p f same k db.outbox, v.linked k);
  }

module _ (p : DeadLetterRow → Bool) (f : DeadLetterRow → DeadLetterRow)
    (same : (r : DeadLetterRow) → (f r).event_id ≡ r.event_id) where
  pub update_letters-IsValid :
      (db : Db)
      → IsValid db
      → IsValid (record db { dead_letters = update_where p f db.dead_letters })
  update_letters-IsValid db v = record {
    events = v.events;
    outbox = v.outbox;
    letters = Distinct-update dead_key p f same db.dead_letters v.letters;
    numbered = v.numbered;
    linked = v.linked;
  }

letters-IsValid :
    (rows : List DeadLetterRow) (db : Db)
    → IsValid db
    → Distinct dead_key rows
    → IsValid (record db { dead_letters = rows })
letters-IsValid rows db v d = record {
  events = v.events;
  outbox = v.outbox;
  letters = d;
  numbered = v.numbered;
  linked = v.linked;
}

pub upsert-IsValid :
    (row : DeadLetterRow) (at : ℤ) (db : Db) → IsValid db → IsValid (upsert_dead_letter row at db).0
unfolding upsert_dead_letter
upsert-IsValid row at db v = elim (Option-cases (find dead_key row.event_id db.dead_letters)) [
  | inl new ↦
      rw (new, upsert_dead_letter)
        (letters-IsValid _ db v (Distinct-append_new dead_key row db.dead_letters new v.letters))
  | inr (old, e) ↦
      rw (e, upsert_dead_letter)
        (letters-IsValid _ db v (
          Distinct-update dead_key (is_letter row.event_id) (refresh row at) (λ r. refl)
            db.dead_letters v.letters))
]

-- An event with its message: what the transaction of an acceptance adds.
pub accept-IsValid :
    (event : Event) (payload : String) (at : ℤ) (db : Db)
    → IsValid db
    → find event_key event.id db.events ≡ none
    → IsValid (record db {
      events = db.events ++ queued_row event payload at ∷ [];
      outbox =
          db.outbox
          ++ pending_row db.outbox_seq event.id event.type event.request_id payload at ∷ [];
      outbox_seq = db.outbox_seq + 1;
    })
accept-IsValid event payload at db v fresh = record {
  events = Distinct-append_new event_key (queued_row event payload at) db.events fresh v.events;
  outbox = Distinct-append_new outbox_key row db.outbox free v.outbox;
  letters = v.letters;
  numbered = Ascends-append_new 0 db.outbox_seq row db.outbox refl v.numbered;
  linked = λ k. ground (
    arith,
    find-append_new event_key k (queued_row event payload at) db.events fresh,
    find-append_new outbox_key k row db.outbox free,
    v.linked k,
  );
}
  where
    row : OutboxRow
    row = pending_row db.outbox_seq event.id event.type event.request_id payload at

    free : find outbox_key event.id db.outbox ≡ none
    free = ground (arith, v.linked event.id)

-- The sequence may run ahead.
later-IsValid :
    (n : ℕ) (db : Db) → IsValid db → db.outbox_seq ≤ n → IsValid (record db { outbox_seq = n })
later-IsValid n db v h = record {
  events = v.events;
  outbox = v.outbox;
  letters = v.letters;
  numbered = Ascends-mono 0 db.outbox_seq n db.outbox h v.numbered;
  linked = v.linked;
}

-- With an event whose message is there already, or with none, an insertion is refused.
pub insert_outbox-IsValid :
    (id type request_id payload : String) (at : ℤ) (db : Db)
    → IsValid db
    → IsValid (insert_outbox id type request_id payload at db).0
unfolding insert_outbox
insert_outbox-IsValid id type request_id payload at db v =
    ground (arith, v.linked id, later-IsValid (db.outbox_seq + 1) db v (omega arith))

pub rollback-IsValid : (db : Db) (s : State) → IsValid db → IsValid (rollback db s).db
rollback-IsValid db s v = later-IsValid (max db.outbox_seq s.db.outbox_seq) db v (omega arith)
