-- ===== src/DeadLetter/Capacity.antt =====
-- DeadLetterStore of deadletter.go: the ring of the latest dead letters.
use go_webhook_processor.Prelude.{
  ℕ, suc, ◌+◌, ◌≤◌, ◌<◌, String, ◌≡◌, refl, ap, Option, none, some, List, [], ◌∷◌, ◌++◌, length,
  map, Bool-cases, inl, inr, arith, eqb, ltb, if◌then◌else◌,
}
use go_webhook_processor.Prelude.Int.{ℤ, pos}
use go_webhook_processor.Models.{Event}
use go_webhook_processor.Store.DeadLetters.{DeadLetter}
use go_webhook_processor.DeadLetter.{DeadLetterStore, add}

-- One permanent failure: its event, its error text, its attempts and its time.
pub record Failure : Type 0 where
  pub event : Event
  pub error : String
  pub attempts : ℤ
  pub failed_at : ℤ

abbrev pub letter_of : Failure → DeadLetter
letter_of f = record {
  event = f.event;
  error = f.error;
  attempts = f.attempts;
  failed_at = f.failed_at;
  replayed_at = none;
}

abbrev pub add_all : List Failure → DeadLetterStore → Option DeadLetterStore
add_all [] s = some s
add_all (f ∷ failures) s = elim (add s f.event f.error f.attempts f.failed_at) [
  | none ↦ none
  | some s1 ↦ add_all failures s1
]

-- The last `n` elements of a list.
abbrev pub last_of : {A : Type 0} → ℕ → List A → List A
last_of n [] = []
last_of n (x ∷ xs) = let rest = last_of n xs in if ltb (length xs) n then x ∷ xs else rest

last_of-short : {A : Type 0} (n : ℕ) (xs : List A) → length xs ≤ n → last_of n xs ≡ xs
last_of-short n [] h = refl
last_of-short n (x ∷ xs) h = ground arith

length-append : {A : Type 0} (xs ys : List A) → length (xs ++ ys) ≡ length xs + length ys
length-append [] ys = ground arith
length-append (x ∷ xs) ys = ground (arith, length-append xs ys)

append_assoc_one :
    {A : Type 0} (xs : List A) (y : A) (ys : List A) → (xs ++ y ∷ []) ++ ys ≡ xs ++ y ∷ ys
append_assoc_one [] y ys = refl
append_assoc_one (x ∷ xs) y ys = ap (λ t. x ∷ t) (append_assoc_one xs y ys)

append_nil : {A : Type 0} (xs : List A) → xs ++ [] ≡ xs
append_nil [] = refl
append_nil (x ∷ xs) = ap (λ t. x ∷ t) (append_nil xs)

-- Adding any failures to the in-memory dead letters, of a positive capacity that the items do not
-- exceed, never panics, and leaves the latest ones, in order, up to the capacity.
pub add_all_lem :
    (failures : List Failure) (n : ℕ) (items : List DeadLetter)
    → 0 < n
    → length items ≤ n
    → add_all failures (record { capacity = pos n; items = items })
      ≡ some (record { capacity = pos n; items = last_of n (items ++ map letter_of failures) })
unfolding add
add_all_lem [] n items p h =
    ap (λ t. some (record { capacity = pos n; items = t }))
      (ground (arith, append_nil items, last_of-short n items))
add_all_lem (f ∷ failures) n [] p h = ground (arith, add_all_lem failures n (letter_of f ∷ []))
add_all_lem (f ∷ failures) n (x ∷ items) p h = elim (Bool-cases (eqb (suc (length items)) n)) [
  | inl full ↦ ground (
    arith,
    add_all_lem failures n (items ++ letter_of f ∷ []),
    length-append items (letter_of f ∷ []),
    length-append items (letter_of f ∷ map letter_of failures),
    append_assoc_one items (letter_of f) (map letter_of failures),
  )
  | inr room ↦ ground (
    arith,
    add_all_lem failures n (x ∷ items ++ letter_of f ∷ []),
    length-append items (letter_of f ∷ []),
    append_assoc_one items (letter_of f) (map letter_of failures),
  )
]
