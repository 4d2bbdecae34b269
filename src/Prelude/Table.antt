-- ===== src/Prelude/Table.antt =====
-- SQL statements on a table, as functions on its list of rows. `key` is the column of the primary
-- key (or of a UNIQUE constraint), a text.
use Prim.Native.Nat.{ℕ, ◌+◌}
use Prim.Native.String.{String}
use mathlib.Core.Path.{◌≡◌, refl, ap}
use mathlib.Core.Logic.{◌≢◌}
use mathlib.Core.Bool.{Bool, true, not, ◌&&◌}
use mathlib.Core.Option.{Option, none, some}
use mathlib.Core.List.{List, [], ◌∷◌, ◌++◌}
use native.Mathlib.Omega.{arith}
use text.Mathlib.Text.{◌==◌}
use text.Mathlib.TextEquality.{eq_iff}
use go_webhook_processor.Prelude.Tests.{if◌then◌else◌, eqb, is_some}

module _ {ℓ} {A : Type ℓ} where
  -- UPDATE … SET f WHERE p, and the count of rows that it affects.
  abbrev pub update_where : (A → Bool) → (A → A) → List A → List A
  update_where p f [] = []
  update_where p f (x ∷ xs) = (if p x then f x else x) ∷ update_where p f xs

  abbrev pub count_where : (A → Bool) → List A → ℕ
  count_where p [] = 0
  count_where p (x ∷ xs) = (if p x then 1 else 0) + count_where p xs

  -- ORDER BY, as an insertion sort; rows that tie keep their order.
  abbrev pub insert_by : (A → A → Bool) → A → List A → List A
  insert_by before x [] = x ∷ []
  insert_by before x (y ∷ ys) = if before x y then x ∷ y ∷ ys else y ∷ insert_by before x ys

  abbrev pub order_by : (A → A → Bool) → List A → List A
  order_by before [] = []
  order_by before (x ∷ xs) = insert_by before x (order_by before xs)

module _ {ℓ} {A : Type ℓ} (key : A → String) where
  -- The row of a key: the primary key's index.
  abbrev pub find : String → List A → Option A
  find k [] = none
  find k (x ∷ xs) = if key x == k then some x else find k xs

  -- No two rows have one key.
  abbrev pub Distinct : List A → Type ℓ
  Distinct [] = Unit
  Distinct (x ∷ xs) = (find (key x) xs ≡ none) × Distinct xs

abbrev pub update_row {ℓ} : {A : Type ℓ} → (A → Bool) → (A → A) → Option A → Option A
update_row p f none = none
update_row p f (some x) = some (if p x then f x else x)

module _ {ℓ} {A : Type ℓ} (key : A → String) (p : A → Bool) (f : A → A)
    (same : (x : A) → key (f x) ≡ key x) where
  -- An update that keeps the key acts on the row of each key on its own.
  pub find-update :
      (k : String) (xs : List A) → find key k (update_where p f xs) ≡ update_row p f (find key k xs)
  find-update k [] = refl
  find-update k (x ∷ xs) = ground (arith, find-update k xs, same x, ap (λ t. t == k) (same x))

  pub Distinct-update : (xs : List A) → Distinct key xs → Distinct key (update_where p f xs)
  Distinct-update [] d = tt
  Distinct-update (x ∷ xs) d = ground (
    arith,
    Distinct-update xs d.1,
    same x,
    find-update (key x) xs,
    ap (λ k. find key k (update_where p f xs)) (same x),
  )

module _ {ℓ} {A : Type ℓ} (key : A → String) where
  -- An inserted row is found under its key, and the other keys' rows stay.
  pub find-append_new :
      (k : String) (x : A) (xs : List A)
      → find key (key x) xs ≡ none
      → find key k (xs ++ x ∷ []) ≡ (if key x == k then some x else find key k xs)
  find-append_new k x [] h = refl
  find-append_new k x (y ∷ xs) h =
      ground
        (arith, find-append_new k x xs, eq_iff (key y) k, eq_iff (key x) k, eq_iff (key y) (key x))

  pub Distinct-append_new :
      (x : A) (xs : List A)
      → find key (key x) xs ≡ none
      → Distinct key xs
      → Distinct key (xs ++ x ∷ [])
  Distinct-append_new x [] h d = (refl, tt)
  Distinct-append_new x (y ∷ xs) h d = ground (
    arith,
    Distinct-append_new x xs,
    find-append_new (key y) x xs,
    eq_iff (key x) (key y),
    eq_iff (key y) (key x),
  )

  abbrev hits : (A → Bool) → Option A → ℕ
  hits c none = 0
  hits c (some x) = if c x then 1 else 0

  -- `WHERE key = k AND c` affects one row or none: the row of the key, if the condition holds of it.
  count_where-none :
      (k : String) (c : A → Bool) (xs : List A)
      → find key k xs ≡ none
      → count_where (λ x. key x == k && c x) xs ≡ 0
  count_where-none k c [] h = refl
  count_where-none k c (x ∷ xs) h = ground (arith, count_where-none k c xs)

  pub count_where-key :
      (k : String) (c : A → Bool) (xs : List A)
      → Distinct key xs
      → count_where (λ x. key x == k && c x) xs ≡ hits c (find key k xs)
  count_where-key k c [] d = refl
  count_where-key k c (x ∷ xs) d = ground (
    arith,
    count_where-key k c xs d.1,
    count_where-none k c xs,
    eq_iff (key x) k,
    ap (λ t. find key t xs) {x = key x} {y = k},
  )

  update-no_hit :
      (k : String) (c : A → Bool) (f : A → A) (xs : List A)
      → find key k xs ≡ none
      → update_where (λ x. key x == k && c x) f xs ≡ xs
  update-no_hit k c f [] h = refl
  update-no_hit k c f (x ∷ xs) h = ground (arith, update-no_hit k c f xs)

  -- An update that affects no row leaves the table as it was.
  pub update-unchanged :
      (k : String) (c : A → Bool) (f : A → A) (xs : List A)
      → Distinct key xs
      → hits c (find key k xs) ≡ 0
      → update_where (λ x. key x == k && c x) f xs ≡ xs
  update-unchanged k c f [] d h = refl
  update-unchanged k c f (x ∷ xs) d h = ground (
    arith,
    update-unchanged k c f xs d.1,
    update-no_hit k c f xs,
    eq_iff (key x) k,
    ap (λ t. find key t xs) {x = key x} {y = k},
  )

  -- The row that is found has the key that was asked for.
  pub find-key : (k : String) (xs : List A) (x : A) → find key k xs ≡ some x → key x ≡ k
  find-key k [] x h = cc
  find-key k (y ∷ xs) x h = ground (arith, find-key k xs x, eq_iff (key y) k)

  module _ (f : A → A) (same : (x : A) → key (f x) ≡ key x) where
    -- `UPDATE … WHERE key = k AND c` changes the row of `k` if the condition holds of it …
    pub find-update_self :
        (k : String) (c : A → Bool) (xs : List A)
        → find key k (update_where (λ x. key x == k && c x) f xs) ≡ update_row c f (find key k xs)
    find-update_self k c [] = refl
    find-update_self k c (x ∷ xs) =
        ground (arith, find-update_self k c xs, same x, ap (λ t. t == k) (same x))

    pub find-update_all :
        (k : String) (xs : List A)
        → find key k (update_where (λ x. key x == k) f xs)
          ≡ update_row (λ x. true) f (find key k xs)
    find-update_all k [] = refl
    find-update_all k (x ∷ xs) =
        ground (arith, find-update_all k xs, same x, ap (λ t. t == k) (same x))

    -- … and no other row.
    pub find-update_other :
        (k j : String) (c : A → Bool) (xs : List A)
        → j ≢ k
        → find key j (update_where (λ x. key x == k && c x) f xs) ≡ find key j xs
    find-update_other k j c [] h = refl
    find-update_other k j c (x ∷ xs) h = ground (
      arith,
      find-update_other k j c xs h,
      same x,
      ap (λ t. t == j) (same x),
      eq_iff (key x) k,
      eq_iff (key x) j,
    )

    pub find-update_all_other :
        (k j : String) (xs : List A)
        → j ≢ k
        → find key j (update_where (λ x. key x == k) f xs) ≡ find key j xs
    find-update_all_other k j [] h = refl
    find-update_all_other k j (x ∷ xs) h = ground (
      arith,
      find-update_all_other k j xs h,
      same x,
      ap (λ t. t == j) (same x),
      eq_iff (key x) k,
      eq_iff (key x) j,
    )

  -- `WHERE key = k` affects no row exactly where the key is missing.
  pub count_where-find :
      (k : String) (xs : List A)
      → eqb (count_where (λ x. key x == k) xs) 0 ≡ not (is_some (find key k xs))
  count_where-find k [] = refl
  count_where-find k (x ∷ xs) = ground (arith, count_where-find k xs)
