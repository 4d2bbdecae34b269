-- ===== src/Prelude/Select.antt =====
-- SELECT … WHERE … ORDER BY … LIMIT on a table with a key: which keys are among the rows.
use Prim.Native.Nat.{ℕ, zero, suc}
use Prim.Native.String.{String}
use mathlib.Core.Path.{◌≡◌, refl, subst}
use mathlib.Core.Bool.{Bool, true, false, ◌||◌}
use mathlib.Core.Option.{Option, none, some}
use mathlib.Core.List.{List, [], ◌∷◌}
use native.Mathlib.Omega.{arith}
use text.Mathlib.Text.{◌==◌}
use text.Mathlib.TextEquality.{eq_iff}
use go_webhook_processor.Prelude.Tests.{is_some}
use go_webhook_processor.Prelude.Lists.{take, filter}
use go_webhook_processor.Prelude.Table.{find, Distinct, insert_by, order_by}

abbrev pub row_test {ℓ} : {A : Type ℓ} → (A → Bool) → Option A → Bool
row_test p none = false
row_test p (some r) = p r

module _ {ℓ} {A : Type ℓ} (key : A → String) where
  abbrev pub has : String → List A → Bool
  has k xs = is_some (find key k xs)

  pub has-take : (n : ℕ) (k : String) (xs : List A) → has k (take n xs) ≡ true → has k xs ≡ true
  has-take zero k xs h = cc
  has-take (suc n) k [] h = h
  has-take (suc n) k (x ∷ xs) h = ground (arith, has-take n k xs)

  has-insert_by :
      (before : A → A → Bool) (k : String) (x : A) (xs : List A)
      → has k (insert_by before x xs) ≡ (key x == k || has k xs)
  has-insert_by before k x [] = ground arith
  has-insert_by before k x (y ∷ xs) = ground (arith, has-insert_by before k x xs)

  pub has-order_by :
      (before : A → A → Bool) (k : String) (xs : List A) → has k (order_by before xs) ≡ has k xs
  has-order_by before k [] = refl
  has-order_by before k (x ∷ xs) =
      ground (arith, has-insert_by before k x (order_by before xs), has-order_by before k xs)

  has-filter-none :
      (p : A → Bool) (k : String) (xs : List A) → find key k xs ≡ none → has k (filter p xs) ≡ false
  has-filter-none p k [] h = refl
  has-filter-none p k (x ∷ xs) h = ground (arith, has-filter-none p k xs)

  -- Keys are distinct, so a row that a filter keeps is the row of its key.
  pub has-filter :
      (p : A → Bool) (k : String) (xs : List A)
      → Distinct key xs
      → has k (filter p xs) ≡ row_test p (find key k xs)
  has-filter p k [] d = refl
  has-filter p k (x ∷ xs) d = ground (
    arith,
    has-filter p k xs d.1,
    has-filter-none p k xs,
    subst (λ t. (key x == k) ≡ true → find key t xs ≡ none),
    eq_iff (key x) k,
  )
