-- ===== src/Text/Decimal.antt =====
-- The verb %d of Go's package fmt, for an integer.
use mathlib.Core.Logic.{dite}
use mathlib.Core.WellFounded.{Acc}
use native.Mathlib.Decide.{dec_lt}
use Prim.Native.String.{◌++◌ as append}
use go_webhook_processor.Prelude.{
  ℕ, zero, suc, ◌+◌, ◌/◌, ◌%◌, ◌<◌, String, ◌≡◌, refl, arith, eqb, if◌then◌else◌,
}
use go_webhook_processor.Prelude.Int.{ℤ, pos, negsuc}
use go_webhook_processor.Text.Hex.{digit}

below-Acc : (bound n : ℕ) → n < bound → Acc ◌<◌ n
below-Acc zero n h = absurd (omega arith)
below-Acc (suc bound) n h = Acc.intro n λ m lt. below-Acc bound m (omega arith)

-- The digits of a number before those that are written already; a zero has none.
write_digits : (n : ℕ) → Acc ◌<◌ n → String → String
write_digits n (Acc.intro _ smaller) rest =
    dite (dec_lt 0 n)
      (λ h.
        write_digits (n / 10) (smaller (n / 10) (omega arith)) (String.◌∷◌ (digit (n % 10)) rest))
      (λ _. rest)

unfoldable pub format_ℕ : ℕ → String
unfolding write_digits below-Acc dec_lt digit
format_ℕ n = if eqb n 0 then "0" else write_digits n (below-Acc (suc n) n (omega arith)) String.[]

unfoldable pub format_ℤ : ℤ → String
unfolding format_ℕ
format_ℤ (pos n) = format_ℕ n
format_ℤ (negsuc n) = append "-" (format_ℕ (n + 1))

written : (format_ℤ (pos 1203) ≡ "1203") × (format_ℤ (negsuc 0) ≡ "-1") × (format_ℤ (pos 0) ≡ "0")
unfolding format_ℤ format_ℕ digit
written = (refl, refl, refl)

biggest : format_ℤ (pos 9223372036854775807) ≡ "9223372036854775807"
unfolding format_ℤ format_ℕ digit
biggest = refl
