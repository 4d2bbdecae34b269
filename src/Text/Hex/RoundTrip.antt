-- ===== src/Text/Hex/RoundTrip.antt =====
-- What hexadecimal writing keeps of the bytes.
use go_webhook_processor.Prelude.{
  ℕ, zero, suc, ◌/◌, ◌%◌, ◌<◌, ◌≡◌, refl, subst, inl, inr, Bool, true, false, ◌&&◌, eqb, none, some,
  List, [], ◌∷◌, All, arith, Bool-cases, Option-cases,
}
use go_webhook_processor.Text.Hex.{digit, hex_encode, digit_value, hex_decode}

-- A test at each number below a bound.
all_below : (ℕ → Bool) → ℕ → Bool
all_below p zero = true
all_below p (suc n) = p n && all_below p n

all_below-at : (p : ℕ → Bool) (n k : ℕ) → all_below p n ≡ true → k < n → p k ≡ true
unfolding all_below
all_below-at p zero k all h = absurd (omega arith)
all_below-at p (suc n) k all h = elim (Bool-cases (eqb k n)) [
  | inl last ↦ subst (λ t. p t ≡ true) {x = n} {y = k} (ground (arith, last)) (ground (arith, all))
  | inr below ↦ all_below-at p n k (ground (arith, all)) (ground (arith, below, h))
]

abbrev recovered : ℕ → Bool
recovered n = elim (digit_value (digit n)) [ none ↦ false | some v ↦ eqb v n ]

all_recovered : all_below recovered 16 ≡ true
unfolding all_below digit_value digit
all_recovered = refl

digit_value-digit : (n : ℕ) → n < 16 → digit_value (digit n) ≡ some n
digit_value-digit n h =
    let known = all_below-at recovered 16 n all_recovered h in
    elim (Option-cases (digit_value (digit n))) [
      | inl no_value ↦ ground (arith, known, no_value)
      | inr (v, e) ↦ ground (arith, known, e)
    ]

-- Decoding the text of bytes gives back the bytes.
pub hex_decode-hex_encode :
    (bytes : List ℕ) → All (λ b. b < 256) bytes → hex_decode (hex_encode bytes) ≡ some bytes
unfolding hex_decode hex_encode
hex_decode-hex_encode [] a = refl
hex_decode-hex_encode (b ∷ bytes) (h, a) = ground (
  arith,
  digit_value-digit (b / 16) (omega arith),
  digit_value-digit (b % 16) (omega arith),
  hex_decode-hex_encode bytes a,
)
