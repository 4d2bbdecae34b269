-- ===== src/Text/Hex.antt =====
-- hex.EncodeToString of Go's encoding/hex, by which event_store.go and request_id.go write random
-- bytes, and its inverse.
pub mod RoundTrip
use Prim.Native.Char.{Char, code}
use go_webhook_processor.Prelude.{
  ℕ, zero, suc, ◌+◌, ◌-◌, ◌*◌, ◌/◌, ◌%◌, String, ◌&&◌, Option, none, some, List, [], ◌∷◌, leb,
  if◌then◌else◌,
}

nth : List Char → ℕ → Char
nth [] n = "?"
nth (c ∷ cs) zero = c
nth (c ∷ cs) (suc n) = nth cs n

abbrev hextable : List Char
hextable =
    "0" ∷ "1" ∷ "2" ∷ "3" ∷ "4" ∷ "5" ∷ "6" ∷ "7" ∷ "8" ∷ "9" ∷ "a" ∷ "b" ∷ "c" ∷ "d" ∷ "e" ∷ "f"
    ∷ []

unfoldable pub digit : ℕ → Char
unfolding nth
digit n = nth hextable n

unfoldable pub hex_encode : List ℕ → String
hex_encode [] = String.[]
hex_encode (b ∷ bs) = String.◌∷◌ (digit (b / 16)) (String.◌∷◌ (digit (b % 16)) (hex_encode bs))

-- The value of a hexadecimal digit in lower case.
unfoldable pub digit_value : Char → Option ℕ
digit_value c =
    if leb 48 (code c) && leb (code c) 57
    then some (code c - 48)
    else if leb 97 (code c) && leb (code c) 102
    then some (code c - 87)
    else none

-- The bytes that a text of hexadecimal digits stands for.
unfoldable pub hex_decode : String → Option (List ℕ)
hex_decode String.[] = some []
hex_decode (String.◌∷◌ c String.[]) = none
hex_decode (String.◌∷◌ c (String.◌∷◌ d s)) = elim (digit_value c) [
  | none ↦ none
  | some high ↦ elim (digit_value d) [
    | none ↦ none
    | some low ↦ elim (hex_decode s) [ none ↦ none | some bytes ↦ some ((high * 16 + low) ∷ bytes) ]
  ]
]
