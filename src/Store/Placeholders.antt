-- ===== src/Store/Placeholders.antt =====
-- The placeholders of the queries of event_store.go, which `bind` numbers for PostgreSQL.
pub mod Numbered
use Prim.Native.Char.{code}
use Prim.Native.String.{◌++◌ as append}
use go_webhook_processor.Prelude.{ℕ, ◌+◌, String, eqb, if◌then◌else◌}
use go_webhook_processor.Text.Decimal.{format_ℕ}

-- The loop over the characters, with the number of the next placeholder. It counts at most the
-- characters of the query, so it does not overflow.
unfoldable pub bind_from : ℕ → String → String
bind_from placeholder String.[] = String.[]
bind_from placeholder (String.◌∷◌ character query) =
    let numbered = append (append "$" (format_ℕ placeholder)) (bind_from (placeholder + 1) query) in
    let kept = String.◌∷◌ character (bind_from placeholder query) in
    if eqb (code character) 63 then numbered else kept

unfoldable pub bind : String → String
unfolding bind_from
bind query = bind_from 1 query
