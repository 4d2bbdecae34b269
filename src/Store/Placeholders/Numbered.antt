-- ===== src/Store/Placeholders/Numbered.antt =====
-- `bind` of event_store.go, told by the pieces of a query.
use Prim.Native.Char.{Char, code}
use Prim.Native.String.{◌++◌ as append}
use go_webhook_processor.Prelude.{
  ℕ, ◌+◌, String, ◌≡◌, refl, Bool, true, false, List, [], ◌∷◌, eqb, if◌then◌else◌, ap, ◌∙◌, sym,
}
use text.Mathlib.TextLemmas.{append_assoc, cons-append, nil-append}
use go_webhook_processor.Text.Decimal.{format_ℕ}
use go_webhook_processor.Store.Placeholders.{bind_from, bind}

-- A query cut at each question mark: the text before the first, and the text after each.
unfoldable pub pieces : String → String × List String
pieces String.[] = (String.[], [])
pieces (String.◌∷◌ c s) =
    let (first, others) = pieces s in
    if eqb (code c) 63 then (String.[], first ∷ others) else (String.◌∷◌ c first, others)

-- The pieces after a `$` and their number, from `n` on.
unfoldable pub numbered : ℕ → List String → String
numbered n [] = String.[]
numbered n (piece ∷ others) =
    append "$" (append (format_ℕ n) (append piece (numbered (n + 1) others)))

-- One round of the loop, with its test decided.
round-numbered :
    (is_mark : Bool) (c : Char) (n : ℕ) (s : String) (first : String) (others : List String)
    → bind_from n s ≡ append first (numbered n others)
    → bind_from (n + 1) s ≡ append first (numbered (n + 1) others)
    → (if is_mark
        then append (append "$" (format_ℕ n)) (bind_from (n + 1) s)
        else String.◌∷◌ c (bind_from n s))
      ≡ (let (p, ps) : String × List String =
            if is_mark then (String.[], first ∷ others) else (String.◌∷◌ c first, others) in
          append p (numbered n ps))
unfolding numbered
round-numbered true c n s first others same next =
    append_assoc "$" (format_ℕ n) (bind_from (n + 1) s)
    ∙ ap (λ t. append "$" (append (format_ℕ n) t)) next
    ∙ sym (nil-append (numbered n (first ∷ others)))
round-numbered false c n s first others same next =
    ap (String.◌∷◌ c) same ∙ sym (cons-append c first (numbered n others))

bind_from-numbered :
    (query : String) (n : ℕ)
    → bind_from n query ≡ append (pieces query).0 (numbered n (pieces query).1)
unfolding bind_from pieces numbered
bind_from-numbered String.[] n = refl
bind_from-numbered (String.◌∷◌ c s) n =
    round-numbered (eqb (code c) 63) c n s (pieces s).0 (pieces s).1 (bind_from-numbered s n)
      (bind_from-numbered s (n + 1))

-- For every query, bind gives the query's pieces between the question marks, in order, with the
-- k-th mark replaced by a dollar sign and the decimal k, counted from 1.
pub bind-numbered :
    (query : String) → bind query ≡ append (pieces query).0 (numbered 1 (pieces query).1)
unfolding bind
bind-numbered query = bind_from-numbered query 1
