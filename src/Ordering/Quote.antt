-- ===== src/Ordering/Quote.antt =====
-- core/operators/sql-order-by.ts: names in quotes, `"${field.replace(/"/g, '""')}"`.
use mathlib.Core.Option
use Prim.Native.String.{[], ◌∷◌, ◌++◌}
use Prim.Native.Char.{Char, code}
use text.Mathlib.TextLemmas.{
  nil-append, cons-append, append-ne-nil_of_right_ne-nil, cons-ne-nil, append_assoc,
}
use vexnor.Base.{
  String, Bool, true, false, Option, none, some, nat_eq, ◌≡◌, ◌≢◌, refl, ap, ◌∙◌, if◌then◌else◌,
  Bool-cases, inl, inr,
}

abbrev pub is_quote : Char → Bool
is_quote c = nat_eq (code c) 34

-- Each quote is doubled.
unfoldable pub escape : String → String
escape [] = []
escape (c ∷ s) = let rest = escape s in if is_quote c then c ∷ c ∷ rest else c ∷ rest

unfoldable pub quoted : String → String
unfolding escape
quoted s = "\"" ∷ (escape s ++ ("\"" ∷ []))

abbrev pub before_rest : Char → Option (String × String) → Option (String × String)
before_rest c = Option.map (λ (r : String × String). (c ∷ r.0, r.1))

-- How a database reads a quoted name behind its first quote: up to a quote that is not doubled.
unfoldable pub read_name : String → Option (String × String)
read_name [] = none
read_name (c ∷ []) = if is_quote c then some ([], []) else none
read_name (c ∷ d ∷ s) =
    let doubled = before_rest c (read_name s) in
    let plain = before_rest c (read_name (d ∷ s)) in
    if is_quote c then (if is_quote d then doubled else some ([], d ∷ s)) else plain

-- The text does not begin with a quote.
abbrev pub NoQuote : String → Type 0
NoQuote [] = Unit
NoQuote (c ∷ s) = is_quote c ≡ false

read_close : (rest : String) → NoQuote rest → read_name ("\"" ∷ rest) ≡ some ([], rest)
unfolding read_name
read_close [] h = refl
read_close (c ∷ s) h = rw h refl

read_plain :
    (c : Char) (s : String)
    → is_quote c ≡ false
    → (s ≢ [])
    → read_name (c ∷ s) ≡ before_rest c (read_name s)
unfolding read_name
read_plain c [] h n = absurd (n refl)
read_plain c (d ∷ s) h n = rw h refl

read-escape :
    (s rest : String) → NoQuote rest → read_name (escape s ++ ("\"" ∷ rest)) ≡ some (s, rest)
unfolding escape
read-escape [] rest h = rw nil-append (read_close rest h)
read-escape (c ∷ s) rest h = elim (Bool-cases (is_quote c)) [
  | inl e ↦ rw e (rw cons-append (rw cons-append (doubled c s rest e (read-escape s rest h))))
  | inr e ↦ rw e (
      rw cons-append (
        read_plain c (escape s ++ ("\"" ∷ rest)) e
          (append-ne-nil_of_right_ne-nil (escape s) (cons-ne-nil "\"" rest))
        ∙ ap (before_rest c) (read-escape s rest h)))
]
  where
    doubled :
        (c : Char) (s rest : String)
        → is_quote c ≡ true
        → read_name (escape s ++ ("\"" ∷ rest)) ≡ some (s, rest)
        → read_name (c ∷ c ∷ (escape s ++ ("\"" ∷ rest))) ≡ some (c ∷ s, rest)
    doubled c s rest e ih = unfold read_name in rw e (ap (before_rest c) ih)

-- A quoted name, with its first quote.
unfoldable pub read_quoted : String → Option (String × String)
unfolding read_name
read_quoted [] = none
read_quoted (c ∷ s) = if is_quote c then read_name s else none

-- A quoted name ends where it should: a reader of quoted names gets the name as it was given, and
-- what stands behind it is left, whatever the name holds, if that does not begin with a quote.
pub read-quoted : (s rest : String) → NoQuote rest → read_quoted (quoted s ++ rest) ≡ some (s, rest)
unfolding read_quoted quoted
read-quoted s rest h = rw (cons-append "\"" (escape s ++ ("\"" ∷ [])) rest) (
    ap read_name (
      append_assoc (escape s) ("\"" ∷ []) rest
      ∙ ap (λ t. escape s ++ t) (cons-append "\"" [] rest ∙ ap (λ t. "\"" ∷ t) (nil-append rest)))
    ∙ read-escape s rest h)
