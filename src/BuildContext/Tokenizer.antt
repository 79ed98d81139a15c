-- ===== src/BuildContext/Tokenizer.antt =====
-- core/builder/default-tokenizer.ts, on the lower case of a text.
use mathlib.Core.Option
use Prim.Native.Char.{Char, code}
use Prim.Native.String.{[], ◌∷◌}
use vexnor.Base.{
  ℕ, zero, suc, String, Bool, true, false, ◌&&◌, ◌||◌, not, Option, none, some, List, if◌then◌else◌,
  leb, nat_eq,
}
use vexnor.Errors.{Outcome, returned, threw, other_error}
use vexnor.BuildContext.Keywords.{major_keywords}
use vexnor.BuildContext.Scope.{is_space}

abbrev pub char_count : String → ℕ
char_count [] = 0
char_count (c ∷ s) = suc (char_count s)

abbrev pub is_digit : ℕ → Bool
is_digit c = leb b'0' c && leb c b'9'

abbrev pub starts_name : ℕ → Bool
starts_name c = (leb b'a' c && leb c b'z') || nat_eq c b'_'

-- /\w/
abbrev pub is_word : ℕ → Bool
is_word c = starts_name c || is_digit c || (leb b'A' c && leb c b'Z')

-- [-><=!*+\/%]
abbrev pub is_operator : ℕ → Bool
is_operator c =
    nat_eq c b'-'
    || nat_eq c b'>'
    || nat_eq c b'<'
    || nat_eq c b'='
    || nat_eq c b'!'
    || nat_eq c b'*'
    || nat_eq c b'+'
    || nat_eq c b'/'
    || nat_eq c b'%'

-- What the dot of a pattern does not match.
abbrev pub is_line_end : ℕ → Bool
is_line_end c = nat_eq c 10 || nat_eq c 13 || nat_eq c 0x2028 || nat_eq c 0x2029

-- The longest beginning of such characters, and the rest.
unfoldable pub span : (ℕ → Bool) → String → String × String
span p [] = ([], [])
span p (c ∷ s) = let r = span p s in if p (code c) then (c ∷ r.0, r.1) else ([], c ∷ s)

-- What follows the prefix, where the text starts with it.
unfoldable pub strip : (prefix : String) → String → Option String
strip [] s = some s
strip (c ∷ p) [] = none
strip (c ∷ p) (d ∷ s) = let rest = strip p s in if nat_eq (code c) (code d) then rest else none

-- What follows the first place of the text, or the end.
unfoldable pub behind : String → String → String
unfolding strip
behind ender [] = []
behind ender (c ∷ s) =
    let rest = behind ender s in elim (strip ender (c ∷ s)) [ some r ↦ r | none ↦ rest ]

-- From the first line feed on, or the end.
unfoldable pub from_line_feed : String → String
from_line_feed [] = []
from_line_feed (c ∷ s) = let rest = from_line_feed s in if nat_eq (code c) 10 then c ∷ s else rest

-- Whether nothing or no word character follows.
abbrev pub ends_word : String → Bool
ends_word [] = true
ends_word (c ∷ s) = not (is_word (code c))

-- The loop over the keywords: the first that stands here, and what follows it.
unfoldable pub keyword_at : List String → String → Option (String × String)
unfolding strip
keyword_at List.[] s = none
keyword_at (List.◌∷◌ k ks) s =
    let later = keyword_at ks s in
    elim (strip k s) [ none ↦ later | some r ↦ if ends_word r then some (k, r) else later ]

-- /\$[0-9]+/, anywhere in the text
abbrev pub starts_digit : String → Bool
starts_digit [] = false
starts_digit (c ∷ s) = is_digit (code c)

unfoldable pub has_dollar : String → Bool
has_dollar [] = false
has_dollar (c ∷ s) = let rest = has_dollar s in (nat_eq (code c) b'$' && starts_digit s) || rest

-- One turn of the loop: a token and the rest, the rest alone, or the error.
pub data Turn : Type 0 where
  push : (token rest : String) → Turn
  skip : (rest : String) → Turn
  forbidden : Turn

-- .?[0-9]*
unfoldable pub number_tail : String → String × String
unfolding span
number_tail [] = ([], [])
number_tail (c ∷ s) =
    let r = span is_digit s in if is_line_end (code c) then ([], c ∷ s) else (c ∷ r.0, r.1)

abbrev pub append_text : String → String → String
append_text [] t = t
append_text (c ∷ s) t = c ∷ append_text s t

-- The fifth case, and what is left: identifiers, numbers, operators and parameters.
unfoldable pub turn_word : Char → String → Turn
unfolding span number_tail has_dollar
turn_word c s =
    if starts_name (code c)
    then (let r = span is_word s in push (c ∷ r.0) r.1)
    else if is_digit (code c)
    then (let r = span is_digit s in let t = number_tail r.1 in push (c ∷ append_text r.0 t.0) t.1)
    else if is_operator (code c)
    then (let r = span is_operator s in push (c ∷ r.0) r.1)
    else if nat_eq (code c) b'?' || nat_eq (code c) b'@' || has_dollar (c ∷ s)
    then forbidden
    else skip s

abbrev is_single : ℕ → Bool
is_single c = nat_eq c b'(' || nat_eq c b')' || nat_eq c b','

-- The third and the fourth case.
unfoldable pub turn_keyword : Char → String → Turn
unfolding keyword_at turn_word
turn_keyword c s = elim (keyword_at major_keywords (c ∷ s)) [
  | some r ↦ push r.0 r.1
  | none ↦ if is_single (code c) then push (c ∷ []) s else turn_word c s
]

abbrev pub starts : ℕ → String → Bool
starts d [] = false
starts d (c ∷ s) = nat_eq (code c) d

abbrev pub opens_string : ℕ → Bool
opens_string c = nat_eq c 39 || nat_eq c 34 || nat_eq c 96

abbrev pub rest_of : String → String
rest_of [] = []
rest_of (c ∷ s) = s

-- One turn at a text that is not at its end.
unfoldable pub turn : Char → String → Turn
unfolding span from_line_feed behind turn_keyword
turn c s =
    if is_space (code c)
    then skip (span is_space s).1
    else if nat_eq (code c) b'-' && starts b'-' s
    then skip (from_line_feed s)
    else if nat_eq (code c) b'/' && starts b'*' s
    then skip (behind "*/" s)
    else if opens_string (code c)
    then skip (behind (c ∷ []) s)
    else if nat_eq (code c) b'$' && starts b'$' s
    then skip (behind "$$" (rest_of s))
    else turn_keyword c s

abbrev pub prepend : String → Outcome (List String) → Outcome (List String)
prepend t (returned ts) = returned (List.◌∷◌ t ts)
prepend t (threw e) = threw e

-- The loop; `none` is the end of the fuel.
unfoldable pub tokenize_from : ℕ → String → Option (Outcome (List String))
unfolding turn
tokenize_from zero s = none
tokenize_from (suc fuel) [] = some (returned List.[])
tokenize_from (suc fuel) (c ∷ s) = elim (turn c s) [
  | push t r ↦ Option.map (prepend t) (tokenize_from fuel r)
  | skip r ↦ tokenize_from fuel r
  | forbidden ↦ some (threw (other_error "SqlBuildError"))
]

-- `tokenize`, with a turn for each character and one for the end
unfoldable pub tokenize : String → Option (Outcome (List String))
unfolding tokenize_from
tokenize s = tokenize_from (suc (char_count s)) s
