-- ===== src/ProjectBy/Inlined.antt =====
-- The GROUP BY repeats the calls of the select list.
use mathlib.Core.Option
use Prim.Native.String.{◌++◌ as str_append}
use vexnor.Base.{String, Option, none, some, List, [], ◌∷◌, ◌++◌}
use vexnor.FilterBy.{Token, text, value}
use vexnor.ProjectBy.Transform.{Arg, inline_literal}

abbrev literal_of : Option Arg → String
literal_of none = "NULL"
literal_of (some a) = inline_literal a

-- The text of the tokens, with each bound value written as a literal in its place.
unfoldable pub inlined : List (Token Arg) → String
inlined [] = ""
inlined (text s ∷ ts) = str_append s (inlined ts)
inlined (value o ∷ ts) = str_append (literal_of o) (inlined ts)
