-- ===== src/Ordering/Tests.antt =====
-- An order clause and a page on which the theorems are applied.
use vexnor.Base.{◌≡◌, refl, String, none, some, List, [], ◌∷◌}
use vexnor.Base.Dict.{lookup, has}
use vexnor.FilterBy.{Columns}
use vexnor.Ordering.{aggregate_aliases, order_by, order_entries, order_column, direction_text}
use vexnor.Ordering.Quote.{quoted, escape, read_quoted, read-quoted}
use Prim.Native.String.{◌++◌ as str_append}

abbrev users : Columns
users = record {
  joined = [];
  allowed = "email" ∷ [];
  cols = ("email", "u.email" ∷ []) ∷ [];
  lower = λ s. s;
}

abbrev wanted : List (String × String)
wanted = ("email", "desc") ∷ ("to\"tal", "") ∷ []

wanted_test :
    order_by users [] wanted
    ≡ some ("order by " ∷ "u.email" ∷ " DESC" ∷ ", " ∷ "\"to\"\"tal\"" ∷ " ASC" ∷ [])
unfolding order_by order_entries order_column direction_text aggregate_aliases quoted escape lookup
    has
wanted_test = refl

invalid_direction_test : order_by users [] (("email", "desc; drop table users") ∷ []) ≡ none
unfolding order_by order_entries order_column direction_text aggregate_aliases lookup has
invalid_direction_test = refl

read-quoted_example : read_quoted (str_append (quoted "to\"tal") " ASC") ≡ some ("to\"tal", " ASC")
read-quoted_example = read-quoted "to\"tal" " ASC" refl
