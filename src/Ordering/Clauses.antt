-- ===== src/Ordering/Clauses.antt =====
-- The order clause against a printer without a counter, and the values of the pagination.
use mathlib.Core.Option
use vexnor.Base.{
  ℕ, suc, ◌≡◌, refl, sym, ap, ◌∙◌, String, Option, none, some, List, [], ◌∷◌, ◌++◌, map,
}
use vexnor.FilterBy.{Columns}
use vexnor.FilterBy.Bound.{map_token}
use vexnor.Ordering.{
  SelectEntry, aggregate_aliases, direction_text, order_column, write_order, order_entries,
  order_by, pagination,
}

-- The text of one entry.
abbrev pub entry_text : Columns → List String → String × String → Option (List String)
entry_text c aliases (field, dir) =
    Option.map (λ d. order_column c aliases field ++ d ∷ []) (direction_text dir)

-- The texts of the entries, or none where one has an error.
abbrev pub cons_text :
    Option (List String) → Option (List (List String)) → Option (List (List String))
cons_text (some p) (some ps) = some (p ∷ ps)
cons_text p ps = none

unfoldable pub entry_texts :
    Columns → List String → List (String × String) → Option (List (List String))
entry_texts c aliases [] = some []
entry_texts c aliases (e ∷ es) = cons_text (entry_text c aliases e) (entry_texts c aliases es)

-- The texts, each behind a comma.
abbrev behind_commas : List (List String) → List String
behind_commas [] = []
behind_commas (p ∷ ps) = ", " ∷ (p ++ behind_commas ps)

-- The texts with a comma between each two.
abbrev pub with_commas : List (List String) → List String
with_commas [] = []
with_commas (p ∷ []) = p
with_commas (p ∷ q ∷ ps) = p ++ (", " ∷ with_commas (q ∷ ps))

append_assoc : (xs ys zs : List String) → (xs ++ ys) ++ zs ≡ xs ++ (ys ++ zs)
append_assoc [] ys zs = refl
append_assoc (x ∷ xs) ys zs = ap (λ ts. x ∷ ts) (append_assoc xs ys zs)

append_nil : (xs : List String) → xs ++ [] ≡ xs
append_nil [] = refl
append_nil (x ∷ xs) = ap (λ ts. x ∷ ts) (append_nil xs)

behind_commas-with_commas :
    (p : List String) (ps : List (List String)) → p ++ behind_commas ps ≡ with_commas (p ∷ ps)
behind_commas-with_commas p [] = append_nil p
behind_commas-with_commas p (q ∷ ps) = ap (λ ts. p ++ (", " ∷ ts)) (behind_commas-with_commas q ps)

tail_texts :
    (column : List String) (d : String) (ps : List (List String))
    → column ++ (d ∷ behind_commas ps) ≡ (column ++ d ∷ []) ++ behind_commas ps
tail_texts column d ps = sym (append_assoc column (d ∷ []) (behind_commas ps))

write_order_later :
    (column : List String) (dir : Option String) (rest : Option (List String))
    (ps : Option (List (List String)))
    → rest ≡ Option.map behind_commas ps
    → write_order ((", " ∷ []) ++ column) dir rest
      ≡ Option.map behind_commas (cons_text (Option.map (λ d. column ++ d ∷ []) dir) ps)
write_order_later column none rest ps h = refl
write_order_later column (some d) rest none h = rw h refl
write_order_later column (some d) rest (some ps) h =
    rw h (ap (λ ts. some (", " ∷ ts)) (tail_texts column d ps))

write_order_first :
    (column : List String) (dir : Option String) (rest : Option (List String))
    (ps : Option (List (List String)))
    → rest ≡ Option.map behind_commas ps
    → write_order column dir rest
      ≡ Option.map with_commas (cons_text (Option.map (λ d. column ++ d ∷ []) dir) ps)
write_order_first column none rest ps h = refl
write_order_first column (some d) rest none h = rw h refl
write_order_first column (some d) rest (some ps) h =
    rw h (ap some (tail_texts column d ps ∙ behind_commas-with_commas (column ++ d ∷ []) ps))

order_entries_later :
    (c : Columns) (aliases : List String) (n : ℕ) (es : List (String × String))
    → order_entries c aliases (suc n) es ≡ Option.map behind_commas (entry_texts c aliases es)
unfolding order_entries entry_texts
order_entries_later c aliases n [] = refl
order_entries_later c aliases n ((field, dir) ∷ es) =
    write_order_later (order_column c aliases field) (direction_text dir) _
      (entry_texts c aliases es) (order_entries_later c aliases (suc n) es)

order_entries_first :
    (c : Columns) (aliases : List String) (es : List (String × String))
    → order_entries c aliases 0 es ≡ Option.map with_commas (entry_texts c aliases es)
unfolding order_entries entry_texts
order_entries_first c aliases [] = refl
order_entries_first c aliases ((field, dir) ∷ es) =
    write_order_first (order_column c aliases field) (direction_text dir) _
      (entry_texts c aliases es) (order_entries_later c aliases 0 es)

-- With at least one entry, the order clause is `order by` and the entries in the order of their
-- keys, each its column (or the name in quotes) and its direction, with a comma between each two;
-- it is an error exactly where a direction is.
pub order_by-with_commas :
    (c : Columns) (select : List SelectEntry) (e : String × String) (es : List (String × String))
    → order_by c select (e ∷ es)
      ≡ Option.map
          (λ ts. "order by " ∷ with_commas ts)
          (entry_texts c (aggregate_aliases select []) (e ∷ es))
unfolding order_by
order_by-with_commas c select e es =
    ap (Option.map (λ ts. "order by " ∷ ts))
      (order_entries_first c (aggregate_aliases select []) (e ∷ es))
    ∙ go (entry_texts c (aggregate_aliases select []) (e ∷ es))
  where
    go :
        (o : Option (List (List String)))
        → Option.map (λ ts. "order by " ∷ ts) (Option.map with_commas o)
          ≡ Option.map (λ ts. "order by " ∷ with_commas ts) o
    go none = refl
    go (some ps) = refl

-- Replacing the limit and the offset replaces the bound values of the pagination and no text of it.
pub pagination-map_token :
    {V W : Type 0} (f : V → W) (limit offset : Option V)
    → pagination (Option.map f limit) (Option.map f offset)
      ≡ map (map_token f) (pagination limit offset)
unfolding pagination
pagination-map_token f none none = refl
pagination-map_token f (some l) none = refl
pagination-map_token f none (some o) = refl
pagination-map_token f (some l) (some o) = refl
