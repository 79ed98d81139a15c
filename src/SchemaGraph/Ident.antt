-- ===== src/SchemaGraph/Ident.antt =====
-- Table identifiers of execution/schema-graph.ts: `qualifyTable` and `splitId` on "schema.name".
use mathlib.Core.Option
use Prim.Native.String.{[], ◌∷◌, ◌++◌}
use Prim.Native.Char.{code}
use text.Mathlib.Text.{starts_with}
use text.Mathlib.TextLemmas.{nil-append, cons-append}
use vexnor.Base.{
  String, Bool, ◌||◌, Option, none, some, nat_eq, ◌≡◌, refl, if◌then◌else◌, arith, Bool-cases, inl,
  inr,
}
use vexnor.Errors.{or_else}

-- name.includes(part)
unfoldable pub includes : (part name : String) → Bool
includes part [] = starts_with [] part
includes part (c ∷ s) = starts_with (c ∷ s) part || includes part s

-- `${schema}.${name}`
unfoldable pub dotted : (schema name : String) → String
dotted schema name = schema ++ ("." ∷ name)

-- The text before the first dot and the text behind it.
unfoldable pub at_dot : String → Option (String × String)
at_dot [] = none
at_dot (c ∷ s) =
    if nat_eq (code c) 46
    then some ([], s)
    else Option.map (λ (r : String × String). (c ∷ r.0, r.1)) (at_dot s)

-- `splitId`
unfoldable pub split_id : String → String × String
unfolding at_dot
split_id id = or_else (at_dot id) ("public", id)

-- The text has no dot.
abbrev pub NoDot : String → Type 0
unfolding at_dot
NoDot s = at_dot s ≡ none

map-none : {A B : Type 0} (f : A → B) (o : Option A) → Option.map f o ≡ none → o ≡ none
map-none f none h = refl
map-none f (some a) h = cc

at_dot-dotted :
    (schema name : String) → NoDot schema → at_dot (dotted schema name) ≡ some (schema, name)
unfolding at_dot dotted
at_dot-dotted [] name h = rw nil-append refl
at_dot-dotted (c ∷ s) name h = elim (Bool-cases (nat_eq (code c) 46)) [
  | inl e ↦ absurd (ground (arith, h, e))
  | inr e ↦ rw cons-append (rw e (rw (at_dot-dotted s name (map-none _ _ (rw e at h)))))
]

-- Splitting an identifier gives back its schema and its name, where the schema has no dot.
pub split_id-dotted :
    (schema name : String) → NoDot schema → split_id (dotted schema name) ≡ (schema, name)
unfolding split_id
split_id-dotted schema name h = rw (at_dot-dotted schema name h)
