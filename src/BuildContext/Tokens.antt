-- ===== src/BuildContext/Tokens.antt =====
-- The loop of core/builder/default-tokenizer.ts ends, and what it makes of a number.
use mathlib.Core.Option
use Prim.Native.Char.{Char}
use Prim.Native.String.{[], ◌∷◌}
use vexnor.Base.{ℕ, ◌≤◌, String, Option, none, some, List}
use vexnor.BuildContext.Tokenizer.{char_count, Turn, push, skip, forbidden}

-- What a turn leaves is no longer than `n`.
abbrev IsShort : ℕ → Turn → Type 0
IsShort n (push t r) = char_count r ≤ n
IsShort n (skip r) = char_count r ≤ n
IsShort n forbidden = Unit

record Leaves (n : ℕ) (t : Turn) : Type 0 where
  short : IsShort n t

abbrev NonEmpty : List String → Type 0
NonEmpty List.[] = Unit
NonEmpty (List.◌∷◌ [] ks) = ⊥
NonEmpty (List.◌∷◌ (c ∷ k) ks) = NonEmpty ks

-- The keyword that is found, if one is, leaves less.
abbrev Found : ℕ → Option (String × String) → Type 0
Found n none = Unit
Found n (some r) = char_count r.1 ≤ n
