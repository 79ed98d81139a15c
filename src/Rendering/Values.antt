-- ===== src/Rendering/Values.antt =====
-- The values that parameters have: a primitive, an object, or one of three special values, and
-- core/query/params/resolve-path.ts. Arrays are objects with their indices as keys.
use Prim.Native.Char.{Char, code}
use vexnor.Base.{String, Bool, true, false, List, [], ◌∷◌, if◌then◌else◌, nat_eq, ◌==◌}

-- `context` is the sentinel `contextValue`; `primitive` is any other value of `isPrimitive`.
mutual
  pub data Value (P : Type 0) : Type 0 where
    undefined null context : Value P
    primitive : P → Value P
    object : Fields P → Value P

  pub data Fields (P : Type 0) : Type 0 where
    end : Fields P
    field : String → Value P → Fields P → Fields P

abbrev pub add_first : Char → List String → List String
add_first c [] = []
add_first c (s ∷ ss) = String.◌∷◌ c s ∷ ss

-- path.split(".")
unfoldable pub split_dots : String → List String
split_dots String.[] = String.[] ∷ []
split_dots (String.◌∷◌ c s) =
    let rest = split_dots s in if nat_eq (code c) b'.' then String.[] ∷ rest else add_first c rest

module _ {P : Type 0} where
  -- obj[key]
  unfoldable pub get_field : String → Fields P → Value P
  get_field key end = undefined
  get_field key (field k v fs) = if k == key then v else get_field key fs

  -- The loop of `resolvePath`.
  unfoldable pub walk : Value P → List String → Value P
  unfolding get_field
  walk v [] = v
  walk undefined (k ∷ ks) = undefined
  walk null (k ∷ ks) = undefined
  walk context (k ∷ ks) = undefined
  walk (primitive p) (k ∷ ks) = undefined
  walk (object fs) (k ∷ ks) = walk (get_field k fs) ks

  -- `resolvePath`
  unfoldable pub resolve_path : Fields P → String → Value P
  unfolding walk split_dots
  resolve_path params path = walk (object params) (split_dots path)

  -- v ?? null
  abbrev pub or_null : Value P → Value P
  or_null undefined = null
  or_null null = null
  or_null context = context
  or_null (primitive p) = primitive p
  or_null (object fs) = object fs

  -- `isContextValue`
  abbrev pub is_context : Value P → Bool
  is_context undefined = false
  is_context null = false
  is_context context = true
  is_context (primitive p) = false
  is_context (object fs) = false

  -- `isPrimitive`
  abbrev pub is_primitive : Value P → Bool
  is_primitive undefined = false
  is_primitive null = true
  is_primitive context = false
  is_primitive (primitive p) = true
  is_primitive (object fs) = false
