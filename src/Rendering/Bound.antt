-- ===== src/Rendering/Bound.antt =====
-- The text and the values that `getSql` makes of the tokens.
use mathlib.Core.List.{append_assoc, append-nil}
use vexnor.Base.{
  ◌≡◌, refl, sym, subst, ap, ◌∙◌, ℕ, suc, String, true, Option, none, some, List, [], ◌∷◌, ◌++◌,
  length, length-append, arith, Bool-cases, inl, inr,
}
use vexnor.Base.Dict.{Dict}
use vexnor.Errors.{Outcome, returned, threw}
use vexnor.BuildContext.Scope.{BuildToken, text, param, value, operator}
use vexnor.Rendering.Values.{Value, Fields, is_primitive}
use vexnor.Rendering.{
  Sql, ParamFormat, SqlParam, bound_param, push_value, checked, render, join_texts, joined, get_sql,
}

returned_injective : {A : Type 0} (a b : A) → returned a ≡ returned b → a ≡ b
returned_injective a b e = cc

module _ {P : Type 0} (format : ParamFormat) (declared : Dict (SqlParam P))
    (params : Option (Fields P)) where
  -- The texts and the values of the tokens from the given index on: a text is itself, and each other
  -- token binds one value, at a placeholder with the number of the values before it.
  abbrev pub Renders : ℕ → List (BuildToken (Value P)) → List String → List (Value P) → Type 0
  Renders n [] texts values = (texts ≡ []) × (values ≡ [])
  Renders n (text t ∷ ts) texts values =
      (rest : List String) × (texts ≡ t ∷ rest) × Renders n ts rest values
  Renders n (value v ∷ ts) texts values =
      (is_primitive v ≡ true)
      × ((rest : List String) × (vs : List (Value P)) × (texts ≡ format none n ∷ rest)
          × (values ≡ v ∷ vs)
          × Renders (suc n) ts rest vs)
  Renders n (param name array ∷ ts) texts values =
      (v : Value P) × (bound_param declared params name ≡ returned v)
      × ((rest : List String) × (vs : List (Value P)) × (texts ≡ format (some name) n ∷ rest)
          × (values ≡ v ∷ vs)
          × Renders (suc n) ts rest vs)
  Renders n (operator type ∷ ts) texts values = ⊥

  pushed :
      (name : Option String) (o : Outcome (Value P)) (rest : Sql P → Outcome (Sql P))
      (r result : Sql P)
      → push_value format name o rest r ≡ returned result
      → (v : Value P) × (o ≡ returned v)
        × (rest (r.0 ++ format name (length r.1) ∷ [], r.1 ++ v ∷ []) ≡ returned result)
  pushed name (threw e) rest r result h = absurd (cc h)
  pushed name (returned v) rest r result h = (v, refl, h)

  checked-returned : (v w : Value P) → checked v ≡ returned w → (is_primitive v ≡ true) × (w ≡ v)
  checked-returned v w h = elim (Bool-cases (is_primitive v)) [
    | inl e ↦ (e, sym (returned_injective v w (rw e at h)))
    | inr e ↦ absurd (cc (rw e at h))
  ]

  -- From the texts and values so far.
  abbrev Continues :
      List (BuildToken (Value P))
      → List String
      → List (Value P)
      → List String
      → List (Value P)
      → Type 0
  Continues tokens before bound texts values =
      (rest : List String) × (vs : List (Value P)) × (texts ≡ before ++ rest)
      × (values ≡ bound ++ vs)
      × Renders (length bound) tokens rest vs

  -- Behind a value, the next placeholder has the next number.
  abbrev Next :
      Option String
      → Value P
      → List (BuildToken (Value P))
      → List String
      → List (Value P)
      → List String
      → List (Value P)
      → Type 0
  Next name v ts before bound texts values =
      (rest : List String) × (vs : List (Value P)) × (texts
        ≡ before ++ format name (length bound) ∷ rest)
      × (values ≡ bound ++ v ∷ vs)
      × Renders (suc (length bound)) ts rest vs

  next :
      (name : Option String) (v : Value P) (ts : List (BuildToken (Value P))) (before : List String)
      (bound : List (Value P)) (texts : List String) (values : List (Value P))
      → Continues ts (before ++ format name (length bound) ∷ []) (bound ++ v ∷ []) texts values
      → Next name v ts before bound texts values
  next name v ts before bound texts values (rest, vs, a, b, r) = (
    rest,
    vs,
    a ∙ append_assoc before (format name (length bound) ∷ []) rest,
    b ∙ append_assoc bound (v ∷ []) vs,
    subst (λ n. Renders n ts rest vs) (omega (arith, length-append bound (v ∷ []))) r,
  )

  render_lem :
      (tokens : List (BuildToken (Value P))) (before : List String) (bound : List (Value P))
      (texts : List String) (values : List (Value P))
      → render format declared params tokens (before, bound) ≡ returned (texts, values)
      → Continues tokens before bound texts values
  unfolding render
  render_lem [] before bound texts values h =
      let e = returned_injective (before, bound) (texts, values) h in
      (
        [],
        [],
        sym (ap (λ (r : Sql P). r.0) e) ∙ sym (append-nil before),
        sym (ap (λ (r : Sql P). r.1) e) ∙ sym (append-nil bound),
        (refl, refl),
      )
  render_lem (text t ∷ ts) before bound texts values h =
      let (rest, vs, a, b, r) = render_lem ts (before ++ t ∷ []) bound texts values h in
      (t ∷ rest, vs, a ∙ append_assoc before (t ∷ []) rest, b, (rest, refl, r))
  render_lem (value v ∷ ts) before bound texts values h =
      let (w, e, k) =
        pushed none (checked v) (render format declared params ts) (before, bound) (texts, values)
          h in
      let (primitive, same) = checked-returned v w e in
      let (rest, vs, a, b, r) = next none w ts before bound texts values (
        render_lem ts (before ++ format none (length bound) ∷ []) (bound ++ w ∷ []) texts values
          k) in
      (
        format none (length bound) ∷ rest,
        w ∷ vs,
        a,
        b,
        (primitive, (rest, vs, refl, ap (λ x. x ∷ vs) same, r)),
      )
  render_lem (param name array ∷ ts) before bound texts values h =
      let (w, e, k) =
        pushed (some name) (bound_param declared params name) (render format declared params ts)
          (before, bound) (texts, values) h in
      let (rest, vs, a, b, r) = next (some name) w ts before bound texts values (
        render_lem ts (before ++ format (some name) (length bound) ∷ []) (bound ++ w ∷ []) texts
          values k) in
      (format (some name) (length bound) ∷ rest, w ∷ vs, a, b, (w, e, (rest, vs, refl, refl, r)))
  render_lem (operator type ∷ ts) before bound texts values h = absurd (cc h)

  -- The SQL that `getSql` returns is the texts one after the other, where a value and a parameter
  -- stand as a placeholder with the number of values before it, and the values are those of the
  -- tokens in the same order: a primitive as it is, a parameter's as it resolves.
  pub get_sql-Renders :
      (tokens : List (BuildToken (Value P))) (sql : String) (values : List (Value P))
      → get_sql format declared params tokens ≡ returned (sql, values)
      → (texts : List String) × (sql ≡ join_texts texts) × Renders 0 tokens texts values
  unfolding get_sql
  get_sql-Renders tokens sql values h =
      go (render format declared params tokens ([], [])) (render_lem tokens [] []) h
    where
      go :
          (o : Outcome (Sql P))
          → ((texts : List String) (vs : List (Value P))
              → o ≡ returned (texts, vs)
              → Continues tokens [] [] texts vs)
          → joined o ≡ returned (sql, values)
          → (texts : List String) × (sql ≡ join_texts texts) × Renders 0 tokens texts values
      go (threw e) lem k = absurd (cc k)
      go (returned (texts, vs)) lem k =
          let e = returned_injective (join_texts texts, vs) (sql, values) k in
          let (rest, ws, a, b, r) = lem texts vs refl in
          (
            rest,
            sym (ap (λ (x : String × List (Value P)). x.0) e) ∙ ap join_texts a,
            subst (Renders 0 tokens rest) (sym b ∙ ap (λ (x : String × List (Value P)). x.1) e) r,
          )
