-- ===== src/Registry/Params.antt =====
-- Which parameters a call passes on: what a client sends cannot take the place of the context.
use vexnor.Base.{
  ◌≡◌, refl, subst, ap, ◌∙◌, String, Bool, true, false, Option, none, some, [], ◌∷◌, if◌then◌else◌,
  ◌==◌, arith, eq_iff, Bool-cases, inl, inr, ◌⊎◌,
}
use vexnor.Base.Dict.{Dict, lookup, insert, has_key, Distinct, lookup-insert, lookup-has_key}
use vexnor.Errors.{or_else}
use vexnor.Pipeline.{Mode}
use vexnor.Registry.{
  MapEntry, filter_declared, filter_params, merge_declared, has_runtime, merge_params,
  merge_runtime_params, execution_args,
}

-- The parameter is declared, and as one of the context.
abbrev pub is_context_of : Option Bool → Bool
is_context_of none = false
is_context_of (some b) = b

module _ {V : Type 0} (undefined : V) (runtime : Dict V) where
  abbrev of_context : String → V
  of_context key = or_else (lookup key runtime) undefined

  lookup-merge_declared :
      (key : String) (declared : Dict Bool) (merged : Dict V)
      → Distinct declared
      → lookup key (merge_declared undefined declared runtime merged)
        ≡ (if is_context_of (lookup key declared) then some (of_context key) else lookup key merged)
  unfolding merge_declared lookup
  lookup-merge_declared key [] merged h = refl
  lookup-merge_declared key ((j, b) ∷ declared) merged h =
      lookup-merge_declared key declared (if b then insert j (of_context j) merged else merged) h.1
      ∙ here (Bool-cases (j == key)) b
    where
      here :
          (j == key ≡ true) ⊎ (j == key ≡ false)
          → (c : Bool)
          → (if is_context_of (lookup key declared)
              then some (of_context key)
              else lookup key (if c then insert j (of_context j) merged else merged))
            ≡ (if is_context_of (if j == key then some c else lookup key declared)
                then some (of_context key)
                else lookup key merged)
      here (inl e) c =
          rw
            (
              e,
              lookup-has_key key declared
                  (subst (λ x. has_key x declared ≡ false) ((eq_iff j key).0 e) h.0),
            )
            (same e c)
        where
          same :
              j == key ≡ true
              → (d : Bool)
              → lookup key (if d then insert j (of_context j) merged else merged)
                ≡ (if d then some (of_context key) else lookup key merged)
          same e true =
              rw (lookup-insert j key (of_context j) merged, e)
                (ap (λ x. some (of_context x)) ((eq_iff j key).0 e))
          same e false = refl
      here (inr e) true = rw (lookup-insert j key (of_context j) merged, e) refl
      here (inr e) false = rw e refl

  no_context :
      (key : String) (declared : Dict Bool)
      → has_runtime declared ≡ false
      → is_context_of (lookup key declared) ≡ false
  unfolding lookup
  no_context key [] h = refl
  no_context key ((j, b) ∷ declared) h = ground (arith, no_context key declared)

  lookup-merge_params :
      (key : String) (declared : Dict Bool) (params : Dict V)
      → Distinct declared
      → lookup key (merge_params undefined (some declared) params runtime)
        ≡ (if is_context_of (lookup key declared) then some (of_context key) else lookup key params)
  unfolding merge_params
  lookup-merge_params key declared params h = elim (Bool-cases (has_runtime declared)) [
    | inl e ↦ rw e (lookup-merge_declared key declared params h)
    | inr e ↦ rw (e, no_context key declared e) refl
  ]

lookup-filter_declared :
    {V : Type 0} (key : String) (declared : Dict Bool) (params : Dict V)
    → lookup key (filter_declared declared params)
      ≡ (if has_key key declared then lookup key params else none)
unfolding filter_declared lookup
lookup-filter_declared key declared [] = ground arith
lookup-filter_declared key declared ((j, v) ∷ params) = elim (Bool-cases (j == key)) [
  | inl e ↦
      let same : has_key j declared ≡ has_key key declared =
        ap (λ x. has_key x declared) ((eq_iff j key).0 e) in
      ground (arith, same, e, lookup-filter_declared key declared params)
  | inr e ↦ ground (arith, e, lookup-filter_declared key declared params)
]

-- What of the client's parameters may pass.
abbrev pub admitted : {V : Type 0} → Bool → Dict Bool → String → Dict V → Option V
admitted strict declared key params =
    if strict then (if has_key key declared then lookup key params else none) else lookup key params

-- For a query that declares parameters, each key once: a key of the context gets the context's
-- value, whatever the client sends under it; any other key gets the client's value, and in a strict
-- registry only if the query declares it.
pub lookup-execution_args :
    {V : Type 0} (undefined : V) (strict : Bool) (plugin : String) (e : MapEntry) (mode : Mode)
    (params context : Dict V) (declared : Dict Bool) (key : String)
    → e.query.params ≡ some declared
    → Distinct declared
    → lookup key (execution_args undefined strict plugin e mode params context).params ≡ (
        if is_context_of (lookup key declared)
        then some (or_else (lookup key context) undefined)
        else admitted strict declared key params)
unfolding execution_args merge_runtime_params filter_params
lookup-execution_args undefined true plugin e mode params context declared key p h = rw p (
    lookup-merge_params undefined context key declared (filter_declared declared params) h
    ∙ ap
        (λ x.
          if is_context_of (lookup key declared)
          then some (or_else (lookup key context) undefined)
          else x)
        (lookup-filter_declared key declared params))
lookup-execution_args undefined false plugin e mode params context declared key p h =
    rw p (lookup-merge_params undefined context key declared params h)
