-- ===== src/Handler/Rows.antt =====
-- core/query/sql-query-handler.ts: `all`, `one`, `first` and `any`, over `run`. `is_row` is whether
-- a row is truthy.
use vexnor.Base.{
  ◌≡◌, refl, ap, Option, none, some, List, [], ◌∷◌, Bool, if◌then◌else◌, Bool-cases, inl, inr, ◌∙◌,
}
use vexnor.Errors.{Outcome, returned, threw, other_error, Action, ◌>>=◌, pure, continue}

module _ {S A Row : Type 0} (run : Action S A) (resolve_rows : A → List Row)
    (is_row : Row → Bool) where
  -- `all`
  unfoldable pub all : Action S (List Row)
  all = do data_read ← run; pure (resolve_rows data_read)

  abbrev pub one_of : List Row → Outcome Row
  one_of [] = threw (other_error "Expected one row")
  one_of (x ∷ y ∷ rows) = threw (other_error "Expected one row")
  one_of (x ∷ []) =
      if is_row x then returned x else threw (other_error "The one row in result is not defined")

  -- `one`
  unfoldable pub one : Action S Row
  unfolding all
  one = do rows ← all; λ s. (one_of rows, s)

  abbrev pub first_of : List Row → Option Row
  first_of [] = none
  first_of (x ∷ rows) = some x

  -- `first` and `any`, which have the same body
  unfoldable pub first : Action S (Option Row)
  unfolding all
  first = do rows ← all; pure (first_of rows)

  unfoldable pub any : Action S (Option Row)
  unfolding all
  any = do rows ← all; pure (first_of rows)

  one-outcome : (rows : List Row) (x : Row) → one_of rows ≡ returned x → rows ≡ x ∷ []
  one-outcome [] x h = absurd (cc h)
  one-outcome (y ∷ z ∷ rows) x h = absurd (cc h)
  one-outcome (y ∷ []) x h = elim (Bool-cases (is_row y)) [
    | inl e ↦ ap (λ z. z ∷ []) (same (rw e at h))
    | inr e ↦ absurd (cc (e, h))
  ]
    where
      same : returned y ≡ returned x → y ≡ x
      same h = cc h

  -- Where one returns a row, all returns that row alone, first and any return it too, and all four
  -- leave the same state.
  pub one-returned :
      (x : Row) (s t : S)
      → one s ≡ (returned x, t)
      → (all s ≡ (returned (x ∷ []), t))
        × (first s ≡ (returned (some x), t))
        × (any s ≡ (returned (some x), t))
  unfolding one first any ◌>>=◌ pure
  one-returned x s t h = go (all s).0 (all s).1 refl h
    where
      go :
          (o : Outcome (List Row)) (u : S)
          → all s ≡ (o, u)
          → continue (λ rows s. (one_of rows, s)) o u ≡ (returned x, t)
          → (all s ≡ (returned (x ∷ []), t))
            × (first s ≡ (returned (some x), t))
            × (any s ≡ (returned (some x), t))
      go (threw e) u p h = absurd (cc h)
      go (returned rows) u p h =
          let found : all s ≡ (returned (x ∷ []), t) =
            p
            ∙ ap (λ z. (returned z, u)) (one-outcome rows x (ap (λ r. r.0) h))
            ∙ ap (λ z. (returned (x ∷ []), z)) (ap (λ r. r.1) h) in
          (
            found,
            ap (λ r. continue (λ z. pure (first_of z)) r.0 r.1) found,
            ap (λ r. continue (λ z. pure (first_of z)) r.0 r.1) found,
          )
