-- ===== src/Selection/Requested.antt =====
-- What a request without review selects.
use vexnor.Base.{
  ◌≢◌, ◌≡◌, inl, inr, refl, sym, subst, ap, ◌∙◌, String, Bool, true, false, not, ◌&&◌, Option, List,
  [], ◌∷◌, map, if◌then◌else◌, ◌==◌, arith, eq_iff, eq_refl, Bool-cases, In, In-filter, In-map,
  filter, length, ltb,
}
use vexnor.Base.Dict.{has}
use vexnor.Errors.{or_else}
use vexnor.Selection.{
  Object, Scope, Catalog, CatalogObject, Result, done, failed, SelectionError, Selection, Flags,
  non_interactive, bind, available_in, removed_from, objects_of, cons_result, without_duplicates,
  resolve_identity, resolve_all, resolve_identities, included_ids, exclude_from,
  non_interactive_ids, selected_ids, flagged, chosen, resolve_selection, validate_previous,
  is_given, nothing_requested, all_conflicts_with_include, conflicting_identities,
}
use vexnor.Selection.Allowed.{bind-done, guarded-done, In-available_in}

cons_result-done :
    (x : Result String) (xs : Result (List String)) (ids : List String)
    → cons_result x xs ≡ done ids
    → (i : String) × (is : List String) × (x ≡ done i) × (xs ≡ done is) × (ids ≡ i ∷ is)
cons_result-done (failed e) xs ids h = absurd (cc h)
cons_result-done (done i) (failed e) ids h = absurd (cc h)
cons_result-done (done i) (done is) ids h = (i, is, refl, refl, cc)

-- The identity of each entry is among those of all entries.
resolve_all-has :
    (trim : String → String) (entries : List String) (available : List Object) (ids : List String)
    (y id : String)
    → resolve_all trim entries available ≡ done ids
    → In y entries
    → resolve_identity (trim y) available ≡ done id
    → has id ids ≡ true
unfolding resolve_all has
resolve_all-has trim [] available ids y id h i e = elim i [ ]
resolve_all-has trim (r ∷ rs) available ids y id h (inl q) e =
    let (j, js, a, b, c) = cons_result-done (resolve_identity (trim r) available) _ ids h in
    let same : j ≡ id =
      injective j id (sym a ∙ ap (λ z. resolve_identity (trim z) available) (sym q) ∙ e) in
    rw (c, same, eq_refl id) refl
  where
    injective : (a b : String) → done a ≡ done b → a ≡ b
    injective a b p = cc
resolve_all-has trim (r ∷ rs) available ids y id h (inr i) e =
    let (j, js, a, b, c) = cons_result-done (resolve_identity (trim r) available) _ ids h in
    rw (c, resolve_all-has trim rs available js y id b i e) (ground arith)

-- A result behind a guard is the guarded one.
unguarded :
    {A : Type 0} (b : Bool) (e : SelectionError) (m : Result A) (a : A)
    → (if b then failed e else m) ≡ done a
    → m ≡ done a
unguarded true e m a h = absurd (cc h)
unguarded false e m a h = h

resolve_identities-has :
    (trim : String → String) (entries : List String) (available : List Object) (ids : List String)
    (y id : String)
    → resolve_identities trim entries available ≡ done ids
    → In y entries
    → resolve_identity (trim y) available ≡ done id
    → has id ids ≡ true
unfolding resolve_identities without_duplicates
resolve_identities-has trim entries available ids y id h i e =
    let k = unguarded _ _ _ ids h in
    let (js, a, b) = bind-done (resolve_all trim entries available) without_duplicates ids k in
    let same : js ≡ ids = injective js ids (unguarded _ _ _ ids b) in
    resolve_all-has trim entries available ids y id (a ∙ ap done same) i e
  where
    injective : (a b : List String) → done a ≡ done b → a ≡ b
    injective a b p = cc

has-filter :
    (p : String → Bool) (id : String) (ids : List String)
    → has id (filter p ids) ≡ true
    → p id ≡ true
unfolding has
has-filter p id [] h = absurd (cc h)
has-filter p id (x ∷ ids) h = go (p x) refl h (has-filter p id ids)
  where
    go :
        (b : Bool)
        → p x ≡ b
        → has id (if b then x ∷ filter p ids else filter p ids) ≡ true
        → (has id (filter p ids) ≡ true → p id ≡ true)
        → p id ≡ true
    go true e k ih = elim (Bool-cases (x == id)) [
      | inl q ↦ ap p (sym ((eq_iff x id).0 q)) ∙ e
      | inr q ↦ ih (rw q at k)
    ]
    go false e k ih = ih k

-- The identities of a request have none that an entry of `exclude` resolves to.
non_interactive_ids-excluded :
    (trim : String → String) (f : Flags) (available : List Object) (ids : List String)
    (y id : String)
    → non_interactive_ids trim f available ≡ done ids
    → In y (or_else f.exclude [])
    → resolve_identity (trim y) available ≡ done id
    → has id ids ≡ true
    → ⊥
unfolding non_interactive_ids exclude_from
non_interactive_ids-excluded trim f available ids y id h i e m =
    let excluding : List String → Result (List String) =
      λ inc. bind (resolve_identities trim (or_else f.exclude []) available) (exclude_from f inc) in
    let k =
      unguarded (not f.all && not (is_given f.include) && not (is_given f.exclude))
        nothing_requested (bind (included_ids trim f available) excluding) ids
        (unguarded (f.all && is_given f.include) all_conflicts_with_include _ ids h) in
    let (inc, a, k') = bind-done (included_ids trim f available) excluding ids k in
    let (exc, b, k'') =
      bind-done (resolve_identities trim (or_else f.exclude []) available) (exclude_from f inc) ids
        k' in
    let same : filter (λ x. not (has x exc)) inc ≡ ids =
      injective (filter (λ x. not (has x exc)) inc) ids (
        unguarded (is_given f.include && ltb 0 (length (filter (λ z. has z exc) inc)))
          conflicting_identities (done (filter (λ x. not (has x exc)) inc)) ids k'') in
    let out =
      has-filter (λ x. not (has x exc)) id inc (subst (λ xs. has id xs ≡ true) (sym same) m) in
    absurd (
      ground
        (arith, out, resolve_identities-has trim (or_else f.exclude []) available exc y id b i e))
  where
    injective : (a b : List String) → done a ≡ done b → a ≡ b
    injective a b p = cc

module _ (before : String → String → Bool) (trim : String → String) where
  -- What a request without review selects is in the catalog, and no entry of its `exclude` resolves
  -- to it.
  pub resolve_selection-excluded :
      (catalog : Catalog) (previous : Option Scope) (f : Flags) (r : Selection) (x : Object)
      (y : String)
      → resolve_selection before trim catalog previous (non_interactive f) ≡ done r
      → In x r.selected_objects
      → In y (or_else f.exclude [])
      → ((c : CatalogObject) × In c catalog.objects × (c.id ≡ x.id))
        × (resolve_identity (trim y) (available_in before catalog) ≢ done x.id)
  unfolding resolve_selection selected_ids chosen
  resolve_selection-excluded catalog previous f r x y h i j =
      let available = available_in before catalog in
      let removed = removed_from before available (objects_of before previous) in
      let (v, e, k) =
        bind-done (validate_previous previous catalog)
          (λ valid.
            bind (non_interactive_ids trim f available)
              (chosen before catalog previous available removed))
          r h in
      let (ids, a, b) =
        bind-done (non_interactive_ids trim f available)
          (chosen before catalog previous available removed) r k in
      let (q, pos) = guarded-done (length ids) _ r _ b in
      let (m, sel) =
        In-filter (λ (o : Object). o.selected) x (map (flagged before ids) available)
          (subst (In x) (sym (ap (λ (z : Selection). z.selected_objects) q)) i) in
      let (o, n, w) = In-map (flagged before ids) x available m in
      let same : o.id ≡ x.id = sym (ap (λ (z : Object). z.id) w) in
      let (c, l, p) = In-available_in before o catalog n in
      (
        (c, l, p ∙ same),
        λ z.
            non_interactive_ids-excluded trim f available ids y x.id a j z
              (subst (λ k. has k ids ≡ true) same (sym (ap (λ (u : Object). u.selected) w) ∙ sel)),
      )
