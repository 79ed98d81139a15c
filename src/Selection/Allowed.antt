-- ===== src/Selection/Allowed.antt =====
-- Reconciling a stored selection with a catalog: what is selected afterwards.
use mathlib.Core.Option
use vexnor.Base.{
  ℕ, suc, ◌+◌, ◌<◌, ◌≡◌, ◌⊎◌, inl, inr, refl, sym, subst, ap, ◌∙◌, String, Bool, true, false, not,
  Option, none, some, List, [], ◌∷◌, map, if◌then◌else◌, ◌==◌, arith, eq_iff, Bool-cases, In,
  In-filter, In-map, filter, length, length-filter, length-map, nat_eq,
}
use vexnor.Base.Dict.{Dict, lookup, insert, lookup-insert}
use vexnor.Selection.{
  Object, Scope, Catalog, CatalogObject, Result, done, failed, SelectionError, Selection, bind,
  by_id, insert_object, sort_objects, unselected, available_in, was_selected, carried_over,
  reconciled, reconcile, validate_previous,
}

pub bind-done :
    {A B : Type 0} (m : Result A) (f : A → Result B) (b : B)
    → bind m f ≡ done b
    → (a : A) × (m ≡ done a) × (f a ≡ done b)
bind-done (done a) f b h = (a, refl, h)
bind-done (failed e) f b h = cc

module _ (before : String → String → Bool) where
  In-insert_object :
      (x o : Object) (ps : List Object) → In x (insert_object before o ps) → (x ≡ o) ⊎ In x ps
  unfolding insert_object
  In-insert_object x o [] h = h
  In-insert_object x o (p ∷ ps) h = go (before o.id p.id) h (In-insert_object x o ps)
    where
      go :
          (b : Bool)
          → In x (if b then o ∷ p ∷ ps else p ∷ insert_object before o ps)
          → (In x (insert_object before o ps) → (x ≡ o) ⊎ In x ps)
          → (x ≡ o) ⊎ ((x ≡ p) ⊎ In x ps)
      go true h ih = h
      go false (inl q) ih = inr (inl q)
      go false (inr i) ih = elim (ih i) [ inl q ↦ inl q | inr j ↦ inr (inr j) ]

  insert_object-In :
      (x o : Object) (ps : List Object) → (x ≡ o) ⊎ In x ps → In x (insert_object before o ps)
  unfolding insert_object
  insert_object-In x o [] h = h
  insert_object-In x o (p ∷ ps) h = go (before o.id p.id) h (insert_object-In x o ps)
    where
      go :
          (b : Bool)
          → (x ≡ o) ⊎ ((x ≡ p) ⊎ In x ps)
          → ((x ≡ o) ⊎ In x ps → In x (insert_object before o ps))
          → In x (if b then o ∷ p ∷ ps else p ∷ insert_object before o ps)
      go true h ih = h
      go false (inl q) ih = inr (ih (inl q))
      go false (inr (inl q)) ih = inl q
      go false (inr (inr j)) ih = inr (ih (inr j))

  In-sort_objects : (x : Object) (os : List Object) → In x (sort_objects before os) → In x os
  unfolding sort_objects
  In-sort_objects x [] h = h
  In-sort_objects x (o ∷ os) h = elim (In-insert_object x o (sort_objects before os) h) [
    | inl q ↦ inl q
    | inr i ↦ inr (In-sort_objects x os i)
  ]

  sort_objects-In : (x : Object) (os : List Object) → In x os → In x (sort_objects before os)
  unfolding sort_objects
  sort_objects-In x [] h = h
  sort_objects-In x (o ∷ os) (inl q) = insert_object-In x o (sort_objects before os) (inl q)
  sort_objects-In x (o ∷ os) (inr i) =
      insert_object-In x o (sort_objects before os) (inr (sort_objects-In x os i))

  length-insert_object :
      (o : Object) (ps : List Object) → length (insert_object before o ps) ≡ suc (length ps)
  unfolding insert_object
  length-insert_object o [] = refl
  length-insert_object o (p ∷ ps) = ground (arith, length-insert_object o ps)

  length-sort_objects : (os : List Object) → length (sort_objects before os) ≡ length os
  unfolding sort_objects
  length-sort_objects [] = refl
  length-sort_objects (o ∷ os) =
      length-insert_object o (sort_objects before os) ∙ ap suc (length-sort_objects os)

  -- An available object comes from one of the catalog.
  pub In-available_in :
      (x : Object) (catalog : Catalog)
      → In x (available_in before catalog)
      → (c : CatalogObject) × In c catalog.objects × (c.id ≡ x.id)
  unfolding available_in
  In-available_in x catalog h =
      let (c, i, q) =
        In-map (unselected before) x catalog.objects
          (In-sort_objects x (map (unselected before) catalog.objects) h) in
      (c, i, sym (ap (λ (o : Object). o.id) q))

  pub length-available_in :
      (catalog : Catalog) → length (available_in before catalog) ≡ length catalog.objects
  unfolding available_in
  length-available_in catalog =
      length-sort_objects (map (unselected before) catalog.objects)
      ∙ length-map (unselected before) catalog.objects

lookup-by_id :
    (k : String) (os : List Object) (m : Dict Object) (p : Object)
    → lookup k (by_id os m) ≡ some p
    → (In p os × (p.id ≡ k)) ⊎ (lookup k m ≡ some p)
unfolding by_id
lookup-by_id k [] m p h = inr h
lookup-by_id k (o ∷ os) m p h = elim (lookup-by_id k os (insert o.id o m) p h) [
  | inl (i, q) ↦ inl (inr i, q)
  | inr e ↦ elim (Bool-cases (o.id == k)) [
    | inl b ↦
        let same = Option.some-injective o p (rw (lookup-insert o.id k o m, b) at e) in
        inl (inl (sym same), sym (ap (λ (x : Object). x.id) same) ∙ (eq_iff o.id k).0 b)
    | inr b ↦ inr (rw (lookup-insert o.id k o m, b) at e)
  ]
]

pub guarded-done :
    (n : ℕ) (x r : Selection) (e : SelectionError)
    → (if nat_eq n 0 then failed e else done x) ≡ done r
    → (x ≡ r) × (0 < n)
guarded-done n x r e h = elim (Bool-cases (nat_eq n 0)) [
  | inl b ↦ absurd (cc (rw b at h))
  | inr b ↦ (done_injective x r (rw b at h), ground (arith, b))
]
  where
    done_injective : (a b : Selection) → done a ≡ done b → a ≡ b
    done_injective a b q = cc

module _ (before : String → String → Bool) where
  was_selected-In :
      (x : Object) (os : List Object)
      → was_selected before (by_id os []) x ≡ true
      → (p : Object) × In p os × (p.id ≡ x.id) × (p.selected ≡ true)
  was_selected-In x os h = go (lookup x.id (by_id os [])) refl h
    where
      go :
          (o : Option Object)
          → lookup x.id (by_id os []) ≡ o
          → (elim o [ none ↦ false | some p ↦ p.selected ]) ≡ true
          → (p : Object) × In p os × (p.id ≡ x.id) × (p.selected ≡ true)
      go none e k = absurd (cc k)
      go (some p) e k = elim (lookup-by_id x.id os [] p e) [
        | inl (i, q) ↦ (p, i, q, k)
        | inr n ↦ absurd (unfold lookup in cc n)
      ]

  reconciled-done :
      (catalog : Catalog) (selection : Scope) (r : Selection)
      → reconcile before catalog selection ≡ done r
      → let objects =
          map (carried_over before (by_id selection.objects [])) (available_in before catalog) in
        (r.selected_objects ≡ filter (λ (o : Object). o.selected) objects)
        × (r.deselected_objects ≡ filter (λ (o : Object). not o.selected) objects)
        × (0 < length r.selected_objects)
  unfolding reconcile reconciled
  reconciled-done catalog selection r h =
      let (v, e, k) = bind-done (validate_previous (some selection) catalog) _ r h in
      let objects =
        map (carried_over before (by_id selection.objects [])) (available_in before catalog) in
      let (q, pos) = guarded-done (length (filter (λ (o : Object). o.selected) objects)) _ r _ k in
      (
        sym (ap (λ (x : Selection). x.selected_objects) q),
        sym (ap (λ (x : Selection). x.deselected_objects) q),
        subst (λ xs. 0 < length xs) (ap (λ (x : Selection). x.selected_objects) q) pos,
      )

  -- Where a stored selection is reconciled with a catalog, every selected object is one of the
  -- catalog and was selected before under its identity: nothing new is selected.
  pub reconcile-selected :
      (catalog : Catalog) (selection : Scope) (r : Selection) (x : Object)
      → reconcile before catalog selection ≡ done r
      → In x r.selected_objects
      → ((c : CatalogObject) × In c catalog.objects × (c.id ≡ x.id))
        × ((p : Object) × In p selection.objects × (p.id ≡ x.id) × (p.selected ≡ true))
  reconcile-selected catalog selection r x h i =
      let (q, d, pos) = reconciled-done catalog selection r h in
      let (j, sel) = In-filter (λ (o : Object). o.selected) x _ (subst (In x) q i) in
      let (o, m, w) = In-map (carried_over before (by_id selection.objects [])) x _ j in
      let same : o.id ≡ x.id = sym (ap (λ (y : Object). y.id) w) in
      let (c, n, e) = In-available_in before o catalog m in
      let (p, k, g, b) =
        was_selected-In o selection.objects (sym (ap (λ (y : Object). y.selected) w) ∙ sel) in
      ((c, n, e ∙ same), (p, k, g ∙ same, b))

  -- A reconciled selection has at least one selected object, and each object of the catalog is
  -- either selected or deselected.
  pub reconcile-length :
      (catalog : Catalog) (selection : Scope) (r : Selection)
      → reconcile before catalog selection ≡ done r
      → (0 < length r.selected_objects)
        × (length r.selected_objects + length r.deselected_objects ≡ length catalog.objects)
  reconcile-length catalog selection r h =
      let (q, d, pos) = reconciled-done catalog selection r h in
      let objects =
        map (carried_over before (by_id selection.objects [])) (available_in before catalog) in
      (
        pos,
        omega (
          arith,
          ap length q,
          ap length d,
          length-filter (λ (o : Object). o.selected) objects,
          length-map (carried_over before (by_id selection.objects []))
              (available_in before catalog),
          length-available_in before catalog,
        ),
      )
