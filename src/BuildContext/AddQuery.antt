-- ===== src/BuildContext/AddQuery.antt =====
-- What `addQuery` returns and what it leaves of the queries of a context.
use vexnor.Base.{
  ◌≡◌, ◌⊎◌, inl, inr, refl, sym, subst, ap, ◌∙◌, ℕ, suc, String, Bool, true, Option, none, some, [],
  ◌∷◌, length, In, arith, Bool-cases, eq_iff, eq_refl, ◌==◌,
}
use vexnor.Base.Dict.{
  Dict, lookup, insert, has_key, lookup-insert, has_key-insert, has_key-lookup, lookup-insert_cases,
  Distinct-insert,
}
use vexnor.BuildContext.Queries.{
  Query, id_of, inner_queries, size_all, QueryInfo, add_query, with_entry, overridden,
}
use vexnor.BuildContext.Numbered.{CountsFrom, IsRegistry, register_lem}

-- The query has an entry with the index and the name of the given one.
abbrev pub HasName : Dict QueryInfo → String → QueryInfo → Type 0
HasName m id old =
    (info : QueryInfo) × (lookup id m ≡ some info)
    × (info.index ≡ old.index)
    × (info.name ≡ old.name)

-- What `addQuery` promises of its result.
pub record Adds (q : Query) (m : Dict QueryInfo) (info : QueryInfo) (after : Dict QueryInfo)
    : Type 0 where
  pub found : lookup (id_of q) after ≡ some info
  pub named : (id : String) (old : QueryInfo) → lookup id m ≡ some old → HasName after id old
  pub valid : IsRegistry [] after

CountsFrom-replace :
    (n : ℕ) (id : String) (info old : QueryInfo) (m : Dict QueryInfo)
    → lookup id m ≡ some old
    → info.index ≡ old.index
    → info.source ≡ old.source
    → CountsFrom n m
    → CountsFrom n (insert id info m)
unfolding lookup insert
CountsFrom-replace n id info old [] h p q c = absurd (cc h)
CountsFrom-replace n id info old ((j, other) ∷ m) h p q (a, b, c) = elim (Bool-cases (j == id)) [
  | inl e ↦
      let same = some_injective other old (rw e at h) in
      rw e (
        p ∙ sym (ap (λ (x : QueryInfo). x.index) same) ∙ a,
        ap id_of (q ∙ sym (ap (λ (x : QueryInfo). x.source) same)) ∙ b,
        c,
      )
  | inr e ↦ rw e (a, b, CountsFrom-replace (suc n) id info old m (rw e at h) p q c)
]
  where
    some_injective : (x y : QueryInfo) → some x ≡ some y → x ≡ y
    some_injective x y e = cc

module _ (q : Query) (cte : Bool) (m : Dict QueryInfo) (old : QueryInfo)
    (found : lookup (id_of q) m ≡ some old) where
  abbrev changed : QueryInfo
  changed = record old { cte = cte }

  replace_IsRegistry : IsRegistry [] m → IsRegistry [] (insert (id_of q) changed m)
  replace_IsRegistry v = record {
    counted = CountsFrom-replace 0 (id_of q) changed old m found refl refl v.counted;
    distinct = Distinct-insert (id_of q) changed m v.distinct;
    closed = λ id info c h i. go id info c (source_kept id info h) i;
  }
    where
      source_kept :
          (id : String) (info : QueryInfo)
          → lookup id (insert (id_of q) changed m) ≡ some info
          → (before : QueryInfo) × (lookup id m ≡ some before) × (info.source ≡ before.source)
      source_kept id info h = elim (lookup-insert_cases (id_of q) id changed info m h) [
        | inl (p, w) ↦
            (old, subst (λ x. lookup x m ≡ some old) p found, ap (λ (x : QueryInfo). x.source) w)
        | inr p ↦ (info, p, refl)
      ]

      go :
          (id : String) (info : QueryInfo) (c : Query)
          → (before : QueryInfo) × (lookup id m ≡ some before) × (info.source ≡ before.source)
          → In c (inner_queries info.source)
          → (has_key (id_of c) (insert (id_of q) changed m) ≡ true) ⊎ In c []
      go id info c (before, p, e) i =
          elim (v.closed id before c p (subst (λ x. In c (inner_queries x)) e i)) [
            | inl k ↦ inl (rw (has_key-insert (id_of q) (id_of c) changed m, k) (ground arith))
            | inr none_left ↦ elim none_left [ ]
          ]

  replace-Adds : IsRegistry [] m → Adds q m changed (insert (id_of q) changed m)
  replace-Adds v = record {
    found = rw (lookup-insert (id_of q) (id_of q) changed m, eq_refl (id_of q)) refl;
    named = λ id before h. elim (Bool-cases (id_of q == id)) [
      | inl e ↦
          let same = some_injective old before (
            sym found
            ∙ subst (λ x. lookup x m ≡ some before) (sym ((eq_iff (id_of q) id).0 e)) h) in
          (
            changed,
            rw (lookup-insert (id_of q) id changed m, e) refl,
            ap (λ (x : QueryInfo). x.index) same,
            ap (λ (x : QueryInfo). x.name) same,
          )
      | inr e ↦ (before, rw (lookup-insert (id_of q) id changed m, e) h, refl, refl)
    ];
    valid = replace_IsRegistry v;
  }
    where
      some_injective : (x y : QueryInfo) → some x ≡ some y → x ≡ y
      some_injective x y e = cc

-- `addQuery` ends and returns the entry of the query. In a map whose indices count up from 0, whose
-- entries stand at their queries' identifiers, and in which the queries inside a known one are
-- known, all of this still holds, and every known query keeps its index and its name.
pub add_query-Adds :
    (q : Query) (override : Option Bool) (m : Dict QueryInfo)
    → IsRegistry [] m
    → (info : QueryInfo) × (after : Dict QueryInfo) × (add_query q override m
        ≡ some (some info, after))
      × Adds q m info after
unfolding add_query
add_query-Adds q override m v = elim (Bool-cases (has_key (id_of q) m)) [
  | inl k ↦
      let (old, found) = has_key-lookup (id_of q) m k in
      rw (k, add_query) (again override old found)
  | inr k ↦
      let (after, p, r) =
        register_lem (suc (size_all (q ∷ []))) override (length m) 0 (q ∷ []) m (omega arith)
          (omega arith) (queued v) in
      let (info, found) = has_key-lookup (id_of q) after (r.known q (inl refl)) in
      (
        info,
        after,
        rw (k, add_query) (rw (p, found) refl),
        record {
          found = found;
          named = λ id old h. (old, r.kept id old h, refl, refl);
          valid = r.valid;
        },
      )
]
  where
    queued : IsRegistry [] m → IsRegistry (q ∷ []) m
    queued w = record {
      counted = w.counted;
      distinct = w.distinct;
      closed = λ id info c h i. elim (w.closed id info c h i) [
        | inl k ↦ inl k
        | inr none_left ↦ elim none_left [ ]
      ];
    }

    again :
        (o : Option Bool) (old : QueryInfo)
        → lookup (id_of q) m ≡ some old
        → (info : QueryInfo) × (after : Dict QueryInfo) × (with_entry
              (id_of q)
              (some (overridden o (id_of q) (lookup (id_of q) m) m))
            ≡ some (some info, after))
          × Adds q m info after
    again none old found = (
      old,
      m,
      rw found refl,
      record { found = found; named = λ id info h. (info, h, refl, refl); valid = v },
    )
    again (some cte) old found =
        let a = replace-Adds q cte m old found v in
        (
          record old { cte = cte },
          insert (id_of q) (record old { cte = cte }) m,
          rw (found, a.found) refl,
          a,
        )
