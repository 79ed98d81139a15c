-- ===== src/Registry/Lookup.antt =====
-- Registration and the errors of an execution.
use vexnor.Base.{
  ◌≡◌, ◌⊎◌, refl, ap, ◌∙◌, String, Bool, true, false, Option, none, some, List, [], ◌∷◌,
  if◌then◌else◌, ◌==◌, eq_iff, Bool-cases, inl, inr,
}
use vexnor.Base.Dict.{Dict, lookup, lookup-insert, has}
use vexnor.Errors.{other_error, Outcome, returned, threw, or_else, or_option}
use vexnor.Registry.{
  Registered, MapEntry, Export, Registry, map_of, entry_of, source_of, store, add_queries, register,
}

-- The entry that one exported value makes for a hash.
abbrev pub entry_for : String → String → Option Registered → Option MapEntry
entry_for hash name none = none
entry_for hash name (some q) =
    if q.hash == hash then some (record { query = q; name = name }) else none

-- The last of the queries that has the hash.
abbrev pub find_last : String → List (String × Export) → Option MapEntry
find_last hash [] = none
find_last hash ((name, e) ∷ rest) =
    or_option (find_last hash rest) (entry_for hash name (source_of e))

or_option_assoc :
    {A : Type 0} (a b c : Option A) → or_option a (or_option b c) ≡ or_option (or_option a b) c
or_option_assoc none b c = refl
or_option_assoc (some a) b c = refl

or_option_idem : {A : Type 0} (a b : Option A) → or_option a (or_option a b) ≡ or_option a b
or_option_idem none b = refl
or_option_idem (some a) b = refl

-- One turn of the loop of `register`.
abbrev add_one :
    (name : String) (rest : List (String × Export)) (m : Dict MapEntry)
    → Option Registered
    → Outcome {0} Unit × Dict MapEntry
add_one name rest m none = (threw (other_error "QUERY_BUILD_FAILED"), m)
add_one name rest m (some q) = add_queries rest (store name q m)

add_queries_cons :
    (name : String) (e : Export) (rest : List (String × Export)) (m : Dict MapEntry)
    → add_queries ((name, e) ∷ rest) m ≡ add_one name rest m (source_of e)
unfolding add_queries
add_queries_cons name (Export.sql_query q) rest m = refl
add_queries_cons name (Export.handler q) rest m = refl
add_queries_cons name Export.foreign rest m = refl

lookup-store :
    (hash name : String) (q : Registered) (m : Dict MapEntry)
    → lookup hash (store name q m) ≡ or_option (entry_for hash name (some q)) (lookup hash m)
lookup-store hash name q m = elim (Bool-cases (q.hash == hash)) [
  | inl e ↦ rw (lookup-insert q.hash hash (record { query = q; name = name }) m, e) refl
  | inr e ↦ rw (lookup-insert q.hash hash (record { query = q; name = name }) m, e) refl
]

lookup-add_queries :
    (hash : String) (queries : List (String × Export)) (m : Dict MapEntry)
    → (add_queries queries m).0 ≡ returned tt
    → lookup hash (add_queries queries m).1 ≡ or_option (find_last hash queries) (lookup hash m)
lookup-add_queries hash [] m h = unfold add_queries in refl
lookup-add_queries hash ((name, e) ∷ rest) m h =
    rw (add_queries_cons name e rest m)
      (go (source_of e) (lookup-add_queries hash rest) (rw (add_queries_cons name e rest m) at h))
  where
    go :
        (o : Option Registered)
        → ((n : Dict MapEntry)
            → (add_queries rest n).0 ≡ returned tt
            → lookup hash (add_queries rest n).1 ≡ or_option (find_last hash rest) (lookup hash n))
        → (add_one name rest m o).0 ≡ returned tt
        → lookup hash (add_one name rest m o).1
          ≡ or_option (or_option (find_last hash rest) (entry_for hash name o)) (lookup hash m)
    go none ih k = absurd (cc k)
    go (some q) ih k =
        (ih (store name q m) k
          ∙ ap (or_option (find_last hash rest)) (lookup-store hash name q m)
          ∙ or_option_assoc (find_last hash rest) (entry_for hash name (some q)) (lookup hash m))

-- Whether the loop succeeds does not depend on what is registered already.
add_queries_again :
    (queries : List (String × Export)) (m n : Dict MapEntry)
    → (add_queries queries m).0 ≡ returned tt
    → (add_queries queries n).0 ≡ returned tt
add_queries_again [] m n h = unfold add_queries in refl
add_queries_again ((name, e) ∷ rest) m n h =
    rw (add_queries_cons name e rest n)
      (go (source_of e) (add_queries_again rest) (rw (add_queries_cons name e rest m) at h))
  where
    go :
        (o : Option Registered)
        → ((a b : Dict MapEntry)
            → (add_queries rest a).0 ≡ returned tt
            → (add_queries rest b).0 ≡ returned tt)
        → (add_one name rest m o).0 ≡ returned tt
        → (add_one name rest n o).0 ≡ returned tt
    go none ih k = absurd (cc k)
    go (some q) ih k = ih (store name q m) (store name q n) k

module _ {P C W : Type 0} where
  -- After a registration that succeeds, a hash of its plugin has the last query given under it, or
  -- else what it had; other plugins keep their entries.
  pub entry_of-register :
      (plugin other hash : String) (queries : List (String × Export)) (r : Registry P C W)
      → (register plugin queries r).0 ≡ returned tt
      → entry_of other hash (register plugin queries r).1.maps ≡ (
          if plugin == other
          then or_option (find_last hash queries) (entry_of other hash r.maps)
          else entry_of other hash r.maps)
  unfolding register
  entry_of-register plugin other hash queries r h =
      rw (lookup-insert plugin other (add_queries queries (map_of plugin r.maps)).1 r.maps)
        (go (Bool-cases (plugin == other)))
    where
      go :
          (plugin == other ≡ true) ⊎ (plugin == other ≡ false)
          → lookup hash (
              or_else
                (if plugin == other
                  then some (add_queries queries (map_of plugin r.maps)).1
                  else lookup other r.maps)
                [])
            ≡ (if plugin == other
                then or_option (find_last hash queries) (entry_of other hash r.maps)
                else entry_of other hash r.maps)
      go (inl e) = rw e (
          lookup-add_queries hash queries (map_of plugin r.maps) h
          ∙ ap (λ x. or_option (find_last hash queries) (entry_of x hash r.maps))
              ((eq_iff plugin other).0 e))
      go (inr e) = rw e refl

  -- Registering the same queries again changes no entry.
  pub register_idem :
      (plugin other hash : String) (queries : List (String × Export)) (r : Registry P C W)
      → (register plugin queries r).0 ≡ returned tt
      → entry_of other hash (register plugin queries (register plugin queries r).1).1.maps
        ≡ entry_of other hash (register plugin queries r).1.maps
  register_idem plugin other hash queries r h =
      entry_of-register plugin other hash queries (register plugin queries r).1 (again h)
      ∙ rw (entry_of-register plugin other hash queries r h) (go (plugin == other))
    where
      again :
          (register plugin queries r).0 ≡ returned tt
          → (register plugin queries (register plugin queries r).1).0 ≡ returned tt
      again k = unfold register in add_queries_again queries _ _ (unfold register in k)

      go :
          (b : Bool)
          → (if b
              then or_option (find_last hash queries) (
                  if b
                  then or_option (find_last hash queries) (entry_of other hash r.maps)
                  else entry_of other hash r.maps)
              else (if b
                  then or_option (find_last hash queries) (entry_of other hash r.maps)
                  else entry_of other hash r.maps))
            ≡ (if b
                then or_option (find_last hash queries) (entry_of other hash r.maps)
                else entry_of other hash r.maps)
      go true = or_option_idem (find_last hash queries) (entry_of other hash r.maps)
      go false = refl

-- The call is refused before the pipeline: no entry, or no plugin.
abbrev pub IsUnknown : {V W : Type 0} → Registry (Dict V) (Dict V) W → String → String → Type 0
IsUnknown r plugin hash = (entry_of plugin hash r.maps ≡ none) ⊎ (has plugin r.plugins ≡ false)
