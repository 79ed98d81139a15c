-- ===== src/Selection.antt =====
-- schema/schema-selection.ts: which objects of a schema catalog are selected. The order of texts
-- (`localeCompare`) and `trim` are parameters. The proofs are in the modules below.
pub mod Allowed
pub mod Requested
mod Tests
use vexnor.Base.{
  ℕ, zero, suc, String, Bool, true, false, not, ◌&&◌, ◌||◌, Option, none, some, List, [], ◌∷◌, ◌++◌,
  map, if◌then◌else◌, ◌==◌, nat_eq, filter, length, ltb,
}
use vexnor.Base.Dict.{Dict, lookup, insert, has_key, has, add, delete}
use vexnor.Errors.{or_else}
use vexnor.SchemaGraph.Ident.{at_dot}
use Prim.Native.String.{◌++◌ as str_append}

-- `SchemaSelectionObject`
pub record Object : Type 0 where
  pub id : String
  pub kind : String
  pub selected : Bool

-- `SchemaSelectionScope`
pub record Scope : Type 0 where
  pub format_version : ℕ
  pub catalog_format_version : ℕ
  pub catalog_fingerprint : String
  pub objects : List Object

pub record CatalogObject : Type 0 where
  pub id : String
  pub kind : String
  pub schema : String
  pub name : String

pub record Catalog : Type 0 where
  pub format_version : ℕ
  pub fingerprint : String
  pub schemas : List String
  pub objects : List CatalogObject

-- `SchemaSelectionReviewObject`; `is_new` is its status.
pub record ReviewObject : Type 0 where
  pub object : Object
  pub schema : String
  pub name : String
  pub is_new : Bool

pub record Review : Type 0 where
  pub schemas : List String
  pub objects : List ReviewObject
  pub removed_objects : List Object
  pub first_run : Bool

-- `NonInteractiveSchemaSelectionRequest`; `save` is read by the caller.
pub record Flags : Type 0 where
  pub include : Option (List String)
  pub exclude : Option (List String)
  pub all : Bool

-- `SchemaSelectionRequest`: a review answers with identities and the confirmation.
pub data Request : Type 0 where
  interactive : (Review → List String × Bool) → Request
  non_interactive : Flags → Request

-- The errors, one for each message.
pub data SelectionError : Type 0 where
  removed_not_confirmed empty_allowlist stored_empty_allowlist all_conflicts_with_include :
      SelectionError
  nothing_requested conflicting_identities duplicate_entries duplicate_identities : SelectionError
  empty_identity ambiguous_identity unknown_identity : SelectionError
  unsupported_format catalog_version_mismatch duplicate_previous : SelectionError

pub data Result (A : Type 0) : Type 0 where
  done : A → Result A
  failed : SelectionError → Result A

-- `SchemaSelectionResult`
pub record Selection : Type 0 where
  pub scope : Scope
  pub selected_objects : List Object
  pub deselected_objects : List Object
  pub new_objects : List Object
  pub removed_objects : List Object

abbrev pub bind : {A B : Type 0} → Result A → (A → Result B) → Result B
bind (done a) f = f a
bind (failed e) f = failed e

-- `duplicates`, with the two sets of its loop
unfoldable pub find_duplicates : (seen dups : List String) → List String → List String
find_duplicates seen dups [] = dups
find_duplicates seen dups (v ∷ vs) =
    find_duplicates (add v seen) (if has v seen then add v dups else dups) vs

unfoldable pub duplicates : List String → List String
unfolding find_duplicates
duplicates values = find_duplicates [] [] values

abbrev pub selection_format_version : ℕ
selection_format_version = 1

-- `validatePreviousSelection`
unfoldable pub validate_previous : Option Scope → Catalog → Result Unit
unfolding duplicates
validate_previous none catalog = done tt
validate_previous (some previous) catalog =
    if not (nat_eq previous.format_version selection_format_version)
    then failed unsupported_format
    else if not (nat_eq previous.catalog_format_version catalog.format_version)
    then failed catalog_version_mismatch
    else if ltb 0 (length (duplicates (map (λ (o : Object). o.id) previous.objects)))
    then failed duplicate_previous
    else done tt

-- `new Map(objects.map((object) => [object.id, object]))`
unfoldable pub by_id : List Object → Dict Object → Dict Object
by_id [] m = m
by_id (o ∷ os) m = by_id os (insert o.id o m)

-- `a.endsWith(b)`
unfoldable pub ends_with : String → String → Bool
ends_with (Prim.Native.String.[]) t = Prim.Native.String.[] == t
ends_with (Prim.Native.String.◌∷◌ c s) t = (Prim.Native.String.◌∷◌ c s) == t || ends_with s t

-- A result for each element, or the first error.
abbrev pub cons_result : Result String → Result (List String) → Result (List String)
cons_result (failed e) rest = failed e
cons_result (done x) (failed e) = failed e
cons_result (done x) (done xs) = done (x ∷ xs)

-- The matches of an identity without a schema.
abbrev pub only_match : List Object → Result String
only_match [] = failed unknown_identity
only_match (o ∷ []) = done o.id
only_match (o ∷ p ∷ os) = failed ambiguous_identity

abbrev pub has_dot : String → Bool
has_dot s = elim (at_dot s) [ none ↦ false | some parts ↦ true ]

-- `available.find(…)` with the branches of `resolveIdentity` behind it
unfoldable pub find_or_match : (trimmed : String) → List Object → List Object → Result String
unfolding ends_with
find_or_match trimmed available (o ∷ os) =
    if o.id == trimmed then done o.id else find_or_match trimmed available os
find_or_match trimmed available [] =
    if has_dot trimmed
    then failed unknown_identity
    else only_match (filter (λ (o : Object). ends_with o.id (str_append "." trimmed)) available)

-- `resolveIdentity`, of a trimmed text
unfoldable pub resolve_identity : (trimmed : String) → List Object → Result String
unfolding find_or_match
resolve_identity trimmed available =
    if trimmed == "" then failed empty_identity else find_or_match trimmed available available

unfoldable pub resolve_all :
    (trim : String → String) → List String → List Object → Result (List String)
unfolding resolve_identity
resolve_all trim [] available = done []
resolve_all trim (r ∷ rs) available =
    cons_result (resolve_identity (trim r) available) (resolve_all trim rs available)

abbrev pub without_duplicates : List String → Result (List String)
unfolding duplicates
without_duplicates ids =
    if ltb 0 (length (duplicates ids)) then failed duplicate_identities else done ids

-- `resolveIdentities`
unfoldable pub resolve_identities :
    (trim : String → String) → List String → List Object → Result (List String)
unfolding duplicates resolve_all without_duplicates
resolve_identities trim requested available =
    if ltb 0 (length (duplicates requested))
    then failed duplicate_entries
    else bind (resolve_all trim requested available) without_duplicates

abbrev pub is_given {ℓ} : {A : Type ℓ} → Option A → Bool
is_given none = false
is_given (some a) = true

-- The set of included identities, before the exclusions.
unfoldable pub included_ids : (trim : String → String) → Flags → List Object → Result (List String)
unfolding resolve_identities
included_ids trim f available =
    if f.all || not (is_given f.include)
    then done (map (λ (o : Object). o.id) available)
    else resolve_identities trim (or_else f.include []) available

-- The end of `resolveNonInteractiveSelection`, with the two sets
unfoldable pub exclude_from : Flags → (included excluded : List String) → Result (List String)
exclude_from f included excluded =
    if is_given f.include && ltb 0 (length (filter (λ id. has id excluded) included))
    then failed conflicting_identities
    else done (filter (λ id. not (has id excluded)) included)

-- `resolveNonInteractiveSelection`
unfoldable pub non_interactive_ids :
    (trim : String → String) → Flags → List Object → Result (List String)
unfolding resolve_identities included_ids exclude_from
non_interactive_ids trim f available =
    if f.all && is_given f.include
    then failed all_conflicts_with_include
    else if not f.all && not (is_given f.include) && not (is_given f.exclude)
    then failed nothing_requested
    else bind (included_ids trim f available) (λ included.
      bind (resolve_identities trim (or_else f.exclude []) available) (exclude_from f included))

module _ (before : String → String → Bool) where
  unfoldable pub insert_object : Object → List Object → List Object
  insert_object o [] = o ∷ []
  insert_object o (p ∷ ps) = if before o.id p.id then o ∷ p ∷ ps else p ∷ insert_object o ps

  -- `sort(compareSelectionObject)`, which is stable
  unfoldable pub sort_objects : List Object → List Object
  unfolding insert_object
  sort_objects [] = []
  sort_objects (o ∷ os) = insert_object o (sort_objects os)

  abbrev pub unselected : CatalogObject → Object
  unselected c = record { id = c.id; kind = c.kind; selected = false }

  -- `available`
  unfoldable pub available_in : Catalog → List Object
  unfolding sort_objects
  available_in catalog = sort_objects (map unselected catalog.objects)

  abbrev pub removed_from : List Object → List Object → List Object
  unfolding by_id sort_objects
  removed_from available previous =
      sort_objects (filter (λ (o : Object). not (has_key o.id (by_id available []))) previous)

  -- The result of a selection, from the objects with their flags.
  abbrev pub selection_of : Catalog → (objects new removed : List Object) → Selection
  selection_of catalog objects new removed = record {
    scope = record {
      format_version = selection_format_version;
      catalog_format_version = catalog.format_version;
      catalog_fingerprint = catalog.fingerprint;
      objects = objects;
    };
    selected_objects = filter (λ (o : Object). o.selected) objects;
    deselected_objects = filter (λ (o : Object). not o.selected) objects;
    new_objects = map (λ (o : Object). record o { selected = false }) new;
    removed_objects = removed;
  }

  abbrev pub was_selected : Dict Object → Object → Bool
  was_selected previous o = elim (lookup o.id previous) [ none ↦ false | some p ↦ p.selected ]

  abbrev pub carried_over : Dict Object → Object → Object
  carried_over previous o = record o { selected = was_selected previous o }

  -- The end of `reconcileSchemaSelection`
  unfoldable pub reconciled : Catalog → Scope → Result Selection
  unfolding available_in by_id removed_from
  reconciled catalog selection =
      let available = available_in catalog in
      let previous = by_id selection.objects [] in
      let objects = map (carried_over previous) available in
      if nat_eq (length (filter (λ (o : Object). o.selected) objects)) 0
      then failed stored_empty_allowlist
      else done (
          selection_of catalog objects
            (filter (λ (o : Object). not (has_key o.id previous)) available)
            (removed_from available selection.objects))

  -- `reconcileSchemaSelection`
  unfoldable pub reconcile : Catalog → Scope → Result Selection
  unfolding validate_previous reconciled
  reconcile catalog selection =
      bind (validate_previous (some selection) catalog) (λ valid. reconciled catalog selection)

  abbrev pub objects_of : Option Scope → List Object
  objects_of none = []
  objects_of (some s) = s.objects

  -- An object as the reviewer sees it.
  abbrev pub review_object : (first_run : Bool) → Dict Object → CatalogObject → ReviewObject
  review_object first_run previous c = record {
    object = record {
      id = c.id;
      kind = c.kind;
      selected = if first_run then true else was_selected previous (unselected c);
    };
    schema = c.schema;
    name = c.name;
    is_new = not first_run && not (has_key c.id previous);
  }

  abbrev pub answer_of :
      (trim : String → String)
      → (available removed : List Object) → List String × Bool
      → Result (List String)
  unfolding resolve_identities
  answer_of trim available removed response =
      if ltb 0 (length removed) && not response.1
      then failed removed_not_confirmed
      else resolve_identities trim response.0 available

  -- The two ways to the identities that are selected.
  unfoldable pub selected_ids :
      (trim : String → String)
      → Catalog
      → Option Scope
      → Request
      → (available removed : List Object) → Result (List String)
  unfolding by_id answer_of non_interactive_ids
  selected_ids trim catalog previous (interactive review) available removed =
      let first_run = not (is_given previous) in
      let known = by_id (objects_of previous) [] in
      answer_of trim available removed (
        review (record {
          schemas = catalog.schemas;
          objects = map (review_object first_run known) catalog.objects;
          removed_objects = removed;
          first_run = first_run;
        }))
  selected_ids trim catalog previous (non_interactive f) available removed =
      non_interactive_ids trim f available

  abbrev pub flagged : List String → Object → Object
  flagged ids o = record o { selected = has o.id ids }

  -- The end of `resolveSchemaSelection`
  unfoldable pub chosen :
      Catalog → Option Scope → (available removed : List Object) → List String → Result Selection
  unfolding by_id
  chosen catalog previous available removed ids =
      if nat_eq (length ids) 0
      then failed empty_allowlist
      else done (
          selection_of catalog (map (flagged ids) available)
            (filter
              (λ (o : Object).
                is_given previous && not (has_key o.id (by_id (objects_of previous) [])))
              available)
            removed)

  -- `resolveSchemaSelection`
  unfoldable pub resolve_selection :
      (trim : String → String) → Catalog → Option Scope → Request → Result Selection
  unfolding validate_previous available_in removed_from selected_ids chosen
  resolve_selection trim catalog previous request =
      bind (validate_previous previous catalog) (λ valid.
        let available = available_in catalog in
        let removed = removed_from available (objects_of previous) in
        bind (selected_ids trim catalog previous request available removed)
          (chosen catalog previous available removed))
