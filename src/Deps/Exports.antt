-- ===== src/Deps/Exports.antt =====
-- internal/deps/export.go, and collectExports of internal/deps/engine.go: the export values of the
-- installed deps, by dep name and key.
use vigie.Prelude.{
  String, ◌≡◌, refl, Bool, true, false, ◌&&◌, Option, none, some, List, [], ◌∷◌, ◌++◌, arith, ◌==◌,
  eq_iff, if◌then◌else◌, contains, Bool-cases, All, ==_self, ◌∙◌, inl, inr, ap, ==→≡,
}
use vigie.Prelude.Counting.{Distinct}
use vigie.Dsl.Types.{Dependency}
use vigie.Deps.Dag.{names}

-- A map from dep names to maps from keys to values; `none` where a key is missing.
abbrev pub ExportMap : Type 0
ExportMap = String → Option (String → Option String)

abbrev pub empty_exports : ExportMap
empty_exports name = none

-- m[depName], or the new map that Set stores when it is missing.
unfoldable pub inner_map : Option (String → Option String) → String → Option String
inner_map none key = none
inner_map (some inner) key = inner key

-- Set: the inner map is created when it is missing.
unfoldable pub set_export : ExportMap → (dep_name key value : String) → ExportMap
unfolding inner_map
set_export m dep_name key value name =
    if dep_name == name
    then some (λ k. if key == k then some value else inner_map (m dep_name) k)
    else m name

unfoldable pub get_export : ExportMap → (dep_name key : String) → Option String
unfolding inner_map
get_export m dep_name key = inner_map (m dep_name) key

-- The loop over the export entries of one dep.
unfoldable pub set_exports : ExportMap → String → List (String × String) → ExportMap
unfolding set_export
set_exports m name [] = m
set_exports m name ((key, value) ∷ rest) = set_exports (set_export m name key value) name rest

unfoldable pub collect_exports : Dependency → ExportMap → ExportMap
unfolding set_exports
collect_exports dep m = set_exports m dep.name dep.exports

-- After a write its key has the written value, and every other key of every dep what it had.
pub get_export-set_export :
    (m : ExportMap) (name key value name' key' : String)
    → get_export (set_export m name key value) name' key'
      ≡ (if name == name' && key == key' then some value else get_export m name' key')
unfolding get_export set_export
get_export-set_export m name key value name' key' = elim (Bool-cases (name == name')) [
  | inl e ↦
      rw (e, ap m (==→≡ name name' e))
        (choose (key == key') (some value) (inner_map (m name') key'))
  | inr e ↦ rw e
]
  where
    choose : (b : Bool) (x y : Option String) → (if b then x else y) ≡ (if true && b then x else y)
    choose true x y = refl
    choose false x y = refl

-- What the entries hold for a key: a Go map has each key once.
abbrev pub entry : String → List (String × String) → Option String
entry k [] = none
entry k ((j, v) ∷ rest) = if j == k then some v else entry k rest

abbrev pub entry_keys : List (String × String) → List String
entry_keys [] = []
entry_keys ((k, v) ∷ rest) = k ∷ entry_keys rest

abbrev pub or_else : Option String → Option String → Option String
or_else none o = o
or_else (some v) o = some v

entry-absent :
    (k : String) (es : List (String × String))
    → contains k (entry_keys es) ≡ false
    → entry k es ≡ none
entry-absent k [] h = refl
entry-absent k ((j, v) ∷ es) h = ground (arith, entry-absent k es)

merge :
    (same_dep same_key : Bool) (later before : Option String) (v : String)
    → (same_key ≡ true → later ≡ none)
    → (if same_dep
        then or_else later (if same_dep && same_key then some v else before)
        else if same_dep && same_key
        then some v
        else before)
      ≡ (if same_dep then or_else (if same_key then some v else later) before else before)
merge true true later before v h = rw (h refl)
merge true false later before v h = refl
merge false c later before v h = refl

get_export-set_exports :
    (m : ExportMap) (name : String) (es : List (String × String)) (name' k : String)
    → Distinct (entry_keys es)
    → get_export (set_exports m name es) name' k ≡ (
        if name == name' then or_else (entry k es) (get_export m name' k) else get_export m name' k)
unfolding set_exports
get_export-set_exports m name [] name' k h = elim (Bool-cases (name == name')) [
  | inl e ↦ rw e
  | inr e ↦ rw e
]
get_export-set_exports m name ((j, v) ∷ es) name' k h =
    get_export-set_exports (set_export m name j v) name es name' k h.1
    ∙ rw (get_export-set_export m name j v name' k) (
        merge (name == name') (j == k) (entry k es) (get_export m name' k) v
          (λ e. entry-absent k es (rw (==→≡ j k e) at h.0)))

or_else-none : (o : Option String) → or_else o none ≡ o
or_else-none none = refl
or_else-none (some v) = refl

-- The loop over all installed deps, in order.
unfoldable pub collect_all : List Dependency → ExportMap → ExportMap
unfolding collect_exports
collect_all [] m = m
collect_all (dep ∷ deps) m = collect_all deps (collect_exports dep m)

collect_all-absent :
    (m : ExportMap) (deps : List Dependency) (name k : String)
    → contains name (names deps) ≡ false
    → All (λ d. Distinct (entry_keys d.exports)) deps
    → get_export (collect_all deps m) name k ≡ get_export m name k
unfolding collect_all
collect_all-absent m [] name k h u = refl
collect_all-absent m (d ∷ deps) name k h u =
    let other : (d.name == name) ≡ false = ground arith in
    collect_all-absent (set_exports m d.name d.exports) deps name k (ground arith) u.1
    ∙ get_export-set_exports m d.name d.exports name k u.0
    ∙ rw other

-- With distinct names, each dep's exports are found under its name as it declares them, and nothing
-- else is found there, if nothing was there before.
pub collect_all_lem :
    (m : ExportMap) (deps : List Dependency)
    → Distinct (names deps)
    → All (λ d. Distinct (entry_keys d.exports)) deps
    → ((name k : String) → contains name (names deps) ≡ true → get_export m name k ≡ none)
    → All (λ d. (k : String) → get_export (collect_all deps m) d.name k ≡ entry k d.exports) deps
unfolding collect_all
collect_all_lem m [] h u none_before = tt
collect_all_lem m (d ∷ deps) h u none_before = (
  λ k.
      collect_all-absent (set_exports m d.name d.exports) deps d.name k h.0 u.1
      ∙ get_export-set_exports m d.name d.exports d.name k u.0
      ∙ rw (==_self d.name, none_before d.name k (ground (arith, eq_iff d.name d.name)))
          (or_else-none (entry k d.exports)),
  collect_all_lem (set_exports m d.name d.exports) deps h.1 u.1 (λ name k known.
      let other : (d.name == name) ≡ false =
        ground (arith, h.0, eq_iff d.name name, ap (λ x. contains x (names deps))) in
      get_export-set_exports m d.name d.exports name k u.0
      ∙ rw other (none_before name k (ground arith))),
)

pub collect_all-append :
    (xs ys : List Dependency) (m : ExportMap)
    → collect_all (xs ++ ys) m ≡ collect_all ys (collect_all xs m)
unfolding collect_all
collect_all-append [] ys m = refl
collect_all-append (x ∷ xs) ys m = collect_all-append xs ys (collect_exports x m)

pub empty_export : (name key : String) → get_export empty_exports name key ≡ none
unfolding get_export
empty_export name key = refl
