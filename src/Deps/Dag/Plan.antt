-- ===== src/Deps/Dag/Plan.antt =====
-- internal/deps/dag.go, BuildBatches: the whole function, on success and on each refusal.
use mathlib.Core.List.{Perm, flatten}
use mathlib.Core.List.Perm
use vigie.Prelude.{
  ℕ, String, ◌≡◌, ◌≢◌, ◌↔◌, refl, true, false, none, some, List, [], ◌∷◌, arith, ◌==◌, eq_iff,
  contains, All, inl, inr, Bool-cases, Option-cases,
}
use vigie.Prelude.Counting.{Distinct, Within}
use vigie.Dsl.Types.{Dependency}
use vigie.Deps.Dag.{
  names, Batch, ok, err, DagError, unknown_dep, out_of_fuel, first_unknown, validate_refs,
  validate_names, topo_sort, build_level_batches, build_batches, >>=-eq-ok, >>=-ne-err,
}
use vigie.Deps.Dag.Loop.{IsIteration}
use vigie.Deps.Dag.Sorted.{success, topo_sort-perm, topo_sort-ne-out_of_fuel}
use vigie.Deps.Dag.Acyclic.{Known, IsRanked, topo_sort-IsOrdered, topo_sort-acyclic}
use vigie.Deps.Dag.Cycles.{topo_sort-Distinct}
use vigie.Deps.Dag.Grouping.{IsStaged}
use vigie.Deps.Dag.Batches.{build_level_batches-perm, build_level_batches-IsStaged}

first_unknown-none :
    (known refs : List String) → first_unknown known refs ≡ none → Within refs known
unfolding first_unknown
first_unknown-none known [] h x m = cc
first_unknown-none known (r ∷ refs) h x m = elim (Bool-cases (contains r known)) [
  | inl found ↦ elim (Bool-cases (r == x)) [
    | inl e ↦ ground (arith, eq_iff r x)
    | inr e ↦ first_unknown-none known refs (ground arith) x (ground arith)
  ]
  | inr absent ↦ ground arith
]

first_unknown-some :
    (known refs : List String) (r : String)
    → first_unknown known refs ≡ some r
    → (contains r refs ≡ true) × (contains r known ≡ false)
unfolding first_unknown
first_unknown-some known [] r h = cc
first_unknown-some known (q ∷ refs) r h = elim (Bool-cases (contains q known)) [
  | inl found ↦
      let (listed, absent) = first_unknown-some known refs r (ground arith) in
      (ground arith, absent)
  | inr absent ↦ ground (arith, eq_iff r r)
]

validate_refs-Within :
    (known : List String) (deps : List Dependency)
    → validate_refs known deps ≡ ok tt
    → All (λ d. Within d.depends_on known) deps
unfolding validate_refs
validate_refs-Within known [] h = tt
validate_refs-Within known (d ∷ deps) h = elim (Option-cases (first_unknown known d.depends_on)) [
  | inl all ↦
      (first_unknown-none known d.depends_on all, validate_refs-Within known deps (ground arith))
  | inr (r, e) ↦ ground arith
]

validate_refs_of_Within :
    (known : List String) (deps : List Dependency)
    → All (λ d. Within d.depends_on known) deps
    → validate_refs known deps ≡ ok tt
unfolding validate_refs
validate_refs_of_Within known [] h = refl
validate_refs_of_Within known (d ∷ deps) h =
    elim (Option-cases (first_unknown known d.depends_on)) [
      | inl all ↦ rw (all, validate_refs) (validate_refs_of_Within known deps h.1)
      | inr (r, e) ↦
          let (listed, absent) = first_unknown-some known d.depends_on r e in
          let there = h.0 r listed in ground arith
    ]

-- The names are accepted exactly when each dependsOn reference is the name of a dep.
pub validate_names-Known : (deps : List Dependency) → (validate_names deps ≡ ok tt) ↔ Known deps
unfolding validate_names
validate_names-Known deps =
    (validate_refs-Within (names deps) deps, validate_refs_of_Within (names deps) deps)

validate_refs-err :
    (known : List String) (rest : List Dependency) (e : DagError)
    → validate_refs known rest ≡ err e
    → (dep ref : String) × (e ≡ unknown_dep dep ref) × (contains ref known ≡ false)
unfolding validate_refs
validate_refs-err known [] e h = cc
validate_refs-err known (d ∷ rest) e h = elim (Option-cases (first_unknown known d.depends_on)) [
  | inl all ↦ validate_refs-err known rest e (ground arith)
  | inr (r, found) ↦ (d.name, r, ground arith, (first_unknown-some known d.depends_on r found).1)
]

-- A refusal names a reference that is the name of no dep.
pub validate_names-err :
    (deps : List Dependency) (e : DagError)
    → validate_names deps ≡ err e
    → (dep ref : String) × (e ≡ unknown_dep dep ref) × (contains ref (names deps) ≡ false)
unfolding validate_names
validate_names-err deps = validate_refs-err (names deps) deps

validate_names-ne-out_of_fuel : (deps : List Dependency) → validate_names deps ≢ err out_of_fuel
validate_names-ne-out_of_fuel deps h =
    let (dep, ref, e, _) = validate_names-err deps out_of_fuel h in cc

module _ (range : List String → List String) (iteration : IsIteration range) where
  abbrev Planned : List Dependency → List Batch → Type 0
  Planned deps batches = Perm (flatten batches) deps × IsStaged [] batches

  sorted_plan :
      (deps sorted : List Dependency)
      → topo_sort range deps ≡ ok sorted
      → Planned deps (build_level_batches sorted)
  sorted_plan deps sorted e =
      let distinct = topo_sort-Distinct range iteration deps sorted e in
      (
        Perm.trans (build_level_batches-perm sorted distinct)
            (topo_sort-perm range iteration deps sorted e),
        build_level_batches-IsStaged sorted distinct
            (topo_sort-IsOrdered range iteration deps sorted e),
      )

  -- Where an iteration over a map meets each key once: returned batches hold the given deps, each
  -- once, and the prerequisites of a dep all stand in batches before its own.
  pub build_batches_lem :
      (deps : List Dependency) (batches : List Batch)
      → build_batches range deps ≡ ok batches
      → Perm (flatten batches) deps × IsStaged [] batches
  unfolding build_batches flatten
  build_batches_lem [] batches h =
      let none_left : batches ≡ [] = ground arith in rw none_left (Perm.refl [], tt)
  build_batches_lem (d ∷ rest) batches h =
      let (_, _, h') = >>=-eq-ok (validate_names (d ∷ rest)) _ h in
      let (sorted, e, built) = >>=-eq-ok (topo_sort range (d ∷ rest)) _ h' in
      let same : batches ≡ build_level_batches sorted = ground arith in
      rw same (sorted_plan (d ∷ rest) sorted e)

  -- Where an iteration over a map meets each key once: deps for which batches are returned have
  -- distinct names.
  pub build_batches-Distinct :
      (deps : List Dependency) (batches : List Batch)
      → build_batches range deps ≡ ok batches
      → Distinct (names deps)
  unfolding build_batches
  build_batches-Distinct [] batches h = tt
  build_batches-Distinct (d ∷ rest) batches h =
      let (_, _, h') = >>=-eq-ok (validate_names (d ∷ rest)) _ h in
      let (sorted, e, _) = >>=-eq-ok (topo_sort range (d ∷ rest)) _ h' in
      let (_, success_at_end) = success range iteration (d ∷ rest) sorted e in
      success_at_end.distinct

  -- Where an iteration over a map meets each key once: deps with distinct names, known references
  -- and no cycle (a rank falls along each reference) have batches.
  pub build_batches-acyclic :
      (rank : String → ℕ) (deps : List Dependency)
      → Distinct (names deps)
      → Known deps
      → IsRanked rank deps
      → (batches : List Batch) × (build_batches range deps ≡ ok batches)
  unfolding build_batches
  build_batches-acyclic rank [] distinct known ranked = ([], refl)
  build_batches-acyclic rank (d ∷ rest) distinct known ranked =
      let (sorted, e) = topo_sort-acyclic range iteration (d ∷ rest) rank distinct known ranked in
      (build_level_batches sorted, rw ((validate_names-Known (d ∷ rest)).1 known, e))

  -- Where an iteration over a map meets each key once: the fuel of the loop never runs out.
  pub build_batches-ne-out_of_fuel :
      (deps : List Dependency) → build_batches range deps ≢ err out_of_fuel
  unfolding build_batches
  build_batches-ne-out_of_fuel [] = λ h. cc
  build_batches-ne-out_of_fuel (d ∷ rest) =
      >>=-ne-err (validate_names (d ∷ rest)) _ (validate_names-ne-out_of_fuel (d ∷ rest)) (λ _.
        >>=-ne-err (topo_sort range (d ∷ rest)) _
          (topo_sort-ne-out_of_fuel range iteration (d ∷ rest)) (λ sorted h. ground arith))
