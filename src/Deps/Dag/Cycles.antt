-- ===== src/Deps/Dag/Cycles.antt =====
-- internal/deps/dag.go, topoSort and buildCycleError: when the sort is refused, and what the names
-- in the error have in common.
use mathlib.Core.Path.{ap₂}
use vigie.Prelude.{
  String, ◌≡◌, ◌≢◌, refl, sym, ap, ◌∙◌, true, false, not, ◌&&◌, List, [], ◌∷◌, map, arith, eq_iff,
  contains, contains-append,
}
use vigie.Prelude.Counting.{Distinct, Within}
use vigie.Dsl.Types.{Dependency}
use vigie.Deps.Dag.{
  names, by_name, Sorting, topo_sort, check_sorted, cyclic_names, DagError, ok, err, cycle_detected,
}
use vigie.Deps.Dag.Loop.{IsIteration, contains-distinct_keys}
use vigie.Deps.Dag.Order.{at_name}
use vigie.Deps.Dag.Sorted.{End, loop_ends, topo_sort-End, success, Distinct-result}
use vigie.Deps.Dag.Acyclic.{by_name-name, waits, all_sorted, Known}

contains-cyclic_names :
    (installed : List String) (all : List Dependency) (x : String)
    → contains x (cyclic_names installed all)
      ≡ (contains x (names all) && not (contains x installed))
unfolding cyclic_names
contains-cyclic_names installed [] x = refl
contains-cyclic_names installed (d ∷ all) x =
    ground (arith, contains-cyclic_names installed all x, eq_iff d.name x)

-- Each of the names depends on one of the names.
abbrev pub IsStuck : List Dependency → List String → Type 0
IsStuck deps cyclic =
    (x : String)
    → contains x cyclic ≡ true
    → (r : String) × (contains r (by_name deps x).depends_on ≡ true) × (contains r cyclic ≡ true)

module _ (range : List String → List String) (iteration : IsIteration range)
    (deps : List Dependency) where
  names-map :
      (distinct : Distinct (names deps)) (xs : List String)
      → Within xs (names deps)
      → names (map (by_name deps) xs) ≡ xs
  names-map distinct [] w = refl
  names-map distinct (x ∷ xs) w =
      ap₂ ◌∷◌ (by_name-name range iteration deps x distinct (w x (ground (arith, eq_iff x x))))
        (names-map distinct xs (λ z m. w z (ground arith)))

  Result-Within : (s : Sorting) → End range iteration deps s → Within s.result (names deps)
  Result-Within s end x m =
      rw contains-distinct_keys at
        (end.tracks.within x (ground (arith, contains-append x s.result s.queue)))

  -- No two of the returned deps have one name.
  pub topo_sort-Distinct :
      (sorted : List Dependency) → topo_sort range deps ≡ ok sorted → Distinct (names sorted)
  topo_sort-Distinct sorted e =
      let (s, w) = success range iteration deps sorted e in
      rw (w.result_lem, names-map w.distinct s.result (Result-Within s w.ended))
        (Distinct-result range iteration deps s w.ended)

  ok_ne_err : {sorted : List Dependency} {e : DagError} → ok sorted ≡ err e → ⊥
  ok_ne_err h = cc

  stuck :
      (distinct : Distinct (names deps))
      → Known deps
      → (s : Sorting) (end : End range iteration deps s) (x : String)
      → contains x (names deps) ≡ true
      → contains x s.result ≡ false
      → (r : String) × (contains r (by_name deps x).depends_on ≡ true)
        × (contains r (cyclic_names s.result deps) ≡ true)
  stuck distinct known s end x m absent =
      let (r, listed, left) = waits range iteration deps distinct s end x m absent in
      let there =
        (at_name deps distinct (λ d. Within d.depends_on (names deps)) x known m).0 r listed in
      (r, listed, ground (arith, contains-cyclic_names s.result deps r, there, left))

  -- Where an iteration over a map meets each key once, names are distinct and references known: a
  -- refusal names at least one dep, and each dep that it names depends on another that it names,
  -- so the names hold a cycle.
  pub topo_sort-IsStuck :
      (e : DagError)
      → Distinct (names deps)
      → Known deps
      → topo_sort range deps ≡ err e
      → (cyclic : List String) × (e ≡ cycle_detected cyclic) × (cyclic ≢ []) × IsStuck deps cyclic
  unfolding check_sorted
  topo_sort-IsStuck e distinct known refused =
      let (s, end) = loop_ends range iteration deps in
      let outcome : check_sorted deps (map (by_name deps) s.result) ≡ err e =
        sym (topo_sort-End range iteration deps s end) ∙ refused in
      let cyclic = cyclic_names s.result deps in
      (
        cyclic,
        ground (arith, names-map distinct s.result (Result-Within s end)),
        λ empty. ok_ne_err (
            sym (
              all_sorted range iteration deps distinct s end (λ x m.
                ground (arith, contains-cyclic_names s.result deps x, ap (contains x) empty)))
            ∙ refused),
        λ x m.
            stuck distinct known s end x (ground (arith, contains-cyclic_names s.result deps x))
              (ground (arith, contains-cyclic_names s.result deps x)),
      )
