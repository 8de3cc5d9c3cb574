-- ===== src/Deps/Dag/Sorted.antt =====
-- internal/deps/dag.go, topoSort: the loop always ends, and what a returned order promises.
use mathlib.Core.List.{Perm}
use mathlib.Core.List.Perm
use mathlib.Core.Path.{ap₂}
use vigie.Prelude.{
  ◌+◌, ◌≤◌, String, ◌≡◌, ◌≢◌, refl, sym, ◌∙◌, subst, some, List, [], ◌∷◌, map, arith, length,
  length-map, contains-append, append-nil, All,
}
use vigie.Prelude.Counting.{Distinct, Within, perm_of_Within}
use vigie.Dsl.Types.{Dependency}
use vigie.Deps.Dag.{
  names, by_name, dependents, distinct_keys, start, Sorting, drain, topo_sort, check_sorted, ok,
  err, out_of_fuel,
}
use vigie.Deps.Dag.Release.{Tracks}
use vigie.Deps.Dag.Graph.{fill-at_names}
use vigie.Deps.Dag.Loop.{
  drain_ends, visit-Tracks, Tracks-room, contains-distinct_keys, length-distinct_keys-le,
  Distinct-of_length, IsIteration, start-Tracks, dependents-targets,
}
use vigie.Deps.Dag.Order.{Counts, visit-Counts, start-Counts}

module _ (range : List String → List String) (iteration : IsIteration range)
    (deps : List Dependency) where
  abbrev pub keys : List String
  keys = distinct_keys (names deps)

  -- The state in which the loop ends.
  pub record End (s : Sorting) : Type 0 where
    pub drained :
        drain (length deps) (dependents (λ _. []) deps) (start range deps) (start range deps).queue
        ≡ some s
    pub tracks : Tracks keys s
    pub emptied : s.queue ≡ []

  enough_fuel : length keys ≤ length deps + length (start range deps).result
  unfolding start
  enough_fuel =
      omega
        (arith, length-distinct_keys-le (names deps), length-map (λ (d : Dependency). d.name) deps)

  pub loop_ends : (s : Sorting) × End s
  loop_ends =
      let after = dependents (λ _. []) deps in
      let (s, drained, tracks, emptied) =
        drain_ends after (length keys) (Tracks keys)
          (λ s name rest. visit-Tracks keys after (dependents-targets deps) s name rest)
          (Tracks-room keys after (dependents-targets deps)) (length deps) (start range deps)
          (start range deps).queue refl enough_fuel (start-Tracks range iteration deps) in
      (s, record { drained = drained; tracks = tracks; emptied = emptied })

  -- The same state counts what is missing, where the names are distinct.
  pub End-Counts : (distinct : Distinct (names deps)) (s : Sorting) → End s → Counts deps distinct s
  End-Counts distinct s end =
      let (s', drained, counts, _) =
        drain_ends (dependents (λ _. []) deps) (length keys) (Counts deps distinct)
          (λ t name rest. visit-Counts deps distinct t name rest)
          (λ t c. Tracks-room keys (dependents (λ _. []) deps) (dependents-targets deps) t c.tracks)
          (length deps) (start range deps) (start range deps).queue refl enough_fuel
          (start-Counts deps distinct range iteration) in
      let same : s' ≡ s = cc (drained, end.drained) in subst (Counts deps distinct) same counts

  pub topo_sort-End :
      (s : Sorting) → End s → topo_sort range deps ≡ check_sorted deps (map (by_name deps) s.result)
  unfolding topo_sort
  topo_sort-End s end = rw (end.drained, topo_sort)

  -- The loop needs no more rounds than there are deps: the fuel never runs out.
  pub topo_sort-ne-out_of_fuel : topo_sort range deps ≢ err out_of_fuel
  unfolding check_sorted
  topo_sort-ne-out_of_fuel =
      let (s, end) = loop_ends in rw (topo_sort-End s end) (λ e. ground arith)

  -- What a success says of the state: it holds all names, and no name stands twice.
  pub record Success (sorted : List Dependency) (s : Sorting) : Type 0 where
    pub ended : End s
    pub result_lem : sorted ≡ map (by_name deps) s.result
    pub distinct : Distinct (names deps)
    pub complete : length (names deps) ≤ length s.result

  pub success :
      (sorted : List Dependency)
      → topo_sort range deps ≡ ok sorted
      → (s : Sorting) × Success sorted s
  unfolding check_sorted
  success sorted e =
      let (s, end) = loop_ends in
      let found : check_sorted deps (map (by_name deps) s.result) ≡ ok sorted =
        sym (topo_sort-End s end) ∙ e in
      let full : length s.result ≡ length deps =
        ground (arith, length-map (by_name deps) s.result) in
      (
        s,
        record {
          ended = end;
          result_lem = ground arith;
          distinct = Distinct-of_length (names deps) (
              omega (
                arith,
                Tracks-room keys (dependents (λ _. []) deps) (dependents-targets deps) s end.tracks,
                length-map (λ (d : Dependency). d.name) deps,
              ));
          complete = omega (arith, length-map (λ (d : Dependency). d.name) deps);
        },
      )

  pub Success-IsWithin :
      (sorted : List Dependency) (s : Sorting) → Success sorted s → Within s.result (names deps)
  Success-IsWithin sorted s w x m =
      rw contains-distinct_keys at
        (w.ended.tracks.within x (ground (arith, contains-append x s.result s.queue)))

  pub Distinct-result : (s : Sorting) → End s → Distinct s.result
  Distinct-result s end = rw append-nil at (rw end.emptied at end.tracks.distinct)

  map-by_name-names :
      (rest : List Dependency)
      → All (λ d. by_name deps d.name ≡ d) rest
      → map (by_name deps) (names rest) ≡ rest
  map-by_name-names [] h = refl
  map-by_name-names (d ∷ rest) h = ap₂ ◌∷◌ h.0 (map-by_name-names rest h.1)

  -- Where an iteration over a map meets each key once: a returned order holds the given deps, each
  -- once.
  pub topo_sort-perm :
      (sorted : List Dependency) → topo_sort range deps ≡ ok sorted → Perm sorted deps
  topo_sort-perm sorted e =
      let (s, w) = success sorted e in
      let same : Perm s.result (names deps) =
        perm_of_Within s.result (names deps) (Distinct-result s w.ended)
          (Success-IsWithin sorted s w) w.complete in
      rw w.result_lem (
        rw (map-by_name-names deps (fill-at_names (λ d. d) _ deps w.distinct)) at
          (Perm.map (by_name deps) same))
