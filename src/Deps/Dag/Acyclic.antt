-- ===== src/Deps/Dag/Acyclic.antt =====
-- internal/deps/dag.go, topoSort: prerequisites come first, acyclic graphs are sorted, and the names
-- of a cycle error really wait for one another.
use vigie.Prelude.{
  ℕ, zero, suc, ◌<◌, String, ◌≡◌, ap, ◌∙◌, true, false, not, List, [], ◌∷◌, ◌++◌, map, arith,
  eq_iff, length-map, contains, contains-append, append-nil, All,
}
use vigie.Prelude.Int.{pos, is_positive}
use vigie.Prelude.Counting.{Distinct, Within, length-le_of_Within}
use vigie.Dsl.Types.{Dependency}
use vigie.Deps.Dag.{names, by_name, Sorting, topo_sort, check_sorted, ok}
use vigie.Deps.Dag.Loop.{contains-distinct_keys, IsIteration}
use vigie.Deps.Dag.Order.{first_missing, missing, missing_of_Within, Ordered, need, at_name, Counts}
use vigie.Deps.Dag.Sorted.{
  End, loop_ends, End-Counts, topo_sort-End, success, Success-IsWithin, Distinct-result,
}

-- Each dep stands behind all deps that it names in dependsOn; `seen` stands before the list.
abbrev pub IsOrdered : List String → List Dependency → Type 0
IsOrdered seen [] = Unit
IsOrdered seen (d ∷ ds) = Within d.depends_on seen × IsOrdered (seen ++ d.name ∷ []) ds

-- All references name a dep.
abbrev pub Known : List Dependency → Type 0
Known deps = All (λ d. Within d.depends_on (names deps)) deps

-- `rank` puts each prerequisite below its dep, so the graph has no cycle.
abbrev pub IsRanked : (String → ℕ) → List Dependency → Type 0
IsRanked rank deps =
    All (λ d. (r : String) → contains r d.depends_on ≡ true → rank r < rank d.name) deps

module _ (range : List String → List String) (iteration : IsIteration range)
    (deps : List Dependency) where
  pub by_name-name :
      (x : String)
      → Distinct (names deps)
      → contains x (names deps) ≡ true
      → (by_name deps x).name ≡ x
  by_name-name x distinct m = (at_name deps distinct (λ _. Unit {0}) x (all_units deps) m).1
    where
      all_units : (rest : List Dependency) → All (λ _. Unit {0}) rest
      all_units [] = tt
      all_units (d ∷ rest) = (tt, all_units rest)

  Ordered→IsOrdered :
      (distinct : Distinct (names deps)) (seen xs : List String)
      → Within xs (names deps)
      → Ordered (need deps distinct) seen xs
      → IsOrdered seen (map (by_name deps) xs)
  Ordered→IsOrdered distinct seen [] w o = tt
  Ordered→IsOrdered distinct seen (x ∷ xs) w o =
      let named : (by_name deps x).name ≡ x =
        by_name-name x distinct (w x (ground (arith, eq_iff x x))) in
      (
        o.0,
        rw named (Ordered→IsOrdered distinct (seen ++ x ∷ []) xs (λ z m. w z (ground arith)) o.1),
      )

  -- Where an iteration over a map meets each key once: in a returned order every dep stands behind
  -- the deps that it depends on.
  pub topo_sort-IsOrdered :
      (sorted : List Dependency) → topo_sort range deps ≡ ok sorted → IsOrdered [] sorted
  topo_sort-IsOrdered sorted e =
      let (s, w) = success range iteration deps sorted e in
      rw w.result_lem (
        Ordered→IsOrdered w.distinct [] s.result (Success-IsWithin range iteration deps sorted s w)
          (End-Counts range iteration deps w.distinct s w.ended).ordered)

  -- What the loop leaves behind still waits for something.
  module _ (distinct : Distinct (names deps)) (s : Sorting) (end : End range iteration deps s) where
    counts : Counts deps distinct s
    counts = End-Counts range iteration deps distinct s end

    degree_of :
        (x : String)
        → contains x (names deps) ≡ true
        → s.in_degree x ≡ pos (missing s.result (need deps distinct x))
    degree_of x m =
        let (degree, named) = at_name deps distinct _ x counts.left m in rw named at degree

    tracked :
        (x : String)
        → contains x (names deps) ≡ true
        → contains x s.result ≡ not (is_positive (s.in_degree x))
    tracked x m =
        let seen = counts.tracks.seen x (rw contains-distinct_keys m) in
        rw append-nil at (rw end.emptied at seen)

    in_result :
        (x : String)
        → contains x (names deps) ≡ true
        → Within (need deps distinct x) s.result
        → contains x s.result ≡ true
    unfolding is_positive
    in_result x m w =
        tracked x m ∙ rw (degree_of x m, missing_of_Within s.result (need deps distinct x) w)

    pub waits :
        (x : String)
        → contains x (names deps) ≡ true
        → contains x s.result ≡ false
        → (r : String) × (contains r (need deps distinct x) ≡ true) × (contains r s.result ≡ false)
    unfolding is_positive
    waits x m absent =
        first_missing s.result (need deps distinct x)
          (λ none_left. ground (arith, tracked x m, degree_of x m, ap pos none_left))

    pub all_sorted :
        Within (names deps) s.result → topo_sort range deps ≡ ok (map (by_name deps) s.result)
    unfolding check_sorted
    all_sorted w =
        let more = length-le_of_Within (names deps) s.result distinct w in
        let fewer =
          length-le_of_Within s.result (names deps) (Distinct-result range iteration deps s end)
            (λ x m.
              rw contains-distinct_keys at
                (end.tracks.within x (ground (arith, contains-append x s.result s.queue)))) in
        topo_sort-End range iteration deps s end
        ∙ ground (
          arith,
          more,
          fewer,
          length-map (by_name deps) s.result,
          length-map (λ (d : Dependency). d.name) deps,
        )

  descent :
      (distinct : Distinct (names deps)) (s : Sorting) (end : End range iteration deps s)
      (rank : String → ℕ)
      → Known deps
      → IsRanked rank deps
      → (n : ℕ) (x : String) → contains x (names deps) ≡ true
      → rank x < n
      → contains x s.result ≡ true
  descent distinct s end rank known ranked zero x m lt = absurd (omega arith)
  descent distinct s end rank known ranked (suc n) x m lt = in_result distinct s end x m (λ r k.
      descent distinct s end rank known ranked n r (refs_known r k) (omega (arith, below r k)))
    where
      named : (by_name deps x).name ≡ x
      named = by_name-name x distinct m

      refs_known : Within (need deps distinct x) (names deps)
      refs_known = (at_name deps distinct (λ d. Within d.depends_on (names deps)) x known m).0

      below : (r : String) → contains r (need deps distinct x) ≡ true → rank r < rank x
      below r k = let lower = (at_name deps distinct _ x ranked m).0 r k in rw named at lower

  -- Distinct names, known references and no cycle: the deps are sorted.
  pub topo_sort-acyclic :
      (rank : String → ℕ)
      → Distinct (names deps)
      → Known deps
      → IsRanked rank deps
      → (sorted : List Dependency) × (topo_sort range deps ≡ ok sorted)
  topo_sort-acyclic rank distinct known ranked =
      let (s, end) = loop_ends range iteration deps in
      (
        map (by_name deps) s.result,
        all_sorted distinct s end
            (λ x m. descent distinct s end rank known ranked (suc (rank x)) x m (omega arith)),
      )
