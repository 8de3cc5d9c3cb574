-- ===== src/Deps/Dag/Order.antt =====
-- internal/deps/dag.go, topoSort: the loop always ends, and what a returned order promises.
use vigie.Prelude.{
  ◌≢◌, ℕ, suc, ◌+◌, String, ◌≡◌, refl, sym, ap, ◌∙◌, true, false, List, [], ◌∷◌, ◌++◌, arith, ◌==◌,
  eq_iff, if◌then◌else◌, length, contains, count, contains-append, append_assoc, append-nil, All,
  All-zip, All-map, inl, inr, Bool-cases, ==→≡,
}
use vigie.Prelude.Int.{pos, is_positive, minus-pos}
use vigie.Prelude.Counting.{Distinct, Within}
use vigie.Dsl.Types.{Dependency}
use vigie.Deps.Dag.{names, by_name, dependents, distinct_keys, start, Sorting, visit}
use vigie.Deps.Dag.Release.{Tracks, result-visit, in_degree-visit}
use vigie.Deps.Dag.Graph.{fill-at_names, count-dependents}
use vigie.Deps.Dag.Loop.{
  visit-Tracks, contains-distinct_keys, IsIteration, start-Tracks, dependents-targets,
}

-- The prerequisites that are not done yet, each as often as it is listed.
pub missing : List String → List String → ℕ
missing done [] = 0
missing done (r ∷ refs) = if contains r done then missing done refs else suc (missing done refs)

missing-nil : (refs : List String) → missing [] refs ≡ length refs
unfolding missing
missing-nil [] = refl
missing-nil (r ∷ refs) = ap suc (missing-nil refs)

missing-snoc :
    (done : List String) (name : String) (refs : List String)
    → contains name done ≡ false
    → missing done refs ≡ count name refs + missing (done ++ name ∷ []) refs
unfolding missing
missing-snoc done name [] h = omega arith
missing-snoc done name (r ∷ refs) h = ground (
  arith,
  missing-snoc done name refs,
  contains-append r done (name ∷ []),
  eq_iff name r,
  eq_iff r name,
)

pub contains_of_missing :
    (done refs : List String) (x : String)
    → missing done refs ≡ 0
    → contains x refs ≡ true
    → contains x done ≡ true
unfolding missing
contains_of_missing done [] x h m = cc
contains_of_missing done (r ∷ refs) x h m =
    ground (arith, contains_of_missing done refs x, eq_iff r x)

pub missing_of_Within : (done refs : List String) → Within refs done → missing done refs ≡ 0
unfolding missing
missing_of_Within done [] w = refl
missing_of_Within done (r ∷ refs) w =
    rw (w r (ground (arith, eq_iff r r))) (missing_of_Within done refs (λ x m. w x (ground arith)))

pub first_missing :
    (done refs : List String)
    → missing done refs ≢ 0
    → (r : String) × (contains r refs ≡ true) × (contains r done ≡ false)
unfolding missing
first_missing done [] h = absurd (h refl)
first_missing done (r ∷ refs) h = elim (Bool-cases (contains r done)) [
  | inl found ↦
      let (q, listed, absent) = first_missing done refs (λ e. h (rw found e)) in
      (q, ground arith, absent)
  | inr absent ↦ (r, ground (arith, eq_iff r r), absent)
]

-- Each name stands behind all of its prerequisites, `seen` standing before the list.
abbrev pub Ordered : (String → List String) → List String → List String → Type 0
Ordered need seen [] = Unit
Ordered need seen (x ∷ xs) = Within (need x) seen × Ordered need (seen ++ x ∷ []) xs

Ordered-snoc :
    (need : String → List String) (seen xs : List String) (x : String)
    → Ordered need seen xs
    → Within (need x) (seen ++ xs)
    → Ordered need seen (xs ++ x ∷ [])
Ordered-snoc need seen [] x o w = (rw append-nil at w, tt)
Ordered-snoc need seen (y ∷ ys) x o w =
    (o.0, Ordered-snoc need (seen ++ y ∷ []) ys x o.1 (rw append_assoc w))

module _ (deps : List Dependency) (distinct : Distinct (names deps)) where
  abbrev pub need : String → List String
  need x = (by_name deps x).depends_on

  find :
      (P : Dependency → Type 0) (rest : List Dependency) (x : String)
      → All P rest
      → All (λ d. by_name deps d.name ≡ d) rest
      → contains x (names rest) ≡ true
      → P (by_name deps x) × ((by_name deps x).name ≡ x)
  find P [] x p q m = cc
  find P (d ∷ rest) x p q m = elim (Bool-cases (d.name == x)) [
    | inl e ↦
        let same : by_name deps x ≡ d = ap (by_name deps) (sym (==→≡ d.name x e)) ∙ q.0 in
        (rw same p.0, ap (λ (c : Dependency). c.name) same ∙ ==→≡ d.name x e)
    | inr other ↦ find P rest x p.1 q.1 (ground arith)
  ]

  pub at_name :
      (P : Dependency → Type 0) (x : String)
      → All P deps
      → contains x (names deps) ≡ true
      → P (by_name deps x) × ((by_name deps x).name ≡ x)
  at_name P x p m = find P deps x p (fill-at_names (λ d. d) _ deps distinct) m

  -- The in-degrees count what is missing, and the result is in order.
  pub record Counts (s : Sorting) : Type 0 where
    pub tracks : Tracks (distinct_keys (names deps)) s
    pub left : All (λ d. s.in_degree d.name ≡ pos (missing s.result d.depends_on)) deps
    pub ordered : Ordered need [] s.result

  -- A name that has been queued has all of its prerequisites in the result.
  ready :
      (s : Sorting) (x : String)
      → Counts s
      → contains x (s.result ++ s.queue) ≡ true
      → Within (need x) s.result
  unfolding is_positive
  ready s x c m =
      let known = c.tracks.within x m in
      let (degree, named) = at_name _ x c.left (rw contains-distinct_keys at known) in
      λ r.
        contains_of_missing s.result (need x) r
          (ground (arith, c.tracks.seen x known, degree, named, ap s.in_degree named))

  -- A name that was just taken from the queue is not in the result yet.
  fresh :
      (xs : List String) (x : String) (ys : List String)
      → Distinct (xs ++ x ∷ ys)
      → contains x xs ≡ false
  fresh [] x ys d = refl
  fresh (z ∷ zs) x ys d =
      ground (arith, fresh zs x ys, contains-append z zs (x ∷ ys), eq_iff x z, eq_iff z x)

  left_after :
      (s : Sorting) (name : String) (d : Dependency) (after : String → List String)
      (rest : List String)
      → contains name s.result ≡ false
      → s.in_degree d.name ≡ pos (missing s.result d.depends_on)
      → count d.name (after name) ≡ count name d.depends_on
      → (visit after s name rest).in_degree d.name
        ≡ pos (missing (s.result ++ name ∷ []) d.depends_on)
  left_after s name d after rest new left counted =
      in_degree-visit after s name rest d.name
      ∙ rw (left, counted, missing-snoc s.result name d.depends_on new)
          (minus-pos (count name d.depends_on) (missing (s.result ++ name ∷ []) d.depends_on))

  pub visit-Counts :
      (s : Sorting) (name : String) (rest : List String)
      → s.queue ≡ name ∷ rest
      → Counts s
      → Counts (visit (dependents (λ _. []) deps) s name rest)
  visit-Counts s name rest e c =
      let after = dependents (λ _. []) deps in
      let new : contains name s.result ≡ false =
        fresh s.result name rest (rw e at c.tracks.distinct) in
      record {
        tracks =
            visit-Tracks (distinct_keys (names deps)) after (dependents-targets deps) s name rest e
              c.tracks;
        left = rw result-visit (
            All-zip _ _ _ deps (λ d. left_after s name d after rest new) c.left
              (count-dependents name deps distinct));
        ordered = rw result-visit (
            Ordered-snoc need [] s.result name c.ordered (
              ready s name c (
                rw e (
                  ground (arith, contains-append name s.result (name ∷ rest), eq_iff name name)))));
      }

  pub start-Counts :
      (range : List String → List String) → IsIteration range → Counts (start range deps)
  unfolding start
  start-Counts range iteration = record {
    tracks = start-Tracks range iteration deps;
    left =
        All-map _ _ deps (λ d stored. stored ∙ ap pos (sym (missing-nil d.depends_on)))
          (fill-at_names (λ d. pos (length d.depends_on)) (λ _. pos 0) deps distinct);
    ordered = tt;
  }
