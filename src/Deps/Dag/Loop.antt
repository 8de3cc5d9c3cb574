-- ===== src/Deps/Dag/Loop.antt =====
-- internal/deps/dag.go, topoSort: a proof rule for the loop over the queue, and the loop's state.
use vigie.Prelude.{
  ℕ, zero, suc, ◌+◌, ◌≤◌, String, ◌≡◌, refl, ap, not, ◌&&◌, some, List, [], ◌∷◌, ◌++◌, arith,
  eq_iff, length, length-append, contains, append_assoc,
}
use vigie.Prelude.Int.{ℤ, pos, is_zero, is_positive}
use vigie.Prelude.Counting.{Distinct, Within, length-le_of_Within}
use vigie.Dsl.Types.{Dependency}
use vigie.Deps.Dag.{
  names, in_degrees, dependents, distinct_keys, roots, start, Sorting, visit, drain,
}
use vigie.Deps.Dag.Release.{Tracks, release-Tracks, result-visit}
use vigie.Deps.Dag.Graph.{fill-all, dependents-Within}

module _ (after : String → List String) (bound : ℕ) (P : Sorting → Type 0)
    (step : (s : Sorting) (name : String) (rest : List String)
      → s.queue ≡ name ∷ rest
      → P s
      → P (visit after s name rest))
    (room : (s : Sorting) → P s → length s.result + length s.queue ≤ bound) where
  -- The loop ends with an empty queue, and what each round keeps holds then.
  pub drain_ends :
      (fuel : ℕ) (s : Sorting) (queue : List String)
      → s.queue ≡ queue
      → bound ≤ fuel + length s.result
      → P s
      → (s' : Sorting) × (drain fuel after s queue ≡ some s') × P s' × (s'.queue ≡ [])
  unfolding drain
  drain_ends fuel s [] e enough p = (s, refl, p, e)
  drain_ends zero s (name ∷ rest) e enough p = absurd (omega (arith, room s p, ap length e))
  drain_ends (suc fuel) s (name ∷ rest) e enough p =
      let s' = visit after s name rest in
      drain_ends fuel s' s'.queue refl
        (omega
          (arith, ap length (result-visit after s name rest), length-append s.result (name ∷ [])))
        (step s name rest e p)

module _ (keys : List String) (after : String → List String)
    (targets : (n : String) → Within (after n) keys) where
  pub visit-Tracks :
      (s : Sorting) (name : String) (rest : List String)
      → s.queue ≡ name ∷ rest
      → Tracks keys s
      → Tracks keys (visit after s name rest)
  unfolding visit
  visit-Tracks s name rest e t = release-Tracks keys _ (after name) (targets name) (record {
    seen = λ x k. rw append_assoc (rw e at (t.seen x k));
    distinct = rw append_assoc (rw e at t.distinct);
    within = rw append_assoc (rw e at t.within);
  })

  pub Tracks-room : (s : Sorting) → Tracks keys s → length s.result + length s.queue ≤ length keys
  Tracks-room s t = omega (
    arith,
    length-le_of_Within (s.result ++ s.queue) keys t.distinct t.within,
    length-append s.result s.queue,
  )

-- The keys of a map filled from the names.
pub contains-distinct_keys :
    (x : String) (xs : List String) → contains x (distinct_keys xs) ≡ contains x xs
unfolding distinct_keys
contains-distinct_keys x [] = refl
contains-distinct_keys x (y ∷ ys) =
    ground (arith, contains-distinct_keys x ys, contains-distinct_keys y ys, eq_iff y x)

pub Distinct-distinct_keys : (xs : List String) → Distinct (distinct_keys xs)
unfolding distinct_keys
Distinct-distinct_keys [] = tt
Distinct-distinct_keys (y ∷ ys) = ground (arith, Distinct-distinct_keys ys)

pub length-distinct_keys-le : (xs : List String) → length (distinct_keys xs) ≤ length xs
unfolding distinct_keys
length-distinct_keys-le [] = omega arith
length-distinct_keys-le (y ∷ ys) = ground (arith, length-distinct_keys-le ys)

-- If no name was lost, the names are distinct.
pub Distinct-of_length : (xs : List String) → length xs ≤ length (distinct_keys xs) → Distinct xs
unfolding distinct_keys
Distinct-of_length [] h = tt
Distinct-of_length (y ∷ ys) h =
    ground (arith, contains-distinct_keys y ys, length-distinct_keys-le ys, Distinct-of_length ys)

contains-roots :
    (degree : String → ℤ) (keys : List String) (x : String)
    → contains x (roots degree keys) ≡ (contains x keys && is_zero (degree x))
unfolding roots
contains-roots degree [] x = refl
contains-roots degree (k ∷ keys) x = ground (arith, contains-roots degree keys x, eq_iff k x)

Distinct-roots :
    (degree : String → ℤ) (keys : List String) → Distinct keys → Distinct (roots degree keys)
unfolding roots
Distinct-roots degree [] h = tt
Distinct-roots degree (k ∷ keys) h =
    ground (arith, contains-roots degree keys k, Distinct-roots degree keys)

-- What Go promises of one iteration over a map: it meets each key, and none twice.
pub record IsIteration (range : List String → List String) : Type 0 where
  pub same : (x : String) (keys : List String) → contains x (range keys) ≡ contains x keys
  pub once : (keys : List String) → Distinct keys → Distinct (range keys)

pub dependents-targets :
    (deps : List Dependency) (n : String)
    → Within (dependents (λ _. []) deps n) (distinct_keys (names deps))
dependents-targets deps =
    dependents-Within (λ _. []) deps (distinct_keys (names deps)) (λ n x k. cc)
      (λ x k. rw contains-distinct_keys k)

module _ (range : List String → List String) (iteration : IsIteration range)
    (deps : List Dependency) where
  in_degree_not_negative :
      (x : String) → is_zero (in_degrees deps x) ≡ not (is_positive (in_degrees deps x))
  unfolding is_zero is_positive
  in_degree_not_negative =
      fill-all (λ n. is_zero n ≡ not (is_positive n)) (λ d. pos (length d.depends_on)) (λ _. pos 0)
        deps (λ d. at_pos (length d.depends_on)) (λ _. refl)
    where
      at_pos : (n : ℕ) → is_zero (pos n) ≡ not (is_positive (pos n))
      at_pos zero = refl
      at_pos (suc n) = refl

  pub start-Tracks : Tracks (distinct_keys (names deps)) (start range deps)
  unfolding start
  start-Tracks =
      let keys = distinct_keys (names deps) in
      record {
        seen = λ x k. ground (
          arith,
          contains-roots (in_degrees deps) (range keys) x,
          iteration.same x keys,
          in_degree_not_negative x,
        );
        distinct =
            Distinct-roots (in_degrees deps) (range keys)
              (iteration.once keys (Distinct-distinct_keys (names deps)));
        within = λ x k.
            ground (arith, contains-roots (in_degrees deps) (range keys) x, iteration.same x keys);
      }
