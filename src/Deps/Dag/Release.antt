-- ===== src/Deps/Dag/Release.antt =====
-- internal/deps/dag.go, topoSort: what taking one name from the queue does to the in-degrees and
-- to the queue.
use vigie.Prelude.{
  String, ◌≡◌, refl, true, false, not, List, [], ◌∷◌, ◌++◌, arith, ◌==◌, eq_iff, if◌then◌else◌,
  contains, count, contains-append, append_assoc, Bool-cases, inl, inr,
}
use vigie.Prelude.Int.{decrement, is_zero, is_positive, minus, decrement-hit, decrement-miss}
use vigie.Prelude.Counting.{Distinct, Within, Distinct-snoc, Within-append}
use vigie.Deps.Dag.{Sorting, release_one, release, visit}

pub result-release : (s : Sorting) (ds : List String) → (release s ds).result ≡ s.result
unfolding release
result-release s [] = refl
result-release s (d ∷ ds) = result-release (release_one s d) ds

pub result-visit :
    (after : String → List String) (s : Sorting) (name : String) (rest : List String)
    → (visit after s name rest).result ≡ s.result ++ name ∷ []
unfolding visit
result-visit after s name rest = result-release _ (after name)

in_degree-release_one :
    (s : Sorting) (d x : String)
    → (release_one s d).in_degree x ≡ (if d == x then decrement (s.in_degree d) else s.in_degree x)
unfolding release_one
in_degree-release_one s d x = refl

-- Each occurrence among the dependents takes one from the in-degree.
pub in_degree-release :
    (s : Sorting) (ds : List String) (x : String)
    → (release s ds).in_degree x ≡ minus (s.in_degree x) (count x ds)
unfolding release minus
in_degree-release s [] x = refl
in_degree-release s (d ∷ ds) x =
    let stepped : (release_one s d).in_degree x
        ≡ (if d == x then decrement (s.in_degree d) else s.in_degree x) =
      in_degree-release_one s d x in
    ground (arith, in_degree-release (release_one s d) ds x, eq_iff d x, stepped)

pub in_degree-visit :
    (after : String → List String) (s : Sorting) (name : String) (rest : List String) (x : String)
    → (visit after s name rest).in_degree x ≡ minus (s.in_degree x) (count x (after name))
unfolding visit
in_degree-visit after s name rest x = in_degree-release _ (after name) x

module _ (keys : List String) where
  -- Of the keys, exactly those whose in-degree fell to zero have been queued, and each once.
  pub record Tracks (s : Sorting) : Type 0 where
    pub seen :
        (x : String)
        → contains x keys ≡ true
        → contains x (s.result ++ s.queue) ≡ not (is_positive (s.in_degree x))
    pub distinct : Distinct (s.result ++ s.queue)
    pub within : Within (s.result ++ s.queue) keys

  release_one-Tracks :
      (s : Sorting) (d : String) → contains d keys ≡ true → Tracks s → Tracks (release_one s d)
  unfolding release_one
  release_one-Tracks s d known t = elim (Bool-cases (is_zero (decrement (s.in_degree d)))) [
    | inl hit ↦
        let fresh : contains d (s.result ++ s.queue) ≡ false =
          ground (arith, t.seen d known, decrement-hit (s.in_degree d) hit) in
        record {
          seen = λ x k.
              rw (hit, ← append_assoc)
                (ground (
                  arith,
                  t.seen x k,
                  contains-append x (s.result ++ s.queue) (d ∷ []),
                  decrement-hit (s.in_degree d) hit,
                  eq_iff d x,
                ));
          distinct =
              rw (hit, ← append_assoc) (Distinct-snoc (s.result ++ s.queue) d t.distinct fresh);
          within =
              rw (hit, ← append_assoc)
                (Within-append (s.result ++ s.queue) (d ∷ []) keys t.within
                  (λ x m. ground (arith, eq_iff d x)));
        }
    | inr miss ↦ record {
      seen = λ x k.
          rw miss (ground (arith, t.seen x k, decrement-miss (s.in_degree d) miss, eq_iff d x));
      distinct = rw miss t.distinct;
      within = rw miss t.within;
    }
  ]

  pub release-Tracks :
      (s : Sorting) (ds : List String) → Within ds keys → Tracks s → Tracks (release s ds)
  unfolding release
  release-Tracks s [] known t = t
  release-Tracks s (d ∷ ds) known t =
      release-Tracks (release_one s d) ds (λ x m. known x (ground arith))
        (release_one-Tracks s d (known d (ground (arith, eq_iff d d))) t)
