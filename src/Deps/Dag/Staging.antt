-- ===== src/Deps/Dag/Staging.antt =====
-- internal/deps/dag.go, buildLevelBatches: the levels of sorted deps.
use vigie.Prelude.{
  ℕ, ◌+◌, ◌≤◌, ◌<◌, String, ◌≡◌, refl, ap, true, false, List, [], ◌∷◌, ◌++◌, arith, ◌==◌, eq_iff,
  contains, contains-append, All, inl, inr, Bool-cases, ltb, if◌then◌else◌, ==→≡,
}
use vigie.Prelude.Counting.{Distinct}
use vigie.Dsl.Types.{Dependency}
use vigie.Deps.Dag.{names, update, dep_level, Levels, assign_levels}
use vigie.Deps.Dag.Acyclic.{IsOrdered}

-- The level found for a dep is above the level of each prerequisite.
dep_level-ge : (level : String → ℕ) (acc : ℕ) (refs : List String) → acc ≤ dep_level level acc refs
unfolding dep_level
dep_level-ge level acc [] = omega arith
dep_level-ge level acc (r ∷ refs) =
    ground (arith, dep_level-ge level (if ltb acc (level r + 1) then level r + 1 else acc) refs)

dep_level-gt :
    (level : String → ℕ) (acc : ℕ) (refs : List String) (r : String)
    → contains r refs ≡ true
    → level r < dep_level level acc refs
unfolding dep_level
dep_level-gt level acc [] r m = cc
dep_level-gt level acc (q ∷ refs) r m =
    let acc' = if ltb acc (level q + 1) then level q + 1 else acc in
    let grows = dep_level-ge level acc' refs in
    elim (Bool-cases (q == r)) [
      | inl e ↦ ground (arith, grows, ap level (==→≡ q r e))
      | inr e ↦ ground (arith, dep_level-gt level acc' refs r)
    ]

-- The state after one dep.
abbrev assign_one : Levels → Dependency → Levels
assign_one s d =
    let lvl = dep_level s.level 0 d.depends_on in
    record {
      level = update s.level d.name lvl;
      max_level = if ltb s.max_level lvl then lvl else s.max_level;
    }

level-absent :
    (s : Levels) (rest : List Dependency) (x : String)
    → contains x (names rest) ≡ false
    → (assign_levels s rest).level x ≡ s.level x
unfolding assign_levels
level-absent s [] x h = refl
level-absent s (d ∷ rest) x h = ground (arith, level-absent (assign_one s d) rest x)

max_level-ge :
    (s : Levels) (rest : List Dependency) → s.max_level ≤ (assign_levels s rest).max_level
unfolding assign_levels
max_level-ge s [] = omega arith
max_level-ge s (d ∷ rest) = ground (arith, max_level-ge (assign_one s d) rest)

-- No level passes the highest, so each batch index is in range.
pub levels-le-max_level :
    (s : Levels) (rest : List Dependency)
    → Distinct (names rest)
    → All (λ d. (assign_levels s rest).level d.name ≤ (assign_levels s rest).max_level) rest
unfolding assign_levels
levels-le-max_level s [] h = tt
levels-le-max_level s (d ∷ rest) h = (
  ground (
    arith,
    level-absent (assign_one s d) rest d.name,
    max_level-ge (assign_one s d) rest,
    eq_iff d.name d.name,
  ),
  levels-le-max_level (assign_one s d) rest h.1,
)

-- A prerequisite stands on a lower level.
pub levels_rise :
    (s : Levels) (seen : List String) (rest : List Dependency)
    → Distinct (names rest)
    → IsOrdered seen rest
    → ((x : String) → contains x seen ≡ true → contains x (names rest) ≡ false)
    → All
        (λ d.
          (r : String)
          → contains r d.depends_on ≡ true
          → (assign_levels s rest).level r < (assign_levels s rest).level d.name)
        rest
unfolding assign_levels
levels_rise s seen [] h o apart = tt
levels_rise s seen (d ∷ rest) h o apart = (
  λ r m.
      let out = apart r (o.0 r m) in
      ground (
        arith,
        out,
        level-absent (assign_one s d) rest d.name,
        level-absent (assign_one s d) rest r,
        dep_level-gt s.level 0 d.depends_on r m,
        eq_iff d.name d.name,
      ),
  levels_rise (assign_one s d) (seen ++ d.name ∷ []) rest h.1 o.1
      (λ x m. ground (arith, apart x, contains-append x seen (d.name ∷ []), eq_iff d.name x, h.0)),
)
