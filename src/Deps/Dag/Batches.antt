-- ===== src/Deps/Dag/Batches.antt =====
-- internal/deps/dag.go, buildLevelBatches and BuildBatches: what the batches hold, and in which order
-- they can be installed.
use mathlib.Core.List.{Perm, flatten, map-append}
use mathlib.Core.List.Perm
use vigie.Prelude.{
  ℕ, zero, suc, ◌+◌, ◌<◌, String, ◌≡◌, refl, sym, ap, ◌∙◌, List, [], ◌∷◌, ◌++◌, arith, length,
  contains-append, All, All-zip, All-map, append_assoc,
}
use vigie.Prelude.Counting.{Distinct, Within, contains-perm}
use vigie.Dsl.Types.{Dependency}
use vigie.Deps.Dag.{names, Batch, Levels, assign_levels, empty_batches, build_level_batches}
use vigie.Deps.Dag.Acyclic.{IsOrdered}
use vigie.Deps.Dag.Staging.{levels-le-max_level, levels_rise}
use vigie.Deps.Dag.Grouping.{
  batch_names, IsStaged, AllBatches, Rises, group-perm, group-AllBatches, group-AtLevels,
  AtLevels-empty, staged,
}

batch_names-eq : (bs : List Batch) → batch_names bs ≡ names (flatten bs)
unfolding batch_names flatten
batch_names-eq [] = refl
batch_names-eq (b ∷ bs) =
    ap (λ l. names b ++ l) (batch_names-eq bs)
    ∙ sym (map-append (λ (d : Dependency). d.name) b (flatten bs))

length-empty_batches : (n : ℕ) → length (empty_batches n) ≡ n
unfolding empty_batches
length-empty_batches zero = refl
length-empty_batches (suc n) = ap suc (length-empty_batches n)

flatten-empty_batches : (n : ℕ) → flatten (empty_batches n) ≡ []
unfolding empty_batches flatten
flatten-empty_batches zero = refl
flatten-empty_batches (suc n) = flatten-empty_batches n

AllBatches-empty : (P : Dependency → Type 0) (n : ℕ) → AllBatches P (empty_batches n)
unfolding empty_batches
AllBatches-empty P zero = tt
AllBatches-empty P (suc n) = (tt, AllBatches-empty P n)

-- In a list that is in order, each prerequisite is a name of the list or was seen before.
known_of_IsOrdered :
    (seen : List String) (rest : List Dependency)
    → IsOrdered seen rest
    → All (λ d. Within d.depends_on (seen ++ names rest)) rest
known_of_IsOrdered seen [] o = tt
known_of_IsOrdered seen (d ∷ rest) o = (
  λ r m. ground (arith, o.0 r m, contains-append r seen (d.name ∷ names rest)),
  rw append_assoc at (known_of_IsOrdered (seen ++ d.name ∷ []) rest o.1),
)

abbrev unassigned : Levels
unassigned = record { level = λ _. 0; max_level = 0 }

module _ (sorted : List Dependency) (distinct : Distinct (names sorted)) where
  abbrev levels : Levels
  levels = assign_levels unassigned sorted

  -- The batches hold the sorted deps, each once.
  pub build_level_batches-perm : Perm (flatten (build_level_batches sorted)) sorted
  unfolding build_level_batches
  build_level_batches-perm =
      let count = levels.max_level + 1 in
      let in_range : All (λ d. levels.level d.name < length (empty_batches count)) sorted =
        rw length-empty_batches (
          All-map _ _ sorted (λ d h. omega arith)
            (levels-le-max_level unassigned sorted distinct)) in
      rw flatten-empty_batches at (group-perm levels.level (empty_batches count) sorted in_range)

  -- Sorted deps fall into batches whose prerequisites stand in earlier batches.
  pub build_level_batches-IsStaged : IsOrdered [] sorted → IsStaged [] (build_level_batches sorted)
  build_level_batches-IsStaged ordered =
      let count = levels.max_level + 1 in
      staged levels.level 0 (names sorted) [] (build_level_batches sorted)
        (unfold build_level_batches in
          group-AtLevels levels.level (empty_batches count) sorted
            (AtLevels-empty levels.level 0 count))
        (unfold build_level_batches in
          group-AllBatches levels.level (Rises levels.level (names sorted)) (empty_batches count)
            sorted
            (All-zip _ _ _ sorted (λ d up known r m. (up r m, known r m))
              (levels_rise unassigned [] sorted distinct ordered (λ x m. cc))
              (known_of_IsOrdered [] sorted ordered))
            (AllBatches-empty _ count))
        (λ r m.
          rw
            (
              batch_names-eq,
              contains-perm r (Perm.map (λ (d : Dependency). d.name) build_level_batches-perm),
            )
            m)
