-- ===== src/Deps/Dag/Samples.antt =====
-- internal/deps/dag.go: small dependency graphs, and what the program does on them.
use mathlib.Core.List.{Perm, flatten}
use vigie.Prelude.{
  Bool-cases, ==→≡, inl, inr, ℕ, String, ◌≡◌, ◌≢◌, refl, List, [], ◌∷◌, arith, if◌then◌else◌, ◌==◌,
}
use vigie.Prelude.Counting.{Distinct}
use vigie.Dsl.Types.{Dependency}
use vigie.Deps.Dag.{
  zero_dependency, names, Batch, ok, err, DagError, unknown_dep, cycle_detected, out_of_fuel,
  topo_sort, build_batches, validate_names,
}
use vigie.Deps.Dag.Loop.{IsIteration}
use vigie.Deps.Dag.Acyclic.{Known, IsRanked}
use vigie.Deps.Dag.Cycles.{IsStuck, topo_sort-IsStuck, topo_sort-Distinct}
use vigie.Deps.Dag.Grouping.{IsStaged}
use vigie.Deps.Dag.Plan.{
  validate_names-Known, build_batches_lem, build_batches-acyclic, build_batches-ne-out_of_fuel,
}

abbrev pub dep : String → List String → Dependency
dep name depends_on = record zero_dependency { name = name; depends_on = depends_on }

-- app needs db and cache, and cache needs db.
abbrev pub stack : List Dependency
stack = dep "app" ("db" ∷ "cache" ∷ []) ∷ dep "cache" ("db" ∷ []) ∷ dep "db" [] ∷ []

abbrev pub stages : List Batch
stages =
    (dep "db" [] ∷ [])
    ∷ (dep "cache" ("db" ∷ []) ∷ [])
    ∷ (dep "app" ("db" ∷ "cache" ∷ []) ∷ [])
    ∷ []

abbrev pub loop : List Dependency
loop = dep "a" ("b" ∷ []) ∷ dep "b" ("a" ∷ []) ∷ dep "c" [] ∷ []

-- An iteration that meets the keys in the order in which they were stored.
abbrev pub in_order : List String → List String
in_order keys = keys

pub in_order-IsIteration : IsIteration in_order
in_order-IsIteration = record { same = λ x keys. refl; once = λ keys d. d }

abbrev sorted_stack : List Dependency
sorted_stack = dep "db" [] ∷ dep "cache" ("db" ∷ []) ∷ dep "app" ("db" ∷ "cache" ∷ []) ∷ []

topo_sort-stack : topo_sort in_order stack ≡ ok sorted_stack
unfolding topo_sort
topo_sort-stack = refl

pub build_batches-stack : build_batches in_order stack ≡ ok stages
unfolding build_batches
build_batches-stack = refl

topo_sort-loop : topo_sort in_order loop ≡ err (cycle_detected ("a" ∷ "b" ∷ []))
unfolding topo_sort
topo_sort-loop = refl

-- Two deps with one name: the message names no dep.
build_batches_twice :
    build_batches in_order (dep "a" [] ∷ dep "a" [] ∷ []) ≡ err (cycle_detected [])
unfolding build_batches
build_batches_twice = refl

validate_names_unknown : validate_names (dep "a" ("z" ∷ []) ∷ []) ≡ err (unknown_dep "a" "z")
unfolding validate_names
validate_names_unknown = refl

build_batches_lem_example : Perm (flatten stages) stack × IsStaged [] stages
build_batches_lem_example =
    build_batches_lem in_order in_order-IsIteration stack stages build_batches-stack

topo_sort-Distinct_example : Distinct (names sorted_stack)
topo_sort-Distinct_example =
    topo_sort-Distinct in_order in_order-IsIteration stack sorted_stack topo_sort-stack

build_batches-ne-out_of_fuel_example : build_batches in_order loop ≢ err out_of_fuel
build_batches-ne-out_of_fuel_example =
    build_batches-ne-out_of_fuel in_order in_order-IsIteration loop

validate_names-stack : validate_names stack ≡ ok tt
unfolding validate_names
validate_names-stack = refl

validate_names-loop : validate_names loop ≡ ok tt
unfolding validate_names
validate_names-loop = refl

stack-Known : Known stack
stack-Known = (validate_names-Known stack).0 validate_names-stack

loop-Known : Known loop
loop-Known = (validate_names-Known loop).0 validate_names-loop

abbrev depth : String → ℕ
depth name = if name == "app" then 2 else if name == "cache" then 1 else 0

stack-IsRanked : IsRanked depth stack
stack-IsRanked = (
  λ r m. elim (Bool-cases ("db" == r)) [
    | inl e ↦ rw (← ==→≡ "db" r e) (omega arith)
    | inr e ↦ rw (← ==→≡ "cache" r (ground arith)) (omega arith)
  ],
  (λ r m. rw (← ==→≡ "db" r (ground arith)) (omega arith), (λ r m. cc, tt)),
)

build_batches-acyclic_example : (batches : List Batch) × (build_batches in_order stack ≡ ok batches)
build_batches-acyclic_example =
    build_batches-acyclic in_order in_order-IsIteration depth stack (refl, (refl, (refl, tt)))
      stack-Known stack-IsRanked

topo_sort-IsStuck_example :
    (cyclic : List String) × (◌≡◌ {A = DagError}
      (cycle_detected ("a" ∷ "b" ∷ []))
      (cycle_detected cyclic))
    × (cyclic ≢ [])
    × IsStuck loop cyclic
topo_sort-IsStuck_example =
    topo_sort-IsStuck in_order in_order-IsIteration loop (cycle_detected ("a" ∷ "b" ∷ []))
      (refl, (refl, (refl, tt))) loop-Known topo_sort-loop
