-- ===== src/Deps/Dag.antt =====
-- internal/deps/dag.go: the `dependsOn` graph, its topological order and its parallel batches.
-- A Go map is a function from its keys, with the zero value where nothing was stored; where the
-- program iterates over a map, `range` is the order in which the run meets the keys.
pub mod Release
pub mod Graph
pub mod Loop
pub mod Order
pub mod Sorted
pub mod Acyclic
pub mod Cycles
pub mod Staging
pub mod Grouping
pub mod Batches
pub mod Plan
pub mod Samples
use vigie.Prelude.{
  ◌≡◌, ◌≢◌, refl, ℕ, zero, suc, ◌+◌, String, Bool, true, false, not, ◌&&◌, Option, none, some, List,
  [], ◌∷◌, ◌++◌, map, ◌==◌, ltb, eqb, if◌then◌else◌, length, contains, max,
}
use vigie.Prelude.Int.{ℤ, pos, decrement, is_zero}
use vigie.Value.{end}
use vigie.Dsl.Types.{Dependency}

abbrev pub Batch : Type 0
Batch = List Dependency

-- The zero value, which a Go map of deps gives for a missing key.
abbrev pub zero_dependency : Dependency
zero_dependency = record {
  name = "";
  namespace = "";
  source = record { helm = none; manifest = ""; kustomize = ""; secret = none; ref = "" };
  values = end;
  wait_for = [];
  exports = [];
  scope = "";
  depends_on = [];
  on_fail = "";
}

-- The errors of this file, with what their messages print.
pub data DagError : Type 0 where
  unknown_dep : (dep ref : String) → DagError
  cycle_detected : (cyclic : List String) → DagError
  -- no error of the program: the fuel of the loop ran out
  out_of_fuel : DagError

pub data Result {ℓ} (A : Type ℓ) : Type ℓ where
  ok : A → Result A
  err : DagError → Result A

module _ {ℓ κ} {A : Type ℓ} {B : Type κ} where
  infixl 5 ◌>>=◌
  abbrev pub ◌>>=◌ : Result A → (A → Result B) → Result B
  ok value >>= next = next value
  err problem >>= next = err problem

  -- A chain that succeeded went through both parts; one fails with an error of one of them.
  pub >>=-eq-ok :
      (first : Result A) (next : A → Result B) {out : B}
      → (first >>= next) ≡ ok out
      → (value : A) × (first ≡ ok value) × (next value ≡ ok out)
  >>=-eq-ok (err problem) next done = cc
  >>=-eq-ok (ok value) next done = (value, refl, done)

  pub >>=-ne-err :
      (first : Result A) (next : A → Result B) {problem : DagError}
      → first ≢ err problem
      → ((value : A) → next value ≢ err problem)
      → (first >>= next) ≢ err problem
  >>=-ne-err (err other) next hm hf = λ h. hm (cc h)
  >>=-ne-err (ok value) next hm hf = hf value

infixl 5 ◌>>◌
abbrev pub ◌>>◌ {ℓ} : {B : Type ℓ} → Result (Unit {0}) → Result B → Result B
m >> k = m >>= λ _. k

-- m[k] = v, for a map that is read with its zero value for a missing key.
abbrev pub update {ℓ} : {V : Type ℓ} → (String → V) → String → V → String → V
update m k v j = if k == j then v else m j

abbrev pub names : List Dependency → List String
names deps = map (λ d. d.name) deps

-- The inner loop of validateNames: the first reference that is no key of `known`.
unfoldable pub first_unknown : List String → List String → Option String
first_unknown known [] = none
first_unknown known (ref ∷ refs) = if contains ref known then first_unknown known refs else some ref

unfoldable pub validate_refs : List String → List Dependency → Result (Unit {0})
unfolding first_unknown
validate_refs known [] = ok tt
validate_refs known (dep ∷ deps) = elim (first_unknown known dep.depends_on) [
  | none ↦ validate_refs known deps
  | some ref ↦ err (unknown_dep dep.name ref)
]

unfoldable pub validate_names : List Dependency → Result (Unit {0})
unfolding validate_refs
validate_names deps = validate_refs (names deps) deps

-- for _, dep := range deps { m[dep.Name] = f(dep) }: of two deps with one name the later counts.
unfoldable pub fill {ℓ} :
    {V : Type ℓ} → (Dependency → V) → (String → V) → List Dependency → String → V
fill f m [] = m
fill f m (dep ∷ deps) = fill f (update m dep.name (f dep)) deps

-- inDegree[dep.Name] = len(dep.DependsOn)
abbrev pub in_degrees : List Dependency → String → ℤ
in_degrees = fill (λ dep. pos (length dep.depends_on)) (λ _. pos 0)

-- byName[dep.Name] = dep
abbrev pub by_name : List Dependency → String → Dependency
by_name = fill (λ dep. dep) (λ _. zero_dependency)

-- dependents[prereq] = append(dependents[prereq], dep.Name), for each prereq of one dep.
unfoldable pub add_dependents : String → List String → (String → List String) → String → List String
add_dependents name [] m = m
add_dependents name (prereq ∷ rest) m =
    add_dependents name rest (update m prereq (m prereq ++ name ∷ []))

unfoldable pub dependents : (String → List String) → List Dependency → String → List String
unfolding add_dependents
dependents m [] = m
dependents m (dep ∷ deps) = dependents (add_dependents dep.name dep.depends_on m) deps

-- The keys of a map that was filled from `xs`, each once.
unfoldable pub distinct_keys : List String → List String
distinct_keys [] = []
distinct_keys (x ∷ xs) = let rest = distinct_keys xs in if contains x rest then rest else x ∷ rest

-- The loop that collects the roots.
unfoldable pub roots : (String → ℤ) → List String → List String
unfolding is_zero
roots degree [] = []
roots degree (name ∷ rest) =
    if is_zero (degree name) then name ∷ roots degree rest else roots degree rest

-- What the loop of topoSort changes; `result` holds the names whose deps were appended.
pub record Sorting : Type 0 where
  pub in_degree : String → ℤ
  pub queue : List String
  pub result : List String

-- One dependent of the name that was taken from the queue.
unfoldable pub release_one : Sorting → String → Sorting
unfolding decrement is_zero
release_one s dependent =
    let left = decrement (s.in_degree dependent) in
    record s {
      in_degree = update s.in_degree dependent left;
      queue = if is_zero left then s.queue ++ dependent ∷ [] else s.queue;
    }

unfoldable pub release : Sorting → List String → Sorting
unfolding release_one
release s [] = s
release s (dependent ∷ rest) = release (release_one s dependent) rest

-- The body of the loop: `name` is the head of the queue, and `rest` the queue behind it.
unfoldable pub visit : (String → List String) → Sorting → String → List String → Sorting
unfolding release
visit after s name rest =
    release (record s { queue = rest; result = s.result ++ name ∷ [] }) (after name)

-- `for len(queue) > 0`, with fuel; `none` means that the fuel ran out.
unfoldable pub drain : ℕ → (String → List String) → Sorting → List String → Option Sorting
unfolding visit
drain fuel after s [] = some s
drain zero after s (name ∷ rest) = none
drain (suc fuel) after s (name ∷ rest) =
    let s' = visit after s name rest in drain fuel after s' s'.queue

-- buildCycleError: the names of `all` that are not among the installed ones, in order.
unfoldable pub cyclic_names : List String → List Dependency → List String
cyclic_names installed [] = []
cyclic_names installed (dep ∷ all) =
    let rest = cyclic_names installed all in
    if contains dep.name installed then rest else dep.name ∷ rest

abbrev pub build_cycle_error : List Dependency → List Dependency → DagError
build_cycle_error all installed = cycle_detected (cyclic_names (names installed) all)

-- The state before the loop of topoSort.
unfoldable pub start : (List String → List String) → List Dependency → Sorting
unfolding fill distinct_keys roots
start range deps = record {
  in_degree = in_degrees deps;
  queue = roots (in_degrees deps) (range (distinct_keys (names deps)));
  result = [];
}

-- What follows the loop.
unfoldable pub check_sorted : List Dependency → List Dependency → Result (List Dependency)
unfolding cyclic_names
check_sorted deps sorted =
    if eqb (length sorted) (length deps) then ok sorted else err (build_cycle_error deps sorted)

-- Each round takes a name from the queue, and no name comes twice: one round for each dep.
unfoldable pub topo_sort : (List String → List String) → List Dependency → Result (List Dependency)
unfolding start dependents drain check_sorted
topo_sort range deps =
    let s = start range deps in
    elim (drain (length deps) (dependents (λ _. []) deps) s s.queue) [
      | none ↦ err out_of_fuel
      | some s' ↦ check_sorted deps (map (by_name deps) s'.result)
    ]

-- The loop over the prereqs of one dep in buildLevelBatches.
unfoldable pub dep_level : (String → ℕ) → ℕ → List String → ℕ
dep_level level acc [] = acc
dep_level level acc (prereq ∷ rest) =
    dep_level level (if ltb acc (level prereq + 1) then level prereq + 1 else acc) rest

pub record Levels : Type 0 where
  pub level : String → ℕ
  pub max_level : ℕ

unfoldable pub assign_levels : Levels → List Dependency → Levels
unfolding dep_level
assign_levels s [] = s
assign_levels s (dep ∷ rest) =
    let lvl = dep_level s.level 0 dep.depends_on in
    assign_levels
      (record {
        level = update s.level dep.name lvl;
        max_level = if ltb s.max_level lvl then lvl else s.max_level;
      })
      rest

-- batches[lvl] = append(batches[lvl], dep). The index is in range: `levels-le-max_level`.
unfoldable pub append_at : ℕ → Dependency → List Batch → List Batch
append_at lvl dep [] = []
append_at zero dep (batch ∷ rest) = (batch ++ dep ∷ []) ∷ rest
append_at (suc lvl) dep (batch ∷ rest) = batch ∷ append_at lvl dep rest

unfoldable pub group : (String → ℕ) → List Batch → List Dependency → List Batch
unfolding append_at
group level batches [] = batches
group level batches (dep ∷ rest) = group level (append_at (level dep.name) dep batches) rest

unfoldable pub empty_batches : ℕ → List Batch
empty_batches zero = []
empty_batches (suc n) = [] ∷ empty_batches n

unfoldable pub build_level_batches : List Dependency → List Batch
unfolding assign_levels group empty_batches
build_level_batches sorted =
    let s = assign_levels (record { level = λ _. 0; max_level = 0 }) sorted in
    group s.level (empty_batches (s.max_level + 1)) sorted

unfoldable pub build_batches : (List String → List String) → List Dependency → Result (List Batch)
unfolding validate_names topo_sort build_level_batches
build_batches range [] = ok []
build_batches range (dep ∷ rest) = do
  validate_names (dep ∷ rest)
  sorted ← topo_sort range (dep ∷ rest)
  ok (build_level_batches sorted)
