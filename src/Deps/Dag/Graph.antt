-- ===== src/Deps/Dag/Graph.antt =====
-- internal/deps/dag.go, topoSort: the maps that it builds from the deps.
use vigie.Prelude.{
  ℕ, ◌+◌, String, ◌≡◌, refl, Bool, true, false, ◌||◌, List, [], ◌∷◌, ◌++◌, arith, ◌==◌, eq_iff,
  if◌then◌else◌, contains, count, contains-append, count-append, All, All-map,
}
use vigie.Prelude.Counting.{Distinct, Within}
use vigie.Dsl.Types.{Dependency}
use vigie.Deps.Dag.{names, update, fill, add_dependents, dependents}

fill-absent {ℓ} :
    {V : Type ℓ} (f : Dependency → V) (m : String → V) (deps : List Dependency) (x : String)
    → contains x (names deps) ≡ false
    → fill f m deps x ≡ m x
unfolding fill
fill-absent f m [] x h = refl
fill-absent f m (d ∷ deps) x h = ground (arith, fill-absent f (update m d.name (f d)) deps x)

-- With distinct names the map holds, at each dep's name, what was stored for that dep.
pub fill-at_names {ℓ} :
    {V : Type ℓ} (f : Dependency → V) (m : String → V) (deps : List Dependency)
    → Distinct (names deps)
    → All (λ d. fill f m deps d.name ≡ f d) deps
unfolding fill
fill-at_names f m [] h = tt
fill-at_names f m (d ∷ deps) h = (
  ground (arith, fill-absent f (update m d.name (f d)) deps d.name, eq_iff d.name d.name),
  fill-at_names f (update m d.name (f d)) deps h.1,
)

-- What holds of every stored value, and of the value that stood there before, holds of the map.
pub fill-all {ℓ κ} :
    {V : Type ℓ} (P : V → Type κ) (f : Dependency → V) (m : String → V) (deps : List Dependency)
    → ((d : Dependency) → P (f d))
    → ((x : String) → P (m x))
    → (x : String) → P (fill f m deps x)
unfolding fill
fill-all P f m [] pf pm x = pm x
fill-all P f m (d ∷ deps) pf pm x = fill-all P f (update m d.name (f d)) deps pf stored x
  where
    choose : (b : Bool) (y : String) → P (if b then f d else m y)
    choose true y = pf d
    choose false y = pm y

    stored : (y : String) → P (update m d.name (f d) y)
    stored y = choose (d.name == y) y

-- How often the deps named `x` list `n` among their prerequisites.
edges : String → String → List Dependency → ℕ
edges x n [] = 0
edges x n (d ∷ deps) = if d.name == x then count n d.depends_on + edges x n deps else edges x n deps

count-add_dependents :
    (name : String) (prereqs : List String) (m : String → List String) (n x : String)
    → count x (add_dependents name prereqs m n)
      ≡ count x (m n) + (if name == x then count n prereqs else 0)
unfolding add_dependents
count-add_dependents name [] m n x = ground arith
count-add_dependents name (p ∷ ps) m n x = ground (
  arith,
  count-add_dependents name ps (update m p (m p ++ name ∷ [])) n x,
  count-append x (m p) (name ∷ []),
  eq_iff p n,
)

count-dependents-edges :
    (m : String → List String) (deps : List Dependency) (n x : String)
    → count x (dependents m deps n) ≡ count x (m n) + edges x n deps
unfolding dependents edges
count-dependents-edges m [] n x = ground arith
count-dependents-edges m (d ∷ deps) n x = ground (
  arith,
  count-dependents-edges (add_dependents d.name d.depends_on m) deps n x,
  count-add_dependents d.name d.depends_on m n x,
)

edges-absent :
    (x n : String) (deps : List Dependency) → contains x (names deps) ≡ false → edges x n deps ≡ 0
unfolding edges
edges-absent x n [] h = refl
edges-absent x n (d ∷ deps) h = ground (arith, edges-absent x n deps)

edges-at_names :
    (n : String) (deps : List Dependency)
    → Distinct (names deps)
    → All (λ d. edges d.name n deps ≡ count n d.depends_on) deps
unfolding edges
edges-at_names n [] h = tt
edges-at_names n (d ∷ deps) h = (
  ground (arith, edges-absent d.name n deps, eq_iff d.name d.name),
  others deps (edges-at_names n deps h.1) h.0,
)
  where
    others :
        (rest : List Dependency)
        → All (λ e. edges e.name n deps ≡ count n e.depends_on) rest
        → contains d.name (names rest) ≡ false
        → All (λ e. edges e.name n (d ∷ deps) ≡ count n e.depends_on) rest
    others [] k ne = tt
    others (e ∷ rest) k ne =
        (ground (arith, eq_iff d.name e.name, eq_iff e.name d.name), others rest k.1 (ground arith))

-- A dep stands in the list of a prerequisite as often as it names that prerequisite.
pub count-dependents :
    (n : String) (deps : List Dependency)
    → Distinct (names deps)
    → All (λ d. count d.name (dependents (λ _. []) deps n) ≡ count n d.depends_on) deps
count-dependents n deps h =
    All-map _ _ deps (λ d e. omega (arith, count-dependents-edges (λ _. []) deps n d.name, e))
      (edges-at_names n deps h)

contains-add_dependents :
    (name : String) (prereqs : List String) (m : String → List String) (n x : String)
    → contains x (add_dependents name prereqs m n) ≡ true
    → (name == x || contains x (m n)) ≡ true
unfolding add_dependents
contains-add_dependents name [] m n x h = ground arith
contains-add_dependents name (p ∷ ps) m n x h = ground (
  arith,
  contains-add_dependents name ps (update m p (m p ++ name ∷ [])) n x,
  contains-append x (m p) (name ∷ []),
  eq_iff p n,
)

-- The dependents are names of deps.
pub dependents-Within :
    (m : String → List String) (deps : List Dependency) (keys : List String)
    → ((n : String) → Within (m n) keys)
    → Within (names deps) keys
    → (n : String) → Within (dependents m deps n) keys
unfolding dependents
dependents-Within m [] keys hm hd n = hm n
dependents-Within m (d ∷ deps) keys hm hd n =
    dependents-Within (add_dependents d.name d.depends_on m) deps keys added
      (λ x k. hd x (ground arith)) n
  where
    added : (i : String) → Within (add_dependents d.name d.depends_on m i) keys
    added i x k = ground (arith, contains-add_dependents d.name d.depends_on m i x, hm i x, hd x)
