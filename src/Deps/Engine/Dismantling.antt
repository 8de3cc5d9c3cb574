-- ===== src/Deps/Engine/Dismantling.antt =====
-- internal/deps/engine.go: the removals of a teardown, and the order in which deps can be removed.
use mathlib.Core.List.{reverse, reverse-cons}
use vigie.Prelude.{
  String, ◌≡◌, refl, ap, ◌∙◌, ◌||◌, none, some, List, [], ◌∷◌, ◌++◌, arith, contains,
  contains-append,
}
use vigie.Prelude.Counting.{Within}
use vigie.Dsl.Types.{Dependency}
use vigie.Deps.Dag.{names}
use vigie.Deps.Dag.Acyclic.{IsOrdered}
use vigie.Deps.Engine.{
  Env, InstallState, teardown, teardown_all, teardown_one, choose_teardown, Action, apply, wait_for,
  store_record, remove, delete_record,
}

-- A list from which the deps are removed one after the other: each while all deps that it depends
-- on are still there, in the list behind it or in `below`.
abbrev pub IsDismantling : List String → List Dependency → Type 0
IsDismantling below [] = Unit
IsDismantling below (d ∷ ds) = Within d.depends_on (names ds ++ below) × IsDismantling below ds

contains-names-append :
    (x : String) (ds es : List Dependency)
    → contains x (names (ds ++ es)) ≡ (contains x (names ds) || contains x (names es))
contains-names-append x [] es = refl
contains-names-append x (d ∷ ds) es = ground (arith, contains-names-append x ds es)

IsDismantling-snoc :
    (below : List String) (ds : List Dependency) (d : Dependency)
    → IsDismantling (below ++ d.name ∷ []) ds
    → Within d.depends_on below
    → IsDismantling below (ds ++ d ∷ [])
IsDismantling-snoc below [] d h w = (w, tt)
IsDismantling-snoc below (c ∷ ds) d h w = (
  λ r m. ground (
    arith,
    h.0 r m,
    contains-append r (names ds) (below ++ d.name ∷ []),
    contains-append r below (d.name ∷ []),
    contains-append r (names (ds ++ d ∷ [])) below,
    contains-names-append r ds (d ∷ []),
  ),
  IsDismantling-snoc below ds d h.1 w,
)

pub IsDismantling-reverse :
    (seen : List String) (ds : List Dependency)
    → IsOrdered seen ds
    → IsDismantling seen (reverse ds)
IsDismantling-reverse seen [] o = tt
IsDismantling-reverse seen (d ∷ ds) o = rw reverse-cons (
    IsDismantling-snoc seen (reverse ds) d (IsDismantling-reverse (seen ++ d.name ∷ []) ds o.1) o.0)

-- The names in the removals of a trace.
abbrev pub removals : List Action → List String
removals [] = []
removals (remove installer name ∷ rest) = name ∷ removals rest
removals (_ ∷ rest) = removals rest

-- The deps that have something to tear down.
abbrev pub removable : List Dependency → List Dependency
removable [] = []
removable (d ∷ ds) = elim (choose_teardown d) [ none ↦ removable ds | some _ ↦ d ∷ removable ds ]

removals-append : (xs ys : List Action) → removals (xs ++ ys) ≡ removals xs ++ removals ys
removals-append [] ys = refl
removals-append (remove i n ∷ xs) ys = ap (λ l. n ∷ l) (removals-append xs ys)
removals-append (apply i n ∷ xs) ys = removals-append xs ys
removals-append (wait_for n w ∷ xs) ys = removals-append xs ys
removals-append (store_record n ∷ xs) ys = removals-append xs ys
removals-append (delete_record n ∷ xs) ys = removals-append xs ys

removals-teardown_one :
    (env : Env) (d : Dependency) (ds : List Dependency)
    → removals (teardown_one env d).0 ++ names (removable ds) ≡ names (removable (d ∷ ds))
unfolding teardown_one
removals-teardown_one env d ds = ground arith

pub removals-teardown_all :
    (env : Env) (ds : List Dependency) → removals (teardown_all env ds).0 ≡ names (removable ds)
unfolding teardown_all
removals-teardown_all env [] = refl
removals-teardown_all env (d ∷ ds) =
    removals-append (teardown_one env d).0 (teardown_all env ds).0
    ∙ rw (removals-teardown_all env ds) (removals-teardown_one env d ds)

pub removals-teardown :
    (env : Env) (s : InstallState)
    → removals (teardown env s).0 ≡ names (removable (reverse s.installed))
unfolding teardown
removals-teardown env s = removals-teardown_all env (reverse s.installed)
