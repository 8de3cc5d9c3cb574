-- ===== src/Deps/Refs/Samples.antt =====
-- internal/deps/source_ref.go: a file that is reached by a ref, and one that refers to itself.
use vigie.Prelude.{
  String, ◌≡◌, refl, inl, Bool, Option, none, some, List, [], ◌∷◌, ◌==◌, if◌then◌else◌, ==→≡,
}
use vigie.Dsl.Types.{Dependency}
use vigie.Deps.Dag.{zero_dependency}
use vigie.Deps.Dag.Samples.{dep}
use vigie.Deps.Refs.{ok, resolve_refs}
use vigie.Deps.Refs.Resolved.{HasNoRef, IsEndless, resolve_refs-HasNoRef, resolve_refs_unchanged}
use vigie.Deps.Refs.Nesting.{IsNested}
use vigie.Prelude.{All}

abbrev ref_to : String → String → Dependency
ref_to name ref = record zero_dependency {
  name = name;
  source = record { helm = none; manifest = ""; kustomize = ""; secret = none; ref = ref };
}

-- shared.yaml has one dep, and loop.yaml refers to itself.
abbrev files : String → Option (List Dependency)
files path =
    if path == "shared.yaml"
    then some (dep "db" [] ∷ [])
    else if path == "loop.yaml"
    then some (ref_to "again" "loop.yaml" ∷ [])
    else none

abbrev suite : List Dependency
suite = ref_to "shared" "shared.yaml" ∷ dep "app" ("db" ∷ []) ∷ []

resolve_refs-suite : resolve_refs files suite ≡ ok (dep "db" [] ∷ dep "app" ("db" ∷ []) ∷ [])
unfolding resolve_refs
resolve_refs-suite = refl

resolve_refs-HasNoRef_example : All HasNoRef (dep "db" [] ∷ dep "app" ("db" ∷ []) ∷ [])
resolve_refs-HasNoRef_example = resolve_refs-HasNoRef files suite _ resolve_refs-suite

resolve_refs_unchanged_example : resolve_refs files (dep "a" [] ∷ []) ≡ ok (dep "a" [] ∷ [])
resolve_refs_unchanged_example = resolve_refs_unchanged files (dep "a" [] ∷ []) (refl, tt)

abbrev is_loop : String → Bool
is_loop ref = ref == "loop.yaml"

is_loop-IsEndless : IsEndless files is_loop
is_loop-IsEndless ref h = rw (==→≡ ref "loop.yaml" h) (ref_to "again" "loop.yaml" ∷ [], refl, refl)

abbrev is_shared : String → Bool
is_shared ref = ref == "shared.yaml"

is_shared-IsNested : IsNested files is_shared (λ _. 0)
is_shared-IsNested ref h = rw (==→≡ ref "shared.yaml" h) (dep "db" [] ∷ [], refl, (inl refl, tt))
