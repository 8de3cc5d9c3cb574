-- ===== src/Deps/Engine/Samples.antt =====
-- internal/deps/engine.go: a stack of three deps that is installed and torn down.
use mathlib.Core.List.{Perm, reverse}
use vigie.Prelude.{
  String, ◌≡◌, refl, true, false, not, Option, none, some, List, [], ◌∷◌, All, ◌==◌, if◌then◌else◌,
  ◌&&◌,
}
use vigie.Dsl.Types.{Dependency}
use vigie.Deps.Dag.{zero_dependency, names}
use vigie.Deps.Dag.Acyclic.{IsOrdered}
use vigie.Deps.Dag.Samples.{in_order, in_order-IsIteration}
use vigie.Deps.Refs
use vigie.Deps.Refs.{resolve_refs}
use vigie.Deps.Exports.{
  empty_exports, get_export, set_export, entry, collect_all, get_export-set_export, collect_all_lem,
  empty_export,
}
use vigie.Deps.Engine.{Env, InstallState, done, failed, source_failed, install, teardown}
use vigie.Deps.Engine.Dismantling.{removals, removable, IsDismantling}
use vigie.Deps.Engine.Installed.{AreInstalledBy}
use vigie.Deps.Engine.Ordering.{install-IsOrdered, teardown-IsDismantling}

-- A dep that is one manifest, and exports the address of its service.
abbrev pub served : String → List String → Dependency
served name depends_on = record zero_dependency {
  name = name;
  depends_on = depends_on;
  exports = ("host", name) ∷ [];
  source = record { helm = none; manifest = "dep.yaml"; kustomize = ""; secret = none; ref = "" };
}

abbrev db : Dependency
db = served "db" []

abbrev cache : Dependency
cache = served "cache" ("db" ∷ [])

abbrev app : Dependency
app = served "app" ("db" ∷ "cache" ∷ [])

abbrev suite : List Dependency
suite = app ∷ cache ∷ db ∷ []

abbrev pub no_files : String → Option (List Dependency)
no_files path = none

-- A cluster on which everything succeeds, and one on which nothing of app can be installed.
abbrev pub healthy : Env
healthy = record {
  cache_available = false;
  is_cached = λ d. none;
  applies = λ i d. true;
  becomes_ready = λ n w. true;
  removes = λ i d. true;
}

abbrev failing : Env
failing = record healthy { applies = λ i d. not (d.name == "app") }

abbrev installed_state : InstallState
installed_state = record {
  installed = db ∷ cache ∷ app ∷ [];
  exports = collect_all (db ∷ cache ∷ app ∷ []) empty_exports;
  base_dir = "charts";
}

install-suite : (install healthy in_order no_files "charts" suite).outcome ≡ done installed_state
unfolding install
install-suite = refl

install-failing :
    (install failing in_order no_files "charts" suite).outcome ≡ failed (source_failed "app")
unfolding install
install-failing = refl

install-IsOrdered_example :
    (resolved : List Dependency) × (resolve_refs no_files suite ≡ Refs.ok resolved)
    × Perm (db ∷ cache ∷ app ∷ []) resolved
    × IsOrdered [] (db ∷ cache ∷ app ∷ [])
    × AreInstalledBy healthy
        (db ∷ cache ∷ app ∷ [])
        (install healthy in_order no_files "charts" suite).attempts
install-IsOrdered_example =
    install-IsOrdered healthy in_order in_order-IsIteration no_files "charts" suite installed_state
      install-suite

teardown-IsDismantling_example :
    (removals (teardown healthy installed_state).0
      ≡ names (removable (reverse (db ∷ cache ∷ app ∷ []))))
    × IsDismantling [] (reverse (db ∷ cache ∷ app ∷ []))
teardown-IsDismantling_example =
    teardown-IsDismantling healthy in_order in_order-IsIteration no_files "charts" suite
      installed_state install-suite

get_export-set_export_example :
    get_export (set_export empty_exports "db" "host" "db") "db" "host"
    ≡ (if "db" == "db" && "host" == "host" then some "db" else get_export empty_exports "db" "host")
get_export-set_export_example = get_export-set_export empty_exports "db" "host" "db" "db" "host"

collect_all_lem_example :
    All
      (λ d.
        (k : String)
        → get_export (collect_all (db ∷ app ∷ []) empty_exports) d.name k ≡ entry k d.exports)
      (db ∷ app ∷ [])
collect_all_lem_example =
    collect_all_lem empty_exports (db ∷ app ∷ []) (refl, (refl, tt)) ((refl, tt), ((refl, tt), tt))
      (λ name key known. empty_export name key)
