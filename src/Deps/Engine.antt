-- ===== src/Deps/Engine.antt =====
-- internal/deps/engine.go: installing the batches of a suite's deps, and tearing them down.
-- What reaches the cluster is the parameter `env`: the answers of the source installers, of the
-- waiting loops and of the record cache. The goroutines of one batch each write their own slot of
-- the error slice, so a batch's result is the list of its deps' results; their interleaving is not
-- modelled, and each dep has its own trace of what it did.
pub mod Sources
pub mod Dismantling
pub mod Installed
pub mod Ordering
pub mod Failure
pub mod Samples
use vigie.Prelude.{
  String, Bool, false, not, ◌&&◌, Option, none, some, List, [], ◌∷◌, ◌++◌, ◌==◌, if◌then◌else◌,
}
use mathlib.Core.List.{reverse}
use vigie.Dsl.Types.{Dependency, WaitForSpec}
use vigie.Deps.Dag
use vigie.Deps.Dag.{Batch, DagError, build_batches}
use vigie.Deps.Refs
use vigie.Deps.Refs.{RefError, resolve_refs}
use vigie.Deps.Exports.{ExportMap, empty_exports, collect_all}

-- The installers that a source can have.
pub data Installer : Type 0 where
  helm manifest kustomize secret : Installer

-- What is done to the cluster, for one dep.
pub data Action : Type 0 where
  apply : Installer → (name : String) → Action
  wait_for : (name : String) → WaitForSpec → Action
  store_record : (name : String) → Action
  remove : Installer → (name : String) → Action
  delete_record : (name : String) → Action

pub record Env : Type 0 where
  -- NewCacheClient succeeds
  pub cache_available : Bool
  -- IsCached; `none` is an error
  pub is_cached : Dependency → Option Bool
  -- the installer of a source, the wait for one condition, the removal: `true` is success
  pub applies : Installer → Dependency → Bool
  pub becomes_ready : (name : String) → WaitForSpec → Bool
  pub removes : Installer → Dependency → Bool

pub data InstallError : Type 0 where
  resolving_refs : RefError → InstallError
  building_dag : DagError → InstallError
  unresolved_ref : (dep ref : String) → InstallError
  no_source : (dep : String) → InstallError
  source_failed : (dep : String) → InstallError
  wait_failed : (dep : String) → InstallError

-- The switch of installSource: an installer, or an error.
pub data Choice : Type 0 where
  install_with : Installer → Choice
  refuse : InstallError → Choice

unfoldable pub choose_installer : Dependency → Choice
choose_installer dep =
    let src = dep.source in
    elim src.helm [
      | some _ ↦ install_with helm
      | none ↦
          if not (src.manifest == "")
          then install_with manifest
          else if not (src.kustomize == "")
          then install_with kustomize
          else if not (src.ref == "")
          then refuse (unresolved_ref dep.name src.ref)
          else elim src.secret [ some _ ↦ install_with secret | none ↦ refuse (no_source dep.name) ]
    ]

-- The switch of teardownOne: `none` where there is nothing to tear down.
unfoldable pub choose_teardown : Dependency → Option Installer
choose_teardown dep =
    let src = dep.source in
    elim src.helm [
      | some _ ↦ some helm
      | none ↦
          if not (src.manifest == "")
          then some manifest
          else if not (src.kustomize == "")
          then some kustomize
          else elim src.secret [ some _ ↦ some secret | none ↦ none ]
    ]

-- What one dep did to the cluster, and its error if it failed.
pub record Attempt : Type 0 where
  pub actions : List Action
  pub error : Option InstallError

module _ (env : Env) where
  -- waitForConditions: the first condition that is not met ends the wait.
  unfoldable pub wait_for_conditions : String → List WaitForSpec → Attempt
  wait_for_conditions name [] = record { actions = []; error = none }
  wait_for_conditions name (spec ∷ specs) =
      let rest = wait_for_conditions name specs in
      if env.becomes_ready name spec
      then record { actions = wait_for name spec ∷ rest.actions; error = rest.error }
      else record { actions = wait_for name spec ∷ []; error = some (wait_failed name) }

  -- The cache is asked for cluster-scoped deps only, and an error of it counts as a miss.
  abbrev pub uses_cache : Dependency → Bool
  uses_cache dep = dep.scope == "cluster" && env.cache_available

  abbrev pub cache_hit : Dependency → Bool
  cache_hit dep = uses_cache dep && elim (env.is_cached dep) [ some hit ↦ hit | none ↦ false ]

  -- What follows a successful installSource: the wait, and the cache record (its error is logged).
  unfoldable pub after_apply : Installer → Dependency → Attempt
  unfolding wait_for_conditions
  after_apply installer dep =
      let waited = wait_for_conditions dep.name dep.wait_for in
      elim waited.error [
        | some e ↦ record { actions = apply installer dep.name ∷ waited.actions; error = some e }
        | none ↦ record {
          actions =
              apply installer dep.name
              ∷ (waited.actions ++ (if uses_cache dep then store_record dep.name ∷ [] else []));
          error = none;
        }
      ]

  -- installSource and what follows it, for the choice that the source made.
  unfoldable pub run_choice : Dependency → Choice → Attempt
  unfolding after_apply
  run_choice dep (refuse e) = record { actions = []; error = some e }
  run_choice dep (install_with installer) =
      if env.applies installer dep
      then after_apply installer dep
      else record { actions = apply installer dep.name ∷ []; error = some (source_failed dep.name) }

  unfoldable pub install_one : Dependency → Attempt
  unfolding choose_installer run_choice
  install_one dep =
      if cache_hit dep
      then record { actions = []; error = none }
      else run_choice dep (choose_installer dep)

  -- The error slice is aligned with the batch.
  unfoldable pub install_batch : Batch → List Attempt
  unfolding install_one
  install_batch [] = []
  install_batch (dep ∷ deps) = install_one dep ∷ install_batch deps

-- The first error of the slice, by index.
unfoldable pub first_error : List Attempt → Option InstallError
first_error [] = none
first_error (a ∷ rest) = elim a.error [ some e ↦ some e | none ↦ first_error rest ]

pub record InstallState : Type 0 where
  pub installed : List Dependency
  pub exports : ExportMap
  pub base_dir : String

-- What Install returns: a state, or an error and no state.
pub data Outcome : Type 0 where
  done : InstallState → Outcome
  failed : InstallError → Outcome

-- The attempts that were made, and what was returned.
pub record Run : Type 0 where
  pub attempts : List Attempt
  pub outcome : Outcome

-- The loop over the batches.
unfoldable pub install_batches : Env → InstallState → List Batch → Run
unfolding install_batch first_error collect_all
install_batches env s [] = record { attempts = []; outcome = done s }
install_batches env s (batch ∷ batches) =
    let made = install_batch env batch in
    let s' : InstallState = record {
      installed = s.installed ++ batch;
      exports = collect_all batch s.exports;
      base_dir = s.base_dir;
    } in
    let rest = install_batches env s' batches in
    elim (first_error made) [
      | some e ↦ record { attempts = made; outcome = failed e }
      | none ↦ record { attempts = made ++ rest.attempts; outcome = rest.outcome }
    ]

module _ (env : Env) (range : List String → List String) (load : String → Option (List Dependency))
    (base_dir : String) where
  abbrev pub nothing_installed : InstallState
  nothing_installed = record { installed = []; exports = empty_exports; base_dir = base_dir }

  unfoldable pub install_planned : Dag.Result (List Batch) → Run
  unfolding install_batches
  install_planned (Dag.err e) = record { attempts = []; outcome = failed (building_dag e) }
  install_planned (Dag.ok batches) = install_batches env nothing_installed batches

  unfoldable pub install_resolved : Refs.Result (List Dependency) → Run
  unfolding install_planned build_batches
  install_resolved (Refs.err e) = record { attempts = []; outcome = failed (resolving_refs e) }
  install_resolved (Refs.ok resolved) = install_planned (build_batches range resolved)

  unfoldable pub install : List Dependency → Run
  unfolding install_resolved resolve_refs
  install [] = record { attempts = []; outcome = done nothing_installed }
  install (dep ∷ deps) = install_resolved (resolve_refs load (dep ∷ deps))

-- One round of Teardown: the removal, its error with the dep's name, and the cache record.
unfoldable pub teardown_one : Env → Dependency → List Action × List String
unfolding choose_teardown
teardown_one env dep =
    let forget = if env.cache_available then delete_record dep.name ∷ [] else [] in
    elim (choose_teardown dep) [
      | none ↦ (forget, [])
      | some installer ↦ (
        remove installer dep.name ∷ forget,
        if env.removes installer dep then [] else dep.name ∷ [],
      )
    ]

-- The loop of Teardown: an error does not end it.
unfoldable pub teardown_all : Env → List Dependency → List Action × List String
unfolding teardown_one
teardown_all env [] = ([], [])
teardown_all env (dep ∷ deps) =
    let (actions, errors) = teardown_one env dep in
    let (later, more) = teardown_all env deps in (actions ++ later, errors ++ more)

unfoldable pub teardown : Env → InstallState → List Action × List String
unfolding teardown_all
teardown env state = teardown_all env (reverse state.installed)
