-- ===== src/Runner/OneFile.antt =====
-- internal/runner/apply.go: runFile, with what it defers.
pub mod Released
use vigie.Prelude.{
  String, Bool, true, false, Option, none, some, List, [], ◌∷◌, ◌++◌, if◌then◌else◌,
}
use vigie.Dsl.Types.{Dependency}
use vigie.Dsl.Suite.{Suite}
use vigie.Deps.Engine.{InstallError, InstallState, Attempt, Outcome, done, failed, install}
use vigie.Deps.Exports.{ExportMap}
use vigie.Runner.Gate
use vigie.Runner.Gate.{Reason, Skip, run, skip, matcher_tier_skip, integration_feature_skip}
use vigie.Runner.Hooks.{before_all, after_all, HookEnv, HookError, run_hooks}
use vigie.Runner.Apply.{
  Event, deps_installed, deps_refused, cluster_deps_installed, ran_hooks, TestResult, Ended,
  finished, panicked, ExpandedTest, World, split_deps_by_scope, skipping, gated,
}
use vigie.Runner.OneTest.{remove_deps, is_none, run_test}

pub data FileError : Type 0 where
  -- parsing the suite, expanding its tests, loading the chart
  load_failed : (text : String) → FileError
  cluster_deps_failed : InstallError → FileError
  suite_deps_failed : InstallError → FileError
  before_all_failed : HookError → FileError

-- How runFile ends: with the names and the results of its tests, with an error, or in a panic.
pub data FileEnd : Type 0 where
  results : List (String × TestResult) → FileEnd
  error : FileError → FileEnd
  crashed : FileEnd

-- What dsl.ParseFile, MergeInputs, expandTests and loader.Load give.
pub data Loaded : Type 0 where
  not_loaded : (text : String) → Loaded
  loaded : Suite → List ExpandedTest → Loaded

-- The --match expression: none runs all.
abbrev pub is_matched : Option (String → Bool) → ExpandedTest → Bool
is_matched none et = true
is_matched (some matches) et = matches et.display_name

abbrev pub add_result : String × TestResult → FileEnd → FileEnd
add_result r (results rs) = results (r ∷ rs)
add_result r e = e

-- The tests of a suite that the tier cannot run.
unfoldable pub skip_all :
    Option (String → Bool) → Reason → List ExpandedTest → List (String × TestResult)
skip_all matching reason [] = []
skip_all matching reason (et ∷ rest) =
    let later = skip_all matching reason rest in
    if is_matched matching et then (et.display_name, skipping (gated reason)) ∷ later else later

module _ (w : World) (keep : Bool) (tier : String) (matching : Option (String → Bool)) where
  -- A test that ran, and the tests after it: a panic ends the loop.
  abbrev pub after_test :
      String → List Event × Ended → (next : List Event × FileEnd) → List Event × FileEnd
  after_test name (events, panicked) next = (events, crashed)
  after_test name (events, finished result) next =
      (events ++ next.0, add_result (name, result) next.1)

  abbrev pub gated_test :
      ExpandedTest
      → Suite
      → (suite_exports : ExportMap) → (test_deps : List Dependency) → (base_dir : String) → Skip
      → (next : List Event × FileEnd) → List Event × FileEnd
  unfolding run_test
  gated_test et suite exports test_deps base_dir run next =
      after_test et.display_name (run_test w keep et suite exports test_deps base_dir) next
  gated_test et suite exports test_deps base_dir (skip reason) next =
      (next.0, add_result (et.display_name, skipping (gated reason)) next.1)
  gated_test et suite exports test_deps base_dir (Gate.panic name) next = ([], crashed)

  -- The loop over the tests.
  unfoldable pub run_tests :
      Suite
      → (suite_exports : ExportMap) → (test_deps : List Dependency) → (base_dir : String)
      → List ExpandedTest
      → List Event × FileEnd
  unfolding gated_test matcher_tier_skip
  run_tests suite exports test_deps base_dir [] = ([], results [])
  run_tests suite exports test_deps base_dir (et ∷ rest) =
      let next = run_tests suite exports test_deps base_dir rest in
      if is_matched matching et
      then gated_test et suite exports test_deps base_dir (matcher_tier_skip et.test.asserts tier)
          next
      else next

  -- The deferred afterAll hooks: an error of theirs is logged.
  abbrev pub with_before_all :
      Suite
      → HookEnv
      → List ExpandedTest
      → (suite_exports : ExportMap) → (test_deps : List Dependency) → (base_dir : String)
      → Option HookError
      → List Event × FileEnd
  unfolding run_tests run_hooks
  with_before_all suite env expanded exports test_deps base_dir (some e) =
      (ran_hooks before_all false ∷ [], error (before_all_failed e))
  with_before_all suite env expanded exports test_deps base_dir none =
      let inner = run_tests suite exports test_deps base_dir expanded in
      let ok = is_none w keep (run_hooks w.shell after_all suite.after_all env) in
      (ran_hooks before_all true ∷ (inner.0 ++ ran_hooks after_all ok ∷ []), inner.1)

  abbrev pub suite_env : Suite → HookEnv
  suite_env suite = record {
    kubeconfig = w.kubeconfig;
    suite = suite.suite_name;
    test = "";
    namespace = "";
  }

  abbrev pub with_suite_deps :
      Suite
      → List ExpandedTest
      → (test_deps : List Dependency) → (base_dir : String) → List Attempt
      → Outcome
      → List Event × FileEnd
  unfolding with_before_all run_hooks
  with_suite_deps suite expanded test_deps base_dir made (failed e) =
      (deps_refused made ∷ [], error (suite_deps_failed e))
  with_suite_deps suite expanded test_deps base_dir made (done state) =
      let env = suite_env suite in
      let inner =
        with_before_all suite env expanded state.exports test_deps base_dir
          (run_hooks w.shell before_all suite.before_all env) in
      (deps_installed made state ∷ (inner.0 ++ remove_deps w keep state), inner.1)

  -- The deps of the scope cluster stay for the files that come after.
  abbrev pub with_cluster_deps :
      Suite
      → List ExpandedTest
      → (suite_deps test_deps : List Dependency) → (base_dir : String) → List Attempt
      → Outcome
      → List Event × FileEnd
  unfolding with_suite_deps
  with_cluster_deps suite expanded suite_deps test_deps base_dir made (failed e) =
      (deps_refused made ∷ [], error (cluster_deps_failed e))
  with_cluster_deps suite expanded suite_deps test_deps base_dir made (done state) =
      let installed = install w.deps w.range w.load base_dir suite_deps in
      let inner =
        with_suite_deps suite expanded test_deps base_dir installed.attempts installed.outcome in
      (cluster_deps_installed made ∷ inner.0, inner.1)

  abbrev pub run_suite :
      Suite → List ExpandedTest → (base_dir : String) → Option Reason → List Event × FileEnd
  unfolding skip_all split_deps_by_scope with_cluster_deps
  run_suite suite expanded base_dir (some reason) =
      ([], results (skip_all matching reason expanded))
  run_suite suite expanded base_dir none =
      let (cluster_deps, suite_deps, test_deps) = split_deps_by_scope suite.dependencies in
      let installed = install w.deps w.range w.load base_dir cluster_deps in
      with_cluster_deps suite expanded suite_deps test_deps base_dir installed.attempts
        installed.outcome

  unfoldable pub run_file : Loaded → (base_dir : String) → List Event × FileEnd
  unfolding run_suite integration_feature_skip
  run_file (not_loaded text) base_dir = ([], error (load_failed text))
  run_file (loaded suite expanded) base_dir =
      run_suite suite expanded base_dir (integration_feature_skip suite tier)
