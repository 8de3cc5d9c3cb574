-- ===== src/Runner/OneTest.antt =====
-- internal/runner/apply.go: runTest, with what it defers.
pub mod Nested
use vigie.Prelude.{
  String, ℕ, zero, suc, Bool, true, false, ◌||◌, not, Option, none, some, List, [], ◌∷◌, ◌++◌, map,
  ◌==◌, if◌then◌else◌,
}
use vigie.Value.{Value, null, bool, str, Fields}
use vigie.Dsl.Types.{ShellCommand, Dependency}
use vigie.Dsl.Assertion.{
  Assertion, assertion, Assertions, nil, cons, leaves, all_of, any_of, is_set,
}
use vigie.Dsl.Suite.{Test, Suite}
use vigie.Deps.Engine
use vigie.Deps.Engine.{
  Attempt, Outcome, Action, InstallError, InstallState, Run, done, failed, install,
}
use vigie.Deps.Exports.{ExportMap}
use vigie.Runner.Documents.{Doc, Printer}
use vigie.Runner.Evaluate.{
  Failure, message, Evaluate, Evaluated, failures, panic, evaluate_assertions, count_asserts,
}
use vigie.Runner.Hooks.{
  Stage, before_all, setup, teardown, after_all, HookEnv, HookError, Shell, run_hooks,
}
use vigie.Runner.Apply.{
  Event, namespace_made, namespace_refused, namespace_deleted, deps_installed, deps_refused,
  deps_removed, ran_hooks, chart_rendered, chart_installed, Problem, namespace_failed, deps_failed,
  setup_failed, install_failed, TestResult, Ended, finished, panicked, ExpandedTest, Creation,
  created, already_exists, refused, World, skip_decision, any_expects_rejection, narrow_test_deps,
  failing, skipping, given, ended, helper_result,
}

module _ (w : World) (keep : Bool) where
  -- deleteNamespace and the teardown of the deps, which --keep-cluster leaves out.
  abbrev pub delete_namespace : String → List Event
  delete_namespace namespace = if keep then [] else namespace_deleted namespace ∷ []

  abbrev pub remove_deps : InstallState → List Event
  remove_deps state = if keep then [] else deps_removed state (Engine.teardown w.deps state).0 ∷ []

  abbrev pub is_none : Option HookError → Bool
  is_none none = true
  is_none (some e) = false

  -- The chart is installed where it was rendered; an error of it is none where it is expected.
  abbrev pub install_problems : Test → Option String → List Problem
  install_problems test none = []
  install_problems test (some text) =
      if any_expects_rejection test.asserts then [] else install_failed text ∷ []

  abbrev pub is_installed : Option String → Bool
  is_installed none = true
  is_installed (some text) = false

  abbrev pub evaluate_installed :
      Test → (namespace : String) → List Doc → Option String → List Event × Ended
  unfolding evaluate_assertions
  evaluate_installed test namespace docs error = (
    chart_rendered ∷ chart_installed (is_installed error) ∷ [],
    ended test.asserts (install_problems test error)
        (evaluate_assertions w.printer (w.evaluate namespace none error) test docs),
  )

  abbrev pub evaluate_rendered :
      Test → (namespace : String) → ExportMap → List Doc × Option String → List Event × Ended
  unfolding evaluate_assertions
  evaluate_rendered test namespace exports (docs, some text) = (
    chart_rendered ∷ [],
    ended test.asserts []
        (evaluate_assertions w.printer (w.evaluate namespace (some text) none) test docs),
  )
  evaluate_rendered test namespace exports (docs, none) =
      evaluate_installed test namespace docs (w.helm_install test namespace exports)

  -- The deferred teardown hooks: an error of theirs is logged.
  abbrev pub after_setup : Test → (namespace : String) → HookEnv → ExportMap → List Event × Ended
  unfolding run_hooks
  after_setup test namespace env exports =
      let run = evaluate_rendered test namespace exports (w.render test namespace exports) in
      (
        run.0 ++ ran_hooks teardown (is_none (run_hooks w.shell teardown test.teardown env)) ∷ [],
        run.1,
      )

  abbrev pub with_setup :
      Test → (namespace : String) → HookEnv → ExportMap → Option HookError → List Event × Ended
  with_setup test namespace env exports (some e) =
      (ran_hooks setup false ∷ [], finished (failing (setup_failed e ∷ [])))
  with_setup test namespace env exports none =
      let run = after_setup test namespace env exports in (ran_hooks setup true ∷ run.0, run.1)

  -- Once the deps of the test are installed; they are torn down after the hooks.
  abbrev pub with_deps :
      Test
      → (namespace : String) → HookEnv
      → (suite_exports : ExportMap) → List Attempt
      → Outcome
      → List Event × Ended
  unfolding run_hooks
  with_deps test namespace env suite_exports made (failed e) =
      (deps_refused made ∷ [], finished (failing (deps_failed e ∷ [])))
  with_deps test namespace env suite_exports made (done state) =
      let exports = w.merge_exports suite_exports state.exports in
      let inner = with_setup test namespace env exports (run_hooks w.shell setup test.setup env) in
      (deps_installed made state ∷ (inner.0 ++ remove_deps state), inner.1)

  -- Once the namespace is there; it is deleted last.
  abbrev pub in_namespace :
      Test
      → (namespace : String) → HookEnv
      → (suite_exports : ExportMap) → (test_deps : List Dependency) → (base_dir : String)
      → List Event × Ended
  unfolding with_deps narrow_test_deps
  in_namespace test namespace env suite_exports test_deps base_dir =
      let installed =
        install w.deps w.range w.load base_dir (narrow_test_deps test_deps namespace) in
      let inner = with_deps test namespace env suite_exports installed.attempts installed.outcome in
      (namespace_made namespace ∷ (inner.0 ++ delete_namespace namespace), inner.1)

  abbrev pub with_namespace :
      Test
      → (namespace : String) → HookEnv
      → (suite_exports : ExportMap) → (test_deps : List Dependency) → (base_dir : String) → Creation
      → List Event × Ended
  unfolding in_namespace
  with_namespace test namespace env suite_exports test_deps base_dir (refused text) =
      (namespace_refused namespace ∷ [], finished (failing (namespace_failed text ∷ [])))
  with_namespace test namespace env suite_exports test_deps base_dir created =
      in_namespace test namespace env suite_exports test_deps base_dir
  with_namespace test namespace env suite_exports test_deps base_dir already_exists =
      in_namespace test namespace env suite_exports test_deps base_dir

  abbrev pub env_of : ExpandedTest → Suite → HookEnv
  env_of et suite = record {
    kubeconfig = w.kubeconfig;
    suite = suite.suite_name;
    test = et.display_name;
    namespace = w.allocate_namespace et.display_name;
  }

  abbrev pub run_unskipped :
      ExpandedTest
      → Suite
      → (suite_exports : ExportMap) → (test_deps : List Dependency) → (base_dir : String)
      → List Event × Ended
  unfolding with_namespace
  run_unskipped et suite suite_exports test_deps base_dir =
      let test = et.test in
      let namespace = w.allocate_namespace et.display_name in
      if not (test.call == "")
      then ([], helper_result w test (w.call_helper test))
      else with_namespace test namespace (env_of et suite) suite_exports test_deps base_dir
          (w.create_namespace namespace)

  abbrev pub decided :
      ExpandedTest
      → Suite
      → (suite_exports : ExportMap) → (test_deps : List Dependency) → (base_dir : String)
      → Option String
      → List Event × Ended
  unfolding run_unskipped
  decided et suite suite_exports test_deps base_dir (some reason) =
      ([], finished (skipping (given reason)))
  decided et suite suite_exports test_deps base_dir none =
      run_unskipped et suite suite_exports test_deps base_dir

  unfoldable pub run_test :
      ExpandedTest
      → Suite
      → (suite_exports : ExportMap) → (test_deps : List Dependency) → (base_dir : String)
      → List Event × Ended
  unfolding decided skip_decision
  run_test et suite suite_exports test_deps base_dir =
      decided et suite suite_exports test_deps base_dir (skip_decision et.test.skip)
