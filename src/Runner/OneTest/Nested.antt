-- ===== src/Runner/OneTest/Nested.antt =====
-- internal/runner/apply.go: runTest gives back what it takes, in the reverse order.
use vigie.Prelude.{String, false, Option, none, some, ◌==◌, not, Bool-cases, inl, inr, List, ◌∷◌}
use vigie.Dsl.Types.{Dependency}
use vigie.Dsl.Suite.{Test, Suite}
use vigie.Deps.Engine.{Attempt, Outcome, done, failed}
use vigie.Deps.Exports.{ExportMap}
use vigie.Runner.Documents.{Doc}
use vigie.Runner.Hooks.{setup, HookEnv, HookError, run_hooks}
use vigie.Runner.Apply.{
  ExpandedTest, Creation, created, already_exists, refused, World, skip_decision,
}
use vigie.Deps.Engine.Dismantling.{removals-teardown}
use vigie.Runner.Protocol.{
  Resource, namespace, deps, test_hooks, make_namespace, refuse_namespace, delete_namespace,
  install_deps, leave_deps, remove_deps, set_up, fail_setup, tear_down, render, install_chart,
  Trace, stop, then_step, Trace-append, one_step,
}
use vigie.Runner.OneTest.{
  evaluate_rendered, after_setup, with_setup, with_deps, in_namespace, with_namespace, env_of,
  run_unskipped, decided, run_test,
}

module _ (w : World) where
  evaluate_rendered-Trace :
      (held : List Resource) (test : Test) (ns : String) (exports : ExportMap)
      (r : List Doc × Option String)
      → Trace
          (test_hooks ∷ held)
          (evaluate_rendered w false test ns exports r).0
          (test_hooks ∷ held)
  unfolding evaluate_rendered
  evaluate_rendered-Trace held test ns exports (docs, some text) = one_step render
  evaluate_rendered-Trace held test ns exports (docs, none) =
      then_step render (one_step (install_chart _))

  with_setup-Trace :
      (held : List Resource) (test : Test) (ns : String) (env : HookEnv) (exports : ExportMap)
      (e : Option HookError)
      → Trace held (with_setup w false test ns env exports e).0 held
  unfolding after_setup
  with_setup-Trace held test ns env exports (some e) = one_step fail_setup
  with_setup-Trace held test ns env exports none = then_step set_up (
      Trace-append _ _ (evaluate_rendered-Trace held test ns exports (w.render test ns exports))
        (one_step (tear_down _)))

  with_deps-Trace :
      (held : List Resource) (test : Test) (ns : String) (env : HookEnv) (exports : ExportMap)
      (made : List Attempt) (outcome : Outcome)
      → Trace held (with_deps w false test ns env exports made outcome).0 held
  unfolding with_deps
  with_deps-Trace held test ns env exports made (failed e) = one_step (leave_deps made)
  with_deps-Trace held test ns env exports made (done state) =
      let merged = w.merge_exports exports state.exports in
      then_step (install_deps made state) (
        Trace-append _ _
          (with_setup-Trace (deps state ∷ held) test ns env merged
            (run_hooks w.shell setup test.setup env))
          (one_step (remove_deps state _ (removals-teardown w.deps state))))

  in_namespace-Trace :
      (held : List Resource) (test : Test) (ns : String) (env : HookEnv) (exports : ExportMap)
      (test_deps : List Dependency) (base_dir : String)
      → Trace held (in_namespace w false test ns env exports test_deps base_dir).0 held
  unfolding in_namespace
  in_namespace-Trace held test ns env exports test_deps base_dir = then_step (make_namespace ns) (
      Trace-append _ _ (with_deps-Trace (namespace ns ∷ held) test ns env exports _ _)
        (one_step (delete_namespace ns)))

  with_namespace-Trace :
      (held : List Resource) (test : Test) (ns : String) (env : HookEnv) (exports : ExportMap)
      (test_deps : List Dependency) (base_dir : String) (c : Creation)
      → Trace held (with_namespace w false test ns env exports test_deps base_dir c).0 held
  unfolding with_namespace
  with_namespace-Trace held test ns env exports test_deps base_dir (refused text) =
      one_step (refuse_namespace ns)
  with_namespace-Trace held test ns env exports test_deps base_dir created =
      in_namespace-Trace held test ns env exports test_deps base_dir
  with_namespace-Trace held test ns env exports test_deps base_dir already_exists =
      in_namespace-Trace held test ns env exports test_deps base_dir

  unskipped-Trace :
      (held : List Resource) (et : ExpandedTest) (suite : Suite) (exports : ExportMap)
      (test_deps : List Dependency) (base_dir : String)
      → Trace held (run_unskipped w false et suite exports test_deps base_dir).0 held
  unfolding run_unskipped
  unskipped-Trace held et suite exports test_deps base_dir =
      elim (Bool-cases (not (et.test.call == ""))) [
        | inl e ↦ rw e stop
        | inr e ↦ rw e (
            with_namespace-Trace held et.test _ (env_of w false et suite) exports test_deps base_dir
              _)
      ]

  decided-Trace :
      (held : List Resource) (et : ExpandedTest) (suite : Suite) (exports : ExportMap)
      (test_deps : List Dependency) (base_dir : String) (reason : Option String)
      → Trace held (decided w false et suite exports test_deps base_dir reason).0 held
  unfolding decided
  decided-Trace held et suite exports test_deps base_dir (some reason) = stop
  decided-Trace held et suite exports test_deps base_dir none =
      unskipped-Trace held et suite exports test_deps base_dir

  -- Without --keep-cluster, a test leaves held what was held before it, however it ends, in a panic too: the
  -- namespace, the deps and the setup that it makes are released, in the reverse order, and the chart is
  -- rendered and installed only once its setup hooks have run.
  pub run_test-Trace :
      (held : List Resource) (et : ExpandedTest) (suite : Suite) (exports : ExportMap)
      (test_deps : List Dependency) (base_dir : String)
      → Trace held (run_test w false et suite exports test_deps base_dir).0 held
  unfolding run_test
  run_test-Trace held et suite exports test_deps base_dir =
      decided-Trace held et suite exports test_deps base_dir (skip_decision et.test.skip)
