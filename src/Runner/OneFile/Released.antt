-- ===== src/Runner/OneFile/Released.antt =====
-- internal/runner/apply.go: runFile gives back what it takes, and reports on each test.
use vigie.Prelude.{
  String, ◌≡◌, refl, ap, Bool, false, Option, none, some, List, [], ◌∷◌, map, Bool-cases, inl, inr,
  if◌then◌else◌,
}
use vigie.Dsl.Types.{Dependency}
use vigie.Dsl.Suite.{Suite}
use vigie.Deps.Engine.{Attempt, Outcome, done, failed}
use vigie.Deps.Exports.{ExportMap}
use vigie.Runner.Gate
use vigie.Runner.Gate.{Reason, Skip, run, skip, matcher_tier_skip, integration_feature_skip}
use vigie.Runner.Hooks.{before_all, HookEnv, HookError, run_hooks}
use vigie.Runner.Apply.{Event, TestResult, Ended, finished, panicked, ExpandedTest, World}
use vigie.Runner.OneTest.{run_test}
use vigie.Runner.OneTest.Nested.{run_test-Trace}
use vigie.Deps.Engine.Dismantling.{removals-teardown}
use vigie.Runner.Protocol.{
  Resource, deps, suite_hooks, install_deps, leave_deps, remove_deps, leave_cluster_deps,
  run_before_all, fail_before_all, run_after_all, Trace, stop, then_step, Trace-append, one_step,
}
use vigie.Runner.OneFile.{
  FileEnd, results, error, crashed, Loaded, not_loaded, loaded, is_matched, add_result, skip_all,
  after_test, gated_test, run_tests, with_before_all, suite_env, with_suite_deps, with_cluster_deps,
  run_suite, run_file,
}

-- The names of the tests that --match leaves.
abbrev pub matched_names : Option (String → Bool) → List ExpandedTest → List String
matched_names matching [] = []
matched_names matching (et ∷ rest) =
    let later = matched_names matching rest in
    if is_matched matching et then et.display_name ∷ later else later

abbrev pub first : String × TestResult → String
first (name, result) = name

-- Where there are results, they are of these tests.
abbrev pub ReportsOn : List String → FileEnd → Type 0
ReportsOn names (results rs) = map first rs ≡ names
ReportsOn names (error e) = Unit
ReportsOn names crashed = Unit

add_result-ReportsOn :
    (name : String) (r : TestResult) (names : List String) (e : FileEnd)
    → ReportsOn names e
    → ReportsOn (name ∷ names) (add_result (name, r) e)
add_result-ReportsOn name r names (results rs) h = ap (λ ns. name ∷ ns) h
add_result-ReportsOn name r names (error e) h = tt
add_result-ReportsOn name r names crashed h = tt

skip_all-ReportsOn :
    (matching : Option (String → Bool)) (reason : Reason) (tests : List ExpandedTest)
    → map first (skip_all matching reason tests) ≡ matched_names matching tests
unfolding skip_all
skip_all-ReportsOn matching reason [] = refl
skip_all-ReportsOn matching reason (et ∷ rest) = elim (Bool-cases (is_matched matching et)) [
  | inl e ↦ rw e (ap (λ ns. et.display_name ∷ ns) (skip_all-ReportsOn matching reason rest))
  | inr e ↦ rw e (skip_all-ReportsOn matching reason rest)
]

-- What holds of a run of tests: it leaves held what was held, and reports on the tests with these names.
abbrev IsReported : List Resource → List String → List Event × FileEnd → Type 0
IsReported held names made = Trace held made.0 held × ReportsOn names made.1

module _ (w : World) (tier : String) (matching : Option (String → Bool)) where
  after_test-IsReported :
      (held : List Resource) (name : String) (names : List String) (test : List Event × Ended)
      (next : List Event × FileEnd)
      → Trace held test.0 held
      → IsReported held names next
      → IsReported held (name ∷ names) (after_test w false tier matching name test next)
  after_test-IsReported held name names (events, panicked) next t h = (t, tt)
  after_test-IsReported held name names (events, finished r) next t h =
      (Trace-append events next.0 t h.0, add_result-ReportsOn name r names next.1 h.1)

  gated_test-IsReported :
      (held : List Resource) (names : List String) (et : ExpandedTest) (suite : Suite)
      (exports : ExportMap) (test_deps : List Dependency) (base_dir : String) (gate : Skip)
      (next : List Event × FileEnd)
      → IsReported held names next
      → IsReported held
          (et.display_name ∷ names)
          (gated_test w false tier matching et suite exports test_deps base_dir gate next)
  unfolding gated_test
  gated_test-IsReported held names et suite exports test_deps base_dir run next h =
      after_test-IsReported held et.display_name names
        (run_test w false et suite exports test_deps base_dir) next
        (run_test-Trace w held et suite exports test_deps base_dir) h
  gated_test-IsReported held names et suite exports test_deps base_dir (skip reason) next h =
      (h.0, add_result-ReportsOn et.display_name _ names next.1 h.1)
  gated_test-IsReported held names et suite exports test_deps base_dir (Gate.panic name) next h =
      (stop, tt)

  run_tests-IsReported :
      (held : List Resource) (suite : Suite) (exports : ExportMap) (test_deps : List Dependency)
      (base_dir : String) (tests : List ExpandedTest)
      → IsReported held
          (matched_names matching tests)
          (run_tests w false tier matching suite exports test_deps base_dir tests)
  unfolding run_tests
  run_tests-IsReported held suite exports test_deps base_dir [] = (stop, refl)
  run_tests-IsReported held suite exports test_deps base_dir (et ∷ rest) =
      let later = run_tests-IsReported held suite exports test_deps base_dir rest in
      elim (Bool-cases (is_matched matching et)) [
        | inl e ↦ rw e (
            gated_test-IsReported held (matched_names matching rest) et suite exports test_deps
              base_dir (matcher_tier_skip et.test.asserts tier)
              (run_tests w false tier matching suite exports test_deps base_dir rest) later)
        | inr e ↦ rw e later
      ]

  with_before_all-IsReported :
      (held : List Resource) (suite : Suite) (env : HookEnv) (tests : List ExpandedTest)
      (exports : ExportMap) (test_deps : List Dependency) (base_dir : String) (e : Option HookError)
      → IsReported held
          (matched_names matching tests)
          (with_before_all w false tier matching suite env tests exports test_deps base_dir e)
  unfolding with_before_all
  with_before_all-IsReported held suite env tests exports test_deps base_dir (some e) =
      (one_step fail_before_all, tt)
  with_before_all-IsReported held suite env tests exports test_deps base_dir none =
      let inner =
        run_tests-IsReported (suite_hooks ∷ held) suite exports test_deps base_dir tests in
      (then_step run_before_all (Trace-append _ _ inner.0 (one_step (run_after_all _))), inner.1)

  with_suite_deps-IsReported :
      (held : List Resource) (suite : Suite) (tests : List ExpandedTest)
      (test_deps : List Dependency) (base_dir : String) (made : List Attempt) (outcome : Outcome)
      → IsReported held
          (matched_names matching tests)
          (with_suite_deps w false tier matching suite tests test_deps base_dir made outcome)
  unfolding with_suite_deps
  with_suite_deps-IsReported held suite tests test_deps base_dir made (failed e) =
      (one_step (leave_deps made), tt)
  with_suite_deps-IsReported held suite tests test_deps base_dir made (done state) =
      let inner =
        with_before_all-IsReported (deps state ∷ held) suite (suite_env w false tier matching suite)
          tests state.exports test_deps base_dir
          (run_hooks w.shell before_all suite.before_all (suite_env w false tier matching suite)) in
      (
        then_step (install_deps made state) (
            Trace-append _ _ inner.0
              (one_step (remove_deps state _ (removals-teardown w.deps state)))),
        inner.1,
      )

  with_cluster_deps-IsReported :
      (held : List Resource) (suite : Suite) (tests : List ExpandedTest)
      (suite_deps test_deps : List Dependency) (base_dir : String) (made : List Attempt)
      (outcome : Outcome)
      → IsReported held (matched_names matching tests) (
          with_cluster_deps w false tier matching suite tests suite_deps test_deps base_dir made
            outcome)
  unfolding with_cluster_deps
  with_cluster_deps-IsReported held suite tests suite_deps test_deps base_dir made (failed e) =
      (one_step (leave_deps made), tt)
  with_cluster_deps-IsReported held suite tests suite_deps test_deps base_dir made (done state) =
      let inner = with_suite_deps-IsReported held suite tests test_deps base_dir _ _ in
      (then_step (leave_cluster_deps made) inner.0, inner.1)

  run_suite-IsReported :
      (suite : Suite) (tests : List ExpandedTest) (base_dir : String) (reason : Option Reason)
      → IsReported []
          (matched_names matching tests)
          (run_suite w false tier matching suite tests base_dir reason)
  unfolding run_suite
  run_suite-IsReported suite tests base_dir (some reason) =
      (stop, skip_all-ReportsOn matching reason tests)
  run_suite-IsReported suite tests base_dir none =
      with_cluster_deps-IsReported [] suite tests _ _ base_dir _ _

  -- Without --keep-cluster, however the run of a file ends, in a panic too: each namespace that is made or
  -- found there, each set of deps of the scopes suite and test of which the Install succeeds, and each setup
  -- and beforeAll that succeeds is released once, in the reverse order, the deps by the removal of each that
  -- has something to tear down. What has no release of its own is listed: what failed Installs and failed setup
  -- and beforeAll hooks had done by then, the Install of the deps of the scope cluster, and the charts. Whether
  -- a release that is asked for succeeds is not stated.
  pub run_file-Trace :
      (file : Loaded) (base_dir : String)
      → Trace [] (run_file w false tier matching file base_dir).0 []
  unfolding run_file
  run_file-Trace (not_loaded text) base_dir = stop
  run_file-Trace (loaded suite tests) base_dir =
      (run_suite-IsReported suite tests base_dir (integration_feature_skip suite tier)).0

  -- Where the run of a file gives results and not an error, there is one for each test that --match leaves,
  -- in their order; this holds of a suite that is skipped whole as well.
  pub run_file-ReportsOn :
      (suite : Suite) (tests : List ExpandedTest) (base_dir : String)
      → ReportsOn
          (matched_names matching tests)
          (run_file w false tier matching (loaded suite tests) base_dir).1
  unfolding run_file
  run_file-ReportsOn suite tests base_dir =
      (run_suite-IsReported suite tests base_dir (integration_feature_skip suite tier)).1
