-- ===== src/Runner/Apply.antt =====
-- internal/runner/apply.go: a test on a cluster, in a namespace of its own. What happens to the cluster is
-- a list of events; what the cluster, Helm and the shell answer is the record World.
use vigie.Prelude.{
  String, ℕ, suc, Bool, true, false, ◌||◌, Option, none, some, List, [], ◌∷◌, ◌++◌, map, ◌==◌,
  if◌then◌else◌,
}
use vigie.Value.{Value, bool, str}
use vigie.Dsl.Types.{Dependency}
use vigie.Dsl.Assertion.{Assertion, assertion, Assertions, nil, cons, is_set}
use vigie.Dsl.Suite.{Test}
use vigie.Deps.Engine
use vigie.Deps.Engine.{
  Attempt, Action, InstallError, InstallState, Run, Outcome, done, failed, install,
}
use vigie.Deps.Exports.{ExportMap}
use vigie.Runner.Documents.{Doc, Printer}
use vigie.Runner.Evaluate.{
  Failure, message, Evaluate, Evaluated, failures, panic, outcome_of, and_then, count_asserts,
}
use vigie.Runner.Gate.{Reason}
use vigie.Runner.Hooks.{Stage, HookError, Shell}

pub data Event : Type 0 where
  namespace_made : String → Event
  namespace_refused : String → Event
  namespace_deleted : String → Event
  deps_installed : List Attempt → InstallState → Event
  deps_refused : List Attempt → Event
  -- of the scope cluster: nothing removes them
  cluster_deps_installed : List Attempt → Event
  deps_removed : InstallState → List Action → Event
  ran_hooks : Stage → (ok : Bool) → Event
  chart_rendered : Event
  chart_installed : (ok : Bool) → Event

-- A failure of a test result.
pub data Problem : Type 0 where
  namespace_failed : (text : String) → Problem
  deps_failed : InstallError → Problem
  setup_failed : HookError → Problem
  install_failed : (text : String) → Problem
  helper_failed : (text : String) → Problem
  assertion_failed : Failure → Problem

-- The reason of a skip: that of the test, or that of the tier.
pub data SkipReason : Type 0 where
  not_skipped : SkipReason
  given : (text : String) → SkipReason
  gated : Reason → SkipReason

pub record TestResult : Type 0 where
  pub pass : Bool
  pub skipped : Bool
  pub skip_reason : SkipReason
  pub failures : List Problem
  pub live_asserts : ℕ
  pub rendered_asserts : ℕ

-- How a test ends.
pub data Ended : Type 0 where
  finished : TestResult → Ended
  panicked : Ended

-- A test with its display name.
pub record ExpandedTest : Type 0 where
  pub test : Test
  pub display_name : String

-- Namespaces().Create: an error that the namespace exists is none.
pub data Creation : Type 0 where
  created : Creation
  already_exists : Creation
  refused : (text : String) → Creation

-- The cluster, the chart and the shell. A helper renders to a text or to an error; a chart renders to its
-- documents and an error. An Option is an error's text.
pub record World : Type 0 where
  pub deps : Engine.Env
  pub range : List String → List String
  pub load : String → Option (List Dependency)
  pub shell : Shell
  pub printer : Printer
  pub kubeconfig : String
  pub allocate_namespace : (display_name : String) → String
  pub create_namespace : String → Creation
  pub call_helper : Test → Option String
  pub evaluate_helper : Evaluate
  pub merge_exports : (suite test : ExportMap) → ExportMap
  pub render : Test → (namespace : String) → ExportMap → List Doc × Option String
  pub helm_install : Test → (namespace : String) → ExportMap → Option String
  pub evaluate : (namespace : String) (render_error install_error : Option String) → Evaluate

-- skipDecision
unfoldable pub skip_decision : Value → Option String
skip_decision (bool b) = if b then some "" else none
skip_decision (str reason) = if reason == "" then none else some reason
skip_decision v = none

-- testExpectsRejection, with anyAssertion.
unfoldable mutual
  pub expects_rejection : Assertion → Bool
  expects_rejection (assertion n on ls all any l) =
      is_set ls.rejected || (any_expects_rejection all || any_expects_rejection any)

  pub any_expects_rejection : Assertions → Bool
  any_expects_rejection nil = false
  any_expects_rejection (cons a rest) = expects_rejection a || any_expects_rejection rest

-- splitDepsByScope: (cluster, suite, test)
unfoldable pub split_deps_by_scope :
    List Dependency → List Dependency × List Dependency × List Dependency
split_deps_by_scope [] = ([], [], [])
split_deps_by_scope (dep ∷ deps) =
    let (cluster, suite, test) = split_deps_by_scope deps in
    if dep.scope == "cluster"
    then (dep ∷ cluster, suite, test)
    else if dep.scope == "test"
    then (cluster, suite, dep ∷ test)
    else (cluster, dep ∷ suite, test)

abbrev pub narrow : (namespace : String) → Dependency → Dependency
narrow namespace dep = record {
  name = dep.name;
  namespace = if dep.namespace == "" then namespace else dep.namespace;
  source = dep.source;
  values = dep.values;
  wait_for = dep.wait_for;
  exports = dep.exports;
  scope = dep.scope;
  depends_on = dep.depends_on;
  on_fail = dep.on_fail;
}

unfoldable pub narrow_test_deps : List Dependency → (namespace : String) → List Dependency
narrow_test_deps deps namespace = map (narrow namespace) deps

abbrev pub failing : List Problem → TestResult
failing problems = record {
  pass = false;
  skipped = false;
  skip_reason = not_skipped;
  failures = problems;
  live_asserts = 0;
  rendered_asserts = 0;
}

abbrev pub skipping : SkipReason → TestResult
skipping reason = record {
  pass = true;
  skipped = true;
  skip_reason = reason;
  failures = [];
  live_asserts = 0;
  rendered_asserts = 0;
}

abbrev pub no_problem : List Problem → Bool
no_problem [] = true
no_problem (p ∷ ps) = false

-- pass = len(failures) == 0
abbrev pub judged : (live rendered : ℕ) → List Problem → TestResult
judged live rendered problems = record {
  pass = no_problem problems;
  skipped = false;
  skip_reason = not_skipped;
  failures = problems;
  live_asserts = live;
  rendered_asserts = rendered;
}

abbrev pub ended : Assertions → List Problem → Evaluated → Ended
unfolding count_asserts
ended asserts before panic = panicked
ended asserts before (failures found) =
    let (live, rendered) = count_asserts asserts in
    finished (judged live rendered (before ++ map assertion_failed found))

-- The loop of runHelperTest over the assertions.
unfoldable pub evaluate_helper_asserts : Evaluate → Assertions → (assert_idx : ℕ) → Evaluated
evaluate_helper_asserts evaluate nil idx = failures []
evaluate_helper_asserts evaluate (cons a asserts) idx =
    and_then (outcome_of message (evaluate a none idx))
      (evaluate_helper_asserts evaluate asserts (suc idx))

abbrev pub helper_ended : Evaluated → Ended
helper_ended panic = panicked
helper_ended (failures found) = finished (judged 0 0 (map assertion_failed found))

abbrev pub helper_result : World → Test → Option String → Ended
unfolding evaluate_helper_asserts
helper_result w test (some text) = finished (failing (helper_failed text ∷ []))
helper_result w test none = helper_ended (evaluate_helper_asserts w.evaluate_helper test.asserts 0)
