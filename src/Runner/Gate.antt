-- ===== src/Runner/Gate.antt =====
-- internal/runner/tiergate.go: which suites and tests are skipped at a tier, and why. A reason is a
-- value with the parts that the source writes into the text.
pub mod Runnable
pub mod Samples
use vigie.Prelude.{
  String, Bool, true, false, ◌||◌, Option, none, some, List, [], ◌∷◌, ◌++◌, ◌==◌, if◌then◌else◌, ℕ,
  length, ltb,
}
use vigie.Prelude.Int.{leb_int}
use vigie.Dsl.Types.{ShellCommand, Dependency}
use vigie.Dsl.Assertion.{Assertions}
use vigie.Dsl.Suite.{Test, Suite}
use vigie.Dsl.Capability.{tier_rank, backend_tier, backends_for_tier}
use vigie.Matchers.Tiers.{Finding, all_supported, unsupported, panicked, find_unsupported_matcher}

-- clusterHintForTier
pub data Hint : Type 0 where
  no_cluster : Hint
  clusters : List String → Hint

unfoldable pub cluster_hint_for_tier : (need_tier : String) → Hint
unfolding backends_for_tier
cluster_hint_for_tier need_tier = elim (backends_for_tier need_tier) [
  | [] ↦ no_cluster
  | b ∷ bs ↦ clusters (b ∷ bs)
]

pub data Reason : Type 0 where
  matcher_not_available : (name active_tier : String) → Hint → Reason
  declares_dependencies : (tier : String) → Hint → Reason
  declares_hooks : (tier : String) → Hint → Reason
  declares_test_hooks : (tier : String) → Hint → Reason

-- `none` is a run, `some` a skip with its reason; a panic ends the program.
pub data Skip : Type 0 where
  run : Skip
  skip : Reason → Skip
  panic : (name : String) → Skip

-- matcherTierSkip
unfoldable pub matcher_tier_skip : Assertions → (active_tier : String) → Skip
unfolding cluster_hint_for_tier find_unsupported_matcher
matcher_tier_skip asserts active_tier = elim (find_unsupported_matcher asserts active_tier) [
  | all_supported ↦ run
  | unsupported name need_tier ↦
      skip (matcher_not_available name active_tier (cluster_hint_for_tier need_tier))
  | panicked name ↦ panic name
]

-- TierForBackend
unfoldable pub tier_for_backend : (backend_type : String) → String
unfolding backend_tier
tier_for_backend backend_type =
    if backend_type == "" || backend_type == "none" then "template" else backend_tier backend_type

-- tierAtLeast
unfoldable pub tier_at_least : (active want : String) → Bool
unfolding tier_rank leb_int
tier_at_least active want = leb_int (tier_rank want) (tier_rank active)

-- suiteHasTestHooks
unfoldable pub suite_has_test_hooks : List Test → Bool
suite_has_test_hooks [] = false
suite_has_test_hooks (test ∷ tests) =
    ltb 0 (length (test.setup ++ test.teardown)) || suite_has_test_hooks tests

-- integrationFeatureSkip
unfoldable pub integration_feature_skip : Suite → (tier : String) → Option Reason
unfolding tier_at_least suite_has_test_hooks cluster_hint_for_tier
integration_feature_skip suite tier =
    let hint = cluster_hint_for_tier "simulated" in
    if tier_at_least tier "simulated"
    then none
    else if ltb 0 (length suite.dependencies)
    then some (declares_dependencies tier hint)
    else if ltb 0 (length (suite.before_all ++ suite.after_all))
    then some (declares_hooks tier hint)
    else if suite_has_test_hooks suite.tests
    then some (declares_test_hooks tier hint)
    else none

abbrev pub or_reason : Option Reason → Reason → Reason
or_reason none why = why
or_reason (some reason) why = reason

-- The loop of UnrunnableAt over the tests, with the reason so far: it is the first one.
unfoldable pub all_skipped : List Test → (tier : String) → Option Reason → Skip
unfolding matcher_tier_skip
all_skipped [] tier none = run
all_skipped [] tier (some reason) = skip reason
all_skipped (test ∷ tests) tier reason = elim (matcher_tier_skip test.asserts tier) [
  | run ↦ run
  | panic name ↦ panic name
  | skip why ↦ all_skipped tests tier (some (or_reason reason why))
]

-- UnrunnableAt: `skip` is an unrunnable suite, `run` one of which some test runs, or that has none.
unfoldable pub unrunnable_at : Suite → (tier : String) → Skip
unfolding integration_feature_skip all_skipped
unrunnable_at suite tier = elim (integration_feature_skip suite tier) [
  | some reason ↦ skip reason
  | none ↦ all_skipped suite.tests tier none
]
