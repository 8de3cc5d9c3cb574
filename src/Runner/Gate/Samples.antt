-- ===== src/Runner/Gate/Samples.antt =====
-- internal/runner/tiergate.go and internal/matchers: what is skipped on small suites.
use vigie.Prelude.{◌≡◌, refl, true, none, some, [], ◌∷◌, All}
use vigie.Prelude.Int.{leb_int}
use vigie.Dsl.Assertion.{nil, cons}
use vigie.Dsl.Suite.{Suite}
use vigie.Dsl.Capability.{all_tiers, tier_rank}
use vigie.Dsl.Ceiling.{suite_tier, set_matchers, validate_tier_ceiling}
use vigie.Dsl.Ceiling.Samples.{exists_name, waits, both, test_of, suite_of}
use vigie.Matchers.Registry.{find}
use vigie.Matchers.Tiers.{
  intersect_child_tiers, all_supported, unsupported, find_unsupported_matcher,
}
use vigie.Matchers.Tiers.Gated.{find_unsupported_matcher-ceiling}
use vigie.Runner.Gate.{integration_feature_skip}

abbrev live_suite : Suite
live_suite = suite_of "e2e" (cons both nil)

find_unsupported_matcher-both :
    find_unsupported_matcher (cons both nil) "apiserver" ≡ unsupported "waitFor" "simulated"
unfolding find_unsupported_matcher find vigie.Dsl.Capability.tier_provides
find_unsupported_matcher-both = refl

live_suite-passes : validate_tier_ceiling live_suite ≡ none
unfolding validate_tier_ceiling set_matchers
live_suite-passes = refl

declared : leb_int (tier_rank (suite_tier live_suite)) (tier_rank "e2e") ≡ true
unfolding leb_int tier_rank suite_tier
declared = refl

no_features : integration_feature_skip live_suite "e2e" ≡ none
unfolding integration_feature_skip
no_features = refl

find_unsupported_matcher-ceiling_example :
    All
      (λ t. find_unsupported_matcher t.asserts "e2e" ≡ all_supported)
      (test_of (cons both nil) ∷ [])
find_unsupported_matcher-ceiling_example =
    find_unsupported_matcher-ceiling live_suite "e2e" live_suite-passes refl declared

intersect-both :
    intersect_child_tiers (cons exists_name (cons waits nil)) ≡ some ("simulated" ∷ "e2e" ∷ [])
unfolding intersect_child_tiers find vigie.Dsl.Capability.tier_provides
intersect-both = refl
