-- ===== src/Dsl/Ceiling.antt =====
-- internal/dsl/tier_ceiling.go: the tier of a suite as a ceiling on its matchers.
pub mod Ladder
pub mod Checked
pub mod Refused
pub mod Live
pub mod Samples
use vigie.Prelude.{
  String, Bool, true, false, not, ◌||◌, ◌&&◌, Option, none, some, List, [], ◌∷◌, ◌==◌,
  if◌then◌else◌, contains,
}
use vigie.Dsl.Assertion.{
  Assertion, Assertions, assertion, nil, cons, Lookup, no_lookup, lookup, leaves, lookup_of, is_set,
  has_lookup,
}
use vigie.Dsl.Capability.{
  Capability, tier_provides, runnable_tiers, tiers_providing, capabilities_for_matcher,
}
use vigie.Dsl.Suite.{Test, Suite}

-- SuiteTier
unfoldable pub suite_tier : Suite → String
suite_tier suite = if suite.tier == "" then "template" else suite.tier

-- The matcher fields of Assertion in the order of the struct, each with whether it is not zero.
abbrev pub matcher_fields : Assertion → List (String × Bool)
matcher_fields a =
    ("equal", is_set (leaves a).equal)
    ∷ ("notEqual", is_set (leaves a).not_equal)
    ∷ ("greaterThan", is_set (leaves a).greater_than)
    ∷ ("lessThan", is_set (leaves a).less_than)
    ∷ ("gte", is_set (leaves a).gte)
    ∷ ("lte", is_set (leaves a).lte)
    ∷ ("contains", is_set (leaves a).contains)
    ∷ ("notContains", is_set (leaves a).not_contains)
    ∷ ("startsWith", is_set (leaves a).starts_with)
    ∷ ("endsWith", is_set (leaves a).ends_with)
    ∷ ("matchRegex", is_set (leaves a).match_regex)
    ∷ ("notMatchRegex", is_set (leaves a).not_match_regex)
    ∷ ("matchTemplate", is_set (leaves a).match_template)
    ∷ ("exists", is_set (leaves a).exists)
    ∷ ("notExists", is_set (leaves a).not_exists)
    ∷ ("isNull", is_set (leaves a).is_null)
    ∷ ("isNotNull", is_set (leaves a).is_not_null)
    ∷ ("isEmpty", is_set (leaves a).is_empty)
    ∷ ("isNotEmpty", is_set (leaves a).is_not_empty)
    ∷ ("isKind", is_set (leaves a).is_kind)
    ∷ ("isAPIVersion", is_set (leaves a).is_api_version)
    ∷ ("hasDocuments", is_set (leaves a).has_documents)
    ∷ ("failedTemplate", is_set (leaves a).failed_template)
    ∷ ("isType", is_set (leaves a).is_type)
    ∷ ("lengthEqual", is_set (leaves a).length_equal)
    ∷ ("isSubset", is_set (leaves a).is_subset)
    ∷ ("matchSnapshot", is_set (leaves a).match_snapshot)
    ∷ ("matchSchema", is_set (leaves a).match_schema)
    ∷ ("expr", is_set (leaves a).expr)
    ∷ ("applies", is_set (leaves a).applies)
    ∷ ("rejected", is_set (leaves a).rejected)
    ∷ ("waitFor", is_set (leaves a).wait_for)
    ∷ ("becomesReady", is_set (leaves a).becomes_ready)
    ∷ ("http", is_set (leaves a).http)
    ∷ ("lookup", has_lookup (lookup_of a))
    ∷ ("logsContain", is_set (leaves a).logs_contain)
    ∷ ("eventEmitted", is_set (leaves a).event_emitted)
    ∷ []

abbrev pub names_set : List (String × Bool) → List String
names_set [] = []
names_set ((name, set) ∷ rest) = let out = names_set rest in if set then name ∷ out else out

unfoldable pub set_matchers : Assertion → List String
set_matchers a = names_set (matcher_fields a)

-- matcherCapabilities[name]: nil where the key is missing.
unfoldable pub needs_of : String → List Capability
unfolding capabilities_for_matcher
needs_of name = elim (capabilities_for_matcher name) [ some caps ↦ caps | none ↦ [] ]

-- The name of an unmet matcher, and all that it needs.
abbrev pub Unmet : Type 0
Unmet = String × List Capability

abbrev pub or_then : Option Unmet → Option Unmet → Option Unmet
or_then (some u) later = some u
or_then none later = later

-- The loop over the set matchers, with the loop over the needs of each: `all` is what it returns.
abbrev pub unmet_need : (Capability → Bool) → List Capability → Bool
unmet_need provided [] = false
unmet_need provided (need ∷ needs) = not (provided need) || unmet_need provided needs

unfoldable pub unmet_of : (Capability → Bool) → List String → Option Unmet
unfolding needs_of
unmet_of provided [] = none
unmet_of provided (m ∷ ms) =
    let rest = unmet_of provided ms in
    if unmet_need provided (needs_of m) then some (m, needs_of m) else rest

-- firstUnmetMatcher: the loop over the concatenation of the four lists of children is the four loops
-- one after the other.
unfoldable mutual
  unfolding unmet_of

  pub first_unmet_matcher : (Capability → Bool) → Assertion → Option Unmet
  first_unmet_matcher provided (assertion n on ls all any l) =
      or_then (first_unmet_in provided all) (
        or_then (first_unmet_in provided any) (
          or_then (first_unmet_nested provided l)
            (unmet_of provided (set_matchers (assertion n on ls all any l)))))

  pub first_unmet_in : (Capability → Bool) → Assertions → Option Unmet
  first_unmet_in provided nil = none
  first_unmet_in provided (cons a rest) =
      or_then (first_unmet_matcher provided a) (first_unmet_in provided rest)

  pub first_unmet_nested : (Capability → Bool) → Lookup → Option Unmet
  first_unmet_nested provided no_lookup = none
  first_unmet_nested provided (lookup q t e) =
      or_then (first_unmet_in provided t) (first_unmet_in provided e)

abbrev pub first_in : List String → List String → String
first_in runnable [] = "e2e"
first_in runnable (tier ∷ tiers) =
    let later = first_in runnable tiers in if contains tier runnable then tier else later

unfoldable pub lowest_runnable_tier_for : List Capability → String
unfolding runnable_tiers tiers_providing
lowest_runnable_tier_for needs = first_in runnable_tiers (tiers_providing needs)

pub data CeilingError : Type 0 where
  not_runnable : (tier : String) → CeilingError
  needs_more : (test matcher : String) → List Capability → (tier suggested : String) → CeilingError

-- The loop over the tests.
unfoldable pub unmet_in_tests : String → List Test → Option CeilingError
unfolding first_unmet_matcher lowest_runnable_tier_for tier_provides
unmet_in_tests tier [] = none
unmet_in_tests tier (test ∷ tests) =
    let rest = unmet_in_tests tier tests in
    elim (first_unmet_in (tier_provides tier) test.asserts) [
      | some (name, needs) ↦
          some (needs_more test.it name needs tier (lowest_runnable_tier_for needs))
      | none ↦ rest
    ]

-- ValidateTierCeiling: `none` is nil.
unfoldable pub validate_tier_ceiling : Suite → Option CeilingError
unfolding suite_tier runnable_tiers unmet_in_tests
validate_tier_ceiling suite =
    let tier = suite_tier suite in
    if not (contains tier runnable_tiers)
    then some (not_runnable tier)
    else unmet_in_tests tier suite.tests

abbrev pub needs_live : List Capability → Bool
needs_live [] = false
needs_live (need ∷ needs) = not (need == "renderedManifests") || needs_live needs

abbrev pub any_live : List String → Bool
any_live [] = false
any_live (m ∷ ms) = needs_live (needs_of m) || any_live ms

-- ReadsLiveState
unfoldable mutual
  unfolding needs_of

  pub reads_live_state : Assertion → Bool
  reads_live_state (assertion n on ls all any l) =
      reads_live_in all
      || reads_live_in any
      || reads_live_nested l
      || any_live (set_matchers (assertion n on ls all any l))

  pub reads_live_in : Assertions → Bool
  reads_live_in nil = false
  reads_live_in (cons a rest) = reads_live_state a || reads_live_in rest

  pub reads_live_nested : Lookup → Bool
  reads_live_nested no_lookup = false
  reads_live_nested (lookup q t e) = reads_live_in t || reads_live_in e
