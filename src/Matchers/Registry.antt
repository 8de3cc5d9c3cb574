-- ===== src/Matchers/Registry.antt =====
-- internal/matchers/registry.go and matcher.go: the registry, and which matcher claims an assertion.
-- The init functions register in the order of the package's files, by name.
pub mod Registration
pub mod Declared
use vigie.Prelude.{
  String, ◌≡◌, refl, Bool, true, false, ◌||◌, Option, none, some, List, [], ◌∷◌, ◌++◌, ◌==◌,
  if◌then◌else◌, contains, map, append-nil, append_assoc, Bool-cases, inl, inr, ◌↔◌, arith,
  contains-append,
}
use vigie.Prelude.Counting.{Distinct}
use vigie.Dsl.Assertion.{
  Assertion, leaves, all_of, any_of, lookup_of, is_set, has_lookup, is_filled,
}

-- simpleMatcher, allOfMatcher and anyOfMatcher.
pub data Matcher : Type 0 where
  simple : (name : String) → (matches : Assertion → Bool) → Matcher
  all_of_matcher any_of_matcher : Matcher

abbrev pub name_of : Matcher → String
name_of (simple name m) = name
name_of all_of_matcher = "allOf"
name_of any_of_matcher = "anyOf"

abbrev pub matches : Matcher → Assertion → Bool
matches (simple name m) a = m a
matches all_of_matcher a = is_filled (all_of a)
matches any_of_matcher a = is_filled (any_of a)

abbrev pub registered_names : List Matcher → List String
registered_names ms = map name_of ms

-- Register: `none` is the panic on a name that is taken.
unfoldable pub register : List Matcher → Matcher → Option (List Matcher)
register ms m = if contains (name_of m) (registered_names ms) then none else some (ms ++ m ∷ [])

-- All init functions, one registration after the other.
unfoldable pub register_all : List Matcher → List Matcher → Option (List Matcher)
unfolding register
register_all ms [] = some ms
register_all ms (m ∷ more) = elim (register ms m) [ some ms' ↦ register_all ms' more | none ↦ none ]

abbrev pub registry : List Matcher
registry =
    simple "applies" (λ a. is_set (leaves a).applies)
    ∷ simple "rejected" (λ a. is_set (leaves a).rejected)
    ∷ simple "isKind" (λ a. is_set (leaves a).is_kind)
    ∷ simple "isAPIVersion" (λ a. is_set (leaves a).is_api_version)
    ∷ simple "hasDocuments" (λ a. is_set (leaves a).has_documents)
    ∷ simple "failedTemplate" (λ a. is_set (leaves a).failed_template)
    ∷ simple "equal" (λ a. is_set (leaves a).equal)
    ∷ simple "notEqual" (λ a. is_set (leaves a).not_equal)
    ∷ simple "eventEmitted" (λ a. is_set (leaves a).event_emitted)
    ∷ simple "exists" (λ a. is_set (leaves a).exists)
    ∷ simple "notExists" (λ a. is_set (leaves a).not_exists)
    ∷ simple "expr" (λ a. is_set (leaves a).expr)
    ∷ simple "http" (λ a. is_set (leaves a).http)
    ∷ simple "logsContain" (λ a. is_set (leaves a).logs_contain)
    ∷ simple "lookup" (λ a. has_lookup (lookup_of a))
    ∷ simple "greaterThan" (λ a. is_set (leaves a).greater_than)
    ∷ simple "lessThan" (λ a. is_set (leaves a).less_than)
    ∷ simple "gte" (λ a. is_set (leaves a).gte)
    ∷ simple "lte" (λ a. is_set (leaves a).lte)
    ∷ all_of_matcher
    ∷ any_of_matcher
    ∷ simple "matchSchema" (λ a. is_set (leaves a).match_schema)
    ∷ simple "matchSnapshot" (λ a. is_set (leaves a).match_snapshot)
    ∷ simple "contains" (λ a. is_set (leaves a).contains)
    ∷ simple "notContains" (λ a. is_set (leaves a).not_contains)
    ∷ simple "startsWith" (λ a. is_set (leaves a).starts_with)
    ∷ simple "endsWith" (λ a. is_set (leaves a).ends_with)
    ∷ simple "matchRegex" (λ a. is_set (leaves a).match_regex)
    ∷ simple "notMatchRegex" (λ a. is_set (leaves a).not_match_regex)
    ∷ simple "matchTemplate" (λ a. is_set (leaves a).match_template)
    ∷ simple "isNull" (λ a. is_set (leaves a).is_null)
    ∷ simple "isNotNull" (λ a. is_set (leaves a).is_not_null)
    ∷ simple "isEmpty" (λ a. is_set (leaves a).is_empty)
    ∷ simple "isNotEmpty" (λ a. is_set (leaves a).is_not_empty)
    ∷ simple "isType" (λ a. is_set (leaves a).is_type)
    ∷ simple "lengthEqual" (λ a. is_set (leaves a).length_equal)
    ∷ simple "isSubset" (λ a. is_set (leaves a).is_subset)
    ∷ simple "waitFor" (λ a. is_set (leaves a).wait_for)
    ∷ simple "becomesReady" (λ a. is_set (leaves a).becomes_ready)
    ∷ []

abbrev pub find_in : List Matcher → Assertion → Option Matcher
find_in [] a = none
find_in (m ∷ ms) a = let later = find_in ms a in if matches m a then some m else later

unfoldable pub find : Assertion → Option Matcher
find a = find_in registry a
