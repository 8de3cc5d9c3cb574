-- ===== src/Matchers/Tiers.antt =====
-- internal/matchers/tiers.go, with the tiers of quantifier.go: the tiers at which an assertion can run.
pub mod Supported
pub mod Gated
pub mod Common
use vigie.Prelude.{
  String, Bool, not, ◌||◌, ℕ, Option, none, some, List, [], ◌∷◌, ◌==◌, if◌then◌else◌, contains,
}
use vigie.Prelude.Int.{ℤ, pos, negsuc, leb_int, eq_int}
use vigie.Dsl.Assertion.{Assertion, Assertions, assertion, nil, cons, all_of, any_of, is_filled}
use vigie.Dsl.Capability.{all_tiers, tiers_for_matcher}
use vigie.Matchers.Registry.{Matcher, simple, all_of_matcher, any_of_matcher, name_of, find}

-- TierInList
abbrev pub tier_in_list : String → List String → Bool
tier_in_list active supported = contains active supported

unfoldable pub intersect_tiers : List String → List String → List String
intersect_tiers [] b = []
intersect_tiers (label ∷ labels) b =
    let out = intersect_tiers labels b in if contains label b then label ∷ out else out

-- SupportedTiersFor and intersectChildTiers; `none` is the panic of TiersForMatcher.
unfoldable mutual
  unfolding intersect_tiers tiers_for_matcher

  pub supported_tiers_for : Assertion → Option (List String)
  supported_tiers_for (assertion n on ls all any l) =
      let of_all = intersect_child_tiers all in
      let of_any = intersect_child_tiers any in
      elim (find (assertion n on ls all any l)) [
        | none ↦ some ("e2e" ∷ [])
        | some (simple name m) ↦ tiers_for_matcher name
        | some all_of_matcher ↦ of_all
        | some any_of_matcher ↦ of_any
      ]

  pub intersect_child_tiers : Assertions → Option (List String)
  intersect_child_tiers nil = some all_tiers
  intersect_child_tiers (cons child rest) = elim (supported_tiers_for child) [
    | none ↦ none
    | some tiers ↦ intersect_rest rest tiers
  ]

  pub intersect_rest : Assertions → List String → Option (List String)
  intersect_rest nil result = some result
  intersect_rest (cons child rest) result = elim (supported_tiers_for child) [
    | none ↦ none
    | some tiers ↦ intersect_rest rest (intersect_tiers result tiers)
  ]

-- The method SupportedTiers of a matcher.
unfoldable pub supported_tiers : Matcher → Assertion → Option (List String)
unfolding supported_tiers_for tiers_for_matcher
supported_tiers (simple name m) a = tiers_for_matcher name
supported_tiers all_of_matcher a = intersect_child_tiers (all_of a)
supported_tiers any_of_matcher a = intersect_child_tiers (any_of a)

-- tierRank of this package: an unknown tier ranks as the template tier.
abbrev pub label_rank : String → ℕ
label_rank tier =
    if tier == "e2e"
    then 3
    else if tier == "simulated"
    then 2
    else if tier == "apiserver"
    then 1
    else 0

-- The loop of strictestTier: bestRank starts at -1, which stands for no rank.
unfoldable pub strictest_from : List String → ℤ → String → String
unfolding leb_int eq_int
strictest_from [] best_rank chosen = chosen
strictest_from (tier ∷ tiers) best_rank chosen =
    let rank = pos (label_rank tier) in
    let better = eq_int best_rank (negsuc 0) || not (leb_int best_rank rank) in
    strictest_from tiers (if better then rank else best_rank) (if better then tier else chosen)

unfoldable pub strictest_tier : List String → String
unfolding strictest_from
strictest_tier supported = strictest_from supported (negsuc 0) ""

-- What FindUnsupportedMatcher returns: nothing, a matcher with the tier it needs, or a panic.
pub data Finding : Type 0 where
  all_supported : Finding
  unsupported : (name needed_tier : String) → Finding
  panicked : (name : String) → Finding

-- findUnsupportedInAssertion behind its two branches for allOf and anyOf.
unfoldable pub check_leaf : Assertion → (active_tier : String) → Finding
unfolding supported_tiers strictest_tier
check_leaf a active_tier = elim (find a) [
  | none ↦ all_supported
  | some m ↦ elim (supported_tiers m a) [
    | none ↦ panicked (name_of m)
    | some supported ↦
        if tier_in_list active_tier supported
        then all_supported
        else unsupported (name_of m) (strictest_tier supported)
  ]
]

abbrev pub first_finding : Finding → Finding → Finding
first_finding all_supported later = later
first_finding (unsupported name needed) later = unsupported name needed
first_finding (panicked name) later = panicked name

unfoldable mutual
  unfolding check_leaf

  pub find_unsupported_in_assertion : Assertion → (active_tier : String) → Finding
  find_unsupported_in_assertion (assertion n on ls all any l) active_tier =
      let in_all = find_unsupported_matcher all active_tier in
      let in_any = find_unsupported_matcher any active_tier in
      if is_filled all
      then in_all
      else if is_filled any
      then in_any
      else check_leaf (assertion n on ls all any l) active_tier

  pub find_unsupported_matcher : Assertions → (active_tier : String) → Finding
  find_unsupported_matcher nil active_tier = all_supported
  find_unsupported_matcher (cons a rest) active_tier =
      first_finding (find_unsupported_in_assertion a active_tier)
        (find_unsupported_matcher rest active_tier)
