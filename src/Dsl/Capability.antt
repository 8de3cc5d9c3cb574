-- ===== src/Dsl/Capability.antt =====
-- internal/dsl/capability.go: capabilities, the ladder of tiers, and the backends that reach a tier.
-- Capabilities and tiers are texts, as in the source; the map from matcher names to capabilities
-- holds what the `vigie` tags of Assertion declare.
use vigie.Prelude.{
  String, Bool, true, false, ◌||◌, ◌&&◌, Option, none, some, List, [], ◌∷◌, ◌++◌, ◌==◌,
  if◌then◌else◌, contains, ℕ, suc,
}
use vigie.Prelude.Int.{ℤ, pos, negsuc, leb_int}

abbrev pub Capability : Type 0
Capability = String

abbrev pub all_tiers : List String
all_tiers = "template" ∷ "apiserver" ∷ "simulated" ∷ "e2e" ∷ []

-- What each tier adds to the one below it; a key that is missing adds nothing.
unfoldable pub tier_capabilities : String → List Capability
tier_capabilities tier =
    if tier == "template"
    then "renderedManifests" ∷ []
    else if tier == "apiserver"
    then "apiServerAdmission" ∷ "liveReads" ∷ []
    else if tier == "simulated"
    then "reconciliation" ∷ []
    else if tier == "e2e"
    then "runningPods" ∷ "podLogs" ∷ "networkEgress" ∷ []
    else []

-- The loop of TierProvides from one tier on, with what is provided so far. A map that is only read
-- by key is the list of the keys that were set.
unfoldable pub provides_from : String → List String → List Capability → List Capability
unfolding tier_capabilities
provides_from tier [] provided = []
provides_from tier (t ∷ tiers) provided =
    let more = provided ++ tier_capabilities t in
    let rest = provides_from tier tiers more in if t == tier then more else rest

unfoldable pub tier_provides : String → Capability → Bool
unfolding provides_from
tier_provides tier c = contains c (provides_from tier all_tiers [])

abbrev pub covers : (Capability → Bool) → List Capability → Bool
covers provided [] = true
covers provided (need ∷ needs) = provided need && covers provided needs

abbrev pub keep_covering : List Capability → List String → List String
keep_covering needs [] = []
keep_covering needs (tier ∷ tiers) =
    let out = keep_covering needs tiers in
    if covers (tier_provides tier) needs then tier ∷ out else out

unfoldable pub tiers_providing : List Capability → List String
tiers_providing needs = keep_covering needs all_tiers

-- The map backendTiers: the empty text where the key is missing.
unfoldable pub backend_tier : String → String
backend_tier backend =
    if backend == "envtest"
    then "apiserver"
    else if backend == "kind" || backend == "k3d" || backend == "kubeconfig"
    then "e2e"
    else ""

abbrev pub backends : List String
backends = "envtest" ∷ "kind" ∷ "k3d" ∷ "kubeconfig" ∷ []

abbrev pub has_backend_in : List String → String → Bool
has_backend_in [] tier = false
has_backend_in (b ∷ bs) tier = backend_tier b == tier || has_backend_in bs tier

unfoldable pub has_backend_at : String → Bool
unfolding backend_tier
has_backend_at tier = has_backend_in backends tier

abbrev pub keep_runnable : List String → List String
keep_runnable [] = []
keep_runnable (tier ∷ tiers) =
    let out = keep_runnable tiers in
    if tier == "template" || has_backend_at tier then tier ∷ out else out

unfoldable pub runnable_tiers : List String
unfolding has_backend_at
runnable_tiers = keep_runnable all_tiers

-- tierRank: the index in the ladder, or -1.
abbrev pub rank_from : String → List String → ℕ → ℤ
rank_from tier [] i = negsuc 0
rank_from tier (t ∷ tiers) i =
    let rest = rank_from tier tiers (suc i) in if t == tier then pos i else rest

unfoldable pub tier_rank : String → ℤ
tier_rank tier = rank_from tier all_tiers 0

abbrev pub keep_reaching : ℤ → List String → List String
keep_reaching want [] = []
keep_reaching want (b ∷ bs) =
    let out = keep_reaching want bs in
    if leb_int want (tier_rank (backend_tier b)) then b ∷ out else out

unfoldable pub backends_for_tier : String → List String
unfolding tier_rank backend_tier
backends_for_tier tier = if tier == "template" then [] else keep_reaching (tier_rank tier) backends

-- matcherCapabilities: name and needs, in the order of Assertion's fields.
abbrev pub live : List Capability
live = "liveReads" ∷ "reconciliation" ∷ []

abbrev pub rendered : List Capability
rendered = "renderedManifests" ∷ []

abbrev pub matcher_capabilities : List (String × List Capability)
matcher_capabilities =
    ("equal", rendered)
    ∷ ("notEqual", rendered)
    ∷ ("greaterThan", rendered)
    ∷ ("lessThan", rendered)
    ∷ ("gte", rendered)
    ∷ ("lte", rendered)
    ∷ ("contains", rendered)
    ∷ ("notContains", rendered)
    ∷ ("startsWith", rendered)
    ∷ ("endsWith", rendered)
    ∷ ("matchRegex", rendered)
    ∷ ("notMatchRegex", rendered)
    ∷ ("matchTemplate", rendered)
    ∷ ("exists", rendered)
    ∷ ("notExists", rendered)
    ∷ ("isNull", rendered)
    ∷ ("isNotNull", rendered)
    ∷ ("isEmpty", rendered)
    ∷ ("isNotEmpty", rendered)
    ∷ ("isKind", rendered)
    ∷ ("isAPIVersion", rendered)
    ∷ ("hasDocuments", rendered)
    ∷ ("failedTemplate", rendered)
    ∷ ("isType", rendered)
    ∷ ("lengthEqual", rendered)
    ∷ ("isSubset", rendered)
    ∷ ("matchSnapshot", rendered)
    ∷ ("matchSchema", rendered)
    ∷ ("expr", rendered)
    ∷ ("applies", "apiServerAdmission" ∷ [])
    ∷ ("rejected", "apiServerAdmission" ∷ [])
    ∷ ("waitFor", live)
    ∷ ("becomesReady", live)
    ∷ ("http", "runningPods" ∷ "networkEgress" ∷ [])
    ∷ ("lookup", live)
    ∷ ("logsContain", "runningPods" ∷ "podLogs" ∷ [])
    ∷ ("eventEmitted", live)
    ∷ []

abbrev pub find_capabilities : String → List (String × List Capability) → Option (List Capability)
find_capabilities name [] = none
find_capabilities name ((n, caps) ∷ rest) =
    if n == name then some caps else find_capabilities name rest

-- CapabilitiesForMatcher
unfoldable pub capabilities_for_matcher : String → Option (List Capability)
capabilities_for_matcher name = find_capabilities name matcher_capabilities

-- TiersForMatcher: `none` is the panic on an unknown name.
unfoldable pub tiers_for_matcher : String → Option (List String)
unfolding capabilities_for_matcher tiers_providing
tiers_for_matcher name = elim (capabilities_for_matcher name) [
  | some caps ↦ some (tiers_providing caps)
  | none ↦ none
]
