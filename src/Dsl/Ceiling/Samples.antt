-- ===== src/Dsl/Ceiling/Samples.antt =====
-- internal/dsl/tier_ceiling.go: suites that pass the check and that fail it.
use vigie.Prelude.{String, ◌≡◌, refl, true, false, none, some, [], ◌∷◌, contains, ◌↔◌, All}
use vigie.Prelude.Int.{leb_int}
use vigie.Value.{null, end}
use vigie.Dsl.Assertion.{Assertion, Assertions, Leaves, assertion, nil, cons, no_lookup, no_leaves}
use vigie.Dsl.Capability.{tier_provides, covers, tier_rank, runnable_tiers}
use vigie.Dsl.Suite.{Test, Suite}
use vigie.Dsl.Ceiling.{set_matchers, needs_more, validate_tier_ceiling, suite_tier}
use vigie.Dsl.Ceiling.Ladder.{tier_provides-climb}
use vigie.Dsl.Ceiling.Refused.{IsJustified, validate_tier_ceiling-IsJustified}
use vigie.Dsl.Ceiling.Checked.{AllowedIn, validate_tier_ceiling_lem}

abbrev pub leaf : Leaves → Assertion
leaf ls = assertion false none ls nil nil no_lookup

abbrev pub exists_name : Assertion
exists_name = leaf (record no_leaves { exists = some (record { path = "metadata.name" }) })

abbrev pub waits : Assertion
waits = leaf (record no_leaves {
  wait_for = some (record {
    kind = "Pod";
    name = "web";
    namespace = "";
    label_selector = "";
    condition = "Ready";
    timeout = "";
  });
})

-- One of the two, inside allOf.
abbrev pub both : Assertion
both = assertion false none no_leaves (cons exists_name (cons waits nil)) nil no_lookup

abbrev pub test_of : Assertions → Test
test_of asserts = record {
  it = "starts";
  skip = null;
  inputs = none;
  matrix = none;
  cases = [];
  for_each = false;
  call = "";
  args = end;
  output_as = "";
  target = none;
  asserts = asserts;
  setup = [];
  teardown = [];
}

abbrev pub suite_of : String → Assertions → Suite
suite_of tier asserts = record {
  schema = "";
  suite_name = "web";
  version = "";
  tier = tier;
  templates = [];
  helpers = [];
  chart = none;
  defaults = none;
  dependencies = [];
  before_all = [];
  after_all = [];
  tests = test_of asserts ∷ [];
}

validate-rendered : validate_tier_ceiling (suite_of "" (cons exists_name nil)) ≡ none
unfolding validate_tier_ceiling set_matchers
validate-rendered = refl

validate-both :
    validate_tier_ceiling (suite_of "" (cons both nil))
    ≡ some (needs_more "starts" "waitFor" ("liveReads" ∷ "reconciliation" ∷ []) "template" "e2e")
unfolding validate_tier_ceiling set_matchers
validate-both = refl

validate_tier_ceiling_lem_example :
    (validate_tier_ceiling (suite_of "e2e" (cons both nil)) ≡ none)
    ↔ (contains (suite_tier (suite_of "e2e" (cons both nil))) runnable_tiers ≡ true)
      × All
          (λ t. AllowedIn (tier_provides (suite_tier (suite_of "e2e" (cons both nil)))) t.asserts)
          (test_of (cons both nil) ∷ [])
validate_tier_ceiling_lem_example = validate_tier_ceiling_lem (suite_of "e2e" (cons both nil))

e2e-covers : covers (tier_provides "e2e") ("reconciliation" ∷ []) ≡ true
unfolding tier_provides
e2e-covers = refl

reaches : leb_int (tier_rank "apiserver") (tier_rank "e2e") ≡ true
unfolding leb_int tier_rank
reaches = refl

reads : tier_provides "apiserver" "liveReads" ≡ true
unfolding tier_provides
reads = refl

tier_provides-climb_example : tier_provides "e2e" "liveReads" ≡ true
tier_provides-climb_example = tier_provides-climb "apiserver" "e2e" "liveReads" reaches reads

validate_tier_ceiling-IsJustified_example :
    IsJustified
      (suite_of "" (cons both nil))
      (needs_more "starts" "waitFor" ("liveReads" ∷ "reconciliation" ∷ []) "template" "e2e")
validate_tier_ceiling-IsJustified_example =
    validate_tier_ceiling-IsJustified (suite_of "" (cons both nil)) _ validate-both
