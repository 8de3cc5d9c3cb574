-- ===== src/Runner/Gate/Runnable.antt =====
-- internal/runner/tiergate.go: what runs, and what a skip says.
use vigie.Prelude.{
  String, ◌≡◌, ◌≢◌, refl, true, Option, none, some, List, [], ◌∷◌, contains, All, Option-cases, inl,
  inr, ◌⊎◌, ◌↔◌,
}
use vigie.Prelude.Int.{leb_int}
use vigie.Dsl.Assertion.{Assertions}
use vigie.Dsl.Suite.{Test, Suite}
use vigie.Dsl.Capability.{all_tiers, tier_rank}
use vigie.Dsl.Ceiling.{suite_tier, validate_tier_ceiling}
use vigie.Matchers.Tiers.{Finding, all_supported, unsupported, panicked, find_unsupported_matcher}
use vigie.Matchers.Tiers.Gated.{find_unsupported_matcher-ceiling}
use vigie.Matchers.Tiers.Supported.{IsReport, find_unsupported_matcher-IsReport}
use vigie.Runner.Gate.{
  cluster_hint_for_tier, Reason, matcher_not_available, run, skip, matcher_tier_skip,
  integration_feature_skip, or_reason, all_skipped, unrunnable_at,
}

-- The test is skipped at the tier, for some reason.
abbrev pub IsSkipped : String → Test → Type 0
IsSkipped tier test = (why : Reason) × (matcher_tier_skip test.asserts tier ≡ skip why)

finding-skip :
    (asserts : Assertions) (tier : String) (f : Finding)
    → find_unsupported_matcher asserts tier ≡ f
    → IsReport tier f
    → (matcher_tier_skip asserts tier ≡ run)
      ⊎ ((why : Reason) × (matcher_tier_skip asserts tier ≡ skip why))
unfolding matcher_tier_skip
finding-skip asserts tier all_supported e r = inl (rw (e, matcher_tier_skip) refl)
finding-skip asserts tier (unsupported name needed) e r =
    inr (
      matcher_not_available name tier (cluster_hint_for_tier needed),
      rw (e, matcher_tier_skip) refl,
    )
finding-skip asserts tier (panicked name) e r = elim r [ ]

skip-cases :
    (asserts : Assertions) (tier : String)
    → (matcher_tier_skip asserts tier ≡ run)
      ⊎ ((why : Reason) × (matcher_tier_skip asserts tier ≡ skip why))
skip-cases asserts tier =
    finding-skip asserts tier _ refl (find_unsupported_matcher-IsReport asserts tier)

-- The loop ends in a skip exactly when each test is skipped, and there is a test or a reason before.
all_skipped_lem :
    (tests : List Test) (tier : String) (reason : Option Reason)
    → ((r : Reason) × (all_skipped tests tier reason ≡ skip r))
      ↔ All (IsSkipped tier) tests × ((reason ≢ none) ⊎ (tests ≢ []))
unfolding all_skipped
all_skipped_lem [] tier none =
    (λ (r, h). cc, λ (u, h). elim h [ inl k ↦ elim (k refl) [ ] | inr k ↦ elim (k refl) [ ] ])
all_skipped_lem [] tier (some reason) = (λ h. (tt, inl (λ e. cc)), λ h. (reason, refl))
all_skipped_lem (test ∷ tests) tier reason = elim (skip-cases test.asserts tier) [
  | inl e ↦ rw (e, all_skipped) (λ (r, h). cc, λ (u, h). let (r, v) = u.0 in cc)
  | inr (why, e) ↦
      let ih = all_skipped_lem tests tier (some (or_reason reason why)) in
      rw (e, all_skipped)
        (λ h. (((why, refl), (ih.0 h).0), inr (λ k. cc)), λ (u, h). ih.1 (u.1, inl (λ k. cc)))
]

none_skipped :
    (tests : List Test) (tier : String)
    → All (λ t. find_unsupported_matcher t.asserts tier ≡ all_supported) tests
    → all_skipped tests tier none ≡ run
unfolding all_skipped matcher_tier_skip
none_skipped [] tier u = refl
none_skipped (test ∷ tests) tier u = rw (u.0, all_skipped, matcher_tier_skip) refl

-- A suite is unrunnable at a tier exactly when the tier lacks a feature that the suite declares, or it
-- has a test and each of its tests is skipped.
pub unrunnable_at_lem :
    (suite : Suite) (tier : String)
    → ((r : Reason) × (unrunnable_at suite tier ≡ skip r)) ↔ (
        ((r : Reason) × (integration_feature_skip suite tier ≡ some r))
        ⊎ (All (IsSkipped tier) suite.tests × (suite.tests ≢ [])))
unfolding unrunnable_at
unrunnable_at_lem suite tier = elim (Option-cases (integration_feature_skip suite tier)) [
  | inr (r, e) ↦ rw (e, unrunnable_at) (λ h. inl (r, refl), λ h. (r, refl))
  | inl e ↦
      let loop = all_skipped_lem suite.tests tier none in
      rw (e, unrunnable_at)
        (
          λ h.
              let (u, k) = loop.0 h in
              elim k [ inl bad ↦ elim (bad refl) [ ] | inr filled ↦ inr (u, filled) ],
          λ h. elim h [ inl (r, bad) ↦ cc | inr (u, filled) ↦ loop.1 (u, inr filled) ],
        )
]

-- A suite that passes the ceiling check is runnable at a tier of the ladder, at or above the one
-- that it declares, that has the features which the suite declares.
pub unrunnable_at-ceiling :
    (suite : Suite) (tier : String)
    → validate_tier_ceiling suite ≡ none
    → contains tier all_tiers ≡ true
    → leb_int (tier_rank (suite_tier suite)) (tier_rank tier) ≡ true
    → integration_feature_skip suite tier ≡ none
    → unrunnable_at suite tier ≡ run
unfolding unrunnable_at
unrunnable_at-ceiling suite tier h known above features =
    rw (features, unrunnable_at)
      (none_skipped suite.tests tier (find_unsupported_matcher-ceiling suite tier h known above))
