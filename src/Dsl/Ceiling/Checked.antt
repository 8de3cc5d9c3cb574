-- ===== src/Dsl/Ceiling/Checked.antt =====
-- internal/dsl/tier_ceiling.go: what a suite contains that passes the check, and what an error names.
use vigie.Prelude.{
  String, ◌≡◌, refl, ap, ◌∙◌, Bool, true, not, Option, none, some, List, [], ◌∷◌, contains, inl,
  inr, Bool-cases, Option-cases, arith, ◌↔◌, All,
}
use vigie.Dsl.Assertion.{Assertion, Assertions, assertion, nil, cons, Lookup, no_lookup, lookup}
use vigie.Dsl.Capability.{Capability, tier_provides, covers, runnable_tiers}
use vigie.Dsl.Suite.{Test, Suite}
use vigie.Dsl.Ceiling.{
  set_matchers, needs_of, Unmet, or_then, unmet_need, unmet_of, first_unmet_matcher, first_unmet_in,
  first_unmet_nested, unmet_in_tests, validate_tier_ceiling, suite_tier,
}

module _ (provided : Capability → Bool) where
  -- The needs of all matchers that the assertion sets, in its children too, are provided.
  abbrev mutual
    pub Allowed : Assertion → Type 0
    Allowed (assertion n on ls all any l) =
        AllowedIn all
        × AllowedIn any
        × AllowedNested l
        × All (λ m. covers provided (needs_of m) ≡ true)
            (set_matchers (assertion n on ls all any l))

    pub AllowedIn : Assertions → Type 0
    AllowedIn nil = Unit
    AllowedIn (cons a rest) = Allowed a × AllowedIn rest

    pub AllowedNested : Lookup → Type 0
    AllowedNested no_lookup = Unit
    AllowedNested (lookup q t e) = AllowedIn t × AllowedIn e

  pub unmet_need-covers :
      (needs : List Capability) → unmet_need provided needs ≡ not (covers provided needs)
  unmet_need-covers [] = refl
  unmet_need-covers (need ∷ needs) = ground (arith, unmet_need-covers needs)

  unmet_of-none :
      (ms : List String)
      → (unmet_of provided ms ≡ none) ↔ All (λ m. covers provided (needs_of m) ≡ true) ms
  unfolding unmet_of
  unmet_of-none [] = (λ h. tt, λ h. refl)
  unmet_of-none (m ∷ ms) = elim (Bool-cases (covers provided (needs_of m))) [
    | inl e ↦
        let met = unmet_need-covers (needs_of m) ∙ ap not e in
        rw (met, e) (λ h. (refl, (unmet_of-none ms).0 h), λ h. (unmet_of-none ms).1 h.1)
    | inr e ↦
        let unmet = unmet_need-covers (needs_of m) ∙ ap not e in
        rw (unmet, e) (λ h. cc, λ h. let bad = h.0 in cc)
  ]

  or_then-none : (a b : Option Unmet) → (or_then a b ≡ none) ↔ (a ≡ none) × (b ≡ none)
  or_then-none none b = (λ h. (refl, h), λ h. h.1)
  or_then-none (some u) b = (λ h. cc, λ h. let bad = h.0 in cc)

  mutual
    unfolding first_unmet_matcher

    first_unmet_matcher-none : (a : Assertion) → (first_unmet_matcher provided a ≡ none) ↔ Allowed a
    first_unmet_matcher-none (assertion n on ls all any l) = (
      λ h.
          let (h1, r1) = (or_then-none (first_unmet_in provided all) _).0 h in
          let (h2, r2) = (or_then-none (first_unmet_in provided any) _).0 r1 in
          let (h3, h4) = (or_then-none (first_unmet_nested provided l) _).0 r2 in
          (
            (first_unmet_in-none all).0 h1,
            (first_unmet_in-none any).0 h2,
            (first_unmet_nested-none l).0 h3,
            (unmet_of-none (set_matchers (assertion n on ls all any l))).0 h4,
          ),
      λ (h1, h2, h3, h4).
          rw
            (
              (first_unmet_in-none all).1 h1,
              (first_unmet_in-none any).1 h2,
              (first_unmet_nested-none l).1 h3,
            )
            ((unmet_of-none (set_matchers (assertion n on ls all any l))).1 h4),
    )

    first_unmet_in-none :
        (list : Assertions) → (first_unmet_in provided list ≡ none) ↔ AllowedIn list
    first_unmet_in-none nil = (λ h. tt, λ h. refl)
    first_unmet_in-none (cons a rest) = (
      λ h.
          let (h1, h2) = (or_then-none (first_unmet_matcher provided a) _).0 h in
          ((first_unmet_matcher-none a).0 h1, (first_unmet_in-none rest).0 h2),
      λ (h1, h2). rw ((first_unmet_matcher-none a).1 h1) ((first_unmet_in-none rest).1 h2),
    )

    first_unmet_nested-none :
        (l : Lookup) → (first_unmet_nested provided l ≡ none) ↔ AllowedNested l
    first_unmet_nested-none no_lookup = (λ h. tt, λ h. refl)
    first_unmet_nested-none (lookup q t e) = (
      λ h.
          let (h1, h2) = (or_then-none (first_unmet_in provided t) _).0 h in
          ((first_unmet_in-none t).0 h1, (first_unmet_in-none e).0 h2),
      λ (h1, h2). rw ((first_unmet_in-none t).1 h1) ((first_unmet_in-none e).1 h2),
    )

tests_checked :
    (tier : String) (tests : List Test)
    → (unmet_in_tests tier tests ≡ none) ↔ All (λ t. AllowedIn (tier_provides tier) t.asserts) tests
unfolding unmet_in_tests
tests_checked tier [] = (λ h. tt, λ h. refl)
tests_checked tier (t ∷ tests) =
    elim (Option-cases (first_unmet_in (tier_provides tier) t.asserts)) [
      | inl e ↦
          rw (e, unmet_in_tests)
            (
              λ h. (
                (first_unmet_in-none (tier_provides tier) t.asserts).0 e,
                (tests_checked tier tests).0 h,
              ),
              λ h. (tests_checked tier tests).1 h.1,
            )
      | inr (u, e) ↦
          rw (e, unmet_in_tests)
            (
              λ h. cc,
              λ h.
                  let none_unmet = (first_unmet_in-none (tier_provides tier) t.asserts).1 h.0 in cc,
            )
    ]

-- A suite passes the check exactly when its tier is one that vigie can run and provides the needs of
-- all matchers that its tests set, at every depth of allOf, anyOf and lookup.
pub validate_tier_ceiling_lem :
    (suite : Suite)
    → (validate_tier_ceiling suite ≡ none)
      ↔ (contains (suite_tier suite) runnable_tiers ≡ true)
        × All (λ t. AllowedIn (tier_provides (suite_tier suite)) t.asserts) suite.tests
unfolding validate_tier_ceiling
validate_tier_ceiling_lem suite = elim (Bool-cases (contains (suite_tier suite) runnable_tiers)) [
  | inl e ↦
      let tests = tests_checked (suite_tier suite) suite.tests in
      rw e (λ h. (refl, tests.0 h), λ h. tests.1 h.1)
  | inr e ↦ rw e (λ h. cc, λ h. let bad = h.0 in cc)
]
