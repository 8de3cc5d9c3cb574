-- ===== src/Matchers/Tiers/Gated.antt =====
-- internal/matchers/tiers.go: the gate never stops what the ceiling of internal/dsl admits.
use vigie.Prelude.{
  String, ◌≡◌, refl, ◌∙◌, subst, Bool, true, false, Option, none, some, List, [], ◌∷◌, ◌==◌,
  contains, All, All-map, Bool-cases, Option-cases, inl, inr, ==→≡,
}
use vigie.Prelude.Int.{leb_int}
use vigie.Dsl.Assertion.{
  Assertion, Assertions, assertion, nil, cons, Lookup, no_lookup, lookup, is_filled, is_set, all_of,
  any_of,
}
use vigie.Dsl.Capability.{
  Capability, all_tiers, covers, tier_provides, tier_rank, tiers_providing,
  capabilities_for_matcher, tiers_for_matcher,
}
use vigie.Dsl.Ceiling.{needs_of, set_matchers, suite_tier, validate_tier_ceiling}
use vigie.Dsl.Suite.{Suite}
use vigie.Dsl.Ceiling.Ladder.{tiers_providing_lem, tier_provides-climb, covers_mono}
use vigie.Dsl.Ceiling.Checked.{Allowed, AllowedIn, AllowedNested, validate_tier_ceiling_lem}
use vigie.Matchers.Registry.{Matcher, simple, all_of_matcher, any_of_matcher, find}
use vigie.Matchers.Registry.Declared.{find-Claims}
use vigie.Matchers.Tiers.{
  supported_tiers, all_supported, check_leaf, find_unsupported_in_assertion,
  find_unsupported_matcher,
}

All-contains :
    (P : String → Type 0) (x : String) (xs : List String) → All P xs → contains x xs ≡ true → P x
All-contains P x [] u h = cc
All-contains P x (y ∷ ys) u h = elim (Bool-cases (y == x)) [
  | inl e ↦ subst P (==→≡ y x e) u.0
  | inr e ↦ All-contains P x ys u.1 (rw e at h)
]

-- The tiers of a matcher whose field declares capabilities.
pub tiers_for_matcher_lem :
    (name : String)
    → is_set (capabilities_for_matcher name) ≡ true
    → tiers_for_matcher name ≡ some (tiers_providing (needs_of name))
unfolding tiers_for_matcher needs_of
tiers_for_matcher_lem name h = elim (Option-cases (capabilities_for_matcher name)) [
  | inl e ↦ let bad : false ≡ true = rw e at h in cc
  | inr (caps, e) ↦ rw (e, needs_of, tiers_for_matcher) refl
]

module _ (active : String) (known : contains active all_tiers ≡ true) where
  leaf_runs :
      (a : Assertion)
      → is_filled (all_of a) ≡ false
      → is_filled (any_of a) ≡ false
      → All (λ m. covers (tier_provides active) (needs_of m) ≡ true) (set_matchers a)
      → (found : Option Matcher) → find a ≡ found
      → check_leaf a active ≡ all_supported
  unfolding check_leaf supported_tiers
  leaf_runs a h1 h2 u none e = rw (e, check_leaf) refl
  leaf_runs a h1 h2 u (some (simple name m)) e =
      let (here, declared) = find-Claims a (simple name m) e in
      let covered =
        All-contains (λ m. covers (tier_provides active) (needs_of m) ≡ true) name (set_matchers a)
          u here in
      let (_, member) = tiers_providing_lem (needs_of name) in
      let runs : contains active (tiers_providing (needs_of name)) ≡ true =
        member active ∙ rw (known, covered) refl in
      rw (e, check_leaf, tiers_for_matcher_lem name declared, runs) refl
  leaf_runs a h1 h2 u (some all_of_matcher) e = let claims = find-Claims a all_of_matcher e in cc
  leaf_runs a h1 h2 u (some any_of_matcher) e = let claims = find-Claims a any_of_matcher e in cc

  mutual
    unfolding find_unsupported_in_assertion

    in_assertion :
        (a : Assertion)
        → Allowed (tier_provides active) a
        → find_unsupported_in_assertion a active ≡ all_supported
    in_assertion (assertion n on ls all any l) (u1, u2, u3, u4) =
        elim (Bool-cases (is_filled all)) [
          | inl e ↦ rw e (in_list all u1)
          | inr e1 ↦ elim (Bool-cases (is_filled any)) [
            | inl e ↦ rw (e1, e) (in_list any u2)
            | inr e2 ↦ rw (e1, e2) (leaf_runs (assertion n on ls all any l) e1 e2 u4 _ refl)
          ]
        ]

    in_list :
        (list : Assertions)
        → AllowedIn (tier_provides active) list
        → find_unsupported_matcher list active ≡ all_supported
    in_list nil u = refl
    in_list (cons a rest) (u1, u2) = rw (in_assertion a u1) (in_list rest u2)

module _ (p q : Capability → Bool) (more : (c : Capability) → p c ≡ true → q c ≡ true) where
  mutual
    Allowed-mono : (a : Assertion) → Allowed p a → Allowed q a
    Allowed-mono (assertion n on ls all any l) (u1, u2, u3, u4) = (
      AllowedIn-mono all u1,
      AllowedIn-mono any u2,
      AllowedNested-mono l u3,
      All-map _ _ (set_matchers (assertion n on ls all any l))
          (λ m. covers_mono p q (needs_of m) more) u4,
    )

    AllowedIn-mono : (list : Assertions) → AllowedIn p list → AllowedIn q list
    AllowedIn-mono nil u = tt
    AllowedIn-mono (cons a rest) (u1, u2) = (Allowed-mono a u1, AllowedIn-mono rest u2)

    AllowedNested-mono : (l : Lookup) → AllowedNested p l → AllowedNested q l
    AllowedNested-mono no_lookup u = tt
    AllowedNested-mono (lookup k t e) (u1, u2) = (AllowedIn-mono t u1, AllowedIn-mono e u2)

-- In a suite that passes the ceiling check, the gate finds no unsupported matcher in any test, and does
-- not panic, at the tier that the suite declares and at each tier above it.
pub find_unsupported_matcher-ceiling :
    (suite : Suite) (active : String)
    → validate_tier_ceiling suite ≡ none
    → contains active all_tiers ≡ true
    → leb_int (tier_rank (suite_tier suite)) (tier_rank active) ≡ true
    → All (λ t. find_unsupported_matcher t.asserts active ≡ all_supported) suite.tests
find_unsupported_matcher-ceiling suite active h known above =
    let (_, allowed) = (validate_tier_ceiling_lem suite).0 h in
    let more = λ (c : Capability). tier_provides-climb (suite_tier suite) active c above in
    All-map _ _ suite.tests
      (λ t u.
        in_list active known t.asserts (
          AllowedIn-mono (tier_provides (suite_tier suite)) (tier_provides active) more t.asserts
            u))
      allowed
