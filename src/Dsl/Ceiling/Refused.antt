-- ===== src/Dsl/Ceiling/Refused.antt =====
-- internal/dsl/tier_ceiling.go: what an error of the ceiling check names.
use vigie.Prelude.{
  String, ◌≡◌, refl, ap, ◌∙◌, Bool, true, false, not, ◌||◌, ◌&&◌, Option, none, some, List, [], ◌∷◌,
  ◌==◌, contains, inl, inr, Bool-cases, Option-cases, ==_self, &&-true, arith, ◌⊎◌, subst,
}
use vigie.Dsl.Assertion.{Assertion, Assertions, assertion, nil, cons, Lookup, no_lookup, lookup}
use vigie.Dsl.Capability.{
  Capability, tier_provides, covers, runnable_tiers, matcher_capabilities, find_capabilities,
  capabilities_for_matcher,
}
use vigie.Dsl.Suite.{Test, Suite}
use vigie.Dsl.Ceiling.{
  set_matchers, needs_of, Unmet, or_then, unmet_of, first_unmet_matcher, first_unmet_in,
  first_unmet_nested, lowest_runnable_tier_for, CeilingError, not_runnable, needs_more,
  unmet_in_tests, validate_tier_ceiling, suite_tier,
}
use vigie.Dsl.Ceiling.Checked.{unmet_need-covers}
use vigie.Dsl.Ceiling.Ladder.{lowest_runnable_tier_for_lem, IsLowest}

-- The assertion or a child of it sets the matcher.
abbrev mutual
  pub sets : String → Assertion → Bool
  sets m (assertion n on ls all any l) =
      sets_in m all
      || (sets_in m any
          || (sets_nested m l || contains m (set_matchers (assertion n on ls all any l))))

  pub sets_in : String → Assertions → Bool
  sets_in m nil = false
  sets_in m (cons a rest) = sets m a || sets_in m rest

  pub sets_nested : String → Lookup → Bool
  sets_nested m no_lookup = false
  sets_nested m (lookup q t e) = sets_in m t || sets_in m e

-- What is known of an unmet matcher.
abbrev pub IsUnmet : (Capability → Bool) → Unmet → Type 0
IsUnmet provided (m, needs) = (needs ≡ needs_of m) × (covers provided needs ≡ false)

or_here : (x y : Bool) → x ≡ true → (x || y) ≡ true
or_here x y h = rw h refl

or_there : (x y : Bool) → y ≡ true → (x || y) ≡ true
or_there true y h = refl
or_there false y h = h

some_inv : (u v : Unmet) → some u ≡ some v → (P : Unmet → Type 0) → P u → P v
some_inv u v h P p = let e : u ≡ v = cc in subst P e p

or_then-some : (a b : Option Unmet) (u : Unmet) → or_then a b ≡ some u → (a ≡ some u) ⊎ (b ≡ some u)
or_then-some none b u h = inr h
or_then-some (some v) b u h = inl h

module _ (provided : Capability → Bool) where
  unmet_of-some :
      (ms : List String) (u : Unmet)
      → unmet_of provided ms ≡ some u
      → IsUnmet provided u × (contains u.0 ms ≡ true)
  unfolding unmet_of
  unmet_of-some [] u h = cc
  unmet_of-some (m ∷ ms) u h = elim (Bool-cases (covers provided (needs_of m))) [
    | inl e ↦
        let met = unmet_need-covers provided (needs_of m) ∙ ap not e in
        let (i, c) = unmet_of-some ms u (rw met at h) in (i, ground arith)
    | inr e ↦
        let unmet = unmet_need-covers provided (needs_of m) ∙ ap not e in
        let same : some (m, needs_of m) ≡ some u = rw unmet at h in
        some_inv (m, needs_of m) u same
          (λ v. IsUnmet provided v × ((m == v.0 || contains v.0 ms) ≡ true))
          ((refl, e), rw (==_self m) refl)
  ]

  mutual
    unfolding first_unmet_matcher

    first_unmet_matcher-some :
        (a : Assertion) (u : Unmet)
        → first_unmet_matcher provided a ≡ some u
        → IsUnmet provided u × (sets u.0 a ≡ true)
    first_unmet_matcher-some (assertion n on ls all any l) u h =
        elim (or_then-some (first_unmet_in provided all) _ u h) [
          | inl e ↦ let (i, c) = first_unmet_in-some all u e in (i, or_here (sets_in u.0 all) _ c)
          | inr r1 ↦ elim (or_then-some (first_unmet_in provided any) _ u r1) [
            | inl e ↦
                let (i, c) = first_unmet_in-some any u e in
                (i, or_there (sets_in u.0 all) _ (or_here (sets_in u.0 any) _ c))
            | inr r2 ↦ elim (or_then-some (first_unmet_nested provided l) _ u r2) [
              | inl e ↦
                  let (i, c) = first_unmet_nested-some l u e in
                  (
                    i,
                    or_there (sets_in u.0 all) _
                        (or_there (sets_in u.0 any) _ (or_here (sets_nested u.0 l) _ c)),
                  )
              | inr e ↦
                  let (i, c) = unmet_of-some (set_matchers (assertion n on ls all any l)) u e in
                  (
                    i,
                    or_there (sets_in u.0 all) _
                        (or_there (sets_in u.0 any) _ (or_there (sets_nested u.0 l) _ c)),
                  )
            ]
          ]
        ]

    first_unmet_in-some :
        (list : Assertions) (u : Unmet)
        → first_unmet_in provided list ≡ some u
        → IsUnmet provided u × (sets_in u.0 list ≡ true)
    first_unmet_in-some nil u h = cc
    first_unmet_in-some (cons a rest) u h =
        elim (or_then-some (first_unmet_matcher provided a) _ u h) [
          | inl e ↦ let (i, c) = first_unmet_matcher-some a u e in (i, or_here (sets u.0 a) _ c)
          | inr e ↦ let (i, c) = first_unmet_in-some rest u e in (i, or_there (sets u.0 a) _ c)
        ]

    first_unmet_nested-some :
        (l : Lookup) (u : Unmet)
        → first_unmet_nested provided l ≡ some u
        → IsUnmet provided u × (sets_nested u.0 l ≡ true)
    first_unmet_nested-some no_lookup u h = cc
    first_unmet_nested-some (lookup q t e) u h =
        elim (or_then-some (first_unmet_in provided t) _ u h) [
          | inl k ↦ let (i, c) = first_unmet_in-some t u k in (i, or_here (sets_in u.0 t) _ c)
          | inr k ↦ let (i, c) = first_unmet_in-some e u k in (i, or_there (sets_in u.0 t) _ c)
        ]

-- The most capable tier covers all rows of a table of needs.
all_covered : List (String × List Capability) → Bool
all_covered [] = true
all_covered ((name, caps) ∷ rest) = covers (tier_provides "e2e") caps && all_covered rest

covered_in :
    (name : String) (table : List (String × List Capability)) (caps : List Capability)
    → all_covered table ≡ true
    → find_capabilities name table ≡ some caps
    → covers (tier_provides "e2e") caps ≡ true
unfolding all_covered
covered_in name [] caps h e = cc
covered_in name ((n, c) ∷ rest) caps h e =
    let (first, later) = &&-true (covers (tier_provides "e2e") c) (all_covered rest) h in
    elim (Bool-cases (n == name)) [
      | inl same ↦
          let found : some c ≡ some caps = rw same at e in
          let equal : c ≡ caps = cc in rw (← equal) first
      | inr other ↦ covered_in name rest caps later (rw other at e)
    ]

matcher_capabilities_covered : all_covered matcher_capabilities ≡ true
unfolding all_covered tier_provides
matcher_capabilities_covered = refl

-- The most capable tier provides what any matcher needs.
pub needs_of-covered : (name : String) → covers (tier_provides "e2e") (needs_of name) ≡ true
unfolding needs_of capabilities_for_matcher
needs_of-covered name = elim (Option-cases (find_capabilities name matcher_capabilities)) [
  | inl e ↦ rw (e, needs_of, capabilities_for_matcher) refl
  | inr (caps, e) ↦
      rw (e, needs_of, capabilities_for_matcher)
        (covered_in name matcher_capabilities caps matcher_capabilities_covered e)
]

-- A test of that name has an assertion that sets the matcher.
abbrev pub is_set_in : (it name : String) → List Test → Bool
is_set_in it name [] = false
is_set_in it name (t ∷ tests) = t.it == it && sets_in name t.asserts || is_set_in it name tests

-- What an error says, and what it is right about.
abbrev pub IsJustified : Suite → CeilingError → Type 0
IsJustified suite (not_runnable tier) =
    (tier ≡ suite_tier suite) × (contains tier runnable_tiers ≡ false)
IsJustified suite (needs_more it name needs tier suggested) =
    (tier ≡ suite_tier suite)
    × (is_set_in it name suite.tests ≡ true)
    × (needs ≡ needs_of name)
    × (covers (tier_provides tier) needs ≡ false)
    × (contains suggested runnable_tiers ≡ true)
    × (covers (tier_provides suggested) needs ≡ true)
    × IsLowest suggested needs

-- What the loop over some of the tests is right about.
IsFound : String → List Test → CeilingError → Type 0
IsFound tier tests (not_runnable t) = ⊥
IsFound tier tests (needs_more it name needs tier' suggested) =
    (tier' ≡ tier)
    × (is_set_in it name tests ≡ true)
    × (needs ≡ needs_of name)
    × (covers (tier_provides tier) needs ≡ false)
    × (suggested ≡ lowest_runnable_tier_for needs)

IsFound-later :
    (tier : String) (t : Test) (tests : List Test) (e : CeilingError)
    → IsFound tier tests e
    → IsFound tier (t ∷ tests) e
unfolding IsFound
IsFound-later tier t tests (not_runnable u) h = h
IsFound-later tier t tests (needs_more it name needs u s) (h1, h2, h3, h4, h5) =
    (h1, or_there (t.it == it && sets_in name t.asserts) _ h2, h3, h4, h5)

unmet_in_tests-some :
    (tier : String) (tests : List Test) (e : CeilingError)
    → unmet_in_tests tier tests ≡ some e
    → IsFound tier tests e
unfolding unmet_in_tests IsFound
unmet_in_tests-some tier [] e h = cc
unmet_in_tests-some tier (t ∷ tests) e h =
    elim (Option-cases (first_unmet_in (tier_provides tier) t.asserts)) [
      | inl k ↦
          IsFound-later tier t tests e
            (unmet_in_tests-some tier tests e (rw (k, unmet_in_tests) at h))
      | inr (u, k) ↦
          let ((i1, i2), c) = first_unmet_in-some (tier_provides tier) t.asserts u k in
          let same : some (needs_more t.it u.0 u.1 tier (lowest_runnable_tier_for u.1)) ≡ some e =
            rw (k, unmet_in_tests) at h in
          let equal : needs_more t.it u.0 u.1 tier (lowest_runnable_tier_for u.1) ≡ e = cc in
          subst (IsFound tier (t ∷ tests)) equal (
            refl,
            or_here (t.it == t.it && sets_in u.0 t.asserts) _ (rw (==_self t.it) c),
            i1,
            i2,
            refl,
          )
    ]

justified :
    (suite : Suite) (e : CeilingError)
    → IsFound (suite_tier suite) suite.tests e
    → IsJustified suite e
unfolding IsFound
justified suite (not_runnable tier) h = elim h [ ]
justified suite (needs_more it name needs tier suggested) (h1, h2, h3, h4, h5) =
    let (l1, l2, l3) = lowest_runnable_tier_for_lem needs (rw h3 (needs_of-covered name)) in
    (h1, h2, h3, rw h1 h4, rw h5 l1, rw h5 l2, rw h5 l3)

-- An error of the check is justified: either the tier that it names is the suite's and cannot be run,
-- or a test of the name sets the matcher, the needs are the matcher's and the suite's tier does not
-- provide them, while the suggested tier can be run, provides them, and is the lowest that does.
pub validate_tier_ceiling-IsJustified :
    (suite : Suite) (e : CeilingError) → validate_tier_ceiling suite ≡ some e → IsJustified suite e
unfolding validate_tier_ceiling
validate_tier_ceiling-IsJustified suite e h =
    elim (Bool-cases (contains (suite_tier suite) runnable_tiers)) [
      | inl k ↦ justified suite e (unmet_in_tests-some (suite_tier suite) suite.tests e (rw k at h))
      | inr k ↦
          let same : some (not_runnable (suite_tier suite)) ≡ some e = rw k at h in
          let equal : not_runnable (suite_tier suite) ≡ e = cc in
          subst (IsJustified suite) equal (refl, k)
    ]
