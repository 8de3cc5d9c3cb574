-- ===== src/Matchers/Tiers/Supported.antt =====
-- internal/matchers/tiers.go: what the gate reports, and the backends that run what it reports.
use vigie.Prelude.{
  String, ◌≡◌, refl, sym, ◌∙◌, subst, Bool, true, false, ◌&&◌, Option, none, some, List, [], ◌∷◌,
  ◌==◌, if◌then◌else◌, contains, Bool-cases, inl, inr, arith, ==→≡,
}
use vigie.Prelude.Int.{leb_int}
use vigie.Dsl.Assertion.{Assertion, Assertions, assertion, nil, cons, is_filled, all_of, any_of}
use vigie.Dsl.Capability.{
  Capability, all_tiers, covers, tier_provides, tier_rank, tiers_providing, tiers_for_matcher,
  backend_tier, backends, backends_for_tier, keep_reaching,
}
use vigie.Dsl.Ceiling.{needs_of}
use vigie.Dsl.Ceiling.Ladder.{
  tiers_providing_lem, tier_provides-climb, covers_mono, TierCase, tier-case, is_template,
  is_apiserver, is_simulated, is_e2e, is_unknown,
}
use vigie.Dsl.Ceiling.Refused.{needs_of-covered}
use vigie.Matchers.Registry.{Matcher, simple, all_of_matcher, any_of_matcher, find}
use vigie.Matchers.Registry.Declared.{find-Claims}
use vigie.Matchers.Tiers.{
  supported_tiers, Finding, all_supported, unsupported, panicked, check_leaf, first_finding,
  find_unsupported_in_assertion, find_unsupported_matcher, strictest_tier,
}
use vigie.Matchers.Tiers.Gated.{tiers_for_matcher_lem}

abbrev ladder_of : (b1 b2 b3 : Bool) → List String
ladder_of b1 b2 b3 =
    let l4 = "e2e" ∷ [] in
    let l3 = (if b3 then "simulated" ∷ l4 else l4) in
    let l2 = (if b2 then "apiserver" ∷ l3 else l3) in if b1 then "template" ∷ l2 else l2

strictest_in :
    (b1 b2 b3 : Bool) → contains (strictest_tier (ladder_of b1 b2 b3)) (ladder_of b1 b2 b3) ≡ true
unfolding strictest_tier
strictest_in true true true = refl
strictest_in true true false = refl
strictest_in true false true = refl
strictest_in true false false = refl
strictest_in false true true = refl
strictest_in false true false = refl
strictest_in false false true = refl
strictest_in false false false = refl

-- The strictest tier of a matcher's tiers is one of them.
strictest_tier-supported :
    (needs : List Capability)
    → covers (tier_provides "e2e") needs ≡ true
    → contains (strictest_tier (tiers_providing needs)) (tiers_providing needs) ≡ true
unfolding strictest_tier tiers_providing
strictest_tier-supported needs h =
    rw (h, tiers_providing)
      (strictest_in (covers (tier_provides "template") needs)
        (covers (tier_provides "apiserver") needs) (covers (tier_provides "simulated") needs))

-- The tier of each backend that is listed for a tier is at or above that tier.
reaching :
    (want : String) (b : String) (bs : List String)
    → contains b (keep_reaching (tier_rank want) bs) ≡ true
    → leb_int (tier_rank want) (tier_rank (backend_tier b)) ≡ true
reaching want b [] h = cc
reaching want b (k ∷ bs) h =
    elim (Bool-cases (leb_int (tier_rank want) (tier_rank (backend_tier k)))) [
      | inl e ↦ elim (Bool-cases (k == b)) [
        | inl same ↦
            subst (λ x. leb_int (tier_rank want) (tier_rank (backend_tier x)) ≡ true)
              (==→≡ k b same) e
        | inr other ↦ reaching want b bs (rw (e, other) at h)
      ]
      | inr e ↦ reaching want b bs (rw e at h)
    ]

pub backends_for_tier-reach :
    (tier b : String)
    → contains b (backends_for_tier tier) ≡ true
    → leb_int (tier_rank tier) (tier_rank (backend_tier b)) ≡ true
unfolding backends_for_tier
backends_for_tier-reach tier b h = elim (Bool-cases (tier == "template")) [
  | inl e ↦ let bad : false ≡ true = rw e at h in cc
  | inr e ↦ reaching tier b backends (rw e at h)
]

-- What a report names is right about: the matcher does not run at the active tier, the needed tier is
-- one at which it runs, and so is the tier of each backend that is listed for the needed tier.
abbrev pub IsReport : (active : String) → Finding → Type 0
IsReport active all_supported = Unit
IsReport active (panicked name) = ⊥
IsReport active (unsupported name needed) =
    (tiers : List String) × (tiers_for_matcher name ≡ some tiers)
    × (contains active tiers ≡ false)
    × (contains needed tiers ≡ true)
    × ((b : String)
        → contains b (backends_for_tier needed) ≡ true
        → contains (backend_tier b) tiers ≡ true)

and_left : (x y : Bool) → (x && y) ≡ true → x ≡ true
and_left true y h = refl
and_left false y h = h

and_right : (x y : Bool) → (x && y) ≡ true → y ≡ true
and_right true y h = h
and_right false y h = cc

known_above :
    {t u : String}
    → TierCase t
    → TierCase u
    → contains t all_tiers ≡ true
    → leb_int (tier_rank t) (tier_rank u) ≡ true
    → contains u all_tiers ≡ true
unfolding tier_rank leb_int
known_above ct is_template h le = refl
known_above ct is_apiserver h le = refl
known_above ct is_simulated h le = refl
known_above ct is_e2e h le = refl
known_above is_template (is_unknown n1 n2 n3 n4) h le = ground arith
known_above is_apiserver (is_unknown n1 n2 n3 n4) h le = ground arith
known_above is_simulated (is_unknown n1 n2 n3 n4) h le = ground arith
known_above is_e2e (is_unknown n1 n2 n3 n4) h le = ground arith
known_above (is_unknown m1 m2 m3 m4) (is_unknown n1 n2 n3 n4) h le = ground arith

climbed :
    (needs : List Capability) (t u : String)
    → leb_int (tier_rank t) (tier_rank u) ≡ true
    → contains t (tiers_providing needs) ≡ true
    → contains u (tiers_providing needs) ≡ true
climbed needs t u le h =
    let (_, member) = tiers_providing_lem needs in
    let both : (contains t all_tiers && covers (tier_provides t) needs) ≡ true =
      sym (member t) ∙ h in
    let known = and_left (contains t all_tiers) (covers (tier_provides t) needs) both in
    let covered = and_right (contains t all_tiers) (covers (tier_provides t) needs) both in
    let known' = known_above (tier-case t) (tier-case u) known le in
    member u
    ∙ rw
        (
          known',
          covers_mono (tier_provides t) (tier_provides u) needs (λ c. tier_provides-climb t u c le)
              covered,
        )
        refl

module _ (active : String) where
  leaf-IsReport :
      (a : Assertion) (found : Option Matcher)
      → is_filled (all_of a) ≡ false
      → is_filled (any_of a) ≡ false
      → find a ≡ found
      → IsReport active (check_leaf a active)
  unfolding check_leaf supported_tiers
  leaf-IsReport a none h1 h2 e = rw (e, check_leaf) tt
  leaf-IsReport a (some (simple name m)) h1 h2 e =
      let (_, declared) = find-Claims a (simple name m) e in
      let tiers = tiers_providing (needs_of name) in
      let is_tiers = tiers_for_matcher_lem name declared in
      elim (Bool-cases (contains active tiers)) [
        | inl runs ↦ rw (e, check_leaf, is_tiers, runs) tt
        | inr stopped ↦
            let lowest = strictest_tier-supported (needs_of name) (needs_of-covered name) in
            rw (e, check_leaf, is_tiers, stopped)
              (
                tiers,
                is_tiers,
                stopped,
                lowest,
                λ b listed.
                    climbed (needs_of name) (strictest_tier tiers) (backend_tier b)
                      (backends_for_tier-reach (strictest_tier tiers) b listed) lowest,
              )
      ]
  leaf-IsReport a (some all_of_matcher) h1 h2 e = let claims = find-Claims a all_of_matcher e in cc
  leaf-IsReport a (some any_of_matcher) h1 h2 e = let claims = find-Claims a any_of_matcher e in cc

  first-IsReport :
      (x y : Finding) → IsReport active x → IsReport active y → IsReport active (first_finding x y)
  first-IsReport all_supported y hx hy = hy
  first-IsReport (unsupported name needed) y hx hy = hx
  first-IsReport (panicked name) y hx hy = hx

  mutual
    unfolding find_unsupported_in_assertion

    assertion-IsReport : (a : Assertion) → IsReport active (find_unsupported_in_assertion a active)
    assertion-IsReport (assertion n on ls all any l) = elim (Bool-cases (is_filled all)) [
      | inl e ↦ rw e (list-IsReport all)
      | inr e1 ↦ elim (Bool-cases (is_filled any)) [
        | inl e ↦ rw (e1, e) (list-IsReport any)
        | inr e2 ↦ rw (e1, e2) (leaf-IsReport (assertion n on ls all any l) _ e1 e2 refl)
      ]
    ]

    list-IsReport : (list : Assertions) → IsReport active (find_unsupported_matcher list active)
    list-IsReport nil = tt
    list-IsReport (cons a rest) =
        first-IsReport (find_unsupported_in_assertion a active)
          (find_unsupported_matcher rest active) (assertion-IsReport a) (list-IsReport rest)

-- The gate never panics. A matcher that it reports does not run at the active tier, but at the tier that
-- the report calls needed, and at the tier of each backend that is listed for that needed tier.
pub find_unsupported_matcher-IsReport :
    (asserts : Assertions) (active : String)
    → IsReport active (find_unsupported_matcher asserts active)
find_unsupported_matcher-IsReport asserts active = list-IsReport active asserts
