-- ===== src/Dsl/Ceiling/Live.antt =====
-- internal/dsl/tier_ceiling.go: reading live state, and the template tier.
use vigie.Prelude.{
  String, ◌≡◌, refl, sym, ap, ◌∙◌, Bool, true, false, ◌||◌, Option, none, some, List, [], ◌∷◌, ◌==◌,
  eq_iff, arith, Bool-cases, inl, inr,
}
use vigie.Dsl.Assertion.{
  Assertion, Assertions, assertion, nil, cons, Lookup, no_lookup, lookup, is_set,
}
use vigie.Dsl.Capability.{Capability, tier_provides}
use vigie.Dsl.Ceiling.{
  set_matchers, needs_of, Unmet, or_then, unmet_need, unmet_of, first_unmet_matcher, first_unmet_in,
  first_unmet_nested, needs_live, any_live, reads_live_state, reads_live_in, reads_live_nested,
}

abbrev provided : Capability → Bool
provided = tier_provides "template"

provided_lem : (c : Capability) → provided c ≡ (c == "renderedManifests")
unfolding tier_provides
provided_lem c = ground (arith, eq_iff c "renderedManifests", eq_iff "renderedManifests" c)

unmet_need-live : (needs : List Capability) → unmet_need provided needs ≡ needs_live needs
unmet_need-live [] = refl
unmet_need-live (need ∷ needs) = rw (provided_lem need, unmet_need-live needs) refl

is_set-or_then : (u v : Option Unmet) → is_set (or_then u v) ≡ (is_set u || is_set v)
is_set-or_then none v = refl
is_set-or_then (some u) v = refl

unmet_of-live : (ms : List String) → is_set (unmet_of provided ms) ≡ any_live ms
unfolding unmet_of
unmet_of-live [] = refl
unmet_of-live (m ∷ ms) = elim (Bool-cases (needs_live (needs_of m))) [
  | inl e ↦ let live = unmet_need-live (needs_of m) ∙ e in rw (live, e) refl
  | inr e ↦ let still = unmet_need-live (needs_of m) ∙ e in rw (still, e) (unmet_of-live ms)
]

or_assoc : (w x y z : Bool) → (w || (x || (y || z))) ≡ (w || x || y || z)
or_assoc true x y z = refl
or_assoc false true y z = refl
or_assoc false false true z = refl
or_assoc false false false z = refl

mutual
  unfolding first_unmet_matcher reads_live_state

  live : (a : Assertion) → is_set (first_unmet_matcher provided a) ≡ reads_live_state a
  live (assertion n on ls all any l) =
      let ms = set_matchers (assertion n on ls all any l) in
      is_set-or_then (first_unmet_in provided all) _
      ∙ ap (λ x. is_set (first_unmet_in provided all) || x)
          (is_set-or_then (first_unmet_in provided any) _
            ∙ ap (λ x. is_set (first_unmet_in provided any) || x)
                (is_set-or_then (first_unmet_nested provided l) _))
      ∙ rw (live_in all, live_in any, live_nested l, unmet_of-live ms)
          (or_assoc (reads_live_in all) (reads_live_in any) (reads_live_nested l) (any_live ms))

  live_in : (list : Assertions) → is_set (first_unmet_in provided list) ≡ reads_live_in list
  live_in nil = refl
  live_in (cons a rest) =
      is_set-or_then (first_unmet_matcher provided a) _ ∙ rw (live a, live_in rest) refl

  live_nested : (l : Lookup) → is_set (first_unmet_nested provided l) ≡ reads_live_nested l
  live_nested no_lookup = refl
  live_nested (lookup q t e) =
      is_set-or_then (first_unmet_in provided t) _ ∙ rw (live_in t, live_in e) refl

-- An assertion reads live state exactly when the template tier does not provide all that it needs.
pub reads_live_state_lem :
    (a : Assertion) → reads_live_state a ≡ is_set (first_unmet_matcher (tier_provides "template") a)
reads_live_state_lem a = sym (live a)
