-- ===== src/Matchers/Registry/Declared.antt =====
-- internal/matchers/registry.go: what the registered matchers have to do with the fields of Assertion.
use vigie.Prelude.{
  String, ◌≡◌, refl, sym, ◌∙◌, Bool, true, false, some, List, [], ◌∷◌, ◌==◌, if◌then◌else◌,
  contains, All, Bool-cases, inl, inr,
}
use vigie.Dsl.Assertion.{Assertion, is_set}
use vigie.Dsl.Capability.{capabilities_for_matcher}
use vigie.Dsl.Ceiling.{matcher_fields, names_set, set_matchers}
use vigie.Matchers.Registry.{
  Matcher, simple, all_of_matcher, any_of_matcher, matches, registry, find_in, find,
}

-- What the first field of the name says.
flag : String → List (String × Bool) → Bool
flag name [] = false
flag name ((n, set) ∷ rest) = if n == name then set else flag name rest

names_set-flag :
    (name : String) (fields : List (String × Bool))
    → flag name fields ≡ true
    → contains name (names_set fields) ≡ true
unfolding flag
names_set-flag name [] h = cc
names_set-flag name ((n, true) ∷ rest) h = elim (Bool-cases (n == name)) [
  | inl e ↦ rw e refl
  | inr e ↦ rw e (names_set-flag name rest (rw e at h))
]
names_set-flag name ((n, false) ∷ rest) h = elim (Bool-cases (n == name)) [
  | inl e ↦ let bad : false ≡ true = rw e at h in cc
  | inr e ↦ names_set-flag name rest (rw e at h)
]

-- A simple matcher claims an assertion by the field of its name, which declares its capabilities.
IsField : Matcher → Type 0
IsField (simple name m) =
    ((a : Assertion) → m a ≡ flag name (matcher_fields a))
    × (is_set (capabilities_for_matcher name) ≡ true)
IsField all_of_matcher = Unit
IsField any_of_matcher = Unit

registry-IsField : All IsField registry
unfolding IsField flag capabilities_for_matcher
registry-IsField = (
  (λ a. refl, refl),
  (
    (λ a. refl, refl),
    (
      (λ a. refl, refl),
      (
        (λ a. refl, refl),
        (
          (λ a. refl, refl),
          (
            (λ a. refl, refl),
            (
              (λ a. refl, refl),
              (
                (λ a. refl, refl),
                (
                  (λ a. refl, refl),
                  (
                    (λ a. refl, refl),
                    (
                      (λ a. refl, refl),
                      (
                        (λ a. refl, refl),
                        (
                          (λ a. refl, refl),
                          (
                            (λ a. refl, refl),
                            (
                              (λ a. refl, refl),
                              (
                                (λ a. refl, refl),
                                (
                                  (λ a. refl, refl),
                                  (
                                    (λ a. refl, refl),
                                    (
                                      (λ a. refl, refl),
                                      (
                                        tt,
                                        (
                                          tt,
                                          (
                                            (λ a. refl, refl),
                                            (
                                              (λ a. refl, refl),
                                              (
                                                (λ a. refl, refl),
                                                (
                                                  (λ a. refl, refl),
                                                  (
                                                    (λ a. refl, refl),
                                                    (
                                                      (λ a. refl, refl),
                                                      (
                                                        (λ a. refl, refl),
                                                        (
                                                          (λ a. refl, refl),
                                                          (
                                                            (λ a. refl, refl),
                                                            (
                                                            (λ a. refl, refl),
                                                            (
                                                            (λ a. refl, refl),
                                                            (
                                                            (λ a. refl, refl),
                                                            (
                                                            (λ a. refl, refl),
                                                            (
                                                            (λ a. refl, refl),
                                                            (
                                                            (λ a. refl, refl),
                                                            (
                                                            (λ a. refl, refl),
                                                            (
                                                            (λ a. refl, refl),
                                                            ((λ a. refl, refl), tt),
                                                            ),
                                                            ),
                                                            ),
                                                            ),
                                                            ),
                                                            ),
                                                            ),
                                                            ),
                                                          ),
                                                        ),
                                                      ),
                                                    ),
                                                  ),
                                                ),
                                              ),
                                            ),
                                          ),
                                        ),
                                      ),
                                    ),
                                  ),
                                ),
                              ),
                            ),
                          ),
                        ),
                      ),
                    ),
                  ),
                ),
              ),
            ),
          ),
        ),
      ),
    ),
  ),
)

found_in :
    (ms : List Matcher) (a : Assertion) (m : Matcher)
    → All IsField ms
    → find_in ms a ≡ some m
    → IsField m × (matches m a ≡ true)
found_in [] a m u h = cc
found_in (k ∷ ms) a m u h = elim (Bool-cases (matches k a)) [
  | inl e ↦
      let same : some k ≡ some m = rw e at h in let equal : k ≡ m = cc in rw (← equal) (u.0, e)
  | inr e ↦ found_in ms a m u.1 (rw e at h)
]

-- The matcher that is found for an assertion claims it, and if it is a simple one, its field is set
-- and declares capabilities.
abbrev pub Claims : Assertion → Matcher → Type 0
Claims a (simple name m) =
    (contains name (set_matchers a) ≡ true) × (is_set (capabilities_for_matcher name) ≡ true)
Claims a all_of_matcher = matches all_of_matcher a ≡ true
Claims a any_of_matcher = matches any_of_matcher a ≡ true

claim : (a : Assertion) (m : Matcher) → IsField m → matches m a ≡ true → Claims a m
unfolding IsField set_matchers
claim a (simple name m) (f, c) h = (names_set-flag name (matcher_fields a) (sym (f a) ∙ h), c)
claim a all_of_matcher f h = h
claim a any_of_matcher f h = h

pub find-Claims : (a : Assertion) (m : Matcher) → find a ≡ some m → Claims a m
unfolding find
find-Claims a m h = let (f, e) = found_in registry a m registry-IsField h in claim a m f e
